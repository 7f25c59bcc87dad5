-- ===== src/PathFinder/Governed.antt =====
-- Which location governs a request, on every way through PathFinder.
use mathlib.Core.Path.{subst}
use create_httpserver_from_b.Common.{
  ℕ, ◌+◌, ◌≡◌, refl, sym, inl, inr, true, false, not, ◌||◌, [], ◌∷◌, ◌++◌, Option, none, some,
  Bytes, codes, length, drop, if◌then◌else◌, eq_bytes, index_of, index_from, last_index_of,
  contains_sub, lookup, Bool-cases, arith, Option-cases, take,
}
use create_httpserver_from_b.Common.Decimal.{atol, lt_size}
use create_httpserver_from_b.Config.{Location, ServerConf}
use create_httpserver_from_b.Exchange.{System, M, Exchange, ◌>>◌, return}
use create_httpserver_from_b.PathFinder.{
  set_max_size, use_location, extension, set_cgi_response, set_cgi_location, set_cgi_found,
  set_cgi_key, set_cgi, with_default, is_root_block, drop_last_slash, is_end_with_directory, behind,
  is_end_with_file_name, default_file, one_slash_found, one_slash_in_uri, below_location,
  default_path, located_path, many_slashes_found, first_block, many_slashes_in_uri, is_zero,
  find_path, path_finder,
}
use create_httpserver_from_b.PathFinder.Applied.{
  Governed, Tested, use_location-Governed, else_Governed, as_Tested,
}

module _ (os : System) (server : ServerConf) (x : Exchange) where
  with_default-Governed :
      (o : Option Location) (f : Location → M (Unit {0}))
      → ((l : Location) → o ≡ some l → Governed server x (f l x))
      → Governed server x (with_default o f x)
  unfolding with_default
  with_default-Governed none f h = (refl, inl refl)
  with_default-Governed (some l) f h = h l refl

  root_Tested :
      (o : Option Location)
      → o ≡ lookup (codes "/") server.locations
      → Tested server x
          (with_default o (λ l. use_location os l (l.root ++ codes "/") [] >> return true) x)
  unfolding with_default
  root_Tested none e = (refl, inl refl)
  root_Tested (some l) e =
      as_Tested os server x (use_location os l (l.root ++ codes "/") [] x)
        (use_location-Governed os server x (codes "/") l (l.root ++ codes "/") [] (sym e))

  is_root_block-Tested : (uri : Bytes) → Tested server x (is_root_block os server uri x)
  unfolding is_root_block
  is_root_block-Tested uri = elim (Bool-cases (eq_bytes uri (codes "/") || eq_bytes uri [])) [
    | inl t ↦ rw (t, is_root_block) (root_Tested (lookup (codes "/") server.locations) refl)
    | inr f ↦ rw (f, is_root_block) refl
  ]

  set_cgi_location-Tested :
      (key : Bytes) (l : Location)
      → lookup key server.locations ≡ some l
      → Tested server x (set_cgi_location os l x)
  unfolding set_cgi_location set_max_size set_cgi_response
  set_cgi_location-Tested key l here = elim (Bool-cases (eq_bytes l.ourcgi_pass [])) [
    | inl t ↦ rw (t, set_cgi_location) refl
    | inr f ↦
        elim (Bool-cases (
          not (os.access_ok l.ourcgi_pass)
          || os.opendir_ok l.ourcgi_pass
          || eq_bytes l.ourcgi_index [])) [
            | inl bad ↦ rw (f, bad, set_cgi_location) (refl, inr (inr refl))
            | inr good ↦
                elim (Bool-cases (lt_size (atol l.max_body_size) (length x.request.body))) [
                  | inl large ↦
                      rw (f, good, set_cgi_location, large, set_max_size) (refl, inr (inl refl))
                  | inr fits ↦
                      rw (f, good, set_cgi_location, fits, set_max_size)
                        (record {
                          same_request = refl;
                          same_effects = refl;
                          location = l;
                          applied = record {
                            key = key;
                            configured = here;
                            in_size = fits;
                            methods = refl;
                            root = refl;
                            upload = refl;
                          };
                        })
                ]
          ]
  ]

  set_cgi_found-Tested :
      (key : Bytes) (o : Option Location)
      → lookup key server.locations ≡ o
      → Tested server x (set_cgi_found os o x)
  unfolding set_cgi_found
  set_cgi_found-Tested key none e = refl
  set_cgi_found-Tested key (some l) e = set_cgi_location-Tested key l e

  set_cgi_key-Tested : (o : Option Bytes) → Tested server x (set_cgi_key os server o x)
  unfolding set_cgi_key
  set_cgi_key-Tested none = refl
  set_cgi_key-Tested (some key) = set_cgi_found-Tested key (lookup key server.locations) refl

  is_end_with_directory-Tested :
      (path key : Bytes) (l : Location)
      → lookup key server.locations ≡ some l
      → Tested server x (is_end_with_directory os path l x)
  unfolding is_end_with_directory
  is_end_with_directory-Tested path key l here = elim (Bool-cases (os.opendir_ok path)) [
    | inl t ↦
        rw (t, is_end_with_directory)
          (as_Tested os server x (use_location os l (drop_last_slash path ++ codes "/") [] x)
            (use_location-Governed os server x key l (drop_last_slash path ++ codes "/") [] here))
    | inr f ↦ rw (f, is_end_with_directory) refl
  ]

  default_file-Governed :
      (uri key : Bytes) (l : Location)
      → lookup key server.locations ≡ some l
      → Governed server x (default_file os uri l x)
  unfolding default_file
  default_file-Governed uri key l here = elim (Bool-cases (os.access_ok (l.root ++ uri))) [
    | inl t ↦
        rw (t, default_file)
          (else_Governed os server x (is_end_with_directory os (l.root ++ uri) l x)
            (use_location os l (l.root ++ codes "/") (drop 1 uri))
            (is_end_with_directory-Tested (l.root ++ uri) key l here)
            (use_location-Governed os server x key l (l.root ++ codes "/") (drop 1 uri) here))
    | inr f ↦ rw (f, default_file) (refl, inl refl)
  ]

  one_slash_found-Governed :
      (uri : Bytes) (o : Option Location)
      → lookup uri server.locations ≡ o
      → Governed server x (one_slash_found os server uri o x)
  unfolding one_slash_found
  one_slash_found-Governed uri (some l) e =
      use_location-Governed os server x uri l (l.root ++ codes "/") [] e
  one_slash_found-Governed uri none e =
      with_default-Governed (lookup (codes "/") server.locations) (default_file os uri)
        (λ l here. default_file-Governed uri (codes "/") l here)

  below_location-Governed :
      (path key : Bytes) (l : Location)
      → lookup key server.locations ≡ some l
      → Governed server x (below_location os path l x)
  unfolding below_location is_end_with_file_name
  below_location-Governed path key l here =
      let cut = behind (last_index_of b'/' path) in
      else_Governed os server x (is_end_with_directory os path l x)
        (use_location os l (take cut path) (drop cut path))
        (is_end_with_directory-Tested path key l here)
        (use_location-Governed os server x key l (take cut path) (drop cut path) here)

  default_path-Governed :
      (location_key uri key : Bytes) (l : Location)
      → lookup key server.locations ≡ some l
      → Governed server x (default_path os location_key uri l x)
  unfolding default_path
  default_path-Governed location_key uri key l here =
      elim (Bool-cases (os.access_ok (l.root ++ location_key))) [
        | inl t ↦ rw (t, default_path) (below_location-Governed (l.root ++ uri) key l here)
        | inr f ↦ rw (f, default_path) (refl, inl refl)
      ]

  located_path-Governed :
      (uri key : Bytes) (o : Option ℕ) (l : Location)
      → ¬ (o ≡ none)
      → lookup key server.locations ≡ some l
      → Governed server x (located_path os uri o l x)
  unfolding located_path
  located_path-Governed uri key none l some_slash here = absurd (some_slash refl)
  located_path-Governed uri key (some slash) l some_slash here =
      below_location-Governed (l.root ++ drop slash uri) key l here

  many_slashes_found-Governed :
      (uri location_key : Bytes) (o : Option Location)
      → ¬ (index_from b'/' 1 uri ≡ none)
      → lookup location_key server.locations ≡ o
      → Governed server x (many_slashes_found os server uri location_key o x)
  unfolding many_slashes_found
  many_slashes_found-Governed uri location_key none slash e =
      with_default-Governed (lookup (codes "/") server.locations) (default_path os location_key uri)
        (λ l here. default_path-Governed location_key uri (codes "/") l here)
  many_slashes_found-Governed uri location_key (some l) slash e =
      located_path-Governed uri location_key (index_from b'/' 1 uri) l slash e

last_index_of-none : (c : ℕ) (s : Bytes) → index_of c s ≡ none → last_index_of c s ≡ none
unfolding index_of last_index_of
last_index_of-none c [] h = refl
last_index_of-none c (x ∷ s) h = ground (arith, last_index_of-none c s)

only_slash : (s : Bytes) → index_of b'/' s ≡ none → last_index_of b'/' (b'/' ∷ s) ≡ some 0
unfolding last_index_of
only_slash s missing = rw (last_index_of-none b'/' s missing, last_index_of) refl

-- A second slash stands behind the first byte, if the last slash is not that byte.
second_slash :
    (s : Bytes)
    → is_zero (last_index_of b'/' (b'/' ∷ s)) ≡ false
    → ¬ (index_from b'/' 1 (b'/' ∷ s) ≡ none)
unfolding index_from
second_slash s many h = elim (Option-cases (index_of b'/' s)) [
  | inl missing ↦ (let m : true ≡ false = rw (only_slash s missing) at many in cc)
  | inr (i, e) ↦ (let m : some (1 + i) ≡ none = rw e at h in cc)
]

slashes_Governed :
    (os : System) (server : ServerConf) (x : Exchange) (uri s : Bytes)
    → uri ≡ b'/' ∷ s
    → Governed server x (
        (if is_zero (last_index_of b'/' uri)
            then one_slash_in_uri os server uri
            else many_slashes_in_uri os server uri)
          x)
unfolding one_slash_in_uri many_slashes_in_uri
slashes_Governed os server x uri s begins = elim (Bool-cases (is_zero (last_index_of b'/' uri))) [
  | inl t ↦ rw t (one_slash_found-Governed os server x uri (lookup uri server.locations) refl)
  | inr f ↦ rw f (
      many_slashes_found-Governed os server x uri (first_block uri)
        (lookup (first_block uri) server.locations)
        (subst (λ u. ¬ (index_from b'/' 1 u ≡ none)) (sym begins) (second_slash s (rw begins at f)))
        refl)
]

-- For a URI that begins with a slash, PathFinder applies a configured location whose size limit
-- the body keeps, and does not touch the request or the world; or it throws 404, 413 or 502 and
-- has changed nothing. It does not read out of range.
pub path_finder-Governed :
    (os : System) (server : ServerConf) (x : Exchange) (s : Bytes)
    → x.request.uri ≡ b'/' ∷ s
    → Governed server x (path_finder os server x)
unfolding path_finder find_path set_cgi one_slash_in_uri many_slashes_in_uri
path_finder-Governed os server x s begins =
    let uri = x.request.uri in
    elim (Bool-cases (contains_sub (codes "//") uri)) [
      | inl double ↦ rw (double, path_finder) (refl, inl refl)
      | inr f ↦
          rw (f, path_finder)
            (else_Governed os server x (is_root_block os server uri x) (find_path os server uri)
              (is_root_block-Tested os server x uri)
              (else_Governed os server x (set_cgi os server uri x) _
                (set_cgi_key-Tested os server x (extension uri))
                (slashes_Governed os server x uri s begins)))
    ]
