-- ===== src/Config/ServerBlock/Valid.antt =====
-- What holds of the servers that the parser of the configuration file accepts.
use create_httpserver_from_b.Common.{
  ℕ, zero, suc, ◌+◌, ◌≤◌, ◌<◌, ◌≡◌, ◌∙◌, sym, ap, ◌⊎◌, inl, inr, refl, Bool, true, false, not, ◌||◌,
  List, [], ◌∷◌, Option, none, some, Bytes, codes, length, if◌then◌else◌, empty?, eq_bytes,
  Bool-cases, Option-cases, arith, lookup,
}
use create_httpserver_from_b.Common.Decimal.{atol, is_positive}
use create_httpserver_from_b.Utils.{ft_config_split}
use create_httpserver_from_b.Config.{Location, ServerConf}
use create_httpserver_from_b.Config.Loaded.{
  Loaded, done, exited, undefined, stuck, bind_loaded, ContentListType, insert_new, values_of,
  is_vaild_server_block_content, is_vaild_server_block,
}
use create_httpserver_from_b.Config.Every.{Every, Every-map, insert_new-Every, lookup-insert_new}
use create_httpserver_from_b.Config.LocationBlock.{get_location_expand}
use create_httpserver_from_b.Config.LocationBlock.Valid.{
  ValidLocation, Gives, Gives-at_most, get_location_expand-Gives,
}
use create_httpserver_from_b.Config.ServerBlock.{
  Block, inherited, location_line, server_words, server_lines, PageReads, page_of, open_error_page,
  server_of, close_server, empty_block, get_parse_server_block,
}

-- A root and methods, and a size limit that is positive, or empty.
pub record Usable (l : Location) : Type 0 where
  pub root : empty? l.root ≡ false
  pub methods : empty? l.accepted_method ≡ false
  pub limit : (l.max_body_size ≡ []) ⊎ (is_positive (atol l.max_body_size) ≡ true)

-- A port, a size limit that is positive, and locations that are usable.
pub record ValidServer (s : ServerConf) : Type 0 where
  pub ports : empty? s.listen ≡ false
  pub size : Bytes
  pub sizes : List Bytes
  pub has_size : s.max_body_size ≡ size ∷ sizes
  pub positive : is_positive (atol size) ≡ true
  pub usable : Every Usable s.locations

-- A location of a block that is not closed yet: its limit may be the one of the block.
abbrev Hopeful : List (Bytes × List Bytes) → Location → Type 0
Hopeful conf l =
    (v : Bytes) × ValidLocation v l
    × ((v ≡ []) ⊎ ((vs : List Bytes) × (lookup (codes "max_body_size") conf ≡ some (v ∷ vs))))

abbrev Open : Block → Type 0
Open b = Every (Hopeful b.conf) b.locations

insert_new-Open :
    (w : Bytes) (ws : List Bytes) (b : Block)
    → Open b
    → Open (record b { conf = insert_new w ws b.conf })
insert_new-Open w ws b h =
    Every-map (Hopeful b.conf) (Hopeful (insert_new w ws b.conf)) b.locations keep h
  where
    keep : (l : Location) → Hopeful b.conf l → Hopeful (insert_new w ws b.conf) l
    keep l (v, ok, inl none_there) = (v, ok, inl none_there)
    keep l (v, ok, inr (vs, e)) =
        (v, ok, inr (vs, lookup-insert_new (codes "max_body_size") w (v ∷ vs) ws b.conf e))

module _ (list : ContentListType) (n : ℕ) (next : Block → List Bytes → Loaded Block)
    (go : (b : Block) (lines : List Bytes)
      → Open b
      → length lines ≤ n
      → Gives n Open (next b lines)) where
  located :
      (name max : Bytes) (b : Block) (k : ℕ) (r : Loaded Location)
      → k ≤ n
      → Open b
      → ((max ≡ [])
          ⊎ ((vs : List Bytes) × (lookup (codes "max_body_size") b.conf ≡ some (max ∷ vs))))
      → Gives k (ValidLocation max) r
      → Gives n Open
          (bind_loaded r (λ l. next (record b { locations = insert_new name l b.locations })))
  located name max b k (done l rest) h opened from (ok, shorter) =
      go (record b { locations = insert_new name l b.locations }) rest
        (insert_new-Every (Hopeful b.conf) name l b.locations (max, ok, from) opened) (omega arith)
  located name max b k exited h opened from ok = tt
  located name max b k undefined h opened from ok = tt
  located name max b k stuck h opened from ok = ok

  location_line-Gives :
      (ws : List Bytes) (b : Block) (rest : List Bytes) (o : Option (List Bytes))
      → Open b
      → length rest ≤ n
      → lookup (codes "max_body_size") b.conf ≡ o
      → Gives n Open (location_line list ws b rest (inherited o) next)
  unfolding location_line inherited
  location_line-Gives [] b rest none opened h e = tt
  location_line-Gives [] b rest (some []) opened h e = tt
  location_line-Gives [] b rest (some (v ∷ vs)) opened h e = tt
  location_line-Gives (name ∷ ws) b rest none opened h e =
      located name [] b (length rest) (get_location_expand list (length ws + 2) [] rest) h opened
        (inl refl) (get_location_expand-Gives list (length ws + 2) [] rest)
  location_line-Gives (name ∷ ws) b rest (some []) opened h e = tt
  location_line-Gives (name ∷ ws) b rest (some (v ∷ vs)) opened h e =
      located name v b (length rest) (get_location_expand list (length ws + 2) v rest) h opened
        (inr (vs, e)) (get_location_expand-Gives list (length ws + 2) v rest)

  server_words-Gives :
      (ws : List Bytes) (b : Block) (rest : List Bytes)
      → Open b
      → length rest ≤ n
      → Gives n Open (server_words list ws b rest next)
  unfolding server_words
  server_words-Gives [] b rest opened h = go b rest opened h
  server_words-Gives (w ∷ ws) b rest opened h =
      branch (eq_bytes w (codes "}")) (is_vaild_server_block_content w list)
        (eq_bytes w (codes "location"))
    where
      branch :
          (c d e : Bool)
          → Gives n Open (
              if c
              then done b rest
              else if d
              then exited
              else if e
              then location_line list ws b rest
                  (inherited (lookup (codes "max_body_size") b.conf))
                  next
              else next (record b { conf = insert_new w ws b.conf }) rest)
      branch true d e = (opened, h)
      branch false true e = tt
      branch false false true =
          location_line-Gives ws b rest (lookup (codes "max_body_size") b.conf) opened h refl
      branch false false false =
          go (record b { conf = insert_new w ws b.conf }) rest (insert_new-Open w ws b opened) h

server_lines-Gives :
    (list : ContentListType) (fuel n : ℕ) (b : Block) (lines : List Bytes)
    → length lines < fuel
    → Open b
    → length lines ≤ n
    → Gives n Open (server_lines list fuel b lines)
unfolding server_lines
server_lines-Gives list zero n b lines enough opened h = absurd (omega arith)
server_lines-Gives list (suc fuel) n b [] enough opened h = (opened, h)
server_lines-Gives list (suc fuel) n b (line ∷ rest) enough opened h =
    Gives-at_most Open (length rest) n
      (server_words list (ft_config_split line) b rest (server_lines list fuel)) (omega arith)
      (server_words-Gives list (length rest) (server_lines list fuel)
        (λ b' ls o shorter.
          server_lines-Gives list fuel (length rest) b' ls (omega arith) o shorter)
        (ft_config_split line) b rest opened (omega arith))

abbrev first_or : Bytes → List Bytes → Bytes
first_or default [] = default
first_or default (v ∷ vs) = v

Hopeful-Usable :
    (conf : List (Bytes × List Bytes)) (size : Bytes) (sizes : List Bytes) (l : Location)
    → values_of (codes "max_body_size") conf ≡ size ∷ sizes
    → is_positive (atol size) ≡ true
    → Hopeful conf l
    → Usable l
Hopeful-Usable conf size sizes l has positive (v, ok, from) = record {
  root = ok.root;
  methods = ok.methods;
  limit = limited from ok.limit;
}
  where
    limited :
        ((v ≡ []) ⊎ ((vs : List Bytes) × (lookup (codes "max_body_size") conf ≡ some (v ∷ vs))))
        → ((l.max_body_size ≡ v) ⊎ (is_positive (atol l.max_body_size) ≡ true))
        → (l.max_body_size ≡ []) ⊎ (is_positive (atol l.max_body_size) ≡ true)
    limited from (inr own) = inr own
    limited (inl nothing) (inl same) = inl (same ∙ nothing)
    limited (inr (vs, e)) (inl same) =
        let there : values_of (codes "max_body_size") conf ≡ v ∷ vs = rw (e, values_of) refl in
        let first : v ∷ vs ≡ size ∷ sizes = sym there ∙ has in
        inr (ap (λ s. is_positive (atol s)) (same ∙ ap (first_or size) first) ∙ positive)

-- What isVaildServerBlock has found, by the two lists that it tests
is_vaild_server_block-parts :
    (listen sizes : List Bytes)
    → (empty? listen || elim sizes [ [] ↦ true | size ∷ _ ↦ not (is_positive (atol size)) ]) ≡ false
    → (empty? listen ≡ false)
      × ((size : Bytes) × ((rest : List Bytes) × ((sizes ≡ size ∷ rest)
              × (is_positive (atol size) ≡ true))))
is_vaild_server_block-parts [] sizes e = absurd (ground arith)
is_vaild_server_block-parts (port ∷ ports) [] e = absurd (ground arith)
is_vaild_server_block-parts (port ∷ ports) (size ∷ rest) e =
    (refl, (size, (rest, (refl, ground arith))))

server_of-ValidServer :
    (b : Block) (page : Bytes)
    → is_vaild_server_block (server_of b) ≡ false
    → Open b
    → ValidServer (record (server_of b) { error_page_vector = page })
unfolding server_of is_vaild_server_block
server_of-ValidServer b page good opened =
    let (ports, (size, (sizes, (has, positive)))) =
      is_vaild_server_block-parts (values_of (codes "listen") b.conf)
        (values_of (codes "max_body_size") b.conf) good in
    record {
      ports = ports;
      size = size;
      sizes = sizes;
      has_size = has;
      positive = positive;
      usable =
          Every-map (Hopeful b.conf) Usable b.locations
            (λ l. Hopeful-Usable b.conf size sizes l has positive) opened;
    }

close_server-Gives :
    (pages : PageReads) (b : Block) (rest : List Bytes) (n : ℕ)
    → Open b
    → length rest ≤ n
    → Gives n ValidServer (close_server pages b rest)
unfolding close_server open_error_page
close_server-Gives pages b rest n opened h =
    elim (Bool-cases (is_vaild_server_block (server_of b))) [
      | inl bad ↦ rw (bad, close_server) tt
      | inr good ↦
          rw (good, close_server)
            (elim (Option-cases (page_of pages (server_of b) (server_of b).error_page)) [
              | inl failed ↦ rw (failed, open_error_page) tt
              | inr (page, read) ↦
                  rw (read, open_error_page) (server_of-ValidServer b page good opened, h)
            ])
    ]

-- The reading that a server block starts
pub get_parse_server_block-Gives :
    (pages : PageReads) (list : ContentListType) (lines : List Bytes)
    → Gives (length lines) ValidServer (get_parse_server_block pages list lines)
unfolding get_parse_server_block
get_parse_server_block-Gives pages list lines =
    closed (server_lines list (length lines + 1) empty_block lines) (
      server_lines-Gives list (length lines + 1) (length lines) empty_block lines (omega arith) tt
        (omega arith))
  where
    closed :
        (r : Loaded Block)
        → Gives (length lines) Open r
        → Gives (length lines) ValidServer (bind_loaded r (close_server pages))
    closed (done b rest) (opened, h) = close_server-Gives pages b rest (length lines) opened h
    closed exited h = tt
    closed undefined h = tt
    closed stuck h = h
