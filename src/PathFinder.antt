-- ===== src/PathFinder.antt =====
-- src/HttpProcessor/PathFinder.cpp: from the URI and the configured locations to a path. A
-- function here takes the system first; the request is read through the exchange.
pub mod Applied
pub mod Governed
pub mod BeforeLimit
mod Tests
use create_httpserver_from_b.Common.{
  ℕ, zero, suc, ◌+◌, ◌-◌, Bool, true, false, not, ◌&&◌, ◌||◌, List, [], ◌∷◌, ◌++◌, Option, none,
  some, Bytes, codes, length, drop, take, ltb, ◌==◌, if◌then◌else◌, eq_bytes, index_from,
  last_index_of, contains_sub, lookup, is_some, last?, pop_back,
}
use create_httpserver_from_b.Common.Decimal.{atol, lt_size}
use create_httpserver_from_b.Status.{not_found_404, payload_too_large_413, bad_gateway_502}
use create_httpserver_from_b.Message.{Request, Response}
use create_httpserver_from_b.Config.{Location, ServerConf}
use create_httpserver_from_b.Exchange.{
  System, M, Exchange, returned, threw, aborted, ◌>>=◌, ◌>>◌, return, throw, abort, update_response,
}

-- setMethod, setUpload and setRootPath are assignments of one field.
pub set_root : System → Bytes → Response → Response
set_root os root r =
    if os.access_ok root then record r { file_path = root; path_exist = true } else r

-- `if (name == "") … else if (checkExist(root + name)) … else …`
name_exists : System → Bytes → Bytes → Bool
name_exists os root [] = false
name_exists os root (c ∷ name) = os.access_ok (root ++ c ∷ name)

pub set_index : System → Bytes → Bytes → Bytes → Response → Response
unfolding name_exists
set_index os root file_name index_name r = record r {
  file_name = file_name;
  index_name = index_name;
  file_exist = name_exists os root file_name;
  index_exist = name_exists os root index_name;
}

pub set_auto_index : Bytes → Response → Response
set_auto_index auto_index r =
    if eq_bytes auto_index (codes "on") then record r { auto_index = true } else r

pub set_redirection : Bytes → Response → Response
set_redirection [] r = r
set_redirection (c ∷ redirection) r = record r {
  rediretion_location = c ∷ redirection;
  redirection_exist = true;
}

-- setBasic: every caller takes the other seven arguments from one location.
pub set_basic : System → Location → Bytes → Bytes → Response → Response
unfolding set_root set_index set_auto_index set_redirection
set_basic os l root file_name r =
    let r1 : Response = record r { accepted_method = l.accepted_method } in
    let r2 = set_index os root file_name l.index (set_root os root r1) in
    let r3 : Response = record r2 { uploaded_path = l.uploaded_path } in
    let r4 = set_redirection l.redirection (set_auto_index l.auto_index r3) in
    record r4 { root_path = l.root }

-- setMaxSize and checkMaxSize
pub set_max_size : Bytes → M (Unit {0})
set_max_size max_body_size x =
    if lt_size (atol max_body_size) (length x.request.body)
    then threw payload_too_large_413 x
    else returned tt x

-- setMaxSize and setBasic, as they stand together in every caller
pub use_location : System → Location → Bytes → Bytes → M (Unit {0})
use_location os l root file_name = do
  set_max_size l.max_body_size
  update_response (set_basic os l root file_name)

-- From `npos + 1`, which is 0, or from behind the position
abbrev pub behind : Option ℕ → ℕ
behind none = 0
behind (some i) = i + 1

-- The extension of the URI's last part, from its last dot on.
pub extension : Bytes → Option Bytes
extension uri =
    if is_some (last_index_of b'.' uri)
    then (let last_part = drop (behind (last_index_of b'/' uri)) uri in
        elim (last_index_of b'.' last_part) [ none ↦ none | some dot ↦ some (drop dot last_part) ])
    else none

-- The assignments of setCgi
pub set_cgi_response : System → Location → Response → Response
unfolding set_index
set_cgi_response os l r =
    let r1 : Response = record r {
      cgi_flag = true;
      cgi_bin_path = l.ourcgi_pass;
      root_path = l.root;
      uploaded_path = l.uploaded_path;
    } in
    let r2 = set_index os (l.root ++ codes "/") l.ourcgi_index l.index r1 in
    record r2 { accepted_method = l.accepted_method }

-- setCgi from the found location on
pub set_cgi_location : System → Location → M Bool
set_cgi_location os l =
    if eq_bytes l.ourcgi_pass []
    then return false
    else if not (os.access_ok l.ourcgi_pass)
        || os.opendir_ok l.ourcgi_pass
        || eq_bytes l.ourcgi_index []
    then throw bad_gateway_502
    else (do set_max_size l.max_body_size; update_response (set_cgi_response os l); return true)

pub set_cgi_found : System → Option Location → M Bool
unfolding set_cgi_location
set_cgi_found os none = return false
set_cgi_found os (some l) = set_cgi_location os l

pub set_cgi_key : System → ServerConf → Option Bytes → M Bool
unfolding set_cgi_found
set_cgi_key os server none = return false
set_cgi_key os server (some key) = set_cgi_found os (lookup key server.locations)

-- setCgi and isCgiBlock
pub set_cgi : System → ServerConf → Bytes → M Bool
unfolding set_cgi_key
set_cgi os server uri = set_cgi_key os server (extension uri)

-- Where the location "/" is asked for, its absence is NOT_FOUND_404.
pub with_default {ℓ} : {A : Type ℓ} → Option Location → (Location → M A) → M A
with_default none f = throw not_found_404
with_default (some l) f = f l

pub is_root_block : System → ServerConf → Bytes → M Bool
unfolding with_default
is_root_block os server uri =
    if eq_bytes uri (codes "/") || eq_bytes uri []
    then with_default (lookup (codes "/") server.locations)
        (λ l. do use_location os l (l.root ++ codes "/") []; return true)
    else return false

-- `if (entire_path[entire_path.length() - 1] == '/') entire_path.pop_back();`
pub drop_last_slash : Bytes → Bytes
drop_last_slash path = elim (last? path) [
  | none ↦ path
  | some c ↦ if c == b'/' then pop_back path else path
]

pub is_end_with_directory : System → Bytes → Location → M Bool
is_end_with_directory os entire_path l =
    if os.opendir_ok entire_path
    then (do use_location os l (drop_last_slash entire_path ++ codes "/") []; return true)
    else return false

pub is_end_with_file_name : System → Bytes → Location → M (Unit {0})
is_end_with_file_name os entire_path l =
    let cut = behind (last_index_of b'/' entire_path) in
    use_location os l (take cut entire_path) (drop cut entire_path)

-- A URI with one slash that names no location, under the location "/"
pub default_file : System → Bytes → Location → M (Unit {0})
default_file os uri l =
    if os.access_ok (l.root ++ uri)
    then (do
      done ← is_end_with_directory os (l.root ++ uri) l
      if done then return tt else use_location os l (l.root ++ codes "/") (drop 1 uri))
    else throw not_found_404

pub one_slash_found : System → ServerConf → Bytes → Option Location → M (Unit {0})
unfolding default_file
one_slash_found os server uri (some l) = use_location os l (l.root ++ codes "/") []
one_slash_found os server uri none =
    with_default (lookup (codes "/") server.locations) (default_file os uri)

pub one_slash_in_uri : System → ServerConf → Bytes → M (Unit {0})
unfolding one_slash_found
one_slash_in_uri os server uri = one_slash_found os server uri (lookup uri server.locations)

-- A directory or else a file below a location's root
pub below_location : System → Bytes → Location → M (Unit {0})
below_location os entire_path l = do
  done ← is_end_with_directory os entire_path l
  if done then return tt else is_end_with_file_name os entire_path l

-- firstBlockIsNotLocation where the first block is no location
pub default_path : System → Bytes → Bytes → Location → M (Unit {0})
default_path os location_key uri l =
    if os.access_ok (l.root ++ location_key)
    then below_location os (l.root ++ uri) l
    else throw not_found_404

-- firstBlockIsLocation; `substr(npos)` throws std::out_of_range
pub located_path : System → Bytes → Option ℕ → Location → M (Unit {0})
located_path os uri none l = abort
located_path os uri (some slash) l = below_location os (l.root ++ drop slash uri) l

pub many_slashes_found : System → ServerConf → Bytes → Bytes → Option Location → M (Unit {0})
many_slashes_found os server uri location_key none =
    with_default (lookup (codes "/") server.locations) (default_path os location_key uri)
many_slashes_found os server uri location_key (some l) =
    located_path os uri (index_from b'/' 1 uri) l

-- `substr(0, find("/", 1))`
pub first_block : Bytes → Bytes
first_block uri = elim (index_from b'/' 1 uri) [ none ↦ uri | some slash ↦ take slash uri ]

pub many_slashes_in_uri : System → ServerConf → Bytes → M (Unit {0})
unfolding many_slashes_found
many_slashes_in_uri os server uri =
    let location_key = first_block uri in
    many_slashes_found os server uri location_key (lookup location_key server.locations)

abbrev pub is_zero : Option ℕ → Bool
is_zero none = false
is_zero (some i) = i == 0

-- PathFinder::PathFinder behind its first two tests
pub find_path : System → ServerConf → Bytes → M (Unit {0})
find_path os server uri = do
  cgi ← set_cgi os server uri
  if cgi
      then return tt
      else if is_zero (last_index_of b'/' uri)
      then one_slash_in_uri os server uri
      else many_slashes_in_uri os server uri

-- PathFinder::PathFinder
pub path_finder : System → ServerConf → M (Unit {0})
path_finder os server x =
    let uri = x.request.uri in
    if contains_sub (codes "//") uri
    then threw not_found_404 x
    else (do
      root ← is_root_block os server uri
      if root then return tt else find_path os server uri)
        x
