-- ===== src/Config/ServerBlock.antt =====
-- Config::get_parse_server_block and its callers (src/Config/content.cpp, src/Config/Config.cpp).
pub mod Valid
pub mod Servers
pub mod FirstEntry
mod Tests
use create_httpserver_from_b.Common.{
  ℕ, zero, suc, ◌+◌, Bool, true, false, not, ◌&&◌, ◌||◌, List, [], ◌∷◌, ◌++◌, Option, none, some,
  Bytes, codes, length, ◌==◌, if◌then◌else◌, is_some, empty?, eq_bytes, lookup, put,
}
use create_httpserver_from_b.Common.Decimal.{atol, is_positive}
use create_httpserver_from_b.Utils.{ft_config_split}
use create_httpserver_from_b.Config.{Location, ServerConf}
use create_httpserver_from_b.Config.Loaded.{
  Loaded, done, exited, undefined, stuck, bind_loaded, lines_of, insert_new, ContentListType,
  set_vaild_content_list, is_vaild_server_block_content, is_vaild_server_block, values_of,
}
use create_httpserver_from_b.Config.LocationBlock.{get_location_expand}

-- The contents and the locations that a server block has so far.
pub record Block : Type 0 where
  pub conf : List (Bytes × List Bytes)
  pub locations : List (Bytes × Location)

-- `temp_conf["max_body_size"][0]`, if there is such an entry
pub inherited : Option (List Bytes) → Option Bytes
inherited none = some []
inherited (some []) = none
inherited (some (v ∷ vs)) = some v

-- The line of a location; `next` goes on with the block.
pub location_line :
    ContentListType
    → List Bytes
    → Block
    → List Bytes
    → Option Bytes
    → (Block → List Bytes → Loaded Block)
    → Loaded Block
location_line list ws b rest none next = undefined
location_line list [] b rest (some max) next = exited
location_line list (name ∷ ws) b rest (some max) next =
    bind_loaded (get_location_expand list (length ws + 2) max rest)
      (λ location. next (record b { locations = insert_new name location b.locations }))

-- One line of a server block, by its words
pub server_words :
    ContentListType
    → List Bytes
    → Block
    → List Bytes
    → (Block → List Bytes → Loaded Block)
    → Loaded Block
unfolding inherited location_line
server_words list [] b rest next = next b rest
server_words list (w ∷ ws) b rest next =
    if eq_bytes w (codes "}")
    then done b rest
    else if is_vaild_server_block_content w list
    then exited
    else if eq_bytes w (codes "location")
    then location_line list ws b rest (inherited (lookup (codes "max_body_size") b.conf)) next
    else next (record b { conf = insert_new w ws b.conf }) rest

-- The loop of get_parse_server_block
pub server_lines : ContentListType → ℕ → Block → List Bytes → Loaded Block
unfolding server_words
server_lines list zero b lines = stuck
server_lines list (suc fuel) b [] = done b []
server_lines list (suc fuel) b (line ∷ rest) =
    server_words list (ft_config_split line) b rest (server_lines list fuel)

-- What the calls of read answer in turn on the error page: `none` for -1, no byte for its end.
abbrev pub PageReads : Type 0
PageReads = Bytes → Option (List (Option Bytes))

-- The loop of openErrorPage; `none` is an exit.
pub read_page : List (Option Bytes) → Bytes → Option Bytes
read_page [] acc = some acc
read_page (none ∷ reads) acc = none
read_page (some [] ∷ reads) acc = some acc
read_page (some (c ∷ chunk) ∷ reads) acc = read_page reads (acc ++ c ∷ chunk)

page_path : ServerConf → Bytes → Bytes
page_path server page =
    elim server.root [ [] ↦ codes "./data" | root ∷ _ ↦ root ] ++ (codes "/" ++ page)

opened_page : Option (List (Option Bytes)) → Bytes → Option Bytes
opened_page none acc = some acc
opened_page (some reads) acc = read_page reads acc

pub page_of : PageReads → ServerConf → List Bytes → Option Bytes
unfolding page_path opened_page
page_of pages server [] = some server.error_page_vector
page_of pages server (page ∷ ps) =
    opened_page (pages (page_path server page)) server.error_page_vector

-- Config::openErrorPage; `none` is an exit.
pub open_error_page : PageReads → ServerConf → Option ServerConf
unfolding page_of
open_error_page pages server = elim (page_of pages server server.error_page) [
  | none ↦ none
  | some page ↦ some (record server { error_page_vector = page })
]

pub server_of : Block → ServerConf
server_of b = record {
  server_name = values_of (codes "server_name") b.conf;
  listen = values_of (codes "listen") b.conf;
  index = values_of (codes "index") b.conf;
  root = values_of (codes "root") b.conf;
  max_header_size = values_of (codes "max_header_size") b.conf;
  max_body_size = values_of (codes "max_body_size") b.conf;
  error_page = values_of (codes "error_page") b.conf;
  error_page_vector = [];
  locations = b.locations;
}

-- get_parse_server_block behind its loop
pub close_server : PageReads → Block → List Bytes → Loaded ServerConf
close_server pages b rest =
    if is_vaild_server_block (server_of b)
    then exited
    else elim (open_error_page pages (server_of b)) [
      | none ↦ exited
      | some server ↦ done server rest
    ]

abbrev pub empty_block : Block
empty_block = record { conf = []; locations = [] }

-- Config::get_parse_server_block
pub get_parse_server_block : PageReads → ContentListType → List Bytes → Loaded ServerConf
get_parse_server_block pages list lines =
    bind_loaded (server_lines list (length lines + 1) empty_block lines) (close_server pages)

-- The test of a line outside of every block
pub opens_server : List Bytes → Bool
opens_server (w ∷ (v ∷ [])) = eq_bytes w (codes "server") && eq_bytes v (codes "{")
opens_server _ = false

-- The loop of Config::set_m_server_conf
pub conf_lines :
    PageReads → ContentListType → ℕ → List ServerConf → List Bytes → Loaded (List ServerConf)
unfolding opens_server
conf_lines pages list zero servers lines = stuck
conf_lines pages list (suc fuel) servers [] = done servers []
conf_lines pages list (suc fuel) servers (line ∷ rest) =
    let next : ServerConf → List Bytes → Loaded (List ServerConf) =
      λ server. conf_lines pages list fuel (servers ++ server ∷ []) in
    if opens_server (ft_config_split line)
    then bind_loaded (get_parse_server_block pages list rest) next
    else exited

pub set_m_server_conf : PageReads → ContentListType → List Bytes → Loaded (List ServerConf)
set_m_server_conf pages list lines = conf_lines pages list (length lines + 1) [] lines

pub config_file : PageReads → ContentListType → Option Bytes → Loaded (List ServerConf)
config_file pages list none = exited
config_file pages list (some text) = set_m_server_conf pages list (lines_of text)

pub contents_read : PageReads → Option ContentListType → Option Bytes → Loaded (List ServerConf)
unfolding config_file
contents_read pages none conf = undefined
contents_read pages (some list) conf = config_file pages list conf

-- Config::Config; a file that cannot be opened is `none`.
pub load_config : PageReads → Option Bytes → Option Bytes → Loaded (List ServerConf)
unfolding contents_read
load_config pages conf none = exited
load_config pages conf (some text) =
    contents_read pages (set_vaild_content_list (lines_of text) 0 []) conf
