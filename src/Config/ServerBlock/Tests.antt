-- ===== src/Config/ServerBlock/Tests.antt =====
-- A small configuration file that is loaded.
use create_httpserver_from_b.Common.{
  ◌≡◌, refl, List, [], ◌∷◌, ◌++◌, none, some, Bytes, codes, eq_bytes, lookup, put,
}
use create_httpserver_from_b.Common.Decimal.{atol}
use create_httpserver_from_b.Utils.{ft_config_split, split_words}
use create_httpserver_from_b.Config.{ServerConf, empty_server}
use create_httpserver_from_b.Config.Loaded.{
  ContentListType, done, lines_of, insert_new, set_vaild_content_list,
  is_vaild_server_block_content, is_vaild_server_block,
}
use create_httpserver_from_b.Config.LocationBlock.Valid.{Gives}
use create_httpserver_from_b.Config.ServerBlock.{
  PageReads, inherited, location_line, server_words, server_lines, page_of, open_error_page,
  server_of, close_server, get_parse_server_block, opens_server, conf_lines, set_m_server_conf,
  config_file, contents_read, load_config,
}
use create_httpserver_from_b.Config.ServerBlock.FirstEntry.{
  Entries, filled, get_parse_server_block-first,
}
use create_httpserver_from_b.Config.ServerBlock.Servers.{ValidServers, load_config-Gives}

abbrev no_pages : PageReads
no_pages path = none

abbrev names_text : Bytes
names_text = codes "server\nlisten\nmax_body_size\nlocation\n"

abbrev conf_text : Bytes
conf_text = codes "server {\n listen 80 81\n max_body_size 5\n}\n"

load_config-Gives_example :
    Gives 0 ValidServers (load_config no_pages (some conf_text) (some names_text))
load_config-Gives_example = load_config-Gives no_pages (some conf_text) (some names_text)

abbrev loaded_server : ServerConf
loaded_server = record empty_server {
  listen = codes "80" ∷ codes "81" ∷ [];
  max_body_size = codes "5" ∷ [];
}

load_config-loaded :
    load_config no_pages (some conf_text) (some names_text) ≡ done (loaded_server ∷ []) []
unfolding inherited location_line server_words server_lines page_of open_error_page server_of
    close_server get_parse_server_block opens_server conf_lines set_m_server_conf config_file
    contents_read load_config lines_of insert_new set_vaild_content_list
    is_vaild_server_block_content is_vaild_server_block ft_config_split split_words atol eq_bytes
    lookup put
load_config-loaded = refl

-- A block that gives its ports twice
abbrev block_lines : List Bytes
block_lines = codes " listen 80 81" ∷ codes " listen 90" ∷ []

abbrev block_entries : List (Bytes × List Bytes)
block_entries =
    (codes "listen", codes "80" ∷ codes "81" ∷ []) ∷ (codes "listen", codes "90" ∷ []) ∷ []

abbrev block_names : ContentListType
block_names = (codes "listen", 0) ∷ []

block_lines-Entries : Entries block_names block_lines block_entries
unfolding ft_config_split split_words is_vaild_server_block_content eq_bytes lookup
block_lines-Entries = (refl, refl, refl, refl, (refl, refl, refl, refl, tt))

closing_words : ft_config_split (codes "}") ≡ codes "}" ∷ []
unfolding ft_config_split split_words
closing_words = refl

get_parse_server_block-first_example :
    (get_parse_server_block no_pages block_names (block_lines ++ codes "}" ∷ [])
      ≡ close_server no_pages (record { conf = filled block_entries []; locations = [] }) [])
    × ((k : Bytes) → lookup k (filled block_entries []) ≡ lookup k block_entries)
get_parse_server_block-first_example =
    get_parse_server_block-first no_pages block_names block_lines [] block_entries (codes "}") []
      block_lines-Entries closing_words
