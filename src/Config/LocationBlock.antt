-- ===== src/Config/LocationBlock.antt =====
-- Config::get_location_expand (src/Config/content.cpp), on the lines that getline still has to read.
pub mod Valid
mod Tests
use create_httpserver_from_b.Common.{
  ℕ, zero, suc, ◌+◌, Bool, true, false, not, ◌&&◌, ◌||◌, List, [], ◌∷◌, ◌++◌, Option, none, some,
  Bytes, codes, length, ◌==◌, if◌then◌else◌, is_some, empty?, eq_bytes, lookup, put,
}
use create_httpserver_from_b.Common.Decimal.{atol, is_positive}
use create_httpserver_from_b.Utils.{ft_config_split}
use create_httpserver_from_b.Config.{Location, ServerConf}
use create_httpserver_from_b.Config.Loaded.{
  Loaded, done, exited, undefined, stuck, bind_loaded, insert_new, ContentListType,
  is_vaild_server_block_content, is_vaild_location_block, value_of,
}

-- One line of a location block, by its words; `next` goes on with the map.
pub location_words :
    ContentListType
    → List Bytes
    → List (Bytes × Bytes)
    → List Bytes
    → (List (Bytes × Bytes) → Loaded (List (Bytes × Bytes)))
    → Loaded (List (Bytes × Bytes))
location_words list [] m rest next = undefined
location_words list (w ∷ []) m rest next = if eq_bytes w (codes "}") then done m rest else exited
location_words list (w ∷ (v ∷ [])) m rest next =
    if eq_bytes w (codes "}")
    then done m rest
    else if is_vaild_server_block_content w list
    then exited
    else next (insert_new w v m)
location_words list (w ∷ (v ∷ (u ∷ us))) m rest next =
    if eq_bytes w (codes "}") then done m rest else exited

-- The loop of get_location_expand
pub location_lines :
    ContentListType → List Bytes → List (Bytes × Bytes) → Loaded (List (Bytes × Bytes))
unfolding location_words
location_lines list [] m = done m []
location_lines list (line ∷ rest) m =
    location_words list (ft_config_split line) m rest (location_lines list rest)

-- The location that the map has the contents of
pub location_of : List (Bytes × Bytes) → Bytes → Location
location_of m server_max_size =
    let own = value_of (codes "max_body_size") m in
    record {
      language = value_of (codes "language") m;
      root = value_of (codes "root") m;
      auto_index = value_of (codes "auto_index") m;
      index = value_of (codes "index") m;
      ourcgi_pass = value_of (codes "ourcgi_pass") m;
      ourcgi_index = value_of (codes "ourcgi_index") m;
      uploaded_path = value_of (codes "uploaded_path") m;
      accepted_method = value_of (codes "accepted_method") m;
      redirection = value_of (codes "redirection") m;
      max_body_size = if empty? own then server_max_size else own;
    }

-- get_location_expand behind its loop
pub close_location : Bytes → List (Bytes × Bytes) → List Bytes → Loaded Location
close_location server_max_size m rest =
    let own = value_of (codes "max_body_size") m in
    let location = location_of m server_max_size in
    if not (empty? own) && not (is_positive (atol own))
    then exited
    else if is_vaild_location_block location
    then exited
    else done location rest

-- Config::get_location_expand. It is called with the count of words of the line that names the
-- location, and exits before that name is read if the count is not 3.
pub get_location_expand : ContentListType → ℕ → Bytes → List Bytes → Loaded Location
get_location_expand list content_size server_max_size lines =
    if not (content_size == 3)
    then exited
    else bind_loaded (location_lines list lines []) (close_location server_max_size)
