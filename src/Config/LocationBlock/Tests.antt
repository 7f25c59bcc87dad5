-- ===== src/Config/LocationBlock/Tests.antt =====
-- A location block that stands in front of its server's max_body_size.
use create_httpserver_from_b.Common.{
  ◌≡◌, refl, false, List, [], ◌∷◌, Bytes, codes, eq_bytes, lookup, put,
}
use create_httpserver_from_b.Common.Decimal.{atol, is_positive}
use create_httpserver_from_b.Status.{payload_too_large_413}
use create_httpserver_from_b.Utils.{ft_config_split, split_words}
use create_httpserver_from_b.Config.{Location}
use create_httpserver_from_b.Config.Loaded.{
  done, ContentListType, insert_new, is_vaild_server_block_content, is_vaild_location_block,
}
use create_httpserver_from_b.Config.LocationBlock.{
  location_words, location_lines, location_of, close_location, get_location_expand,
}
use create_httpserver_from_b.Exchange.{Exchange, threw}
use create_httpserver_from_b.Exchange.Fixture.{sample_system, asking}
use create_httpserver_from_b.PathFinder.{use_location}
use create_httpserver_from_b.PathFinder.BeforeLimit.{use_location-before_limit}

-- The lines of a location behind the line that names it
abbrev location_text : List Bytes
location_text = codes "root www" ∷ codes "accepted_method POST" ∷ codes "}" ∷ []

abbrev location_names : ContentListType
location_names = (codes "root", 0) ∷ (codes "accepted_method", 1) ∷ []

abbrev unlimited : Location
unlimited = record {
  language = [];
  root = codes "www";
  auto_index = [];
  index = [];
  ourcgi_pass = [];
  ourcgi_index = [];
  uploaded_path = [];
  accepted_method = codes "POST";
  redirection = [];
  max_body_size = [];
}

abbrev posting : Exchange
posting =
    let x = asking (codes "POST") (codes "/") in
    let q = x.request in record x { request = record q { body = codes "b" } }

unlimited-parsed : get_location_expand location_names 3 [] location_text ≡ done unlimited []
unfolding get_location_expand location_lines location_words location_of close_location
    is_vaild_server_block_content is_vaild_location_block insert_new ft_config_split split_words
    atol eq_bytes lookup put
unlimited-parsed = refl

unlimited-no_limit : is_positive (atol []) ≡ false
unfolding atol
unlimited-no_limit = refl

use_location-before_limit_example :
    use_location sample_system unlimited (codes "www/") [] posting
    ≡ threw payload_too_large_413 posting
use_location-before_limit_example =
    use_location-before_limit location_names 3 location_text [] unlimited sample_system
      (codes "www/") [] posting unlimited-parsed unlimited-no_limit refl
