-- ===== src/Config.antt =====
-- include/Config.hpp: a configured location and server. The source spells them t_location and
-- t_server.
pub mod Loaded
pub mod Every
pub mod LocationBlock
pub mod ServerBlock
use create_httpserver_from_b.Common.{List, [], Bytes}

pub record Location : Type 0 where
  pub language : Bytes
  pub root : Bytes
  pub auto_index : Bytes
  pub index : Bytes
  pub ourcgi_pass : Bytes
  pub ourcgi_index : Bytes
  pub uploaded_path : Bytes
  pub accepted_method : Bytes
  pub redirection : Bytes
  pub max_body_size : Bytes

pub record ServerConf : Type 0 where
  pub server_name : List Bytes
  pub listen : List Bytes
  pub index : List Bytes
  pub root : List Bytes
  pub max_header_size : List Bytes
  pub max_body_size : List Bytes
  pub error_page : List Bytes
  pub error_page_vector : Bytes
  pub locations : List (Bytes × Location)

-- A t_server that nothing was assigned to.
abbrev pub empty_server : ServerConf
empty_server = record {
  server_name = [];
  listen = [];
  index = [];
  root = [];
  max_header_size = [];
  max_body_size = [];
  error_page = [];
  error_page_vector = [];
  locations = [];
}
