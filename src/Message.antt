-- ===== src/Message.antt =====
-- include/Request.hpp, include/Response.hpp, include/ValidationStatus.hpp: the data that one
-- exchange carries. A file descriptor or process id that the source holds as -1 is `none`.
use create_httpserver_from_b.Common.{ℕ, Bool, true, false, List, [], Option, none, Bytes}
use create_httpserver_from_b.Status.{StatusCode, no_problem, ok_200}

pub data ValidationStatus : Type 0 where
  ready on_header on_body on_chunked_body complete : ValidationStatus

abbrev pub is_complete : ValidationStatus → Bool
is_complete complete = true
is_complete _ = false

pub record Request : Type 0 where
  pub validation_phase : ValidationStatus
  pub status : StatusCode
  pub method : Bytes
  pub uri : Bytes
  pub http_version : Bytes
  pub headers : List (Bytes × Bytes)
  pub body : Bytes

-- Request::Request
abbrev pub new_request : Request
new_request = record {
  validation_phase = ready;
  status = no_problem;
  method = [];
  uri = [];
  http_version = [];
  headers = [];
  body = [];
}

pub record Response : Type 0 where
  pub accepted_method : Bytes
  pub redirection_exist : Bool
  pub rediretion_location : Bytes
  pub auto_index : Bool
  pub file_name : Bytes
  pub file_exist : Bool
  pub index_name : Bytes
  pub index_exist : Bool
  pub file_path : Bytes
  pub path_exist : Bool
  pub root_path : Bytes
  pub body : Bytes
  pub status_code : StatusCode
  pub cgi_flag : Bool
  pub is_cgi_timeout : Bool
  pub cgi_bin_path : Bytes
  pub uploaded_path : Bytes
  pub response_message : Bytes
  pub error_page_vector : Bytes
  pub static_read_file_fd : Option ℕ
  pub static_read_file_size : ℕ
  pub static_write_file_fd : Option ℕ
  pub read_pipe_fd : Option ℕ
  pub write_pipe_fd : Option ℕ
  pub cgi_child_pid : Option ℕ
  pub error_keyword : Bool

-- Response::Response
abbrev pub new_response : Response
new_response = record {
  accepted_method = [];
  redirection_exist = false;
  rediretion_location = [];
  auto_index = false;
  file_name = [];
  file_exist = false;
  index_name = [];
  index_exist = false;
  file_path = [];
  path_exist = false;
  root_path = [];
  body = [];
  status_code = ok_200;
  cgi_flag = false;
  is_cgi_timeout = false;
  cgi_bin_path = [];
  uploaded_path = [];
  response_message = [];
  error_page_vector = [];
  static_read_file_fd = none;
  static_read_file_size = 0;
  static_write_file_fd = none;
  read_pipe_fd = none;
  write_pipe_fd = none;
  cgi_child_pid = none;
  error_keyword = false;
}
