-- ===== src/ResponseGenerator/Tests.antt =====
-- Responses at concrete requests.
use create_httpserver_from_b.Common.{◌≡◌, refl, true, some, none, [], codes, eq_bytes}
use create_httpserver_from_b.Message.{new_request, new_response}
use create_httpserver_from_b.Status.{ok_200}
use create_httpserver_from_b.ResponseGenerator.{
  Generator, finish, append_message, write_headers, set_headers, set_body, content_length,
  sent_body, set_start_line, after_cgi, cgi_data_process, generate_response_message,
}
use create_httpserver_from_b.ResponseGenerator.Payload.{
  IsMessage, generate_response_message-IsMessage,
}
use create_httpserver_from_b.ResponseGenerator.Produced.{
  Page, generate_response_message-Page, generate_response_message-unassigned,
}

abbrev hello : Generator
hello = record {
  request = record new_request { method = codes "GET" };
  response = record new_response { body = codes "hello" };
  target_file = codes "a.txt";
  cgi_content_type = [];
  cgi_body_it = none;
}

-- A CGI program that wrote nothing
abbrev silent : Generator
silent = record {
  request = record new_request { method = codes "GET" };
  response = record new_response { cgi_flag = true };
  target_file = [];
  cgi_content_type = [];
  cgi_body_it = none;
}

generate_response_message-Page_example :
    (g : Generator) × (generate_response_message (codes "LINUX") (codes "today") hello ≡ some g)
    × (g.response.status_code ≡ ok_200)
    × Page hello.response g.response.body
generate_response_message-Page_example =
    generate_response_message-Page (codes "LINUX") (codes "today") hello refl

generate_response_message-unassigned_example :
    generate_response_message (codes "LINUX") (codes "today") silent ≡ none
generate_response_message-unassigned_example =
    generate_response_message-unassigned (codes "LINUX") (codes "today") silent refl refl refl refl

abbrev answered : Generator
answered =
    append_message (codes "hello")
      (write_headers (codes "LINUX") (codes "today") 5 (set_start_line hello))

generate_response_message-IsMessage_example : IsMessage (codes "LINUX") (codes "today") [] answered
unfolding generate_response_message after_cgi cgi_data_process finish set_headers set_body
    content_length sent_body set_start_line write_headers eq_bytes
generate_response_message-IsMessage_example =
    generate_response_message-IsMessage (codes "LINUX") (codes "today") hello answered refl
