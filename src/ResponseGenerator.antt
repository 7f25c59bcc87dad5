-- ===== src/ResponseGenerator.antt =====
-- src/ResponseGenerator/ResponseGenerator.cpp: the bytes of the response. The name of the operating
-- system is a compile-time choice and the date is the clock's: both are arguments.
pub mod Payload
pub mod Produced
mod Tests
use create_httpserver_from_b.Common.{
  ℕ, ◌+◌, ◌-◌, Bool, true, false, not, ◌&&◌, ◌||◌, List, [], ◌∷◌, ◌++◌, Option, none, some, Bytes,
  codes, length, drop, ltb, ◌==◌, if◌then◌else◌, eq_bytes, find_sub, is_digit, empty?,
}
use create_httpserver_from_b.Common.Decimal.{show, read_digits}
use create_httpserver_from_b.Status.{
  StatusCode, ok_200, found_302, internal_server_error_500, bad_gateway_502, get_status_str,
}
use create_httpserver_from_b.Message.{Request, Response}
use create_httpserver_from_b.Mime.{get_mime}
use create_httpserver_from_b.Utils.{ft_strtrim, ft_config_split}

abbrev pub crlf : Bytes
crlf = b'\r' ∷ b'\n' ∷ []

-- `cgi_body_it` is an index into the body; `none` is the iterator before anything is assigned.
pub record Generator : Type 0 where
  pub request : Request
  pub response : Response
  pub target_file : Bytes
  pub cgi_content_type : Bytes
  pub cgi_body_it : Option ℕ

abbrev pub set_response : Generator → Response → Generator
set_response g r = record g { response = r }

-- ResponseGenerator::appendStrToResponse_message, appendStrToBody
abbrev pub append_message : Bytes → Generator → Generator
append_message s g =
    let r = g.response in set_response g (record r { response_message = r.response_message ++ s })

abbrev pub append_body : Bytes → Generator → Generator
append_body s g = let r = g.response in set_response g (record r { body = r.body ++ s })

target_of : Response → Bytes
target_of r =
    if r.auto_index && not r.file_exist then codes "autoindex.html" else r.file_path ++ r.file_name

-- ResponseGenerator::ResponseGenerator
pub new_generator : Request → Response → Generator
unfolding target_of
new_generator q r = record {
  request = q;
  response = if r.redirection_exist then record r { status_code = found_302; body = [] } else r;
  target_file = if r.redirection_exist then [] else target_of r;
  cgi_content_type = [];
  cgi_body_it = none;
}

abbrev pub until_cr : Bytes → Bytes
until_cr [] = []
until_cr (c ∷ s) = if c == b'\r' then [] else c ∷ until_cr s

abbrev digits_of : Bytes → Bytes
digits_of [] = []
digits_of (c ∷ s) = if is_digit c then c ∷ digits_of s else digits_of s

-- `ss >> status_code` on digits: an `int`, or, on an empty stream, nothing is assigned to it.
read_status : Bytes → Option ℕ
read_status [] = none
read_status (c ∷ s) =
    let n = read_digits 0 (c ∷ s) in some (if ltb 2147483647 n then 2147483647 else n)

-- The status that a CGI program prints; `none` reads an unassigned variable.
pub status_from : Bytes → Option ℕ → Option StatusCode
status_from body none = some ok_200
status_from body (some at) = read_status (digits_of (until_cr (drop at body)))

first_word : List Bytes → Bytes
first_word [] = []
first_word (w ∷ ws) = w

-- Where the body of the CGI output begins, searched from an index on.
body_from : ℕ → Option ℕ → ℕ
body_from start none = 0
body_from start (some at) = start + at + 4

-- The second part of cgiDataProcess: the content type, and the start of the body.
pub content_from : Generator → Option ℕ → Generator
unfolding first_word body_from
content_from g none =
    let r = g.response in
    record g {
      response = record r { status_code = internal_server_error_500 };
      cgi_content_type = codes "text/html";
      cgi_body_it = some 0;
    }
content_from g (some at) =
    let start = at + 13 in
    let rest = drop start g.response.body in
    record g {
      cgi_content_type = first_word (ft_config_split (ft_strtrim (until_cr rest)));
      cgi_body_it = some (body_from start (find_sub (codes "\r\n\r\n") rest));
    }

-- cgiDataProcess goes on, throws a status, or reads an unassigned variable.
pub data Cgi : Type 0 where
  processed : Generator → Cgi
  thrown : StatusCode → Generator → Cgi
  undefined : Cgi

pub set_cgi_status : Generator → Option StatusCode → Cgi
unfolding content_from
set_cgi_status g none = undefined
set_cgi_status g (some code) =
    let r = g.response in
    processed (
      content_from (set_response g (record r { status_code = code }))
        (find_sub (codes "Content-Type:") r.body))

-- ResponseGenerator::cgiDataProcess
pub cgi_data_process : Generator → Cgi
unfolding set_cgi_status status_from read_status
cgi_data_process g =
    let r = g.response in
    if not r.cgi_flag
    then processed g
    else if empty? r.body
    then thrown bad_gateway_502 (set_response g (record r { status_code = bad_gateway_502 }))
    else set_cgi_status g (status_from r.body (find_sub (codes "Status:") r.body))

-- setStartLine
pub set_start_line : Generator → Generator
set_start_line g =
    append_message
      (codes "HTTP/1.1"
        ++ (codes " "
            ++ (show g.response.status_code
                ++ (codes " " ++ (get_status_str g.response.status_code ++ crlf)))))
      g

-- generateErrorBody
pub generate_error_body : Generator → Generator
generate_error_body g =
    let r = g.response in
    let title = show r.status_code ++ (codes " " ++ get_status_str r.status_code) in
    if r.error_keyword && not (empty? r.error_page_vector)
    then set_response g (record r { body = r.error_page_vector })
    else append_body
        (codes "<html>\r\n<head><title>"
          ++ (title
              ++ (codes " </title></head>\r\n<body>\r\n<center><h1>"
                  ++ (title ++ codes "</h1></center></body>\r\n</html>"))))
        g

-- The part of the body that is sent; `none` uses the iterator before it is assigned.
pub body_behind : Bytes → Option ℕ → Option Bytes
body_behind body none = none
body_behind body (some at) = some (drop at body)

-- What setBody inserts
pub sent_body : Generator → Option Bytes
unfolding body_behind
sent_body g =
    let r = g.response in
    if r.cgi_flag && not r.is_cgi_timeout then body_behind r.body g.cgi_body_it else some r.body

pub content_type : Generator → Bytes
content_type g =
    if g.response.cgi_flag
    then (if eq_bytes g.cgi_content_type [] then codes "text/html" else g.cgi_content_type)
    else get_mime g.target_file

pub location_header : Response → Bytes
location_header r =
    if r.redirection_exist then codes "Location: " ++ (r.rediretion_location ++ crlf) else []

-- What generateContentLength writes: `std::distance` from the body's begin to its iterator is taken
-- off. `none` uses an iterator that is not assigned or does not lie within the body.
pub size_behind : Bytes → Option ℕ → Option ℕ
size_behind body none = none
size_behind body (some before) =
    if ltb (length body) before then none else some (length body - before)

pub content_length : Generator → Option ℕ
unfolding size_behind
content_length g =
    let r = g.response in
    if r.cgi_flag
    then (if r.is_cgi_timeout then some (length r.body) else size_behind r.body g.cgi_body_it)
    else some (length r.body)

-- The lines of setHeaders, around the number that generateContentLength writes
pub write_headers : Bytes → Bytes → ℕ → Generator → Generator
unfolding content_type location_header
write_headers os date size g =
    append_message
      (codes "Server:Cute_webserv/1.0 ("
        ++ (os
            ++ (codes ")\r\nDate: "
                ++ (date
                    ++ (codes "\r\nContent-length:"
                        ++ (show size
                            ++ (codes "\r\nContent-Type:"
                                ++ (content_type g
                                    ++ (crlf ++ (location_header g.response ++ crlf))))))))))
      g

-- setHeaders
pub set_headers : Bytes → Bytes → Generator → Option Generator
unfolding content_length write_headers
set_headers os date g = elim (content_length g) [
  | none ↦ none
  | some size ↦ some (write_headers os date size g)
]

-- setBody
pub set_body : Generator → Option Generator
unfolding sent_body
set_body g =
    if eq_bytes g.request.method (codes "HEAD")
    then some g
    else elim (sent_body g) [ none ↦ none | some sent ↦ some (append_message sent g) ]

-- setHeaders and setBody
pub finish : Bytes → Bytes → Generator → Option Generator
unfolding set_headers set_body
finish os date g = elim (set_headers os date g) [ none ↦ none | some g' ↦ set_body g' ]

-- The handler of generateResponseMessage, with generateErrorResponseMessage
pub fail_with : Bytes → Bytes → StatusCode → Generator → Option Generator
unfolding finish set_start_line generate_error_body
fail_with os date code g =
    let r = g.response in
    finish os date
      (generate_error_body (set_start_line (set_response g (record r { status_code = code }))))

pub after_cgi : Bytes → Bytes → Cgi → Option Generator
after_cgi os date (processed g) = finish os date (set_start_line g)
after_cgi os date (thrown code g) = fail_with os date code g
after_cgi os date undefined = none

-- ResponseGenerator::generateResponseMessage; `none` is undefined behaviour.
pub generate_response_message : Bytes → Bytes → Generator → Option Generator
unfolding after_cgi
generate_response_message os date g =
    let code = g.response.status_code in
    if not (code == ok_200) && not (code == found_302)
    then fail_with os date code g
    else after_cgi os date (cgi_data_process g)
