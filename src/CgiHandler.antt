-- ===== src/CgiHandler.antt =====
-- src/CgiHandler: the parent's side of a CGI request, and the environment of the child. The child
-- replaces itself by the CGI program, which is not code of this repository.
pub mod ReadOnly
pub mod Descriptors
pub mod ClosedEnd
mod Tests
use create_httpserver_from_b.Common.{
  ℕ, Bool, true, false, List, [], ◌∷◌, ◌++◌, Option, none, some, Bytes, codes, if◌then◌else◌,
  eq_bytes, lookup, empty?,
}
use create_httpserver_from_b.Status.{not_implemented_501}
use create_httpserver_from_b.Message.{Request, Response}
use create_httpserver_from_b.Exchange.{
  System, Pipe, closed, forked, M, Exchange, returned, ◌>>=◌, ◌>>◌, return, update_response, note,
}

-- What pipeAndFork leaves in the handler.
pub record Child : Type 0 where
  pub to_child : Pipe
  pub to_parent : Pipe
  pub pid : ℕ

pub close_pipe : Pipe → M (Unit {0})
close_pipe p = do note (closed p.read_end); note (closed p.write_end)

pub fork_child : Pipe → Pipe → Option ℕ → M (Option Child)
fork_child to_child to_parent (some pid) = do
  note (forked pid)
  return (some (record { to_child = to_child; to_parent = to_parent; pid = pid }))
fork_child to_child to_parent none = do close_pipe to_child; close_pipe to_parent; return none

pub second_pipe : System → Pipe → Option Pipe → M (Option Child)
unfolding fork_child
second_pipe os to_child (some to_parent) = fork_child to_child to_parent os.fork
second_pipe os to_child none = do close_pipe to_child; return none

pub first_pipe : System → Option Pipe → M (Option Child)
unfolding second_pipe
first_pipe os (some to_child) = second_pipe os to_child os.pipe_to_parent
first_pipe os none = return none

-- CgiHandler::pipeAndFork; `none` is PipeForkException.
pub pipe_and_fork : System → M (Option Child)
unfolding first_pipe close_pipe
pipe_and_fork os = first_pipe os os.pipe_to_child

-- The handler behind `catch (const std::exception& e)`
pub fail_cgi : Response → Response
fail_cgi r = record r { cgi_flag = false; status_code = not_implemented_501 }

pub record_child : Child → Response → Response
record_child c r = record r {
  read_pipe_fd = some c.to_parent.read_end;
  write_pipe_fd = some c.to_child.write_end;
  cgi_child_pid = some c.pid;
}

pub get_child : Option Child → M (Unit {0})
unfolding fail_cgi record_child
get_child none = update_response fail_cgi
get_child (some c) = do
  note (closed c.to_child.read_end)
  note (closed c.to_child.write_end)
  note (closed c.to_parent.write_end)
  update_response (record_child c)

pub post_child : Option Child → M (Unit {0})
unfolding fail_cgi record_child
post_child none = update_response fail_cgi
post_child (some c) = do
  note (closed c.to_child.read_end)
  note (closed c.to_parent.write_end)
  update_response (record_child c)

-- GetCgiHandler::outsourceCgiRequest
pub outsource_get : System → M (Unit {0})
unfolding get_child
outsource_get os x =
    (if x.response.file_exist
        then (do child ← pipe_and_fork os; get_child child)
        else update_response fail_cgi)
      x

-- PostCgiHandler::outsourceCgiRequest
pub outsource_post : System → M (Unit {0})
unfolding post_child
outsource_post os x =
    (if x.response.file_exist
        then (do child ← pipe_and_fork os; post_child child)
        else update_response fail_cgi)
      x

-- `headers[key]`, whose entry of a missing key stays in the child
abbrev header_of : Bytes → Request → Bytes
header_of key r = elim (lookup key r.headers) [ none ↦ [] | some v ↦ v ]

abbrev optional : Bool → Bytes → List Bytes
optional absent line = if absent then [] else line ∷ []

-- CgiHandler::setCgiEnv
pub set_cgi_env : Request → Response → List Bytes
set_cgi_env q r =
    codes "GATEWAY_INTERFACE=CGI/1.1"
    ∷ codes "SERVER_PROTOCOL=HTTP/1.1"
    ∷ codes "SERVER_SOFTWARE=cute_webserv/1.0"
    ∷ (codes "REQUEST_METHOD=" ++ q.method)
    ∷ codes "PATH_INFO=/"
    ∷ codes "QUERY_STRING="
    ∷ (optional (empty? q.body) (codes "CONTENT_LENGTH=" ++ header_of (codes "content-length") q)
        ++ (optional (empty? (header_of (codes "content-type") q))
              (codes "CONTENT_TYPE=" ++ header_of (codes "content-type") q)
            ++ ((if empty? (header_of (codes "x-secret-header-for-test") q)
                  then []
                  else codes "X_SECRET_HEADER_FOR_TEST=1"
                    ∷ codes "HTTP_X_SECRET_HEADER_FOR_TEST=1"
                    ∷ [])
                ++ (codes "X_UPLOAD_PATH=" ++ r.uploaded_path) ∷ [])))

-- CgiHandler::makeErrorPage
pub make_error_page : Bytes
make_error_page =
    codes "Status: 501 Not Implemented\r\n"
    ++ (codes "Content-type: text/html; charset=UTF-8\r\n\r\n" ++ codes "Failed.\n")
