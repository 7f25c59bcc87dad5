-- ===== src/HttpProcessor.antt =====
-- src/HttpProcessor/HttpProcessor.cpp: which handler answers a request, and with what status.
pub mod Permitted
pub mod ReadOnly
pub mod OneWrite
mod Tests
use create_httpserver_from_b.Common.{
  ℕ, Bool, true, false, not, ◌&&◌, List, [], ◌∷◌, Bytes, codes, ◌==◌, if◌then◌else◌, eq_bytes,
  contains_sub,
}
use create_httpserver_from_b.Status.{StatusCode, no_problem, ok_200, method_not_allowed_405}
use create_httpserver_from_b.Message.{Request, Response}
use create_httpserver_from_b.Config.{ServerConf}
use create_httpserver_from_b.Exchange.{
  System, M, Exchange, Exec, returned, threw, aborted, ◌>>=◌, ◌>>◌, return, throw, update_response,
}
use create_httpserver_from_b.PathFinder.{path_finder}
use create_httpserver_from_b.MethodHandler.{run_get, run_post, run_put, run_delete}
use create_httpserver_from_b.CgiHandler.{outsource_get, outsource_post}

-- HttpProcessor::setErrorPage
pub set_error_page : ServerConf → Response → Response
set_error_page server r = elim server.error_page [
  | [] ↦ record r { error_keyword = false }
  | _ ∷ _ ↦ record r { error_keyword = true; error_page_vector = server.error_page_vector }
]

-- The method is asked for, and the location's list has its name.
pub accepts : Bytes → Request → Response → Bool
accepts method q r = eq_bytes q.method method && contains_sub method r.accepted_method

-- `redirection_exist` is kept for GET only.
pub keep_redirection : Bytes → Response → Response
keep_redirection method r =
    if r.redirection_exist && not (eq_bytes method (codes "GET"))
    then record r { redirection_exist = false }
    else r

-- The ladder of methods. The last branch clears `cgi_flag` and throws.
pub dispatch : System → M (Unit {0})
dispatch os x =
    let q = x.request in
    let r = x.response in
    (if accepts (codes "GET") q r
        then (if r.cgi_flag then outsource_get os else run_get os)
        else if accepts (codes "POST") q r
        then (if r.cgi_flag then outsource_post os else run_post os)
        else if accepts (codes "PUT") q r
        then run_put os
        else if accepts (codes "HEAD") q r
        then run_get os
        else if accepts (codes "DELETE") q r
        then run_delete os
        else (do
          update_response (λ p. record p { cgi_flag = false })
          throw method_not_allowed_405))
      x

pub redirect : M (Unit {0})
unfolding keep_redirection
redirect x = returned tt (record x { response = keep_redirection x.request.method x.response })

-- The second `try` of the constructor
pub process : System → ServerConf → M (Unit {0})
unfolding redirect
process os server = do path_finder os server; redirect; dispatch os

-- `catch (StatusCode code_num)`
pub catch_status : Exec (Unit {0}) → Exec (Unit {0})
catch_status (returned a x) = returned a x
catch_status (threw code x) =
    let r = x.response in returned tt (record x { response = record r { status_code = code } })
catch_status (aborted x) = aborted x

-- `if (request_data.status == NO_PROBLEM) request_data.status = OK_200;`
pub settle_status : Request → Request
settle_status q = if q.status == no_problem then record q { status = ok_200 } else q

-- HttpProcessor::HttpProcessor
pub http_processor : System → ServerConf → M (Unit {0})
unfolding catch_status set_error_page settle_status
http_processor os server x =
    let x' : Exchange = record x {
      request = settle_status x.request;
      response = set_error_page server x.response;
    } in
    let run = process os server x' in
    catch_status (if x'.request.status == ok_200 then run else threw x'.request.status x')
