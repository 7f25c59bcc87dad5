-- ===== src/HttpProcessor/OneWrite.antt =====
-- What one request can change in the file system, whatever its method.
use create_httpserver_from_b.Common.{refl, false, codes, if◌then◌else◌}
use create_httpserver_from_b.Status.{method_not_allowed_405}
use create_httpserver_from_b.Exchange.{System, Exchange, Exec, M, throw, update_response, ◌>>◌}
use create_httpserver_from_b.Exchange.World.{Keeps}
use create_httpserver_from_b.MethodHandler.{run_get, run_post, run_put, run_delete}
use create_httpserver_from_b.MethodHandler.ReadOnly.{run_get-Keeps}
use create_httpserver_from_b.MethodHandler.OneWrite.{
  OneWrite, nothing, if-OneWrite, run_post-OneWrite, run_put-OneWrite, run_delete-OneWrite,
}
use create_httpserver_from_b.CgiHandler.{outsource_get, outsource_post}
use create_httpserver_from_b.CgiHandler.ReadOnly.{outsource_get-Keeps, outsource_post-Keeps}
use create_httpserver_from_b.HttpProcessor.{accepts, dispatch}

kept_back : (x : Exchange) (e : Exec (Unit {0})) → Keeps x e → OneWrite x e
kept_back x e h = nothing h.kept

-- The handler of any method changes at most one file, and the path of that file is the response's
-- file path with one name behind it. CGI programs are started without any such change.
pub dispatch-OneWrite : (os : System) (x : Exchange) → OneWrite x (dispatch os x)
unfolding dispatch
dispatch-OneWrite os x =
    let q = x.request in
    let r = x.response in
    let get : M (Unit {0}) = if r.cgi_flag then outsource_get os else run_get os in
    let post : M (Unit {0}) = if r.cgi_flag then outsource_post os else run_post os in
    let refuse : M (Unit {0}) =
      update_response (λ p. record p { cgi_flag = false }) >> throw method_not_allowed_405 in
    let delete_on : M (Unit {0}) = if accepts (codes "DELETE") q r then run_delete os else refuse in
    let head_on : M (Unit {0}) = if accepts (codes "HEAD") q r then run_get os else delete_on in
    let put_on : M (Unit {0}) = if accepts (codes "PUT") q r then run_put os else head_on in
    let post_on : M (Unit {0}) = if accepts (codes "POST") q r then post else put_on in
    let got = kept_back x (run_get os x) (run_get-Keeps os x) in
    if-OneWrite (accepts (codes "GET") q r) get post_on x
      (if-OneWrite r.cgi_flag (outsource_get os) (run_get os) x
        (kept_back x (outsource_get os x) (outsource_get-Keeps os x)) got)
      (if-OneWrite (accepts (codes "POST") q r) post put_on x
        (if-OneWrite r.cgi_flag (outsource_post os) (run_post os) x
          (kept_back x (outsource_post os x) (outsource_post-Keeps os x)) (run_post-OneWrite os x))
        (if-OneWrite (accepts (codes "PUT") q r) (run_put os) head_on x (run_put-OneWrite os x) (
          if-OneWrite (accepts (codes "HEAD") q r) (run_get os) delete_on x got (
            if-OneWrite (accepts (codes "DELETE") q r) (run_delete os) refuse x
              (run_delete-OneWrite os x) (nothing refl)))))
