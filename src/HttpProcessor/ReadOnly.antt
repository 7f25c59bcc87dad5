-- ===== src/HttpProcessor/ReadOnly.antt =====
-- GET and HEAD requests and the file system (src/HttpProcessor/HttpProcessor.cpp).
use mathlib.Core.Path.{subst}
use create_httpserver_from_b.Common.{
  ◌≡◌, ◌∙◌, refl, sym, ap, ◌⊎◌, inl, inr, false, Bool-cases, ◌==◌, ◌∷◌, Bytes, codes, if◌then◌else◌,
  eq_bytes,
}
use create_httpserver_from_b.Status.{no_problem, ok_200, method_not_allowed_405}
use create_httpserver_from_b.MethodHandler.{run_get}
use create_httpserver_from_b.CgiHandler.{outsource_get}
use create_httpserver_from_b.Message.{Request, Response}
use create_httpserver_from_b.Config.{ServerConf}
use create_httpserver_from_b.Exchange.{
  System, M, throw, update_response, Exchange, Exec, returned, threw, aborted, bind_exec, ◌>>◌,
}
use create_httpserver_from_b.Exchange.World.{Keeps, writes, world, if-Keeps, branch-Keeps}
use create_httpserver_from_b.PathFinder.{path_finder}
use create_httpserver_from_b.PathFinder.Applied.{Governed}
use create_httpserver_from_b.PathFinder.Governed.{path_finder-Governed}
use create_httpserver_from_b.MethodHandler.ReadOnly.{run_get-Keeps}
use create_httpserver_from_b.CgiHandler.ReadOnly.{outsource_get-Keeps}
use create_httpserver_from_b.HttpProcessor.{
  set_error_page, accepts, keep_redirection, redirect, dispatch, process, catch_status,
  settle_status, http_processor,
}

abbrev pub IsRead : Bytes → Type 0
IsRead method = (method ≡ codes "GET") ⊎ (method ≡ codes "HEAD")

-- The other methods' branches are not taken.
not_accepted :
    (other : Bytes) (q : Request) (r : Response)
    → eq_bytes (codes "GET") other ≡ false
    → eq_bytes (codes "HEAD") other ≡ false
    → IsRead q.method
    → accepts other q r ≡ false
unfolding accepts
not_accepted other q r g h (inl e) = rw e (rw g refl)
not_accepted other q r g h (inr e) = rw e (rw h refl)

module _ (os : System) where
  dispatch-Keeps : (x : Exchange) → IsRead x.request.method → Keeps x (dispatch os x)
  unfolding dispatch eq_bytes
  dispatch-Keeps x read =
      let q = x.request in
      let r = x.response in
      let get : M (Unit {0}) = if r.cgi_flag then outsource_get os else run_get os in
      let refuse : M (Unit {0}) =
        update_response (λ p. record p { cgi_flag = false }) >> throw method_not_allowed_405 in
      let head : M (Unit {0}) = if accepts (codes "HEAD") q r then run_get os else refuse in
      rw (not_accepted (codes "POST") q r refl refl read) (
        rw (not_accepted (codes "PUT") q r refl refl read) (
          rw (not_accepted (codes "DELETE") q r refl refl read) (
            if-Keeps (accepts (codes "GET") q r) get head x
              (if-Keeps r.cgi_flag (outsource_get os) (run_get os) x (outsource_get-Keeps os x)
                (run_get-Keeps os x))
              (if-Keeps (accepts (codes "HEAD") q r) (run_get os) refuse x (run_get-Keeps os x)
                (record { kept = refl })))))

  catch-Keeps : (x : Exchange) (e : Exec (Unit {0})) → Keeps x e → Keeps x (catch_status e)
  unfolding catch_status
  catch-Keeps x (returned a y) h = h
  catch-Keeps x (threw code y) h = record { kept = h.kept }
  catch-Keeps x (aborted y) h = h

  Governed-Keeps :
      (server : ServerConf) (x : Exchange) (e : Exec (Unit {0}))
      → IsRead x.request.method
      → Governed server x e
      → Keeps x (bind_exec e (λ _. redirect >> dispatch os))
  unfolding redirect
  Governed-Keeps server x (returned a y) read h =
      let z : Exchange = record y { response = keep_redirection y.request.method y.response } in
      let read' = subst IsRead (sym (ap (λ q. q.method) h.same_request)) read in
      record { kept = (dispatch-Keeps z read').kept ∙ ap writes h.same_effects }
  Governed-Keeps server x (threw code y) read (same, refusal) = record {
    kept = ap (λ z. writes z.effects) same;
  }
  Governed-Keeps server x (aborted y) read h = absurd h

settle_status-fields :
    (q : Request) → ((settle_status q).method ≡ q.method) × ((settle_status q).uri ≡ q.uri)
unfolding settle_status
settle_status-fields q = elim (Bool-cases (q.status == no_problem)) [
  | inl t ↦ rw (t, settle_status) (refl, refl)
  | inr f ↦ rw (f, settle_status) (refl, refl)
]

-- However a GET or HEAD request ends whose URI begins with a slash, with a page, an error, a CGI
-- program or undefined behaviour: no file has been created, truncated, appended to or removed.
pub http_processor-writes :
    (os : System) (server : ServerConf) (x : Exchange) (s : Bytes)
    → x.request.uri ≡ b'/' ∷ s
    → (x.request.method ≡ codes "GET") ⊎ (x.request.method ≡ codes "HEAD")
    → writes (world (http_processor os server x)) ≡ writes x.effects
unfolding http_processor process
http_processor-writes os server x s begins read =
    let x' : Exchange = record x {
      request = settle_status x.request;
      response = set_error_page server x.response;
    } in
    let (method, uri) = settle_status-fields x.request in
    let run : Exec (Unit {0}) = process os server x' in
    let stop : Exec (Unit {0}) = threw x'.request.status x' in
    (catch-Keeps os x' (if x'.request.status == ok_200 then run else stop) (
      branch-Keeps (x'.request.status == ok_200) run stop x'
        (Governed-Keeps os server x' (path_finder os server x') (subst IsRead (sym method) read)
          (path_finder-Governed os server x' s (uri ∙ begins)))
        (record { kept = refl }))).kept
