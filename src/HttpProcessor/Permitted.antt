-- ===== src/HttpProcessor/Permitted.antt =====
-- Which requests reach a handler, and what happens to the others.
use mathlib.Core.Path.{subst}
use create_httpserver_from_b.Common.{
  List, ◌≡◌, ◌∙◌, refl, sym, ap, ◌⊎◌, inl, inr, true, false, not, ◌&&◌, ◌∷◌, some, Bytes, codes,
  length, eq_bytes, eq_bytes_iff, contains_sub, lookup, Bool-cases, ◌==◌,
}
use create_httpserver_from_b.Common.Decimal.{atol, lt_size}
use create_httpserver_from_b.Status.{StatusCode, no_problem, ok_200, method_not_allowed_405}
use create_httpserver_from_b.Message.{Request, Response}
use create_httpserver_from_b.Config.{Location, ServerConf}
use create_httpserver_from_b.Exchange.{
  Effect, System, Exec, Exchange, returned, threw, aborted, bind_exec, ◌>>◌,
}
use create_httpserver_from_b.PathFinder.{path_finder}
use create_httpserver_from_b.PathFinder.Applied.{Applied, Refusal, Governed}
use create_httpserver_from_b.PathFinder.Governed.{path_finder-Governed}
use create_httpserver_from_b.HttpProcessor.{
  set_error_page, accepts, keep_redirection, redirect, dispatch, process, catch_status,
  settle_status, http_processor,
}

-- A configured location lists the method, and the body keeps its size limit.
pub record Permitted (server : ServerConf) (method body : Bytes) : Type 0 where
  pub location : Location
  pub key : Bytes
  pub configured : lookup key server.locations ≡ some location
  pub in_size : lt_size (atol location.max_body_size) (length body) ≡ false
  pub allowed : contains_sub method location.accepted_method ≡ true

-- The status of a request that no handler runs for
abbrev pub Denial : StatusCode → Type 0
Denial code = Refusal code ⊎ (code ≡ method_not_allowed_405)

-- A handler ran with permission, or the answer is a denial and the world is as before.
abbrev pub Handled : ServerConf → Bytes → Bytes → List Effect → Exec (Unit {0}) → Type 0
Handled server method body before (returned a y) =
    Permitted server method body ⊎ (Denial y.response.status_code × (y.effects ≡ before))
Handled server method body before (threw code y) = ⊥
Handled server method body before (aborted y) = Permitted server method body

accepts-contains :
    (method : Bytes) (q : Request) (r : Response)
    → accepts method q r ≡ true
    → contains_sub q.method r.accepted_method ≡ true
unfolding accepts
accepts-contains method q r h = elim (Bool-cases (eq_bytes q.method method)) [
  | inl t ↦
      let same = (eq_bytes_iff q.method method).0 t in
      subst (λ m. contains_sub m r.accepted_method ≡ true) (sym same) (rw t at h)
  | inr f ↦ (let m : false ≡ true = rw f at h in cc)
]

-- The method ladder: the method is in the list, or 405 is thrown.
dispatch-cases :
    (os : System) (x : Exchange)
    → (contains_sub x.request.method x.response.accepted_method ≡ true)
      ⊎ ((y : Exchange) × (dispatch os x ≡ threw method_not_allowed_405 y)
          × (y.effects ≡ x.effects))
unfolding dispatch
dispatch-cases os x =
    let q = x.request in
    let r = x.response in
    elim (Bool-cases (accepts (codes "GET") q r)) [
      | inl t ↦ inl (accepts-contains (codes "GET") q r t)
      | inr not_get ↦ elim (Bool-cases (accepts (codes "POST") q r)) [
        | inl t ↦ inl (accepts-contains (codes "POST") q r t)
        | inr not_post ↦ elim (Bool-cases (accepts (codes "PUT") q r)) [
          | inl t ↦ inl (accepts-contains (codes "PUT") q r t)
          | inr not_put ↦ elim (Bool-cases (accepts (codes "HEAD") q r)) [
            | inl t ↦ inl (accepts-contains (codes "HEAD") q r t)
            | inr not_head ↦ elim (Bool-cases (accepts (codes "DELETE") q r)) [
              | inl t ↦ inl (accepts-contains (codes "DELETE") q r t)
              | inr not_delete ↦ inr (
                record x { response = record r { cgi_flag = false } },
                rw (not_get, not_post, not_put, not_head, not_delete, dispatch) refl,
                refl,
              )
            ]
          ]
        ]
      ]
    ]

keep_redirection-methods :
    (method : Bytes) (r : Response)
    → (keep_redirection method r).accepted_method ≡ r.accepted_method
unfolding keep_redirection
keep_redirection-methods method r =
    elim (Bool-cases (r.redirection_exist && not (eq_bytes method (codes "GET")))) [
      | inl t ↦ rw (t, keep_redirection) refl
      | inr f ↦ rw (f, keep_redirection) refl
    ]

module _ (os : System) (server : ServerConf) where
  caught :
      (x : Exchange) (e : Exec (Unit {0}))
      → Permitted server x.request.method x.request.body
      → Handled server x.request.method x.request.body x.effects (catch_status e)
  unfolding catch_status
  caught x (returned a y) p = inl p
  caught x (threw code y) p = inl p
  caught x (aborted y) p = p

  dispatched-Handled :
      (x y : Exchange) (l : Location)
      → y.request ≡ x.request
      → y.effects ≡ x.effects
      → Applied server x.request y.response l
      → Handled server x.request.method x.request.body x.effects
          (catch_status (bind_exec (redirect y) (λ _. dispatch os)))
  unfolding redirect catch_status
  dispatched-Handled x y l same unchanged applied =
      let kept = keep_redirection y.request.method y.response in
      let z : Exchange = record y { response = kept } in
      elim (dispatch-cases os z) [
        | inl listed ↦ caught x (dispatch os z) (record {
          location = l;
          key = applied.key;
          configured = applied.configured;
          in_size = applied.in_size;
          allowed = rw (sym same) (
              rw (sym applied.methods)
                (rw (sym (keep_redirection-methods y.request.method y.response)) listed));
        })
        | inr (w, e, kept_world) ↦
            subst (λ u. Handled server x.request.method x.request.body x.effects (catch_status u))
              (sym e) (inr (inr refl, kept_world ∙ unchanged))
      ]

  run_Handled :
      (x : Exchange) (e : Exec (Unit {0}))
      → Governed server x e
      → Handled server x.request.method x.request.body x.effects
          (catch_status (bind_exec e (λ _. redirect >> dispatch os)))
  unfolding catch_status
  run_Handled x (returned a y) h =
      dispatched-Handled x y h.location h.same_request h.same_effects h.applied
  run_Handled x (threw code y) (same, refusal) = inr (inl refusal, ap Exchange.effects same)
  run_Handled x (aborted y) h = absurd h

settled :
    (q : Request)
    → (q.status ≡ no_problem) ⊎ (q.status ≡ ok_200)
    → settle_status q ≡ record q { status = ok_200 }
unfolding settle_status
settled q (inl fresh) = rw fresh refl
settled q (inr fine) = elim (Bool-cases (q.status == no_problem)) [
  | inl t ↦ rw (t, settle_status) refl
  | inr f ↦ rw (f, settle_status) (ap (λ n. record q { status = n }) fine)
]

-- A request whose URI begins with a slash and whose status is NO_PROBLEM or OK_200: a configured
-- location lists the method and its size limit keeps the body, where the processor may also abort, or
-- it returns with the status 404, 413, 502 or 405 and nothing was opened, written, removed or started.
pub http_processor-Handled :
    (os : System) (server : ServerConf) (x : Exchange) (s : Bytes)
    → x.request.uri ≡ b'/' ∷ s
    → (x.request.status ≡ no_problem) ⊎ (x.request.status ≡ ok_200)
    → Handled server x.request.method x.request.body x.effects (http_processor os server x)
unfolding http_processor process
http_processor-Handled os server x s begins fine =
    let q = x.request in
    let x' : Exchange = record x {
      request = record q { status = ok_200 };
      response = set_error_page server x.response;
    } in
    rw (settled x.request fine) (
      run_Handled os server x' (path_finder os server x')
        (path_finder-Governed os server x' s begins))
