-- ===== src/PathFinder/Applied.antt =====
-- What it means that a location governs a request, and the steps that every way of PathFinder has.
use mathlib.Core.Path.{subst}
use create_httpserver_from_b.Common.{
  ◌≡◌, ◌∙◌, refl, sym, ◌⊎◌, inl, inr, Bool, true, false, [], ◌∷◌, some, Bytes, codes, length,
  if◌then◌else◌, eq_bytes, lookup, Bool-cases,
}
use create_httpserver_from_b.Common.Decimal.{atol, lt_size}
use create_httpserver_from_b.Status.{
  StatusCode, not_found_404, payload_too_large_413, bad_gateway_502,
}
use create_httpserver_from_b.Message.{Request, Response}
use create_httpserver_from_b.Config.{Location, ServerConf}
use create_httpserver_from_b.Exchange.{
  System, Exec, M, Exchange, returned, threw, aborted, bind_exec, return,
}
use create_httpserver_from_b.PathFinder.{
  set_root, set_index, set_auto_index, set_redirection, set_basic, set_max_size, use_location,
}

-- A location of the server whose size limit the body keeps, and whose methods, root and upload
-- path the response has.
pub record Applied (server : ServerConf) (q : Request) (r : Response) (l : Location) : Type 0 where
  pub key : Bytes
  pub configured : lookup key server.locations ≡ some l
  pub in_size : lt_size (atol l.max_body_size) (length q.body) ≡ false
  pub methods : r.accepted_method ≡ l.accepted_method
  pub root : r.root_path ≡ l.root
  pub upload : r.uploaded_path ≡ l.uploaded_path

-- The request and the world are as before, and a location is applied to the response.
pub record Chosen (server : ServerConf) (x y : Exchange) : Type 0 where
  pub same_request : y.request ≡ x.request
  pub same_effects : y.effects ≡ x.effects
  pub location : Location
  pub applied : Applied server x.request y.response location

abbrev pub Refusal : StatusCode → Type 0
Refusal code = (code ≡ not_found_404) ⊎ (code ≡ payload_too_large_413) ⊎ (code ≡ bad_gateway_502)

-- A location is chosen, or a status is thrown and nothing has changed.
abbrev pub Governed : ServerConf → Exchange → Exec (Unit {0}) → Type 0
Governed server x (returned a y) = Chosen server x y
Governed server x (threw code y) = (y ≡ x) × Refusal code
Governed server x (aborted y) = ⊥

-- The same for a test that goes on where it answers `false`.
abbrev pub Tested : ServerConf → Exchange → Exec Bool → Type 0
Tested server x (returned true y) = Chosen server x y
Tested server x (returned false y) = y ≡ x
Tested server x (threw code y) = (y ≡ x) × Refusal code
Tested server x (aborted y) = ⊥

module _ (os : System) where
  set_root-fields :
      (root : Bytes) (r : Response) → ((set_root os root r).accepted_method ≡ r.accepted_method)
  unfolding set_root
  set_root-fields root r = elim (Bool-cases (os.access_ok root)) [
    | inl t ↦ rw (t, set_root)
    | inr f ↦ rw (f, set_root)
  ]

  set_auto_index-fields :
      (a : Bytes) (r : Response)
      → ((set_auto_index a r).accepted_method ≡ r.accepted_method)
        × ((set_auto_index a r).uploaded_path ≡ r.uploaded_path)
  unfolding set_auto_index
  set_auto_index-fields a r = elim (Bool-cases (eq_bytes a (codes "on"))) [
    | inl t ↦ rw (t, set_auto_index) (refl, refl)
    | inr f ↦ rw (f, set_auto_index) (refl, refl)
  ]

  set_redirection-fields :
      (a : Bytes) (r : Response)
      → ((set_redirection a r).accepted_method ≡ r.accepted_method)
        × ((set_redirection a r).uploaded_path ≡ r.uploaded_path)
  unfolding set_redirection
  set_redirection-fields [] r = (refl, refl)
  set_redirection-fields (c ∷ a) r = (refl, refl)

  set_basic-fields :
      (l : Location) (root file_name : Bytes) (r : Response)
      → ((set_basic os l root file_name r).accepted_method ≡ l.accepted_method)
        × ((set_basic os l root file_name r).root_path ≡ l.root)
        × ((set_basic os l root file_name r).uploaded_path ≡ l.uploaded_path)
  unfolding set_basic set_index
  set_basic-fields l root file_name r =
      let r1 : Response = record r { accepted_method = l.accepted_method } in
      let r2 = set_index os root file_name l.index (set_root os root r1) in
      let r3 : Response = record r2 { uploaded_path = l.uploaded_path } in
      let (m4, u4) = set_auto_index-fields l.auto_index r3 in
      let (m5, u5) = set_redirection-fields l.redirection (set_auto_index l.auto_index r3) in
      (m5 ∙ m4 ∙ set_root-fields root r1, refl, u5 ∙ u4)

module _ (os : System) (server : ServerConf) (x : Exchange) where
  pub use_location-Governed :
      (key : Bytes) (l : Location) (root file_name : Bytes)
      → lookup key server.locations ≡ some l
      → Governed server x (use_location os l root file_name x)
  unfolding use_location set_max_size
  use_location-Governed key l root file_name here =
      elim (Bool-cases (lt_size (atol l.max_body_size) (length x.request.body))) [
        | inl large ↦ rw (large, set_max_size) (refl, inr (inl refl))
        | inr fits ↦
            let (m, r, u) = set_basic-fields os l root file_name x.response in
            rw (fits, set_max_size)
              (record {
                same_request = refl;
                same_effects = refl;
                location = l;
                applied = record {
                  key = key;
                  configured = here;
                  in_size = fits;
                  methods = m;
                  root = r;
                  upload = u;
                };
              })
      ]

  -- A test first, and what follows where it answers `false`
  pub else_Governed :
      (first : Exec Bool) (next : M (Unit {0}))
      → Tested server x first
      → Governed server x (next x)
      → Governed server x (bind_exec first (λ done. if done then return tt else next))
  else_Governed (returned true y) next h k = h
  else_Governed (returned false y) next h k = subst (λ z. Governed server x (next z)) (sym h) k
  else_Governed (threw code y) next h k = h
  else_Governed (aborted y) next h k = h

  pub as_Tested :
      (m : Exec (Unit {0})) → Governed server x m → Tested server x (bind_exec m (λ _. return true))
  as_Tested (returned a y) h = h
  as_Tested (threw code y) h = h
  as_Tested (aborted y) h = h
