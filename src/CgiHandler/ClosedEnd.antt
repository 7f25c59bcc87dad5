-- ===== src/CgiHandler/ClosedEnd.antt =====
-- GetCgiHandler::outsourceCgiRequest (src/CgiHandler/GetCgiHandler.cpp): the descriptors of a GET request.
use mathlib.Core.Path.{subst}
use create_httpserver_from_b.Common.{
  ◌≡◌, ◌∙◌, refl, sym, ◌⊎◌, inl, inr, Bool, true, false, [], ◌∷◌, ◌++◌, append_assoc, append-nil, ℕ,
  Option, none, some, if◌then◌else◌,
}
use create_httpserver_from_b.Status.{not_implemented_501}
use create_httpserver_from_b.Exchange.{
  System, Pipe, closed, Exchange, Exec, returned, threw, aborted, bind_exec, update_response, ◌>>=◌,
}
use create_httpserver_from_b.CgiHandler.{
  Child, first_pipe, pipe_and_fork, fail_cgi, get_child, outsource_get,
}
use create_httpserver_from_b.CgiHandler.Descriptors.{
  closes, closes-snoc, created, Forked, first_pipe-Forked,
}

-- The request fails with 501 and every descriptor is closed, or a child runs: three of the four
-- ends are closed, and one of these is the one that the response has for writing.
abbrev pub SettledGet : System → Exchange → Exec (Unit {0}) → Type 0
SettledGet os x (returned a y) =
    ((y.response.cgi_flag ≡ false)
      × (y.response.status_code ≡ not_implemented_501)
      × (closes y.effects
          ≡ closes x.effects
            ++ (if x.response.file_exist then created os.pipe_to_child os.pipe_to_parent else [])))
    ⊎ ((p : Pipe) × (q : Pipe) × (pid : ℕ) × (os.pipe_to_child ≡ some p)
        × (os.pipe_to_parent ≡ some q)
        × (os.fork ≡ some pid)
        × (closes y.effects ≡ closes x.effects ++ (p.read_end ∷ p.write_end ∷ q.write_end ∷ []))
        × (y.response.read_pipe_fd ≡ some q.read_end)
        × (y.response.write_pipe_fd ≡ some p.write_end)
        × (y.response.cgi_child_pid ≡ some pid))
SettledGet os x (threw code y) = ⊥
SettledGet os x (aborted y) = ⊥

module _ (os : System) where
  get_child-Settled :
      (x : Exchange) (e : Exec (Option Child))
      → x.response.file_exist ≡ true
      → Forked os.pipe_to_child os.pipe_to_parent os.fork x e
      → SettledGet os x (bind_exec e get_child)
  unfolding get_child
  get_child-Settled x (returned none y) exists (same, all_closed) = inl (
    refl,
    refl,
    subst
        (λ b.
          closes y.effects
          ≡ closes x.effects ++ (if b then created os.pipe_to_child os.pipe_to_parent else []))
        (sym exists) all_closed,
  )
  get_child-Settled x (returned (some c) y) exists (a, b, f, same, kept) =
      let r = c.to_child.read_end in
      let w = c.to_child.write_end in
      let one = closes-snoc y.effects (closed r) (closes x.effects) kept in
      let two =
        closes-snoc (y.effects ++ closed r ∷ []) (closed w) (closes x.effects ++ r ∷ []) one in
      inr (
        c.to_child,
        c.to_parent,
        c.pid,
        a,
        b,
        f,
        closes-snoc ((y.effects ++ closed r ∷ []) ++ closed w ∷ []) (closed c.to_parent.write_end)
              ((closes x.effects ++ r ∷ []) ++ w ∷ []) two
            ∙ append_assoc (closes x.effects ++ r ∷ []) (w ∷ []) (c.to_parent.write_end ∷ [])
            ∙ append_assoc (closes x.effects) (r ∷ []) (w ∷ c.to_parent.write_end ∷ []),
        refl,
        refl,
        refl,
      )
  get_child-Settled x (threw code y) exists h = h
  get_child-Settled x (aborted y) exists h = h

  -- A GET request for CGI, for every outcome of pipe and fork: it fails with 501 and what the calls
  -- of pipe have created is closed; or fork has started a child, whose number and pipe ends the
  -- response records, and the recorded descriptor for writing to it is already closed.
  pub outsource_get-SettledGet : (x : Exchange) → SettledGet os x (outsource_get os x)
  unfolding outsource_get pipe_and_fork
  outsource_get-SettledGet x = split x.response.file_exist refl
    where
      split :
          (b : Bool)
          → x.response.file_exist ≡ b
          → SettledGet os x
              ((if b then (pipe_and_fork os >>= get_child) else update_response fail_cgi) x)
      split true e =
          get_child-Settled x (first_pipe os os.pipe_to_child x) e
            (first_pipe-Forked os os.pipe_to_child x)
      split false e = inl (
        refl,
        refl,
        subst
            (λ b.
              closes x.effects
              ≡ closes x.effects ++ (if b then created os.pipe_to_child os.pipe_to_parent else []))
            (sym e) (sym (append-nil (closes x.effects))),
      )
