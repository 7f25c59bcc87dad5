-- ===== src/CgiHandler/Descriptors.antt =====
-- Which descriptors of the CGI pipes (src/CgiHandler) the server closes, and which it keeps.
use mathlib.Core.Path.{subst}
use create_httpserver_from_b.Common.{
  ℕ, ◌≡◌, ◌∙◌, refl, sym, ap, ◌⊎◌, inl, inr, Bool, true, false, List, [], ◌∷◌, ◌++◌, append_assoc,
  append-nil, Option, none, some, if◌then◌else◌,
}
use create_httpserver_from_b.Status.{not_implemented_501}
use create_httpserver_from_b.Exchange.{
  System, Pipe, Effect, opened_read, opened_truncate, opened_append, removed, closed, forked,
  Exchange, Exec, returned, threw, aborted, bind_exec, update_response, ◌>>=◌,
}
use create_httpserver_from_b.CgiHandler.{
  Child, close_pipe, fork_child, second_pipe, first_pipe, pipe_and_fork, fail_cgi, post_child,
  outsource_post,
}

abbrev pub closes : List Effect → List ℕ
closes [] = []
closes (opened_read p ∷ es) = closes es
closes (opened_truncate p ∷ es) = closes es
closes (opened_append p ∷ es) = closes es
closes (removed p ∷ es) = closes es
closes (closed fd ∷ es) = fd ∷ closes es
closes (forked pid ∷ es) = closes es

closes-append : (a b : List Effect) → closes (a ++ b) ≡ closes a ++ closes b
closes-append [] b = refl
closes-append (opened_read p ∷ a) b = closes-append a b
closes-append (opened_truncate p ∷ a) b = closes-append a b
closes-append (opened_append p ∷ a) b = closes-append a b
closes-append (removed p ∷ a) b = closes-append a b
closes-append (closed fd ∷ a) b = ap (λ fds. fd ∷ fds) (closes-append a b)
closes-append (forked pid ∷ a) b = closes-append a b

abbrev both_ends : Pipe → List ℕ
both_ends p = p.read_end ∷ p.write_end ∷ []

-- The descriptors that the calls of pipe have created.
abbrev pub created : Option Pipe → Option Pipe → List ℕ
created none to_parent = []
created (some p) none = both_ends p
created (some p) (some q) = both_ends p ++ both_ends q

-- The request fails with 501 and every descriptor is closed, or a child runs: the ends of the
-- child are closed, and the other two are the ones that the response has.
abbrev pub Settled : System → Exchange → Exec (Unit {0}) → Type 0
Settled os x (returned a y) =
    ((y.response.cgi_flag ≡ false)
      × (y.response.status_code ≡ not_implemented_501)
      × (closes y.effects
          ≡ closes x.effects
            ++ (if x.response.file_exist then created os.pipe_to_child os.pipe_to_parent else [])))
    ⊎ ((p : Pipe) × (q : Pipe) × (pid : ℕ) × (os.pipe_to_child ≡ some p)
        × (os.pipe_to_parent ≡ some q)
        × (os.fork ≡ some pid)
        × (closes y.effects ≡ closes x.effects ++ (p.read_end ∷ q.write_end ∷ []))
        × (y.response.read_pipe_fd ≡ some q.read_end)
        × (y.response.write_pipe_fd ≡ some p.write_end)
        × (y.response.cgi_child_pid ≡ some pid))
Settled os x (threw code y) = ⊥
Settled os x (aborted y) = ⊥

-- One more effect
pub closes-snoc :
    (es : List Effect) (e : Effect) (fds : List ℕ)
    → closes es ≡ fds
    → closes (es ++ e ∷ []) ≡ fds ++ closes (e ∷ [])
closes-snoc es e fds h = closes-append es (e ∷ []) ∙ ap (λ a. a ++ closes (e ∷ [])) h

abbrev before : Exchange → List ℕ
before x = closes x.effects

-- The ways through pipeAndFork
abbrev pub Forked : Option Pipe → Option Pipe → Option ℕ → Exchange → Exec (Option Child) → Type 0
Forked a b f x (returned none y) =
    (y.response ≡ x.response) × (closes y.effects ≡ before x ++ created a b)
Forked a b f x (returned (some c) y) =
    (a ≡ some c.to_child)
    × (b ≡ some c.to_parent)
    × (f ≡ some c.pid)
    × (y.response ≡ x.response)
    × (closes y.effects ≡ before x)
Forked a b f x (threw code y) = ⊥
Forked a b f x (aborted y) = ⊥

two_closed :
    (es : List Effect) (p : Pipe)
    → closes ((es ++ closed p.read_end ∷ []) ++ closed p.write_end ∷ []) ≡ closes es ++ both_ends p
two_closed es p =
    closes-snoc (es ++ closed p.read_end ∷ []) (closed p.write_end) _
      (closes-snoc es (closed p.read_end) _ refl)
    ∙ append_assoc (closes es) (p.read_end ∷ []) (p.write_end ∷ [])

fork_child-Forked :
    (p q : Pipe) (f : Option ℕ) (x : Exchange) → Forked (some p) (some q) f x (fork_child p q f x)
unfolding fork_child close_pipe
fork_child-Forked p q (some pid) x =
    (refl, refl, refl, refl, closes-snoc x.effects (forked pid) _ refl ∙ append-nil (before x))
fork_child-Forked p q none x =
    let es = (x.effects ++ closed p.read_end ∷ []) ++ closed p.write_end ∷ [] in
    (
      refl,
      two_closed es q
          ∙ ap (λ a. a ++ both_ends q) (two_closed x.effects p)
          ∙ append_assoc (before x) (both_ends p) (both_ends q),
    )

module _ (os : System) where
  second_pipe-Forked :
      (p : Pipe) (b : Option Pipe) (x : Exchange)
      → Forked (some p) b os.fork x (second_pipe os p b x)
  unfolding second_pipe close_pipe
  second_pipe-Forked p (some q) x = fork_child-Forked p q os.fork x
  second_pipe-Forked p none x = (refl, two_closed x.effects p)

  pub first_pipe-Forked :
      (a : Option Pipe) (x : Exchange) → Forked a os.pipe_to_parent os.fork x (first_pipe os a x)
  unfolding first_pipe
  first_pipe-Forked (some p) x = second_pipe-Forked p os.pipe_to_parent x
  first_pipe-Forked none x = (refl, sym (append-nil (before x)))

  post_child-Settled :
      (x : Exchange) (e : Exec (Option Child))
      → x.response.file_exist ≡ true
      → Forked os.pipe_to_child os.pipe_to_parent os.fork x e
      → Settled os x (bind_exec e post_child)
  unfolding post_child
  post_child-Settled x (returned none y) exists (same, all_closed) = inl (
    refl,
    refl,
    subst
        (λ b.
          closes y.effects
          ≡ before x ++ (if b then created os.pipe_to_child os.pipe_to_parent else []))
        (sym exists) all_closed,
  )
  post_child-Settled x (returned (some c) y) exists (a, b, f, same, kept) = inr (
    c.to_child,
    c.to_parent,
    c.pid,
    a,
    b,
    f,
    closes-snoc (y.effects ++ closed c.to_child.read_end ∷ []) (closed c.to_parent.write_end) _
          (closes-snoc y.effects (closed c.to_child.read_end) _ kept)
        ∙ append_assoc (before x) (c.to_child.read_end ∷ []) (c.to_parent.write_end ∷ []),
    refl,
    refl,
    refl,
  )
  post_child-Settled x (threw code y) exists h = h
  post_child-Settled x (aborted y) exists h = h

  -- A CGI request with a body, for every outcome of pipe and fork: it fails with 501 and what the
  -- calls of pipe have created is closed; or the child's two ends are closed and the other two
  -- are what the response reads from and writes to.
  pub outsource_post-Settled : (x : Exchange) → Settled os x (outsource_post os x)
  unfolding outsource_post pipe_and_fork
  outsource_post-Settled x = split x.response.file_exist refl
    where
      split :
          (b : Bool)
          → x.response.file_exist ≡ b
          → Settled os x
              ((if b then (pipe_and_fork os >>= post_child) else update_response fail_cgi) x)
      split true e =
          post_child-Settled x (first_pipe os os.pipe_to_child x) e
            (first_pipe-Forked os.pipe_to_child x)
      split false e = inl (
        refl,
        refl,
        subst
            (λ b.
              before x ≡ before x ++ (if b then created os.pipe_to_child os.pipe_to_parent else []))
            (sym e) (sym (append-nil (before x))),
      )
