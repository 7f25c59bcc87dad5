-- ===== src/Parser/Reads.antt =====
-- What a call of Parser::readBuffer does, as a relation without fuel.
use create_httpserver_from_b.Common.{
  ℕ, zero, suc, ◌+◌, ◌≡◌, sym, inl, inr, true, false, some, arith, Bytes, Bool-cases, ◌==◌, ◌∙◌, ap,
}
use create_httpserver_from_b.Message.{is_complete}
use create_httpserver_from_b.Parser.Invariant.{Inv}
use create_httpserver_from_b.Parser.Total.{
  next_round, read_loop_step, read_loop_done, read_loop_total, saved, saved-Inv,
}
use create_httpserver_from_b.Parser.{Session, Outcome, ok, thrown, step_in, read_loop, read_buffer}

abbrev step : Session → Outcome
step s = step_in s.request.validation_phase s

abbrev Open : Session → Type 0
Open s = is_complete s.request.validation_phase ≡ false

-- The loop goes from the first state to the second one and returns there.
pub data Reads : Session → Session → Type 0 where
  done : {s : Session} → is_complete s.request.validation_phase ≡ true → Reads s s
  failed : {s t : Session} → Open s → step s ≡ thrown t → Reads s t
  used_up :
      {s t : Session}
      → Open s
      → step s ≡ ok t
      → (t.pool.line_len == t.pool.offset) ≡ true
      → Reads s t
  more :
      {s t u : Session}
      → Open s
      → step s ≡ ok t
      → (t.pool.line_len == t.pool.offset) ≡ false
      → Reads t u
      → Reads s u

read_loop-Open :
    (fuel : ℕ) (s : Session) {o : Outcome}
    → Open s
    → step s ≡ o
    → read_loop (suc fuel) s ≡ next_round fuel o
read_loop-Open fuel s h e = read_loop_step fuel s h ∙ ap (next_round fuel) e

-- Some fuel is enough for a derivation.
Reads-fuel : {s t : Session} → Reads s t → (fuel : ℕ) × (read_loop fuel s ≡ some t)
Reads-fuel (done {s} h) = (1, read_loop_done 0 s h)
Reads-fuel (failed {s} h e) = (1, read_loop-Open 0 s h e)
Reads-fuel (used_up {s} h e z) = (1, read_loop-Open 0 s h e ∙ rw (z, next_round))
Reads-fuel (more {s} h e z r) =
    let (fuel, e') = Reads-fuel r in (suc fuel, read_loop-Open fuel s h e ∙ rw (z, next_round) e')

-- Two runs that both end agree, whatever their fuel.
next_round-agree :
    (f g : ℕ) (o : Outcome) (t u : Session)
    → ((s : Session) → read_loop f s ≡ some t → read_loop g s ≡ some u → t ≡ u)
    → next_round f o ≡ some t
    → next_round g o ≡ some u
    → t ≡ u
next_round-agree f g (thrown s) t u rec p q = cc
next_round-agree f g (ok s) t u rec p q = elim (Bool-cases (s.pool.line_len == s.pool.offset)) [
  | inl z ↦ ground arith
  | inr z ↦ rec s (rw (z, next_round) at p) (rw (z, next_round) at q)
]

read_loop_zero : (s t : Session) → read_loop 0 s ≡ some t → ⊥
unfolding read_loop
read_loop_zero s t p = cc

read_loop-agree :
    (f g : ℕ) (s t u : Session) → read_loop f s ≡ some t → read_loop g s ≡ some u → t ≡ u
read_loop-agree zero g s t u p q = absurd (read_loop_zero s t p)
read_loop-agree (suc f) zero s t u p q = absurd (read_loop_zero s u q)
read_loop-agree (suc f) (suc g) s t u p q =
    elim (Bool-cases (is_complete s.request.validation_phase)) [
      | inl h ↦ cc (read_loop_done f s h, read_loop_done g s h)
      | inr h ↦
          next_round-agree f g (step s) t u (λ v. read_loop-agree f g v t u)
            (sym (read_loop_step f s h) ∙ p) (sym (read_loop_step g s h) ∙ q)
    ]

-- A derivation from the state with the new bytes gives the result of the call.
pub read_buffer-Reads :
    (buf : Bytes) (s t : Session)
    → Inv s
    → is_complete s.request.validation_phase ≡ false
    → Reads (saved buf s) t
    → read_buffer (some buf) s ≡ some t
unfolding read_buffer
read_buffer-Reads buf s t v h r =
    let (u, e, _, _) =
      read_loop_total ((saved buf s).pool.line_len + 2) (saved buf s) (saved-Inv buf s v)
        (ground arith) in
    let (fuel, e') = Reads-fuel r in
    rw (h, read_buffer) (e ∙ ap some (read_loop-agree _ fuel (saved buf s) u t e e'))
