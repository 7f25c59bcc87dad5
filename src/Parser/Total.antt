-- ===== src/Parser/Total.antt =====
-- The end of the loop of Parser::readBuffer (src/Parser/Parser.cpp).
use create_httpserver_from_b.Common.{
  ℕ, zero, suc, ◌+◌, ◌-◌, ◌≤◌, ◌≡◌, refl, inl, inr, true, false, List, [], ◌∷◌, Option, none, some,
  arith, Bytes, Bool-cases, ◌==◌, length-append, if◌then◌else◌, ◌∙◌,
}
use create_httpserver_from_b.Message.{is_complete}
use create_httpserver_from_b.Parser.Invariant.{Inv, Post, step_in-Post}
use create_httpserver_from_b.Parser.{
  Session, new_session, Outcome, ok, thrown, step_in, read_loop, read_buffer, save_buffer_in_pool,
}

-- The rounds that a state still needs.
abbrev pub rounds : Session → ℕ
rounds s = if is_complete s.request.validation_phase then 1 else s.pool.line_len - s.pool.offset + 2

abbrev pub Ends : Session → Option Session → Type 0
Ends s o = (t : Session) × (o ≡ some t) × Inv t × (t.pool.total_line ≡ s.pool.total_line)

-- What the loop does with the outcome of a step.
abbrev pub next_round : ℕ → Outcome → Option Session
next_round fuel (thrown t) = some t
next_round fuel (ok t) = elim (t.pool.line_len == t.pool.offset) [
  | true ↦ some t
  | false ↦ read_loop fuel t
]

rounds-fall :
    (fuel : ℕ) (s t : Session)
    → is_complete s.request.validation_phase ≡ false
    → rounds s ≤ suc fuel
    → Post s (ok t)
    → (t.pool.line_len == t.pool.offset) ≡ false
    → rounds t ≤ fuel
rounds-fall fuel s t open_phase enough post more = ground arith

pub read_loop_step :
    (fuel : ℕ) (s : Session)
    → is_complete s.request.validation_phase ≡ false
    → read_loop (suc fuel) s ≡ next_round fuel (step_in s.request.validation_phase s)
unfolding read_loop
read_loop_step fuel s h = ground arith

pub read_loop_done :
    (fuel : ℕ) (s : Session)
    → is_complete s.request.validation_phase ≡ true
    → read_loop (suc fuel) s ≡ some s
unfolding read_loop
read_loop_done fuel s h = ground arith

next_round-Ends :
    (fuel : ℕ) (s : Session) (o : Outcome)
    → is_complete s.request.validation_phase ≡ false
    → rounds s ≤ suc fuel
    → Post s o
    → ((t : Session) → Inv t → rounds t ≤ fuel → Ends t (read_loop fuel t))
    → Ends s (next_round fuel o)
next_round-Ends fuel s (thrown t) open_phase enough post go = (t, refl, post.2, post.0)
next_round-Ends fuel s (ok t) open_phase enough post go =
    elim (Bool-cases (t.pool.line_len == t.pool.offset)) [
      | inl empty ↦ (t, rw (empty, next_round), post.0.2, post.0.0)
      | inr more ↦
          let (u, e, v, same) = go t post.0.2 (rounds-fall fuel s t open_phase enough post more) in
          (u, rw (more, next_round) e, v, same ∙ post.0.0)
    ]

pub read_loop_total : (fuel : ℕ) (s : Session) → Inv s → rounds s ≤ fuel → Ends s (read_loop fuel s)
read_loop_total zero s v enough = absurd (ground arith)
read_loop_total (suc fuel) s v enough = elim (Bool-cases (is_complete s.request.validation_phase)) [
  | inl done ↦ (s, read_loop_done fuel s done, v, refl)
  | inr open_phase ↦ rw (read_loop_step fuel s open_phase) (
      next_round-Ends fuel s _ open_phase enough (step_in-Post s.request.validation_phase s v refl)
        (λ t. read_loop_total fuel t))
]

abbrev pub saved : Bytes → Session → Session
saved buf s = record { pool = save_buffer_in_pool buf s.pool; request = s.request }

pub saved-Inv : (buf : Bytes) (s : Session) → Inv s → Inv (saved buf s)
unfolding save_buffer_in_pool
saved-Inv buf s v = ground (arith, length-append s.pool.total_line buf)

-- A call of Parser::readBuffer in a state with the invariant returns, whatever the buffer holds
-- and whatever the parser throws inside, and it leaves a state with the invariant.
pub read_buffer-total :
    (buf : Option Bytes) (s : Session)
    → Inv s
    → (t : Session) × (read_buffer buf s ≡ some t) × Inv t
unfolding read_buffer
read_buffer-total none s v = (s, refl, v)
read_buffer-total (some buf) s v = elim (Bool-cases (is_complete s.request.validation_phase)) [
  | inl done ↦ (s, rw (done, read_buffer), v)
  | inr open_phase ↦
      let (t, e, w, _) =
        read_loop_total ((saved buf s).pool.line_len + 2) (saved buf s) (saved-Inv buf s v)
          (ground arith) in
      (t, rw (open_phase, read_buffer) e, w)
]

-- readBuffer on several buffers, one after the other
unfoldable pub feed : List (Option Bytes) → Session → Option Session
feed [] s = some s
feed (buf ∷ bufs) s = elim (read_buffer buf s) [ none ↦ none | some t ↦ feed bufs t ]

pub new_session-Inv : Inv new_session
new_session-Inv = record { sized = refl; within = omega arith; begun = inl refl }

feed_total :
    (bufs : List (Option Bytes)) (s : Session)
    → Inv s
    → (t : Session) × (feed bufs s ≡ some t) × Inv t
unfolding feed
feed_total [] s v = (s, refl, v)
feed_total (buf ∷ bufs) s v =
    let (t, e, w) = read_buffer-total buf s v in
    let (u, e', w') = feed_total bufs t w in (u, rw (e, feed) e', w')

-- From a new connection on, any sequence of buffers is read to the end, and leaves a state whose
-- offset lies within the pool. Once the first line is behind the parser, the URI begins with a
-- slash and the version is HTTP/1.0 or HTTP/1.1.
pub feed-Inv :
    (bufs : List (Option Bytes)) → (t : Session) × (feed bufs new_session ≡ some t) × Inv t
feed-Inv bufs = feed_total bufs new_session new_session-Inv
