-- ===== src/Server/Transfers/Stored.antt =====
-- The body of a PUT or POST request is stored (fileWriteEvent, src/Server/event/static_file.cpp).
use mathlib.Core.Path.{subst}
use create_httpserver_from_b.Common.{
  ℕ, zero, suc, ◌+◌, ◌-◌, ◌≤◌, ◌<◌, ◌≡◌, ◌∙◌, refl, sym, ap, inl, inr, Bool, true, false, ◌++◌,
  append_assoc, Option, none, some, Bytes, ◌==◌, ==_iff, leb, length, take, drop, take-append-drop,
  length-drop, take_all, if◌then◌else◌, Bool-cases, Option-cases, arith,
}
use create_httpserver_from_b.Message.{Request, Response}
use create_httpserver_from_b.ResponseGenerator.{Generator, new_generator, generate_response_message}
use create_httpserver_from_b.Server.{
  EventType, client, static_file, evfilt_write, Kevent, Change, ev_add, Udata, closed, stored,
  World, Outcome, next, aborted, bind_outcome, Kernel, act, add_change_of, set_udata,
  deref_messages,
}
use create_httpserver_from_b.Server.Events.{size_sub, is_positive_int, respond}
use create_httpserver_from_b.Server.Events.Delivery.{accepting, drop-drop}
use create_httpserver_from_b.Server.Output.{stored_on, stored_on-snoc, stored_on-quiet}
use create_httpserver_from_b.Server.Sound.Memory.{at-here, deref-eq}
use create_httpserver_from_b.Server.Transfers.{after_write, write_file, file_write_event}
use create_httpserver_from_b.Server.Transfers.Chunks.{deref_messages-eq}
use create_httpserver_from_b.Server.Transfers.CgiOutput.{add_change_of-heap}

abbrev pub is_static_file : EventType → Bool
is_static_file static_file = true
is_static_file _ = false

abbrev still_storing : Option Udata → Bool
still_storing none = false
still_storing (some u) = is_static_file u.m_type

-- Write events of the file, until its data is no longer that of a file
pub store : Kernel → (ℕ → ℕ → ℕ) → ℕ → Kevent → ℕ → World → Outcome
store k accept zero e id w = next w
store k accept (suc n) e id w =
    if still_storing (w.heap id)
    then bind_outcome (file_write_event (accepting k accept n) e w) (store k accept n e id)
    else next w

-- The data is that of a client whose response is ready, and these bytes have been stored.
abbrev pub Saved : ℕ → ℕ → Bytes → Option Generator → Outcome → Type 0
Saved id fd bytes none o = o ≡ aborted
Saved id fd bytes (some g) o =
    (v : World) × (u : Udata) × (o ≡ next v)
    × (v.heap id ≡ some u)
    × (u.m_type ≡ client)
    × (u.m_response_write ≡ record {
      message = g.response.response_message;
      length = length g.response.response_message;
      offset = 0;
    })
    × (stored_on fd v.actions ≡ bytes)

pub add_change_of-actions :
    (o : Option ℕ) (c : ℕ → Change) (w : World) → (add_change_of o c w).actions ≡ w.actions
add_change_of-actions none c w = refl
add_change_of-actions (some fd) c w = refl

module _ (k : Kernel) (e : Kevent) (id : ℕ) (q : Request) (r : Response) (at_id : e.udata ≡ some id)
    (room : is_positive_int e.available ≡ true) (accept : ℕ → ℕ → ℕ)
    (takes : (n count : ℕ) → (accept n count ≤ count) × (0 < count → 0 < accept n count)) where
  answer : Option Generator
  answer =
      generate_response_message k.os_name k.date
        (new_generator q (record r { static_write_file_fd = none }))

  took : ℕ → Udata → ℕ
  took n u = accept n (length q.body - u.m_file_write_offset)

  moved : ℕ → Udata → Udata
  moved n u = record u { m_file_write_offset = u.m_file_write_offset + took n u }

  logged : ℕ → Udata → World → World
  logged n u w =
      set_udata id (moved n u)
        (act (stored e.ident (take (took n u) (drop u.m_file_write_offset q.body))) w)

  file_write_event-step :
      (n : ℕ) (u : Udata) (w : World)
      → w.heap id ≡ some u
      → u.m_request ≡ some q
      → u.m_response ≡ some r
      → u.m_file_write_offset ≤ length q.body
      → file_write_event (accepting k accept n) e w
        ≡ after_write (accepting k accept n) e id (moved n u) q r (logged n u w)
  unfolding file_write_event write_file size_sub took moved logged
  file_write_event-step n u w here request response below =
      let inside : leb u.m_file_write_offset (length q.body) ≡ true = ground arith in
      deref-eq w e.udata id u
        (λ i v. deref_messages v (λ q' r'. write_file (accepting k accept n) e i v q' r' w)) at_id
        here
      ∙ (deref_messages-eq u q r (λ q' r'. write_file (accepting k accept n) e id u q' r' w) request
            response
          ∙ rw (room, inside, write_file, size_sub) refl)

  -- The whole body is there.
  after_write-Saved :
      (n : ℕ) (u : Udata) (w : World)
      → u.m_file_write_offset ≡ length q.body
      → Saved id e.ident
          (stored_on e.ident w.actions)
          answer
          (after_write (accepting k accept n) e id u q r w)
  unfolding answer after_write respond
  after_write-Saved n u w whole =
      let o = after_write (accepting k accept n) e id u q r w in
      let test : (u.m_file_write_offset == length q.body) ≡ true =
        (==_iff u.m_file_write_offset (length q.body)).1 whole in
      elim (Option-cases answer) [
        | inl none_made ↦
            subst (λ a. Saved id e.ident (stored_on e.ident w.actions) a o) (sym none_made)
              (rw (test, none_made, after_write, respond) refl)
        | inr (g, made) ↦
            let message = g.response.response_message in
            let u' : Udata = record u {
              m_type = client;
              m_request = some g.request;
              m_response = some g.response;
              m_response_write = record { message = message; length = length message; offset = 0 };
            } in
            let w1 =
              add_change_of u.m_client_sock (λ fd. ev_add fd evfilt_write (some id))
                (set_udata id u' w) in
            subst (λ a. Saved id e.ident (stored_on e.ident w.actions) a o) (sym made)
              (
                act (closed e.ident) w1,
                u',
                rw (test, made, after_write, respond) refl,
                ap (λ h. h id)
                      (add_change_of-heap u.m_client_sock (λ fd. ev_add fd evfilt_write (some id))
                        (set_udata id u' w))
                    ∙ at-here id (some u') w.heap,
                refl,
                refl,
                stored_on-quiet e.ident w1.actions (closed e.ident) refl
                    ∙ ap (stored_on e.ident) (
                        add_change_of-actions u.m_client_sock
                          (λ fd. ev_add fd evfilt_write (some id)) (set_udata id u' w)),
              )
      ]

  store-done :
      (n : ℕ) (v : World) (u : Udata)
      → v.heap id ≡ some u
      → u.m_type ≡ client
      → store k accept n e id v ≡ next v
  unfolding store
  store-done zero v u here type = refl
  store-done (suc n) v u here type =
      let ended : still_storing (v.heap id) ≡ false =
        ap still_storing here ∙ ap is_static_file type in
      rw (ended, store) refl

  Saved-store :
      (n : ℕ) (bytes : Bytes) (a : Option Generator) (o : Outcome)
      → Saved id e.ident bytes a o
      → Saved id e.ident bytes a (bind_outcome o (store k accept n e id))
  Saved-store n bytes none o stops = ap (λ p. bind_outcome p (store k accept n e id)) stops
  Saved-store n bytes (some g) o (v, u, same, here, type, ready, log) = (
    v,
    u,
    ap (λ p. bind_outcome p (store k accept n e id)) same ∙ store-done n v u here type,
    here,
    type,
    ready,
    log,
  )

  took-bounds :
      (n : ℕ) (u : Udata)
      → (took n u ≤ length q.body - u.m_file_write_offset)
        × (0 < length q.body - u.m_file_write_offset → 0 < took n u)
  unfolding took
  took-bounds n u = takes n (length q.body - u.m_file_write_offset)

  store-step :
      (n : ℕ) (u : Udata) (w : World)
      → w.heap id ≡ some u
      → u.m_type ≡ static_file
      → u.m_request ≡ some q
      → u.m_response ≡ some r
      → u.m_file_write_offset ≤ length q.body
      → store k accept (suc n) e id w
        ≡ bind_outcome
            (after_write (accepting k accept n) e id (moved n u) q r (logged n u w))
            (store k accept n e id)
  unfolding store
  store-step n u w here type request response below =
      let goes : still_storing (w.heap id) ≡ true =
        ap still_storing here ∙ ap is_static_file type in
      let run : store k accept (suc n) e id w
          ≡ bind_outcome (file_write_event (accepting k accept n) e w) (store k accept n e id) =
        rw (goes, store) refl in
      run
      ∙ ap (λ o. bind_outcome o (store k accept n e id))
          (file_write_event-step n u w here request response below)

  after_write-part :
      (n : ℕ) (u : Udata) (w : World)
      → u.m_file_write_offset < length q.body
      → after_write (accepting k accept n) e id u q r w ≡ next w
  unfolding after_write
  after_write-part n u w short =
      let part : (u.m_file_write_offset == length q.body) ≡ false = ground arith in
      rw (part, after_write) refl

  stored_on-logged :
      (n : ℕ) (u : Udata) (w : World)
      → stored_on e.ident (logged n u w).actions
        ≡ stored_on e.ident w.actions ++ take (took n u) (drop u.m_file_write_offset q.body)
  unfolding logged
  stored_on-logged n u w =
      stored_on-snoc e.ident w.actions (take (took n u) (drop u.m_file_write_offset q.body))

  store-from :
      (n : ℕ) (u : Udata) (w : World)
      → w.heap id ≡ some u
      → u.m_type ≡ static_file
      → u.m_request ≡ some q
      → u.m_response ≡ some r
      → u.m_file_write_offset ≤ length q.body
      → length q.body ≤ u.m_file_write_offset + n
      → 0 < n
      → Saved id e.ident
          (stored_on e.ident w.actions ++ drop u.m_file_write_offset q.body)
          answer
          (store k accept n e id w)
  unfolding moved logged
  store-from zero u w here type request response below enough some_left = absurd (omega arith)
  store-from (suc n) u w here type request response below enough some_left =
      let offset = u.m_file_write_offset in
      let t = took n u in
      let rest = drop offset q.body in
      let (at_most, positive) = took-bounds n u in
      let step = store-step n u w here type request response below in
      let run = after_write (accepting k accept n) e id (moved n u) q r (logged n u w) in
      elim (Bool-cases (offset + t == length q.body)) [
        | inl whole ↦
            let full : offset + t ≡ length q.body = (==_iff (offset + t) (length q.body)).0 whole in
            let log =
              stored_on-logged n u w
              ∙ ap (λ s. stored_on e.ident w.actions ++ s)
                  (take_all t rest (omega (arith, length-drop offset q.body))) in
            subst (Saved id e.ident (stored_on e.ident w.actions ++ rest) answer) (sym step) (
              subst
                (λ bytes. Saved id e.ident bytes answer (bind_outcome run (store k accept n e id)))
                log
                (Saved-store n (stored_on e.ident (logged n u w).actions) answer run
                  (after_write-Saved n (moved n u) (logged n u w) full)))
        | inr part ↦
            let short : offset + t < length q.body = ground arith in
            let one : 0 < t = positive (omega arith) in
            let log =
              ap (λ s. s ++ drop (offset + t) q.body) (stored_on-logged n u w)
              ∙ (append_assoc (stored_on e.ident w.actions) (take t rest) (drop (offset + t) q.body)
                  ∙ ap (λ s. stored_on e.ident w.actions ++ s)
                      (ap (λ s. take t rest ++ s) (sym (drop-drop t offset q.body))
                        ∙ take-append-drop t rest)) in
            let goes =
              step
              ∙ ap (λ o. bind_outcome o (store k accept n e id))
                  (after_write-part n (moved n u) (logged n u w) short) in
            subst (Saved id e.ident (stored_on e.ident w.actions ++ rest) answer) (sym goes) (
              subst (λ bytes. Saved id e.ident bytes answer (store k accept n e id (logged n u w)))
                log
                (store-from n (moved n u) (logged n u w) (at-here id (some (moved n u)) w.heap) type
                  request response (omega arith) (omega arith) (omega arith)))
      ]

  -- A body of n bytes with n positive, of which nothing is stored yet, is stored by at most n write
  -- events of its file if the file has room and each write takes a part, and at least one byte, of
  -- what it is given: the bytes that were written are those of the whole body, each once and in their
  -- order, and the response of the generator is ready for the client; or the events abort because
  -- the generator does.
  pub store-all :
      (u : Udata) (w : World)
      → w.heap id ≡ some u
      → u.m_type ≡ static_file
      → u.m_request ≡ some q
      → u.m_response ≡ some r
      → u.m_file_write_offset ≡ 0
      → 0 < length q.body
      → Saved id e.ident
          (stored_on e.ident w.actions ++ q.body)
          (generate_response_message k.os_name k.date
            (new_generator q (record r { static_write_file_fd = none })))
          (store k accept (length q.body) e id w)
  unfolding answer
  store-all u w here type request response start some_left =
      subst
        (λ n.
          Saved id e.ident (stored_on e.ident w.actions ++ drop n q.body) answer
            (store k accept (length q.body) e id w))
        start
        (store-from (length q.body) u w here type request response (omega arith) (omega arith)
          some_left)
