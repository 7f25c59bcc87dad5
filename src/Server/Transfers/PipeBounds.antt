-- ===== src/Server/Transfers/PipeBounds.antt =====
-- What pipeWriteEvent (src/Server/event/pipe.cpp) hands to a CGI program.
use mathlib.Core.Path.{subst}
use create_httpserver_from_b.Common.{
  ℕ, ◌+◌, ◌≤◌, ◌≡◌, ◌∙◌, refl, sym, ap, inl, inr, true, false, ◌++◌, append-nil, Option, none, some,
  ◌==◌, ltb, length, take, drop, if◌then◌else◌, Bool-cases, Option-cases, arith,
}
use create_httpserver_from_b.Message.{Request, Response}
use create_httpserver_from_b.Server.{
  Kevent, Udata, closed, stored, World, Outcome, next, Kernel, act, insert_client, set_udata,
  deref_messages,
}
use create_httpserver_from_b.Server.Events.{size_sub}
use create_httpserver_from_b.Server.Output.{stored_on, stored_on-snoc, stored_on-quiet}
use create_httpserver_from_b.Server.Sound.Memory.{at-here, deref-eq}
use create_httpserver_from_b.Server.Transfers.{
  pipe_write_length, after_pipe_write, write_pipe, pipe_write_event,
}
use create_httpserver_from_b.Server.Transfers.Chunks.{deref_messages-eq}

pipe_write_length-bounds :
    (possible size offset : ℕ)
    → offset ≤ size
    → (pipe_write_length possible size offset ≤ possible)
      × (offset + pipe_write_length possible size offset ≤ size)
unfolding pipe_write_length size_sub
pipe_write_length-bounds possible size offset below = ground arith

-- The data at the pointer, its offset, and the log, up to a last close
record Kept (id fd offset : ℕ) (w v : World) : Type 0 where
  pub u : Udata
  pub here : v.heap id ≡ some u
  pub same_offset : u.m_file_write_offset ≡ offset
  pub same_log : stored_on fd v.actions ≡ stored_on fd w.actions

after_pipe_write-Kept :
    (e : Kevent) (id : ℕ) (u : Udata) (q : Request) (w : World)
    → w.heap id ≡ some u
    → Kept id e.ident u.m_file_write_offset w (after_pipe_write e id u q w)
unfolding after_pipe_write
after_pipe_write-Kept e id u q w here =
    elim (u.m_file_write_offset == length q.body)
      as (λ b. Kept id e.ident u.m_file_write_offset w (
        if b
        then set_udata id (record u { m_write_pipe_fd = none }) (act (closed e.ident) w)
        else w)) [
          | true ↦ record {
            u = record u { m_write_pipe_fd = none };
            here = at-here id (some (record u { m_write_pipe_fd = none })) w.heap;
            same_offset = refl;
            same_log = stored_on-quiet e.ident w.actions (closed e.ident) refl;
          }
          | false ↦ record { u = u; here = here; same_offset = refl; same_log = refl }
        ]

-- What one event of a pipe does: `n` more bytes of the body are written.
abbrev pub Advanced : Kevent → ℕ → Udata → Request → World → Outcome → Type 0
Advanced e id u q w o =
    (v : World) × (u' : Udata) × (n : ℕ) × (o ≡ next v)
    × (v.heap id ≡ some u')
    × (u'.m_file_write_offset ≡ u.m_file_write_offset + n)
    × (n ≤ e.available)
    × (u.m_file_write_offset + n ≤ length q.body)
    × (stored_on e.ident v.actions
        ≡ stored_on e.ident w.actions ++ take n (drop u.m_file_write_offset q.body))

insert_client-here :
    (o : Option ℕ) (w : World)
    → ((insert_client o w).heap ≡ w.heap) × ((insert_client o w).actions ≡ w.actions)
insert_client-here none w = (refl, refl)
insert_client-here (some fd) w = (refl, refl)

write_pipe-Advanced :
    (k : Kernel) (e : Kevent) (id : ℕ) (u : Udata) (q : Request) (w : World)
    → w.heap id ≡ some u
    → u.m_file_write_offset ≤ length q.body
    → ((count n : ℕ) → k.write count ≡ some n → n ≤ count)
    → Advanced e id u q w (write_pipe k e id u q w)
unfolding write_pipe
write_pipe-Advanced k e id u q w here below takes =
    let offset = u.m_file_write_offset in
    let same = sym (append-nil (stored_on e.ident w.actions)) in
    elim (Bool-cases (ltb 0 e.available)) [
      | inr full ↦
          let kept = after_pipe_write-Kept e id u q w here in
          (
            after_pipe_write e id u q w,
            kept.u,
            0,
            rw (full, write_pipe) refl,
            kept.here,
            kept.same_offset ∙ omega arith,
            omega arith,
            omega arith,
            kept.same_log ∙ same,
          )
      | inl room ↦
          elim (Option-cases (k.write (pipe_write_length e.available (length q.body) offset))) [
            | inl failed ↦
                let (heap, log) = insert_client-here u.m_client_sock w in
                (
                  insert_client u.m_client_sock w,
                  u,
                  0,
                  rw (room, failed, write_pipe) refl,
                  ap (λ h. h id) heap ∙ here,
                  omega arith,
                  omega arith,
                  omega arith,
                  ap (stored_on e.ident) log ∙ same,
                )
            | inr (n, wrote) ↦
                let (available, inside) =
                  pipe_write_length-bounds e.available (length q.body) offset below in
                let at_most =
                  takes (pipe_write_length e.available (length q.body) offset) n wrote in
                let u' : Udata = record u { m_file_write_offset = offset + n } in
                let w' = set_udata id u' (act (stored e.ident (take n (drop offset q.body))) w) in
                let kept = after_pipe_write-Kept e id u' q w' (at-here id (some u') w.heap) in
                (
                  after_pipe_write e id u' q w',
                  kept.u,
                  n,
                  rw (room, wrote, write_pipe) refl,
                  kept.here,
                  kept.same_offset,
                  omega arith,
                  omega arith,
                  kept.same_log ∙ stored_on-snoc e.ident w.actions (take n (drop offset q.body)),
                )
          ]
    ]

-- One write event of the pipe to a CGI program, whose offset lies within the request's body, if a
-- write never takes more than it is given: the event goes on; it hands over at most as many bytes as
-- the pipe has room for; they are the bytes of the body from the offset on; and the offset moves by
-- their number and stays within the body.
pub pipe_write_event-Advanced :
    (k : Kernel) (e : Kevent) (id : ℕ) (u : Udata) (q : Request) (r : Response) (w : World)
    → e.udata ≡ some id
    → w.heap id ≡ some u
    → u.m_request ≡ some q
    → u.m_response ≡ some r
    → u.m_file_write_offset ≤ length q.body
    → ((count n : ℕ) → k.write count ≡ some n → n ≤ count)
    → Advanced e id u q w (pipe_write_event k e w)
unfolding pipe_write_event
pipe_write_event-Advanced k e id u q r w at_id here request response below takes =
    let same : pipe_write_event k e w ≡ write_pipe k e id u q w =
      deref-eq w e.udata id u (λ i v. deref_messages v (λ q' r'. write_pipe k e i v q' w)) at_id
        here
      ∙ deref_messages-eq u q r (λ q' r'. write_pipe k e id u q' w) request response in
    subst (Advanced e id u q w) (sym same) (write_pipe-Advanced k e id u q w here below takes)
