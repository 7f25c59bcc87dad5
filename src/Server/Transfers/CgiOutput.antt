-- ===== src/Server/Transfers/CgiOutput.antt =====
-- The output of a CGI program becomes the body of the response (pipeReadEvent,
-- src/Server/event/pipe.cpp).
use mathlib.Core.Path.{subst}
use create_httpserver_from_b.Common.{
  ℕ, ◌+◌, ◌<◌, ◌≡◌, ◌∙◌, refl, sym, ap, false, List, [], ◌∷◌, ◌++◌, append_assoc, append-nil,
  take_all, ltb, inl, inr, Option-cases, Option, none, some, Bytes, length, arith,
}
use create_httpserver_from_b.Message.{Request, Response}
use create_httpserver_from_b.ResponseGenerator.{Generator, new_generator, generate_response_message}
use create_httpserver_from_b.Server.{
  client, evfilt_write, evfilt_timer, Kevent, Change, ev_add, ev_delete, Udata, closed, World,
  Outcome, next, aborted, bind_outcome, Kernel, act, close_fd, add_change_of, set_udata,
}
use create_httpserver_from_b.Server.Events.{respond}
use create_httpserver_from_b.Server.Sound.Memory.{at-here, deref-eq}
use create_httpserver_from_b.Server.Transfers.{
  join_buffer, join, reap, end_with, end_of_output, read_pipe, pipe_read_event,
}
use create_httpserver_from_b.Server.Transfers.Chunks.{concat, reading, NonEmpty, deref_messages-eq}

abbrev pub sizes : List Bytes → List ℕ
sizes [] = []
sizes (b ∷ bs) = length b ∷ sizes bs

sizes-append : (bs : List Bytes) (c : Bytes) → sizes bs ++ length c ∷ [] ≡ sizes (bs ++ c ∷ [])
sizes-append [] c = refl
sizes-append (b ∷ bs) c = ap (λ ns. length b ∷ ns) (sizes-append bs c)

within : (n : ℕ) → ltb n n ≡ false
within n = ground arith

-- With the number of bytes of every buffer, all of the buffers' bytes are joined.
join-sizes : (bs : List Bytes) → join (sizes bs) bs ≡ some (concat bs)
unfolding join join_buffer
join-sizes [] = refl
join-sizes (b ∷ bs) =
    ap (join_buffer (length b) b) (join-sizes bs)
    ∙ (rw (within (length b), join_buffer)
        (ap (λ s. some (s ++ concat bs)) (take_all (length b) b (omega arith))))

-- Read events of the pipe, one for each piece of the output, and the one at its end
pub read_output : Kernel → Kevent → List Bytes → World → Outcome
read_output k e [] w = pipe_read_event (reading k []) e w
read_output k e (c ∷ cs) w = bind_outcome (pipe_read_event (reading k c) e w) (read_output k e cs)

pub add_change_of-heap :
    (o : Option ℕ) (c : ℕ → Change) (w : World) → (add_change_of o c w).heap ≡ w.heap
add_change_of-heap none c w = refl
add_change_of-heap (some fd) c w = refl

-- The response of the generator, to be written from its start, for a client
abbrev pub Ready : ℕ → Generator → Outcome → Type 0
Ready id g o =
    (v : World) × (u : Udata) × (o ≡ next v)
    × (v.heap id ≡ some u)
    × (u.m_type ≡ client)
    × (u.m_child_pid ≡ none)
    × (u.m_response_write ≡ record {
      message = g.response.response_message;
      length = length g.response.response_message;
      offset = 0;
    })

-- What follows from what the generator answers
abbrev pub Answered : ℕ → Option Generator → Outcome → Type 0
Answered id none o = o ≡ aborted
Answered id (some g) o = Ready id g o

module _ (k : Kernel) (e : Kevent) (id : ℕ) (q : Request) (r : Response) (at_id : e.udata ≡ some id)
    (lived : k.signaled ≡ false) where
  -- What the generator makes of the output
  generated : List Bytes → Option Generator
  generated pieces =
      generate_response_message k.os_name k.date
        (new_generator q (record r { body = r.body ++ concat pieces }))

  end_with-Ready :
      (u : Udata) (w : World) (g : Generator)
      → generated u.m_read_buffer ≡ some g
      → Ready id g (end_with (reading k []) e id u q r (concat u.m_read_buffer) w)
  unfolding end_with respond generated
  end_with-Ready u w g made =
      let message = g.response.response_message in
      let u' : Udata = record u {
        m_type = client;
        m_read_pipe_fd = none;
        m_write_pipe_fd = none;
        m_child_pid = none;
        m_read_buffer = [];
        m_request = some g.request;
        m_response = some g.response;
        m_response_write = record { message = message; length = length message; offset = 0 };
      } in
      let w1 = act (closed e.ident) (close_fd u.m_write_pipe_fd (reap u.m_child_pid w)) in
      let w2 =
        add_change_of u.m_client_sock (λ fd. ev_add fd evfilt_write (some id))
          (set_udata id u' w1) in
      let w3 = add_change_of u.m_child_pid (λ pid. ev_delete pid evfilt_timer) w2 in
      let here : w3.heap id ≡ some u' =
        ap (λ h. h id)
          (add_change_of-heap u.m_child_pid (λ pid. ev_delete pid evfilt_timer) w2
            ∙ add_change_of-heap u.m_client_sock (λ fd. ev_add fd evfilt_write (some id))
                (set_udata id u' w1))
        ∙ at-here id (some u') w1.heap in
      (w3, u', rw (lived, made, end_with, respond) refl, here, refl, refl, refl)

  end_with-Answered :
      (u : Udata) (w : World)
      → Answered id
          (generated u.m_read_buffer)
          (end_with (reading k []) e id u q r (concat u.m_read_buffer) w)
  unfolding end_with respond generated
  end_with-Answered u w =
      let ends = end_with (reading k []) e id u q r (concat u.m_read_buffer) w in
      elim (Option-cases (generated u.m_read_buffer)) [
        | inl none_made ↦
            subst (λ o. Answered id o ends) (sym none_made)
              (rw (lived, none_made, end_with, respond) refl)
        | inr (g, made) ↦ subst (λ o. Answered id o ends) (sym made) (end_with-Ready u w g made)
      ]

  end_of_output-Answered :
      (u : Udata) (w : World)
      → u.m_read_bytes ≡ sizes u.m_read_buffer
      → Answered id (generated u.m_read_buffer) (end_of_output (reading k []) e id u q r w)
  unfolding end_of_output
  end_of_output-Answered u w recorded =
      let after : Option Bytes → Outcome = λ o. elim o [
        | none ↦ aborted
        | some output ↦ end_with (reading k []) e id u q r output w
      ] in
      subst (Answered id (generated u.m_read_buffer))
        (sym (
          ap (λ ns. after (join ns u.m_read_buffer)) recorded
          ∙ ap after (join-sizes u.m_read_buffer)))
        (end_with-Answered u w)

  piled : Udata → Bytes → Udata
  piled u c = record u {
    m_read_buffer = u.m_read_buffer ++ c ∷ [];
    m_read_bytes = u.m_read_bytes ++ length c ∷ [];
    m_total_read_byte = u.m_total_read_byte + length c;
  }

  pipe_read_event-piled :
      (c : Bytes) (u : Udata) (w : World)
      → 0 < length c
      → w.heap id ≡ some u
      → pipe_read_event (reading k c) e w ≡ next (set_udata id (piled u c) w)
  unfolding pipe_read_event read_pipe piled
  pipe_read_event-piled [] u w some_bytes here = absurd (omega arith)
  pipe_read_event-piled (b ∷ c) u w some_bytes here =
      deref-eq w e.udata id u (λ i v. read_pipe (reading k (b ∷ c)) e i v w) at_id here

  pipe_read_event-end :
      (u : Udata) (w : World)
      → w.heap id ≡ some u
      → u.m_request ≡ some q
      → u.m_response ≡ some r
      → pipe_read_event (reading k []) e w ≡ end_of_output (reading k []) e id u q r w
  unfolding pipe_read_event read_pipe
  pipe_read_event-end u w here request response =
      deref-eq w e.udata id u (λ i v. read_pipe (reading k []) e i v w) at_id here
      ∙ deref_messages-eq u q r (λ q' r'. end_of_output (reading k []) e id u q' r' w) request
          response

  -- The output of a CGI program that ends by itself may come in any pieces that have bytes, if the
  -- sizes of the buffers that were read before are recorded: the events of the pipe leave the response
  -- that the generator makes of the pieces, joined in their order behind what was read before, ready to
  -- be written to the client, and no child; or they abort because the generator does on these pieces.
  pub read_output-Answered :
      (pieces : List Bytes) (u : Udata) (w : World)
      → w.heap id ≡ some u
      → u.m_request ≡ some q
      → u.m_response ≡ some r
      → u.m_read_bytes ≡ sizes u.m_read_buffer
      → NonEmpty pieces
      → Answered id
          (generate_response_message k.os_name k.date
            (new_generator q (record r { body = r.body ++ concat (u.m_read_buffer ++ pieces) })))
          (read_output k e pieces w)
  unfolding read_output generated piled
  read_output-Answered [] u w here request response recorded some_bytes =
      subst (λ o. Answered id (generated (u.m_read_buffer ++ [])) o)
        (sym (pipe_read_event-end u w here request response))
        (subst
          (λ pieces. Answered id (generated pieces) (end_of_output (reading k []) e id u q r w))
          (sym (append-nil u.m_read_buffer)) (end_of_output-Answered u w recorded))
  read_output-Answered (c ∷ cs) u w here request response recorded (one, more) =
      subst
        (λ o.
          Answered id (generated (u.m_read_buffer ++ c ∷ cs)) (bind_outcome o (read_output k e cs)))
        (sym (pipe_read_event-piled c u w one here))
        (subst
          (λ pieces.
            Answered id (generated pieces) (read_output k e cs (set_udata id (piled u c) w)))
          (append_assoc u.m_read_buffer (c ∷ []) cs)
          (read_output-Answered cs (piled u c) (set_udata id (piled u c) w)
            (at-here id (some (piled u c)) w.heap) request response
            (ap (λ ns. ns ++ length c ∷ []) recorded ∙ sizes-append u.m_read_buffer c) more))
