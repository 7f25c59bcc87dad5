-- ===== src/Server/Transfers/PipeSound.antt =====
-- The handlers of pipes and of the timer (src/Server/event) keep the invariant of the server's memory.
use create_httpserver_from_b.Common.{
  ℕ, ◌+◌, ◌≡◌, ◌∙◌, refl, ap, inl, inr, Bool, true, false, [], ◌∷◌, ◌++◌, Option, none, some, Bytes,
  ◌==◌, ltb, length, take, drop, if◌then◌else◌, Bool-cases, Option-cases,
}
use create_httpserver_from_b.Message.{Request, Response}
use create_httpserver_from_b.Server.{
  client, evfilt_write, evfilt_timer, Kevent, ev_add, ev_delete, Udata, World, Kernel, closed,
  stored, killed, waited, act, close_fd, add_change_of, set_udata,
}
use create_httpserver_from_b.Server.Events.{respond}
use create_httpserver_from_b.Server.Events.Sound.{Connected, stored-Sound, respond-Safe}
use create_httpserver_from_b.Server.Sound.{
  is_server, Sound, Safe, add_change_of-Sound, close_fd-Sound,
}
use create_httpserver_from_b.Server.Transfers.{
  join, reap, end_with, end_of_output, read_pipe, pipe_read_event, pipe_write_length,
  after_pipe_write, write_pipe, pipe_write_event, time_out, cgi_process_timeout_event,
}
use create_httpserver_from_b.Server.Transfers.Sound.{
  insert_client-Sound, Connected-set, messages-Safe, followed-Safe,
}

module _ (listening : ℕ → Bool) where
  reap-Sound : (o : Option ℕ) (w : World) → Sound listening w → Sound listening (reap o w)
  reap-Sound none w s = s
  reap-Sound (some pid) w s = s

  reap-heap : (o : Option ℕ) (w : World) → (reap o w).heap ≡ w.heap
  reap-heap none w = refl
  reap-heap (some pid) w = refl

  close_fd-heap : (o : Option ℕ) (w : World) → (close_fd o w).heap ≡ w.heap
  close_fd-heap none w = refl
  close_fd-heap (some pid) w = refl

  -- The data of the connection gets the response, in a world with the same memory.
  finished-Safe :
      (k : Kernel) (fd id : ℕ) (q : Request) (r : Response) (u v : Udata) (w w' : World)
      (last : World → World)
      → w'.heap ≡ w.heap
      → Connected listening w.heap fd id u
      → is_server v.m_type ≡ false
      → v.m_client_sock ≡ some fd
      → Sound listening w'
      → ((x : World) → Sound listening x → Sound listening (last x))
      → Safe listening (respond k q r v (λ v'. last (set_udata id v' w')))
  finished-Safe k fd id q r u v w w' last same c type sock s h =
      respond-Safe listening k q r v (λ v'. last (set_udata id v' w'))
        (λ v' q' r' same_type same_sock request response. h (set_udata id v' w') (
          stored-Sound listening w' fd id u v' q' r'
            (record {
              here = ap (λ heap. heap id) same ∙ c.here;
              sock = c.sock;
              accepted = c.accepted;
            })
            (ap is_server same_type ∙ type) (same_sock ∙ sock) request response s))

  end_with-Safe :
      (k : Kernel) (e : Kevent) (fd id : ℕ) (u : Udata) (q : Request) (r : Response)
      (output : Bytes) (w : World)
      → Connected listening w.heap fd id u
      → is_server u.m_type ≡ false
      → u.m_request ≡ some q
      → Sound listening w
      → Safe listening (end_with k e id u q r output w)
  unfolding end_with respond
  end_with-Safe k e fd id u q r output w c type request s =
      let r' : Response = record r { body = r.body ++ output } in
      let u' : Udata = record u { m_read_buffer = []; m_response = some r' } in
      let w1 = reap u.m_child_pid w in
      let s1 = reap-Sound u.m_child_pid w s in
      elim (Bool-cases k.signaled) [
        | inl killed_by ↦
            rw (killed_by, end_with)
              (insert_client-Sound listening u.m_client_sock fd (set_udata id u' w1) c.sock
                c.accepted
                (stored-Sound listening w1 fd id u u' q r'
                  (record {
                    here = ap (λ heap. heap id) (reap-heap u.m_child_pid w) ∙ c.here;
                    sock = c.sock;
                    accepted = c.accepted;
                  })
                  type c.sock request refl s1))
        | inr ended ↦
            rw (ended, end_with)
              (finished-Safe k fd id q r' u
                (record u' {
                  m_type = client;
                  m_read_pipe_fd = none;
                  m_write_pipe_fd = none;
                  m_child_pid = none;
                })
                w (act (closed e.ident) (close_fd u.m_write_pipe_fd w1))
                (λ x.
                  add_change_of u.m_child_pid (λ pid. ev_delete pid evfilt_timer)
                    (add_change_of u.m_client_sock (λ fd'. ev_add fd' evfilt_write (some id)) x))
                (close_fd-heap u.m_write_pipe_fd w1 ∙ reap-heap u.m_child_pid w) c refl c.sock
                (close_fd-Sound listening u.m_write_pipe_fd w1 s1)
                (λ x sx.
                  add_change_of-Sound listening u.m_child_pid (λ pid. ev_delete pid evfilt_timer)
                    (add_change_of u.m_client_sock (λ fd'. ev_add fd' evfilt_write (some id)) x)
                    (add_change_of-Sound listening u.m_client_sock
                      (λ fd'. ev_add fd' evfilt_write (some id)) x sx)))
      ]

  end_of_output-Safe :
      (k : Kernel) (e : Kevent) (fd id : ℕ) (u : Udata) (q : Request) (r : Response) (w : World)
      → Connected listening w.heap fd id u
      → is_server u.m_type ≡ false
      → u.m_request ≡ some q
      → Sound listening w
      → Safe listening (end_of_output k e id u q r w)
  unfolding end_of_output
  end_of_output-Safe k e fd id u q r w c type request s =
      elim (Option-cases (join u.m_read_bytes u.m_read_buffer)) [
        | inl beyond ↦ rw (beyond, end_of_output) tt
        | inr (output, joined) ↦
            rw (joined, end_of_output) (end_with-Safe k e fd id u q r output w c type request s)
      ]

  read_pipe-Safe :
      (k : Kernel) (e : Kevent) (fd id : ℕ) (u : Udata) (q : Request) (r : Response) (w : World)
      → Connected listening w.heap fd id u
      → is_server u.m_type ≡ false
      → u.m_request ≡ some q
      → u.m_response ≡ some r
      → Sound listening w
      → Safe listening (read_pipe k e id u w)
  unfolding read_pipe
  read_pipe-Safe k e fd id u q r w c type request response s = elim (Option-cases k.read) [
    | inl failed ↦
        rw (failed, read_pipe)
          (insert_client-Sound listening u.m_client_sock fd w c.sock c.accepted s)
    | inr ([], ended) ↦
        simp (ended, read_pipe)
          (messages-Safe listening u q r (λ q' r'. end_of_output k e id u q' r' w) request response
            (end_of_output-Safe k e fd id u q r w c type request s))
    | inr (b ∷ chunk, read) ↦
        rw (read, read_pipe)
          (stored-Sound listening w fd id u
            (record u {
              m_read_buffer = u.m_read_buffer ++ (b ∷ chunk) ∷ [];
              m_read_bytes = u.m_read_bytes ++ length (b ∷ chunk) ∷ [];
              m_total_read_byte = u.m_total_read_byte + length (b ∷ chunk);
            })
            q r c type c.sock request response s)
  ]

  pub pipe_read_event-Safe :
      (k : Kernel) (e : Kevent) (w : World) (fd id : ℕ) (u : Udata) (q : Request) (r : Response)
      → e.udata ≡ some id
      → Connected listening w.heap fd id u
      → is_server u.m_type ≡ false
      → u.m_request ≡ some q
      → u.m_response ≡ some r
      → Sound listening w
      → Safe listening (pipe_read_event k e w)
  unfolding pipe_read_event
  pipe_read_event-Safe k e w fd id u q r at_id c type request response s =
      rw (at_id, c.here, pipe_read_event)
        (read_pipe-Safe k e fd id u q r w c type request response s)

  after_pipe_write-Sound :
      (e : Kevent) (fd id : ℕ) (u : Udata) (q : Request) (r : Response) (w : World)
      → Connected listening w.heap fd id u
      → is_server u.m_type ≡ false
      → u.m_request ≡ some q
      → u.m_response ≡ some r
      → Sound listening w
      → Sound listening (after_pipe_write e id u q w)
  unfolding after_pipe_write
  after_pipe_write-Sound e fd id u q r w c type request response s =
      elim (u.m_file_write_offset == length q.body)
        as (λ b. Sound listening (
          if b
          then set_udata id (record u { m_write_pipe_fd = none }) (act (closed e.ident) w)
          else w)) [
            | true ↦
                stored-Sound listening w fd id u (record u { m_write_pipe_fd = none }) q r c type
                  c.sock request response s
            | false ↦ s
          ]

  write_pipe-Safe :
      (k : Kernel) (e : Kevent) (fd id : ℕ) (u : Udata) (q : Request) (r : Response) (w : World)
      → Connected listening w.heap fd id u
      → is_server u.m_type ≡ false
      → u.m_request ≡ some q
      → u.m_response ≡ some r
      → Sound listening w
      → Safe listening (write_pipe k e id u q w)
  unfolding write_pipe
  write_pipe-Safe k e fd id u q r w c type request response s =
      elim (Bool-cases (ltb 0 e.available)) [
        | inr full ↦
            rw (full, write_pipe) (after_pipe_write-Sound e fd id u q r w c type request response s)
        | inl room ↦
            elim (Option-cases
              (k.write (pipe_write_length e.available (length q.body) u.m_file_write_offset))) [
                | inl failed ↦
                    rw (room, failed, write_pipe)
                      (insert_client-Sound listening u.m_client_sock fd w c.sock c.accepted s)
                | inr (n, wrote) ↦
                    let u' : Udata = record u { m_file_write_offset = u.m_file_write_offset + n } in
                    let w' = act (stored e.ident (take n (drop u.m_file_write_offset q.body))) w in
                    rw (room, wrote, write_pipe)
                      (after_pipe_write-Sound e fd id u' q r (set_udata id u' w')
                        (Connected-set listening w.heap fd id u u' c c.sock) type request response
                        (stored-Sound listening w fd id u u' q r c type c.sock request response s))
              ]
      ]

  pub pipe_write_event-Safe :
      (k : Kernel) (e : Kevent) (w : World) (fd id : ℕ) (u : Udata) (q : Request) (r : Response)
      → e.udata ≡ some id
      → Connected listening w.heap fd id u
      → is_server u.m_type ≡ false
      → u.m_request ≡ some q
      → u.m_response ≡ some r
      → Sound listening w
      → Safe listening (pipe_write_event k e w)
  unfolding pipe_write_event
  pipe_write_event-Safe k e w fd id u q r at_id c type request response s =
      followed-Safe listening w e.udata id u q r (λ i v q' r'. write_pipe k e i v q' w) at_id c.here
        request response (write_pipe-Safe k e fd id u q r w c type request response s)

  time_out-Safe :
      (k : Kernel) (e : Kevent) (fd id : ℕ) (u : Udata) (q : Request) (r : Response) (w : World)
      → Connected listening w.heap fd id u
      → Sound listening w
      → Safe listening (time_out k e id u q r w)
  unfolding time_out
  time_out-Safe k e fd id u q r w c s =
      let w1 = close_fd u.m_write_pipe_fd (close_fd u.m_read_pipe_fd w) in
      finished-Safe k fd id q (record r { is_cgi_timeout = true }) u
        (record u { m_type = client; m_child_pid = none; m_read_buffer = [] }) w
        (act (waited e.ident) (act (killed e.ident) w1))
        (add_change_of u.m_client_sock (λ fd'. ev_add fd' evfilt_write (some id)))
        (close_fd-heap u.m_write_pipe_fd (close_fd u.m_read_pipe_fd w)
          ∙ close_fd-heap u.m_read_pipe_fd w)
        c refl c.sock
        (close_fd-Sound listening u.m_write_pipe_fd (close_fd u.m_read_pipe_fd w)
          (close_fd-Sound listening u.m_read_pipe_fd w s))
        (λ x sx.
          add_change_of-Sound listening u.m_client_sock (λ fd'. ev_add fd' evfilt_write (some id)) x
            sx)

  pub cgi_process_timeout_event-Safe :
      (k : Kernel) (e : Kevent) (w : World) (fd id : ℕ) (u : Udata) (q : Request) (r : Response)
      → e.udata ≡ some id
      → Connected listening w.heap fd id u
      → is_server u.m_type ≡ false
      → u.m_request ≡ some q
      → u.m_response ≡ some r
      → Sound listening w
      → Safe listening (cgi_process_timeout_event k e w)
  unfolding cgi_process_timeout_event
  cgi_process_timeout_event-Safe k e w fd id u q r at_id c type request response s =
      followed-Safe listening w e.udata id u q r (λ i v q' r'. time_out k e i v q' r' w) at_id
        c.here request response (time_out-Safe k e fd id u q r w c s)
