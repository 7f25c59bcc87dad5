-- ===== src/Server/Loop/Sound.antt =====
-- Every turn of Server::start (src/Server/Server.cpp) keeps the invariant of the server's memory.
use create_httpserver_from_b.Common.{
  ℕ, ◌≡◌, ◌∙◌, refl, sym, ap, inl, inr, Bool, true, false, none, some, if◌then◌else◌, Bool-cases,
  Option-cases,
}
use mathlib.Core.Path.{subst}
use create_httpserver_from_b.Message.{Request, Response, new_request, new_response}
use create_httpserver_from_b.Server.{
  EventType, server_read, cgi_process_timeout, server, client, pipe, process, static_file, Filter,
  evfilt_read, evfilt_write, evfilt_timer, other_filter, Kevent, Udata, new_udata, nonblocking,
  World, Outcome, next, Kernel, mem, act, insert_fd, deref,
}
use create_httpserver_from_b.Server.Events.Sound.{
  Connected, client_write_event-Safe, client_write_event-ended, client_read_event-ended,
}
use create_httpserver_from_b.Server.Events.Served.{client_read_event-Safe}
use create_httpserver_from_b.Server.Transfers.Sound.{
  static_file_read_event-Safe, file_write_event-Safe,
}
use create_httpserver_from_b.Server.Transfers.{cgi_process_timeout_event}
use create_httpserver_from_b.Server.Transfers.PipeSound.{
  pipe_read_event-Safe, pipe_write_event-Safe, cgi_process_timeout_event-Safe,
}
use create_httpserver_from_b.Server.Loop.{
  read_event_status, write_event_status, filter_status, error_status, get_event_status,
  server_read_event, handle, handle_event,
}
use create_httpserver_from_b.Server.Loop.Reported.{
  deref-NotLive, Reported, refused, stale, to_accept, to_serve, late_timer, late_end, Follows,
  Safe-Follows,
}
use create_httpserver_from_b.Server.Sound.{
  is_server, listener, connection, Sound, Safe, deref-Safe, insert_fd-Sound,
}
use create_httpserver_from_b.Server.Sound.Memory.{allocate-Sound}

module _ (listening : ℕ → Bool) where
  server_read_event-Safe :
      (k : Kernel) (e : Kevent) (w : World) (id : ℕ) (u : Udata)
      → e.udata ≡ some id
      → w.heap id ≡ some u
      → ((sock : ℕ) → k.accept ≡ some sock → listening sock ≡ false)
      → Sound listening w
      → Safe listening (server_read_event k e w)
  unfolding server_read_event
  server_read_event-Safe k e w id u at_id here new s = elim (Option-cases k.accept) [
    | inl failed ↦ rw (at_id, here, failed, server_read_event) s
    | inr (sock, accepted) ↦
        let u' : Udata =
          record (new_udata client u.m_servers (some new_request) (some new_response)) {
            m_client_sock = some sock;
          } in
        rw (at_id, here, accepted, server_read_event)
          (allocate-Sound listening sock u' (act (nonblocking sock) w)
            (connection sock new_request new_response refl refl (new sock accepted) refl refl)
            (ap (λ b. if b then none else some sock) (sym (new sock accepted))) s)
  ]

  -- The handler that the filter and the type choose
  served :
      (k : Kernel) (e : Kevent) (w : World) (fd id : ℕ) (u : Udata) (q : Request) (r : Response)
      → e.udata ≡ some id
      → w.heap id ≡ some u
      → u.m_client_sock ≡ some fd
      → listening fd ≡ false
      → is_server u.m_type ≡ false
      → (u.m_type ≡ client → fd ≡ e.ident)
      → u.m_request ≡ some q
      → u.m_response ≡ some r
      → Sound listening w
      → (f : Filter) (t : EventType) → u.m_type ≡ t
      → Safe listening (handle (filter_status f t) k e w)
  unfolding filter_status read_event_status write_event_status handle
  served k e w fd id u q r at_id here sock accepted type own request response s = by_filter
    where
      c : Connected listening w.heap fd id u
      c = record { here = here; sock = sock; accepted = accepted }

      own_c : u.m_type ≡ client → Connected listening w.heap e.ident id u
      own_c is_client = subst (λ n. Connected listening w.heap n id u) (own is_client) c

      by_filter :
          (f : Filter) (t : EventType)
          → u.m_type ≡ t
          → Safe listening (handle (filter_status f t) k e w)
      by_filter evfilt_timer t same =
          cgi_process_timeout_event-Safe listening k e w fd id u q r at_id c type request response s
      by_filter other_filter t same = s
      by_filter evfilt_read server same =
          let clash : true ≡ false = ap is_server (sym same) ∙ type in absurd cc
      by_filter evfilt_read client same =
          client_read_event-Safe listening k e w id u q r at_id (own_c same) type request response s
      by_filter evfilt_read pipe same =
          pipe_read_event-Safe listening k e w fd id u q r at_id c type request response s
      by_filter evfilt_read static_file same =
          static_file_read_event-Safe listening k e w fd id u q r at_id c type request response s
      by_filter evfilt_read process same = s
      by_filter evfilt_write server same = s
      by_filter evfilt_write client same =
          client_write_event-Safe listening k e w id u q r at_id (own_c same) type request response
            s
      by_filter evfilt_write pipe same =
          pipe_write_event-Safe listening k e w fd id u q r at_id c type request response s
      by_filter evfilt_write static_file same =
          file_write_event-Safe listening k e w fd id u q r at_id c type request response s
      by_filter evfilt_write process same = s

  get_event_status-quiet :
      (e : Kevent) (t : EventType)
      → e.ev_error ≡ false
      → get_event_status e t ≡ filter_status e.filter t
  unfolding get_event_status
  get_event_status-quiet e t quiet =
      ap (λ b. if b then error_status t (filter_status e.filter t) else filter_status e.filter t)
        quiet

  timed :
      (k : Kernel) (e : Kevent) (w : World) (id : ℕ) (u : Udata)
      → e.udata ≡ some id
      → w.heap id ≡ some u
      → is_server u.m_type ≡ false
      → Sound listening w
      → Safe listening (cgi_process_timeout_event k e w)
  timed k e w id u at_id here type s = elim (s.formed id u here) [
    | listener is_listener sock ↦ let clash : true ≡ false = sym is_listener ∙ type in absurd cc
    | connection fd q r type' sock accepted request response ↦
        cgi_process_timeout_event-Safe listening k e w fd id u q r at_id
          (record { here = here; sock = sock; accepted = accepted }) type request response s
  ]

  -- The end of a pipe whose data is a client's
  ended :
      (k : Kernel) (e : Kevent) (w : World) (id : ℕ) (u : Udata)
      → e.udata ≡ some id
      → w.heap id ≡ some u
      → u.m_type ≡ client
      → e.ev_eof ≡ true
      → listening e.ident ≡ false
      → Sound listening w
      → (f : Filter) → Safe listening (handle (filter_status f client) k e w)
  unfolding filter_status read_event_status write_event_status handle
  ended k e w id u at_id here type eof accepted s evfilt_read =
      client_read_event-ended listening k e w id u at_id here eof accepted s
  ended k e w id u at_id here type eof accepted s evfilt_write =
      client_write_event-ended listening k e w id u at_id here eof accepted s
  ended k e w id u at_id here type eof accepted s evfilt_timer =
      timed k e w id u at_id here (ap is_server type) s
  ended k e w id u at_id here type eof accepted s other_filter = s

  -- Behind the test of EV_ERROR
  accepted_or_served :
      (k : Kernel) (e : Kevent) (w : World)
      → e.ev_error ≡ false
      → Reported listening k e w
      → Sound listening w
      → Follows listening e w (deref w e.udata (λ id u. handle (get_event_status e u.m_type) k e w))
  unfolding filter_status read_event_status handle
  accepted_or_served k e w quiet (refused error) s =
      let clash : true ≡ false = sym error ∙ quiet in absurd cc
  accepted_or_served k e w quiet (stale off) s =
      subst (Follows listening e w)
        (sym (deref-NotLive e w (λ id u. handle (get_event_status e u.m_type) k e w) off))
        (quiet, off)
  accepted_or_served k e w quiet (to_accept id u at_id here type filter new) s =
      let status : get_event_status e u.m_type ≡ server_read =
        get_event_status-quiet e u.m_type quiet
        ∙ (ap (λ t. filter_status e.filter t) type ∙ ap (λ f. filter_status f server) filter) in
      Safe-Follows listening e w
        (deref w e.udata (λ i v. handle (get_event_status e v.m_type) k e w))
        (deref-Safe listening w e.udata id u (λ i v. handle (get_event_status e v.m_type) k e w)
          at_id here
          (subst (λ t. Safe listening (handle t k e w)) (sym status)
            (server_read_event-Safe k e w id u at_id here new s)))
  accepted_or_served k e w quiet (late_timer id u at_id here type filter) s =
      let status : get_event_status e u.m_type ≡ cgi_process_timeout =
        get_event_status-quiet e u.m_type quiet ∙ ap (λ f. filter_status f u.m_type) filter in
      Safe-Follows listening e w
        (deref w e.udata (λ i v. handle (get_event_status e v.m_type) k e w))
        (deref-Safe listening w e.udata id u (λ i v. handle (get_event_status e v.m_type) k e w)
          at_id here
          (subst (λ t. Safe listening (handle t k e w)) (sym status)
            (timed k e w id u at_id here type s)))
  accepted_or_served k e w quiet (late_end id u at_id here type eof accepted) s =
      let status : get_event_status e u.m_type ≡ filter_status e.filter client =
        get_event_status-quiet e u.m_type quiet ∙ ap (filter_status e.filter) type in
      Safe-Follows listening e w
        (deref w e.udata (λ i v. handle (get_event_status e v.m_type) k e w))
        (deref-Safe listening w e.udata id u (λ i v. handle (get_event_status e v.m_type) k e w)
          at_id here
          (subst (λ t. Safe listening (handle t k e w)) (sym status)
            (ended k e w id u at_id here type eof accepted s e.filter)))
  accepted_or_served k e w quiet (to_serve id u at_id here type own) s = elim (s.formed id u here) [
    | listener is_listener sock ↦ let clash : true ≡ false = sym is_listener ∙ type in absurd cc
    | connection fd q r type' sock accepted request response ↦
        Safe-Follows listening e w
          (deref w e.udata (λ i v. handle (get_event_status e v.m_type) k e w))
          (deref-Safe listening w e.udata id u (λ i v. handle (get_event_status e v.m_type) k e w)
            at_id here
            (subst (λ t. Safe listening (handle t k e w))
              (sym (get_event_status-quiet e u.m_type quiet))
              (served k e w fd id u q r at_id here sock accepted type
                (λ is_client.
                  ap (λ o. elim o [ none ↦ fd | some n ↦ n ]) (sym sock ∙ own is_client))
                request response s e.filter u.m_type refl)))
  ]

  -- In a server whose memory is sound, a Reported event follows no pointer that is NULL or freed but
  -- its own, which it follows only without EV_ERROR, and if its handler goes on, the memory is sound
  -- again.
  pub handle_event-Follows :
      (k : Kernel) (e : Kevent) (w : World)
      → Reported listening k e w
      → Sound listening w
      → Follows listening e w (handle_event k e w)
  unfolding handle_event
  handle_event-Follows k e w reported s = elim (Bool-cases e.ev_error) [
    | inl error ↦
        subst (Follows listening e w) (sym (ap (choose k e w) error))
          (ignored (mem e.ident w.fd_set) refl)
    | inr quiet ↦
        subst (Follows listening e w) (sym (ap (choose k e w) quiet))
          (accepted_or_served k e w quiet reported s)
  ]
    where
      choose : Kernel → Kevent → World → Bool → Outcome
      choose k e w b =
          if b
          then next (if mem e.ident w.fd_set then insert_fd e.ident w else w)
          else deref w e.udata (λ id u. handle (get_event_status e u.m_type) k e w)

      ignored :
          (b : Bool)
          → mem e.ident w.fd_set ≡ b
          → Sound listening (if b then insert_fd e.ident w else w)
      ignored true there = insert_fd-Sound listening e.ident w (s.doomed e.ident there) s
      ignored false absent = s
