-- ===== src/Server/Events/Sound.antt =====
-- The handlers of client sockets (src/Server/event) keep the invariant of the server's memory.
use create_httpserver_from_b.Common.{
  ℕ, ◌+◌, ◌-◌, ◌≡◌, ◌∙◌, refl, sym, ap, inl, inr, Bool, true, false, List, Option, none, some, ◌==◌,
  ltb, length, codes, eq_bytes, if◌then◌else◌, Bool-cases, Option-cases,
}
use create_httpserver_from_b.Message.{Request, Response, new_request, new_response}
use create_httpserver_from_b.Config.{ServerConf}
use create_httpserver_from_b.ResponseGenerator.{new_generator, generate_response_message}
use create_httpserver_from_b.Server.{
  client, pipe, static_file, evfilt_read, evfilt_write, Filter, Kevent, ev_add, ev_add_timer, Udata,
  new_udata, World, Kernel, closed, act, add_change_of, set_udata, remove_udata,
}
use create_httpserver_from_b.Server.Events.{
  write_client, client_write_event, client_read_event, respond, respond_to, ask_pipe,
  add_static_request_event, add_cgi_request_event, renew_client,
}
use create_httpserver_from_b.Server.Sound.{
  is_server, connection, Sound, Safe, add_change_of-Sound, insert_fd-Sound, set_udata-Sound,
}
use create_httpserver_from_b.Server.Sound.Memory.{allocate-Sound}
use create_httpserver_from_b.Server.Sound.Release.{remove_udata-Sound}

module _ (listening : ℕ → Bool) where
  -- The data of a connection on this socket, at this pointer
  pub record Connected (heap : ℕ → Option Udata) (fd id : ℕ) (u : Udata) : Type 0 where
    pub here : heap id ≡ some u
    pub sock : u.m_client_sock ≡ some fd
    pub accepted : listening fd ≡ false

  -- Any data of the same socket that is of a connection may stand there.
  pub stored-Sound :
      (w : World) (fd id : ℕ) (u v : Udata) (q : Request) (r : Response)
      → Connected w.heap fd id u
      → is_server v.m_type ≡ false
      → v.m_client_sock ≡ some fd
      → v.m_request ≡ some q
      → v.m_response ≡ some r
      → Sound listening w
      → Sound listening (set_udata id v w)
  stored-Sound w fd id u v q r c type sock request response s =
      set_udata-Sound listening id u v w c.here (sock ∙ sym c.sock)
        (connection fd q r type sock c.accepted request response) s

  -- At its end, the descriptor of the event is one that is to be closed.
  pub client_write_event-ended :
      (k : Kernel) (e : Kevent) (w : World) (id : ℕ) (u : Udata)
      → e.udata ≡ some id
      → w.heap id ≡ some u
      → e.ev_eof ≡ true
      → listening e.ident ≡ false
      → Sound listening w
      → Safe listening (client_write_event k e w)
  unfolding client_write_event
  client_write_event-ended k e w id u at_id here eof accepted s =
      rw (at_id, here, eof, client_write_event) (insert_fd-Sound listening e.ident w accepted s)

  pub client_read_event-ended :
      (k : Kernel) (e : Kevent) (w : World) (id : ℕ) (u : Udata)
      → e.udata ≡ some id
      → w.heap id ≡ some u
      → e.ev_eof ≡ true
      → listening e.ident ≡ false
      → Sound listening w
      → Safe listening (client_read_event k e w)
  unfolding client_read_event
  client_read_event-ended k e w id u at_id here eof accepted s =
      rw (at_id, here, eof, client_read_event) (insert_fd-Sound listening e.ident w accepted s)

  pub client_write_event-Safe :
      (k : Kernel) (e : Kevent) (w : World) (id : ℕ) (u : Udata) (q : Request) (r : Response)
      → e.udata ≡ some id
      → Connected w.heap e.ident id u
      → is_server u.m_type ≡ false
      → u.m_request ≡ some q
      → u.m_response ≡ some r
      → Sound listening w
      → Safe listening (client_write_event k e w)
  unfolding client_write_event write_client remove_udata
  client_write_event-Safe k e w id u q r at c type request response s = elim (Bool-cases e.ev_eof) [
    | inl eof ↦
        rw (at, c.here, eof, client_write_event) (insert_fd-Sound listening e.ident w c.accepted s)
    | inr opened ↦
        let out = u.m_response_write in
        elim (Option-cases (k.write (out.length - out.offset))) [
          | inl failed ↦
              rw (at, c.here, opened, failed, write_client, client_write_event)
                (insert_fd-Sound listening e.ident w c.accepted s)
          | inr (n, wrote) ↦ elim (Bool-cases (ltb (out.offset + n) out.length)) [
            | inl more ↦
                rw (at, c.here, opened, wrote, more, write_client, client_write_event)
                  (stored-Sound w e.ident id u
                    (record u { m_response_write = record out { offset = out.offset + n } }) q r c
                    type c.sock request response s)
            | inr done ↦
                rw (at, c.here, opened, wrote, done, write_client, client_write_event)
                  (remove_udata-Sound listening e.ident id u w c.here c.sock s)
          ]
        ]
  ]

  pub respond-Safe :
      (k : Kernel) (q : Request) (r : Response) (u : Udata) (f : Udata → World)
      → ((v : Udata) (q' : Request) (r' : Response)
          → v.m_type ≡ u.m_type
          → v.m_client_sock ≡ u.m_client_sock
          → v.m_request ≡ some q'
          → v.m_response ≡ some r'
          → Sound listening (f v))
      → Safe listening (respond k q r u f)
  unfolding respond
  respond-Safe k q r u f h =
      elim (Option-cases (generate_response_message k.os_name k.date (new_generator q r))) [
        | inl failed ↦ rw (failed, respond) tt
        | inr (g, made) ↦
            let message = g.response.response_message in
            let v : Udata = record u {
              m_request = some g.request;
              m_response = some g.response;
              m_response_write = record { message = message; length = length message; offset = 0 };
            } in
            rw (made, respond) (h v g.request g.response refl refl refl refl)
      ]

  pub respond_to-Safe :
      (k : Kernel) (o : Option ℕ) (fd id : ℕ) (q : Request) (r : Response) (u v : Udata) (w : World)
      → Connected w.heap fd id u
      → is_server v.m_type ≡ false
      → v.m_client_sock ≡ some fd
      → Sound listening w
      → Safe listening (respond_to k o id q r v w)
  unfolding respond_to
  respond_to-Safe k o fd id q r u v w c type sock s =
      respond-Safe k q r v
        (λ v'. add_change_of o (λ fd'. ev_add fd' evfilt_write (some id)) (set_udata id v' w))
        (λ v' q' r' same_type same_sock request response.
          add_change_of-Sound listening o (λ fd'. ev_add fd' evfilt_write (some id))
            (set_udata id v' w)
            (stored-Sound w fd id u v' q' r' c (ap is_server same_type ∙ type) (same_sock ∙ sock)
              request response s))

  pub add_static_request_event-Safe :
      (k : Kernel) (e : Kevent) (id : ℕ) (u v : Udata) (q : Request) (r : Response) (w : World)
      → Connected w.heap e.ident id u
      → is_server v.m_type ≡ false
      → v.m_client_sock ≡ some e.ident
      → Sound listening w
      → Safe listening (add_static_request_event k e id v q r w)
  unfolding add_static_request_event
  add_static_request_event-Safe k e id u v q r w c type sock s =
      elim (Option-cases r.static_read_file_fd) [
        | inl absent ↦ elim (Option-cases r.static_write_file_fd) [
          | inl neither ↦
              rw (absent, neither, add_static_request_event)
                (respond_to-Safe k (some e.ident) e.ident id q r u (record v { m_type = client }) w
                  c refl sock s)
          | inr (fd, writing) ↦
              rw (absent, writing, add_static_request_event)
                (stored-Sound w e.ident id u
                  (record v { m_type = static_file; m_request = some q; m_response = some r }) q r c
                  refl sock refl refl s)
        ]
        | inr (fd, reading) ↦ elim (Option-cases k.file_size) [
          | inl failed ↦ rw (reading, failed, add_static_request_event) tt
          | inr (size, sized) ↦ elim (Bool-cases (size == 0)) [
            | inl nothing_in ↦
                rw (reading, sized, nothing_in, add_static_request_event)
                  (respond_to-Safe k (some e.ident) e.ident id q r u v (act (closed fd) w) c type
                    sock s)
            | inr something ↦
                let r' : Response = record r { static_read_file_size = size } in
                rw (reading, sized, something, add_static_request_event)
                  (stored-Sound w e.ident id u
                    (record v { m_type = static_file; m_request = some q; m_response = some r' }) q
                    r' c refl sock refl refl s)
          ]
        ]
      ]

  ask_pipe-Sound :
      (filter : Filter) (id : ℕ) (o : Option ℕ) (w : World)
      → Sound listening w
      → Sound listening (ask_pipe filter id o w)
  ask_pipe-Sound filter id none w s = s
  ask_pipe-Sound filter id (some fd) w s = s

  pub add_cgi_request_event-Sound :
      (fd id : ℕ) (u v : Udata) (q : Request) (r : Response) (w : World)
      → Connected w.heap fd id u
      → v.m_client_sock ≡ some fd
      → Sound listening w
      → Sound listening (add_cgi_request_event id v q r w)
  unfolding add_cgi_request_event
  add_cgi_request_event-Sound fd id u v q r w c sock s =
      let posted = eq_bytes q.method (codes "POST") in
      let v' : Udata = record v {
        m_type = pipe;
        m_write_pipe_fd = if posted then r.write_pipe_fd else v.m_write_pipe_fd;
        m_read_pipe_fd = r.read_pipe_fd;
        m_child_pid = r.cgi_child_pid;
        m_request = some q;
        m_response = some r;
      } in
      let writing = if posted then r.write_pipe_fd else none in
      let w1 = set_udata id v' w in
      let w2 = ask_pipe evfilt_write id writing w1 in
      let w3 = ask_pipe evfilt_read id r.read_pipe_fd w2 in
      add_change_of-Sound listening r.cgi_child_pid (λ pid. ev_add_timer pid 3600 (some id)) w3
        (ask_pipe-Sound evfilt_read id r.read_pipe_fd w2 (
          ask_pipe-Sound evfilt_write id writing w1
            (stored-Sound w fd id u v' q r c refl sock refl refl s)))

  pub renew_client-Safe :
      (e : Kevent) (servers : List ServerConf) (w : World)
      → listening e.ident ≡ false
      → Sound listening w
      → Safe listening (renew_client e servers w)
  unfolding renew_client
  renew_client-Safe e servers w accepted s =
      allocate-Sound listening e.ident
        (record (new_udata client servers (some new_request) (some new_response)) {
          m_client_sock = some e.ident;
        })
        w (connection e.ident new_request new_response refl refl accepted refl refl)
        (rw accepted refl) s
