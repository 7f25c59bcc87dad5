-- ===== src/Server/Transfers/Sound.antt =====
-- The handlers of files, pipes and timers (src/Server/event) keep the invariant of the server's memory.
use create_httpserver_from_b.Common.{
  ℕ, ◌+◌, ◌≡◌, ◌∙◌, refl, ap, inl, inr, Bool, false, ◌++◌, Option, none, some, ◌==◌, length, take,
  drop, Bool-cases, Option-cases,
}
use create_httpserver_from_b.Message.{Request, Response}
use create_httpserver_from_b.Server.{
  client, evfilt_write, Kevent, ev_add, Udata, World, Outcome, dangling, Kernel, closed, stored, at,
  act, insert_client, add_change_of, set_udata, deref, deref_messages,
}
use create_httpserver_from_b.Server.Events.{size_sub, is_positive_int}
use create_httpserver_from_b.Server.Events.Sound.{
  Connected, stored-Sound, respond-Safe, respond_to-Safe,
}
use create_httpserver_from_b.Server.Sound.{
  is_server, Sound, Safe, add_change_of-Sound, insert_fd-Sound,
}
use create_httpserver_from_b.Server.Sound.Memory.{at-here}
use create_httpserver_from_b.Server.Transfers.{
  after_read, read_file, static_file_read_event, after_write, write_file, file_write_event,
}

module _ (listening : ℕ → Bool) where
  pub insert_client-Sound :
      (o : Option ℕ) (fd : ℕ) (w : World)
      → o ≡ some fd
      → listening fd ≡ false
      → Sound listening w
      → Sound listening (insert_client o w)
  insert_client-Sound o fd w sock accepted s = rw sock (insert_fd-Sound listening fd w accepted s)

  -- What stands at the pointer after an assignment
  pub Connected-set :
      (heap : ℕ → Option Udata) (fd id : ℕ) (u v : Udata)
      → Connected listening heap fd id u
      → v.m_client_sock ≡ some fd
      → Connected listening (at id (some v) heap) fd id v
  Connected-set heap fd id u v c sock = record {
    here = at-here id (some v) heap;
    sock = sock;
    accepted = c.accepted;
  }

  after_read-Safe :
      (k : Kernel) (e : Kevent) (fd id : ℕ) (u : Udata) (q : Request) (r : Response) (w : World)
      → Connected listening w.heap fd id u
      → Sound listening w
      → Safe listening (after_read k e id u q r w)
  unfolding after_read
  after_read-Safe k e fd id u q r w c s =
      elim (Bool-cases (length r.body == r.static_read_file_size)) [
        | inl whole ↦
            rw (whole, after_read)
              (respond_to-Safe listening k u.m_client_sock fd id q
                (record r { static_read_file_fd = none }) u (record u { m_type = client })
                (act (closed e.ident) w) c refl c.sock s)
        | inr part ↦ rw (part, after_read) s
      ]

  -- The two pointers that the data has are followed, and so is the one of the event.
  pub messages-Safe :
      (u : Udata) (q : Request) (r : Response) (f : Request → Response → Outcome)
      → u.m_request ≡ some q
      → u.m_response ≡ some r
      → Safe listening (f q r)
      → Safe listening (deref_messages u f)
  messages-Safe u q r f request response h = followed u.m_request u.m_response request response
    where
      followed :
          (a : Option Request) (b : Option Response)
          → a ≡ some q
          → b ≡ some r
          → Safe listening (elim a [
            | none ↦ dangling
            | some q' ↦ elim b [ none ↦ dangling | some r' ↦ f q' r' ]
          ])
      followed a b e e' = rw (e, e') h

  pub followed-Safe :
      (w : World) (o : Option ℕ) (id : ℕ) (u : Udata) (q : Request) (r : Response)
      (f : ℕ → Udata → Request → Response → Outcome)
      → o ≡ some id
      → w.heap id ≡ some u
      → u.m_request ≡ some q
      → u.m_response ≡ some r
      → Safe listening (f id u q r)
      → Safe listening (deref w o (λ i v. deref_messages v (f i v)))
  followed-Safe w o id u q r f at_id here request response h =
      rw (at_id, here) (messages-Safe u q r (f id u) request response h)

  read_file-Safe :
      (k : Kernel) (e : Kevent) (fd id : ℕ) (u : Udata) (q : Request) (r : Response) (w : World)
      → Connected listening w.heap fd id u
      → is_server u.m_type ≡ false
      → u.m_request ≡ some q
      → Sound listening w
      → Safe listening (read_file k e id u q r w)
  unfolding read_file
  read_file-Safe k e fd id u q r w c type request s = elim (Option-cases k.read) [
    | inl failed ↦
        rw (failed, read_file) (insert_client-Sound u.m_client_sock fd w c.sock c.accepted s)
    | inr (chunk, read) ↦
        let r' : Response = record r { body = r.body ++ chunk } in
        let u' : Udata = record u { m_response = some r' } in
        rw (read, read_file)
          (after_read-Safe k e fd id u' q r' (set_udata id u' w)
            (Connected-set w.heap fd id u u' c c.sock)
            (stored-Sound listening w fd id u u' q r' c type c.sock request refl s))
  ]

  pub static_file_read_event-Safe :
      (k : Kernel) (e : Kevent) (w : World) (fd id : ℕ) (u : Udata) (q : Request) (r : Response)
      → e.udata ≡ some id
      → Connected listening w.heap fd id u
      → is_server u.m_type ≡ false
      → u.m_request ≡ some q
      → u.m_response ≡ some r
      → Sound listening w
      → Safe listening (static_file_read_event k e w)
  unfolding static_file_read_event
  static_file_read_event-Safe k e w fd id u q r at_id c type request response s =
      followed-Safe w e.udata id u q r (λ i v q' r'. read_file k e i v q' r' w) at_id c.here request
        response (read_file-Safe k e fd id u q r w c type request s)

  after_write-Safe :
      (k : Kernel) (e : Kevent) (fd id : ℕ) (u : Udata) (q : Request) (r : Response) (w : World)
      → Connected listening w.heap fd id u
      → Sound listening w
      → Safe listening (after_write k e id u q r w)
  unfolding after_write
  after_write-Safe k e fd id u q r w c s =
      elim (Bool-cases (u.m_file_write_offset == length q.body)) [
        | inl whole ↦
            rw (whole, after_write)
              (respond-Safe listening k q (record r { static_write_file_fd = none })
                (record u { m_type = client })
                (λ v. act (closed e.ident) (
                  add_change_of u.m_client_sock (λ fd'. ev_add fd' evfilt_write (some id))
                    (set_udata id v w)))
                (λ v q' r' same_type same_sock request response.
                  add_change_of-Sound listening u.m_client_sock
                    (λ fd'. ev_add fd' evfilt_write (some id)) (set_udata id v w)
                    (stored-Sound listening w fd id u v q' r' c (ap is_server same_type)
                      (same_sock ∙ c.sock) request response s)))
        | inr part ↦ rw (part, after_write) s
      ]

  write_file-Safe :
      (k : Kernel) (e : Kevent) (fd id : ℕ) (u : Udata) (q : Request) (r : Response) (w : World)
      → Connected listening w.heap fd id u
      → is_server u.m_type ≡ false
      → u.m_request ≡ some q
      → u.m_response ≡ some r
      → Sound listening w
      → Safe listening (write_file k e id u q r w)
  unfolding write_file
  write_file-Safe k e fd id u q r w c type request response s =
      elim (Bool-cases (is_positive_int e.available)) [
        | inr full ↦ rw (full, write_file) (after_write-Safe k e fd id u q r w c s)
        | inl room ↦
            elim (Option-cases (k.write (size_sub (length q.body) u.m_file_write_offset))) [
              | inl failed ↦
                  rw (room, failed, write_file)
                    (insert_client-Sound u.m_client_sock fd w c.sock c.accepted s)
              | inr (n, wrote) ↦
                  let u' : Udata = record u { m_file_write_offset = u.m_file_write_offset + n } in
                  let w' = act (stored e.ident (take n (drop u.m_file_write_offset q.body))) w in
                  rw (room, wrote, write_file)
                    (after_write-Safe k e fd id u' q r (set_udata id u' w')
                      (Connected-set w.heap fd id u u' c c.sock)
                      (stored-Sound listening w fd id u u' q r c type c.sock request response s))
            ]
      ]

  pub file_write_event-Safe :
      (k : Kernel) (e : Kevent) (w : World) (fd id : ℕ) (u : Udata) (q : Request) (r : Response)
      → e.udata ≡ some id
      → Connected listening w.heap fd id u
      → is_server u.m_type ≡ false
      → u.m_request ≡ some q
      → u.m_response ≡ some r
      → Sound listening w
      → Safe listening (file_write_event k e w)
  unfolding file_write_event
  file_write_event-Safe k e w fd id u q r at_id c type request response s =
      followed-Safe w e.udata id u q r (λ i v q' r'. write_file k e i v q' r' w) at_id c.here
        request response (write_file-Safe k e fd id u q r w c type request response s)
