-- ===== src/Server/Events/Served.antt =====
-- clientReadEvent (src/Server/event/client.cpp) keeps the invariant of the server's memory.
use create_httpserver_from_b.Common.{
  ℕ, ◌≡◌, refl, inl, inr, Bool, true, false, [], ◌∷◌, some, if◌then◌else◌, Bool-cases, Option-cases,
}
use create_httpserver_from_b.Message.{Request, Response, is_complete}
use create_httpserver_from_b.Parser.{Session, read_buffer}
use create_httpserver_from_b.Exchange.{Exec, returned, threw, aborted}
use create_httpserver_from_b.ServerFinder.{Finder, finder, escaped, undefined, server_finder}
use create_httpserver_from_b.HttpProcessor.{http_processor}
use create_httpserver_from_b.Server.{
  Kevent, Udata, World, Outcome, next, aborted, Kernel, performed, act, insert_fd, set_udata,
}
use create_httpserver_from_b.Server.Events.{
  add_static_request_event, add_cgi_request_event, renew_client, start_response, after_parser,
  read_client_socket_buffer, client_read_event,
}
use create_httpserver_from_b.Server.Sound.{
  is_server, Sound, Safe, bind_outcome-Safe, insert_fd-Sound,
}
use create_httpserver_from_b.Server.Sound.Memory.{at-here}
use create_httpserver_from_b.Server.Events.Sound.{
  Connected, stored-Sound, add_static_request_event-Safe, add_cgi_request_event-Sound,
  renew_client-Safe,
}

module _ (listening : ℕ → Bool) where
  start_response-Safe :
      (k : Kernel) (e : Kevent) (id : ℕ) (u v : Udata) (run : Exec (Unit {0})) (w : World)
      → Connected listening w.heap e.ident id u
      → is_server v.m_type ≡ false
      → v.m_client_sock ≡ some e.ident
      → Sound listening w
      → Safe listening (start_response k e id v run w)
  unfolding start_response
  start_response-Safe k e id u v (returned a x) w c type sock s =
      let w1 = act (performed x.effects) w in
      let start : Bool → Outcome = λ cgi.
        if cgi
        then next (add_cgi_request_event id v x.request x.response w1)
        else add_static_request_event k e id v x.request x.response w1 in
      bind_outcome-Safe listening (start x.response.cgi_flag) (renew_client e v.m_servers)
        (elim x.response.cgi_flag as (λ cgi. Safe listening (start cgi)) [
          | true ↦
              add_cgi_request_event-Sound listening e.ident id u v x.request x.response w1 c sock s
          | false ↦
              add_static_request_event-Safe listening k e id u v x.request x.response w1 c type sock
                s
        ])
        (λ w'. renew_client-Safe listening e v.m_servers w' c.accepted)
  start_response-Safe k e id u v (threw code x) w c type sock s = tt
  start_response-Safe k e id u v (aborted x) w c type sock s = tt

  after_parser-Safe :
      (k : Kernel) (e : Kevent) (id : ℕ) (u v : Udata) (q : Request) (r : Response) (w : World)
      → Connected listening w.heap e.ident id u
      → is_server v.m_type ≡ false
      → v.m_client_sock ≡ some e.ident
      → Sound listening w
      → Safe listening (after_parser k e id v q r w)
  unfolding after_parser
  after_parser-Safe k e id u v q r w c type sock s = complete (is_complete q.validation_phase)
    where
      served :
          (f : Finder)
          → Safe listening (elim f [
            | finder q' conf ↦
                start_response k e id v
                  (http_processor k.system conf
                    (record { request = q'; response = r; effects = [] }))
                  w
            | escaped code ↦ aborted
            | undefined ↦ aborted
          ])
      served (finder q' conf) =
          start_response-Safe k e id u v
            (http_processor k.system conf (record { request = q'; response = r; effects = [] })) w c
            type sock s
      served (escaped code) = tt
      served undefined = tt

      complete :
          (b : Bool)
          → Safe listening (
              if b
              then elim (server_finder q v.m_servers) [
                | finder q' conf ↦
                    start_response k e id v
                      (http_processor k.system conf
                        (record { request = q'; response = r; effects = [] }))
                      w
                | escaped code ↦ aborted
                | undefined ↦ aborted
              ]
              else next w)
      complete true = served (server_finder q v.m_servers)
      complete false = s

  read_client_socket_buffer-Safe :
      (k : Kernel) (e : Kevent) (id : ℕ) (u : Udata) (q : Request) (r : Response) (w : World)
      → Connected listening w.heap e.ident id u
      → is_server u.m_type ≡ false
      → u.m_response ≡ some r
      → Sound listening w
      → Safe listening (read_client_socket_buffer k e id u q r w)
  unfolding read_client_socket_buffer
  read_client_socket_buffer-Safe k e id u q r w c type response s = elim (Option-cases k.read) [
    | inl failed ↦ rw (failed, read_client_socket_buffer) (ended tt)
    | inr ([], at_end) ↦ rw (at_end, read_client_socket_buffer) (ended tt)
    | inr (b ∷ buff, read) ↦
        elim (Option-cases
          (read_buffer (some (b ∷ buff)) (record { pool = u.m_parser; request = q }))) [
            | inl stops ↦ rw (read, stops, read_client_socket_buffer) tt
            | inr (t, parsed) ↦ rw (read, parsed, read_client_socket_buffer) (served t)
          ]
  ]
    where
      ended : Unit {0} → Safe listening (after_parser k e id u q r (insert_fd e.ident w))
      ended _ =
          after_parser-Safe k e id u u q r (insert_fd e.ident w)
            (record { here = c.here; sock = c.sock; accepted = c.accepted }) type c.sock
            (insert_fd-Sound listening e.ident w c.accepted s)

      filled : Session → Udata
      filled t = record u { m_parser = t.pool; m_request = some t.request }

      served :
          (t : Session)
          → Safe listening (after_parser k e id (filled t) t.request r (set_udata id (filled t) w))
      served t =
          after_parser-Safe k e id (filled t) (filled t) t.request r (set_udata id (filled t) w)
            (record {
              here = at-here id (some (filled t)) w.heap;
              sock = c.sock;
              accepted = c.accepted;
            })
            type c.sock
            (stored-Sound listening w e.ident id u (filled t) t.request r c type c.sock refl
              response s)

  pub client_read_event-Safe :
      (k : Kernel) (e : Kevent) (w : World) (id : ℕ) (u : Udata) (q : Request) (r : Response)
      → e.udata ≡ some id
      → Connected listening w.heap e.ident id u
      → is_server u.m_type ≡ false
      → u.m_request ≡ some q
      → u.m_response ≡ some r
      → Sound listening w
      → Safe listening (client_read_event k e w)
  unfolding client_read_event
  client_read_event-Safe k e w id u q r at c type request response s = elim (Bool-cases e.ev_eof) [
    | inl eof ↦
        rw (at, c.here, eof, client_read_event) (insert_fd-Sound listening e.ident w c.accepted s)
    | inr opened ↦
        rw (at, c.here, opened, request, response, client_read_event)
          (read_client_socket_buffer-Safe k e id u q r w c type response s)
  ]
