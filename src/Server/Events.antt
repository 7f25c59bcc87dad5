-- ===== src/Server/Events.antt =====
-- src/Server/event: the handlers of the events of client sockets, files, pipes and CGI processes.
pub mod Sound
pub mod Served
pub mod Delivery
use create_httpserver_from_b.Common.{
  ℕ, ◌+◌, ◌-◌, ◌%◌, Bool, true, false, ◌&&◌, List, [], ◌∷◌, ◌++◌, Option, none, some, Bytes, codes,
  length, take, drop, ◌==◌, ltb, leb, if◌then◌else◌, eq_bytes, is_some, empty?,
}
use create_httpserver_from_b.Message.{Request, Response, new_request, new_response, is_complete}
use create_httpserver_from_b.Config.{ServerConf}
use create_httpserver_from_b.Parser.{RequestPool, Session, read_buffer}
use create_httpserver_from_b.Exchange.{Exchange, Exec, returned, threw, aborted}
use create_httpserver_from_b.ServerFinder.{Finder, finder, escaped, undefined, server_finder}
use create_httpserver_from_b.HttpProcessor.{http_processor}
use create_httpserver_from_b.ResponseGenerator.{Generator, new_generator, generate_response_message}
use create_httpserver_from_b.Server.{
  EventType, server, client, pipe, static_file, Filter, evfilt_read, evfilt_write, evfilt_timer,
  Kevent, ev_add, ev_add_timer, ev_delete, ResponseWrite, Udata, new_udata, closed, killed, waited,
  nonblocking, sent, stored, performed, World, Outcome, next, dangling, aborted, bind_outcome,
  Kernel, add_change, act, insert_fd, insert_client, close_fd, add_change_of, set_udata, free_udata,
  deref, deref_messages, remove_udata, allocate,
}

-- A difference of two size_t
unfoldable pub size_sub : ℕ → ℕ → ℕ
size_sub a b = if leb b a then a - b else (18446744073709551616 - b) + a

-- The `> 0` of an intptr_t that is assigned to an int
unfoldable pub is_positive_int : ℕ → Bool
is_positive_int n = let low = n % 4294967296 in ltb 0 low && ltb low 2147483648

pub write_client : Kernel → Kevent → ℕ → Udata → World → Outcome
write_client k e id u w =
    let out = u.m_response_write in
    if e.ev_eof then next (insert_fd e.ident w) else elim (k.write (out.length - out.offset)) [
      | none ↦ next (insert_fd e.ident w)
      | some n ↦
          let out' : ResponseWrite = record out { offset = out.offset + n } in
          let w1 = act (sent e.ident (take n (drop out.offset out.message))) w in
          if ltb out'.offset out'.length
          then next (set_udata id (record u { m_response_write = out' }) w1)
          else next (
              free_udata id
                (remove_udata e.ident id (add_change (ev_delete e.ident evfilt_write) w1)))
    ]

-- Server::clientWriteEvent
pub client_write_event : Kernel → Kevent → World → Outcome
unfolding write_client
client_write_event k e w = deref w e.udata (λ id u. write_client k e id u w)

-- The generator's part of the handlers: the response message, ready to be written from its start.
unfoldable pub respond : Kernel → Request → Response → Udata → (Udata → World) → Outcome
respond k q r u f = elim (generate_response_message k.os_name k.date (new_generator q r)) [
  | none ↦ aborted
  | some g ↦
      let message = g.response.response_message in
      next (
        f (record u {
          m_request = some g.request;
          m_response = some g.response;
          m_response_write = record { message = message; length = length message; offset = 0 };
        }))
]

-- The generator's part with the event of the client socket that follows it
unfoldable pub respond_to : Kernel → Option ℕ → ℕ → Request → Response → Udata → World → Outcome
unfolding respond
respond_to k sock id q r u w =
    respond k q r u
      (λ u'. add_change_of sock (λ fd. ev_add fd evfilt_write (some id)) (set_udata id u' w))

-- Server::addStaticRequestEvent. If lseek fails with -1, `reserve` gets a size that no vector has and
-- throws an exception that nothing catches.
pub add_static_request_event : Kernel → Kevent → ℕ → Udata → Request → Response → World → Outcome
unfolding respond_to
add_static_request_event k e id u q r w = elim r.static_read_file_fd [
  | some fd ↦ elim k.file_size [
    | none ↦ aborted
    | some size ↦
        if size == 0
        then respond_to k (some e.ident) id q r u (act (closed fd) w)
        else next (
            add_change (ev_add fd evfilt_read (some id)) (
              set_udata id
                (record u {
                  m_type = static_file;
                  m_request = some q;
                  m_response = some (record r { static_read_file_size = size });
                })
                w))
  ]
  | none ↦ elim r.static_write_file_fd [
    | some fd ↦ next (
        add_change (ev_add fd evfilt_write (some id)) (
          set_udata id (record u { m_type = static_file; m_request = some q; m_response = some r })
            w))
    | none ↦ respond_to k (some e.ident) id q r (record u { m_type = client }) w
  ]
]

-- `fcntl(fd, F_SETFL, O_NONBLOCK)` and addEventToChangeList; neither does anything to -1.
abbrev pub ask_pipe : Filter → ℕ → Option ℕ → World → World
ask_pipe filter id none w = w
ask_pipe filter id (some fd) w = add_change (ev_add fd filter (some id)) (act (nonblocking fd) w)

-- Server::addCgiRequestEvent
pub add_cgi_request_event : ℕ → Udata → Request → Response → World → World
add_cgi_request_event id u q r w =
    let posted = eq_bytes q.method (codes "POST") in
    let u' : Udata = record u {
      m_type = pipe;
      m_write_pipe_fd = if posted then r.write_pipe_fd else u.m_write_pipe_fd;
      m_read_pipe_fd = r.read_pipe_fd;
      m_child_pid = r.cgi_child_pid;
      m_request = some q;
      m_response = some r;
    } in
    add_change_of r.cgi_child_pid (λ pid. ev_add_timer pid 3600 (some id))
      (ask_pipe evfilt_read id r.read_pipe_fd
        (ask_pipe evfilt_write id (if posted then r.write_pipe_fd else none) (set_udata id u' w)))

-- The end of clientReadEvent: the socket gets the data of its next request.
pub renew_client : Kevent → List ServerConf → World → Outcome
renew_client e servers w =
    let u : Udata = record (new_udata client servers (some new_request) (some new_response)) {
      m_client_sock = some e.ident;
    } in
    let id = w.fresh in
    next (add_change (ev_add e.ident evfilt_read (some id)) (allocate e.ident u w))

-- clientReadEvent behind HttpProcessor
pub start_response : Kernel → Kevent → ℕ → Udata → Exec (Unit {0}) → World → Outcome
unfolding add_static_request_event add_cgi_request_event renew_client
start_response k e id u (returned a x) w =
    let w1 = act (performed x.effects) w in
    bind_outcome
      (if x.response.cgi_flag
        then next (add_cgi_request_event id u x.request x.response w1)
        else add_static_request_event k e id u x.request x.response w1)
      (renew_client e u.m_servers)
start_response k e id u (threw code x) w = aborted
start_response k e id u (aborted x) w = aborted

-- clientReadEvent behind the parser
pub after_parser : Kernel → Kevent → ℕ → Udata → Request → Response → World → Outcome
unfolding start_response
after_parser k e id u q r w =
    if is_complete q.validation_phase
    then elim (server_finder q u.m_servers) [
      | finder q' conf ↦
          start_response k e id u
            (http_processor k.system conf (record { request = q'; response = r; effects = [] })) w
      | escaped code ↦ aborted
      | undefined ↦ aborted
    ]
    else next w

-- readClientSocketBuffer with what follows it; a buffer of the socket is never NULL.
pub read_client_socket_buffer : Kernel → Kevent → ℕ → Udata → Request → Response → World → Outcome
unfolding after_parser
read_client_socket_buffer k e id u q r w = elim k.read [
  | none ↦ after_parser k e id u q r (insert_fd e.ident w)
  | some [] ↦ after_parser k e id u q r (insert_fd e.ident w)
  | some (c ∷ buff) ↦
      elim (read_buffer (some (c ∷ buff)) (record { pool = u.m_parser; request = q })) [
        | none ↦ aborted
        | some s ↦
            let u' : Udata = record u { m_parser = s.pool; m_request = some s.request } in
            after_parser k e id u' s.request r (set_udata id u' w)
      ]
]

-- Server::clientReadEvent
pub client_read_event : Kernel → Kevent → World → Outcome
unfolding read_client_socket_buffer
client_read_event k e w = deref w e.udata (λ id u.
    if e.ev_eof
    then next (add_change (ev_delete e.ident evfilt_read) (insert_fd e.ident w))
    else deref_messages u (λ q r. read_client_socket_buffer k e id u q r w))
