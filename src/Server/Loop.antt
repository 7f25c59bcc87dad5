-- ===== src/Server/Loop.antt =====
-- src/Server/Server.cpp, src/Server/event/server.cpp and udata.cpp: the loop of the server.
pub mod Freed
pub mod Clear
pub mod Reported
pub mod Sound
pub mod Running
pub mod TwiceClosed
pub mod DanglingUpload
use create_httpserver_from_b.Common.{
  ℕ, ◌+◌, Bool, true, false, List, [], ◌∷◌, ◌++◌, Option, none, some, if◌then◌else◌,
}
use create_httpserver_from_b.Message.{Request, Response, new_request, new_response}
use create_httpserver_from_b.Config.{ServerConf}
use create_httpserver_from_b.Server.{
  EventType, server, client, pipe, process, static_file, KqueueEvent, server_read, server_write,
  server_error, client_read, client_write, client_error, cgi_process_timeout, server_eof,
  client_eof, pipe_write, pipe_read, pipe_eof, static_file_read, static_file_write, static_file_eof,
  nothing, Filter, evfilt_read, evfilt_write, evfilt_timer, other_filter, Kevent, ev_add, ev_delete,
  Udata, new_udata, closed, killed, waited, nonblocking, World, Outcome, next, dangling, aborted,
  bind_outcome, Kernel, mem, at, add_change, act, insert_fd, close_fd, add_change_of, free_udata,
  deref, deref_live, allocate,
}
use create_httpserver_from_b.Server.Events.{client_write_event, client_read_event}
use create_httpserver_from_b.Server.Transfers.{
  static_file_read_event, file_write_event, pipe_read_event, pipe_write_event,
  cgi_process_timeout_event,
}

pub read_event_status : EventType → KqueueEvent
read_event_status server = server_read
read_event_status client = client_read
read_event_status pipe = pipe_read
read_event_status static_file = static_file_read
read_event_status process = nothing

pub write_event_status : EventType → KqueueEvent
write_event_status server = server_write
write_event_status client = client_write
write_event_status pipe = pipe_write
write_event_status static_file = static_file_write
write_event_status process = nothing

pub filter_status : Filter → EventType → KqueueEvent
unfolding read_event_status write_event_status
filter_status evfilt_timer type = cgi_process_timeout
filter_status evfilt_read type = read_event_status type
filter_status evfilt_write type = write_event_status type
filter_status other_filter type = nothing

-- The event of a type with EV_ERROR; the others go on.
pub error_status : EventType → KqueueEvent → KqueueEvent
error_status server rest = server_error
error_status client rest = client_error
error_status _ rest = rest

-- getEventStatus
pub get_event_status : Kevent → EventType → KqueueEvent
unfolding filter_status error_status
get_event_status e type =
    if e.ev_error
    then error_status type (filter_status e.filter type)
    else filter_status e.filter type

-- Server::serverReadEvent, with clientReadAccept
pub server_read_event : Kernel → Kevent → World → Outcome
server_read_event k e w = deref w e.udata (λ id u. elim k.accept [
  | none ↦ next w
  | some sock ↦
      let u' : Udata =
        record (new_udata client u.m_servers (some new_request) (some new_response)) {
          m_client_sock = some sock;
        } in
      let new_id = w.fresh in
      next (
        add_change (ev_add sock evfilt_read (some new_id))
          (allocate sock u' (act (nonblocking sock) w)))
])

-- Server::serverErrorEvent
pub server_error_event : Kevent → World → Outcome
server_error_event e w = deref w e.udata (λ id u. next (free_udata id (act (closed e.ident) w)))

-- The switch of Server::start
pub handle : KqueueEvent → Kernel → Kevent → World → Outcome
unfolding server_read_event server_error_event
handle server_read k e w = server_read_event k e w
handle server_error k e w = server_error_event e w
handle client_read k e w = client_read_event k e w
handle client_write k e w = client_write_event k e w
handle client_error k e w = next (act (closed e.ident) w)
handle pipe_read k e w = pipe_read_event k e w
handle pipe_write k e w = pipe_write_event k e w
handle cgi_process_timeout k e w = cgi_process_timeout_event k e w
handle static_file_read k e w = static_file_read_event k e w
handle static_file_write k e w = file_write_event k e w
handle _ k e w = next w

-- One round of the loop over the events. An event with EV_ERROR changes nothing: it only inserts a
-- descriptor that is there already.
pub handle_event : Kernel → Kevent → World → Outcome
unfolding get_event_status handle
handle_event k e w =
    if e.ev_error
    then next (if mem e.ident w.fd_set then insert_fd e.ident w else w)
    else deref w e.udata (λ id u. handle (get_event_status e u.m_type) k e w)

-- `kill`, `waitpid` and the end of the timer, for a child that is there
pub stop_child : Option ℕ → World → World
stop_child none w = w
stop_child (some pid) w =
    add_change (ev_delete pid evfilt_timer) (act (waited pid) (act (killed pid) w))

-- What clearUdata does with one connection's data
pub release : ℕ → Udata → World → Outcome
unfolding stop_child
release id u w = elim u.m_response [
  | none ↦ dangling
  | some r ↦ next (
      free_udata id (
        close_fd u.m_write_pipe_fd (
          close_fd u.m_read_pipe_fd (stop_child u.m_child_pid (close_fd r.static_read_file_fd w)))))
]

-- The inner loop of clearUdata
pub release_all : List ℕ → World → Outcome
unfolding release
release_all [] w = next w
release_all (id ∷ ids) w =
    deref_live (w.heap id) (λ u. bind_outcome (release id u w) (release_all ids))

pub clear_fd : ℕ → World → Outcome
unfolding release_all
clear_fd fd w = elim (w.udata_map fd) [
  | none ↦ next w
  | some ids ↦
      bind_outcome (release_all ids w)
        (λ v. next (record (act (closed fd) v) { udata_map = at fd (some []) v.udata_map }))
]

pub clear_fds : List ℕ → World → Outcome
unfolding clear_fd
clear_fds [] w = next w
clear_fds (fd ∷ fds) w = bind_outcome (clear_fd fd w) (clear_fds fds)

-- Server::clearUdata
pub clear_udata : World → Outcome
unfolding clear_fds
clear_udata w = bind_outcome (clear_fds w.fd_set w) (λ v. next (record v { fd_set = [] }))

-- The loop over the events of one call of kevent
pub handle_events : List (Kernel × Kevent) → World → Outcome
unfolding handle_event
handle_events [] w = next w
handle_events ((k, e) ∷ events) w = bind_outcome (handle_event k e w) (handle_events events)

-- One turn of Server::start. kevent takes the changes, which are cleared behind it; clearUdata on an
-- empty set does nothing.
pub turn : List (Kernel × Kevent) → World → Outcome
unfolding handle_events clear_udata
turn events w = bind_outcome (handle_events events (record w { change_list = [] })) clear_udata

-- A server whose sockets are open; `1` is the first pointer.
abbrev pub new_world : World
new_world = record {
  fd_set = [];
  udata_map = λ fd. none;
  heap = λ id. none;
  fresh = 1;
  change_list = [];
  actions = [];
}

-- Server::addServerSocketEvent
unfoldable pub add_server_socket_event : List ServerConf → List ℕ → World → World
add_server_socket_event confs [] w = w
add_server_socket_event confs (sock ∷ socks) w =
    let id = w.fresh in
    add_server_socket_event confs socks (
      add_change (ev_add sock evfilt_read (some id))
        (allocate sock (new_udata server confs none none) w))
