-- ===== src/Server.antt =====
-- include/Server.hpp and the bookkeeping of src/Server: the data of one connection, the state of the
-- server, and the operations that every event handler shares. A pointer is a number that is never
-- used twice; what it points to is found in `heap`, and `none` there is freed memory.
pub mod Sound
pub mod Output
pub mod Ports
pub mod Events
pub mod Transfers
pub mod Loop
mod Fixture
mod Tests
use create_httpserver_from_b.Common.{
  ℕ, ◌+◌, ◌-◌, Bool, true, false, List, [], ◌∷◌, ◌++◌, Option, none, some, Bytes, length, ◌==◌, ltb,
  leb, if◌then◌else◌,
}
use create_httpserver_from_b.Message.{Request, Response, new_request, new_response}
use create_httpserver_from_b.Config.{ServerConf}
use create_httpserver_from_b.Parser.{RequestPool}
use create_httpserver_from_b.Exchange.{System, Effect}

pub data EventType : Type 0 where
  server client pipe process static_file : EventType

pub data KqueueEvent : Type 0 where
  server_read server_write server_error client_read client_write client_error cgi_process_timeout :
      KqueueEvent
  server_eof client_eof pipe_write pipe_read pipe_eof : KqueueEvent
  static_file_read static_file_write static_file_eof nothing : KqueueEvent

pub data Filter : Type 0 where
  evfilt_read evfilt_write evfilt_timer other_filter : Filter

-- struct kevent, of an event that the kernel reports; `available` is its `data`.
pub record Kevent : Type 0 where
  pub ident : ℕ
  pub filter : Filter
  pub ev_error : Bool
  pub ev_eof : Bool
  pub available : ℕ
  pub udata : Option ℕ

-- A change that the server asks for: EV_ADD with EV_ENABLE or EV_ONESHOT, or EV_DELETE
pub data Change : Type 0 where
  ev_add : ℕ → Filter → Option ℕ → Change
  ev_add_timer : ℕ → ℕ → Option ℕ → Change
  ev_delete : ℕ → Filter → Change

pub record ResponseWrite : Type 0 where
  pub message : Bytes
  pub length : ℕ
  pub offset : ℕ

-- t_event_udata, without the fields that nothing reads. A NULL pointer and a -1 are `none`.
pub record Udata : Type 0 where
  pub m_type : EventType
  pub m_read_pipe_fd : Option ℕ
  pub m_write_pipe_fd : Option ℕ
  pub m_client_sock : Option ℕ
  pub m_child_pid : Option ℕ
  pub m_file_write_offset : ℕ
  pub m_total_read_byte : ℕ
  pub m_read_bytes : List ℕ
  pub m_read_buffer : List Bytes
  pub m_response_write : ResponseWrite
  pub m_servers : List ServerConf
  pub m_request : Option Request
  pub m_response : Option Response
  pub m_parser : RequestPool

-- t_event_udata::t_event_udata
abbrev pub new_udata : EventType → List ServerConf → Option Request → Option Response → Udata
new_udata type servers request response = record {
  m_type = type;
  m_read_pipe_fd = none;
  m_write_pipe_fd = none;
  m_client_sock = none;
  m_child_pid = none;
  m_file_write_offset = 0;
  m_total_read_byte = 0;
  m_read_bytes = [];
  m_read_buffer = [];
  m_response_write = record { message = []; length = 0; offset = 0 };
  m_servers = servers;
  m_request = request;
  m_response = response;
  m_parser = record { total_line = []; line_len = 0; offset = 0 };
}

-- What the calls of one handler did
pub data Action : Type 0 where
  closed killed waited nonblocking : ℕ → Action
  waited_any : Action
  sent stored : ℕ → Bytes → Action
  performed : List Effect → Action

-- `fd_set` and the sets of `udata_map` hold nothing twice.
pub record World : Type 0 where
  pub fd_set : List ℕ
  pub udata_map : ℕ → Option (List ℕ)
  pub heap : ℕ → Option Udata
  pub fresh : ℕ
  pub change_list : List Change
  pub actions : List Action

-- A handler goes on, follows a pointer that is NULL or freed, or a part that it calls has undefined
-- behaviour or throws what nobody catches.
pub data Outcome : Type 0 where
  next : World → Outcome
  dangling aborted : Outcome

abbrev pub bind_outcome : Outcome → (World → Outcome) → Outcome
bind_outcome (next w) f = f w
bind_outcome dangling f = dangling
bind_outcome aborted f = aborted

-- What the system calls of one handler answer: -1 is `none`, no byte is the end. `write` is given the
-- count that it is called with.
pub record Kernel : Type 0 where
  pub read : Option Bytes
  pub write : ℕ → Option ℕ
  pub accept : Option ℕ
  pub file_size : Option ℕ
  pub signaled : Bool
  pub os_name : Bytes
  pub date : Bytes
  pub system : System

abbrev pub mem : ℕ → List ℕ → Bool
mem n [] = false
mem n (m ∷ ms) = if m == n then true else mem n ms

-- std::set::insert, up to the order
abbrev pub insert : ℕ → List ℕ → List ℕ
insert n ns = if mem n ns then ns else n ∷ ns

-- std::set::erase
abbrev pub erase : ℕ → List ℕ → List ℕ
erase n [] = []
erase n (m ∷ ms) = if m == n then ms else m ∷ erase n ms

abbrev pub at {ℓ} : {A : Type ℓ} → ℕ → A → (ℕ → A) → ℕ → A
at i a f j = if j == i then a else f j

-- addEventToChangeList
abbrev pub add_change : Change → World → World
add_change c w = record w { change_list = w.change_list ++ c ∷ [] }

abbrev pub act : Action → World → World
act a w = record w { actions = w.actions ++ a ∷ [] }

abbrev pub insert_fd : ℕ → World → World
insert_fd fd w = record w { fd_set = insert fd w.fd_set }

-- `m_fd_set.insert(current_udata->m_client_sock)`; -1 is in no map of the server.
abbrev pub insert_client : Option ℕ → World → World
insert_client none w = w
insert_client (some fd) w = insert_fd fd w

-- close(fd), which does nothing to -1
abbrev pub close_fd : Option ℕ → World → World
close_fd none w = w
close_fd (some fd) w = act (closed fd) w

-- The end of a pipe or a process that an event is asked for; asking for -1 does nothing.
abbrev pub add_change_of : Option ℕ → (ℕ → Change) → World → World
add_change_of none c w = w
add_change_of (some fd) c w = add_change (c fd) w

-- An assignment through a pointer, and `delete`
abbrev pub set_udata : ℕ → Udata → World → World
set_udata id u w = record w { heap = at id (some u) w.heap }

abbrev pub free_udata : ℕ → World → World
free_udata id w = record w { heap = at id none w.heap }

-- `current_event->udata`, followed
abbrev pub deref_live : Option Udata → (Udata → Outcome) → Outcome
deref_live none f = dangling
deref_live (some u) f = f u

abbrev pub deref : World → Option ℕ → (ℕ → Udata → Outcome) → Outcome
deref w none f = dangling
deref w (some id) f = deref_live (w.heap id) (f id)

-- `*current_udata->m_request` and `*current_udata->m_response`
abbrev pub deref_messages : Udata → (Request → Response → Outcome) → Outcome
deref_messages u f = elim u.m_request [
  | none ↦ dangling
  | some q ↦ elim u.m_response [ none ↦ dangling | some r ↦ f q r ]
]

-- Server::addUdataMap
abbrev pub ids_of : Option (List ℕ) → List ℕ
ids_of none = []
ids_of (some ids) = ids

pub add_udata_map : ℕ → ℕ → World → World
add_udata_map fd id w = record w {
  udata_map = at fd (some (insert id (ids_of (w.udata_map fd)))) w.udata_map;
}

-- Nothing is erased from a set that is not there.
abbrev pub erase_in : ℕ → Option (List ℕ) → Option (List ℕ)
erase_in id none = none
erase_in id (some ids) = some (erase id ids)

-- Server::removeUdata
pub remove_udata : ℕ → ℕ → World → World
remove_udata fd id w = record w { udata_map = at fd (erase_in id (w.udata_map fd)) w.udata_map }

-- `new t_event_udata(...)` and addUdataMap
pub allocate : ℕ → Udata → World → World
unfolding add_udata_map
allocate fd u w =
    add_udata_map fd w.fresh (record w { heap = at w.fresh (some u) w.heap; fresh = w.fresh + 1 })
