-- ===== src/Server/Transfers.antt =====
-- src/Server/event: the handlers that move the bytes of files and pipes, and the one of a CGI program
-- that takes too long.
pub mod Sound
pub mod PipeSound
pub mod Chunks
pub mod PipeBounds
pub mod CgiOutput
pub mod Stored
pub mod TimedOut
pub mod Failed
use create_httpserver_from_b.Common.{
  ℕ, ◌+◌, ◌-◌, Bool, true, false, ◌||◌, List, [], ◌∷◌, ◌++◌, Option, none, some, Bytes, length,
  take, drop, ◌==◌, ltb, if◌then◌else◌,
}
use create_httpserver_from_b.Message.{Request, Response}
use create_httpserver_from_b.Server.{
  client, evfilt_read, evfilt_write, evfilt_timer, Kevent, Change, ev_add, ev_delete, Udata, closed,
  killed, waited, waited_any, stored, World, Outcome, next, dangling, aborted, Kernel, add_change,
  act, insert_client, close_fd, add_change_of, set_udata, deref, deref_messages,
}
use create_httpserver_from_b.Server.Events.{size_sub, is_positive_int, respond, respond_to}

-- staticFileReadEvent behind its read
pub after_read : Kernel → Kevent → ℕ → Udata → Request → Response → World → Outcome
after_read k e id u q r w =
    if length r.body == r.static_read_file_size
    then respond_to k u.m_client_sock id q (record r { static_read_file_fd = none })
        (record u { m_type = client }) (act (closed e.ident) w)
    else next w

pub read_file : Kernel → Kevent → ℕ → Udata → Request → Response → World → Outcome
unfolding after_read
read_file k e id u q r w = elim k.read [
  | none ↦ next (insert_client u.m_client_sock w)
  | some chunk ↦
      let r' : Response = record r { body = r.body ++ chunk } in
      let u' : Udata = record u { m_response = some r' } in
      after_read k e id u' q r' (set_udata id u' w)
]

-- Server::staticFileReadEvent
pub static_file_read_event : Kernel → Kevent → World → Outcome
unfolding read_file
static_file_read_event k e w =
    deref w e.udata (λ id u. deref_messages u (λ q r. read_file k e id u q r w))

-- fileWriteEvent behind its write: the socket's event is asked for before the file is closed.
pub after_write : Kernel → Kevent → ℕ → Udata → Request → Response → World → Outcome
after_write k e id u q r w =
    if u.m_file_write_offset == length q.body
    then respond k q (record r { static_write_file_fd = none }) (record u { m_type = client })
        (λ u'. act (closed e.ident) (
          add_change_of u.m_client_sock (λ fd. ev_add fd evfilt_write (some id))
            (set_udata id u' w)))
    else next w

pub write_file : Kernel → Kevent → ℕ → Udata → Request → Response → World → Outcome
unfolding after_write
write_file k e id u q r w =
    let offset = u.m_file_write_offset in
    if is_positive_int e.available
    then elim (k.write (size_sub (length q.body) offset)) [
      | none ↦ next (insert_client u.m_client_sock w)
      | some n ↦
          let u' : Udata = record u { m_file_write_offset = offset + n } in
          after_write k e id u' q r
            (set_udata id u' (act (stored e.ident (take n (drop offset q.body))) w))
    ]
    else after_write k e id u q r w

-- Server::fileWriteEvent
pub file_write_event : Kernel → Kevent → World → Outcome
unfolding write_file
file_write_event k e w =
    deref w e.udata (λ id u. deref_messages u (λ q r. write_file k e id u q r w))

-- The first bytes of a buffer of the pipe, in front of those of the next ones; `none` reads behind
-- the end of the buffer.
pub join_buffer : ℕ → Bytes → Option Bytes → Option Bytes
join_buffer count buffer none = none
join_buffer count buffer (some rest) =
    if ltb (length buffer) count then none else some (take count buffer ++ rest)

-- What the loops over m_read_bytes[i] and m_read_buffer[i] push behind the body; `none` also stands
-- for an index behind the end of m_read_bytes.
pub join : List ℕ → List Bytes → Option Bytes
unfolding join_buffer
join counts [] = some []
join [] (buffer ∷ buffers) = none
join (count ∷ counts) (buffer ∷ buffers) = join_buffer count buffer (join counts buffers)

-- waitpid; for -1, which data without a child has, it takes any child that has ended.
abbrev pub reap : Option ℕ → World → World
reap none w = act waited_any w
reap (some pid) w = act (waited pid) w

-- pipeReadEvent at the end of the program's output, with what its pieces are joined to
pub end_with : Kernel → Kevent → ℕ → Udata → Request → Response → Bytes → World → Outcome
end_with k e id u q r output w =
    let r' : Response = record r { body = r.body ++ output } in
    let u' : Udata = record u { m_read_buffer = []; m_response = some r' } in
    let w1 = reap u.m_child_pid w in
    if k.signaled
    then next (insert_client u.m_client_sock (set_udata id u' w1))
    else respond k q r'
        (record u' {
          m_type = client;
          m_read_pipe_fd = none;
          m_write_pipe_fd = none;
          m_child_pid = none;
        })
        (λ v.
          add_change_of u.m_child_pid (λ pid. ev_delete pid evfilt_timer)
            (add_change_of u.m_client_sock (λ fd. ev_add fd evfilt_write (some id))
              (set_udata id v (act (closed e.ident) (close_fd u.m_write_pipe_fd w1)))))

pub end_of_output : Kernel → Kevent → ℕ → Udata → Request → Response → World → Outcome
unfolding join end_with
end_of_output k e id u q r w = elim (join u.m_read_bytes u.m_read_buffer) [
  | none ↦ aborted
  | some output ↦ end_with k e id u q r output w
]

pub read_pipe : Kernel → Kevent → ℕ → Udata → World → Outcome
unfolding end_of_output
read_pipe k e id u w = elim k.read [
  | none ↦ next (insert_client u.m_client_sock w)
  | some [] ↦ deref_messages u (λ q r. end_of_output k e id u q r w)
  | some (c ∷ chunk) ↦ next (
      set_udata id
        (record u {
          m_read_buffer = u.m_read_buffer ++ (c ∷ chunk) ∷ [];
          m_read_bytes = u.m_read_bytes ++ length (c ∷ chunk) ∷ [];
          m_total_read_byte = u.m_total_read_byte + length (c ∷ chunk);
        })
        w)
]

-- Server::pipeReadEvent
pub pipe_read_event : Kernel → Kevent → World → Outcome
unfolding read_pipe
pipe_read_event k e w = deref w e.udata (λ id u. read_pipe k e id u w)

-- What pipeWriteEvent asks to write
pub pipe_write_length : ℕ → ℕ → ℕ → ℕ
pipe_write_length possible size offset =
    if ltb possible (size_sub size offset) then possible else size_sub size offset

pub after_pipe_write : Kevent → ℕ → Udata → Request → World → World
after_pipe_write e id u q w =
    if u.m_file_write_offset == length q.body
    then set_udata id (record u { m_write_pipe_fd = none }) (act (closed e.ident) w)
    else w

pub write_pipe : Kernel → Kevent → ℕ → Udata → Request → World → Outcome
unfolding pipe_write_length after_pipe_write
write_pipe k e id u q w =
    let offset = u.m_file_write_offset in
    if ltb 0 e.available
    then elim (k.write (pipe_write_length e.available (length q.body) offset)) [
      | none ↦ next (insert_client u.m_client_sock w)
      | some n ↦
          let u' : Udata = record u { m_file_write_offset = offset + n } in
          next (
            after_pipe_write e id u' q
              (set_udata id u' (act (stored e.ident (take n (drop offset q.body))) w)))
    ]
    else next (after_pipe_write e id u q w)

-- Server::pipeWriteEvent
pub pipe_write_event : Kernel → Kevent → World → Outcome
unfolding write_pipe
pipe_write_event k e w = deref w e.udata (λ id u. deref_messages u (λ q r. write_pipe k e id u q w))

pub time_out : Kernel → Kevent → ℕ → Udata → Request → Response → World → Outcome
time_out k e id u q r w =
    let w1 =
      act (waited e.ident)
        (act (killed e.ident) (close_fd u.m_write_pipe_fd (close_fd u.m_read_pipe_fd w))) in
    respond k q (record r { is_cgi_timeout = true })
      (record u { m_type = client; m_child_pid = none; m_read_buffer = [] })
      (λ u'.
        add_change_of u.m_client_sock (λ fd. ev_add fd evfilt_write (some id)) (set_udata id u' w1))

-- Server::cgiProcessTimeoutEvent
pub cgi_process_timeout_event : Kernel → Kevent → World → Outcome
unfolding time_out
cgi_process_timeout_event k e w =
    deref w e.udata (λ id u. deref_messages u (λ q r. time_out k e id u q r w))
