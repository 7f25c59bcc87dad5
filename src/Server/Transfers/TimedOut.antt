-- ===== src/Server/Transfers/TimedOut.antt =====
-- The descriptors that cgiProcessTimeoutEvent (src/Server/event/process.cpp) closes and keeps.
use create_httpserver_from_b.Common.{
  ℕ, ◌+◌, ◌≤◌, ◌≡◌, ◌∙◌, refl, ap, true, List, [], ◌∷◌, ◌++◌, Option, none, some, ◌==◌, length,
  if◌then◌else◌, arith,
}
use create_httpserver_from_b.Message.{Request, Response}
use create_httpserver_from_b.ResponseGenerator.{Generator, new_generator, generate_response_message}
use create_httpserver_from_b.Server.{
  client, evfilt_write, Kevent, ev_add, Udata, Action, closed, killed, waited, World, next, Kernel,
  act, close_fd, add_change_of, set_udata, deref_messages,
}
use create_httpserver_from_b.Server.Events.{respond}
use create_httpserver_from_b.Server.Sound.Memory.{==-refl, at-here, deref-eq}
use create_httpserver_from_b.Server.Transfers.{time_out, cgi_process_timeout_event}
use create_httpserver_from_b.Server.Transfers.Chunks.{deref_messages-eq}
use create_httpserver_from_b.Server.Transfers.CgiOutput.{add_change_of-heap}
use create_httpserver_from_b.Server.Transfers.Stored.{add_change_of-actions}

abbrev pub closing : ℕ → Action → ℕ
closing fd (closed n) = if n == fd then 1 else 0
closing fd _ = 0

-- How often a descriptor has been closed
abbrev pub closings : ℕ → List Action → ℕ
closings fd [] = 0
closings fd (a ∷ log) = closing fd a + closings fd log

pub closings-snoc :
    (fd : ℕ) (log : List Action) (a : Action)
    → closings fd (log ++ a ∷ []) ≡ closings fd log + closing fd a
closings-snoc fd [] a = omega arith
closings-snoc fd (b ∷ log) a = omega (arith, closings-snoc fd log a)

pub close_fd-closings :
    (fd : ℕ) (o : Option ℕ) (w : World) → closings fd w.actions ≤ closings fd (close_fd o w).actions
close_fd-closings fd none w = omega arith
close_fd-closings fd (some n) w = omega (arith, closings-snoc fd w.actions (closed n))

pub close_fd-closes :
    (fd : ℕ) (o : Option ℕ) (w : World)
    → o ≡ some fd
    → closings fd (close_fd o w).actions ≡ closings fd w.actions + 1
close_fd-closes fd o w same =
    ap (λ p. closings fd (close_fd p w).actions) same
    ∙ (closings-snoc fd w.actions (closed fd)
        ∙ ap (λ b. closings fd w.actions + (if b then 1 else 0)) (==-refl fd))

-- The read end of the pipe is closed, and the data still has its number.
pub cgi_process_timeout_event-keeps :
    (k : Kernel) (e : Kevent) (id : ℕ) (u : Udata) (q : Request) (r : Response) (w : World)
    (g : Generator) (fd : ℕ)
    → e.udata ≡ some id
    → w.heap id ≡ some u
    → u.m_request ≡ some q
    → u.m_response ≡ some r
    → u.m_read_pipe_fd ≡ some fd
    → generate_response_message k.os_name k.date
        (new_generator q (record r { is_cgi_timeout = true }))
      ≡ some g
    → (v : World) × (u' : Udata) × (cgi_process_timeout_event k e w ≡ next v)
      × (v.heap id ≡ some u')
      × (u'.m_read_pipe_fd ≡ some fd)
      × (u'.m_response ≡ some g.response)
      × (closings fd w.actions + 1 ≤ closings fd v.actions)
unfolding cgi_process_timeout_event time_out respond
cgi_process_timeout_event-keeps k e id u q r w g fd at_id here request response piped made =
    let message = g.response.response_message in
    let u' : Udata = record u {
      m_type = client;
      m_child_pid = none;
      m_read_buffer = [];
      m_request = some g.request;
      m_response = some g.response;
      m_response_write = record { message = message; length = length message; offset = 0 };
    } in
    let w1 = close_fd u.m_read_pipe_fd w in
    let w2 = close_fd u.m_write_pipe_fd w1 in
    let w3 = act (waited e.ident) (act (killed e.ident) w2) in
    let v =
      add_change_of u.m_client_sock (λ n. ev_add n evfilt_write (some id)) (set_udata id u' w3) in
    let log =
      ap (closings fd) (
        add_change_of-actions u.m_client_sock (λ n. ev_add n evfilt_write (some id))
          (set_udata id u' w3))
      ∙ (closings-snoc fd (w2.actions ++ killed e.ident ∷ []) (waited e.ident)
          ∙ ap (λ n. n + 0) (closings-snoc fd w2.actions (killed e.ident))) in
    (
      v,
      u',
      deref-eq w e.udata id u (λ i x. deref_messages x (λ q' r'. time_out k e i x q' r' w)) at_id
            here
          ∙ (deref_messages-eq u q r (λ q' r'. time_out k e id u q' r' w) request response
              ∙ rw (made, time_out, respond) refl),
      ap (λ h. h id)
            (add_change_of-heap u.m_client_sock (λ n. ev_add n evfilt_write (some id))
              (set_udata id u' w3))
          ∙ at-here id (some u') w3.heap,
      piped,
      refl,
      omega (
        arith,
        log,
        close_fd-closes fd u.m_read_pipe_fd w piped,
        close_fd-closings fd u.m_write_pipe_fd w1,
      ),
    )
