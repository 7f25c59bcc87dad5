-- ===== src/Server/Loop/TwiceClosed.antt =====
-- A CGI request that times out and whose client goes away (src/Server/event/process.cpp and udata.cpp).
use create_httpserver_from_b.Common.{
  ℕ, ◌+◌, ◌≤◌, ◌≡◌, refl, true, [], ◌∷◌, ◌++◌, Option, none, some, arith,
}
use create_httpserver_from_b.Message.{Request, Response}
use create_httpserver_from_b.ResponseGenerator.{Generator, new_generator, generate_response_message}
use create_httpserver_from_b.Server.{
  Kevent, Udata, killed, waited, World, next, Kernel, close_fd, free_udata,
}
use create_httpserver_from_b.Server.Loop.{stop_child, release}
use create_httpserver_from_b.Server.Transfers.{cgi_process_timeout_event}
use create_httpserver_from_b.Server.Transfers.TimedOut.{
  closings, closings-snoc, close_fd-closings, close_fd-closes, cgi_process_timeout_event-keeps,
}

stop_child-closings :
    (fd : ℕ) (o : Option ℕ) (w : World)
    → closings fd w.actions ≤ closings fd (stop_child o w).actions
unfolding stop_child
stop_child-closings fd none w = omega arith
stop_child-closings fd (some pid) w = omega (
  arith,
  closings-snoc fd (w.actions ++ killed pid ∷ []) (waited pid),
  closings-snoc fd w.actions (killed pid),
)

release-closes :
    (id : ℕ) (u : Udata) (r : Response) (w : World) (fd : ℕ)
    → u.m_response ≡ some r
    → u.m_read_pipe_fd ≡ some fd
    → (v : World) × (release id u w ≡ next v) × (closings fd w.actions + 1 ≤ closings fd v.actions)
unfolding release
release-closes id u r w fd response piped =
    let w1 = close_fd r.static_read_file_fd w in
    let w2 = stop_child u.m_child_pid w1 in
    let w3 = close_fd u.m_read_pipe_fd w2 in
    let w4 = close_fd u.m_write_pipe_fd w3 in
    (
      free_udata id w4,
      rw (response, release) refl,
      omega (
        arith,
        close_fd-closings fd r.static_read_file_fd w,
        stop_child-closings fd u.m_child_pid w1,
        close_fd-closes fd u.m_read_pipe_fd w2 piped,
        close_fd-closings fd u.m_write_pipe_fd w3,
      ),
    )

-- When a CGI program takes too long and the generator makes its response, the timeout handler closes
-- the read end of the pipe, and if the client goes away before that response is written, what
-- clearUdata does with the data closes the same number once more.
pub timed_out-closed_twice :
    (k : Kernel) (e : Kevent) (id : ℕ) (u : Udata) (q : Request) (r : Response) (w : World)
    (g : Generator) (fd : ℕ)
    → e.udata ≡ some id
    → w.heap id ≡ some u
    → u.m_request ≡ some q
    → u.m_response ≡ some r
    → u.m_read_pipe_fd ≡ some fd
    → generate_response_message k.os_name k.date
        (new_generator q (record r { is_cgi_timeout = true }))
      ≡ some g
    → (v : World) × (u' : Udata) × (v' : World) × (cgi_process_timeout_event k e w ≡ next v)
      × (v.heap id ≡ some u')
      × (release id u' v ≡ next v')
      × (closings fd w.actions + 2 ≤ closings fd v'.actions)
timed_out-closed_twice k e id u q r w g fd at_id here request response piped made =
    let (v, u', runs, there, kept, answered, once) =
      cgi_process_timeout_event-keeps k e id u q r w g fd at_id here request response piped made in
    let (v', released, again) = release-closes id u' g.response v fd answered kept in
    (v, u', v', runs, there, released, omega (arith, once, again))
