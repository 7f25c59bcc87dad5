-- ===== src/Server/Fixture.antt =====
-- A server, its connections and its events, for the tests.
use create_httpserver_from_b.Common.{
  ℕ, ◌≤◌, ◌<◌, ◌≡◌, refl, Bool, true, false, List, [], ◌∷◌, none, some, codes, ◌==◌, if◌then◌else◌,
  arith,
}
use create_httpserver_from_b.Message.{Request, Response, new_request, new_response}
use create_httpserver_from_b.Config.{ServerConf}
use create_httpserver_from_b.Exchange.Fixture.{sample_system, sample_server}
use create_httpserver_from_b.ResponseGenerator.{Generator, new_generator, generate_response_message}
use create_httpserver_from_b.ResponseGenerator.Produced.{new_generator-produced}
use create_httpserver_from_b.Server.{
  server, client, pipe, static_file, evfilt_read, evfilt_write, evfilt_timer, Kevent, Udata,
  new_udata, World, Kernel, at, insert_fd, allocate, add_udata_map,
}
use create_httpserver_from_b.Server.Events.{is_positive_int}
use create_httpserver_from_b.Server.Loop.{new_world}
use create_httpserver_from_b.Server.Loop.Running.{new_world-Sound}
use create_httpserver_from_b.Server.Sound.{connection, Sound, insert_fd-Sound}
use create_httpserver_from_b.Server.Sound.Memory.{allocate-Sound}

-- Two servers, of which the second has a port of the first again
abbrev pub clashing : List ServerConf
clashing =
    record sample_server { listen = codes "80" ∷ codes "81" ∷ [] }
    ∷ record sample_server { listen = codes "80" ∷ [] }
    ∷ []

-- The socket 3 is listened on.
abbrev pub is_listening : ℕ → Bool
is_listening n = n == 3

abbrev pub kernel : Kernel
kernel = record {
  read = none;
  write = λ count. some (if count == 0 then 0 else 1);
  accept = some 5;
  file_size = some 0;
  signaled = false;
  os_name = codes "Linux";
  date = codes "today";
  system = sample_system;
}

-- A connection on the socket 5, with a response that is ready
abbrev pub answered : Udata
answered = record (new_udata client [] (some new_request) (some new_response)) {
  m_client_sock = some 5;
  m_response_write = record { message = codes "HTTP"; length = 4; offset = 0 };
}

abbrev pub connected : World
connected = record new_world {
  fd_set = 5 ∷ [];
  udata_map = at 5 (some (1 ∷ [])) (λ fd. none);
  heap = at 1 (some answered) (λ id. none);
  fresh = 2;
}

pub connected-Sound : Sound is_listening connected
unfolding allocate add_udata_map
connected-Sound =
    allocate-Sound is_listening 5 answered (insert_fd 5 new_world)
      (connection 5 new_request new_response refl refl refl refl refl) refl
      (insert_fd-Sound is_listening 5 new_world refl (new_world-Sound is_listening))

abbrev pub writable : Kevent
writable = record {
  ident = 5;
  filter = evfilt_write;
  ev_error = false;
  ev_eof = false;
  available = 100;
  udata = some 1;
}

abbrev pub one_byte : ℕ → ℕ → ℕ
one_byte n count = if count == 0 then 0 else 1

pub one_byte-takes : (n count : ℕ) → (one_byte n count ≤ count) × (0 < count → 0 < one_byte n count)
one_byte-takes n count = (ground arith, λ h. ground arith)

-- A file of four bytes that is read for a response
abbrev pub file_response : Response
file_response = record new_response { static_read_file_fd = some 7; static_read_file_size = 4 }

abbrev pub reader : Udata
reader = record answered { m_type = static_file; m_response = some file_response }

abbrev pub file_world : World
file_world = record connected { heap = at 1 (some reader) (λ id. none) }

abbrev pub readable : Kevent
readable = record writable { ident = 7; filter = evfilt_read }

-- A request with a body that goes to a CGI program
abbrev pub posted : Request
posted = record new_request { method = codes "POST"; body = codes "name=x" }

abbrev pub writer : Udata
writer = record answered { m_type = pipe; m_request = some posted; m_write_pipe_fd = some 9 }

abbrev pub pipe_world : World
pipe_world = record connected { heap = at 1 (some writer) (λ id. none) }

abbrev pub pipe_writable : Kevent
pipe_writable = record writable { ident = 9; available = 4 }

abbrev pub all_taken : Kernel
all_taken = record kernel { write = λ count. some count }

-- The listening socket 3 reports a connection.
abbrev pub acceptable : Kevent
acceptable = record writable { ident = 3; filter = evfilt_read }

abbrev pub listening_udata : Udata
listening_udata = new_udata server (sample_server ∷ []) none none

-- The output of a CGI program, in two pieces, for a request whose program has ended
abbrev pub cgi_reader : Udata
cgi_reader = record answered { m_type = pipe; m_read_pipe_fd = some 8; m_child_pid = some 100 }

abbrev pub cgi_world : World
cgi_world = record connected { heap = at 1 (some cgi_reader) (λ id. none) }

-- A body that is stored in a file, one byte in each event
abbrev pub uploading : Response
uploading = record new_response { static_write_file_fd = some 6 }

abbrev pub uploader : Udata
uploader = record answered {
  m_type = static_file;
  m_request = some posted;
  m_response = some uploading;
}

abbrev pub upload_world : World
upload_world = record connected { heap = at 1 (some uploader) (λ id. none) }

pub upload_world-Sound : Sound is_listening upload_world
unfolding allocate add_udata_map
upload_world-Sound =
    allocate-Sound is_listening 5 uploader (insert_fd 5 new_world)
      (connection 5 posted uploading refl refl refl refl refl) refl
      (insert_fd-Sound is_listening 5 new_world refl (new_world-Sound is_listening))

-- A kernel that has no space for the file
abbrev pub full : Kernel
full = record kernel { write = λ count. none }

abbrev pub file_writable : Kevent
file_writable = record writable { ident = 6 }

pub file_writable-room : is_positive_int 100 ≡ true
unfolding is_positive_int
file_writable-room = refl

-- The timer of the program 100 goes off.
abbrev pub timer : Kevent
timer = record writable { ident = 100; filter = evfilt_timer }

pub late_page :
    (g : Generator) × (generate_response_message
        (codes "Linux")
        (codes "today")
        (new_generator new_request (record new_response { is_cgi_timeout = true }))
      ≡ some g)
late_page =
    new_generator-produced (codes "Linux") (codes "today") new_request
      (record new_response { is_cgi_timeout = true }) refl
