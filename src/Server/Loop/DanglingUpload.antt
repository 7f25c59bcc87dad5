-- ===== src/Server/Loop/DanglingUpload.antt =====
-- An upload whose file cannot be written (fileWriteEvent in src/Server/event/static_file.cpp, and
-- clearUdata in udata.cpp, which leaves the descriptor of the file open and its event in place).
use create_httpserver_from_b.Server.{Kevent, World, Outcome, Kernel, deref}
use create_httpserver_from_b.Server.Sound.{Sound}
use create_httpserver_from_b.Server.Loop.{get_event_status, handle}

-- The handler of an event without EV_ERROR
follow : Kernel → Kevent → World → Outcome
follow k e w = deref w e.udata (λ id u. handle (get_event_status e u.m_type) k e w)
