-- ===== src/Server/Transfers/Failed.antt =====
-- A write to the file of an upload that fails (fileWriteEvent, src/Server/event/static_file.cpp).
use create_httpserver_from_b.Common.{◌≡◌, ◌∙◌, ℕ, refl, true, none, some, length}
use create_httpserver_from_b.Message.{Request, Response}
use create_httpserver_from_b.Server.{
  Kevent, Udata, World, next, Kernel, insert_client, deref_messages,
}
use create_httpserver_from_b.Server.Events.{size_sub, is_positive_int}
use create_httpserver_from_b.Server.Sound.Memory.{deref-eq}
use create_httpserver_from_b.Server.Transfers.{write_file, file_write_event}
use create_httpserver_from_b.Server.Transfers.Chunks.{deref_messages-eq}

pub file_write_event-failed :
    (k : Kernel) (e : Kevent) (id : ℕ) (u : Udata) (q : Request) (r : Response) (w : World)
    → e.udata ≡ some id
    → w.heap id ≡ some u
    → u.m_request ≡ some q
    → u.m_response ≡ some r
    → is_positive_int e.available ≡ true
    → k.write (size_sub (length q.body) u.m_file_write_offset) ≡ none
    → file_write_event k e w ≡ next (insert_client u.m_client_sock w)
unfolding file_write_event write_file
file_write_event-failed k e id u q r w at_id here request response room failed =
    deref-eq w e.udata id u (λ i v. deref_messages v (λ q' r'. write_file k e i v q' r' w)) at_id
      here
    ∙ deref_messages-eq u q r (λ q' r'. write_file k e id u q' r' w) request response
    ∙ rw (room, failed, write_file) refl
