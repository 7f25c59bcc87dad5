-- ===== src/Server/Tests.antt =====
-- The server at concrete events.
use create_httpserver_from_b.Common.{
  ℕ, ◌≤◌, ◌≡◌, refl, ap, true, false, [], ◌∷◌, none, some, codes, arith,
}
use create_httpserver_from_b.Common.Decimal.{atol}
use create_httpserver_from_b.Message.{new_request, new_response}
use create_httpserver_from_b.Exchange.Fixture.{sample_server}
use create_httpserver_from_b.ResponseGenerator.{new_generator, generate_response_message}
use create_httpserver_from_b.Server.Loop.TwiceClosed.{timed_out-closed_twice}
use create_httpserver_from_b.Server.Transfers.TimedOut.{closings}
use create_httpserver_from_b.Server.{Udata, World, next, mem, ids_of, allocate, add_udata_map}
use create_httpserver_from_b.Server.Output.{sent_on}
use create_httpserver_from_b.Server.Events.Delivery.{deliver, deliver-all}
use create_httpserver_from_b.Server.Transfers.{
  cgi_process_timeout_event, pipe_write_event, static_file_read_event,
}
use create_httpserver_from_b.Server.Transfers.Chunks.{reading, read_pieces, read_pieces-concat}
use create_httpserver_from_b.Server.Transfers.CgiOutput.{
  Answered, read_output, read_output-Answered,
}
use create_httpserver_from_b.Server.Transfers.Stored.{Saved, store, store-all}
use create_httpserver_from_b.Server.Transfers.PipeBounds.{Advanced, pipe_write_event-Advanced}
use create_httpserver_from_b.Server.Loop.{
  release, new_world, add_server_socket_event, handle_event, clear_udata, turn,
}
use create_httpserver_from_b.Server.Loop.Clear.{clear_udata-Cleared}
use create_httpserver_from_b.Server.Loop.Reported.{Follows, to_accept, to_serve}
use create_httpserver_from_b.Server.Loop.Sound.{handle_event-Follows}
use create_httpserver_from_b.Server.Loop.Running.{FollowsAll, started, turn-FollowsAll}
use create_httpserver_from_b.Server.Ports.{set_servers}
use create_httpserver_from_b.Server.Ports.Distinct.{set_servers_lem}
use create_httpserver_from_b.Server.Sound.{Sound}
use create_httpserver_from_b.Server.Fixture.{
  clashing, is_listening, kernel, answered, connected, connected-Sound, writable, one_byte,
  one_byte-takes, file_response, reader, file_world, readable, posted, writer, pipe_world,
  pipe_writable, all_taken, acceptable, listening_udata, cgi_reader, cgi_world, uploading, uploader,
  upload_world, file_writable, file_writable-room, timer, late_page,
}

set_servers_lem_example : set_servers atol clashing ≡ none
unfolding atol
set_servers_lem_example = set_servers_lem atol clashing

handle_event-Follows_example :
    Follows is_listening writable connected (handle_event kernel writable connected)
handle_event-Follows_example =
    handle_event-Follows is_listening kernel writable connected
      (to_serve 1 answered refl refl refl (λ e. refl)) connected-Sound

clear_udata-Cleared_example :
    (v : World) × (clear_udata connected ≡ next v)
    × (v.fd_set ≡ [])
    × Sound is_listening v
    × ((fd : ℕ) → mem fd (5 ∷ []) ≡ true → ids_of (v.udata_map fd) ≡ [])
    × ((fd : ℕ) → mem fd (5 ∷ []) ≡ false → v.udata_map fd ≡ connected.udata_map fd)
    × ((fd id : ℕ)
        → mem fd (5 ∷ []) ≡ true
        → mem id (ids_of (connected.udata_map fd)) ≡ true
        → v.heap id ≡ none)
clear_udata-Cleared_example = clear_udata-Cleared is_listening connected connected-Sound

deliver-all_example :
    (v : World) × (deliver kernel one_byte 4 writable 1 connected ≡ next v)
    × (v.heap 1 ≡ none)
    × (sent_on 5 v.actions ≡ codes "HTTP")
deliver-all_example =
    deliver-all kernel writable 1 refl refl one_byte one_byte-takes answered connected refl refl
      (omega arith)

read_pieces-concat_example :
    read_pieces kernel readable (codes "ab" ∷ codes "cd" ∷ []) file_world
    ≡ static_file_read_event (reading kernel (codes "abcd")) readable file_world
read_pieces-concat_example =
    read_pieces-concat kernel readable 1 refl (codes "ab") (codes "cd" ∷ []) reader new_request
      file_response file_world refl refl refl (omega arith, (omega arith, tt)) refl

pipe_write_event-Advanced_example :
    Advanced pipe_writable 1 writer posted pipe_world
      (pipe_write_event all_taken pipe_writable pipe_world)
pipe_write_event-Advanced_example =
    pipe_write_event-Advanced all_taken pipe_writable 1 writer posted new_response pipe_world refl
      refl refl refl (omega arith) (λ count n e. ground (arith, e))

turn-FollowsAll_example :
    FollowsAll is_listening
      ((kernel, acceptable) ∷ [])
      (record (add_server_socket_event (sample_server ∷ []) (3 ∷ []) new_world) {
        change_list = [];
      })
      (turn
        ((kernel, acceptable) ∷ [])
        (add_server_socket_event (sample_server ∷ []) (3 ∷ []) new_world))
unfolding add_server_socket_event allocate add_udata_map
turn-FollowsAll_example =
    turn-FollowsAll is_listening (sample_server ∷ []) (3 ∷ [])
      (add_server_socket_event (sample_server ∷ []) (3 ∷ []) new_world) ((kernel, acceptable) ∷ [])
      only_3 started (to_accept 1 listening_udata refl refl refl refl new_socket, λ w runs. tt)
  where
    only_3 : (sock : ℕ) → mem sock (3 ∷ []) ≡ true → is_listening sock ≡ true
    only_3 sock inside = ground arith

    new_socket : (sock : ℕ) → some 5 ≡ some sock → is_listening sock ≡ false
    new_socket sock e =
        let same : 5 ≡ sock = ap (λ o. elim o [ none ↦ 5 | some n ↦ n ]) e in ground arith

read_output-Answered_example :
    Answered 1
      (generate_response_message
        (codes "Linux")
        (codes "today")
        (new_generator new_request (record new_response { body = codes "abcd" })))
      (read_output kernel readable (codes "ab" ∷ codes "cd" ∷ []) cgi_world)
read_output-Answered_example =
    read_output-Answered kernel readable 1 new_request new_response refl refl
      (codes "ab" ∷ codes "cd" ∷ []) cgi_reader cgi_world refl refl refl refl
      (omega arith, (omega arith, tt))

store-all_example :
    Saved 1 6
      (codes "name=x")
      (generate_response_message
        (codes "Linux")
        (codes "today")
        (new_generator posted new_response))
      (store kernel one_byte 6 file_writable 1 upload_world)
store-all_example =
    store-all kernel file_writable 1 posted uploading refl file_writable-room one_byte
      one_byte-takes uploader upload_world refl refl refl refl refl (omega arith)

timed_out-closed_twice_example :
    (v : World) × (u' : Udata) × (v' : World) × (cgi_process_timeout_event kernel timer cgi_world
      ≡ next v)
    × (v.heap 1 ≡ some u')
    × (release 1 u' v ≡ next v')
    × (2 ≤ closings 8 v'.actions)
timed_out-closed_twice_example =
    timed_out-closed_twice kernel timer 1 cgi_reader new_request new_response cgi_world late_page.0
      8 refl refl refl refl refl late_page.1
