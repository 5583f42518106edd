-- ===== src/Examples/Streams.antt =====
-- A client's session and its dial at concrete inputs.
use atomic_websocket.Base.{
  ◌≡◌, refl, Text, true, false, ◌&&◌, if◌then◌else◌, none, is_empty, contains, arith, some, List,
  [], ◌∷◌,
}
use atomic_websocket.Schema.{category_code}
use atomic_websocket.Message.{get_data_schema, make_pong_message}
use atomic_websocket.Runtime.Rows.{row_database}
use atomic_websocket.Options.{default_client_options}
use atomic_websocket.Sender.{connected, took, waits}
use atomic_websocket.Sender
use atomic_websocket.Sender.Persist.{Session, add}
use atomic_websocket.Connect.Stream.{
  Event, message, end_of_stream, wake, Stream, reader_start, run, next, reader_ended,
}
use atomic_websocket.Connect.Stream.Pace.{run-IsPaced}
use atomic_websocket.Spillover.Each.{offer_all}
use atomic_websocket.Connect.Stream.Expected.{frames, for_application}
use atomic_websocket.Connect.Stream.Announced.{any_readable, run-connected}
use atomic_websocket.Connect.Dials.{
  Course, opened, timed_out, ok, get_internal_websocket, wrap_get_internal_websocket,
  get_outer_websocket,
}
use atomic_websocket.Connect.Dials.Ends.{get_internal_websocket-opened, failed_dials}
use atomic_websocket.Examples.Sessions.{linked_info}
use atomic_websocket.Store.{get_server_connect_info}
use atomic_websocket.Store.Identity.{cleared}
use atomic_websocket.Address.{to_ws_url, parse_port}
use atomic_websocket.Examples.Values.{
  primitives, primitives-ArePrimitives, row_database-IsHealthy, port, host, peer, statuses,
  payloads, session, sender,
}

abbrev Client : Type 0
Client = Session statuses payloads row_database primitives

abbrev Running : Type 0
Running = Stream statuses payloads row_database primitives 3 host peer

abbrev seven : Text
seven = 7 ∷ 0 ∷ 1 ∷ []

-- Two pongs with a message between them, then a ping is due, and the stream ends.
abbrev happenings : List Event
happenings =
    message 10 true make_pong_message
    ∷ message 11 true seven
    ∷ message 12 true make_pong_message
    ∷ wake (λ i. took)
    ∷ end_of_stream
    ∷ []

abbrev begun : Running
begun = record { reader = reader_start default_client_options; session = session }

run-IsPaced_example :
    let y = run statuses payloads row_database primitives 3 host peer happenings begun in
    y.reader.sleeping ≡ (if y.reader.is_wait_ping then 1 else 0)
run-IsPaced_example =
    run-IsPaced statuses payloads row_database primitives 3 host peer happenings begun refl

abbrev quiet : List Event
quiet = message 10 true seven ∷ message 11 true seven ∷ []

run-connected_example :
    (run statuses payloads row_database primitives 3 host peer quiet begun).session.sender.status_tx
    ≡ (if true && any_readable (frames quiet)
        then (statuses.try_send sender.status_tx connected).1
        else sender.status_tx)
run-connected_example =
    run-connected statuses payloads row_database primitives 3 host peer quiet begun tt refl

abbrev course : Course statuses payloads row_database primitives
course = record {
  now = 9;
  sx = 3;
  replies = λ i. took;
  events = happenings;
  turns = next seven true ∷ reader_ended ∷ [];
}

took-not-waits : took ≡ waits → ⊥
took-not-waits e = cc

get_internal_websocket-opened_example :
    (y : Client) × (get_internal_websocket statuses payloads row_database primitives
        (λ s. true)
        opened
        course
        host
        default_client_options
        session
      ≡ some (ok, y))
    × (y.sender.is_try_connect ≡ false)
    × (y.sender.buffers
        ≡ offer_all payloads sender.options.spillover_buffer_size sender.buffers
            (for_application primitives (frames happenings)))
unfolding get_data_schema category_code Sender.new
get_internal_websocket-opened_example =
    get_internal_websocket-opened statuses payloads row_database primitives (λ s. true) course host
      default_client_options session (seven ∷ []) reader_ended [] refl (λ _ i l e. took-not-waits e)
      refl (refl, tt) refl

-- A client that is about to lose the address of its server.
abbrev linked : Client
linked = add statuses payloads row_database primitives 1 (to_ws_url host port) session

failed_dials_example :
    ((y : Client) × (wrap_get_internal_websocket statuses payloads row_database primitives
          (λ s. true)
          timed_out
          course
          host
          default_client_options
          linked
        ≡ some (true, y))
      × (y.sender.server_ip ≡ [])
      × (y.sender.is_try_connect ≡ false)
      × (y.sender.sx ≡ (if is_empty linked.sender.server_ip then linked.sender.sx else none))
      × (get_server_connect_info row_database primitives y.db
          ≡ cleared row_database row_database-IsHealthy primitives primitives-ArePrimitives
              (get_server_connect_info row_database primitives linked.db)))
    × (get_outer_websocket statuses payloads row_database primitives false
          (λ s. true)
          timed_out
          course
          default_client_options
          linked
        ≡ some (ok, linked))
unfolding Sender.new Sender.add Sender.sx_drop add to_ws_url contains parse_port
failed_dials_example =
    failed_dials statuses payloads row_database primitives primitives-ArePrimitives
      row_database-IsHealthy false (λ s. true) timed_out course host default_client_options linked
      refl refl (rw linked_info (omega arith))
