-- ===== src/Examples/Builds.antt =====
-- A server's connection among other tasks, and the parts of the builds without `bebop` or without
-- `native-db`, at concrete inputs.
use atomic_websocket.Base.{
  ℕ, ◌≤◌, length, ◌≡◌, refl, arith, Text, true, some, List, [], ◌∷◌, ◌++◌, map, text_eq,
  if◌then◌else◌,
}
use atomic_websocket.Runtime.Database.{Settings}
use atomic_websocket.Runtime.Table.{Table}
use atomic_websocket.Runtime.Lists.{list_table}
use atomic_websocket.Schema.Fields.{two_fields}
use atomic_websocket.Runtime.Bytes.{write}
use atomic_websocket.Runtime.Rows.{row_database}
use atomic_websocket.Schema.{Data, category_code, data_codec}
use atomic_websocket.Message.{expired, disconnect, make_atomic_message, get_data_schema}
use atomic_websocket.Options.{continue, stop, MessageMiddleware}
use atomic_websocket.Spillover.Each.{Interleaving, offer_all}
use atomic_websocket.Store.{
  get_setting_by_key, set_setting, remove_setting, get_client_id, client_id_key,
}
use atomic_websocket.Store.Memory
use atomic_websocket.Store.Memory.{InMemoryStorage}
use atomic_websocket.Store.Memory.Agreement.{Write, sets, removes, write_memory, get-write_all}
use atomic_websocket.Clients.{HandlerMessage, send_and_track, Network, hand, new_with_buffer_size}
use atomic_websocket.Clients.Gauge.{IsGauge}
use atomic_websocket.Server
use atomic_websocket.Server.Calls.{inner_handle_ws-IsGauge}
use atomic_websocket.Clients.History.{Call, adds, sends_all}
use atomic_websocket.Clients.History
use atomic_websocket.Clients.Registry.{entry}
use atomic_websocket.Server.Reader.{
  Event, message, end_of_stream, calls, run, frames, by_others, for_handler,
}
use atomic_websocket.Server.Received.{run-Interleaving}
use atomic_websocket.Server.Messages.{IsPlain, AreRead, passing, run-AreRead}
use atomic_websocket.Server.Raw.{inner_handle_ws, write_loop}
use atomic_websocket.Server.Raw.Laws.{stays_registered}
use atomic_websocket.Server.{on_connect_all, should_forward}
use atomic_websocket.Server.Middlewares.{connects, receives, disconnects, session_calls}
use atomic_websocket.Server.Middlewares.Laws.{calls_of, session_calls_lem}
use atomic_websocket.Connect.Raw
use atomic_websocket.Connect.Raw.Laws
use atomic_websocket.Sender.{waits}
use atomic_websocket.Examples.Values.{
  primitives, primitives-ArePrimitives, peer, other_peer, network, clients, messages, two_clients,
  no_clients,
}

-- Messages of category 7 and 8, and a middleware that lets only the first pass.
abbrev seven : Text
seven = 7 ∷ 0 ∷ 1 ∷ []

abbrev eight : Text
eight = 8 ∷ 0 ∷ 1 ∷ []

abbrev only_seven : MessageMiddleware
only_seven = record {
  on_connect = λ id. true;
  on_message = λ id value. if text_eq value seven then continue else stop;
}

abbrev happenings : List Event
happenings =
    message 1 network seven
    ∷ calls (2, network, adds other_peer 5)
    ∷ calls (2, network, History.receives seven other_peer)
    ∷ message 3 network (1 ∷ [])
    ∷ message 4 network eight
    ∷ end_of_stream
    ∷ calls (5, network, sends_all expired)
    ∷ []

run-Interleaving_example :
    (ms : List HandlerMessage) × Interleaving
      (for_handler primitives true (only_seven ∷ []) peer (frames happenings))
      (by_others happenings)
      ms
    × ((run clients messages primitives true
          (only_seven ∷ [])
          peer
          happenings
          (record { reading = true; senders = two_clients })).senders.buffers
        ≡ offer_all messages two_clients.spillover_buffer_size two_clients.buffers ms)
run-Interleaving_example =
    run-Interleaving clients messages primitives true (only_seven ∷ []) peer happenings two_clients

abbrev seventh : Data
seventh = record { category = 7; datas = 1 ∷ [] }

abbrev eighth : Data
eighth = record { category = 8; datas = 1 ∷ [] }

abbrev traffic : List Event
traffic =
    message 1 network seven
    ∷ calls (2, network, History.receives seven other_peer)
    ∷ message 3 network eight
    ∷ []

seventh-IsPlain : IsPlain primitives seventh
unfolding category_code data_codec two_fields write
seventh-IsPlain = record {
  category-lt = omega arith;
  no_ping = refl;
  no_disconnect = refl;
  bytes = _;
  serialized = refl;
}

eighth-IsPlain : IsPlain primitives eighth
unfolding category_code data_codec two_fields write
eighth-IsPlain = record {
  category-lt = omega arith;
  no_ping = refl;
  no_disconnect = refl;
  bytes = _;
  serialized = refl;
}

run-AreRead_example :
    (own ms : List HandlerMessage) × AreRead primitives peer own
      (passing (only_seven ∷ []) peer (seventh ∷ eighth ∷ []))
    × Interleaving own (by_others traffic) ms
    × ((run clients messages primitives true
          (only_seven ∷ [])
          peer
          traffic
          (record { reading = true; senders = two_clients })).senders.buffers
        ≡ offer_all messages two_clients.spillover_buffer_size two_clients.buffers ms)
unfolding make_atomic_message category_code data_codec
run-AreRead_example =
    run-AreRead primitives primitives-ArePrimitives true (only_seven ∷ []) peer clients messages
      (seventh ∷ eighth ∷ []) traffic two_clients (seventh-IsPlain, (eighth-IsPlain, tt)) refl

inner_handle_ws-IsGauge_example :
    (cs : List (ℕ × Network × Call)) × (length cs ≤ 3)
    × (Server.inner_handle_ws clients messages primitives network 4 peer
          ((50, seven) ∷ (51, seven) ∷ [])
          no_clients
        ≡ record (History.run clients messages cs no_clients) {
          handed =
              hand
                (network 4)
                4
                (disconnect peer)
                (History.run clients messages cs no_clients).handed;
        })
    × IsGauge clients messages (
        Server.inner_handle_ws clients messages primitives network 4 peer
          ((50, seven) ∷ (51, seven) ∷ [])
          no_clients)
unfolding new_with_buffer_size
inner_handle_ws-IsGauge_example =
    inner_handle_ws-IsGauge clients messages primitives network 4 peer
      ((50, seven) ∷ (51, seven) ∷ []) no_clients refl (omega arith)

abbrev stream : List Event
stream = message 1 network seven ∷ end_of_stream ∷ []

stays_registered_example :
    let ended = inner_handle_ws clients messages 1 network network 4 peer stream two_clients in
    let r = send_and_track clients messages 9 network peer expired ended in
    (r.0 ≡ true)
    × (r.1.handed ≡ ended.handed ++ (4, expired) ∷ [])
    × (entry clients messages r.1 peer ≡ some (record { sx = 4; send_time = 9 }))
    × (write_loop (map (λ frame. (frame, true)) (seven ∷ [])) ≡ seven ∷ [])
stays_registered_example =
    stays_registered clients messages 1 9 network network network 4 peer stream expired (seven ∷ [])
      two_clients tt refl

session_calls_lem_example :
    calls_of 1
      (session_calls primitives true (only_seven ∷ only_seven ∷ []) peer (seven ∷ eight ∷ []))
    ≡ connects 1 peer ∷ receives 1 peer seven ∷ disconnects 1 peer ∷ []
unfolding get_data_schema category_code text_eq on_connect_all should_forward
session_calls_lem_example =
    session_calls_lem primitives true (only_seven ∷ []) [] only_seven peer (seven ∷ eight ∷ [])

abbrev values : Table Text
values = list_table Text

abbrev writes : List Write
writes =
    sets (record { key = client_id_key; value = peer })
    ∷ sets (record { key = peer; value = seven })
    ∷ removes peer
    ∷ []

abbrev row : Settings
row = record { key = client_id_key; value = peer }

get-write_all_example :
    (some row
      ≡ Memory.get_setting_by_key values
          (write_memory row_database values writes (Memory.new values))
          client_id_key)
    × (get_client_id row_database (λ t. true) (row ∷ [])
        ≡ Memory.get_id values
            (λ t. true)
            (write_memory row_database values writes (Memory.new values)))
unfolding get_setting_by_key set_setting remove_setting Memory.new Memory.get_setting_by_key text_eq
get-write_all_example =
    get-write_all row_database values (λ t. true) writes [] (row ∷ []) (Memory.new values)
      client_id_key (some row) (some row) (λ key. refl) refl refl refl

-- A session of a client without `bebop`: two messages, between them a task whose send hangs.
abbrev raw_session : List Raw.Event
raw_session =
    Raw.message 1 seven
    ∷ Raw.send (λ i. waits) expired
    ∷ Raw.message 2 (9 ∷ [])
    ∷ Raw.end_of_stream
    ∷ []
