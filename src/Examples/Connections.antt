-- ===== src/Examples/Connections.antt =====
-- The server's handling of a connection at concrete inputs.
use atomic_websocket.Base.{
  ◌≡◌, refl, Text, text_eq, if◌then◌else◌, ◌++◌, true, false, some, [], ◌∷◌, arith,
}
use atomic_websocket.Schema.{Category, ping_codec, category_code}
use atomic_websocket.Message.{pong, disconnect, get_data_schema, make_ping_message}
use atomic_websocket.Message.Laws.{Reads, make_ping_message-Reads}
use atomic_websocket.Clients.{new_with_buffer_size}
use atomic_websocket.Clients.Registry.{entry, settled}
use atomic_websocket.Clients.Delivered.{given}
use atomic_websocket.Server.{get_id_from_first_message, inner_handle_ws, handle_message}
use atomic_websocket.Server.Identity.{
  get_id_from_first_message-make_ping_message, inner_handle_ws_stranger, handle_message-ping,
}
use atomic_websocket.Server.Slots.{Slots, all_free, handle_accept}
use atomic_websocket.Examples.Values.{
  primitives, primitives-ArePrimitives, peer, other_peer, network, clients, messages, no_clients,
  two_clients,
}

get_id_from_first_message-make_ping_message_example :
    (frame : Text) × (make_ping_message primitives peer ≡ some frame)
    × ((get_id_from_first_message clients messages primitives 50 network 4
          (some frame)
          no_clients).0
        ≡ some peer)
    × (entry clients messages
          (get_id_from_first_message clients messages primitives 50 network 4
            (some frame)
            no_clients).1
          peer
        ≡ some (record { sx = 4; send_time = 50 }))
unfolding new_with_buffer_size
get_id_from_first_message-make_ping_message_example =
    get_id_from_first_message-make_ping_message clients messages primitives primitives-ArePrimitives
      50 network 4 peer no_clients (omega arith) refl

-- A message of category 7.
abbrev seven : Text
seven = 7 ∷ 0 ∷ 1 ∷ []

inner_handle_ws_stranger_example :
    inner_handle_ws clients messages primitives network 4 peer
      ((50, seven) ∷ (51, seven) ∷ [])
      no_clients
    ≡ record no_clients { handed = (4, disconnect peer) ∷ [] }
unfolding get_data_schema category_code new_with_buffer_size
inner_handle_ws_stranger_example =
    inner_handle_ws_stranger clients messages primitives 50 network 4 peer seven ((51, seven) ∷ [])
      (record { category = 7; datas = 1 ∷ [] }) no_clients refl refl refl

-- A ping that names one client, on the connection of another.
abbrev ping_frame : Text
ping_frame =
    (make_ping_message-Reads primitives primitives-ArePrimitives other_peer (omega arith)).0

ping_frame-Reads :
    Reads
      (ping_codec primitives)
      Category.ping
      (record { peer = other_peer; activations = 0 })
      ping_frame
ping_frame-Reads =
    (make_ping_message-Reads primitives primitives-ArePrimitives other_peer (omega arith)).2

handle_message-ping_example :
    let r =
      handle_message clients messages primitives 200 network true [] peer ping_frame two_clients in
    (r.0 ≡ false)
    × (r.1.handed
        ≡ two_clients.handed ++ given network pong (entry clients messages two_clients other_peer))
    × ((j : Text)
        → entry clients messages r.1 j ≡ (
            if text_eq other_peer j
            then settled 200 network (entry clients messages two_clients other_peer)
            else entry clients messages two_clients j))
    × (r.1.buffers ≡ two_clients.buffers)
handle_message-ping_example =
    handle_message-ping clients messages primitives 200 network [] peer
      (record { peer = other_peer; activations = 0 }) ping_frame two_clients ping_frame-Reads

abbrev one_taken : Slots
one_taken = (handle_accept (all_free 1)).1
