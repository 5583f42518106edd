-- ===== src/Examples/Sessions.antt =====
-- The client's connection decisions at concrete inputs: a client that was connected to a host on a
-- port, lost the connection, and is idle.
use atomic_websocket.Base.{
  ℕ, zero, ◌+◌, ◌*◌, ◌<◌, ◌≤◌, ◌≡◌, ◌⊎◌, inl, inr, ◌↔◌, refl, max, true, none, some, [], arith,
  contains,
}
use atomic_websocket.Runtime.Rows.{row_database}
use atomic_websocket.Address.{to_ws_url, parse_port}
use atomic_websocket.Options.{default_client_options}
use atomic_websocket.Store.{get_server_connect_info}
use atomic_websocket.Store.Identity.{get-set_server_connect_info}
use atomic_websocket.Sender.{
  SenderStatus, connecting, disconnected, dial_internal, ServerSender, is_valid_server_ip,
}
use atomic_websocket.Sender
use atomic_websocket.Sender.Persist.{Session, add, remove_ip_if_valid_server_ip}
use atomic_websocket.Connect.{
  done, sender_status, spawn_task, set_try_connect, get_internal_connect,
}
use atomic_websocket.Connect.Decisions.{
  IsIdle, get_internal_connect-add, get_internal_connect-remove_ip_if_valid_server_ip,
}
use atomic_websocket.Connect.Flights.{World}
use atomic_websocket.Connect.Pings.{
  dead, alive, silence, silence_lem, next_retry, IsWait, next_retry-IsWait,
}
use atomic_websocket.Examples.Values.{
  primitives, primitives-ArePrimitives, row_database-IsHealthy, host, port, statuses, payloads,
  sender, session,
}

abbrev Client : Type 0
Client = Session statuses payloads row_database primitives

abbrev linked : Client
linked = add statuses payloads row_database primitives 1 (to_ws_url host port) session

-- The connection is lost, and the address with it.
abbrev lost_client : Client
lost_client = record { sender = sender; db = linked.db }

lost_client-IsIdle : IsIdle statuses payloads row_database primitives 5000 lost_client
unfolding Sender.new is_valid_server_ip
lost_client-IsIdle = record { not_trying = refl; not_valid = refl }

get_internal_connect-add_example :
    get_internal_connect statuses payloads row_database primitives 5000 host none
      default_client_options lost_client
    ≡ done (
        spawn_task statuses payloads row_database primitives
          (dial_internal (to_ws_url host port) default_client_options)
          (sender_status statuses payloads row_database primitives connecting lost_client))
unfolding to_ws_url contains parse_port
get_internal_connect-add_example =
    get_internal_connect-add statuses payloads row_database primitives 5000 host
      default_client_options primitives-ArePrimitives row_database-IsHealthy host port 1 session
      lost_client lost_client-IsIdle refl (omega arith) (omega arith)

abbrev failed_client : Client
failed_client = record {
  sender = sender;
  db = (remove_ip_if_valid_server_ip statuses payloads row_database primitives linked).db;
}

failed_client-IsIdle : IsIdle statuses payloads row_database primitives 5000 failed_client
unfolding Sender.new is_valid_server_ip
failed_client-IsIdle = record { not_trying = refl; not_valid = refl }

pub linked_info :
    get_server_connect_info row_database primitives linked.db
    ≡ some (to_ws_url host port, parse_port (to_ws_url host port))
unfolding add to_ws_url contains parse_port
linked_info =
    get-set_server_connect_info row_database row_database-IsHealthy primitives
      primitives-ArePrimitives (to_ws_url host port) (parse_port (to_ws_url host port)) []
      (omega arith) (omega arith)

get_internal_connect-remove_ip_if_valid_server_ip_example :
    get_internal_connect statuses payloads row_database primitives 5000 host none
      default_client_options failed_client
    ≡ done (sender_status statuses payloads row_database primitives disconnected failed_client)
unfolding to_ws_url contains parse_port
get_internal_connect-remove_ip_if_valid_server_ip_example =
    get_internal_connect-remove_ip_if_valid_server_ip statuses payloads row_database primitives 5000
      host default_client_options primitives-ArePrimitives row_database-IsHealthy
      (to_ws_url host port) (parse_port (to_ws_url host port)) linked failed_client
      failed_client-IsIdle refl linked_info (omega arith)

abbrev busy : Client
busy = set_try_connect statuses payloads row_database primitives true session

abbrev Worlds : Type 0
Worlds = World statuses payloads row_database primitives

abbrev world : Client → ℕ → ℕ → Worlds
world w guards resets = record { session = w; guards = guards; resets = resets; scans = 0 }

next_retry-IsWait_example :
    IsWait default_client_options (next_retry default_client_options dead 120)
    × (120 ≤ next_retry default_client_options dead 120)
    × (1 ≤ next_retry default_client_options dead 120)
    × (next_retry default_client_options dead 120 ≤ 8 * max default_client_options.retry_seconds 1)
unfolding IsWait
next_retry-IsWait_example =
    next_retry-IsWait default_client_options dead 120 (omega arith) (inr (inr (inl refl)))

silence_lem_example :
    let r = max default_client_options.retry_seconds 1 in
    ((silence 1121 1121 default_client_options 1000 ≡ dead) ↔ ((0 < 1000) × (1000 + 4 * r < 1121)))
    × ((silence 1121 1121 default_client_options 1000 ≡ alive)
        ↔ ((1000 ≡ zero) ⊎ (1121 ≤ 1000 + 2 * r)))
silence_lem_example =
    silence_lem 1121 default_client_options 1000 (omega arith) (omega arith) (omega arith)
