-- ===== src/Examples/Senders.antt =====
-- The client's sender and its store at concrete inputs: connected on channel 3, with the default
-- options, whose retry limit is five.
use atomic_websocket.Base.{
  ℕ, ◌+◌, ◌≤◌, ◌*◌, ◌<◌, ◌≡◌, ◌≢◌, ◌↔◌, refl, max, codes, none, true, ltb, if◌then◌else◌, some,
  List, [], ◌∷◌, ◌++◌, arith,
}
use atomic_websocket.Runtime.Database.{Settings}
use atomic_websocket.Runtime.Rows.{row_database}
use atomic_websocket.Metrics
use atomic_websocket.Message.{Outgoing, raw}
use atomic_websocket.Store.{get_server_connect_info, set_server_connect_info}
use atomic_websocket.Store.Identity.{get-set_server_connect_info}
use atomic_websocket.Sender.{
  Reply, took, refuses, waits, SenderStatus, disconnected, ServerSender, farewell, send, add,
  remove_ip, sx_drop, is_valid_server_ip,
}
use atomic_websocket.Sender
use atomic_websocket.Sender.Attempts.{AllRefused, FirstAccepted, FirstWaiting}
use atomic_websocket.Sender.Retries.{attempt, send-accepted, send-refused, send-waits_iff, limit_of}
use atomic_websocket.Sender.Validity.{is_valid_server_ip_iff}
use atomic_websocket.Examples.Values.{
  primitives, primitives-ArePrimitives, row_database-IsHealthy, host, port, statuses, payloads,
  connected_sender,
}

abbrev hello : Outgoing
hello = raw (codes "hello")

-- A channel that accepts from the third attempt on, one that never does, and one that is full, with
-- nobody who empties it.
abbrev third : ℕ → Reply
third i = if ltb 1 i then took else refuses

abbrev never : ℕ → Reply
never i = refuses

abbrev stuck : ℕ → Reply
stuck i = waits

send-accepted_example :
    send statuses payloads third hello connected_sender
    ≡ some (record connected_sender {
      handed = connected_sender.handed ++ (3, hello) ∷ [];
      metrics = Metrics.inc_messages_sent connected_sender.metrics;
    })
unfolding Sender.new Sender.limit_count FirstAccepted
send-accepted_example =
    send-accepted statuses payloads third hello connected_sender 3 2 refl (omega arith)
      (refl, λ i h. ground arith)

send-refused_example :
    (s' : ServerSender statuses payloads) × (send statuses payloads never hello connected_sender
      ≡ some s')
    × (s'.handed ≡ connected_sender.handed)
    × (s'.metrics ≡ Metrics.inc_send_errors connected_sender.metrics)
    × (s'.spawned ≡ (
        if connected_sender.server_sender
        then connected_sender.spawned ++ attempt statuses payloads connected_sender ∷ []
        else connected_sender.spawned))
    × (s'.status_tx ≡ (statuses.try_send connected_sender.status_tx disconnected).1)
unfolding AllRefused
send-refused_example =
    send-refused statuses payloads never hello connected_sender 3 refl (λ i h. refl)

send-waits_iff_example :
    (send statuses payloads stuck hello connected_sender ≡ none)
    ↔ ((k : ℕ) × (k ≤ limit_of connected_sender) × FirstWaiting k stuck)
send-waits_iff_example = send-waits_iff statuses payloads stuck hello connected_sender 3 refl

is_valid_server_ip_iff_example :
    (is_valid_server_ip statuses payloads 1059 connected_sender ≡ true) ↔ (
      (connected_sender.server_ip ≢ [])
      × (1059
          < connected_sender.server_received_times
            + 2 * max connected_sender.options.retry_seconds 1))
unfolding Sender.new
is_valid_server_ip_iff_example =
    is_valid_server_ip_iff statuses payloads 1059 connected_sender (omega arith) (omega arith)
      (omega arith)

get-set_server_connect_info_example :
    get_server_connect_info row_database primitives
      (set_server_connect_info row_database primitives host port [])
    ≡ some (host, port)
get-set_server_connect_info_example =
    get-set_server_connect_info row_database row_database-IsHealthy primitives
      primitives-ArePrimitives host port [] (omega arith) (omega arith)

abbrev stored : List Settings
stored = set_server_connect_info row_database primitives host port []

stored_info : get_server_connect_info row_database primitives stored ≡ some (host, port)
stored_info =
    get-set_server_connect_info row_database row_database-IsHealthy primitives
      primitives-ArePrimitives host port [] (omega arith) (omega arith)
