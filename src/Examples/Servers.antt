-- ===== src/Examples/Servers.antt =====
-- The server's registry and the message buffers at concrete inputs: two clients, one of them on a
-- channel whose receiver is gone.
use atomic_websocket.Base.{suc, ◌≡◌, refl, Text, text_eq, codes, false, none, some, [], ◌∷◌, arith}
use atomic_websocket.Runtime.Channel.{Channel}
use atomic_websocket.Runtime.Lists.{list_channel}
use atomic_websocket.Message.{Outgoing, raw}
use atomic_websocket.Spillover.{Buffers, offer}
use atomic_websocket.Spillover.Order.{Outcome, offer-Outcome}
use atomic_websocket.Spillover.History.{offers, receives, run, start, InOrder, run-start-InOrder}
use atomic_websocket.Clients.{
  closed, ClientSenders, len, new_with_buffer_size, add, send_all, check_client_send_time,
}
use atomic_websocket.Clients.Registry.{entry}
use atomic_websocket.Clients.Sending.{entry-send_all}
use atomic_websocket.Clients.Delivered.{handed-send_all}
use atomic_websocket.Clients.Expiry.{entry-check_client_send_time}
use atomic_websocket.Clients.History.{adds, sends_all, checks, run-new-IsGauge}
use atomic_websocket.Clients.History
use atomic_websocket.Clients.Race.{
  stale_send_removes, two_adds_drift, send_write, add_read, add_write, send_read,
}
use atomic_websocket.Examples.Values.{
  peer, other_peer, network, clients, messages, empty_chan, no_clients, two_clients,
}

abbrev hello : Outgoing
hello = raw (codes "hello")

-- The living client is refreshed, the dead one is gone.
entry-send_all_example :
    entry clients messages (send_all clients messages 200 network hello two_clients) other_peer
    ≡ none
unfolding add new_with_buffer_size text_eq
entry-send_all_example = entry-send_all clients messages 200 network hello two_clients other_peer

handed-send_all_example :
    (send_all clients messages 200 network hello two_clients).handed ≡ (1, hello) ∷ []
unfolding add new_with_buffer_size text_eq
handed-send_all_example = handed-send_all clients messages 200 network hello two_clients

-- The default timeout is 30 seconds.
entry-check_client_send_time_example :
    entry clients messages (check_client_send_time clients messages 131 two_clients) peer ≡ none
unfolding add new_with_buffer_size text_eq
entry-check_client_send_time_example =
    entry-check_client_send_time clients messages 131 two_clients peer (omega arith) (omega arith)
      (omega arith)

abbrev busy_run : ClientSenders clients messages
busy_run =
    History.run clients messages
      ((1, network, adds peer 1)
        ∷ (2, network, adds other_peer 7)
        ∷ (3, network, adds peer 2)
        ∷ (4, network, sends_all hello)
        ∷ (5, network, checks)
        ∷ [])
      (new_with_buffer_size clients messages (empty_chan 2) 2)

run-new-IsGauge_example : busy_run.metrics.connections_active ≡ len clients messages busy_run
run-new-IsGauge_example =
    run-new-IsGauge clients messages (empty_chan 2) 2
      ((1, network, adds peer 1)
        ∷ (2, network, adds other_peer 7)
        ∷ (3, network, adds peer 2)
        ∷ (4, network, sends_all hello)
        ∷ (5, network, checks)
        ∷ [])
      (omega arith)

stale_send_removes_example :
    (entry clients messages (add clients messages 300 network other_peer 9 two_clients) other_peer
      ≡ some (record { sx = 9; send_time = 300 }))
    × (entry clients messages
          (send_write clients messages 310 other_peer closed hello
            (record { sx = 7; send_time = 100 })
            (add clients messages 300 network other_peer 9 two_clients))
          other_peer
        ≡ none)
unfolding add new_with_buffer_size send_read text_eq
stale_send_removes_example =
    stale_send_removes clients messages 300 310 network other_peer 9 hello closed
      (record { sx = 7; send_time = 100 }) two_clients refl (λ e. cc)

two_adds_drift_example :
    let t =
      add_write clients messages 2 peer 5 (add_read clients messages network peer no_clients).0 (
        add_write clients messages 1 peer 4
          (add_read clients messages network peer no_clients).0
          (add_read clients messages network peer no_clients).1) in
    t.metrics.connections_active ≡ suc (len clients messages t)
unfolding new_with_buffer_size
two_adds_drift_example =
    two_adds_drift clients messages 1 2 network peer 4 5 no_clients refl (omega arith) refl

abbrev texts : Channel Text
texts = list_channel Text

abbrev one : Text
one = codes "1"

-- Room for one message in the channel and for one behind it.
abbrev full_buffers : Buffers texts
full_buffers = record {
  channel = record { queue = one ∷ []; room = 1; shut = false };
  spillover = one ∷ [];
}

offer-Outcome_example : Outcome texts 1 full_buffers one (offer texts 1 full_buffers one)
offer-Outcome_example = offer-Outcome texts 1 full_buffers one refl

run-start-InOrder_example : InOrder texts 1 (
    run texts 1
      (start texts (empty_chan 1))
      (offers one ∷ offers peer ∷ offers other_peer ∷ receives ∷ offers one ∷ []))
run-start-InOrder_example =
    run-start-InOrder texts 1 (empty_chan 1)
      (offers one ∷ offers peer ∷ offers other_peer ∷ receives ∷ offers one ∷ []) refl refl
