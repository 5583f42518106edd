-- ===== src/Clients/History.antt =====
-- Histories of the registry of src/helpers/client_sender.rs: its operations one after another.
use atomic_websocket.Base.{ℕ, suc, ◌+◌, ◌≤◌, ◌<◌, ◌^◌, ◌≡◌, Text, List, [], ◌∷◌, length, arith}
use atomic_websocket.Runtime.Channel.{Channel}
use atomic_websocket.Runtime.Table.{Table}
use atomic_websocket.Options.{ServerOptions}
use atomic_websocket.Message.{Outgoing}
use atomic_websocket.Clients.{
  ClientSender, Network, HandlerMessage, ClientSenders, len, new_with_buffer_size, add, remove,
  send_and_track, send_all, send_message_in_list, expire_send, check_client_send_time,
  send_handle_message, set_options, get_handle_message_receiver, peers, peers_in, peers_except,
}
use atomic_websocket.Clients.Gauge.{
  IsGauge, add-IsGauge, remove-IsGauge, send_and_track-IsGauge, send_each-IsGauge,
  check_client_send_time-IsGauge, send_handle_message-IsGauge,
}
use atomic_websocket.Clients.Growth.{
  active, active-add-le, active-remove-le, active-send_and_track-le, active-send_each-le,
  active-check-le, active-send_handle_message-le,
}

-- A call of the registry, with the clock and the network while it runs.
pub data Call : Type 0 where
  adds : Text → ℕ → Call
  removes : Text → Call
  sends : Text → Outgoing → Call
  sends_all : Outgoing → Call
  sends_in_list : List Text → Outgoing → Call
  expires : List Text → Call
  checks : Call
  receives : Text → Text → Call
  configures : ServerOptions → Call
  takes_receiver : Call

module _ (T : Table ClientSender) (C : Channel HandlerMessage) where
  unfoldable pub step : ℕ × Network × Call → ClientSenders T C → ClientSenders T C
  step (now, network, adds peer sx) s = add T C now network peer sx s
  step (now, network, removes peer) s = remove T C peer s
  step (now, network, sends peer m) s = (send_and_track T C now network peer m s).1
  step (now, network, sends_all m) s = send_all T C now network m s
  step (now, network, sends_in_list ps m) s = send_message_in_list T C now network ps m s
  step (now, network, expires ps) s = expire_send T C now network ps s
  step (now, network, checks) s = check_client_send_time T C now s
  step (now, network, receives bytes peer) s = send_handle_message T C bytes peer s
  step (now, network, configures options) s = set_options T C options s
  step (now, network, takes_receiver) s = (get_handle_message_receiver T C s).1

  unfoldable pub run : List (ℕ × Network × Call) → ClientSenders T C → ClientSenders T C
  run [] s = s
  run (c ∷ cs) s = run cs (step c s)

  pub step-le :
      (c : ℕ × Network × Call) (s : ClientSenders T C) → active T C (step c s) ≤ suc (active T C s)
  unfolding step send_all send_message_in_list expire_send set_options get_handle_message_receiver
  step-le (now, network, adds peer sx) s = active-add-le T C now network peer sx s
  step-le (now, network, removes peer) s = omega (arith, active-remove-le T C peer s)
  step-le (now, network, sends peer m) s =
      omega (arith, active-send_and_track-le T C now network peer m s)
  step-le (now, network, sends_all m) s =
      omega (arith, active-send_each-le T C now network m (peers T C s) s)
  step-le (now, network, sends_in_list ps m) s =
      omega (arith, active-send_each-le T C now network m (peers_in T C ps s) s)
  step-le (now, network, expires ps) s =
      omega (arith, active-send_each-le T C now network Outgoing.expired (peers_except T C ps s) s)
  step-le (now, network, checks) s = omega (arith, active-check-le T C now s)
  step-le (now, network, receives bytes peer) s =
      omega (arith, active-send_handle_message-le T C bytes peer s)
  step-le (now, network, configures options) s = omega arith
  step-le (now, network, takes_receiver) s = omega arith

  pub step-IsGauge :
      (c : ℕ × Network × Call) (s : ClientSenders T C)
      → suc s.metrics.connections_active < 2 ^ 64
      → IsGauge T C s
      → IsGauge T C (step c s)
  unfolding step send_all send_message_in_list expire_send set_options get_handle_message_receiver
  step-IsGauge (now, network, adds peer sx) s h g =
      add-IsGauge T C now network peer sx s (omega (arith, g)) g
  step-IsGauge (now, network, removes peer) s h g = remove-IsGauge T C peer s g
  step-IsGauge (now, network, sends peer m) s h g =
      send_and_track-IsGauge T C now network peer m s g
  step-IsGauge (now, network, sends_all m) s h g = send_each-IsGauge T C now network m _ s g
  step-IsGauge (now, network, sends_in_list ps m) s h g = send_each-IsGauge T C now network m _ s g
  step-IsGauge (now, network, expires ps) s h g =
      send_each-IsGauge T C now network Outgoing.expired _ s g
  step-IsGauge (now, network, checks) s h g = check_client_send_time-IsGauge T C now s g
  step-IsGauge (now, network, receives bytes peer) s h g =
      send_handle_message-IsGauge T C bytes peer s g
  step-IsGauge (now, network, configures options) s h g = g
  step-IsGauge (now, network, takes_receiver) s h g = g

  pub run-IsGauge :
      (cs : List (ℕ × Network × Call)) (s : ClientSenders T C)
      → active T C s + length cs < 2 ^ 64
      → IsGauge T C s
      → IsGauge T C (run cs s)
  unfolding run
  run-IsGauge [] s h g = g
  run-IsGauge (c ∷ cs) s h g =
      run-IsGauge cs (step c s) (omega (arith, step-le c s)) (step-IsGauge c s (omega arith) g)

  -- After any history of calls on a new registry, fewer than 2 ^ 64 of them, the gauge of active
  -- connections is the number of registered clients: replacements, expiries and failed sends included.
  pub run-new-IsGauge :
      (c : C.Chan) (size : ℕ) (cs : List (ℕ × Network × Call))
      → length cs < 2 ^ 64
      → (run cs (new_with_buffer_size T C c size)).metrics.connections_active
        ≡ len T C (run cs (new_with_buffer_size T C c size))
  unfolding new_with_buffer_size
  run-new-IsGauge c size cs h = run-IsGauge cs _ (omega arith) (rw T.iter-empty)
