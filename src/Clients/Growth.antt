-- ===== src/Clients/Growth.antt =====
-- No operation of src/helpers/client_sender.rs raises the gauge of active connections by more than
-- one, and none but `add` raises it.
use atomic_websocket.Base.{
  ℕ, suc, ◌≤◌, ◌≡◌, Text, Bool, Bool-cases, inl, inr, Option, none, some, List, [], ◌∷◌, arith,
}
use atomic_websocket.Runtime.Channel.{Channel}
use atomic_websocket.Runtime.Table.{Table, get}
use atomic_websocket.Metrics.{Metrics}
use atomic_websocket.Metrics
use atomic_websocket.Spillover.{Fate, offer}
use atomic_websocket.Message.{Outgoing}
use atomic_websocket.Clients.{
  ClientSender, Delivery, delivered, timed_out, closed, Network, HandlerMessage, ClientSenders,
  count_refused, count_dropped, add, remove, write_time, send, send_to, sent_to, after_send,
  send_and_track, send_each, check_client_send_time, send_handle_message,
}

refused-le :
    (keep : Text → ClientSender → Bool) (es : List (Text × ClientSender)) (m : Metrics)
    → (count_refused keep es m).connections_active ≤ m.connections_active
refused-le keep [] m = omega arith
refused-le keep ((peer, client) ∷ es) m = elim (Bool-cases (keep peer client)) [
  | inl kept ↦ rw (kept, count_refused) (refused-le keep es m)
  | inr out ↦
      rw (out, count_refused)
        (ground (arith, refused-le keep es (Metrics.dec_connections_active m)))
]

dropped-eq :
    (f : Fate) (m : Metrics) → (count_dropped f m).connections_active ≡ m.connections_active
dropped-eq f m = ground arith

module _ (T : Table ClientSender) (C : Channel HandlerMessage) where
  abbrev pub active : ClientSenders T C → ℕ
  active s = s.metrics.connections_active

  pub active-add-le :
      (now : ℕ) (network : Network) (peer : Text) (sx : ℕ) (s : ClientSenders T C)
      → active (add T C now network peer sx s) ≤ suc (active s)
  unfolding add
  active-add-le now network peer sx s = ground arith

  pub active-remove-le :
      (peer : Text) (s : ClientSenders T C) → active (remove T C peer s) ≤ active s
  unfolding remove
  active-remove-le peer s = ground arith

  after_sent_to-le :
      (now : ℕ) (peer : Text) (d : Delivery) (sx : ℕ) (m : Outgoing) (s : ClientSenders T C)
      → active (after_send T C now peer (sent_to T C d sx m s)) ≤ active s
  unfolding write_time
  after_sent_to-le now peer delivered sx m s = omega arith
  after_sent_to-le now peer timed_out sx m s = active-remove-le peer _
  after_sent_to-le now peer closed sx m s = active-remove-le peer _

  after_send_to-le :
      (now : ℕ) (peer : Text) (network : Network) (m : Outgoing) (o : Option ClientSender)
      (s : ClientSenders T C)
      → active (after_send T C now peer (send_to T C network m o s)) ≤ active s
  after_send_to-le now peer network m none s = active-remove-le peer s
  after_send_to-le now peer network m (some client) s =
      after_sent_to-le now peer (network client.sx) client.sx m s

  pub active-send_and_track-le :
      (now : ℕ) (network : Network) (peer : Text) (m : Outgoing) (s : ClientSenders T C)
      → active (send_and_track T C now network peer m s).1 ≤ active s
  unfolding send_and_track send
  active-send_and_track-le now network peer m s =
      after_send_to-le now peer network m (get T s.clients peer) s

  pub active-send_each-le :
      (now : ℕ) (network : Network) (m : Outgoing) (ps : List Text) (s : ClientSenders T C)
      → active (send_each T C now network m ps s) ≤ active s
  unfolding send_each
  active-send_each-le now network m [] s = omega arith
  active-send_each-le now network m (peer ∷ ps) s = omega (
    arith,
    active-send_each-le now network m ps (send_and_track T C now network peer m s).1,
    active-send_and_track-le now network peer m s,
  )

  pub active-check-le :
      (now : ℕ) (s : ClientSenders T C) → active (check_client_send_time T C now s) ≤ active s
  unfolding check_client_send_time
  active-check-le now s = refused-le _ (T.iter s.clients) s.metrics

  pub active-send_handle_message-le :
      (bytes peer : Text) (s : ClientSenders T C)
      → active (send_handle_message T C bytes peer s) ≤ active s
  unfolding send_handle_message
  active-send_handle_message-le bytes peer s = omega (
    arith,
    dropped-eq (offer C s.spillover_buffer_size s.buffers (bytes, peer)).0
        (Metrics.inc_messages_received s.metrics),
  )
