-- ===== src/Clients/Gauge.antt =====
-- The gauge `connections_active` of src/helpers/metrics.rs against the registry that it counts.
use atomic_websocket.Base.{
  ℕ, suc, ◌+◌, ◌<◌, ◌^◌, ◌≡◌, refl, sym, ◌∙◌, Text, Bool, true, false, Bool-cases, inl, inr, Option,
  none, some, List, [], ◌∷◌, length, filter, arith,
}
use atomic_websocket.Runtime.Channel.{Channel}
use atomic_websocket.Runtime.Table.{Table, get}
use atomic_websocket.Metrics.{Metrics}
use atomic_websocket.Metrics
use atomic_websocket.Spillover.{Fate}
use atomic_websocket.Message.{Outgoing}
use atomic_websocket.Clients.{
  ClientSender, Delivery, delivered, timed_out, closed, Network, HandlerMessage, ClientSenders, len,
  count_refused, count_dropped, add, remove, write_time, touch, send, send_to, sent_to, after_send,
  send_and_track, send_each, check_client_send_time, send_handle_message,
}

refused_count :
    (keep : Text → ClientSender → Bool) (es : List (Text × ClientSender)) (m : Metrics) (n : ℕ)
    → m.connections_active ≡ n + length es
    → (count_refused keep es m).connections_active ≡ n + length (filter (λ e. keep e.0 e.1) es)
refused_count keep [] m n h = h
refused_count keep ((peer, client) ∷ es) m n h = elim (Bool-cases (keep peer client)) [
  | inl kept ↦
      rw (kept, count_refused) (refused_count keep es m (suc n) (omega (arith, h)) ∙ omega arith)
  | inr out ↦
      rw (out, count_refused)
        (refused_count keep es (Metrics.dec_connections_active m) n (ground arith))
]

dropped_active :
    (f : Fate) (m : Metrics) → (count_dropped f m).connections_active ≡ m.connections_active
dropped_active f m = ground arith

module _ (T : Table ClientSender) (C : Channel HandlerMessage) where
  -- The gauge shows the number of registered clients.
  abbrev pub IsGauge : ClientSenders T C → Type 0
  IsGauge s = s.metrics.connections_active ≡ len T C s

  pub add-IsGauge :
      (now : ℕ) (network : Network) (peer : Text) (sx : ℕ) (s : ClientSenders T C)
      → suc (len T C s) < 2 ^ 64
      → IsGauge s
      → IsGauge (add T C now network peer sx s)
  unfolding add
  add-IsGauge now network peer sx s h g =
      ground (arith, T.length-insert s.clients peer (record { sx = sx; send_time = now }))

  pub remove-IsGauge :
      (peer : Text) (s : ClientSenders T C) → IsGauge s → IsGauge (remove T C peer s)
  unfolding remove
  remove-IsGauge peer s g = ground (arith, T.length-remove s.clients peer)

  length-touch :
      (now : ℕ) (peer : Text) (o : Option ClientSender) (m : T.Map)
      → get T m peer ≡ o
      → length (T.iter (touch T C now peer o m)) ≡ length (T.iter m)
  length-touch now peer none m e = refl
  length-touch now peer (some client) m e = T.length-insert m peer _ ∙ rw e

  write_time-IsGauge :
      (now : ℕ) (peer : Text) (s : ClientSenders T C)
      → IsGauge s
      → IsGauge (write_time T C now peer s)
  unfolding write_time
  write_time-IsGauge now peer s g = g ∙ sym (length-touch now peer _ s.clients refl)

  after_send-IsGauge :
      (now : ℕ) (peer : Text) (r : Bool × ClientSenders T C)
      → IsGauge r.1
      → IsGauge (after_send T C now peer r)
  after_send-IsGauge now peer (true, s) g = write_time-IsGauge now peer s g
  after_send-IsGauge now peer (false, s) g = remove-IsGauge peer s g

  sent_to-IsGauge :
      (d : Delivery) (sx : ℕ) (m : Outgoing) (s : ClientSenders T C)
      → IsGauge s
      → IsGauge (sent_to T C d sx m s).1
  sent_to-IsGauge delivered sx m s g = g
  sent_to-IsGauge timed_out sx m s g = g
  sent_to-IsGauge closed sx m s g = g

  send_to-IsGauge :
      (network : Network) (m : Outgoing) (o : Option ClientSender) (s : ClientSenders T C)
      → IsGauge s
      → IsGauge (send_to T C network m o s).1
  send_to-IsGauge network m none s g = g
  send_to-IsGauge network m (some client) s g = sent_to-IsGauge (network client.sx) client.sx m s g

  pub send_and_track-IsGauge :
      (now : ℕ) (network : Network) (peer : Text) (m : Outgoing) (s : ClientSenders T C)
      → IsGauge s
      → IsGauge (send_and_track T C now network peer m s).1
  unfolding send_and_track send
  send_and_track-IsGauge now network peer m s g =
      after_send-IsGauge now peer _ (send_to-IsGauge network m (get T s.clients peer) s g)

  pub send_each-IsGauge :
      (now : ℕ) (network : Network) (m : Outgoing) (ps : List Text) (s : ClientSenders T C)
      → IsGauge s
      → IsGauge (send_each T C now network m ps s)
  unfolding send_each
  send_each-IsGauge now network m [] s g = g
  send_each-IsGauge now network m (peer ∷ ps) s g =
      send_each-IsGauge now network m ps (send_and_track T C now network peer m s).1
        (send_and_track-IsGauge now network peer m s g)

  pub check_client_send_time-IsGauge :
      (now : ℕ) (s : ClientSenders T C) → IsGauge s → IsGauge (check_client_send_time T C now s)
  unfolding check_client_send_time
  check_client_send_time-IsGauge now s g = omega (
    arith,
    refused_count _ (T.iter s.clients) s.metrics 0 (omega (arith, g)),
    T.length-retain s.clients _,
  )

  pub send_handle_message-IsGauge :
      (bytes peer : Text) (s : ClientSenders T C)
      → IsGauge s
      → IsGauge (send_handle_message T C bytes peer s)
  unfolding send_handle_message
  send_handle_message-IsGauge bytes peer s g = dropped_active _ _ ∙ g
