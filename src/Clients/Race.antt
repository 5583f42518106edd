-- ===== src/Clients/Race.antt =====
-- `add` and the tracked `send` of src/helpers/client_sender.rs as two steps each: what they read
-- before they await the channel, and what they write after it. Other tasks may run in between.
use atomic_websocket.Base.{
  ℕ, suc, ◌<◌, ◌^◌, ◌≡◌, ◌≢◌, refl, ◌∙◌, Text, text_eq_refl, Option, none, some, is_some, length,
  arith,
}
use atomic_websocket.Runtime.Channel.{Channel}
use atomic_websocket.Runtime.Table.{Table, get}
use atomic_websocket.Metrics
use atomic_websocket.Message.{Outgoing}
use atomic_websocket.Clients.{
  ClientSender, Delivery, delivered, timed_out, closed, Network, HandlerMessage, count_new, notify,
  ClientSenders, len, add, send, sent_to, after_send, send_and_track,
}
use atomic_websocket.Clients.Registry.{entry, entry-add, entry-remove}
use atomic_websocket.Clients.Gauge.{IsGauge}

module _ (T : Table ClientSender) (C : Channel HandlerMessage) where
  -- `add` up to the await: the previous sender, and the notice that is handed to it.
  unfoldable pub add_read :
      Network → Text → ClientSenders T C → Option ClientSender × ClientSenders T C
  add_read network peer s = (
    get T s.clients peer,
    record s { handed = notify network peer (get T s.clients peer) s.handed },
  )

  -- `add` after the await. `previous` is what was read before it.
  unfoldable pub add_write :
      ℕ → Text → ℕ → Option ClientSender → ClientSenders T C → ClientSenders T C
  add_write now peer sx previous s = record s {
    clients = T.insert s.clients peer (record { sx = sx; send_time = now });
    metrics = count_new (is_some previous) (Metrics.inc_connections_total s.metrics);
  }

  -- `send` up to the await: a clone of the sender.
  unfoldable pub send_read : Text → ClientSenders T C → Option ClientSender
  send_read peer s = get T s.clients peer

  -- `send` after the await, with what became of the message.
  unfoldable pub send_write :
      ℕ → Text → Delivery → Outgoing → ClientSender → ClientSenders T C → ClientSenders T C
  send_write now peer d m client s = after_send T C now peer (sent_to T C d client.sx m s)

  -- With nothing in between, the two steps are the operation.
  add_steps :
      (now : ℕ) (network : Network) (peer : Text) (sx : ℕ) (s : ClientSenders T C)
      → add_write now peer sx (add_read network peer s).0 (add_read network peer s).1
        ≡ add T C now network peer sx s
  unfolding add add_read add_write
  add_steps now network peer sx s = refl

  send_steps :
      (now : ℕ) (network : Network) (peer : Text) (m : Outgoing) (client : ClientSender)
      (s : ClientSenders T C)
      → send_read peer s ≡ some client
      → send_write now peer (network client.sx) m client s
        ≡ (send_and_track T C now network peer m s).1
  unfolding send_and_track send send_read send_write
  send_steps now network peer m client s e = rw e

  entry-sent_to :
      (d : Delivery) (sx : ℕ) (m : Outgoing) (now : ℕ) (peer : Text) (s : ClientSenders T C)
      → d ≢ delivered
      → entry T C (after_send T C now peer (sent_to T C d sx m s)) peer ≡ none
  entry-sent_to delivered sx m now peer s n = absurd (n refl)
  entry-sent_to timed_out sx m now peer s n = entry-remove T C peer _ peer ∙ rw (text_eq_refl peer)
  entry-sent_to closed sx m now peer s n = entry-remove T C peer _ peer ∙ rw (text_eq_refl peer)

  -- A send that waits on an old connection while its peer reconnects drops the new connection when
  -- it fails: the peer is registered with the new channel by `add`, and is gone after the send,
  -- whatever the new channel would have answered.
  pub stale_send_removes :
      (now later : ℕ) (network : Network) (peer : Text) (sx : ℕ) (m : Outgoing) (d : Delivery)
      (client : ClientSender) (s : ClientSenders T C)
      → send_read peer s ≡ some client
      → d ≢ delivered
      → (entry T C (add T C now network peer sx s) peer
          ≡ some (record { sx = sx; send_time = now }))
        × (entry T C (send_write later peer d m client (add T C now network peer sx s)) peer ≡ none)
  unfolding send_write
  stale_send_removes now later network peer sx m d client s e n = (
    entry-add T C now network peer sx s peer ∙ rw (text_eq_refl peer),
    entry-sent_to d client.sx m later peer (add T C now network peer sx s) n,
  )

  length-reinsert :
      (m : T.Map) (peer : Text) (v w : ClientSender)
      → length (T.iter (T.insert (T.insert m peer v) peer w)) ≡ length (T.iter (T.insert m peer v))
  length-reinsert m peer v w =
      T.length-insert (T.insert m peer v) peer w
      ∙ rw (T.get-insert m peer v peer) (rw (text_eq_refl peer))

  -- On a registry with a right gauge, two connections of one new peer that both find no entry
  -- before either writes count it twice: the gauge shows one client more than there is.
  pub two_adds_drift :
      (now later : ℕ) (network : Network) (peer : Text) (sx sx' : ℕ) (s : ClientSenders T C)
      → entry T C s peer ≡ none
      → suc (suc (len T C s)) < 2 ^ 64
      → IsGauge T C s
      → let t =
          add_write later peer sx'
            (add_read network peer s).0
            (add_write now peer sx (add_read network peer s).0 (add_read network peer s).1) in
        t.metrics.connections_active ≡ suc (len T C t)
  unfolding add_read add_write
  two_adds_drift now later network peer sx sx' s e h g = ground (
    arith,
    T.length-insert s.clients peer (record { sx = sx; send_time = now }),
    length-reinsert s.clients peer (record { sx = sx; send_time = now })
        (record { sx = sx'; send_time = later }),
  )
