-- ===== src/Clients/Registry.antt =====
-- What each operation of the registry of src/helpers/client_sender.rs does to every entry: the
-- operations refine those of a partial map from peers to clients.
use atomic_websocket.Base.{
  ℕ, ◌≡◌, refl, ◌∙◌, Text, text_eq, text_eq→eq, if◌then◌else◌, Bool-cases, inl, inr, Option, none,
  some,
}
use atomic_websocket.Runtime.Channel.{Channel}
use atomic_websocket.Runtime.Table.{Table, get}
use atomic_websocket.Message.{Outgoing}
use atomic_websocket.Clients.{
  ClientSender, Delivery, delivered, timed_out, closed, Network, HandlerMessage, ClientSenders, add,
  remove, write_time, touch, send, send_to, sent_to, after_send, send_and_track,
}

abbrev pub touched : ℕ → Option ClientSender → Option ClientSender
touched now none = none
touched now (some client) = some (record client { send_time = now })

-- What a send makes of the entry of its peer: refreshed if the channel took the message, gone if
-- it did not.
abbrev pub settle : ℕ → Delivery → ClientSender → Option ClientSender
settle now delivered client = some (record client { send_time = now })
settle now timed_out client = none
settle now closed client = none

abbrev pub settled : ℕ → Network → Option ClientSender → Option ClientSender
settled now network none = none
settled now network (some client) = settle now (network client.sx) client

module _ (T : Table ClientSender) (C : Channel HandlerMessage) where
  -- The entry of a peer.
  abbrev pub entry : ClientSenders T C → Text → Option ClientSender
  entry s peer = get T s.clients peer

  pub entry-add :
      (now : ℕ) (network : Network) (peer : Text) (sx : ℕ) (s : ClientSenders T C) (j : Text)
      → entry (add T C now network peer sx s) j
        ≡ (if text_eq peer j then some (record { sx = sx; send_time = now }) else entry s j)
  unfolding add
  entry-add now network peer sx s j = T.get-insert s.clients peer _ j

  pub entry-remove :
      (peer : Text) (s : ClientSenders T C) (j : Text)
      → entry (remove T C peer s) j ≡ (if text_eq peer j then none else entry s j)
  unfolding remove
  entry-remove peer s j = T.get-remove s.clients peer j

  touch_lem :
      (now : ℕ) (peer : Text) (o : Option ClientSender) (m : T.Map) (j : Text)
      → get T m peer ≡ o
      → get T (touch T C now peer o m) j ≡ (if text_eq peer j then touched now o else get T m j)
  touch_lem now peer none m j e = elim (Bool-cases (text_eq peer j)) [
    | inl same ↦ rw same (rw (← text_eq→eq peer j same) e)
    | inr other ↦ rw other
  ]
  touch_lem now peer (some client) m j e = T.get-insert m peer _ j

  pub entry-write_time :
      (now : ℕ) (peer : Text) (s : ClientSenders T C) (j : Text)
      → entry (write_time T C now peer s) j
        ≡ (if text_eq peer j then touched now (entry s peer) else entry s j)
  unfolding write_time
  entry-write_time now peer s j = touch_lem now peer _ s.clients j refl

  after_sent_to :
      (now : ℕ) (d : Delivery) (m : Outgoing) (peer : Text) (client : ClientSender)
      (s : ClientSenders T C) (j : Text)
      → entry s peer ≡ some client
      → entry (after_send T C now peer (sent_to T C d client.sx m s)) j
        ≡ (if text_eq peer j then settle now d client else entry s j)
  after_sent_to now delivered m peer client s j e = entry-write_time now peer _ j ∙ rw e
  after_sent_to now timed_out m peer client s j e = entry-remove peer _ j
  after_sent_to now closed m peer client s j e = entry-remove peer _ j

  after_send_to :
      (now : ℕ) (network : Network) (m : Outgoing) (peer : Text) (o : Option ClientSender)
      (s : ClientSenders T C) (j : Text)
      → entry s peer ≡ o
      → entry (after_send T C now peer (send_to T C network m o s)) j
        ≡ (if text_eq peer j then settled now network o else entry s j)
  after_send_to now network m peer none s j e = entry-remove peer s j
  after_send_to now network m peer (some client) s j e =
      after_sent_to now (network client.sx) m peer client s j e

  -- A tracked send touches the entry of its peer alone: it is refreshed if the message was taken,
  -- and removed if the channel was full for too long or closed.
  pub entry-send_and_track :
      (now : ℕ) (network : Network) (peer : Text) (m : Outgoing) (s : ClientSenders T C) (j : Text)
      → entry (send_and_track T C now network peer m s).1 j
        ≡ (if text_eq peer j then settled now network (entry s peer) else entry s j)
  unfolding send_and_track send
  entry-send_and_track now network peer m s j =
      after_send_to now network m peer (entry s peer) s j refl
