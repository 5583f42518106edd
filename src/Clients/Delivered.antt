-- ===== src/Clients/Delivered.antt =====
-- Which connections a broadcast of src/helpers/client_sender.rs hands its message to.
use atomic_websocket.Base.{
  ℕ, ◌≡◌, refl, sym, ap, ap₂, ◌∙◌, Text, text_eq, text_eq→eq, text_eq_refl, true, false, Bool-cases,
  inl, inr, Option, none, some, List, [], ◌∷◌, ◌++◌, append_assoc, append-nil, arith,
}
use atomic_websocket.Runtime.Channel.{Channel}
use atomic_websocket.Runtime.Table.{Table, lookup, NodupKeys}
use atomic_websocket.Message.{Outgoing}
use atomic_websocket.Clients.{
  ClientSender, Delivery, delivered, timed_out, closed, Network, HandlerMessage, hand,
  ClientSenders, mem, keys, peers, remove, write_time, send, send_to, sent_to, after_send,
  send_and_track, send_each, send_all,
}
use atomic_websocket.Clients.Registry.{entry, entry-send_and_track}
use atomic_websocket.Clients.Sending.{mem-keys}

-- What one send adds to the channels.
abbrev pub given : Network → Outgoing → Option ClientSender → List (ℕ × Outgoing)
given network m none = []
given network m (some client) = hand (network client.sx) client.sx m []

-- What the sends to several peers add, one after another.
abbrev pub given_each :
    Network → Outgoing → (Text → Option ClientSender) → List Text → List (ℕ × Outgoing)
given_each network m f [] = []
given_each network m f (peer ∷ ps) = given network m (f peer) ++ given_each network m f ps

-- One message for each entry whose channel takes it, in the order of iteration.
abbrev pub recipients : Network → Outgoing → List (Text × ClientSender) → List (ℕ × Outgoing)
recipients network m [] = []
recipients network m ((peer, client) ∷ es) =
    given network m (some client) ++ recipients network m es

-- No text stands twice.
abbrev NodupTexts : List Text → Type 0
NodupTexts [] = Unit {0}
NodupTexts (p ∷ ps) = (mem p ps ≡ false) × NodupTexts ps

keys-NodupTexts : (es : List (Text × ClientSender)) → NodupKeys es → NodupTexts (keys es)
keys-NodupTexts [] h = tt
keys-NodupTexts ((peer, client) ∷ es) (new, h) = (mem-keys peer es ∙ rw new, keys-NodupTexts es h)

given_each-recipients :
    (network : Network) (m : Outgoing) (f : Text → Option ClientSender)
    (es : List (Text × ClientSender))
    → NodupKeys es
    → ((q : Text) → mem q (keys es) ≡ true → lookup q es ≡ f q)
    → given_each network m f (keys es) ≡ recipients network m es
given_each-recipients network m f [] h same = refl
given_each-recipients network m f ((peer, client) ∷ es) (new, h) same =
    ap₂ (λ (xs ys : List (ℕ × Outgoing)). xs ++ ys) (ap (given network m) first)
      (given_each-recipients network m f es h later)
  where
    first : f peer ≡ some client
    first = sym (same peer (ground (arith, text_eq_refl peer))) ∙ rw (text_eq_refl peer)

    later : (q : Text) → mem q (keys es) ≡ true → lookup q es ≡ f q
    later q hit = elim (Bool-cases (text_eq peer q)) [
      | inl e ↦
          let p : peer ≡ q = text_eq→eq peer q e in
          let gone : mem peer (keys es) ≡ false = mem-keys peer es ∙ rw new in cc
      | inr miss ↦ rw miss at (same q (ground arith))
    ]

module _ (T : Table ClientSender) (C : Channel HandlerMessage) where
  handed-sent_to :
      (now : ℕ) (d : Delivery) (sx : ℕ) (m : Outgoing) (peer : Text) (s : ClientSenders T C)
      → (after_send T C now peer (sent_to T C d sx m s)).handed ≡ s.handed ++ hand d sx m []
  unfolding write_time remove
  handed-sent_to now delivered sx m peer s = refl
  handed-sent_to now timed_out sx m peer s = sym (append-nil s.handed)
  handed-sent_to now closed sx m peer s = sym (append-nil s.handed)

  handed-send_to :
      (now : ℕ) (network : Network) (m : Outgoing) (peer : Text) (o : Option ClientSender)
      (s : ClientSenders T C)
      → (after_send T C now peer (send_to T C network m o s)).handed ≡ s.handed ++ given network m o
  unfolding remove
  handed-send_to now network m peer none s = sym (append-nil s.handed)
  handed-send_to now network m peer (some client) s =
      handed-sent_to now (network client.sx) client.sx m peer s

  pub handed-send_and_track :
      (now : ℕ) (network : Network) (peer : Text) (m : Outgoing) (s : ClientSenders T C)
      → (send_and_track T C now network peer m s).1.handed
        ≡ s.handed ++ given network m (entry T C s peer)
  unfolding send_and_track send
  handed-send_and_track now network peer m s =
      handed-send_to now network m peer (entry T C s peer) s

  handed-send_each :
      (now : ℕ) (network : Network) (m : Outgoing) (f : Text → Option ClientSender) (ps : List Text)
      (s : ClientSenders T C)
      → NodupTexts ps
      → ((q : Text) → mem q ps ≡ true → entry T C s q ≡ f q)
      → (send_each T C now network m ps s).handed ≡ s.handed ++ given_each network m f ps
  unfolding send_each
  handed-send_each now network m f [] s n same = sym (append-nil s.handed)
  handed-send_each now network m f (peer ∷ ps) s (new, n) same =
      handed-send_each now network m f ps (send_and_track T C now network peer m s).1 n later
      ∙ rw
          (
            handed-send_and_track now network peer m s,
            same peer (ground (arith, text_eq_refl peer)),
          )
          (append_assoc s.handed (given network m (f peer)) (given_each network m f ps))
    where
      later :
          (q : Text)
          → mem q ps ≡ true
          → entry T C (send_and_track T C now network peer m s).1 q ≡ f q
      later q h = elim (Bool-cases (text_eq peer q)) [
        | inl hit ↦ let e : peer ≡ q = text_eq→eq peer q hit in cc
        | inr miss ↦
            entry-send_and_track T C now network peer m s q ∙ rw miss (same q (ground arith))
      ]

  -- A broadcast hands the message to the channel of each registered client once, in the order of
  -- iteration, unless that channel refuses it; nothing else is handed to anybody.
  pub handed-send_all :
      (now : ℕ) (network : Network) (m : Outgoing) (s : ClientSenders T C)
      → (send_all T C now network m s).handed ≡ s.handed ++ recipients network m (T.iter s.clients)
  unfolding send_all peers
  handed-send_all now network m s =
      let es = T.iter s.clients in
      handed-send_each now network m (entry T C s) (keys es) s
        (keys-NodupTexts es (T.iter-NodupKeys s.clients)) (λ q _. refl)
      ∙ ap (λ xs. s.handed ++ xs)
          (given_each-recipients network m (entry T C s) es (T.iter-NodupKeys s.clients)
            (λ q _. refl))
