-- ===== src/Clients/Sending.antt =====
-- Broadcasts of src/helpers/client_sender.rs: who gets the message, and who is still registered
-- afterwards. The channels answer alike while a broadcast runs.
use atomic_websocket.Base.{
  ℕ, ◌≡◌, refl, ◌∙◌, Text, text_eq, text_eq→eq, text_eq_refl, Bool, true, not, ◌&&◌, if◌then◌else◌,
  Bool-cases, inl, inr, Option, none, some, is_some, List, [], ◌∷◌, filter, arith,
}
use atomic_websocket.Runtime.Channel.{Channel}
use atomic_websocket.Runtime.Table.{Table, lookup}
use atomic_websocket.Message.{Outgoing, expired}
use atomic_websocket.Clients.{
  ClientSender, Delivery, delivered, timed_out, closed, Network, HandlerMessage, ClientSenders, mem,
  keys, peers, peers_in, peers_except, send_and_track, send_each, send_all, send_message_in_list,
  send_all_in_list, expire_send,
}
use atomic_websocket.Clients.Registry.{entry, settle, settled, entry-send_and_track}

settled_twice :
    (now : ℕ) (network : Network) (o : Option ClientSender)
    → settled now network (settled now network o) ≡ settled now network o
settled_twice now network none = refl
settled_twice now network (some client) = go (network client.sx) refl
  where
    go :
        (d : Delivery)
        → network client.sx ≡ d
        → settled now network (settle now d client) ≡ settle now d client
    go delivered e = rw e
    go timed_out e = refl
    go closed e = refl

pub mem-keys :
    (j : Text) (es : List (Text × ClientSender)) → mem j (keys es) ≡ is_some (lookup j es)
mem-keys j [] = refl
mem-keys j ((peer, client) ∷ es) = ground (arith, mem-keys j es)

mem-filter : (p : Text → Bool) (j : Text) (ps : List Text) → mem j (filter p ps) ≡ (p j && mem j ps)
mem-filter p j [] = ground arith
mem-filter p j (x ∷ ps) = elim (Bool-cases (text_eq x j)) [
  | inl same ↦
      let e : x ≡ j = text_eq→eq x j same in
      rw e (ground (arith, text_eq_refl j, mem-filter p j ps))
  | inr other ↦ ground (arith, mem-filter p j ps)
]

module _ (T : Table ClientSender) (C : Channel HandlerMessage) where
  entry-send_each :
      (now : ℕ) (network : Network) (m : Outgoing) (ps : List Text) (s : ClientSenders T C)
      (j : Text)
      → entry T C (send_each T C now network m ps s) j
        ≡ (if mem j ps then settled now network (entry T C s j) else entry T C s j)
  unfolding send_each
  entry-send_each now network m [] s j = refl
  entry-send_each now network m (peer ∷ ps) s j =
      entry-send_each now network m ps (send_and_track T C now network peer m s).1 j
      ∙ rw (entry-send_and_track T C now network peer m s j) (elim (Bool-cases (text_eq peer j)) [
        | inl same ↦
            rw (same, text_eq→eq peer j same)
              (ground (arith, settled_twice now network (entry T C s j)))
        | inr other ↦ rw other
      ])

  only_registered :
      (now : ℕ) (network : Network) (b : Bool) (o : Option ClientSender)
      → (if b && is_some o then settled now network o else o)
        ≡ (if b then settled now network o else o)
  only_registered now network b none = ground arith
  only_registered now network b (some client) = ground arith

  -- After a broadcast every client whose channel took the message is registered with the time of
  -- the send, every other client is gone, and nobody is new. One dead client has no effect on the
  -- entry of another.
  pub entry-send_all :
      (now : ℕ) (network : Network) (m : Outgoing) (s : ClientSenders T C) (j : Text)
      → entry T C (send_all T C now network m s) j ≡ settled now network (entry T C s j)
  unfolding send_all peers
  entry-send_all now network m s j =
      entry-send_each now network m _ s j
      ∙ rw (mem-keys j (T.iter s.clients)) (only_registered now network true (entry T C s j))

  -- A send to a list of peers does the same to the registered peers of the list, and leaves all
  -- others as they are. The two functions of the trait for it agree.
  pub entry-send_message_in_list :
      (now : ℕ) (network : Network) (m : Outgoing) (peer_list : List Text) (s : ClientSenders T C)
      (j : Text)
      → (entry T C (send_message_in_list T C now network peer_list m s) j
          ≡ (if mem j peer_list then settled now network (entry T C s j) else entry T C s j))
        × (send_all_in_list T C now network peer_list m s
            ≡ send_message_in_list T C now network peer_list m s)
  unfolding send_message_in_list send_all_in_list peers_in
  entry-send_message_in_list now network m peer_list s j = (
    entry-send_each now network m _ s j
        ∙ rw
            (
              mem-filter (λ peer. mem peer peer_list) j (keys (T.iter s.clients)),
              mem-keys j (T.iter s.clients),
            )
            (only_registered now network (mem j peer_list) (entry T C s j)),
    refl,
  )

  -- `expire_send` sends to exactly the registered peers that are not in the list.
  pub entry-expire_send :
      (now : ℕ) (network : Network) (peer_list : List Text) (s : ClientSenders T C) (j : Text)
      → entry T C (expire_send T C now network peer_list s) j
        ≡ (if mem j peer_list then entry T C s j else settled now network (entry T C s j))
  unfolding expire_send peers_except
  entry-expire_send now network peer_list s j =
      entry-send_each now network expired _ s j
      ∙ rw
          (
            mem-filter (λ peer. not (mem peer peer_list)) j (keys (T.iter s.clients)),
            mem-keys j (T.iter s.clients),
          )
          (only_registered now network (not (mem j peer_list)) (entry T C s j) ∙ ground arith)
