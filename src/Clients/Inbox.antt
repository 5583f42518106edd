-- ===== src/Clients/Inbox.antt =====
-- What the operations of the registry in src/helpers/client_sender.rs do to the messages for the
-- application.
use atomic_websocket.Base.{
  ℕ, ◌≡◌, refl, ap, sym, ◌∙◌, ◌++◌, Text, Bool, true, false, Option, none, some, List, [], ◌∷◌,
}
use atomic_websocket.Runtime.Channel.{Channel}
use atomic_websocket.Runtime.Table.{Table, get}
use atomic_websocket.Message.{Outgoing}
use atomic_websocket.Spillover.{Buffers}
use atomic_websocket.Spillover.Each.{offer_all, offer_all-append}
use atomic_websocket.Clients.{
  send_handle_message, ClientSender, Delivery, delivered, timed_out, closed, Network,
  HandlerMessage, ClientSenders, add, remove, write_time, send, send_to, sent_to, after_send,
  send_and_track, send_each, send_all, send_message_in_list, expire_send, check_client_send_time,
  set_options, get_handle_message_receiver,
}
use atomic_websocket.Clients.History.{
  Call, adds, removes, sends, sends_all, sends_in_list, expires, checks, receives, configures,
  takes_receiver, step,
}

-- What the call hands to the application.
abbrev pub handed_on : Call → List HandlerMessage
handed_on (receives bytes peer) = (bytes, peer) ∷ []
handed_on _ = []

module _ (T : Table ClientSender) (C : Channel HandlerMessage) where
  -- The two registries agree on the messages for the application and the bound of their queue.
  pub record SameInbox (s t : ClientSenders T C) : Type 0 where
    pub buffers : t.buffers ≡ s.buffers
    pub size : t.spillover_buffer_size ≡ s.spillover_buffer_size

  pub SameInbox-trans : (s t u : ClientSenders T C) → SameInbox s t → SameInbox t u → SameInbox s u
  SameInbox-trans s t u a b = record { buffers = b.buffers ∙ a.buffers; size = b.size ∙ a.size }

  -- From `s` on the messages `ms` were offered.
  pub record Offers (s : ClientSenders T C) (ms : List HandlerMessage) (t : ClientSenders T C)
      : Type 0 where
    pub buffers : t.buffers ≡ offer_all C s.spillover_buffer_size s.buffers ms
    pub size : t.spillover_buffer_size ≡ s.spillover_buffer_size

  pub Offers-trans :
      (s t u : ClientSenders T C) (ms ns : List HandlerMessage)
      → Offers s ms t
      → Offers t ns u
      → Offers s (ms ++ ns) u
  Offers-trans s t u ms ns a b = record {
    buffers =
        b.buffers
        ∙ ap (λ size. offer_all C size t.buffers ns) a.size
        ∙ ap (λ (k : Buffers C). offer_all C s.spillover_buffer_size k ns) a.buffers
        ∙ sym (offer_all-append C s.spillover_buffer_size s.buffers ms ns);
    size = b.size ∙ a.size;
  }

  pub SameInbox-Offers : (s t : ClientSenders T C) → SameInbox s t → Offers s [] t
  SameInbox-Offers s t same = record { buffers = same.buffers; size = same.size }

  sent_to-SameInbox :
      (d : Delivery) (sx : ℕ) (m : Outgoing) (s : ClientSenders T C)
      → SameInbox s (sent_to T C d sx m s).1
  sent_to-SameInbox delivered sx m s = record { buffers = refl; size = refl }
  sent_to-SameInbox timed_out sx m s = record { buffers = refl; size = refl }
  sent_to-SameInbox closed sx m s = record { buffers = refl; size = refl }

  send_to-SameInbox :
      (network : Network) (m : Outgoing) (o : Option ClientSender) (s : ClientSenders T C)
      → SameInbox s (send_to T C network m o s).1
  send_to-SameInbox network m none s = record { buffers = refl; size = refl }
  send_to-SameInbox network m (some client) s = sent_to-SameInbox (network client.sx) client.sx m s

  after_send-SameInbox :
      (now : ℕ) (peer : Text) (r : Bool × ClientSenders T C)
      → SameInbox r.1 (after_send T C now peer r)
  unfolding write_time remove
  after_send-SameInbox now peer (true, s) = record { buffers = refl; size = refl }
  after_send-SameInbox now peer (false, s) = record { buffers = refl; size = refl }

  pub send_and_track-SameInbox :
      (now : ℕ) (network : Network) (peer : Text) (m : Outgoing) (s : ClientSenders T C)
      → SameInbox s (send_and_track T C now network peer m s).1
  unfolding send_and_track send
  send_and_track-SameInbox now network peer m s =
      SameInbox-trans s _ _ (send_to-SameInbox network m (get T s.clients peer) s)
        (after_send-SameInbox now peer (send_to T C network m (get T s.clients peer) s))

  send_each-SameInbox :
      (now : ℕ) (network : Network) (m : Outgoing) (ps : List Text) (s : ClientSenders T C)
      → SameInbox s (send_each T C now network m ps s)
  unfolding send_each
  send_each-SameInbox now network m [] s = record { buffers = refl; size = refl }
  send_each-SameInbox now network m (peer ∷ ps) s =
      SameInbox-trans s _ _ (send_and_track-SameInbox now network peer m s)
        (send_each-SameInbox now network m ps (send_and_track T C now network peer m s).1)

  pub step-Offers :
      (now : ℕ) (network : Network) (c : Call) (s : ClientSenders T C)
      → Offers s (handed_on c) (step T C (now, network, c) s)
  unfolding step send_all send_message_in_list expire_send set_options get_handle_message_receiver
      add remove check_client_send_time send_handle_message
  step-Offers now network (adds peer sx) s = record { buffers = refl; size = refl }
  step-Offers now network (removes peer) s = record { buffers = refl; size = refl }
  step-Offers now network (sends peer m) s =
      SameInbox-Offers s _ (send_and_track-SameInbox now network peer m s)
  step-Offers now network (sends_all m) s =
      SameInbox-Offers s _ (send_each-SameInbox now network m _ s)
  step-Offers now network (sends_in_list ps m) s =
      SameInbox-Offers s _ (send_each-SameInbox now network m _ s)
  step-Offers now network (expires ps) s =
      SameInbox-Offers s _ (send_each-SameInbox now network Outgoing.expired _ s)
  step-Offers now network checks s = record { buffers = refl; size = refl }
  step-Offers now network (receives bytes peer) s = record { buffers = refl; size = refl }
  step-Offers now network (configures options) s = record { buffers = refl; size = refl }
  step-Offers now network takes_receiver s = record { buffers = refl; size = refl }
