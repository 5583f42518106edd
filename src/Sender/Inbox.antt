-- ===== src/Sender/Inbox.antt =====
-- What the client's sender in src/helpers/server_sender.rs leaves alone while it sends and reports:
-- the messages that wait for the application, and the options.
use atomic_websocket.Base.{ℕ, ◌≡◌, refl, subst, Text, Option, none, some, arith}
use atomic_websocket.Runtime.Channel.{Channel, TrySend, sent, full, closed}
use atomic_websocket.Message.{Outgoing}
use atomic_websocket.Sender.{
  Reply, SenderStatus, Report, ServerSender, send_status, after_status, notify, report, finish,
  send_on, send,
}

module _ (S : Channel SenderStatus) (C : Channel Text) where
  -- The two senders agree on the messages for the application and on the options.
  pub record SameInbox (s t : ServerSender S C) : Type 0 where
    pub buffers : t.buffers ≡ s.buffers
    pub options : t.options ≡ s.options

  after_status-SameInbox :
      (r : TrySend × S.Chan) (s : ServerSender S C) → SameInbox s (after_status S C r s).1
  after_status-SameInbox (sent, c) s = record { buffers = refl; options = refl }
  after_status-SameInbox (full, c) s = record { buffers = refl; options = refl }
  after_status-SameInbox (closed, c) s = record { buffers = refl; options = refl }

  pub notify-SameInbox :
      (status : SenderStatus) (s : ServerSender S C) → SameInbox s (notify S C status s)
  unfolding send_status notify
  notify-SameInbox status s = after_status-SameInbox (S.try_send s.status_tx status) s

  report-SameInbox :
      (sx : ℕ) (m : Outgoing) (r : Report) (s : ServerSender S C)
      → SameInbox s (report S C sx m r s)
  report-SameInbox sx m r s = record { buffers = ground arith; options = ground arith }

  some-SameInbox : (s t u : ServerSender S C) → some t ≡ some u → SameInbox s t → SameInbox s u
  some-SameInbox s t u e f = let same : t ≡ u = cc in subst (SameInbox s) same f

  finish-SameInbox :
      (sx : ℕ) (m : Outgoing) (o : Option Report) (s t : ServerSender S C)
      → finish S C sx m o s ≡ some t
      → SameInbox s t
  finish-SameInbox sx m none s t e = cc
  finish-SameInbox sx m (some r) s t e = some-SameInbox s _ t e (report-SameInbox sx m r s)

  send_on-SameInbox :
      (replies : ℕ → Reply) (m : Outgoing) (o : Option ℕ) (s t : ServerSender S C)
      → send_on S C replies m o s ≡ some t
      → SameInbox s t
  send_on-SameInbox replies m none s t e =
      some-SameInbox s s t e (record { buffers = refl; options = refl })
  send_on-SameInbox replies m (some sx) s t e = finish-SameInbox sx m _ s t e

  pub send-SameInbox :
      (replies : ℕ → Reply) (m : Outgoing) (s t : ServerSender S C)
      → send S C replies m s ≡ some t
      → SameInbox s t
  unfolding send
  send-SameInbox replies m s t e = send_on-SameInbox replies m s.sx s t e
