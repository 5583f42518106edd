-- ===== src/Sender/Flags.antt =====
-- No operation of the client's sender in src/helpers/server_sender.rs touches the two flags that
-- guard its connection attempts.
use atomic_websocket.Base.{ℕ, ◌≡◌, refl, subst, Text, Option, none, some, arith}
use atomic_websocket.Runtime.Channel.{Channel, TrySend, sent, full, closed}
use atomic_websocket.Message.{Outgoing}
use atomic_websocket.Sender.{
  Reply, SenderStatus, Report, ServerSender, sx_drop, add, remove_ip, send_status, after_status,
  notify, report, finish, send_on, send,
}

module _ (S : Channel SenderStatus) (C : Channel Text) where
  -- The two senders agree on the flags.
  pub record SameFlags (s t : ServerSender S C) : Type 0 where
    pub is_try_connect : t.is_try_connect ≡ s.is_try_connect
    pub is_scanning : t.is_scanning ≡ s.is_scanning

  after_status-SameFlags :
      (r : TrySend × S.Chan) (s : ServerSender S C) → SameFlags s (after_status S C r s).1
  after_status-SameFlags (sent, c) s = record { is_try_connect = refl; is_scanning = refl }
  after_status-SameFlags (full, c) s = record { is_try_connect = refl; is_scanning = refl }
  after_status-SameFlags (closed, c) s = record { is_try_connect = refl; is_scanning = refl }

  pub notify-SameFlags :
      (status : SenderStatus) (s : ServerSender S C) → SameFlags s (notify S C status s)
  unfolding send_status notify
  notify-SameFlags status s = after_status-SameFlags (S.try_send s.status_tx status) s

  pub add-SameFlags :
      (sx : ℕ) (server_ip : Text) (s : ServerSender S C) → SameFlags s (add S C sx server_ip s)
  unfolding add sx_drop
  add-SameFlags sx server_ip s = record {
    is_try_connect = ground arith;
    is_scanning = ground arith;
  }

  pub remove_ip-SameFlags : (s : ServerSender S C) → SameFlags s (remove_ip S C s)
  unfolding remove_ip sx_drop
  remove_ip-SameFlags s = record { is_try_connect = ground arith; is_scanning = ground arith }

  report-SameFlags :
      (sx : ℕ) (m : Outgoing) (r : Report) (s : ServerSender S C)
      → SameFlags s (report S C sx m r s)
  report-SameFlags sx m r s = record { is_try_connect = ground arith; is_scanning = ground arith }

  some-SameFlags : (s t u : ServerSender S C) → some t ≡ some u → SameFlags s t → SameFlags s u
  some-SameFlags s t u e f = let same : t ≡ u = cc in subst (SameFlags s) same f

  finish-SameFlags :
      (sx : ℕ) (m : Outgoing) (o : Option Report) (s t : ServerSender S C)
      → finish S C sx m o s ≡ some t
      → SameFlags s t
  finish-SameFlags sx m none s t e = cc
  finish-SameFlags sx m (some r) s t e = some-SameFlags s _ t e (report-SameFlags sx m r s)

  send_on-SameFlags :
      (replies : ℕ → Reply) (m : Outgoing) (o : Option ℕ) (s t : ServerSender S C)
      → send_on S C replies m o s ≡ some t
      → SameFlags s t
  send_on-SameFlags replies m none s t e =
      some-SameFlags s s t e (record { is_try_connect = refl; is_scanning = refl })
  send_on-SameFlags replies m (some sx) s t e = finish-SameFlags sx m _ s t e

  pub send-SameFlags :
      (replies : ℕ → Reply) (m : Outgoing) (s t : ServerSender S C)
      → send S C replies m s ≡ some t
      → SameFlags s t
  unfolding send
  send-SameFlags replies m s t e = send_on-SameFlags replies m s.sx s t e
