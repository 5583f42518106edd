-- ===== src/Connect/Discovery.antt =====
-- `get_internal_connect` of src/helpers/internal_client.rs in builds without `native-db` or without
-- `bebop`: what the caller names is not used, and neither is what is stored.
use atomic_websocket.Base.{
  ℕ, ◌≡◌, refl, Text, codes, Bool, true, false, not, if◌then◌else◌, is_empty,
}
use atomic_websocket.Runtime.Channel.{Channel, TrySend, sent, full, closed}
use atomic_websocket.Runtime.Database.{Database}
use atomic_websocket.Schema.{Primitives}
use atomic_websocket.Options.{ClientOptions}
use atomic_websocket.Sender.{
  SenderStatus, connected, disconnected, connecting, ServerSender, is_valid_server_ip, notify,
  send_status, after_status,
}
use atomic_websocket.Sender.Persist.{Session}
use atomic_websocket.Connect.{Call, done, scanning, sender_status, set_scanning, begin_scan}

-- `ScanManager::new("9000")`.
abbrev pub scan_port : Text
scan_port = codes "9000"

module _ (S : Channel SenderStatus) (C : Channel Text) (D : Database) (P : Primitives) where
  -- Up to the scan; `finish_scan` is the rest.
  unfoldable pub get_internal_connect : ℕ → Text → ClientOptions → Session S C D P → Call S C D P
  get_internal_connect now local_ip options w =
      if w.sender.is_try_connect
      then done w
      else if is_valid_server_ip S C now w.sender
      then done (sender_status S C D P connected w)
      else if not options.use_scan_discovery
      then done (sender_status S C D P disconnected w)
      else begin_scan S C D P local_ip scan_port w

  -- Nothing is spawned and nothing is stored.
  pub record IsIdle (w v : Session S C D P) : Type 0 where
    pub spawned : v.sender.spawned ≡ w.sender.spawned
    pub stored : v.db ≡ w.db

  after_status-spawned :
      (r : TrySend × S.Chan) (s : ServerSender S C) → (after_status S C r s).1.spawned ≡ s.spawned
  after_status-spawned (sent, c) s = refl
  after_status-spawned (full, c) s = refl
  after_status-spawned (closed, c) s = refl

  sender_status-IsIdle :
      (status : SenderStatus) (w : Session S C D P) → IsIdle w (sender_status S C D P status w)
  unfolding notify send_status
  sender_status-IsIdle status w = record {
    spawned = after_status-spawned (S.try_send w.sender.status_tx status) w.sender;
    stored = refl;
  }

  -- From `w` on nothing is spawned and nothing is stored, and if the call goes on with a scan, it is
  -- one of the port.
  abbrev pub OnlyScans : Text → Session S C D P → Call S C D P → Type 0
  OnlyScans port w (done v) = IsIdle w v
  OnlyScans port w (scanning other v) = IsIdle w v × (other ≡ port)

  either :
      (port : Text) (w : Session S C D P) (b : Bool) (c d : Call S C D P)
      → OnlyScans port w c
      → OnlyScans port w d
      → OnlyScans port w (if b then c else d)
  either port w true c d h k = h
  either port w false c d h k = k

  reported :
      (status : SenderStatus) (b : Bool) (w : Session S C D P)
      → IsIdle w (sender_status S C D P status (set_scanning S C D P b w))
  reported status b w =
      let idle = sender_status-IsIdle status (set_scanning S C D P b w) in
      record { spawned = idle.spawned; stored = idle.stored }

  begin_scan-OnlyScans :
      (local_ip port : Text) (w : Session S C D P)
      → OnlyScans port w (begin_scan S C D P local_ip port w)
  unfolding begin_scan
  begin_scan-OnlyScans local_ip port w =
      either port w w.sender.is_scanning _ _ (record { spawned = refl; stored = refl })
        (either port w (is_empty local_ip) _ _ (reported disconnected false w)
          (reported connecting true w, refl))

  -- In builds without `native-db` or without `bebop`, a call spawns no dial, whatever address is
  -- stored, and stores nothing: at most it goes on with a scan, and then of port 9000.
  pub get_internal_connect-OnlyScans :
      (now : ℕ) (local_ip : Text) (options : ClientOptions) (w : Session S C D P)
      → OnlyScans scan_port w (get_internal_connect now local_ip options w)
  unfolding get_internal_connect
  get_internal_connect-OnlyScans now local_ip options w =
      either scan_port w w.sender.is_try_connect _ _ (record { spawned = refl; stored = refl })
        (either scan_port w (is_valid_server_ip S C now w.sender) _ _
          (sender_status-IsIdle connected w)
          (either scan_port w (not options.use_scan_discovery) _ _
            (sender_status-IsIdle disconnected w) (begin_scan-OnlyScans local_ip scan_port w)))
