-- ===== src/Connect/Flights.antt =====
-- Single flight, over every interleaving: the guard `TryConnectGuard` of
-- src/helpers/get_internal_websocket.rs and the flag `is_scanning` of
-- src/helpers/internal_client.rs. Tasks run one locked section at a time; each section is a step.
use atomic_websocket.Base.{ℕ, suc, ◌+◌, ◌≡◌, Text, Bool, true, false, if◌then◌else◌, none, some}
use atomic_websocket.Runtime.Channel.{Channel}
use atomic_websocket.Runtime.Database.{Database}
use atomic_websocket.Schema.{Primitives}
use atomic_websocket.Options.{ClientOptions}
use atomic_websocket.Sender.{SenderStatus}
use atomic_websocket.Sender.Flags.{SameFlags}
use atomic_websocket.Sender.Persist.{Session}
use atomic_websocket.Connect.{
  Call, done, scanning, try_acquire, begin_scan, finish_scan, session_end, reset_try_connect,
}

module _ (S : Channel SenderStatus) (C : Channel Text) (D : Database) (P : Primitives) where
  -- The shared sender and store, how many tasks own a guard, how many resets of dropped guards are
  -- spawned and have not run, and how many scans are running.
  pub record World : Type 0 where
    pub session : Session S C D P
    pub guards : ℕ
    pub resets : ℕ
    pub scans : ℕ

  pub data Step : World → World → Type 0 where
    acquire :
        (w w' : Session S C D P) (g r n : ℕ)
        → try_acquire S C D P w ≡ some w'
        → Step
            (record { session = w; guards = g; resets = r; scans = n })
            (record { session = w'; guards = suc g; resets = r; scans = n })
    -- `handle_websocket` ends and disarms its guard.
    finish :
        (w : Session S C D P) (g r n : ℕ)
        → Step
            (record { session = w; guards = suc g; resets = r; scans = n })
            (record { session = session_end S C D P w; guards = g; resets = r; scans = n })
    -- A guard is dropped on any other way out.
    drop :
        (w : Session S C D P) (g r n : ℕ)
        → Step
            (record { session = w; guards = suc g; resets = r; scans = n })
            (record { session = w; guards = g; resets = suc r; scans = n })
    reset :
        (w : Session S C D P) (g r n : ℕ)
        → Step
            (record { session = w; guards = g; resets = suc r; scans = n })
            (record { session = reset_try_connect S C D P w; guards = g; resets = r; scans = n })
    scan :
        (w w' : Session S C D P) (g r n : ℕ) (local_ip port port' : Text)
        → begin_scan S C D P local_ip port w ≡ scanning port' w'
        → Step
            (record { session = w; guards = g; resets = r; scans = n })
            (record { session = w'; guards = g; resets = r; scans = suc n })
    -- A scan that is not started, since one is running or there is no local address.
    no_scan :
        (w w' : Session S C D P) (g r n : ℕ) (local_ip port : Text)
        → begin_scan S C D P local_ip port w ≡ done w'
        → Step
            (record { session = w; guards = g; resets = r; scans = n })
            (record { session = w'; guards = g; resets = r; scans = n })
    scanned_none :
        (w : Session S C D P) (g r n : ℕ) (options : ClientOptions)
        → Step
            (record { session = w; guards = g; resets = r; scans = suc n })
            (record {
              session = finish_scan S C D P options none w;
              guards = g;
              resets = r;
              scans = n;
            })
    -- A scan that found a server while an attempt is under way; without one it owns a guard then.
    scanned_late :
        (w : Session S C D P) (g r n : ℕ) (options : ClientOptions) (server_ip : Text)
        → w.sender.is_try_connect ≡ true
        → Step
            (record { session = w; guards = g; resets = r; scans = suc n })
            (record {
              session = finish_scan S C D P options (some server_ip) w;
              guards = g;
              resets = r;
              scans = n;
            })
    scanned_found :
        (w : Session S C D P) (g r n : ℕ) (options : ClientOptions) (server_ip : Text)
        → w.sender.is_try_connect ≡ false
        → Step
            (record { session = w; guards = g; resets = r; scans = suc n })
            (record {
              session = finish_scan S C D P options (some server_ip) w;
              guards = suc g;
              resets = r;
              scans = n;
            })
    -- Everything else that the sender and the store go through leaves the two flags alone, as
    -- Sender/Flags shows of the sender's operations.
    other :
        (w w' : Session S C D P) (g r n : ℕ)
        → SameFlags S C w.sender w'.sender
        → Step
            (record { session = w; guards = g; resets = r; scans = n })
            (record { session = w'; guards = g; resets = r; scans = n })

  pub data Steps : World → World → Type 0 where
    stop : (x : World) → Steps x x
    next : (x y z : World) → Step x y → Steps y z → Steps x z

  -- Each flag is up exactly while its one owner is there.
  pub record IsSingle (x : World) : Type 0 where
    pub trying : x.guards + x.resets ≡ (if x.session.sender.is_try_connect then 1 else 0)
    pub searching : x.scans ≡ (if x.session.sender.is_scanning then 1 else 0)

  abbrev waits : Call S C D P → Bool
  waits (done w) = false
  waits (scanning port w) = true

  abbrev session_of : Call S C D P → Session S C D P
  session_of (done w) = w
  session_of (scanning port w) = w
