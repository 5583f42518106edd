-- ===== src/Connect.antt =====
-- How a client decides to connect: src/helpers/internal_client.rs, with the start and the end of a
-- session of src/helpers/get_internal_websocket.rs and src/helpers/get_outer_websocket.rs. The clock,
-- the local address, what a scan finds and how a dial ends are arguments. A function that waits for a
-- scan or a dial is two definitions, so that anything may happen to the sender in between.
pub mod Pings
pub mod Decisions
pub mod Flights
pub mod Stream
pub mod Dials
pub mod Raw
pub mod Discovery
use atomic_websocket.Base.{
  ℕ, ◌+◌, ◌*◌, ◌^◌, min, max, Text, Bool, true, false, not, ◌&&◌, ltb, if◌then◌else◌, Option, none,
  some, List, [], is_empty, add64, mul64, lt_i64,
}
use atomic_websocket.Runtime.Channel.{Channel}
use atomic_websocket.Runtime.Database.{Database}
use atomic_websocket.Schema.{Primitives, ServerConnectInfo}
use atomic_websocket.Address.{to_ws_url}
use atomic_websocket.Metrics
use atomic_websocket.Message.{Outgoing, ping}
use atomic_websocket.Options.{ClientOptions}
use atomic_websocket.Store.{
  get_server_connect_info, set_server_connect_info, get_client_id, ensure_client_id,
}
use atomic_websocket.Sender.{
  Reply, SenderStatus, connecting, connected, disconnected, reconnecting, Task, dial_internal,
  dial_outer, handle_websocket, reconnect_internal, reconnect_outer, ServerSender,
  is_valid_server_ip, is_need_connect, write_received_times, notify, spawn, send,
}
use atomic_websocket.Sender
use atomic_websocket.Sender.Persist.{Session, add, remove_ip_if_valid_server_ip}

module _ (S : Channel SenderStatus) (C : Channel Text) (D : Database) (P : Primitives) where
  -- A call that is over, or one that waits for a scan of the subnet on a port.
  pub data Call : Type 0 where
    done : Session S C D P → Call
    scanning : Text → Session S C D P → Call

  abbrev pub sender_status : SenderStatus → Session S C D P → Session S C D P
  sender_status status w = record w { sender = notify S C status w.sender }

  abbrev pub spawn_task : Task → Session S C D P → Session S C D P
  spawn_task task w = record w { sender = spawn S C task w.sender }

  abbrev pub set_scanning : Bool → Session S C D P → Session S C D P
  set_scanning b w = record w { sender = record w.sender { is_scanning = b } }

  abbrev pub set_try_connect : Bool → Session S C D P → Session S C D P
  set_try_connect b w = record w { sender = record w.sender { is_try_connect = b } }

  -- `TryConnectGuard::try_acquire`.
  unfoldable pub try_acquire : Session S C D P → Option (Session S C D P)
  try_acquire w = if w.sender.is_try_connect then none else some (set_try_connect true w)

  -- The two calls of `is_valid_server_ip` may read the clock differently.
  unfoldable pub get_outer_connect : ℕ → ℕ → ClientOptions → Session S C D P → Session S C D P
  get_outer_connect now now' options w =
      if w.sender.is_try_connect
      then w
      else if is_valid_server_ip S C now w.sender
      then sender_status connected w
      else if is_empty options.url && not (is_valid_server_ip S C now' w.sender)
      then sender_status disconnected w
      else spawn_task (dial_outer options) (sender_status connecting w)

  -- Up to the scan, in `get_internal_connect` and in `scan_and_connect`.
  unfoldable pub begin_scan : Text → Text → Session S C D P → Call
  begin_scan local_ip port w =
      if w.sender.is_scanning
      then done w
      else if is_empty local_ip
      then done (sender_status disconnected (set_scanning false (set_scanning true w)))
      else scanning port (sender_status connecting (set_scanning true w))

  abbrev hand_off :
      Text → ClientOptions → Session S C D P → Option (Session S C D P) → Session S C D P
  hand_off server_ip options w none = w
  hand_off server_ip options w (some w') = spawn_task (handle_websocket server_ip options) w'

  abbrev pub scanned : ClientOptions → Option Text → Session S C D P → Session S C D P
  scanned options none w = sender_status disconnected w
  scanned options (some server_ip) w = hand_off server_ip options w (try_acquire w)

  -- From the end of the scan on.
  unfoldable pub finish_scan : ClientOptions → Option Text → Session S C D P → Session S C D P
  finish_scan options found w = scanned options found (set_scanning false w)

  abbrev pub connect_to : Text → ClientOptions → Text → Text → Session S C D P → Call
  connect_to local_ip options server_ip port w =
      if is_empty server_ip
      then if options.use_scan_discovery
        then begin_scan local_ip port w
        else done (sender_status disconnected w)
      else done (
          spawn_task (dial_internal (to_ws_url server_ip port) options)
            (sender_status connecting w))

  abbrev known_ip : Option (Text × Text) → Text
  known_ip none = []
  known_ip (some (server_ip, port)) = server_ip

  -- The port is reserved where the caller names one and nothing is stored.
  abbrev reserve :
      Option ServerConnectInfo → Option (Text × Text) → Session S C D P → Session S C D P
  reserve (some input) none w = record w { db = set_server_connect_info D P [] input.port w.db }
  reserve _ _ w = w

  abbrev route :
      Text
      → ClientOptions
      → Option ServerConnectInfo
      → Option (Text × Text)
      → Session S C D P
      → Call
  route local_ip options (some input) info w =
      connect_to local_ip options (known_ip info) input.port w
  route local_ip options none (some (server_ip, port)) w =
      connect_to local_ip options server_ip port w
  route local_ip options none none w = done (sender_status disconnected w)

  unfoldable pub get_internal_connect :
      ℕ → Text → Option ServerConnectInfo → ClientOptions → Session S C D P → Call
  get_internal_connect now local_ip input options w =
      if w.sender.is_try_connect
      then done w
      else if is_valid_server_ip S C now w.sender
      then done (sender_status connected w)
      else let info = get_server_connect_info D P w.db in
        route local_ip options input info (reserve input info w)

  -- The answer beside `done` is what the method returns at once; after a scan it is `scan_answer`.
  unfoldable pub scan_and_connect : ℕ → Text → Text → Session S C D P → Bool × Call
  scan_and_connect now local_ip port w =
      if not (is_need_connect S C w.sender)
      then (false, done w)
      else if is_valid_server_ip S C now w.sender
      then (true, done (sender_status connected w))
      else (false, begin_scan local_ip port w)

  unfoldable pub scan_answer : Option Text → Session S C D P → Bool
  scan_answer none w = false
  scan_answer (some server_ip) w = not w.sender.is_try_connect

  -- `AtomicClient::disconnect`, less the cancellation of the ping loop.
  unfoldable pub disconnect : Session S C D P → Session S C D P
  disconnect w = record w { sender = Sender.remove_ip S C w.sender }

  -- The task that `TryConnectGuard::drop` spawns.
  unfoldable pub reset_try_connect : Session S C D P → Session S C D P
  reset_try_connect w = set_try_connect false w

  abbrev pub with_sender : Session S C D P → Option (ServerSender S C) → Option (Session S C D P)
  with_sender w none = none
  with_sender w (some s) = some (record w { sender = s })

  -- The start of `handle_websocket`, once the stream is open and `sx` is its channel, whose writer
  -- does not run yet: where the first ping is never answered, the session does not go on.
  unfoldable pub session_start :
      ℕ
      → (ℕ → Reply)
      → (Text → Bool)
      → ℕ
      → Text
      → ClientOptions
      → Session S C D P
      → Option (Session S C D P)
  session_start now replies is_utf8 sx server_ip options w =
      let id = get_client_id D is_utf8 w.db in
      let w' = add S C D P sx server_ip w in
      if options.use_ping
      then with_sender w' (send S C replies (ping id) w'.sender)
      else some
          (record w' { sender = notify S C connected (write_received_times S C now w'.sender) })

  -- The end of `handle_websocket`, which disarms the guard as well.
  unfoldable pub session_end : Session S C D P → Session S C D P
  session_end w = set_try_connect false w
