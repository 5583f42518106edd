-- ===== src/Sender.antt =====
-- src/helpers/server_sender.rs: the client's side of its one connection. The clock and the answers
-- of the connection's channel are arguments; tasks that the code spawns are recorded.
pub mod Attempts
pub mod Retries
pub mod Validity
pub mod Persist
pub mod Flags
pub mod Inbox
use atomic_websocket.Base.{
  ℕ, zero, suc, ◌+◌, ◌-◌, Text, Bool, true, false, not, ◌&&◌, ltb, ◌==◌, if◌then◌else◌, Option,
  none, some, List, [], ◌∷◌, ◌++◌, is_empty, add64, mul64, lt_i64,
}
use atomic_websocket.Runtime.Channel.{Channel, TrySend, sent, full, closed}
use atomic_websocket.Message.{Outgoing}
use atomic_websocket.Metrics.{Metrics}
use atomic_websocket.Metrics
use atomic_websocket.Retry.{ExponentialBackoff, wait}
use atomic_websocket.Retry
use atomic_websocket.Options.{ClientOptions, AtomicWebsocketType, internal, external}
use atomic_websocket.Spillover.{Fate, dropped, Buffers, offer}

pub data SenderStatus : Type 0 where
  start connecting connected disconnected reconnecting : SenderStatus

-- What `tokio::spawn` is given: the farewell to a connection that is dropped, the call of
-- `wrap_get_internal_websocket` or `wrap_get_outer_websocket`, the session on a stream that a scan
-- has opened, and the reconnections of the two ping loops.
pub data Task : Type 0 where
  farewell : ℕ → Text → Task
  dial_internal : Text → ClientOptions → Task
  dial_outer : ClientOptions → Task
  handle_websocket : Text → ClientOptions → Task
  reconnect_internal : ClientOptions → Task
  reconnect_outer : ClientOptions → Task

-- How a retry loop ended, and after how many attempts.
pub record Report : Type 0 where
  pub was_sent : Bool
  pub attempts : ℕ

-- How an attempt to send ends: the channel takes the message, it is closed, or the attempt waits for
-- room in it and is never answered.
pub data Reply : Type 0 where
  took refuses waits : Reply

-- The loop of `send`, with `replies i` for what becomes of the i-th attempt from here. It does not
-- return where an attempt is never answered.
unfoldable pub retry_loop : ℕ → (ℕ → Reply) → ExponentialBackoff → ℕ → Option Report
retry_loop zero replies backoff made = none
retry_loop (suc fuel) replies backoff made = elim (replies 0) [
  | took ↦ some (record { was_sent = true; attempts = suc made })
  | refuses ↦ elim ((wait backoff).0) [
    | true ↦ retry_loop fuel (λ i. replies (suc i)) (wait backoff).2 (suc made)
    | false ↦ some (record { was_sent = false; attempts = suc made })
  ]
  | waits ↦ none
]

-- Phase 2 of `send`. The cast to u32 keeps numbers up to 5.
unfoldable pub limit_count : ℕ → ℕ
limit_count retry_seconds =
    if ltb 5 retry_seconds
    then 5
    else if retry_seconds == 0
    then 1
    else if retry_seconds == 1
    then 1
    else retry_seconds - 1

module _ (S : Channel SenderStatus) (C : Channel Text) where
  pub record ServerSender : Type 0 where
    -- The channel of the connection's writer, by a number of its own.
    pub sx : Option ℕ
    -- `regist` was called.
    pub server_sender : Bool
    pub server_ip : Text
    pub server_received_times : ℕ
    pub status_tx : S.Chan
    pub status_rx : Bool
    pub buffers : Buffers C
    pub handle_message_rx : Bool
    pub options : ClientOptions
    pub is_try_connect : Bool
    pub is_scanning : Bool
    pub metrics : Metrics
    -- The messages that connections' channels have taken, and the tasks spawned, oldest first.
    pub handed : List (ℕ × Outgoing)
    pub spawned : List Task

  -- The two channels are `mpsc::channel` of the sizes in the options.
  unfoldable pub new : S.Chan → C.Chan → Text → ClientOptions → ServerSender
  new status messages server_ip options = record {
    sx = none;
    server_sender = false;
    server_ip = server_ip;
    server_received_times = 0;
    status_tx = status;
    status_rx = true;
    buffers = record { channel = messages; spillover = [] };
    handle_message_rx = true;
    options = options;
    is_try_connect = false;
    is_scanning = false;
    metrics = Metrics.new;
    handed = [];
    spawned = [];
  }

  unfoldable pub get_status_receiver : ServerSender → Bool × ServerSender
  get_status_receiver s = (s.status_rx, record s { status_rx = false })

  unfoldable pub get_handle_message_receiver : ServerSender → Bool × ServerSender
  get_handle_message_receiver s = (s.handle_message_rx, record s { handle_message_rx = false })

  unfoldable pub regist : ServerSender → ServerSender
  regist s = record s { server_sender = true }

  abbrev pub spawn : Task → ServerSender → ServerSender
  spawn task s = record s { spawned = s.spawned ++ task ∷ [] }

  abbrev pub drop_old : Option ℕ → ServerSender → ServerSender
  drop_old none s = s
  drop_old (some sx) s = spawn (farewell sx s.server_ip) (record s { sx = none })

  unfoldable pub sx_drop : ServerSender → ServerSender
  sx_drop s = drop_old s.sx s

  unfoldable pub add : ℕ → Text → ServerSender → ServerSender
  unfolding sx_drop
  add sx server_ip s = record (sx_drop s) { sx = some sx; server_ip = server_ip }

  unfoldable pub remove_ip : ServerSender → ServerSender
  unfolding sx_drop
  remove_ip s = if is_empty s.server_ip then s else record (sx_drop s) { server_ip = [] }

  abbrev pub after_status : TrySend × S.Chan → ServerSender → Bool × ServerSender
  after_status (sent, c) s = (true, record s { status_tx = c })
  after_status (full, c) s =
      (false, record s { status_tx = c; metrics = Metrics.inc_messages_dropped s.metrics })
  after_status (closed, c) s =
      (false, record s { status_tx = c; metrics = Metrics.inc_messages_dropped s.metrics })

  unfoldable pub send_status : SenderStatus → ServerSender → Bool × ServerSender
  send_status status s = after_status (S.try_send s.status_tx status) s

  -- The trait's method discards the answer.
  unfoldable pub notify : SenderStatus → ServerSender → ServerSender
  unfolding send_status
  notify status s = (send_status status s).1

  abbrev count_dropped : Fate → Metrics → Metrics
  count_dropped dropped m = Metrics.inc_messages_dropped m
  count_dropped _ m = m

  -- The method of the trait, with the bytes that `data.serialize` gives.
  unfoldable pub send_handle_message : Text → ServerSender → ServerSender
  send_handle_message bytes s =
      let r = offer C s.options.spillover_buffer_size s.buffers bytes in
      record s {
        buffers = r.1;
        metrics = count_dropped r.0 (Metrics.inc_messages_received s.metrics);
      }

  abbrev redial : AtomicWebsocketType → ServerSender → ServerSender
  redial internal s = spawn (dial_internal s.server_ip s.options) s
  redial external s = spawn (dial_outer s.options) s

  -- What the retry loop's end does. A status that the channel has no room for is not counted.
  abbrev report : ℕ → Outgoing → Report → ServerSender → ServerSender
  report sx m r s =
      if r.was_sent
      then record s {
        handed = s.handed ++ (sx, m) ∷ [];
        metrics = Metrics.inc_messages_sent s.metrics;
      }
      else let s' = record s {
        status_tx = (S.try_send s.status_tx disconnected).1;
        metrics = Metrics.inc_send_errors s.metrics;
      } in
        if s.server_sender then redial s.options.atomic_websocket_type s' else s'

  abbrev finish : ℕ → Outgoing → Option Report → ServerSender → Option ServerSender
  finish sx m none s = none
  finish sx m (some r) s = some (report sx m r s)

  abbrev send_on : (ℕ → Reply) → Outgoing → Option ℕ → ServerSender → Option ServerSender
  send_on replies m none s = some s
  send_on replies m (some sx) s =
      let limit = limit_count s.options.retry_seconds in
      finish sx m (retry_loop (suc (suc limit)) replies (Retry.new 50 1 limit) 0) s

  -- `<RwServerSender as ServerSenderTrait>::send`; `none` is a call that does not return.
  unfoldable pub send : (ℕ → Reply) → Outgoing → ServerSender → Option ServerSender
  send replies m s = send_on replies m s.sx s

  unfoldable pub is_valid_server_ip : ℕ → ServerSender → Bool
  is_valid_server_ip now s =
      not (is_empty s.server_ip)
      && lt_i64 now (
          add64 s.server_received_times
            (mul64 (if s.options.retry_seconds == 0 then 1 else s.options.retry_seconds) 2))

  unfoldable pub write_received_times : ℕ → ServerSender → ServerSender
  write_received_times now s = record s { server_received_times = now }

  unfoldable pub is_need_connect : ServerSender → Bool
  is_need_connect s = not s.is_try_connect
