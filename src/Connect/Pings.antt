-- ===== src/Connect/Pings.antt =====
-- One round of `internal_ping_loop_cheker` and of `outer_ping_loop_cheker` of
-- src/helpers/internal_client.rs: the loop sleeps for `current_retry_seconds`, then does this round.
-- `now` and `now'` are the two readings of the clock.
use atomic_websocket.Base.{
  ℕ, ◌+◌, ◌*◌, ◌^◌, ◌≤◌, ◌<◌, min, max, ◌≡◌, refl, ◌⊎◌, inl, ◌↔◌, Text, Bool, ◌&&◌, ltb,
  if◌then◌else◌, Option, some, add64, mul64, lt_i64, arith,
}
use atomic_websocket.Runtime.Channel.{Channel}
use atomic_websocket.Runtime.Database.{Database}
use atomic_websocket.Schema.{Primitives}
use atomic_websocket.Metrics
use atomic_websocket.Message.{ping}
use atomic_websocket.Options.{ClientOptions, AtomicWebsocketType, internal, external}
use atomic_websocket.Store.{get_client_id}
use atomic_websocket.Sender.{
  Reply, SenderStatus, disconnected, reconnecting, reconnect_internal, reconnect_outer, Task,
  ServerSender, send,
}
use atomic_websocket.Sender
use atomic_websocket.Sender.Persist.{Session, remove_ip_if_valid_server_ip}
use atomic_websocket.Connect.{sender_status, spawn_task, with_sender}

-- What a round finds: no message for four periods, for two periods, or neither.
pub data Silence : Type 0 where
  dead quiet alive : Silence

abbrev pub base_retry : ClientOptions → ℕ
base_retry options = max options.retry_seconds 1

unfoldable pub silence : ℕ → ℕ → ClientOptions → ℕ → Silence
silence now now' options received =
    if lt_i64 0 received && lt_i64 (add64 received (mul64 (base_retry options) 4)) now
    then dead
    else if lt_i64 0 received && lt_i64 (add64 received (mul64 (base_retry options) 2)) now'
    then quiet
    else alive

-- `current_retry_seconds` after the round.
unfoldable pub next_retry : ClientOptions → Silence → ℕ → ℕ
next_retry options dead current = min (mul64 current 2) (mul64 (base_retry options) 8)
next_retry options quiet current = current
next_retry options alive current = base_retry options

module _ (S : Channel SenderStatus) (C : Channel Text) (D : Database) (P : Primitives) where
  abbrev pub forget : AtomicWebsocketType → Session S C D P → Session S C D P
  forget internal w = remove_ip_if_valid_server_ip S C D P w
  forget external w = record w { sender = Sender.remove_ip S C w.sender }

  abbrev pub reconnect : AtomicWebsocketType → ClientOptions → Task
  reconnect internal options = reconnect_internal options
  reconnect external options = reconnect_outer options

  abbrev pub count_reconnection : Session S C D P → Session S C D P
  count_reconnection w = record w {
    sender = record w.sender { metrics = Metrics.inc_reconnections w.sender.metrics };
  }

  -- The two loops differ in what they forget and which call they spawn.
  unfoldable pub ping_round :
      AtomicWebsocketType
      → (ℕ → Reply)
      → (Text → Bool)
      → ClientOptions
      → Silence
      → Session S C D P
      → Option (Session S C D P)
  ping_round kind replies is_utf8 options dead w =
      let w1 = sender_status S C D P disconnected w in
      let w2 = if options.use_keep_ip then w1 else forget kind w1 in
      some (
        spawn_task S C D P (reconnect kind options)
          (count_reconnection (sender_status S C D P reconnecting w2)))
  ping_round kind replies is_utf8 options quiet w =
      if options.use_ping
      then with_sender S C D P w (send S C replies (ping (get_client_id D is_utf8 w.db)) w.sender)
      else some w
  ping_round kind replies is_utf8 options alive w = some w

  unfoldable pub ping_loop_cheker :
      AtomicWebsocketType
      → ℕ
      → ℕ
      → (ℕ → Reply)
      → (Text → Bool)
      → ClientOptions
      → ℕ
      → Session S C D P
      → ℕ × Option (Session S C D P)
  ping_loop_cheker kind now now' replies is_utf8 options current w =
      let found = silence now now' options w.sender.server_received_times in
      (next_retry options found current, ping_round kind replies is_utf8 options found w)

-- The waits that a loop can reach: one, two, four or eight periods.
unfoldable pub IsWait : ClientOptions → ℕ → Type 0
IsWait options current =
    let r = base_retry options in
    (current ≡ r) ⊎ (current ≡ r * 2) ⊎ (current ≡ r * 4) ⊎ (current ≡ r * 8)

-- For `retry_seconds` below 2 ^ 60 the sleep between two rounds is one, two, four or eight periods:
-- no round leaves that set, whatever it finds, a dead connection never shortens the sleep, and it
-- is at least one second and at most eight periods.
pub next_retry-IsWait :
    (options : ClientOptions) (found : Silence) (current : ℕ)
    → options.retry_seconds < 2 ^ 60
    → IsWait options current
    → IsWait options (next_retry options found current)
      × (current ≤ next_retry options dead current)
      × (1 ≤ next_retry options found current)
      × (next_retry options found current ≤ 8 * max options.retry_seconds 1)
unfolding next_retry IsWait
next_retry-IsWait options dead current h w =
    (ground arith, ground arith, ground arith, ground arith)
next_retry-IsWait options quiet current h w = (w, ground arith, ground arith, ground arith)
next_retry-IsWait options alive current h w = (inl refl, ground arith, omega arith, omega arith)

late_lem :
    (received period d now : ℕ)
    → period ≡ d
    → now < 2 ^ 63
    → received < 2 ^ 62
    → d < 2 ^ 62
    → (lt_i64 0 received && lt_i64 (add64 received period) now)
      ≡ (ltb 0 received && ltb (received + d) now)
late_lem received period d now e a b c = ground arith

-- Within the range of the clock, and with both readings of it the same: a connection that has
-- received a message is dead after more than four periods of silence, and alive as long as there
-- are no more than two; one that never received any is left alone.
pub silence_lem :
    (now : ℕ) (options : ClientOptions) (received : ℕ)
    → now < 2 ^ 63
    → received < 2 ^ 62
    → options.retry_seconds < 2 ^ 59
    → let r = max options.retry_seconds 1 in
      ((silence now now options received ≡ dead) ↔ ((0 < received) × (received + 4 * r < now)))
      × ((silence now now options received ≡ alive) ↔ ((received ≡ 0) ⊎ (now ≤ received + 2 * r)))
unfolding silence
silence_lem now options received a b c =
    let r = max options.retry_seconds 1 in
    rw
      (
        late_lem received (mul64 r 4) (4 * r) now (omega arith) a b (omega arith),
        late_lem received (mul64 r 2) (2 * r) now (omega arith) a b (omega arith),
      )
      (ground arith, ground arith)
