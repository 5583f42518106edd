-- ===== src/Scan.antt =====
-- src/helpers/scan_manager.rs and src/helpers/traits/connection_state.rs: the search for a server on
-- the subnet. A stream is a number of its own; how a dial ends is an argument. The task of an address
-- is two definitions, before and after its dial, and other tasks may run in between.
pub mod Handover
pub mod Subnet
pub mod Tasks
use atomic_websocket.Base.{
  ℕ, suc, ◌-◌, Text, Bool, true, false, not, ◌&&◌, if◌then◌else◌, Option, none, some, is_some, List,
  [], ◌∷◌, filter,
}
use atomic_websocket.Runtime.Table.{Table, get}

pub data WebSocketStatus : Type 0 where
  connecting connected connection_refused timeout : WebSocketStatus

pub record ConnectionState : Type 0 where
  pub status : WebSocketStatus
  pub is_connecting : Bool
  pub ws_stream : Option ℕ

abbrev pub is_status_connected : WebSocketStatus → Bool
is_status_connected connected = true
is_status_connected _ = false

-- The test of the closures in `is_connected` and `get_connected_ip`.
abbrev pub is_open : ConnectionState → Bool
is_open c = is_status_connected c.status && is_some c.ws_stream

abbrev pub any_open : List (Text × ConnectionState) → Bool
any_open [] = false
any_open ((ip, c) ∷ es) = if is_open c then true else any_open es

-- `iter().find(..).map(..)`.
abbrev pub find_open : List (Text × ConnectionState) → Option Text
find_open [] = none
find_open ((ip, c) ∷ es) = if is_open c then some ip else find_open es

-- How `connect_async` under its timeout of ten seconds ends.
pub data Dial : Type 0 where
  opened : ℕ → Dial
  refused other_error timed_out : Dial

unfoldable pub check_connection : Dial → WebSocketStatus × Option ℕ
check_connection (opened ws) = (connected, some ws)
check_connection refused = (connection_refused, none)
check_connection other_error = (timeout, none)
check_connection timed_out = (timeout, none)

module _ (T : Table ConnectionState) where
  unfoldable pub start_connection : Text → T.Map → T.Map
  start_connection server_ip m =
      T.insert m server_ip (record { status = connecting; is_connecting = true; ws_stream = none })

  abbrev pub ended : Text → WebSocketStatus × Option ℕ → Option ConnectionState → T.Map → T.Map
  ended server_ip status none m = m
  ended server_ip status (some c) m =
      T.insert m server_ip
        (record { status = status.0; is_connecting = false; ws_stream = status.1 })

  unfoldable pub end_connection : Text → WebSocketStatus × Option ℕ → T.Map → T.Map
  end_connection server_ip status m = ended server_ip status (get T m server_ip) m

  abbrev pub take_stream : Text → ConnectionState → Option ℕ → T.Map → Option (Text × ℕ) × T.Map
  take_stream ip c none m = (none, m)
  take_stream ip c (some ws) m = (some (ip, ws), T.insert m ip (record c { ws_stream = none }))

  abbrev pub take_entry : Text → Option ConnectionState → T.Map → Option (Text × ℕ) × T.Map
  take_entry ip none m = (none, m)
  take_entry ip (some c) m = take_stream ip c c.ws_stream m

  abbrev pub take_found : Option Text → T.Map → Option (Text × ℕ) × T.Map
  take_found none m = (none, m)
  take_found (some ip) m = take_entry ip (get T m ip) m

  unfoldable pub get_connected_ip : T.Map → Option (Text × ℕ) × T.Map
  get_connected_ip m = take_found (find_open (T.iter m)) m

  unfoldable pub is_connected : T.Map → Bool
  is_connected m = any_open (T.iter m)

  pub record ScanManager : Type 0 where
    pub scan_ips : List Text
    pub connection_states : T.Map
    -- The free permits of the semaphore.
    pub permits : ℕ
    pub stop_flag : Bool

  abbrev pub busy : Option ConnectionState → Bool
  busy none = false
  busy (some c) = c.is_connecting

  unfoldable pub is_connecting_allowed : ScanManager → Text → Bool
  is_connecting_allowed s server_ip =
      not s.stop_flag
      && not (busy (get T s.connection_states server_ip))
      && not (is_connected s.connection_states)

  unfoldable pub get_scannable_ips : ScanManager → List Text
  get_scannable_ips s =
      filter (λ server_ip. not (busy (get T s.connection_states server_ip))) s.scan_ips

  -- The addresses for which `scan_network` spawns a task, if no task runs in between.
  unfoldable pub scan_network : ScanManager → List Text
  scan_network s =
      if s.stop_flag then [] else filter (is_connecting_allowed s) (get_scannable_ips s)

  -- A task before it asks for its permit: it returns where the flag is up.
  unfoldable pub task_waits : ScanManager → Bool
  task_waits s = not s.stop_flag

  -- A task once it has its permit, and whether it goes on to dial: where the flag is up, it returns
  -- and the permit is released.
  unfoldable pub task_begin : Text → ScanManager → Bool × ScanManager
  task_begin server_ip s = if s.stop_flag then (false, s) else (
    true,
    record s {
      connection_states = start_connection server_ip s.connection_states;
      permits = s.permits - 1;
    },
  )

  -- A task after its dial; the permit is released.
  unfoldable pub task_end : Text → Dial → ScanManager → ScanManager
  task_end server_ip dial s =
      let status = check_connection dial in
      record s {
        connection_states = end_connection server_ip status s.connection_states;
        permits = suc s.permits;
        stop_flag = if is_status_connected status.0 then true else s.stop_flag;
      }
