-- ===== src/Scan/Tasks.antt =====
-- The tasks of a scan in every order: `run`, `run_with_timeout` and the tasks that `scan_network`
-- spawns, src/helpers/scan_manager.rs. The scan runs on one thread and its tasks on others, so that
-- any of them may take its next step; the two writes at the end of a task are one step.
pub mod Bounds
pub mod Lost
pub mod Membership
pub mod Stopped
use atomic_websocket.Base.{
  ℕ, suc, ◌+◌, ◌<◌, ◌≡◌, Text, text_eq, Bool, true, false, ◌||◌, Option, none, some, if◌then◌else◌,
  List, [], ◌∷◌, ◌++◌,
}
use atomic_websocket.Runtime.Table.{Table}
use atomic_websocket.Scan.{
  ConnectionState, ScanManager, Dial, is_connecting_allowed, get_scannable_ips, get_connected_ip,
  scan_network, task_waits, task_begin, task_end,
}

-- `contains` of a list of texts.
abbrev pub mem : Text → List Text → Bool
mem ip [] = false
mem ip (j ∷ js) = text_eq j ip || mem ip js

module _ (T : Table ConnectionState) where
  -- `run_with_timeout` once the time is over.
  unfoldable pub expire : ScanManager T → ScanManager T
  expire s = record s { stop_flag = true }

  -- What `scan_network` goes through, if the flag is not up.
  unfoldable pub scan_list : ScanManager T → List Text
  scan_list s = if s.stop_flag then [] else get_scannable_ips T s

  -- The loop of `scan_network` for one address: a task is spawned, or not.
  unfoldable pub spawned : Text → ScanManager T → List Text
  spawned ip s = if is_connecting_allowed T s ip then ip ∷ [] else []

  -- A task that is spawned goes on to wait for a permit, or not.
  abbrev pub still_waiting : Text → ScanManager T → List Text
  still_waiting ip s = if task_waits T s then ip ∷ [] else []

  -- A task that has its permit dials, or not.
  abbrev pub now_dialing : Text → Bool → List Text → List Text
  now_dialing ip dials d = if dials then ip ∷ d else d

  -- The scan, the addresses that `scan_network` has still to go through, the tasks that have yet to
  -- get a permit, those that dial, and what `run` has returned.
  pub record World : Type 0 where
    pub manager : ScanManager T
    pub listed : List Text
    pub waiting : List Text
    pub dialing : List Text
    pub found : Option (Text × ℕ)

  -- What a step does is the code's own functions; only whose turn it is are premises: the loop has
  -- not returned, and a permit is free.
  pub data Step : World → World → Type 0 where
    -- `run` looks for a connected address.
    look :
        (s : ScanManager T) (w d : List Text)
        → Step
            (record { manager = s; listed = []; waiting = w; dialing = d; found = none })
            (record {
              manager = record s { connection_states = (get_connected_ip T s.connection_states).1 };
              listed = [];
              waiting = w;
              dialing = d;
              found = (get_connected_ip T s.connection_states).0;
            })
    -- `scan_network` takes its list.
    list :
        (s : ScanManager T) (w d : List Text)
        → Step
            (record { manager = s; listed = []; waiting = w; dialing = d; found = none })
            (record { manager = s; listed = scan_list s; waiting = w; dialing = d; found = none })
    -- `scan_network` comes to the next address.
    spawn :
        (s : ScanManager T) (l w d : List Text) (ip : Text)
        → Step
            (record { manager = s; listed = ip ∷ l; waiting = w; dialing = d; found = none })
            (record {
              manager = s;
              listed = l;
              waiting = w ++ spawned ip s;
              dialing = d;
              found = none;
            })
    -- A task looks at the flag before it asks for a permit.
    check :
        (s : ScanManager T) (l front back d : List Text) (ip : Text) (f : Option (Text × ℕ))
        → Step
            (record {
              manager = s;
              listed = l;
              waiting = front ++ ip ∷ back;
              dialing = d;
              found = f;
            })
            (record {
              manager = s;
              listed = l;
              waiting = front ++ (still_waiting ip s ++ back);
              dialing = d;
              found = f;
            })
    -- A task gets a permit.
    start :
        (s : ScanManager T) (l front back d : List Text) (ip : Text) (f : Option (Text × ℕ))
        → 0 < s.permits
        → Step
            (record {
              manager = s;
              listed = l;
              waiting = front ++ ip ∷ back;
              dialing = d;
              found = f;
            })
            (record {
              manager = (task_begin T ip s).1;
              listed = l;
              waiting = front ++ back;
              dialing = now_dialing ip (task_begin T ip s).0 d;
              found = f;
            })
    -- The dial of a task ends.
    finish :
        (s : ScanManager T) (l w front back : List Text) (ip : Text) (dial : Dial)
        (f : Option (Text × ℕ))
        → Step
            (record {
              manager = s;
              listed = l;
              waiting = w;
              dialing = front ++ ip ∷ back;
              found = f;
            })
            (record {
              manager = task_end T ip dial s;
              listed = l;
              waiting = w;
              dialing = front ++ back;
              found = f;
            })
    time_is_over :
        (s : ScanManager T) (l w d : List Text) (f : Option (Text × ℕ))
        → Step
            (record { manager = s; listed = l; waiting = w; dialing = d; found = f })
            (record { manager = expire s; listed = l; waiting = w; dialing = d; found = f })

  pub data Steps : World → World → Type 0 where
    stop : (x : World) → Steps x x
    next : (x y z : World) → Step x y → Steps y z → Steps x z

  -- A scan before its first round.
  abbrev pub idle : ScanManager T → World
  idle s = record { manager = s; listed = []; waiting = []; dialing = []; found = none }
