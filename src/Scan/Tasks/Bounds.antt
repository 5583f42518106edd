-- ===== src/Scan/Tasks/Bounds.antt =====
-- What holds of a scan of src/helpers/scan_manager.rs whatever the order of its tasks: how many
-- addresses are dialed at once, and which.
use atomic_websocket.Base.{
  ℕ, ◌+◌, ◌-◌, ◌≡◌, refl, sym, ap, ◌∙◌, subst, Text, text_eq, text_eq→eq, Bool, true, false,
  if◌then◌else◌, if-false, Bool-cases, inl, inr, Option, none, some, List, ◌++◌, all, all-append,
  length, arith,
}
use atomic_websocket.Runtime.Table.{Table, get, lookup}
use atomic_websocket.Scan.{
  ConnectionState, ScanManager, get_connected_ip, start_connection, end_connection, ended,
  task_begin, task_waits, task_end, get_scannable_ips, check_connection, WebSocketStatus,
}
use atomic_websocket.Scan.Subnet.{with_concurrency, manager}
use atomic_websocket.Scan.Handover.{Handover, nothing, handed, get_connected_ip-Handover}
use atomic_websocket.Scan.Tasks.Membership.{all-middle, all-filter, all-mem, length-middle}
use atomic_websocket.Scan.Tasks.{
  mem, World, Step, look, list, spawn, check, start, finish, time_is_over, Steps, stop, next, idle,
  expire, scan_list, spawned, still_waiting,
}

-- An address that was found is one of the scan's.
abbrev pub FoundIn : List Text → Option (Text × ℕ) → Type 0
FoundIn ips none = Unit {0}
FoundIn ips (some (ip, ws)) = mem ip ips ≡ true

none-ne-some : (c : ConnectionState) → none ≡ some c → ⊥
none-ne-some c e = cc

module _ (T : Table ConnectionState) where
  -- Every address that has an entry is one of the scan's.
  abbrev KeysIn : List Text → T.Map → Type 0
  KeysIn ips m = (ip : Text) (c : ConnectionState) → get T m ip ≡ some c → mem ip ips ≡ true

  insert-KeysIn :
      (ips : List Text) (m m' : T.Map) (ip : Text) (o : Option ConnectionState)
      → KeysIn ips m
      → mem ip ips ≡ true
      → ((j : Text) → get T m' j ≡ (if text_eq ip j then o else get T m j))
      → KeysIn ips m'
  insert-KeysIn ips m m' ip o k h at j c e = elim (Bool-cases (text_eq ip j)) [
    | inl same ↦ subst (λ i. mem i ips ≡ true) (text_eq→eq ip j same) h
    | inr other ↦ k j c (sym (at j ∙ if-false _ _ _ other) ∙ e)
  ]

  start_connection-KeysIn :
      (ips : List Text) (m : T.Map) (ip : Text)
      → KeysIn ips m
      → mem ip ips ≡ true
      → KeysIn ips (start_connection T ip m)
  unfolding start_connection
  start_connection-KeysIn ips m ip k h = insert-KeysIn ips m _ ip _ k h (λ j. T.get-insert m ip _ j)

  ended-KeysIn :
      (ips : List Text) (m : T.Map) (ip : Text) (status : WebSocketStatus × Option ℕ)
      (o : Option ConnectionState)
      → KeysIn ips m
      → mem ip ips ≡ true
      → KeysIn ips (ended T ip status o m)
  ended-KeysIn ips m ip status none k h = k
  ended-KeysIn ips m ip status (some c) k h =
      insert-KeysIn ips m _ ip _ k h (λ j. T.get-insert m ip _ j)

  looked :
      (ips : List Text) (m : T.Map)
      → KeysIn ips m
      → KeysIn ips (get_connected_ip T m).1 × FoundIn ips (get_connected_ip T m).0
  looked ips m k = go (get_connected_ip-Handover T m)
    where
      go : {r : Option (Text × ℕ) × T.Map} → Handover T m r → KeysIn ips r.1 × FoundIn ips r.0
      go (nothing c e) = rw e (k, tt)
      go (handed ip ws c connected at status stream e keep) =
          let h = k ip c at in (insert-KeysIn ips m _ ip _ k h keep, rw e h)

  pub task_begin_lem :
      (s : ScanManager T) (ip : Text)
      → s.stop_flag ≡ false
      → (task_begin T ip s).1 ≡ record s {
        connection_states = start_connection T ip s.connection_states;
        permits = s.permits - 1;
      }
  unfolding task_begin
  task_begin_lem s ip h = ap (λ (r : Bool × ScanManager T). r.1) (if-false _ _ _ h)

  -- `max_concurrent` permits in all; what is waited for, dialed, entered or found is in the scan.
  record IsBounded (max_concurrent : ℕ) (ips : List Text) (x : World T) : Type 0 where
    permits : x.manager.permits + length x.dialing ≡ max_concurrent
    scan_ips : x.manager.scan_ips ≡ ips
    listed : all (λ ip. mem ip ips) x.listed ≡ true
    waiting : all (λ ip. mem ip ips) x.waiting ≡ true
    dialing : all (λ ip. mem ip ips) x.dialing ≡ true
    entries : KeysIn ips x.manager.connection_states
    found : FoundIn ips x.found

  module _ (max_concurrent : ℕ) (ips : List Text) where
    abbrev In : List Text → Type 0
    In xs = all (λ ip. mem ip ips) xs ≡ true

    In-append : (xs ys : List Text) → In xs → In ys → In (xs ++ ys)
    In-append xs ys h k = all-append (λ ip. mem ip ips) xs ys ∙ ground (arith, h, k)

    scan_list-In : (s : ScanManager T) → s.scan_ips ≡ ips → In (scan_list T s)
    unfolding scan_list get_scannable_ips
    scan_list-In s e = elim (Bool-cases s.stop_flag) as (λ _. In (scan_list T s)) [
      | inl up ↦ rw up refl
      | inr down ↦ rw (down, e) (all-filter _ _ ips (all-mem ips ips (λ j h. h)))
    ]

    Step-IsBounded :
        (x y : World T)
        → Step T x y
        → IsBounded max_concurrent ips x
        → IsBounded max_concurrent ips y
    unfolding expire task_end end_connection scan_list spawned task_begin task_waits
    Step-IsBounded _ _ (look s w d) b =
        let (entries, found) = looked ips s.connection_states b.entries in
        record {
          permits = b.permits;
          scan_ips = b.scan_ips;
          listed = refl;
          waiting = b.waiting;
          dialing = b.dialing;
          entries = entries;
          found = found;
        }
    Step-IsBounded _ _ (list s w d) b = record {
      permits = b.permits;
      scan_ips = b.scan_ips;
      listed = scan_list-In s b.scan_ips;
      waiting = b.waiting;
      dialing = b.dialing;
      entries = b.entries;
      found = tt;
    }
    Step-IsBounded _ _ (spawn s l w d ip) b =
        let i : (mem ip ips ≡ true) × (all (λ j. mem j ips) l ≡ true) = ground (arith, b.listed) in
        record {
          permits = b.permits;
          scan_ips = b.scan_ips;
          listed = i.1;
          waiting = In-append w _ b.waiting (ground (arith, i.0));
          dialing = b.dialing;
          entries = b.entries;
          found = tt;
        }
    Step-IsBounded _ _ (check s l front back d ip f) b =
        let (i, rest) = all-middle (λ j. mem j ips) front back ip b.waiting in
        record {
          permits = b.permits;
          scan_ips = b.scan_ips;
          listed = b.listed;
          waiting =
              elim (Bool-cases (task_waits T s))
                as (λ _. In (front ++ (still_waiting T ip s ++ back))) [
                  | inl on ↦ rw on b.waiting
                  | inr off ↦ rw off rest
                ];
          dialing = b.dialing;
          entries = b.entries;
          found = b.found;
        }
    Step-IsBounded _ _ (start s l front back d ip f p) b =
        let (i, rest) = all-middle (λ j. mem j ips) front back ip b.waiting in
        record {
          permits = ground (arith, b.permits, p);
          scan_ips = ground (arith, b.scan_ips);
          listed = b.listed;
          waiting = rest;
          dialing = ground (arith, i, b.dialing);
          entries = elim (Bool-cases s.stop_flag) [
            | inl up ↦ rw up b.entries
            | inr down ↦ rw down (start_connection-KeysIn ips s.connection_states ip b.entries i)
          ];
          found = b.found;
        }
    Step-IsBounded _ _ (finish s l w front back ip dial f) b =
        let (i, rest) = all-middle (λ j. mem j ips) front back ip b.dialing in
        record {
          permits = omega (arith, b.permits, length-middle front back ip);
          scan_ips = b.scan_ips;
          listed = b.listed;
          waiting = b.waiting;
          dialing = rest;
          entries = ended-KeysIn ips s.connection_states ip (check_connection dial) _ b.entries i;
          found = b.found;
        }
    Step-IsBounded _ _ (time_is_over s l w d f) b = record {
      permits = b.permits;
      scan_ips = b.scan_ips;
      listed = b.listed;
      waiting = b.waiting;
      dialing = b.dialing;
      entries = b.entries;
      found = b.found;
    }

    Steps-IsBounded :
        (x y : World T)
        → Steps T x y
        → IsBounded max_concurrent ips x
        → IsBounded max_concurrent ips y
    Steps-IsBounded x _ (stop _) b = b
    Steps-IsBounded x z (next _ y _ s rest) b = Steps-IsBounded y z rest (Step-IsBounded x y s b)

  idle-IsBounded :
      (s : ScanManager T)
      → s.connection_states ≡ T.empty
      → IsBounded s.permits s.scan_ips (idle T s)
  idle-IsBounded s e = record {
    permits = omega arith;
    scan_ips = refl;
    listed = refl;
    waiting = refl;
    dialing = refl;
    entries = λ ip c h.
        absurd (none-ne-some c (sym (ap (λ m. get T m ip) e ∙ ap (lookup ip) T.iter-empty) ∙ h));
    found = tt;
  }

  manager_parts :
      (max_concurrent : ℕ) (o : Option (List Text)) (s : ScanManager T)
      → manager T max_concurrent o ≡ some s
      → (s.permits ≡ max_concurrent) × (s.connection_states ≡ T.empty)
  manager_parts max_concurrent none s e = cc
  manager_parts max_concurrent (some ips) s e = (ground (arith, e), ground (arith, e))

  -- However the rounds of a scan and its tasks take turns, and however the dials end: at most
  -- `max_concurrent` addresses are dialed at once, as permits and dials always add up to it, every
  -- address that is dialed is one of the scan's, and so is the one that the scan returns.
  pub Steps-idle :
      (ip port : Text) (max_concurrent : ℕ) (s : ScanManager T) (x : World T)
      → with_concurrency T ip port max_concurrent ≡ some s
      → Steps T (idle T s) x
      → (x.manager.permits + length x.dialing ≡ max_concurrent)
        × (all (λ j. mem j s.scan_ips) x.dialing ≡ true)
        × FoundIn s.scan_ips x.found
  unfolding with_concurrency
  Steps-idle ip port max_concurrent s x e steps =
      let (permits, empty) = manager_parts max_concurrent _ s e in
      let b = Steps-IsBounded s.permits s.scan_ips (idle T s) x steps (idle-IsBounded s empty) in
      (b.permits ∙ permits, b.dialing, b.found)
