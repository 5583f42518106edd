-- ===== src/Scan/Tasks/Lost.antt =====
-- Two tasks for one address, src/helpers/scan_manager.rs: the second one can lose the stream of the
-- first.
use atomic_websocket.Base.{
  ℕ, ◌≡◌, refl, sym, ap, ◌∙◌, Text, text_eq, text_eq_refl, true, false, if◌then◌else◌, if-true,
  if-false, Bool-cases, Option-cases, inl, inr, is_some, Option, none, some, List, [], arith,
}
use atomic_websocket.Runtime.Table.{Table, get}
use atomic_websocket.Scan.{
  ConnectionState, WebSocketStatus, connected, ScanManager, Dial, opened, is_open, any_open,
  find_open, is_connected, is_connecting_allowed, start_connection, end_connection, ended,
  task_begin, task_end, check_connection, is_status_connected,
}
use atomic_websocket.Scan.Handover.{any_open_lem, find_open-Found, lookup-any_open, opened_open}
use atomic_websocket.Scan.Tasks.Bounds.{task_begin_lem}
use atomic_websocket.Scan.Tasks.{World, Steps}
use atomic_websocket.Scan.Tasks.Stopped.{Steps-IsBarren}

module _ (T : Table ConnectionState) where
  -- No address is connected in `m'`, if none is in `m` and the tables differ in an entry that is not
  -- open.
  closed_insert :
      (m m' : T.Map) (ip : Text) (c : ConnectionState)
      → is_connected T m ≡ false
      → is_open c ≡ false
      → ((j : Text) → get T m' j ≡ (if text_eq ip j then some c else get T m j))
      → is_connected T m' ≡ false
  unfolding is_connected
  closed_insert m m' ip c h shut at = elim (Option-cases (find_open (T.iter m'))) [
    | inl e ↦ any_open_lem (T.iter m') ∙ ap is_some e
    | inr (j, e) ↦
        let f = find_open-Found (T.iter m') j (T.iter-NodupKeys m') e in
        let open_entry : is_open f.entry ≡ true = ground (arith, f.status, f.stream) in
        elim (Bool-cases (text_eq ip j)) [
          | inl same ↦
              let it : some c ≡ some f.entry = sym (if-true _ _ _ same) ∙ sym (at j) ∙ f.at in
              let it' : c ≡ f.entry = cc in
              absurd (let no : is_open f.entry ≡ false = ap is_open (sym it') ∙ shut in cc)
          | inr other ↦
              let was : get T m j ≡ some f.entry = sym (if-false _ _ _ other) ∙ sym (at j) ∙ f.at in
              absurd (
                let no : any_open (T.iter m) ≡ true =
                  lookup-any_open (T.iter m) j f.entry was open_entry in
                cc)
        ]
  ]

  end_connection-get :
      (m : T.Map) (ip : Text) (status : WebSocketStatus × Option ℕ) (c : ConnectionState)
      → get T m ip ≡ some c
      → (j : Text)
      → get T (end_connection T ip status m) j ≡ (
          if text_eq ip j
          then some (record { status = status.0; is_connecting = false; ws_stream = status.1 })
          else get T m j)
  unfolding end_connection
  end_connection-get m ip status c e j =
      ap (λ o. get T (ended T ip status o m) j) e ∙ T.get-insert m ip _ j

  -- The entries once two tasks for one address have begun, and ended one after the other.
  lost_states : ScanManager T → Text → Dial → Dial → T.Map
  lost_states s ip first second = end_connection T ip (check_connection second) (
      end_connection T ip (check_connection first)
        (start_connection T ip (start_connection T ip s.connection_states)))

  lost_states-get :
      (s : ScanManager T) (ip : Text) (first second : Dial) (j : Text)
      → get T (lost_states s ip first second) j ≡ (
          if text_eq ip j
          then some (record {
            status = (check_connection second).0;
            is_connecting = false;
            ws_stream = (check_connection second).1;
          })
          else get T s.connection_states j)
  unfolding lost_states start_connection
  lost_states-get s ip first second j =
      let m0 = s.connection_states in
      let m1 = start_connection T ip m0 in
      let m2 = start_connection T ip m1 in
      let m3 = end_connection T ip (check_connection first) m2 in
      let self = text_eq_refl ip in
      let g2 = T.get-insert m1 ip _ ip ∙ if-true _ _ _ self in
      let g3 = end_connection-get m2 ip (check_connection first) _ g2 ip ∙ if-true _ _ _ self in
      end_connection-get m3 ip (check_connection second) _ g3 j ∙ elim (Bool-cases (text_eq ip j)) [
        | inl e ↦ if-true _ _ _ e ∙ sym (if-true _ _ _ e)
        | inr e ↦
            if-false _ _ _ e
            ∙ end_connection-get m2 ip (check_connection first) _ g2 j
            ∙ if-false _ _ _ e
            ∙ T.get-insert m1 ip _ j
            ∙ if-false _ _ _ e
            ∙ T.get-insert m0 ip _ j
            ∙ if-false _ _ _ e
            ∙ sym (if-false _ _ _ e)
      ]

  lost_states-shut :
      (s : ScanManager T) (ip : Text) (first second : Dial)
      → (check_connection second).1 ≡ none
      → is_connected T s.connection_states ≡ false
      → is_connected T (lost_states s ip first second) ≡ false
  lost_states-shut s ip first second e h =
      closed_insert s.connection_states _ ip _ h (ground (arith, e))
        (lost_states-get s ip first second)

  begun_twice :
      (s : ScanManager T) (ip : Text)
      → s.stop_flag ≡ false
      → (task_begin T ip (task_begin T ip s).1).1.connection_states
        ≡ start_connection T ip (start_connection T ip s.connection_states)
  begun_twice s ip idle =
      let first = task_begin_lem T s ip idle in
      let still = ap (λ (t : ScanManager T). t.stop_flag) first ∙ idle in
      ap (λ (t : ScanManager T). t.connection_states)
        (task_begin_lem T (task_begin T ip s).1 ip still)
      ∙ ap (λ (t : ScanManager T). start_connection T ip t.connection_states) first

  flag_up : (status : WebSocketStatus) → (if is_status_connected status then true else true) ≡ true
  flag_up connected = refl
  flag_up _ = refl

  -- Where two tasks have begun for one address, and a task is allowed for it until one has begun,
  -- the second one to end replaces what the first one left: if the first dial opened a stream and
  -- the second fails, the stream is gone, though the address had been connected. The stop flag stays
  -- up. So if no other dial is under way then, whatever tasks wait and however the scan and its tasks
  -- go on, no dial ever begins and the scan never finds an address: it can only time out.
  pub second_dial_loses :
      (s : ScanManager T) (ip : Text) (ws : ℕ) (second : Dial) (listed waiting : List Text)
      (y : World T)
      → is_connecting_allowed T s ip ≡ true
      → (check_connection second).1 ≡ none
      → let once = task_end T ip (opened ws) (task_begin T ip (task_begin T ip s).1).1 in
        Steps T
          (record {
            manager = task_end T ip second once;
            listed = listed;
            waiting = waiting;
            dialing = [];
            found = none;
          })
          y
        → (is_connected T once.connection_states ≡ true)
          × (y.found ≡ none)
          × (y.dialing ≡ [])
          × (y.manager.stop_flag ≡ true)
          × (is_connected T y.manager.connection_states ≡ false)
  unfolding task_end is_connecting_allowed lost_states check_connection
  second_dial_loses s ip ws second listed waiting y allowed e steps =
      let m = start_connection T ip (start_connection T ip s.connection_states) in
      let idle : s.stop_flag ≡ false = ground (arith, allowed) in
      let shut : is_connected T s.connection_states ≡ false = ground (arith, allowed) in
      let both = begun_twice s ip idle in
      let once = ap (end_connection T ip (connected, some ws)) both in
      let lost = ap (end_connection T ip (check_connection second)) once in
      let gone = ap (is_connected T) lost ∙ lost_states-shut s ip (opened ws) second e shut in
      let b = Steps-IsBarren T _ y steps (record {
        flag = flag_up ((check_connection second).0);
        shut = gone;
        dialing = refl;
        found = refl;
      }) in
      (
        ap (is_connected T) once ∙ opened_open T (start_connection T ip s.connection_states) ip ws,
        b.found,
        b.dialing,
        b.flag,
        b.shut,
      )
