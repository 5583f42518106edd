-- ===== src/Scan/Tasks/Stopped.antt =====
-- The end of a scan of src/helpers/scan_manager.rs: its tasks once the stop flag is up.
use atomic_websocket.Base.{
  ℕ, suc, ◌+◌, ◌≤◌, ◌≡◌, refl, sym, ap, ◌∙◌, Text, text_eq, Bool, true, false, if◌then◌else◌,
  if-true, Bool-cases, inl, inr, Option, none, List, [], ◌∷◌, ◌++◌, arith,
}
use atomic_websocket.Runtime.Table.{Table}
use atomic_websocket.Scan.{
  ConnectionState, ScanManager, get_connected_ip, is_connected, is_connecting_allowed, task_begin,
  task_waits, task_end, check_connection, is_status_connected,
}
use atomic_websocket.Scan.Handover.{Handover, nothing, handed, get_connected_ip-Handover}
use atomic_websocket.Scan.Tasks.{
  World, Step, look, list, spawn, check, start, finish, time_is_over, Steps, stop, next, expire,
  spawned, still_waiting, now_dialing,
}

-- How often an address stands in a list.
abbrev pub count : Text → List Text → ℕ
count ip [] = 0
count ip (j ∷ js) = if text_eq j ip then suc (count ip js) else count ip js

count-append : (ip : Text) (xs ys : List Text) → count ip (xs ++ ys) ≡ count ip xs + count ip ys
count-append ip [] ys = omega arith
count-append ip (x ∷ xs) ys = ground (arith, count-append ip xs ys)

-- An element taken out of the middle.
count-middle :
    (ip j : Text) (front back : List Text) → count ip (front ++ back) ≤ count ip (front ++ j ∷ back)
count-middle ip j front back =
    ground (arith, count-append ip front back, count-append ip front (j ∷ back))

module _ (T : Table ConnectionState) where
  -- Nothing begins between two states of a scan.
  record Falls (x y : World T) : Type 0 where
    flag : y.manager.stop_flag ≡ true
    waiting : (ip : Text) → count ip y.waiting ≤ count ip x.waiting
    dialing : (ip : Text) → count ip y.dialing ≤ count ip x.dialing

  begin_denied :
      (s : ScanManager T) (ip : Text) → s.stop_flag ≡ true → task_begin T ip s ≡ (false, s)
  unfolding task_begin
  begin_denied s ip up = if-true _ _ _ up

  spawned-none : (s : ScanManager T) (ip : Text) → s.stop_flag ≡ true → spawned T ip s ≡ []
  unfolding spawned is_connecting_allowed
  spawned-none s ip up = rw up refl

  still_waiting-none :
      (s : ScanManager T) (ip : Text) → s.stop_flag ≡ true → still_waiting T ip s ≡ []
  unfolding task_waits
  still_waiting-none s ip up = rw up refl

  Step-Falls : (x y : World T) → Step T x y → x.manager.stop_flag ≡ true → Falls x y
  unfolding expire task_end
  Step-Falls _ _ (look s w d) up = record {
    flag = up;
    waiting = λ ip. omega arith;
    dialing = λ ip. omega arith;
  }
  Step-Falls _ _ (list s w d) up = record {
    flag = up;
    waiting = λ ip. omega arith;
    dialing = λ ip. omega arith;
  }
  Step-Falls _ _ (spawn s l w d ip) up = record {
    flag = up;
    waiting = λ j.
        let same = ap (λ xs. count j (w ++ xs)) (spawned-none s ip up) in
        omega (arith, same, count-append j w []);
    dialing = λ j. omega arith;
  }
  Step-Falls _ _ (check s l front back d ip f) up = record {
    flag = up;
    waiting = λ j.
        let same = ap (λ xs. count j (front ++ (xs ++ back))) (still_waiting-none s ip up) in
        omega (arith, same, count-middle j ip front back);
    dialing = λ j. omega arith;
  }
  Step-Falls _ _ (start s l front back d ip f p) up = record {
    flag = ap (λ (r : Bool × ScanManager T). r.1.stop_flag) (begin_denied s ip up) ∙ up;
    waiting = λ j. count-middle j ip front back;
    dialing = λ j.
        let same =
          ap (λ (r : Bool × ScanManager T). count j (now_dialing T ip r.0 d))
            (begin_denied s ip up) in
        omega (arith, same);
  }
  Step-Falls _ _ (finish s l w front back ip dial f) up = record {
    flag = elim (Bool-cases (is_status_connected (check_connection dial).0)) [
      | inl h ↦ if-true _ _ _ h
      | inr h ↦ rw h up
    ];
    waiting = λ j. omega arith;
    dialing = λ j. count-middle j ip front back;
  }
  Step-Falls _ _ (time_is_over s l w d f) up = record {
    flag = refl;
    waiting = λ ip. omega arith;
    dialing = λ ip. omega arith;
  }

  Steps-Falls : (x y : World T) → Steps T x y → x.manager.stop_flag ≡ true → Falls x y
  Steps-Falls x _ (stop _) up = record {
    flag = up;
    waiting = λ ip. omega arith;
    dialing = λ ip. omega arith;
  }
  Steps-Falls x z (next _ y _ s rest) up =
      let a = Step-Falls x y s up in
      let b = Steps-Falls y z rest a.flag in
      record {
        flag = b.flag;
        waiting = λ ip. omega (arith, a.waiting ip, b.waiting ip);
        dialing = λ ip. omega (arith, a.dialing ip, b.dialing ip);
      }

  -- Once the stop flag is up, by the time limit or by a dial that connected, it stays up, and however
  -- the scan and its tasks go on, no address has more tasks that wait or more dials at a later point
  -- than at an earlier one. So from then on no task is spawned and no dial begins: a task that gets
  -- its permit returns, and the dials that are under way can only end.
  pub Steps-stopped :
      (x y : World T)
      → x.manager.stop_flag ≡ true
      → Steps T x y
      → (y.manager.stop_flag ≡ true)
        × ((ip : Text) → count ip y.waiting ≤ count ip x.waiting)
        × ((ip : Text) → count ip y.dialing ≤ count ip x.dialing)
  Steps-stopped x y up steps = let f = Steps-Falls x y steps up in (f.flag, f.waiting, f.dialing)

  -- The scan can find nothing any more.
  pub record IsBarren (x : World T) : Type 0 where
    pub flag : x.manager.stop_flag ≡ true
    pub shut : is_connected T x.manager.connection_states ≡ false
    pub dialing : x.dialing ≡ []
    pub found : x.found ≡ none

  middle-not-empty : (front back : List Text) (ip : Text) → front ++ ip ∷ back ≡ [] → ⊥
  middle-not-empty [] back ip e = cc
  middle-not-empty (j ∷ front) back ip e = cc

  look_shut : (m : T.Map) → is_connected T m ≡ false → get_connected_ip T m ≡ (none, m)
  look_shut m h = go (get_connected_ip-Handover T m)
    where
      go : {r : Option (Text × ℕ) × T.Map} → Handover T m r → r ≡ (none, m)
      go (nothing shut e) = e
      go (handed ip ws c at there status stream e keep) =
          absurd (let no : true ≡ false = sym at ∙ h in cc)

  Step-IsBarren : (x y : World T) → Step T x y → IsBarren x → IsBarren y
  unfolding expire
  Step-IsBarren _ _ (look s w d) b =
      let r = look_shut s.connection_states b.shut in
      record {
        flag = b.flag;
        shut = ap (λ (r : Option (Text × ℕ) × T.Map). is_connected T r.1) r ∙ b.shut;
        dialing = b.dialing;
        found = ap (λ (r : Option (Text × ℕ) × T.Map). r.0) r;
      }
  Step-IsBarren _ _ (list s w d) b = record {
    flag = b.flag;
    shut = b.shut;
    dialing = b.dialing;
    found = refl;
  }
  Step-IsBarren _ _ (spawn s l w d ip) b = record {
    flag = b.flag;
    shut = b.shut;
    dialing = b.dialing;
    found = refl;
  }
  Step-IsBarren _ _ (check s l front back d ip f) b = record {
    flag = b.flag;
    shut = b.shut;
    dialing = b.dialing;
    found = b.found;
  }
  Step-IsBarren _ _ (start s l front back d ip f p) b =
      let denied = begin_denied s ip b.flag in
      record {
        flag = ap (λ (r : Bool × ScanManager T). r.1.stop_flag) denied ∙ b.flag;
        shut =
            ap (λ (r : Bool × ScanManager T). is_connected T r.1.connection_states) denied ∙ b.shut;
        dialing = ap (λ (r : Bool × ScanManager T). now_dialing T ip r.0 d) denied ∙ b.dialing;
        found = b.found;
      }
  Step-IsBarren _ _ (finish s l w front back ip dial f) b =
      absurd (middle-not-empty front back ip b.dialing)
  Step-IsBarren _ _ (time_is_over s l w d f) b = record {
    flag = refl;
    shut = b.shut;
    dialing = b.dialing;
    found = b.found;
  }

  pub Steps-IsBarren : (x y : World T) → Steps T x y → IsBarren x → IsBarren y
  Steps-IsBarren x _ (stop _) b = b
  Steps-IsBarren x z (next _ y _ s rest) b = Steps-IsBarren y z rest (Step-IsBarren x y s b)
