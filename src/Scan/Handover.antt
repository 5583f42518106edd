-- ===== src/Scan/Handover.antt =====
-- What a scan of src/helpers/scan_manager.rs finds, and that it hands each stream over once.
use atomic_websocket.Base.{
  ℕ, suc, ◌≡◌, refl, sym, ap, ◌∙◌, Text, text_eq, text_eq→eq, text_eq_refl, Bool, true, false, ◌&&◌,
  if◌then◌else◌, if-true, Bool-cases, Option-cases, if-false, ◌≤◌, inl, inr, Option, none, some,
  is_some, List, [], ◌∷◌, arith,
}
use atomic_websocket.Runtime.Table.{Table, get, lookup, NodupKeys}
use atomic_websocket.Scan.{
  WebSocketStatus, ConnectionState, is_status_connected, connected, is_open, any_open, find_open,
  take_entry, take_stream, take_found, get_connected_ip, is_connected, start_connection,
  end_connection, ended, ScanManager, opened, check_connection, scan_network, task_begin, task_end,
}

pub any_open_lem : (es : List (Text × ConnectionState)) → any_open es ≡ is_some (find_open es)
any_open_lem [] = refl
any_open_lem ((ip, c) ∷ es) = elim (Bool-cases (is_open c)) [
  | inl h ↦ rw h refl
  | inr h ↦ rw h (any_open_lem es)
]

-- What stands under the address that is found.
pub record Found (es : List (Text × ConnectionState)) (ip : Text) : Type 0 where
  pub entry : ConnectionState
  pub ws : ℕ
  pub at : lookup ip es ≡ some entry
  pub status : entry.status ≡ connected
  pub stream : entry.ws_stream ≡ some ws

open_parts :
    (status : WebSocketStatus) (stream : Option ℕ)
    → (is_status_connected status && is_some stream) ≡ true
    → (status ≡ connected) × ((ws : ℕ) × (stream ≡ some ws))
open_parts connected (some ws) h = (refl, (ws, refl))
open_parts connected none h = cc
open_parts _ stream h = cc

first_hit :
    (j ip : Text) (c : ConnectionState) (es : List (Text × ConnectionState))
    → is_open c ≡ true
    → j ≡ ip
    → Found ((j, c) ∷ es) ip
first_hit j ip c es h e =
    let (status, (ws, stream)) = open_parts c.status c.ws_stream h in
    record {
      entry = c;
      ws = ws;
      at = if-true _ _ _ (ap (text_eq j) (sym e) ∙ text_eq_refl j);
      status = status;
      stream = stream;
    }

later_hit :
    (j ip : Text) (c : ConnectionState) (es : List (Text × ConnectionState))
    → lookup j es ≡ none
    → Found es ip
    → Found ((j, c) ∷ es) ip
later_hit j ip c es new f = record {
  entry = f.entry;
  ws = f.ws;
  at = elim (Bool-cases (text_eq j ip)) [
    | inl h ↦
        let same : j ≡ ip = text_eq→eq j ip h in
        let there : lookup ip es ≡ some f.entry = f.at in
        let gone : lookup ip es ≡ none = ap (λ k. lookup k es) (sym same) ∙ new in cc
    | inr h ↦ if-false _ _ _ h ∙ f.at
  ];
  status = f.status;
  stream = f.stream;
}

pub find_open-Found :
    (es : List (Text × ConnectionState)) (ip : Text)
    → NodupKeys es
    → find_open es ≡ some ip
    → Found es ip
find_open-Found [] ip n e = cc
find_open-Found ((j, c) ∷ es) ip (new, n) e = elim (Bool-cases (is_open c)) [
  | inl h ↦ let first : some j ≡ some ip = sym (if-true _ _ _ h) ∙ e in first_hit j ip c es h cc
  | inr h ↦ later_hit j ip c es new (find_open-Found es ip n (sym (if-false _ _ _ h) ∙ e))
]

pub lookup-any_open :
    (es : List (Text × ConnectionState)) (ip : Text) (c : ConnectionState)
    → lookup ip es ≡ some c
    → is_open c ≡ true
    → any_open es ≡ true
lookup-any_open [] ip c e h = cc
lookup-any_open ((j, d) ∷ es) ip c e h = elim (Bool-cases (is_open d)) [
  | inl first ↦ if-true _ _ _ first
  | inr shut ↦ elim (Bool-cases (text_eq j ip)) [
    | inl same ↦
        let it : some d ≡ some c = sym (if-true _ _ _ same) ∙ e in
        let it' : d ≡ c = cc in let opens : is_open d ≡ true = ap is_open it' ∙ h in cc
    | inr other ↦ if-false _ _ _ shut ∙ lookup-any_open es ip c (sym (if-false _ _ _ other) ∙ e) h
  ]
]

module _ (T : Table ConnectionState) where
  -- What one look at the states has done.
  pub data Handover (m : T.Map) (r : Option (Text × ℕ) × T.Map) : Type 0 where
    nothing : is_connected T m ≡ false → r ≡ (none, m) → Handover m r
    handed :
        (ip : Text) (ws : ℕ) (c : ConnectionState)
        → is_connected T m ≡ true
        → get T m ip ≡ some c
        → c.status ≡ connected
        → c.ws_stream ≡ some ws
        → r.0 ≡ some (ip, ws)
        → ((j : Text)
            → get T r.1 j
              ≡ (if text_eq ip j then some (record c { ws_stream = none }) else get T m j))
        → Handover m r

  handed_hit :
      (m : T.Map) (ip : Text)
      → find_open (T.iter m) ≡ some ip
      → Found (T.iter m) ip
      → Handover m (get_connected_ip T m)
  unfolding get_connected_ip is_connected
  handed_hit m ip e f =
      let r : get_connected_ip T m
          ≡ (some (ip, f.ws), T.insert m ip (record f.entry { ws_stream = none })) =
        ap (λ o. take_found T o m) e
        ∙ ap (λ o. take_entry T ip o m) f.at
        ∙ ap (λ o. take_stream T ip f.entry o m) f.stream in
      handed ip f.ws f.entry (any_open_lem (T.iter m) ∙ ap is_some e) f.at f.status f.stream
        (ap (λ t. t.0) r) (λ j. ap (λ t. get T t.1 j) r ∙ T.get-insert m ip _ j)

  -- `get_connected_ip` finds an address exactly if `is_connected` says so. What it hands over is the
  -- stream of a connected address, and it takes the stream out of that entry, so that it is not handed
  -- over again; no other entry changes.
  pub get_connected_ip-Handover : (m : T.Map) → Handover m (get_connected_ip T m)
  unfolding get_connected_ip is_connected
  get_connected_ip-Handover m = elim (Option-cases (find_open (T.iter m))) [
    | inl e ↦ nothing (any_open_lem (T.iter m) ∙ ap is_some e) (ap (λ o. take_found T o m) e)
    | inr (ip, e) ↦ handed_hit m ip e (find_open-Found (T.iter m) ip (T.iter-NodupKeys m) e)
  ]

  pub opened_open :
      (m : T.Map) (ip : Text) (ws : ℕ)
      → is_connected T (end_connection T ip (connected, some ws) (start_connection T ip m)) ≡ true
  unfolding end_connection start_connection is_connected
  opened_open m ip ws =
      let m1 = start_connection T ip m in
      let there = T.get-insert m ip _ ip ∙ if-true _ _ _ (text_eq_refl ip) in
      ap (λ o. any_open (T.iter (ended T ip (connected, some ws) o m1))) there
      ∙ lookup-any_open _ ip _ (T.get-insert m1 ip _ ip ∙ if-true _ _ _ (text_eq_refl ip)) refl

  -- A dial that succeeds ends the scan, if no other task ran in between: the task of an address
  -- that began with a permit and the flag down leaves the flag up and a connected address, no
  -- further address is tried, and the permit is back.
  pub task_end-opened :
      (s : ScanManager T) (server_ip : Text) (ws : ℕ)
      → s.stop_flag ≡ false
      → 1 ≤ s.permits
      → let t = task_end T server_ip (opened ws) ((task_begin T server_ip s).1) in
        (t.stop_flag ≡ true)
        × (is_connected T t.connection_states ≡ true)
        × (scan_network T t ≡ [])
        × (t.permits ≡ s.permits)
  unfolding task_end task_begin scan_network is_connected check_connection
  task_end-opened s server_ip ws h p =
      let begun = ap (λ (r : Bool × ScanManager T). r.1) (if-false _ _ _ h) in
      (
        refl,
        ap
              (λ (t : ScanManager T).
                is_connected T
                  (end_connection T server_ip (connected, some ws) t.connection_states))
              begun
            ∙ opened_open s.connection_states server_ip ws,
        refl,
        ap (λ (t : ScanManager T). suc t.permits) begun ∙ omega arith,
      )
