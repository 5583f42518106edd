-- ===== src/Connect/Stream/Announced.antt =====
-- When a client's session of src/helpers/get_internal_websocket.rs reports that it is connected.
use atomic_websocket.Base.{
  ℕ, ◌≡◌, refl, ap, ap₂, sym, if-true, if-false, ◌||◌, ◌∙◌, Text, Bool, true, false, not, ◌&&◌,
  if◌then◌else◌, is_some, Option, none, some, List, [], ◌∷◌, arith, Bool-cases, inl, inr, is_empty,
  put,
}
use atomic_websocket.Runtime.Channel.{Channel, TrySend, sent, full, closed}
use atomic_websocket.Runtime.Database.{Database}
use atomic_websocket.Schema.{Primitives, Data, data_codec}
use atomic_websocket.Message.{get_data_schema}
use atomic_websocket.Sender.{
  SenderStatus, connected, notify, send_handle_message, write_received_times, ServerSender,
  send_status, after_status,
}
use atomic_websocket.Connect.Stream.{
  Event, message, end_of_stream, wake, send, Stream, forward_bytes, receive, receive_data, announce,
  by_category, on_sender, with_reader, step, run,
}
use atomic_websocket.Connect.Stream.Expected.{frames, readable}

-- No task sends anything.
abbrev pub IsQuiet : List Event → Type 0
IsQuiet [] = Unit {0}
IsQuiet (message now taken value ∷ es) = IsQuiet es
IsQuiet (end_of_stream ∷ es) = IsQuiet es
IsQuiet (wake replies ∷ es) = ⊥
IsQuiet (send replies m ∷ es) = ⊥

-- Whether one of the messages can be read.
abbrev pub any_readable : List Text → Bool
any_readable vs = not (is_empty (readable vs))

module _ (S : Channel SenderStatus) (C : Channel Text) (D : Database) (P : Primitives) (sx : ℕ)
    (server_ip id : Text) where
  -- The status channel behind an announcement, if there is one.
  abbrev said : Bool → S.Chan → S.Chan
  said b c = if b then (S.try_send c connected).1 else c

  -- The reader runs and has announced nothing yet.
  abbrev live : Stream S C D P sx server_ip id → Bool
  live x = x.reader.is_first && x.reader.reading

  abbrev status_tx : Stream S C D P sx server_ip id → S.Chan
  status_tx x = x.session.sender.status_tx

  after_status-status_tx :
      (r : TrySend × S.Chan) (s : ServerSender S C) → (after_status S C r s).1.status_tx ≡ r.1
  after_status-status_tx (sent, c) s = refl
  after_status-status_tx (full, c) s = refl
  after_status-status_tx (closed, c) s = refl

  notify-status_tx :
      (s : ServerSender S C)
      → (notify S C connected s).status_tx ≡ (S.try_send s.status_tx connected).1
  unfolding notify send_status
  notify-status_tx s = after_status-status_tx (S.try_send s.status_tx connected) s

  forward_bytes-status_tx :
      (o : Option Text) (x : Stream S C D P sx server_ip id)
      → let y = forward_bytes S C D P sx server_ip id o x in
        (status_tx y ≡ status_tx x) × (y.reader ≡ x.reader)
  unfolding send_handle_message
  forward_bytes-status_tx none x = (refl, refl)
  forward_bytes-status_tx (some bytes) x = (refl, refl)

  by_category-status_tx :
      (taken : Bool) (d : Data) (x : Stream S C D P sx server_ip id)
      → let y = by_category S C D P sx server_ip id taken d x in
        (status_tx y ≡ status_tx x) × (y.reader.is_first ≡ x.reader.is_first)
  by_category-status_tx taken d x =
      let f = forward_bytes-status_tx ((data_codec P).encode d) x in
      (ground (arith, f), ground (arith, f))

  -- `hit` tells whether a message was read, or the reader stopped.
  record Says (x : Stream S C D P sx server_ip id) (read hit : Bool)
      (y : Stream S C D P sx server_ip id) : Type 0 where
    status : status_tx y ≡ said (live x && read) (status_tx x)
    lives : live y ≡ (live x && not hit)

  receive_data-Says :
      (taken : Bool) (o : Option Data) (x : Stream S C D P sx server_ip id)
      → x.reader.reading ≡ true
      → Says x (is_some o) (is_some o) (receive_data S C D P sx server_ip id taken o x)
  receive_data-Says taken none x h = record { status = ground arith; lives = ground arith }
  receive_data-Says taken (some d) x h =
      let y = announce S C D P sx server_ip id x in
      let c = by_category-status_tx taken d y in
      let n = notify-status_tx x.session.sender in
      let first : (by_category S C D P sx server_ip id taken d y).reader.is_first ≡ false =
        c.1 ∙ ground arith in
      record { status = c.0 ∙ ground (arith, n); lives = ground (arith, first) }

  receive-Says :
      (now : ℕ) (taken : Bool) (value : Text) (x : Stream S C D P sx server_ip id)
      → x.reader.reading ≡ true
      → let b = is_some (get_data_schema value) in
        Says x b b (receive S C D P sx server_ip id now taken value x)
  unfolding receive write_received_times
  receive-Says now taken value x h =
      let t =
        receive_data-Says taken (get_data_schema value)
          (on_sender S C D P sx server_ip id (write_received_times S C now) x) h in
      record { status = t.status; lives = t.lives }

  said_twice :
      (l r a : Bool) (c : S.Chan)
      → said ((l && not r) && a) (said (l && r) c) ≡ said (l && (r || a)) c
  said_twice true true a c = refl
  said_twice true false a c = refl
  said_twice false r a c = refl

  any_readable-cons :
      (o : Option Data) (ds : List Data)
      → not (is_empty (put o ds)) ≡ (is_some o || not (is_empty ds))
  any_readable-cons none ds = refl
  any_readable-cons (some d) ds = refl

  run-Says :
      (es : List Event) (x : Stream S C D P sx server_ip id)
      → IsQuiet es
      → status_tx (run S C D P sx server_ip id es x)
        ≡ said (live x && any_readable (frames es)) (status_tx x)
  unfolding run step
  run-Says [] x q = ground arith
  run-Says (message now taken value ∷ es) x q = elim (Bool-cases x.reader.reading) [
    | inl on ↦
        let t = receive-Says now taken value x on in
        let read = is_some (get_data_schema value) in
        let more = any_readable (frames es) in
        ap (λ y. status_tx (run S C D P sx server_ip id es y)) (if-true _ _ _ on)
        ∙ run-Says es (receive S C D P sx server_ip id now taken value x) q
        ∙ ap₂ (λ b c. said (b && more) c) t.lives t.status
        ∙ said_twice (live x) read more (status_tx x)
        ∙ ap (λ b. said (live x && b) (status_tx x))
            (sym (any_readable-cons (get_data_schema value) (readable (frames es))))
    | inr off ↦
        ap (λ y. status_tx (run S C D P sx server_ip id es y)) (if-false _ _ _ off)
        ∙ run-Says es x q
        ∙ ground (arith, off)
  ]
  run-Says (end_of_stream ∷ es) x q =
      let x' = with_reader S C D P sx server_ip id (record x.reader { reading = false }) x in
      run-Says es x' q ∙ ground arith
  run-Says (wake replies ∷ es) x q = absurd q
  run-Says (send replies m ∷ es) x q = absurd q

  -- A session that pings reports `connected` once, behind the first message of its server that can
  -- be read, and not before; a session that has reported it, as one that does not ping does at its
  -- start, does not report it again. This is said of a session in which no task sends a message, so
  -- that no send can fail and report the contrary.
  pub run-connected :
      (es : List Event) (x : Stream S C D P sx server_ip id)
      → IsQuiet es
      → x.reader.reading ≡ true
      → (run S C D P sx server_ip id es x).session.sender.status_tx ≡ (
          if x.reader.is_first && any_readable (frames es)
          then (S.try_send x.session.sender.status_tx connected).1
          else x.session.sender.status_tx)
  run-connected es x q h = run-Says es x q ∙ ground (arith, h)
