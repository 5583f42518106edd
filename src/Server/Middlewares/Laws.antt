-- ===== src/Server/Middlewares/Laws.antt =====
-- Which calls each middleware of a connection of src/helpers/internal_server.rs gets.
use atomic_websocket.Base.{
  ℕ, suc, ◌+◌, ◌<◌, ◌≡◌, refl, ap, ◌∙◌, Text, Bool, true, false, not, ◌&&◌, ◌==◌, if◌then◌else◌,
  if-true, if-false, Option-cases, Bool-cases, inl, inr, some, List, [], ◌∷◌, ◌++◌, length, filter,
  map, arith,
}
use atomic_websocket.Runtime.Codec.{DeResult, ok, err}
use atomic_websocket.Schema.{Primitives, Category, Data, Ping, ping_codec, category_code}
use atomic_websocket.Message.{get_data_schema, code16}
use atomic_websocket.Options.{MessageMiddleware}
use atomic_websocket.Server.{on_connect_all, should_forward}
use atomic_websocket.Server.Reader.{readable, before_disconnect, is_answered}
use atomic_websocket.Server.Middlewares.{
  MiddlewareCall, connects, receives, disconnects, connect_calls, message_calls, disconnect_calls,
  passed_calls, answered_calls, data_calls, loop_calls, session_calls,
}

-- The call is one of the middleware at the place.
abbrev pub at : ℕ → MiddlewareCall → Bool
at i (connects j id) = i == j
at i (receives j id value) = i == j
at i (disconnects j id) = i == j

abbrev pub calls_of : ℕ → List MiddlewareCall → List MiddlewareCall
calls_of i = filter (at i)

calls_of-append :
    (i : ℕ) (cs ds : List MiddlewareCall) → calls_of i (cs ++ ds) ≡ calls_of i cs ++ calls_of i ds
calls_of-append i [] ds = refl
calls_of-append i (c ∷ cs) ds = ground (arith, calls_of-append i cs ds)

calls_of_if :
    (i : ℕ) (b : Bool) (cs ds : List MiddlewareCall)
    → calls_of i (if b then cs ++ ds else cs)
      ≡ (if b then calls_of i cs ++ calls_of i ds else calls_of i cs)
calls_of_if i true cs ds = calls_of-append i cs ds
calls_of_if i false cs ds = refl

disconnect_calls_early :
    (i j : ℕ) (mws : List MessageMiddleware) (id : Text)
    → j < i
    → calls_of j (disconnect_calls i mws id) ≡ []
unfolding disconnect_calls
disconnect_calls_early i j [] id h = refl
disconnect_calls_early i j (mw ∷ mws) id h =
    ground (arith, disconnect_calls_early (suc i) j mws id (omega arith))

disconnect_calls_at :
    (i j : ℕ) (before after : List MessageMiddleware) (mw : MessageMiddleware) (id : Text)
    → j ≡ i + length before
    → calls_of j (disconnect_calls i (before ++ mw ∷ after) id) ≡ disconnects j id ∷ []
unfolding disconnect_calls
disconnect_calls_at i j [] after mw id h =
    ground (arith, disconnect_calls_early (suc i) j after id (omega arith))
disconnect_calls_at i j (b ∷ before) after mw id h =
    ground (arith, disconnect_calls_at (suc i) j before after mw id (omega arith))

connect_calls_early :
    (i j : ℕ) (mws : List MessageMiddleware) (id : Text)
    → j < i
    → calls_of j (connect_calls i mws id).0 ≡ []
unfolding connect_calls
connect_calls_early i j [] id h = refl
connect_calls_early i j (mw ∷ mws) id h =
    ground (arith, connect_calls_early (suc i) j mws id (omega arith))

connect_calls_at :
    (i j : ℕ) (before after : List MessageMiddleware) (mw : MessageMiddleware) (id : Text)
    → j ≡ i + length before
    → calls_of j (connect_calls i (before ++ mw ∷ after) id).0
      ≡ (if on_connect_all before id then connects j id ∷ [] else [])
unfolding connect_calls on_connect_all
connect_calls_at i j [] after mw id h =
    ground (arith, connect_calls_early (suc i) j after id (omega arith))
connect_calls_at i j (b ∷ before) after mw id h =
    ground (arith, connect_calls_at (suc i) j before after mw id (omega arith))

connect_calls_answer :
    (i : ℕ) (mws : List MessageMiddleware) (id : Text)
    → (connect_calls i mws id).1 ≡ on_connect_all mws id
unfolding connect_calls on_connect_all
connect_calls_answer i [] id = refl
connect_calls_answer i (mw ∷ mws) id = ground (arith, connect_calls_answer (suc i) mws id)

message_calls_early :
    (i j : ℕ) (mws : List MessageMiddleware) (id value : Text)
    → j < i
    → calls_of j (message_calls i mws id value) ≡ []
unfolding message_calls
message_calls_early i j [] id value h = refl
message_calls_early i j (mw ∷ mws) id value h =
    ground (arith, message_calls_early (suc i) j mws id value (omega arith))

message_calls_at :
    (i j : ℕ) (before after : List MessageMiddleware) (mw : MessageMiddleware) (id value : Text)
    → j ≡ i + length before
    → calls_of j (message_calls i (before ++ mw ∷ after) id value)
      ≡ (if should_forward before id value then receives j id value ∷ [] else [])
unfolding message_calls should_forward
message_calls_at i j [] after mw id value h =
    ground (arith, message_calls_early (suc i) j after id value (omega arith))
message_calls_at i j (b ∷ before) after mw id value h =
    ground (arith, message_calls_at (suc i) j before after mw id value (omega arith))

on_connect_all-append :
    (before after : List MessageMiddleware) (id : Text)
    → on_connect_all (before ++ after) id ≡ (on_connect_all before id && on_connect_all after id)
unfolding on_connect_all
on_connect_all-append [] after id = refl
on_connect_all-append (b ∷ before) after id = ground (arith, on_connect_all-append before after id)

module _ (P : Primitives) (use_ping : Bool) (before after : List MessageMiddleware)
    (mw : MessageMiddleware) (id : Text) where
  abbrev mws : List MessageMiddleware
  mws = before ++ mw ∷ after

  -- The messages that the middlewares are asked about: those before the first disconnect that can
  -- be read and are no ping that the server answers.
  abbrev pub asked : List Text → List Text
  asked vs =
      map (λ m. m.0)
        (filter (λ m. not (is_answered P use_ping mws id m.1))
          (before_disconnect P use_ping mws id (readable vs)))

  abbrev pub heard : List Text → List MiddlewareCall
  heard vs = map (receives (length before) id) (filter (should_forward before id) (asked vs))

  -- The same with one more message that can be read.
  abbrev heard_with : Text → Data → List Text → List MiddlewareCall
  heard_with value d vs = map (receives (length before) id) (
      filter (should_forward before id) (
        map (λ m. m.0)
          (filter (λ m. not (is_answered P use_ping mws id m.1))
            (before_disconnect P use_ping mws id ((value, d) ∷ readable vs)))))

  passed_calls-heard :
      (value : Text) (d : Data) (vs : List Text) (later : List MiddlewareCall)
      → is_answered P use_ping mws id d ≡ false
      → calls_of (length before) later ≡ heard vs
      → calls_of (length before) (passed_calls P use_ping mws id value d later)
        ≡ heard_with value d vs
  passed_calls-heard value d vs later h ih = ground (
    arith,
    calls_of-append (length before) (message_calls 0 mws id value) later,
    message_calls_at 0 (length before) before after mw id value (omega arith),
    ih,
    h,
  )

  answered_calls-heard :
      (value : Text) (d : Data) (o : DeResult (ℕ × Ping)) (vs : List Text)
      (later : List MiddlewareCall)
      → (ping_codec P).decode d.datas ≡ o
      → ((d.category == code16 Category.ping) && use_ping) ≡ true
      → calls_of (length before) later ≡ heard vs
      → calls_of (length before) (answered_calls P use_ping mws id value d o later)
        ≡ heard_with value d vs
  unfolding category_code
  answered_calls-heard value d (ok r) vs later e h ih = ground (arith, e, h, ih)
  answered_calls-heard value d (err x) vs later e h ih =
      passed_calls-heard value d vs later (rw (e, h) refl) ih

  data_calls-heard :
      (value : Text) (d : Data) (vs : List Text) (later : List MiddlewareCall)
      → calls_of (length before) later ≡ heard vs
      → calls_of (length before) (data_calls P use_ping mws id value (some d) later)
        ≡ heard_with value d vs
  data_calls-heard value d vs later ih =
      elim (Bool-cases ((d.category == code16 Category.ping) && use_ping)) [
        | inl h ↦
            ap (calls_of (length before)) (if-true _ _ _ h)
            ∙ answered_calls-heard value d ((ping_codec P).decode d.datas) vs later refl h ih
        | inr h ↦
            ap (calls_of (length before)) (if-false _ _ _ h)
            ∙ passed_calls-heard value d vs later (rw h refl) ih
      ]

  loop_calls-heard :
      (vs : List Text) → calls_of (length before) (loop_calls P use_ping mws id vs) ≡ heard vs
  unfolding loop_calls
  loop_calls-heard [] = refl
  loop_calls-heard (value ∷ vs) = elim (Option-cases (get_data_schema value)) [
    | inl e ↦ rw e (loop_calls-heard vs)
    | inr (d, e) ↦
        rw e (data_calls-heard value d vs (loop_calls P use_ping mws id vs) (loop_calls-heard vs))
  ]

  -- What the middleware at a place is called for, of all that a connection's reader does from its
  -- identification to its end: `on_connect`, if those before it have let the client connect; and
  -- if all the others then do, `on_message` for every message behind the first that is before the
  -- first disconnect, can be read, is no ping that the server answers, and that those before it
  -- let pass, and at last `on_disconnect`, once. A middleware that allowed a client that a later
  -- one has rejected is not told of the disconnect.
  pub session_calls_lem :
      (vs : List Text)
      → calls_of (length before) (session_calls P use_ping mws id vs) ≡ (
          if on_connect_all before id
          then connects (length before) id
            ∷ (if on_connect_all mws id
                then heard vs ++ disconnects (length before) id ∷ []
                else [])
          else [])
  unfolding session_calls
  session_calls_lem vs =
      let i = length before in
      let r = connect_calls 0 mws id in
      calls_of_if i r.1 r.0 (loop_calls P use_ping mws id vs ++ disconnect_calls 0 mws id)
      ∙ ground (
        arith,
        connect_calls_at 0 i before after mw id (omega arith),
        connect_calls_answer 0 mws id,
        calls_of-append i (loop_calls P use_ping mws id vs) (disconnect_calls 0 mws id),
        loop_calls-heard vs,
        disconnect_calls_at 0 i before after mw id (omega arith),
        on_connect_all-append before (mw ∷ after) id,
      )
