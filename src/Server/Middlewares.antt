-- ===== src/Server/Middlewares.antt =====
-- Which calls a connection of src/helpers/internal_server.rs in the bebop build makes of its
-- middlewares, in order: `on_connect`, `on_message` and `on_disconnect` of src/helpers/middleware.rs. A
-- middleware is named by its place in the list.
pub mod Laws
use atomic_websocket.Base.{
  ℕ, suc, Text, Bool, true, false, ◌&&◌, ◌==◌, if◌then◌else◌, Option, none, some, List, [], ◌∷◌,
  ◌++◌,
}
use atomic_websocket.Runtime.Codec.{DeResult, ok, err, Codec}
use atomic_websocket.Schema.{Primitives, Category, Data, Ping, ping_codec}
use atomic_websocket.Message.{get_data_schema, code16}
use atomic_websocket.Options.{MessageMiddleware}
use atomic_websocket.Server.{continues}

pub data MiddlewareCall : Type 0 where
  connects : ℕ → Text → MiddlewareCall
  receives : ℕ → Text → Text → MiddlewareCall
  disconnects : ℕ → Text → MiddlewareCall

-- The loop over `on_connect` from place `i` on, and its answer.
unfoldable pub connect_calls : ℕ → List MessageMiddleware → Text → List MiddlewareCall × Bool
connect_calls i [] id = ([], true)
connect_calls i (mw ∷ mws) id =
    let later = connect_calls (suc i) mws id in
    if mw.on_connect id then (connects i id ∷ later.0, later.1) else (connects i id ∷ [], false)

unfoldable pub message_calls : ℕ → List MessageMiddleware → Text → Text → List MiddlewareCall
message_calls i [] id value = []
message_calls i (mw ∷ mws) id value =
    let later = message_calls (suc i) mws id value in
    receives i id value ∷ (if continues (mw.on_message id value) then later else [])

unfoldable pub disconnect_calls : ℕ → List MessageMiddleware → Text → List MiddlewareCall
disconnect_calls i [] id = []
disconnect_calls i (mw ∷ mws) id = disconnects i id ∷ disconnect_calls (suc i) mws id

module _ (P : Primitives) (use_ping : Bool) (mws : List MessageMiddleware) (id : Text) where
  -- The end of the loop's body, behind the ping.
  abbrev pub passed_calls : Text → Data → List MiddlewareCall → List MiddlewareCall
  passed_calls value d later =
      if d.category == code16 Category.disconnect then [] else message_calls 0 mws id value ++ later

  abbrev pub answered_calls :
      Text → Data → DeResult (ℕ × Ping) → List MiddlewareCall → List MiddlewareCall
  answered_calls value d (ok r) later = later
  answered_calls value d (err e) later = passed_calls value d later

  abbrev pub data_calls : Text → Option Data → List MiddlewareCall → List MiddlewareCall
  data_calls value none later = later
  data_calls value (some d) later =
      if (d.category == code16 Category.ping) && use_ping
      then answered_calls value d ((ping_codec P).decode d.datas) later
      else passed_calls value d later

  -- The reader's loop, on the messages until the stream ends.
  unfoldable pub loop_calls : List Text → List MiddlewareCall
  loop_calls [] = []
  loop_calls (value ∷ vs) =
      let later = loop_calls vs in data_calls value (get_data_schema value) later

  -- From the first message on, which has told the identifier.
  unfoldable pub session_calls : List Text → List MiddlewareCall
  session_calls vs =
      let r = connect_calls 0 mws id in
      if r.1 then r.0 ++ (loop_calls vs ++ disconnect_calls 0 mws id) else r.0
