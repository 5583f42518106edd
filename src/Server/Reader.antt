-- ===== src/Server/Reader.antt =====
-- A connection's reader of src/helpers/internal_server.rs in the bebop build while other tasks use
-- the registry, and what the application is to get from it. `id` is the client's identifier, and
-- `use_ping` and `middlewares` are the options at the start of the connection.
pub mod Alone
use atomic_websocket.Base.{
  ℕ, ◌≡◌, refl, Text, Bool, true, false, not, ◌&&◌, ◌==◌, if◌then◌else◌, Option-cases, inl, inr,
  Option, none, some, List, [], ◌∷◌, ◌++◌, filter, put, put-append, arith,
}
use atomic_websocket.Runtime.Channel.{Channel}
use atomic_websocket.Runtime.Table.{Table}
use atomic_websocket.Runtime.Codec.{DeResult, ok, err}
use atomic_websocket.Schema.{
  Primitives, Category, Data, Ping, data_codec, ping_codec, category_code,
}
use atomic_websocket.Message.{get_data_schema, code16}
use atomic_websocket.Options.{MessageMiddleware}
use atomic_websocket.Clients.{ClientSender, Network, HandlerMessage, ClientSenders}
use atomic_websocket.Clients.History.{Call, step}
use atomic_websocket.Clients.Inbox.{handed_on}
use atomic_websocket.Server.{should_forward, handle_message}

-- The connection receives a message, or its stream ends, or another task makes a call.
pub data Event : Type 0 where
  message : ℕ → Network → Text → Event
  end_of_stream : Event
  calls : ℕ × Network × Call → Event

module _ (T : Table ClientSender) (C : Channel HandlerMessage) (P : Primitives) (use_ping : Bool)
    (middlewares : List MessageMiddleware) (id : Text) where
  pub record Serving : Type 0 where
    -- The loop is running.
    pub reading : Bool
    pub senders : ClientSenders T C

  abbrev pub handled : Bool × ClientSenders T C → Serving
  handled (stops, s) = record { reading = not stops; senders = s }

  unfoldable pub advance : Event → Serving → Serving
  advance (message now network value) x =
      if x.reading
      then handled (handle_message T C P now network use_ping middlewares id value x.senders)
      else x
  advance end_of_stream x = record x { reading = false }
  advance (calls c) x = record x { senders = step T C c x.senders }

  unfoldable pub run : List Event → Serving → Serving
  run [] x = x
  run (e ∷ es) x = run es (advance e x)

-- The messages of the stream, until it ends.
abbrev pub frames : List Event → List Text
frames [] = []
frames (message now network value ∷ es) = value ∷ frames es
frames (end_of_stream ∷ es) = []
frames (calls c ∷ es) = frames es

-- What the other tasks hand to the application.
abbrev pub by_others : List Event → List HandlerMessage
by_others [] = []
by_others (message now network value ∷ es) = by_others es
by_others (end_of_stream ∷ es) = by_others es
by_others (calls (now, network, c) ∷ es) = handed_on c ++ by_others es

-- A message that can be read, with the bytes that it came in.
abbrev pub labelled : Text → Option Data → Option (Text × Data)
labelled value none = none
labelled value (some d) = some (value, d)

abbrev pub readable : List Text → List (Text × Data)
readable [] = []
readable (value ∷ vs) = put (labelled value (get_data_schema value)) (readable vs)

abbrev pub decodes : DeResult (ℕ × Ping) → Bool
decodes (ok r) = true
decodes (err e) = false

module _ (P : Primitives) (use_ping : Bool) (middlewares : List MessageMiddleware) (id : Text) where
  -- The server answers the message itself.
  abbrev pub is_answered : Data → Bool
  is_answered d =
      ((d.category == code16 Category.ping) && use_ping) && decodes ((ping_codec P).decode d.datas)

  abbrev pub before_disconnect : List (Text × Data) → List (Text × Data)
  before_disconnect [] = []
  before_disconnect ((value, d) ∷ ms) =
      if d.category == code16 Category.disconnect then [] else (value, d) ∷ before_disconnect ms

  abbrev pub from_id : Option Text → Option HandlerMessage
  from_id none = none
  from_id (some bytes) = some (bytes, id)

  abbrev pub encoded : List (Text × Data) → List HandlerMessage
  encoded [] = []
  encoded ((value, d) ∷ ms) = put (from_id ((data_codec P).encode d)) (encoded ms)

  -- The messages for the application: of those before the first disconnect that can be read, the
  -- ones that are no ping that the server answers, and that the middlewares let pass.
  abbrev pub for_handler : List Text → List HandlerMessage
  for_handler vs = encoded (
      filter (λ m. not (is_answered m.1) && should_forward middlewares id m.0)
        (before_disconnect (readable vs)))

  -- What one message contributes, and whether the reader goes on.
  abbrev pub verdict : Text → Option Data → List HandlerMessage × Bool
  verdict value none = ([], true)
  verdict value (some d) =
      if is_answered d
      then ([], true)
      else if d.category == code16 Category.disconnect
      then ([], false)
      else if should_forward middlewares id value
      then (put (from_id ((data_codec P).encode d)) [], true)
      else ([], true)

  pub for_handler-cons :
      (value : Text) (vs : List Text)
      → for_handler (value ∷ vs) ≡ (
          let r = verdict value (get_data_schema value) in
          r.0 ++ (if r.1 then for_handler vs else []))
  unfolding category_code
  for_handler-cons value vs = elim (Option-cases (get_data_schema value)) [
    | inl e ↦ rw e refl
    | inr (d, e) ↦ rw e (by_data d)
  ]
    where
      by_data :
          (d : Data)
          → encoded (
              filter
                (λ m. not (is_answered m.1) && should_forward middlewares id m.0)
                (before_disconnect ((value, d) ∷ readable vs)))
            ≡ (let r = verdict value (some d) in r.0 ++ (if r.1 then for_handler vs else []))
      by_data d = ground (arith, put-append (from_id ((data_codec P).encode d)) (for_handler vs))
