-- ===== src/Server/Raw.antt =====
-- src/helpers/internal_server.rs in the build without the feature `bebop`: a connection is registered
-- under its socket's address, and its bytes go to the application as they are. `sx` is the channel of
-- the connection and `peer` the address as a text.
pub mod Laws
use atomic_websocket.Base.{
  ℕ, Text, Bool, true, false, if◌then◌else◌, List, [], ◌∷◌, ◌++◌, map, filter,
}
use atomic_websocket.Runtime.Channel.{Channel}
use atomic_websocket.Runtime.Table.{Table}
use atomic_websocket.Message.{disconnect}
use atomic_websocket.Options.{MessageMiddleware}
use atomic_websocket.Clients.{
  ClientSender, Network, HandlerMessage, hand, ClientSenders, add, send_handle_message,
}
use atomic_websocket.Clients.History.{step}
use atomic_websocket.Server.{on_connect_all, should_forward}
use atomic_websocket.Server.Reader.{Event, message, end_of_stream, calls}

module _ (T : Table ClientSender) (C : Channel HandlerMessage)
    (middlewares : List MessageMiddleware) (peer : Text) where
  -- The body of the reader's loop.
  unfoldable pub handle_bytes : Text → ClientSenders T C → ClientSenders T C
  handle_bytes value s =
      if should_forward middlewares peer value then send_handle_message T C value peer s else s

  pub record Serving : Type 0 where
    -- The loop is running.
    pub reading : Bool
    pub senders : ClientSenders T C

  unfoldable pub advance : Event → Serving → Serving
  advance (message now network value) x =
      if x.reading then record x { senders = handle_bytes value x.senders } else x
  advance end_of_stream x = record x { reading = false }
  advance (calls c) x = record x { senders = step T C c x.senders }

  unfoldable pub run : List Event → Serving → Serving
  run [] x = x
  run (e ∷ es) x = run es (advance e x)

  -- Up to the loop: the connection is registered before the middlewares are asked.
  unfoldable pub begin : ℕ → Network → ℕ → ClientSenders T C → Serving
  begin now network sx s = record {
    reading = on_connect_all middlewares peer;
    senders = add T C now network peer sx s;
  }

  -- The notice that the reader ends with.
  abbrev pub finish : Network → ℕ → Serving → ClientSenders T C
  finish network sx x =
      if x.reading
      then x.senders
      else record x.senders { handed = hand (network sx) sx (disconnect peer) x.senders.handed }

module _ (T : Table ClientSender) (C : Channel HandlerMessage) where
  -- The reader of `inner_handle_ws`, on the events while it runs; `later` is the network at its end.
  -- The options are those at the start of the connection.
  unfoldable pub inner_handle_ws :
      ℕ → Network → Network → ℕ → Text → List Event → ClientSenders T C → ClientSenders T C
  inner_handle_ws now network later sx peer es s =
      let mws = s.options.middlewares in
      finish T C mws peer later sx (run T C mws peer es (begin T C mws peer now network sx s))

-- The writer: it ends where the socket refuses a frame, and no frame ends it.
unfoldable pub write_loop : List (Text × Bool) → List Text
write_loop [] = []
write_loop ((frame, taken) ∷ rest) =
    let later = write_loop rest in if taken then frame ∷ later else []

-- The bytes for the application, with the connection's address.
abbrev pub for_handler : List MessageMiddleware → Text → List Text → List HandlerMessage
for_handler middlewares peer vs = map (λ v. (v, peer)) (filter (should_forward middlewares peer) vs)
