-- ===== src/Connect/Raw.antt =====
-- A client's session in the build without the feature `bebop`: `handle_websocket` of
-- src/helpers/get_internal_websocket.rs, which neither reads nor answers messages but gives their bytes
-- to the application as they are. `sx` is the session's channel.
pub mod Laws
use atomic_websocket.Base.{
  ℕ, Text, Bool, true, false, if◌then◌else◌, Option, none, some, List, [], ◌∷◌, ◌++◌,
}
use atomic_websocket.Runtime.Channel.{Channel}
use atomic_websocket.Runtime.Database.{Database}
use atomic_websocket.Address.{parse_port}
use atomic_websocket.Message.{Outgoing}
use atomic_websocket.Store.Raw.{set_server_connect_info}
use atomic_websocket.Sender.{
  Reply, SenderStatus, connected, ServerSender, notify, send_handle_message, write_received_times,
}
use atomic_websocket.Sender
use atomic_websocket.Connect.Stream.{Turn, next, no_senders, reader_ended, turn_writes}

-- The stream yields a message or ends, or another task sends, with what becomes of its attempts.
pub data Event : Type 0 where
  message : ℕ → Text → Event
  end_of_stream : Event
  send : (ℕ → Reply) → Outgoing → Event

module _ (S : Channel SenderStatus) (C : Channel Text) (D : Database) where
  open D use {Db}

  pub record Stream : Type 0 where
    -- The reader's loop is running.
    pub reading : Bool
    pub sender : ServerSender S C
    pub db : Db

  -- `<RwServerSender as ServerSenderTrait>::add`.
  unfoldable pub add : ℕ → Text → Stream → Stream
  add sx server_ip x = record x {
    sender = Sender.add S C sx server_ip x.sender;
    db = set_server_connect_info D server_ip (parse_port server_ip) x.db;
  }

  -- Up to the loops; the session is connected from the start.
  unfoldable pub begin : ℕ → ℕ → Text → ServerSender S C → Db → Stream
  begin now sx server_ip s db =
      let x = add sx server_ip (record { reading = true; sender = s; db = db }) in
      record x { sender = notify S C connected (write_received_times S C now x.sender) }

  -- The body of the reader's loop.
  abbrev pub receive : ℕ → Text → Stream → Stream
  receive now value x = record x {
    sender = send_handle_message S C value (write_received_times S C now x.sender);
  }

  -- A send by a task of its own: where it does not return, that task hangs, and the session goes on.
  abbrev pub with_sender : Stream → Option (ServerSender S C) → Stream
  with_sender x none = x
  with_sender x (some s) = record x { sender = s }

  unfoldable pub step : Event → Stream → Stream
  step (message now value) x = if x.reading then receive now value x else x
  step end_of_stream x = record x { reading = false }
  step (send replies m) x = with_sender x (Sender.send S C replies m x.sender)

  unfoldable pub run : List Event → Stream → Stream
  run [] x = x
  run (e ∷ es) x = run es (step e x)

  -- The flag that the connection guard holds is given back at the end of the writer's loop.
  unfoldable pub session_end : Stream → Stream
  session_end x = record x { sender = record x.sender { is_try_connect = false } }

-- The turn leaves the writer's loop: here no message does, as long as the socket takes it.
abbrev pub turn_ends : Turn → Bool
turn_ends (next frame true) = false
turn_ends _ = true

-- What the writer has written, and whether it has left its loop.
unfoldable pub write_turns : List Turn → List Text × Bool
write_turns [] = ([], false)
write_turns (t ∷ ts) =
    let later = write_turns ts in
    if turn_ends t then (turn_writes t, true) else (turn_writes t ++ later.0, later.1)
