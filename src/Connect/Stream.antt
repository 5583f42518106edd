-- ===== src/Connect/Stream.antt =====
-- A client's session while its stream is open: the reader and the writer of `handle_websocket` in
-- src/helpers/get_internal_websocket.rs, with the tasks that send its later pings. `sx` is the
-- session's channel, `server_ip` the address it connected to and `id` the client's identifier.
pub mod Pace
pub mod Expected
pub mod Received
pub mod Announced
pub mod Writer
pub mod Peer
use atomic_websocket.Base.{
  ℕ, zero, suc, ◌+◌, ◌-◌, Text, codes, Bool, true, false, ◌&&◌, ◌==◌, if◌then◌else◌, Option, none,
  some, List, [], ◌∷◌, ◌++◌, drop, starts_with,
}
use atomic_websocket.Runtime.Channel.{Channel}
use atomic_websocket.Runtime.Database.{Database}
use atomic_websocket.Runtime.Codec.{Codec}
use atomic_websocket.Schema.{Primitives, Category, Data, data_codec}
use atomic_websocket.Message.{Outgoing, ping, disconnect, get_data_schema, code16}
use atomic_websocket.Options.{ClientOptions}
use atomic_websocket.Server.{ends}
use atomic_websocket.Sender.{
  Reply, SenderStatus, connected, ServerSender, notify, send_handle_message, write_received_times,
}
use atomic_websocket.Sender
use atomic_websocket.Sender.Persist.{Session}

-- `split("://").nth(1)`: what stands between the first separator and the next.
unfoldable pub behind_scheme : Text → Option Text
behind_scheme [] = none
behind_scheme (c ∷ s) =
    if starts_with (c ∷ s) (codes "://") then some (drop 2 s) else behind_scheme s

unfoldable pub before_scheme : Text → Text
before_scheme [] = []
before_scheme (c ∷ s) = if starts_with (c ∷ s) (codes "://") then [] else c ∷ before_scheme s

-- `split(':').next()`
unfoldable pub before_colon : Text → Text
before_colon [] = []
before_colon (c ∷ s) = if c == b':' then [] else c ∷ before_colon s

abbrev pub peer_or : Text → Option Text → Text
peer_or server_ip none = server_ip
peer_or server_ip (some s) = before_colon (before_scheme s)

-- The peer that the farewell to a server names.
unfoldable pub peer_of : Text → Text
unfolding behind_scheme before_scheme before_colon
peer_of server_ip = peer_or server_ip (behind_scheme server_ip)

pub record Reader : Type 0 where
  -- The loop is running.
  pub reading : Bool
  pub is_first : Bool
  pub is_wait_ping : Bool
  -- The tasks that sleep before they send a ping.
  pub sleeping : ℕ

abbrev pub reader_start : ClientOptions → Reader
reader_start options = record {
  reading = true;
  is_first = options.use_ping;
  is_wait_ping = false;
  sleeping = 0;
}

-- What can happen next: the stream yields a message at a time, and the session's channel takes a
-- farewell or not; the stream ends or fails; a sleeping task wakes up; any other task sends. A send
-- has what becomes of its attempts.
pub data Event : Type 0 where
  message : ℕ → Bool → Text → Event
  end_of_stream : Event
  wake : (ℕ → Reply) → Event
  send : (ℕ → Reply) → Outgoing → Event

module _ (S : Channel SenderStatus) (C : Channel Text) (D : Database) (P : Primitives) (sx : ℕ)
    (server_ip id : Text) where
  pub record Stream : Type 0 where
    pub reader : Reader
    pub session : Session S C D P

  abbrev pub with_reader : Reader → Stream → Stream
  with_reader r x = record x { reader = r }

  abbrev pub on_sender : (ServerSender S C → ServerSender S C) → Stream → Stream
  on_sender f x = record x { session = record x.session { sender = f x.session.sender } }

  -- The first message that can be read tells that the connection works.
  abbrev pub announce : Stream → Stream
  announce x =
      if x.reader.is_first
      then on_sender (notify S C connected) (with_reader (record x.reader { is_first = false }) x)
      else x

  abbrev pub schedule : Stream → Stream
  schedule x =
      if x.reader.is_wait_ping
      then x
      else with_reader (record x.reader { is_wait_ping = true; sleeping = suc x.reader.sleeping }) x

  abbrev pub say_farewell : Bool → ServerSender S C → ServerSender S C
  say_farewell taken s =
      if taken
      then record s { handed = s.handed ++ (sx, disconnect (peer_of server_ip)) ∷ [] }
      else s

  abbrev pub leave : Bool → Stream → Stream
  leave taken x =
      on_sender (say_farewell taken) (with_reader (record x.reader { reading = false }) x)

  -- `send_handle_message` of the trait: data that cannot be serialized is only logged.
  abbrev pub forward_bytes : Option Text → Stream → Stream
  forward_bytes none x = x
  forward_bytes (some bytes) x = on_sender (send_handle_message S C bytes) x

  abbrev pub by_category : Bool → Data → Stream → Stream
  by_category taken d x =
      if d.category == code16 Category.pong
      then schedule x
      else if d.category == code16 Category.disconnect
      then leave taken x
      else forward_bytes ((data_codec P).encode d) x

  abbrev pub receive_data : Bool → Option Data → Stream → Stream
  receive_data taken none x = x
  receive_data taken (some d) x = by_category taken d (announce x)

  -- The body of the reader's loop.
  unfoldable pub receive : ℕ → Bool → Text → Stream → Stream
  receive now taken value x =
      receive_data taken (get_data_schema value) (on_sender (write_received_times S C now) x)

  -- A send by a task of its own: where it does not return, that task hangs, and the session goes on.
  abbrev pub with_stream : Stream → Option (ServerSender S C) → Stream
  with_stream x none = x
  with_stream x (some s) = on_sender (λ _. s) x

  abbrev pub woken : (ℕ → Reply) → ℕ → Stream → Stream
  woken replies zero x = x
  woken replies (suc n) x =
      with_stream (with_reader (record x.reader { is_wait_ping = false; sleeping = n }) x)
        (Sender.send S C replies (ping id) x.session.sender)

  unfoldable pub step : Event → Stream → Stream
  step (message now taken value) x = if x.reader.reading then receive now taken value x else x
  step end_of_stream x = with_reader (record x.reader { reading = false }) x
  step (wake replies) x = woken replies x.reader.sleeping x
  step (send replies m) x = with_stream x (Sender.send S C replies m x.session.sender)

  unfoldable pub run : List Event → Stream → Stream
  run [] x = x
  run (e ∷ es) x = run es (step e x)

-- A turn of the writer's `select!`: a message of its channel, which the socket takes or not, a
-- channel that no one holds any more, or the notice that the reader has ended.
pub data Turn : Type 0 where
  next : Text → Bool → Turn
  no_senders reader_ended : Turn

abbrev pub turn_writes : Turn → List Text
turn_writes (next frame true) = frame ∷ []
turn_writes _ = []

-- The turn leaves the loop.
abbrev pub turn_ends : Turn → Bool
turn_ends (next frame true) = ends (get_data_schema frame)
turn_ends _ = true

-- What the writer has written, and whether it has left its loop.
unfoldable pub write_turns : List Turn → List Text × Bool
write_turns [] = ([], false)
write_turns (t ∷ ts) =
    let later = write_turns ts in
    if turn_ends t then (turn_writes t, true) else (turn_writes t ++ later.0, later.1)
