-- ===== src/Connect/Stream/Pace.antt =====
-- The pings of a client's session, src/helpers/get_internal_websocket.rs: at most one of them waits
-- to be sent.
use atomic_websocket.Base.{
  ℕ, zero, suc, ◌≡◌, refl, Text, Bool, false, if◌then◌else◌, Bool-cases, inl, inr, none, some, List,
  [], ◌∷◌, Option, arith,
}
use atomic_websocket.Runtime.Channel.{Channel}
use atomic_websocket.Runtime.Database.{Database}
use atomic_websocket.Schema.{Primitives, Data, data_codec}
use atomic_websocket.Message.{get_data_schema, ping}
use atomic_websocket.Sender.{Reply, SenderStatus, ServerSender}
use atomic_websocket.Sender
use atomic_websocket.Connect.Stream.{
  Reader, Event, message, end_of_stream, wake, send, Stream, forward_bytes, receive, receive_data,
  by_category, announce, with_reader, woken, with_stream, step, run,
}

-- One task sleeps exactly while a ping is awaited.
abbrev pub IsPaced : Reader → Type 0
IsPaced r = r.sleeping ≡ (if r.is_wait_ping then 1 else 0)

module _ (S : Channel SenderStatus) (C : Channel Text) (D : Database) (P : Primitives) (sx : ℕ)
    (server_ip id : Text) where
  forward_bytes-reader :
      (o : Option Text) (x : Stream S C D P sx server_ip id)
      → (forward_bytes S C D P sx server_ip id o x).reader ≡ x.reader
  forward_bytes-reader none x = refl
  forward_bytes-reader (some bytes) x = refl

  by_category-IsPaced :
      (taken : Bool) (d : Data) (x : Stream S C D P sx server_ip id)
      → IsPaced x.reader
      → IsPaced (by_category S C D P sx server_ip id taken d x).reader
  by_category-IsPaced taken d x h = ground (arith, forward_bytes-reader ((data_codec P).encode d) x)

  announce-IsPaced :
      (x : Stream S C D P sx server_ip id)
      → IsPaced x.reader
      → IsPaced (announce S C D P sx server_ip id x).reader
  announce-IsPaced x h = ground arith

  receive_data-IsPaced :
      (taken : Bool) (o : Option Data) (x : Stream S C D P sx server_ip id)
      → IsPaced x.reader
      → IsPaced (receive_data S C D P sx server_ip id taken o x).reader
  receive_data-IsPaced taken none x h = h
  receive_data-IsPaced taken (some d) x h =
      by_category-IsPaced taken d (announce S C D P sx server_ip id x) (announce-IsPaced x h)

  with_stream-IsPaced :
      (x : Stream S C D P sx server_ip id) (o : Option (ServerSender S C))
      → IsPaced x.reader
      → IsPaced (with_stream S C D P sx server_ip id x o).reader
  with_stream-IsPaced x none h = h
  with_stream-IsPaced x (some s) h = h

  woken-IsPaced :
      (replies : ℕ → Reply) (sleeping : ℕ) (x : Stream S C D P sx server_ip id)
      → sleeping ≡ x.reader.sleeping
      → IsPaced x.reader
      → IsPaced (woken S C D P sx server_ip id replies sleeping x).reader
  woken-IsPaced replies zero x e h = h
  woken-IsPaced replies (suc n) x e h =
      with_stream-IsPaced
        (with_reader S C D P sx server_ip id
          (record x.reader { is_wait_ping = false; sleeping = n }) x)
        (Sender.send S C replies (ping id) x.session.sender) (ground arith)

  step-IsPaced :
      (e : Event) (x : Stream S C D P sx server_ip id)
      → IsPaced x.reader
      → IsPaced (step S C D P sx server_ip id e x).reader
  unfolding step receive
  step-IsPaced (message now taken value) x h = elim (Bool-cases x.reader.reading) [
    | inl on ↦ rw on (receive_data-IsPaced taken (get_data_schema value) _ h)
    | inr off ↦ rw off h
  ]
  step-IsPaced end_of_stream x h = h
  step-IsPaced (wake replies) x h = woken-IsPaced replies x.reader.sleeping x refl h
  step-IsPaced (send replies m) x h =
      with_stream-IsPaced x (Sender.send S C replies m x.session.sender) h

  -- Whatever a session goes through, in whatever order, and whether or not the sends of its tasks
  -- ever return: from a state where a task sleeps exactly while the session waits to ping, such as
  -- its start, it comes to such a state, so that no burst of pongs ever schedules a second ping.
  pub run-IsPaced :
      (es : List Event) (x : Stream S C D P sx server_ip id)
      → IsPaced x.reader
      → let y = run S C D P sx server_ip id es x in
        y.reader.sleeping ≡ (if y.reader.is_wait_ping then 1 else 0)
  unfolding run
  run-IsPaced [] x h = h
  run-IsPaced (e ∷ es) x h = run-IsPaced es (step S C D P sx server_ip id e x) (step-IsPaced e x h)
