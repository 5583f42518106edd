-- ===== src/Server.antt =====
-- src/helpers/internal_server.rs in the bebop build: what the server's task for a connection does with
-- the messages of its stream, what its writer writes, and the cap on connections. `sx` is the
-- channel of the connection. The clock stands still while one message is handled.
pub mod Identity
pub mod Streams
pub mod Slots
pub mod Lifetime
pub mod Reader
pub mod Received
pub mod Raw
pub mod Middlewares
pub mod Messages
pub mod Calls
use atomic_websocket.Base.{
  ℕ, suc, ◌-◌, Text, Bool, true, false, ◌&&◌, ◌==◌, if◌then◌else◌, pos_i16, Option, none, some,
  List, [], ◌∷◌, ◌++◌,
}
use atomic_websocket.Runtime.Channel.{Channel}
use atomic_websocket.Runtime.Table.{Table}
use atomic_websocket.Runtime.Codec.{DeResult, ok, err, Codec}
use atomic_websocket.Schema.{Primitives, Category, Data, Ping, data_codec, ping_codec}
use atomic_websocket.Message.{Outgoing, pong, disconnect, get_data_schema, code16}
use atomic_websocket.Options.{ServerOptions, MiddlewareResult, continue, MessageMiddleware}
use atomic_websocket.Options
use atomic_websocket.Clients.{
  ClientSender, Network, HandlerMessage, hand, ClientSenders, add, send_and_track,
  send_handle_message,
}

-- The loops over the middlewares: the first `false` or `Stop` ends them.
unfoldable pub on_connect_all : List MessageMiddleware → Text → Bool
on_connect_all [] id = true
on_connect_all (mw ∷ mws) id = if mw.on_connect id then on_connect_all mws id else false

abbrev pub continues : MiddlewareResult → Bool
continues continue = true
continues Options.stop = false

unfoldable pub should_forward : List MessageMiddleware → Text → Text → Bool
should_forward [] id value = true
should_forward (mw ∷ mws) id value =
    if continues (mw.on_message id value) then should_forward mws id value else false

module _ (T : Table ClientSender) (C : Channel HandlerMessage) (P : Primitives) where
  -- `send_handle_message` of the trait: data that cannot be serialized is only logged.
  abbrev pub forward_bytes : Option Text → Text → ClientSenders T C → ClientSenders T C
  forward_bytes none peer s = s
  forward_bytes (some bytes) peer s = send_handle_message T C bytes peer s

  abbrev pub forward : Data → Text → ClientSenders T C → ClientSenders T C
  forward d peer s = forward_bytes ((data_codec P).encode d) peer s

  -- The category with which a ping is proxied.
  abbrev pub proxied : ServerOptions → Data → Data
  proxied options d =
      if pos_i16 options.proxy_ping then record d { category = options.proxy_ping } else d

  abbrev pub identify :
      ℕ → Network → ℕ → Data → Text → ClientSenders T C → Option Text × ClientSenders T C
  identify now network sx d peer_id s =
      let s' = add T C now network peer_id sx s in
      (
        some peer_id,
        if s.options.use_ping
            then (send_and_track T C now network peer_id pong s').1
            else forward (proxied s.options d) peer_id s',
      )

  abbrev pub identify_proxy :
      ℕ → Network → ℕ → Data → Text → ClientSenders T C → Option Text × ClientSenders T C
  identify_proxy now network sx d peer_id s = (
    some peer_id,
    forward (record d { category = s.options.proxy_ping }) peer_id
        (add T C now network peer_id sx s),
  )

  abbrev pub first_ping :
      ℕ
      → Network
      → ℕ
      → Data
      → DeResult (ℕ × Ping)
      → ClientSenders T C
      → Option Text × ClientSenders T C
  first_ping now network sx d (ok r) s = identify now network sx d r.1.peer s
  first_ping now network sx d (err e) s = (none, s)

  abbrev pub first_proxy :
      ℕ
      → Network
      → ℕ
      → Data
      → DeResult (ℕ × Ping)
      → ClientSenders T C
      → Option Text × ClientSenders T C
  first_proxy now network sx d (ok r) s = identify_proxy now network sx d r.1.peer s
  first_proxy now network sx d (err e) s = (none, s)

  abbrev pub first_data :
      ℕ → Network → ℕ → Option Data → ClientSenders T C → Option Text × ClientSenders T C
  first_data now network sx none s = (none, s)
  first_data now network sx (some d) s =
      if d.category == code16 Category.ping
      then first_ping now network sx d ((ping_codec P).decode d.datas) s
      else if pos_i16 s.options.proxy_ping && (d.category == s.options.proxy_ping)
      then first_proxy now network sx d ((ping_codec P).decode d.datas) s
      else (none, s)

  -- `none` is a stream that has ended.
  unfoldable pub get_id_from_first_message :
      ℕ → Network → ℕ → Option Text → ClientSenders T C → Option Text × ClientSenders T C
  get_id_from_first_message now network sx none s = (none, s)
  get_id_from_first_message now network sx (some value) s =
      first_data now network sx (get_data_schema value) s

  -- The end of the loop's body, behind the ping. `true` is `break`.
  abbrev pub pass_on :
      List MessageMiddleware → Text → Text → Data → ClientSenders T C → Bool × ClientSenders T C
  pass_on middlewares id value d s =
      if d.category == code16 Category.disconnect
      then (true, s)
      else if should_forward middlewares id value
      then (false, forward d id s)
      else (false, s)

  -- A ping that cannot be read is handled as any other message.
  abbrev pub answer :
      ℕ
      → Network
      → List MessageMiddleware
      → Text
      → Text
      → Data
      → DeResult (ℕ × Ping)
      → ClientSenders T C
      → Bool × ClientSenders T C
  answer now network middlewares id value d (ok r) s =
      (false, (send_and_track T C now network r.1.peer pong s).1)
  answer now network middlewares id value d (err e) s = pass_on middlewares id value d s

  abbrev pub handle_data :
      ℕ
      → Network
      → Bool
      → List MessageMiddleware
      → Text
      → Text
      → Option Data
      → ClientSenders T C
      → Bool × ClientSenders T C
  handle_data now network use_ping middlewares id value none s = (false, s)
  handle_data now network use_ping middlewares id value (some d) s =
      if (d.category == code16 Category.ping) && use_ping
      then answer now network middlewares id value d ((ping_codec P).decode d.datas) s
      else pass_on middlewares id value d s

  -- The body of the reader's loop.
  unfoldable pub handle_message :
      ℕ
      → Network
      → Bool
      → List MessageMiddleware
      → Text
      → Text
      → ClientSenders T C
      → Bool × ClientSenders T C
  handle_message now network use_ping middlewares id value s =
      handle_data now network use_ping middlewares id value (get_data_schema value) s

  -- The loop, on the messages until the stream ends, each with the time when it is handled.
  unfoldable pub read_loop :
      Network
      → Bool
      → List MessageMiddleware
      → Text
      → List (ℕ × Text)
      → ClientSenders T C
      → ClientSenders T C
  read_loop network use_ping middlewares id [] s = s
  read_loop network use_ping middlewares id ((now, value) ∷ rest) s =
      let r = handle_message now network use_ping middlewares id value s in
      let later = read_loop network use_ping middlewares id rest r.1 in if r.0 then r.1 else later

  abbrev pub serve :
      Network
      → ServerOptions
      → List (ℕ × Text)
      → Option Text × ClientSenders T C
      → ClientSenders T C
  serve network options rest (none, s) = s
  serve network options rest (some id, s) =
      if on_connect_all options.middlewares id
      then read_loop network options.use_ping options.middlewares id rest s
      else s

  abbrev pub read_stream :
      Network → ServerOptions → ℕ → List (ℕ × Text) → ClientSenders T C → ClientSenders T C
  read_stream network options sx [] s =
      serve network options [] (get_id_from_first_message 0 network sx none s)
  read_stream network options sx ((now, value) ∷ rest) s =
      serve network options rest (get_id_from_first_message now network sx (some value) s)

  -- The reader of `inner_handle_ws`, from the first message to the notice that it ends with. `peer`
  -- is the socket's address as a text. The options are those at the start of the connection.
  unfoldable pub inner_handle_ws :
      Network → ℕ → Text → List (ℕ × Text) → ClientSenders T C → ClientSenders T C
  inner_handle_ws network sx peer stream s =
      let s' = read_stream network s.options sx stream s in
      record s' { handed = hand (network sx) sx (disconnect peer) s'.handed }

-- The writer of `inner_handle_ws`: the frames that it writes of those in its queue, where the socket
-- takes them. It ends behind a disconnect, and behind a frame that is too short to be read.
abbrev pub ends : Option Data → Bool
ends none = true
ends (some d) = d.category == code16 Category.disconnect

unfoldable pub write_loop : List Text → List Text
write_loop [] = []
write_loop (frame ∷ rest) =
    let later = write_loop rest in
    if ends (get_data_schema frame) then frame ∷ [] else frame ∷ later
