-- ===== src/Server/Identity.antt =====
-- How a server learns who a connection is, and whom it answers: the first message and the pings of
-- src/helpers/internal_server.rs, with the pings that a client makes in src/helpers/common.rs.
use atomic_websocket.Base.{
  ℕ, ◌<◌, ◌^◌, ◌≡◌, ap, ◌∙◌, Text, text_eq, Bool, ◌++◌, if◌then◌else◌, text_eq_refl, true, false,
  ◌&&◌, ◌==◌, if-true, if-false, pos_i16, Option, none, some, List, ◌∷◌, length,
}
use atomic_websocket.Runtime.Channel.{Channel}
use atomic_websocket.Runtime.Table.{Table}
use atomic_websocket.Schema.{Primitives, Category, Data, Ping, category_code, ping_codec}
use atomic_websocket.Schema.Codecs.{ArePrimitives}
use atomic_websocket.Message.{pong, disconnect, get_data_schema, code16, make_ping_message}
use atomic_websocket.Message.Laws.{Reads, make_ping_message-Reads}
use atomic_websocket.Options.{MessageMiddleware}
use atomic_websocket.Clients.{
  ClientSender, Network, HandlerMessage, hand, ClientSenders, add, send_and_track,
}
use atomic_websocket.Clients.Registry.{entry, settle, settled, entry-add, entry-send_and_track}
use atomic_websocket.Clients.Delivered.{given, handed-send_and_track}
use atomic_websocket.Clients.Inbox.{send_and_track-SameInbox}
use atomic_websocket.Server.{
  identify, first_ping, first_data, serve, inner_handle_ws, get_id_from_first_message, answer,
  handle_data, handle_message,
}

module _ (T : Table ClientSender) (C : Channel HandlerMessage) (P : Primitives) where
  identified :
      (now : ℕ) (network : Network) (sx : ℕ) (ping : Ping) (frame : Text) (s : ClientSenders T C)
      (r : Reads (ping_codec P) Category.ping ping frame)
      → get_id_from_first_message T C P now network sx (some frame) s
        ≡ identify T C P now network sx
            (record { category = category_code Category.ping; datas = r.payload })
            ping.peer
            s
  unfolding get_id_from_first_message category_code
  identified now network sx ping frame s r =
      ap (λ o. first_data T C P now network sx o s) r.header
      ∙ ap
          (λ m.
            first_ping T C P now network sx (record { category = 10000; datas = r.payload }) m s)
          r.body

  -- The ping that a client makes identifies it to a server with `use_ping`: for every identifier that
  -- bebop can write, the connection is registered under it on its own channel, in place of any older
  -- one, and is answered; it stays registered exactly if its channel takes the answer.
  pub get_id_from_first_message-make_ping_message :
      (A : ArePrimitives P) (now : ℕ) (network : Network) (sx : ℕ) (id : Text)
      (s : ClientSenders T C)
      → length id < 2 ^ 32
      → s.options.use_ping ≡ true
      → (frame : Text) × (make_ping_message P id ≡ some frame)
        × ((get_id_from_first_message T C P now network sx (some frame) s).0 ≡ some id)
        × (entry T C (get_id_from_first_message T C P now network sx (some frame) s).1 id
            ≡ settle now (network sx) (record { sx = sx; send_time = now }))
  get_id_from_first_message-make_ping_message A now network sx id s h use_ping =
      let (frame, made, reads) = make_ping_message-Reads P A id h in
      let e = identified now network sx (record { peer = id; activations = 0 }) frame s reads in
      (
        frame,
        made,
        ap (λ r. r.0) e,
        ap (λ r. entry T C r.1 id) e
            ∙ ap (λ t. entry T C t id) (if-true _ _ _ use_ping)
            ∙ entry-send_and_track T C now network id pong (add T C now network id sx s) id
            ∙ if-true _ _ _ (text_eq_refl id)
            ∙ ap (settled now network)
                (entry-add T C now network id sx s id ∙ if-true _ _ _ (text_eq_refl id)),
      )

  identifies_nobody :
      (now : ℕ) (network : Network) (sx : ℕ) (value : Text) (d : Data) (s : ClientSenders T C)
      → get_data_schema value ≡ some d
      → (d.category == code16 Category.ping) ≡ false
      → (pos_i16 s.options.proxy_ping && (d.category == s.options.proxy_ping)) ≡ false
      → get_id_from_first_message T C P now network sx (some value) s ≡ (none, s)
  unfolding get_id_from_first_message
  identifies_nobody now network sx value d s e h k =
      ap (λ o. first_data T C P now network sx o s) e ∙ if-false _ _ _ h ∙ if-false _ _ _ k

  -- A connection whose first message can be read and is neither a ping nor of the proxied category,
  -- when one is set, is never registered, and nothing that it sends later is read: it only gets the
  -- disconnect notice, if its channel takes it.
  pub inner_handle_ws_stranger :
      (now : ℕ) (network : Network) (sx : ℕ) (peer value : Text) (rest : List (ℕ × Text)) (d : Data)
      (s : ClientSenders T C)
      → get_data_schema value ≡ some d
      → (d.category == code16 Category.ping) ≡ false
      → (pos_i16 s.options.proxy_ping && (d.category == s.options.proxy_ping)) ≡ false
      → inner_handle_ws T C P network sx peer ((now, value) ∷ rest) s
        ≡ record s { handed = hand (network sx) sx (disconnect peer) s.handed }
  unfolding inner_handle_ws
  inner_handle_ws_stranger now network sx peer value rest d s e h k =
      ap
        (λ (r : Option Text × ClientSenders T C).
          let s' = serve T C P network s.options rest r in
          record s' { handed = hand (network sx) sx (disconnect peer) s'.handed })
        (identifies_nobody now network sx value d s e h k)

  answers_ping :
      (now : ℕ) (network : Network) (middlewares : List MessageMiddleware) (id : Text) (ping : Ping)
      (frame : Text) (s : ClientSenders T C)
      → Reads (ping_codec P) Category.ping ping frame
      → handle_message T C P now network true middlewares id frame s
        ≡ (false, (send_and_track T C now network ping.peer pong s).1)
  unfolding handle_message category_code
  answers_ping now network middlewares id ping frame s r =
      ap (λ o. handle_data T C P now network true middlewares id frame o s) r.header
      ∙ ap
          (λ m.
            answer T C P now network middlewares id frame
              (record { category = 10000; datas = r.payload }) m s)
          r.body

  -- With `use_ping`, a ping behind the first message is answered to the peer that the ping names,
  -- whoever sent it: one pong goes to the channel of that peer, if it is registered and the channel
  -- takes it, and nothing else is handed to anybody. That peer's entry is refreshed if the pong was
  -- taken, and removed if its channel was full for too long or closed; all other entries, that of the
  -- sender included where the ping names another, stay as they are. The
  -- application is handed nothing, and the server reads on.
  pub handle_message-ping :
      (now : ℕ) (network : Network) (middlewares : List MessageMiddleware) (id : Text) (ping : Ping)
      (frame : Text) (s : ClientSenders T C)
      → Reads (ping_codec P) Category.ping ping frame
      → let r = handle_message T C P now network true middlewares id frame s in
        (r.0 ≡ false)
        × (r.1.handed ≡ s.handed ++ given network pong (entry T C s ping.peer))
        × ((j : Text)
            → entry T C r.1 j ≡ (
                if text_eq ping.peer j
                then settled now network (entry T C s ping.peer)
                else entry T C s j))
        × (r.1.buffers ≡ s.buffers)
  handle_message-ping now network middlewares id ping frame s r =
      let e = answers_ping now network middlewares id ping frame s r in
      (
        ap (λ (t : Bool × ClientSenders T C). t.0) e,
        ap (λ (t : Bool × ClientSenders T C). t.1.handed) e
            ∙ handed-send_and_track T C now network ping.peer pong s,
        λ j.
            ap (λ (t : Bool × ClientSenders T C). entry T C t.1 j) e
            ∙ entry-send_and_track T C now network ping.peer pong s j,
        ap (λ (t : Bool × ClientSenders T C). t.1.buffers) e
            ∙ (send_and_track-SameInbox T C now network ping.peer pong s).buffers,
      )
