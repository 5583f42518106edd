-- ===== src/Server/Streams.antt =====
-- Where the reader and the writer of a connection of src/helpers/internal_server.rs end, and what a
-- middleware can stop.
use atomic_websocket.Base.{
  ℕ, ◌≡◌, ap, ◌∙◌, Text, Bool, true, false, ◌&&◌, ◌==◌, if◌then◌else◌, if-true, if-false, some,
  List, [], ◌∷◌, ◌++◌,
}
use atomic_websocket.Runtime.Channel.{Channel}
use atomic_websocket.Runtime.Table.{Table}
use atomic_websocket.Schema.{
  Primitives, Category, Data, Disconnect, category_code, disconnect_codec,
}
use atomic_websocket.Message.{get_data_schema, code16}
use atomic_websocket.Message.Laws.{Reads}
use atomic_websocket.Options.{MessageMiddleware}
use atomic_websocket.Clients.{ClientSender, Network, HandlerMessage, ClientSenders}
use atomic_websocket.Server.{
  should_forward, handle_data, handle_message, read_loop, ends, write_loop,
}

-- No frame of the list ends the writer.
abbrev pub Pass : List Text → Type 0
Pass [] = Unit {0}
Pass (frame ∷ rest) = (ends (get_data_schema frame) ≡ false) × Pass rest

ends-Reads :
    (P : Primitives) (d : Disconnect) (frame : Text)
    → Reads (disconnect_codec P) Category.disconnect d frame
    → ends (get_data_schema frame) ≡ true
unfolding category_code
ends-Reads P d frame r = ap ends r.header

-- Behind frames that do not end it, the writer writes a disconnect, and nothing that is queued
-- after that.
pub write_loop-append :
    (P : Primitives) (d : Disconnect) (sent : List Text) (notice : Text) (rest : List Text)
    → Pass sent
    → Reads (disconnect_codec P) Category.disconnect d notice
    → write_loop (sent ++ notice ∷ rest) ≡ sent ++ notice ∷ []
unfolding write_loop
write_loop-append P d [] notice rest h r = if-true _ _ _ (ends-Reads P d notice r)
write_loop-append P d (frame ∷ sent) notice rest (h, hs) r =
    if-false _ _ _ h ∙ ap (λ fs. frame ∷ fs) (write_loop-append P d sent notice rest hs r)

module _ (T : Table ClientSender) (C : Channel HandlerMessage) (P : Primitives) where
  handle_message-disconnect :
      (now : ℕ) (network : Network) (use_ping : Bool) (middlewares : List MessageMiddleware)
      (id : Text) (d : Disconnect) (frame : Text) (s : ClientSenders T C)
      → Reads (disconnect_codec P) Category.disconnect d frame
      → handle_message T C P now network use_ping middlewares id frame s ≡ (true, s)
  unfolding handle_message category_code
  handle_message-disconnect now network use_ping middlewares id d frame s r =
      ap (λ o. handle_data T C P now network use_ping middlewares id frame o s) r.header

  -- Nothing behind a disconnect is read, and the disconnect itself changes nothing.
  pub read_loop-append :
      (network : Network) (use_ping : Bool) (middlewares : List MessageMiddleware) (id : Text)
      (d : Disconnect) (now : ℕ) (frame : Text) (before after : List (ℕ × Text))
      (s : ClientSenders T C)
      → Reads (disconnect_codec P) Category.disconnect d frame
      → read_loop T C P network use_ping middlewares id (before ++ (now, frame) ∷ after) s
        ≡ read_loop T C P network use_ping middlewares id before s
  unfolding read_loop
  read_loop-append network use_ping middlewares id d now frame [] after s r =
      let e = handle_message-disconnect now network use_ping middlewares id d frame s r in
      if-true _ _ _ (ap (λ t. t.0) e) ∙ ap (λ t. t.1) e
  read_loop-append network use_ping middlewares id d now frame ((time, value) ∷ before) after s r =
      let t = handle_message T C P time network use_ping middlewares id value s in
      ap (λ later. if t.0 then t.1 else later)
        (read_loop-append network use_ping middlewares id d now frame before after t.1 r)

  -- A readable message that a middleware stops changes nothing and the connection goes on, unless
  -- it is a disconnect, or a ping and the server answers pings: the message does not reach the
  -- application.
  pub handle_message-stopped :
      (now : ℕ) (network : Network) (use_ping : Bool) (middlewares : List MessageMiddleware)
      (id value : Text) (d : Data) (s : ClientSenders T C)
      → get_data_schema value ≡ some d
      → ((d.category == code16 Category.ping) && use_ping) ≡ false
      → (d.category == code16 Category.disconnect) ≡ false
      → should_forward middlewares id value ≡ false
      → handle_message T C P now network use_ping middlewares id value s ≡ (false, s)
  unfolding handle_message
  handle_message-stopped now network use_ping middlewares id value d s e h k stopped =
      ap (λ o. handle_data T C P now network use_ping middlewares id value o s) e
      ∙ if-false _ _ _ h
      ∙ if-false _ _ _ k
      ∙ if-false _ _ _ stopped
