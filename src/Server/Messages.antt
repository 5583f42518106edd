-- ===== src/Server/Messages.antt =====
-- From a client that makes its messages with `make_atomic_message` of src/helpers/common.rs to the
-- application of a server of src/helpers/internal_server.rs, which reads the records that it is handed.
use atomic_websocket.Base.{
  ◌≡◌, refl, sym, ap, ◌∙◌, subst, ◌<◌, ◌^◌, Text, Bool, true, false, ◌==◌, if◌then◌else◌,
  Bool-cases, inl, inr, some, List, [], ◌∷◌, ◌++◌, append-nil, length, filter, map, arith,
}
use atomic_websocket.Runtime.Channel.{Channel}
use atomic_websocket.Runtime.Table.{Table}
use atomic_websocket.Runtime.Codec.{ok}
use atomic_websocket.Schema.{Primitives, Category, Data, data_codec}
use atomic_websocket.Schema.Codecs.{ArePrimitives, schema-AreCodecs}
use atomic_websocket.Message.{make_atomic_message, code16}
use atomic_websocket.Message.Laws.{get_data_schema-make_atomic_message}
use atomic_websocket.Options.{MessageMiddleware}
use atomic_websocket.Spillover.Each.{Interleaving, offer_all}
use atomic_websocket.Clients.{ClientSender, HandlerMessage, ClientSenders}
use atomic_websocket.Server.{should_forward}
use atomic_websocket.Server.Reader.{
  Event, Serving, run, frames, by_others, for_handler, for_handler-cons, verdict,
}
use atomic_websocket.Server.Received.{run-Interleaving}

abbrev pub frame_of : Data → Text
frame_of d = make_atomic_message d.category d.datas

-- The records whose messages the middlewares let pass.
abbrev pub passing : List MessageMiddleware → Text → List Data → List Data
passing mws id = filter (λ d. should_forward mws id (frame_of d))

module _ (P : Primitives) where
  -- A message of the application: its category is a u16 that the protocol does not use between
  -- client and server, and its record can be serialized.
  pub record IsPlain (d : Data) : Type 0 where
    pub category-lt : d.category < 2 ^ 16
    pub no_ping : (d.category == code16 Category.ping) ≡ false
    pub no_disconnect : (d.category == code16 Category.disconnect) ≡ false
    pub bytes : Text
    pub serialized : (data_codec P).encode d ≡ some bytes

  abbrev pub ArePlain : List Data → Type 0
  ArePlain [] = Unit {0}
  ArePlain (d ∷ ds) = IsPlain d × ArePlain ds

  -- The application reads the records, each from the client, one per message.
  abbrev pub AreRead : Text → List HandlerMessage → List Data → Type 0
  AreRead id [] [] = Unit {0}
  AreRead id [] (d ∷ ds) = ⊥
  AreRead id (m ∷ ms) [] = ⊥
  AreRead id (m ∷ ms) (d ∷ ds) =
      ((data_codec P).decode m.0 ≡ ok (length m.0, d)) × (m.1 ≡ id) × AreRead id ms ds

module _ (P : Primitives) (A : ArePrimitives P) (use_ping : Bool) (mws : List MessageMiddleware)
    (id : Text) where
  verdict-frame_of :
      (d : Data) (p : IsPlain P d)
      → verdict P use_ping mws id (frame_of d) (some d)
        ≡ (if should_forward mws id (frame_of d) then (p.bytes, id) ∷ [] else [], true)
  verdict-frame_of d p = ground (arith, p.no_ping, p.no_disconnect, p.serialized)

  for_handler-frame_of :
      (d : Data) (p : IsPlain P d) (vs : List Text)
      → for_handler P use_ping mws id (frame_of d ∷ vs)
        ≡ (if should_forward mws id (frame_of d) then (p.bytes, id) ∷ [] else [])
          ++ for_handler P use_ping mws id vs
  for_handler-frame_of d p vs =
      for_handler-cons P use_ping mws id (frame_of d) vs
      ∙ ap
          (λ o.
            let r = verdict P use_ping mws id (frame_of d) o in
            r.0 ++ (if r.1 then for_handler P use_ping mws id vs else []))
          (get_data_schema-make_atomic_message d.category d.datas p.category-lt)
      ∙ ap
          (λ (r : List HandlerMessage × Bool).
            r.0 ++ (if r.1 then for_handler P use_ping mws id vs else []))
          (verdict-frame_of d p)

  reads_back : (d : Data) (p : IsPlain P d) → (data_codec P).decode p.bytes ≡ ok (length p.bytes, d)
  reads_back d p =
      ap (data_codec P).decode (sym (append-nil p.bytes))
      ∙ (schema-AreCodecs P A).data'.round_trip d p.bytes [] p.serialized

  for_handler-AreRead :
      (ds : List Data)
      → ArePlain P ds
      → AreRead P id (for_handler P use_ping mws id (map frame_of ds)) (passing mws id ds)
  for_handler-AreRead [] h = tt
  for_handler-AreRead (d ∷ ds) (p, ps) =
      rw (for_handler-frame_of d p (map frame_of ds))
        (elim (Bool-cases (should_forward mws id (frame_of d))) [
          | inl h ↦ rw h (reads_back d p, refl, for_handler-AreRead ds ps)
          | inr h ↦ rw h (for_handler-AreRead ds ps)
        ])

  module _ (T : Table ClientSender) (C : Channel HandlerMessage) where
    -- A client sends messages that `make_atomic_message` makes, none of them a ping or a
    -- disconnect. Whatever else the tasks of the server do to the registry meanwhile, what the
    -- application is offered is an interleaving of what the other tasks hand to it and of messages
    -- under the client's identifier, in which the application reads back the client's records: all
    -- that the middlewares let pass, in order and once each, with their categories and payloads.
    -- The records are those that can be serialized.
    pub run-AreRead :
        (ds : List Data) (es : List Event) (s : ClientSenders T C)
        → ArePlain P ds
        → frames es ≡ map frame_of ds
        → let start : Serving T C P use_ping mws id = record { reading = true; senders = s } in
          (own ms : List HandlerMessage) × AreRead P id own (passing mws id ds)
          × Interleaving own (by_others es) ms
          × ((run T C P use_ping mws id es start).senders.buffers
              ≡ offer_all C s.spillover_buffer_size s.buffers ms)
    run-AreRead ds es s h e =
        let (ms, i, offered) = run-Interleaving T C P use_ping mws id es s in
        (
          for_handler P use_ping mws id (frames es),
          ms,
          subst (λ vs. AreRead P id (for_handler P use_ping mws id vs) (passing mws id ds)) (sym e)
              (for_handler-AreRead ds h),
          i,
          offered,
        )
