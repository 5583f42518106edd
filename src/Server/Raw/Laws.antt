-- ===== src/Server/Raw/Laws.antt =====
-- What a connection of src/helpers/internal_server.rs gives to the application without the feature
-- `bebop`, and what it leaves behind.
use atomic_websocket.Base.{
  ℕ, ◌≡◌, refl, ap, sym, ◌∙◌, Text, Bool, true, false, if◌then◌else◌, Bool-cases, inl, inr, some,
  List, [], ◌∷◌, ◌++◌, map, subst, text_eq_refl, append-nil, arith,
}
use atomic_websocket.Runtime.Channel.{Channel}
use atomic_websocket.Runtime.Table.{Table}
use atomic_websocket.Message.{Outgoing}
use atomic_websocket.Options.{MessageMiddleware}
use atomic_websocket.Spillover.Each.{Interleaving, done, Interleaving-append, offer_all}
use atomic_websocket.Clients.{
  ClientSender, Network, HandlerMessage, ClientSenders, add, send_handle_message, delivered, send,
  send_and_track, write_time,
}
use atomic_websocket.Clients.Registry.{entry, entry-add, entry-send_and_track}
use atomic_websocket.Clients.Inbox.{Offers, Offers-trans, handed_on, step-Offers}
use atomic_websocket.Server.{on_connect_all, should_forward}
use atomic_websocket.Server.Reader.{Event, message, end_of_stream, calls, frames, by_others}
use atomic_websocket.Server.Raw.{
  handle_bytes, Serving, advance, run, begin, inner_handle_ws, for_handler, write_loop,
}

-- Only the connection itself is at work.
abbrev pub OnlyStream : List Event → Type 0
OnlyStream [] = Unit {0}
OnlyStream (message now network value ∷ es) = OnlyStream es
OnlyStream (end_of_stream ∷ es) = OnlyStream es
OnlyStream (calls c ∷ es) = ⊥

module _ (T : Table ClientSender) (C : Channel HandlerMessage) (mws : List MessageMiddleware)
    (peer : Text) where
  handle_bytes-Offers :
      (value : Text) (s : ClientSenders T C)
      → Offers T C s (for_handler mws peer (value ∷ [])) (handle_bytes T C mws peer value s)
  unfolding handle_bytes send_handle_message
  handle_bytes-Offers value s = elim (Bool-cases (should_forward mws peer value)) [
    | inl h ↦ rw h (record { buffers = refl; size = refl })
    | inr h ↦ rw h (record { buffers = refl; size = refl })
  ]

  -- What an event adds, of this connection and of the other tasks, and whether the reader goes on.
  abbrev own : Bool → Event → List HandlerMessage
  own true (message now network value) = for_handler mws peer (value ∷ [])
  own _ _ = []

  abbrev others : Event → List HandlerMessage
  others (calls (now, network, c)) = handed_on c
  others _ = []

  abbrev goes_on : Bool → Event → Bool
  goes_on b end_of_stream = false
  goes_on b _ = b

  record Delivers (x : Serving T C mws peer) (e : Event) (b : Bool) (y : Serving T C mws peer)
      : Type 0 where
    offers : Offers T C x.senders (own b e ++ others e) y.senders
    reads : y.reading ≡ goes_on b e

  advance-Delivers :
      (e : Event) (x : Serving T C mws peer) (b : Bool)
      → x.reading ≡ b
      → Delivers x e b (advance T C mws peer e x)
  unfolding advance
  advance-Delivers (message now network value) x true h = rw h (record {
    offers =
        subst (λ ms. Offers T C x.senders ms (handle_bytes T C mws peer value x.senders))
          (sym (append-nil _)) (handle_bytes-Offers value x.senders);
    reads = refl;
  })
  advance-Delivers (message now network value) x false h =
      rw h (record { offers = record { buffers = refl; size = refl }; reads = refl })
  advance-Delivers end_of_stream x true h = record {
    offers = record { buffers = refl; size = refl };
    reads = refl;
  }
  advance-Delivers end_of_stream x false h = record {
    offers = record { buffers = refl; size = refl };
    reads = refl;
  }
  advance-Delivers (calls (now, network, c)) x true h = record {
    offers = step-Offers T C now network c x.senders;
    reads = h;
  }
  advance-Delivers (calls (now, network, c)) x false h = record {
    offers = step-Offers T C now network c x.senders;
    reads = h;
  }

  abbrev expected : Bool → List Event → List HandlerMessage
  expected b es = if b then for_handler mws peer (frames es) else []

  Interleaving-cons :
      (b : Bool) (e : Event) (es : List Event) (ms : List HandlerMessage)
      → Interleaving (expected (goes_on b e) es) (by_others es) ms
      → Interleaving (expected b (e ∷ es)) (by_others (e ∷ es)) ((own b e ++ others e) ++ ms)
  Interleaving-cons true (message now network value) es ms i =
      elim (Bool-cases (should_forward mws peer value)) [
        | inl h ↦ rw h (Interleaving-append ((value, peer) ∷ []) [] i)
        | inr h ↦ rw h i
      ]
  Interleaving-cons false (message now network value) es ms i = i
  Interleaving-cons true end_of_stream es ms i = i
  Interleaving-cons false end_of_stream es ms i = i
  Interleaving-cons true (calls (now, network, c)) es ms i = Interleaving-append [] (handed_on c) i
  Interleaving-cons false (calls (now, network, c)) es ms i = Interleaving-append [] (handed_on c) i

  run-Offers :
      (es : List Event) (x : Serving T C mws peer) (b : Bool)
      → x.reading ≡ b
      → (ms : List HandlerMessage) × Interleaving (expected b es) (by_others es) ms
        × Offers T C x.senders ms (run T C mws peer es x).senders
  unfolding run
  run-Offers [] x true h = ([], done, record { buffers = refl; size = refl })
  run-Offers [] x false h = ([], done, record { buffers = refl; size = refl })
  run-Offers (e ∷ es) x b h =
      let y = advance T C mws peer e x in
      let d = advance-Delivers e x b h in
      let (ms, i, o) = run-Offers es y (goes_on b e) d.reads in
      (
        (own b e ++ others e) ++ ms,
        Interleaving-cons b e es ms i,
        Offers-trans T C x.senders y.senders _ _ _ d.offers o,
      )

  run-entry :
      (es : List Event) (x : Serving T C mws peer) (j : Text)
      → OnlyStream es
      → entry T C (run T C mws peer es x).senders j ≡ entry T C x.senders j
  unfolding run advance handle_bytes send_handle_message
  run-entry [] x j q = refl
  run-entry (message now network value ∷ es) x j q =
      run-entry es (advance T C mws peer (message now network value) x) j q ∙ ground arith
  run-entry (end_of_stream ∷ es) x j q = run-entry es (advance T C mws peer end_of_stream x) j q
  run-entry (calls c ∷ es) x j q = absurd q

write_loop-taken : (queue : List Text) → write_loop (map (λ frame. (frame, true)) queue) ≡ queue
unfolding write_loop
write_loop-taken [] = refl
write_loop-taken (frame ∷ queue) = ap (λ fs. frame ∷ fs) (write_loop-taken queue)

module _ (T : Table ClientSender) (C : Channel HandlerMessage) where
  -- Whatever else the tasks of the server do meanwhile, the application is offered an interleaving
  -- of what the other tasks hand to it, and of the connection's messages, in order and under its
  -- address: those until the stream ends that the middlewares let pass, as they are, and none if a
  -- middleware has rejected the connection.
  pub inner_handle_ws-Interleaving :
      (now : ℕ) (network later : Network) (sx : ℕ) (peer : Text) (es : List Event)
      (s : ClientSenders T C)
      → let mws = s.options.middlewares in
        (ms : List HandlerMessage) × Interleaving
          (if on_connect_all mws peer then for_handler mws peer (frames es) else [])
          (by_others es)
          ms
        × ((inner_handle_ws T C now network later sx peer es s).buffers
            ≡ offer_all C s.spillover_buffer_size s.buffers ms)
  unfolding inner_handle_ws begin add
  inner_handle_ws-Interleaving now network later sx peer es s =
      let mws = s.options.middlewares in
      let (ms, i, o) =
        run-Offers T C mws peer es (begin T C mws peer now network sx s) (on_connect_all mws peer)
          refl in
      (ms, i, ground (arith, o.buffers))

  -- A connection whose reader has ended is still registered: nothing that it does itself takes its
  -- entry away.
  inner_handle_ws-entry :
      (now : ℕ) (network later : Network) (sx : ℕ) (peer : Text) (es : List Event)
      (s : ClientSenders T C)
      → OnlyStream es
      → entry T C (inner_handle_ws T C now network later sx peer es s) peer
        ≡ some (record { sx = sx; send_time = now })
  unfolding inner_handle_ws begin
  inner_handle_ws-entry now network later sx peer es s q =
      let mws = s.options.middlewares in
      let x = begin T C mws peer now network sx s in
      let e = run-entry T C mws peer es x peer q in
      ground arith ∙ e ∙ entry-add T C now network peer sx s peer ∙ rw (text_eq_refl peer) refl

  send_registered :
      (now : ℕ) (network : Network) (peer : Text) (m : Outgoing) (client : ClientSender)
      (s : ClientSenders T C)
      → entry T C s peer ≡ some client
      → network client.sx ≡ delivered
      → ((send_and_track T C now network peer m s).0 ≡ true)
        × ((send_and_track T C now network peer m s).1.handed ≡ s.handed ++ (client.sx, m) ∷ [])
        × (entry T C (send_and_track T C now network peer m s).1 peer
            ≡ some (record client { send_time = now }))
  unfolding send_and_track send write_time
  send_registered now network peer m client s e d = (
    rw (e, d) refl,
    rw (e, d) refl,
    entry-send_and_track T C now network peer m s peer ∙ rw (text_eq_refl peer, e, d) refl,
  )

  -- Without the feature `bebop`, a connection is still registered when its reader has ended, be it
  -- that a middleware has rejected it, if only the connection itself is at work meanwhile. A later
  -- message for it, as in a broadcast, is handed to its channel if that has room, counts as sent
  -- and keeps the entry from expiring; and the writer, which no farewell ends, writes whatever the
  -- socket takes.
  pub stays_registered :
      (now after : ℕ) (network later last : Network) (sx : ℕ) (peer : Text) (es : List Event)
      (m : Outgoing) (queue : List Text) (s : ClientSenders T C)
      → OnlyStream es
      → last sx ≡ delivered
      → let ended = inner_handle_ws T C now network later sx peer es s in
        let r = send_and_track T C after last peer m ended in
        (r.0 ≡ true)
        × (r.1.handed ≡ ended.handed ++ (sx, m) ∷ [])
        × (entry T C r.1 peer ≡ some (record { sx = sx; send_time = after }))
        × (write_loop (map (λ frame. (frame, true)) queue) ≡ queue)
  stays_registered now after network later last sx peer es m queue s q d =
      let (sent, handed, kept) =
        send_registered after last peer m (record { sx = sx; send_time = now })
          (inner_handle_ws T C now network later sx peer es s)
          (inner_handle_ws-entry now network later sx peer es s q) d in
      (sent, handed, kept, write_loop-taken queue)
