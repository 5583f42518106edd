-- ===== src/Server/Received.antt =====
-- What the application gets from a connection of src/helpers/internal_server.rs in the bebop build.
use atomic_websocket.Base.{
  ℕ, ◌≡◌, refl, sym, Text, Bool, true, false, not, ◌&&◌, ◌==◌, if◌then◌else◌, Option, none, some,
  List, [], ◌∷◌, ◌++◌, put, append-nil, arith, inl, inr, subst, Bool-cases, if-true, if-false,
}
use atomic_websocket.Runtime.Channel.{Channel}
use atomic_websocket.Runtime.Table.{Table}
use atomic_websocket.Runtime.Codec.{DeResult, ok, err}
use atomic_websocket.Schema.{Primitives, Category, Data, Ping, data_codec, ping_codec}
use atomic_websocket.Message.{get_data_schema, code16, pong}
use atomic_websocket.Options.{MessageMiddleware}
use atomic_websocket.Spillover.Each.{Interleaving, done, Interleaving-append, offer_all}
use atomic_websocket.Clients.{
  ClientSender, Network, HandlerMessage, ClientSenders, send_handle_message,
}
use atomic_websocket.Clients.Inbox.{
  Offers, Offers-trans, handed_on, step-Offers, send_and_track-SameInbox,
}
use atomic_websocket.Server.{forward_bytes, pass_on, answer, handle_data, handle_message}
use atomic_websocket.Server.Reader.{
  Event, message, end_of_stream, calls, Serving, advance, run, frames, by_others, is_answered,
  from_id, for_handler, verdict, for_handler-cons,
}

module _ (T : Table ClientSender) (C : Channel HandlerMessage) (P : Primitives) (use_ping : Bool)
    (middlewares : List MessageMiddleware) (id : Text) where
  forward_bytes-Offers :
      (o : Option Text) (s : ClientSenders T C)
      → Offers T C s (put (from_id P use_ping middlewares id o) []) (forward_bytes T C P o id s)
  unfolding send_handle_message
  forward_bytes-Offers none s = record { buffers = refl; size = refl }
  forward_bytes-Offers (some bytes) s = record { buffers = refl; size = refl }

  -- The state behind a message, with what it contributes and whether the reader goes on.
  record Hands (s : ClientSenders T C) (v : List HandlerMessage × Bool)
      (r : Bool × ClientSenders T C) : Type 0 where
    offers : Offers T C s v.0 r.1
    goes_on : not r.0 ≡ v.1

  pass_on-Hands :
      (value : Text) (d : Data) (s : ClientSenders T C)
      → is_answered P use_ping middlewares id d ≡ false
      → Hands s
          (verdict P use_ping middlewares id value (some d))
          (pass_on T C P middlewares id value d s)
  pass_on-Hands value d s h =
      let f = forward_bytes-Offers ((data_codec P).encode d) s in
      record {
        offers = record {
          buffers = ground (arith, f.buffers, h);
          size = ground (arith, f.size, h);
        };
        goes_on = ground (arith, h);
      }

  answer-Hands :
      (now : ℕ) (network : Network) (value : Text) (d : Data) (o : DeResult (ℕ × Ping))
      (s : ClientSenders T C)
      → (ping_codec P).decode d.datas ≡ o
      → ((d.category == code16 Category.ping) && use_ping) ≡ true
      → Hands s
          (verdict P use_ping middlewares id value (some d))
          (answer T C P now network middlewares id value d o s)
  answer-Hands now network value d (ok r) s e h =
      let same = send_and_track-SameInbox T C now network r.1.peer pong s in
      rw (e, h)
        (record { offers = record { buffers = same.buffers; size = same.size }; goes_on = refl })
  answer-Hands now network value d (err x) s e h = pass_on-Hands value d s (rw (e, h) refl)

  handle_data-Hands :
      (now : ℕ) (network : Network) (value : Text) (o : Option Data) (s : ClientSenders T C)
      → Hands s
          (verdict P use_ping middlewares id value o)
          (handle_data T C P now network use_ping middlewares id value o s)
  handle_data-Hands now network value none s = record {
    offers = record { buffers = refl; size = refl };
    goes_on = refl;
  }
  handle_data-Hands now network value (some d) s =
      elim (Bool-cases ((d.category == code16 Category.ping) && use_ping)) [
        | inl h ↦
            subst (Hands s (verdict P use_ping middlewares id value (some d)))
              (sym (if-true _ _ _ h))
              (answer-Hands now network value d ((ping_codec P).decode d.datas) s refl h)
        | inr h ↦
            subst (Hands s (verdict P use_ping middlewares id value (some d)))
              (sym (if-false _ _ _ h)) (pass_on-Hands value d s (rw h refl))
      ]

  -- What an event adds while the reader runs, and whether it runs on.
  abbrev adds : Bool → Event → List HandlerMessage × Bool
  adds true (message now network value) =
      verdict P use_ping middlewares id value (get_data_schema value)
  adds true end_of_stream = ([], false)
  adds true (calls c) = ([], true)
  adds false e = ([], false)

  -- What an event adds by another task.
  abbrev adds_others : Event → List HandlerMessage
  adds_others (calls (now, network, c)) = handed_on c
  adds_others _ = []

  -- A step of the connection, or of another task.
  record Delivers (x : Serving T C P use_ping middlewares id) (e : Event) (b : Bool)
      (y : Serving T C P use_ping middlewares id) : Type 0 where
    offers : Offers T C x.senders ((adds b e).0 ++ adds_others e) y.senders
    reads : y.reading ≡ (adds b e).1

  advance-Delivers :
      (e : Event) (x : Serving T C P use_ping middlewares id) (b : Bool)
      → x.reading ≡ b
      → Delivers x e b (advance T C P use_ping middlewares id e x)
  unfolding advance handle_message
  advance-Delivers (message now network value) x true h =
      let d = handle_data-Hands now network value (get_data_schema value) x.senders in
      rw h (record {
        offers =
            subst
              (λ ms.
                Offers T C x.senders ms
                  (handle_data T C P now network use_ping middlewares id value
                    (get_data_schema value) x.senders).1)
              (sym (append-nil _)) d.offers;
        reads = d.goes_on;
      })
  advance-Delivers (message now network value) x false h =
      rw h (record { offers = record { buffers = refl; size = refl }; reads = refl })
  advance-Delivers end_of_stream x true h = record {
    offers = record { buffers = refl; size = refl };
    reads = refl;
  }
  advance-Delivers end_of_stream x false h = record {
    offers = record { buffers = refl; size = refl };
    reads = refl;
  }
  advance-Delivers (calls (now, network, c)) x true h = record {
    offers = step-Offers T C now network c x.senders;
    reads = h;
  }
  advance-Delivers (calls (now, network, c)) x false h = record {
    offers = step-Offers T C now network c x.senders;
    reads = h;
  }

  -- From a state of the reader on.
  abbrev expected : Bool → List Event → List HandlerMessage
  expected b es = if b then for_handler P use_ping middlewares id (frames es) else []

  expected-cons :
      (b : Bool) (e : Event) (es : List Event)
      → expected b (e ∷ es) ≡ (adds b e).0 ++ expected (adds b e).1 es
  expected-cons true (message now network value) es =
      for_handler-cons P use_ping middlewares id value (frames es)
  expected-cons true end_of_stream es = refl
  expected-cons true (calls c) es = refl
  expected-cons false e es = refl

  by_others-cons :
      (e : Event) (es : List Event) → by_others (e ∷ es) ≡ adds_others e ++ by_others es
  by_others-cons (message now network value) es = refl
  by_others-cons end_of_stream es = refl
  by_others-cons (calls (now, network, c)) es = refl

  run-Offers :
      (es : List Event) (x : Serving T C P use_ping middlewares id) (b : Bool)
      → x.reading ≡ b
      → (ms : List HandlerMessage) × Interleaving (expected b es) (by_others es) ms
        × Offers T C x.senders ms (run T C P use_ping middlewares id es x).senders
  unfolding run
  run-Offers [] x true h = ([], done, record { buffers = refl; size = refl })
  run-Offers [] x false h = ([], done, record { buffers = refl; size = refl })
  run-Offers (e ∷ es) x b h =
      let y = advance T C P use_ping middlewares id e x in
      let d = advance-Delivers e x b h in
      let (ms, i, o) = run-Offers es y (adds b e).1 d.reads in
      (
        ((adds b e).0 ++ adds_others e) ++ ms,
        subst (λ xs. Interleaving xs (by_others (e ∷ es)) (((adds b e).0 ++ adds_others e) ++ ms))
            (sym (expected-cons b e es))
            (subst
              (λ ys.
                Interleaving ((adds b e).0 ++ expected (adds b e).1 es) ys
                  (((adds b e).0 ++ adds_others e) ++ ms))
              (sym (by_others-cons e es)) (Interleaving-append (adds b e).0 (adds_others e) i)),
        Offers-trans T C x.senders y.senders _ _ _ d.offers o,
      )

  -- Whatever the other tasks of the server do to the registry meanwhile, other connections
  -- included, the application is offered an interleaving of what they hand to it, and of the
  -- following messages, in order and under the client's identifier: what the client sent before
  -- its first disconnect or the end of its stream, less what cannot be read, the pings that the
  -- server answers, and what a middleware stops.
  pub run-Interleaving :
      (es : List Event) (s : ClientSenders T C)
      → let start : Serving T C P use_ping middlewares id = record {
        reading = true;
        senders = s;
      } in
        (ms : List HandlerMessage) × Interleaving
          (for_handler P use_ping middlewares id (frames es))
          (by_others es)
          ms
        × ((run T C P use_ping middlewares id es start).senders.buffers
            ≡ offer_all C s.spillover_buffer_size s.buffers ms)
  run-Interleaving es s =
      let start : Serving T C P use_ping middlewares id = record { reading = true; senders = s } in
      let (ms, i, o) = run-Offers es start true refl in (ms, i, o.buffers)
