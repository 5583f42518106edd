-- ===== src/Connect/Stream/Received.antt =====
-- What the application gets from a client's session of src/helpers/get_internal_websocket.rs.
use atomic_websocket.Base.{
  ℕ, zero, suc, ◌≡◌, refl, ap, sym, subst, if-true, if-false, ◌∙◌, Text, Bool, true, false,
  if◌then◌else◌, Option, none, some, List, [], ◌∷◌, ◌++◌, put, arith,
}
use atomic_websocket.Runtime.Channel.{Channel}
use atomic_websocket.Runtime.Database.{Database}
use atomic_websocket.Schema.{Primitives, Data, data_codec}
use atomic_websocket.Message.{Outgoing, get_data_schema, ping}
use atomic_websocket.Options.{ClientOptions}
use atomic_websocket.Spillover.{Buffers}
use atomic_websocket.Spillover.Each.{offer_all, offer_all-append}
use atomic_websocket.Sender.{
  Reply, SenderStatus, ServerSender, connected, send_handle_message, notify, write_received_times,
}
use atomic_websocket.Sender
use atomic_websocket.Sender.Inbox.{SameInbox, notify-SameInbox, send-SameInbox}
use atomic_websocket.Connect.Stream.{
  Event, message, end_of_stream, wake, send, Stream, forward_bytes, receive, receive_data,
  by_category, announce, on_sender, with_reader, woken, with_stream, step, run,
}
use atomic_websocket.Connect.Stream.Expected.{
  frames, for_application, verdict, for_application-cons,
}

module _ (S : Channel SenderStatus) (C : Channel Text) (D : Database) (P : Primitives) (sx : ℕ)
    (server_ip id : Text) where
  -- From `x` on the messages `ms` were offered, and the reader runs or has stopped.
  record Takes (x : Stream S C D P sx server_ip id) (ms : List Text) (reading : Bool)
      (y : Stream S C D P sx server_ip id) : Type 0 where
    buffers :
        y.session.sender.buffers
        ≡ offer_all C x.session.sender.options.spillover_buffer_size x.session.sender.buffers ms
    options : y.session.sender.options ≡ x.session.sender.options
    reader : y.reader.reading ≡ reading

  forward_bytes-Takes :
      (o : Option Text) (x : Stream S C D P sx server_ip id)
      → Takes x (put o []) x.reader.reading (forward_bytes S C D P sx server_ip id o x)
  unfolding send_handle_message
  forward_bytes-Takes none x = record { buffers = refl; options = refl; reader = refl }
  forward_bytes-Takes (some bytes) x = record { buffers = refl; options = refl; reader = refl }

  by_category-Takes :
      (taken : Bool) (d : Data) (x : Stream S C D P sx server_ip id)
      → x.reader.reading ≡ true
      → let r = verdict P (some d) in
        Takes x r.0 r.1 (by_category S C D P sx server_ip id taken d x)
  by_category-Takes taken d x h =
      let f = forward_bytes-Takes ((data_codec P).encode d) x in
      record {
        buffers = ground (arith, f.buffers);
        options = ground (arith, f.options);
        reader = ground (arith, f.reader);
      }

  announce-Takes :
      (x : Stream S C D P sx server_ip id)
      → Takes x [] x.reader.reading (announce S C D P sx server_ip id x)
  announce-Takes x =
      let n = notify-SameInbox S C connected x.session.sender in
      record {
        buffers = ground (arith, n.buffers);
        options = ground (arith, n.options);
        reader = ground arith;
      }

  Takes-trans :
      (x y z : Stream S C D P sx server_ip id) (ms ns : List Text) (b c : Bool)
      → Takes x ms b y
      → Takes y ns c z
      → Takes x (ms ++ ns) c z
  Takes-trans x y z ms ns b c t u =
      let size = x.session.sender.options.spillover_buffer_size in
      record {
        buffers =
            u.buffers
            ∙ ap
                (λ (o : ClientOptions).
                  offer_all C o.spillover_buffer_size y.session.sender.buffers ns)
                t.options
            ∙ ap (λ (k : Buffers C). offer_all C size k ns) t.buffers
            ∙ sym (offer_all-append C size x.session.sender.buffers ms ns);
        options = u.options ∙ t.options;
        reader = u.reader;
      }

  receive_data-Takes :
      (taken : Bool) (o : Option Data) (x : Stream S C D P sx server_ip id)
      → x.reader.reading ≡ true
      → let r = verdict P o in Takes x r.0 r.1 (receive_data S C D P sx server_ip id taken o x)
  receive_data-Takes taken none x h = record { buffers = refl; options = refl; reader = h }
  receive_data-Takes taken (some d) x h =
      let a = announce-Takes x in
      let y = announce S C D P sx server_ip id x in
      Takes-trans x y _ [] _ _ _ a (by_category-Takes taken d y (a.reader ∙ h))

  with_stream-Takes :
      (x : Stream S C D P sx server_ip id) (o : Option (ServerSender S C))
      → ((s : ServerSender S C) → o ≡ some s → SameInbox S C x.session.sender s)
      → Takes x [] x.reader.reading (with_stream S C D P sx server_ip id x o)
  with_stream-Takes x none f = record { buffers = refl; options = refl; reader = refl }
  with_stream-Takes x (some s) f =
      let same = f s refl in
      record { buffers = same.buffers; options = same.options; reader = refl }

  sent-Takes :
      (x : Stream S C D P sx server_ip id) (replies : ℕ → Reply) (m : Outgoing)
      → Takes x [] x.reader.reading
          (with_stream S C D P sx server_ip id x (Sender.send S C replies m x.session.sender))
  sent-Takes x replies m = with_stream-Takes x _ (send-SameInbox S C replies m x.session.sender)

  woken-Takes :
      (replies : ℕ → Reply) (sleeping : ℕ) (x : Stream S C D P sx server_ip id)
      → Takes x [] x.reader.reading (woken S C D P sx server_ip id replies sleeping x)
  woken-Takes replies zero x = record { buffers = refl; options = refl; reader = refl }
  woken-Takes replies (suc n) x =
      let t =
        sent-Takes
          (with_reader S C D P sx server_ip id
            (record x.reader { is_wait_ping = false; sleeping = n }) x)
          replies (ping id) in
      record { buffers = t.buffers; options = t.options; reader = t.reader }

  receive-Takes :
      (now : ℕ) (taken : Bool) (value : Text) (x : Stream S C D P sx server_ip id)
      → x.reader.reading ≡ true
      → let r = verdict P (get_data_schema value) in
        Takes x r.0 r.1 (receive S C D P sx server_ip id now taken value x)
  unfolding receive write_received_times
  receive-Takes now taken value x h =
      let t =
        receive_data-Takes taken (get_data_schema value)
          (on_sender S C D P sx server_ip id (write_received_times S C now) x) h in
      record { buffers = t.buffers; options = t.options; reader = t.reader }

  -- What an event adds while the reader runs, and whether it runs on.
  abbrev adds : Bool → Event → List Text × Bool
  adds true (message now taken value) = verdict P (get_data_schema value)
  adds true end_of_stream = ([], false)
  adds true _ = ([], true)
  adds false e = ([], false)

  step-Takes :
      (e : Event) (x : Stream S C D P sx server_ip id) (b : Bool)
      → x.reader.reading ≡ b
      → Takes x (adds b e).0 (adds b e).1 (step S C D P sx server_ip id e x)
  unfolding step
  step-Takes (message now taken value) x true h =
      let r = verdict P (get_data_schema value) in
      subst (Takes x r.0 r.1) (sym (if-true _ _ _ h)) (receive-Takes now taken value x h)
  step-Takes (message now taken value) x false h =
      subst (Takes x [] false) (sym (if-false _ _ _ h))
        (record { buffers = refl; options = refl; reader = h })
  step-Takes end_of_stream x true h = record { buffers = refl; options = refl; reader = refl }
  step-Takes end_of_stream x false h = record { buffers = refl; options = refl; reader = refl }
  step-Takes (wake replies) x true h = rw (← h) (woken-Takes replies x.reader.sleeping x)
  step-Takes (wake replies) x false h = rw (← h) (woken-Takes replies x.reader.sleeping x)
  step-Takes (send replies m) x true h = rw (← h) (sent-Takes x replies m)
  step-Takes (send replies m) x false h = rw (← h) (sent-Takes x replies m)

  -- From a state of the reader on.
  abbrev expected : Bool → List Event → List Text
  expected b es = if b then for_application P (frames es) else []

  expected-cons :
      (b : Bool) (e : Event) (es : List Event)
      → expected b (e ∷ es) ≡ (adds b e).0 ++ expected (adds b e).1 es
  expected-cons true (message now taken value) es = for_application-cons P value (frames es)
  expected-cons true end_of_stream es = refl
  expected-cons true (wake replies) es = refl
  expected-cons true (send replies m) es = refl
  expected-cons false e es = refl

  run-expected :
      (es : List Event) (x : Stream S C D P sx server_ip id) (b : Bool)
      → x.reader.reading ≡ b
      → (run S C D P sx server_ip id es x).session.sender.buffers
        ≡ offer_all C x.session.sender.options.spillover_buffer_size x.session.sender.buffers
            (expected b es)
  unfolding run
  run-expected [] x true h = refl
  run-expected [] x false h = refl
  run-expected (e ∷ es) x b h =
      let y = step S C D P sx server_ip id e x in
      let t = step-Takes e x b h in
      let size = x.session.sender.options.spillover_buffer_size in
      run-expected es y (adds b e).1 t.reader
      ∙ ap
          (λ (o : ClientOptions).
            offer_all C o.spillover_buffer_size y.session.sender.buffers (expected (adds b e).1 es))
          t.options
      ∙ ap (λ (k : Buffers C). offer_all C size k (expected (adds b e).1 es)) t.buffers
      ∙ sym (offer_all-append C size x.session.sender.buffers (adds b e).0 _)
      ∙ ap (offer_all C size x.session.sender.buffers) (sym (expected-cons b e es))

  -- Whatever else the session and the other tasks do, the application is offered exactly what its
  -- server sent, in order: every message up to the first disconnect or the end of the stream that
  -- can be read and is no pong, and nothing else.
  pub run-offer_all :
      (es : List Event) (x : Stream S C D P sx server_ip id)
      → x.reader.reading ≡ true
      → (run S C D P sx server_ip id es x).session.sender.buffers
        ≡ offer_all C x.session.sender.options.spillover_buffer_size x.session.sender.buffers
            (for_application P (frames es))
  run-offer_all es x h = run-expected es x true h
