-- ===== src/Server/Calls.antt =====
-- What a connection's reader of src/helpers/internal_server.rs does to the registry of
-- src/helpers/client_sender.rs, as calls of it.
use atomic_websocket.Base.{
  ℕ, suc, ◌+◌, ◌<◌, ◌≤◌, ◌^◌, ◌≡◌, refl, sym, ap, ◌∙◌, subst, Text, Bool, true, false, ◌&&◌, ◌==◌,
  pos_i16, if◌then◌else◌, Option, none, some, List, [], ◌∷◌, ◌++◌, length, length-append, arith,
}
use atomic_websocket.Runtime.Channel.{Channel}
use atomic_websocket.Runtime.Table.{Table}
use atomic_websocket.Runtime.Codec.{DeResult, ok, err}
use atomic_websocket.Schema.{Primitives, Category, Data, Ping, data_codec, ping_codec}
use atomic_websocket.Message.{get_data_schema, pong, disconnect, code16}
use atomic_websocket.Options.{ServerOptions, MessageMiddleware}
use atomic_websocket.Clients.{ClientSender, Network, HandlerMessage, hand, ClientSenders, add}
use atomic_websocket.Clients.Gauge.{IsGauge}
use atomic_websocket.Clients.Growth.{active}
use atomic_websocket.Clients.History.{Call, adds, sends, receives, step, run, run-IsGauge}
use atomic_websocket.Server.{
  on_connect_all, should_forward, forward_bytes, proxied, identify, identify_proxy, first_ping,
  first_proxy, first_data, get_id_from_first_message, pass_on, answer, handle_data, handle_message,
  read_loop, serve, read_stream, inner_handle_ws,
}

module _ (T : Table ClientSender) (C : Channel HandlerMessage) where
  -- At most `n` calls lead from one state to the other.
  pub record Calls (n : ℕ) (s t : ClientSenders T C) : Type 0 where
    pub calls : List (ℕ × Network × Call)
    pub count : length calls ≤ n
    pub reached : t ≡ run T C calls s

  none-Calls : (n : ℕ) (s : ClientSenders T C) → Calls n s s
  unfolding run
  none-Calls n s = record { calls = []; count = omega arith; reached = refl }

  run-append :
      (cs ds : List (ℕ × Network × Call)) (s : ClientSenders T C)
      → run T C (cs ++ ds) s ≡ run T C ds (run T C cs s)
  unfolding run
  run-append [] ds s = refl
  run-append (c ∷ cs) ds s = run-append cs ds (step T C c s)

  Calls-trans :
      (m n : ℕ) (s t u : ClientSenders T C) → Calls m s t → Calls n t u → Calls (m + n) s u
  Calls-trans m n s t u a b = record {
    calls = a.calls ++ b.calls;
    count = omega (arith, a.count, b.count, length-append a.calls b.calls);
    reached = b.reached ∙ ap (run T C b.calls) a.reached ∙ sym (run-append a.calls b.calls s);
  }

  step-Calls : (c : ℕ × Network × Call) (s : ClientSenders T C) → Calls 1 s (step T C c s)
  unfolding run
  step-Calls c s = record { calls = c ∷ []; count = omega arith; reached = refl }

  either :
      (n : ℕ) (b : Bool) (s t u : ClientSenders T C)
      → Calls n s t
      → Calls n s u
      → Calls n s (if b then t else u)
  either n true s t u h k = h
  either n false s t u h k = k

  -- The same behind an answer.
  either_beside :
      {A : Type 0} (n : ℕ) (b : Bool) (s : ClientSenders T C) (r q : A × ClientSenders T C)
      → Calls n s r.1
      → Calls n s q.1
      → Calls n s (if b then r else q).1
  either_beside n true s r q h k = h
  either_beside n false s r q h k = k

  module _ (P : Primitives) where
    forward_bytes-Calls :
        (o : Option Text) (id : Text) (now : ℕ) (network : Network) (s : ClientSenders T C)
        → Calls 1 s (forward_bytes T C P o id s)
    unfolding step
    forward_bytes-Calls none id now network s = none-Calls 1 s
    forward_bytes-Calls (some bytes) id now network s =
        step-Calls (now, network, receives bytes id) s

    pass_on-Calls :
        (now : ℕ) (network : Network) (mws : List MessageMiddleware) (id value : Text) (d : Data)
        (s : ClientSenders T C)
        → Calls 1 s (pass_on T C P mws id value d s).1
    pass_on-Calls now network mws id value d s =
        either_beside 1 (d.category == code16 Category.disconnect) s _ _ (none-Calls 1 s) (
          either_beside 1 (should_forward mws id value) s _ _
            (forward_bytes-Calls ((data_codec P).encode d) id now network s) (none-Calls 1 s))

    answer-Calls :
        (now : ℕ) (network : Network) (mws : List MessageMiddleware) (id value : Text) (d : Data)
        (o : DeResult (ℕ × Ping)) (s : ClientSenders T C)
        → Calls 1 s (answer T C P now network mws id value d o s).1
    unfolding step
    answer-Calls now network mws id value d (ok r) s =
        step-Calls (now, network, sends r.1.peer pong) s
    answer-Calls now network mws id value d (err e) s = pass_on-Calls now network mws id value d s

    handle_data-Calls :
        (now : ℕ) (network : Network) (use_ping : Bool) (mws : List MessageMiddleware)
        (id value : Text) (o : Option Data) (s : ClientSenders T C)
        → Calls 1 s (handle_data T C P now network use_ping mws id value o s).1
    handle_data-Calls now network use_ping mws id value none s = none-Calls 1 s
    handle_data-Calls now network use_ping mws id value (some d) s =
        either_beside 1 ((d.category == code16 Category.ping) && use_ping) s _ _
          (answer-Calls now network mws id value d ((ping_codec P).decode d.datas) s)
          (pass_on-Calls now network mws id value d s)

    read_loop-Calls :
        (network : Network) (use_ping : Bool) (mws : List MessageMiddleware) (id : Text)
        (values : List (ℕ × Text)) (s : ClientSenders T C)
        → Calls (length values) s (read_loop T C P network use_ping mws id values s)
    unfolding read_loop handle_message
    read_loop-Calls network use_ping mws id [] s = none-Calls 0 s
    read_loop-Calls network use_ping mws id ((now, value) ∷ rest) s =
        let r = handle_data T C P now network use_ping mws id value (get_data_schema value) s in
        let one = handle_data-Calls now network use_ping mws id value (get_data_schema value) s in
        let all =
          Calls-trans 1 (length rest) s r.1 _ one
            (read_loop-Calls network use_ping mws id rest r.1) in
        either (suc (length rest)) r.0 s _ _
          (record { calls = one.calls; count = omega (arith, one.count); reached = one.reached })
          (record { calls = all.calls; count = omega (arith, all.count); reached = all.reached })

    identify-Calls :
        (now : ℕ) (network : Network) (sx : ℕ) (d : Data) (peer : Text) (s : ClientSenders T C)
        → Calls 2 s (identify T C P now network sx d peer s).1
    unfolding step
    identify-Calls now network sx d peer s =
        let s' = add T C now network peer sx s in
        Calls-trans 1 1 s s' _ (step-Calls (now, network, adds peer sx) s) (
          either 1 s.options.use_ping s' _ _ (step-Calls (now, network, sends peer pong) s') (
            forward_bytes-Calls ((data_codec P).encode (proxied T C P s.options d)) peer now network
              s'))

    identify_proxy-Calls :
        (now : ℕ) (network : Network) (sx : ℕ) (d : Data) (peer : Text) (s : ClientSenders T C)
        → Calls 2 s (identify_proxy T C P now network sx d peer s).1
    unfolding step
    identify_proxy-Calls now network sx d peer s =
        let s' = add T C now network peer sx s in
        let d' : Data = record d { category = s.options.proxy_ping } in
        Calls-trans 1 1 s s' _ (step-Calls (now, network, adds peer sx) s)
          (forward_bytes-Calls ((data_codec P).encode d') peer now network s')

    first_ping-Calls :
        (now : ℕ) (network : Network) (sx : ℕ) (d : Data) (o : DeResult (ℕ × Ping))
        (s : ClientSenders T C)
        → Calls 2 s (first_ping T C P now network sx d o s).1
    first_ping-Calls now network sx d (ok r) s = identify-Calls now network sx d r.1.peer s
    first_ping-Calls now network sx d (err e) s = none-Calls 2 s

    first_proxy-Calls :
        (now : ℕ) (network : Network) (sx : ℕ) (d : Data) (o : DeResult (ℕ × Ping))
        (s : ClientSenders T C)
        → Calls 2 s (first_proxy T C P now network sx d o s).1
    first_proxy-Calls now network sx d (ok r) s = identify_proxy-Calls now network sx d r.1.peer s
    first_proxy-Calls now network sx d (err e) s = none-Calls 2 s

    first_data-Calls :
        (now : ℕ) (network : Network) (sx : ℕ) (o : Option Data) (s : ClientSenders T C)
        → Calls 2 s (first_data T C P now network sx o s).1
    first_data-Calls now network sx none s = none-Calls 2 s
    first_data-Calls now network sx (some d) s =
        let o = (ping_codec P).decode d.datas in
        either_beside 2 (d.category == code16 Category.ping) s _ _
          (first_ping-Calls now network sx d o s)
          (either_beside 2 (pos_i16 s.options.proxy_ping && (d.category == s.options.proxy_ping)) s
            _ _ (first_proxy-Calls now network sx d o s) (none-Calls 2 s))

    serve-Calls :
        (network : Network) (options : ServerOptions) (rest : List (ℕ × Text))
        (r : Option Text × ClientSenders T C)
        → Calls (length rest) r.1 (serve T C P network options rest r)
    serve-Calls network options rest (none, s) = none-Calls (length rest) s
    serve-Calls network options rest (some id, s) =
        either (length rest) (on_connect_all options.middlewares id) s _ _
          (read_loop-Calls network options.use_ping options.middlewares id rest s)
          (none-Calls (length rest) s)

    read_stream-Calls :
        (network : Network) (options : ServerOptions) (sx : ℕ) (stream : List (ℕ × Text))
        (s : ClientSenders T C)
        → Calls (suc (length stream)) s (read_stream T C P network options sx stream s)
    unfolding get_id_from_first_message
    read_stream-Calls network options sx [] s = none-Calls 1 s
    read_stream-Calls network options sx ((now, value) ∷ rest) s =
        let r = first_data T C P now network sx (get_data_schema value) s in
        let all =
          Calls-trans 2 (length rest) s r.1 _
            (first_data-Calls now network sx (get_data_schema value) s)
            (serve-Calls network options rest r) in
        record { calls = all.calls; count = omega (arith, all.count); reached = all.reached }

    -- All that a connection's reader does to the registry, from the first message to the last, are
    -- calls of it, at most one for each message and one more; what it writes beside them is its
    -- farewell, to its own channel. So it keeps the gauge of active connections at the number of
    -- registered clients, as long as that and the calls stay below 2 ^ 64.
    pub inner_handle_ws-IsGauge :
        (network : Network) (sx : ℕ) (peer : Text) (stream : List (ℕ × Text))
        (s : ClientSenders T C)
        → IsGauge T C s
        → active T C s + suc (length stream) < 2 ^ 64
        → (cs : List (ℕ × Network × Call)) × (length cs ≤ suc (length stream))
          × (inner_handle_ws T C P network sx peer stream s ≡ record (run T C cs s) {
            handed = hand (network sx) sx (disconnect peer) (run T C cs s).handed;
          })
          × IsGauge T C (inner_handle_ws T C P network sx peer stream s)
    unfolding inner_handle_ws
    inner_handle_ws-IsGauge network sx peer stream s g h =
        let r = read_stream-Calls network s.options sx stream s in
        let kept = run-IsGauge T C r.calls s (omega (arith, r.count)) g in
        (
          r.calls,
          r.count,
          ap
              (λ (t : ClientSenders T C). record t {
                handed = hand (network sx) sx (disconnect peer) t.handed;
              })
              r.reached,
          subst (IsGauge T C) (sym r.reached) kept,
        )
