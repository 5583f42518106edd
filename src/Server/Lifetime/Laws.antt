-- ===== src/Server/Lifetime/Laws.antt =====
-- What holds of a server of src/helpers/internal_server.rs in every order of the turns of its tasks,
-- and what its shutdown leaves running.
use atomic_websocket.Base.{
  ℕ, zero, suc, ◌+◌, ◌<◌, ◌≤◌, ◌^◌, ◌≡◌, refl, ap, ◌∙◌, Bool, true, false, if◌then◌else◌, if-false,
  none, some, List, [], ◌∷◌, length, arith,
}
use atomic_websocket.Runtime.Channel.{Channel}
use atomic_websocket.Runtime.Table.{Table}
use atomic_websocket.Options.{ServerOptions}
use atomic_websocket.Clients.{
  ClientSender, Network, delivered, HandlerMessage, len, new_with_buffer_size, set_options,
}
use atomic_websocket.Clients.Gauge.{IsGauge}
use atomic_websocket.Clients.Growth.{active}
use atomic_websocket.Clients.History.{Call, checks, step-le, step-IsGauge}
use atomic_websocket.Clients.History
use atomic_websocket.Server.Slots.{handle_accept, drop_permit, take_permit_lem}
use atomic_websocket.Server.Lifetime.{
  Arrival, stream, no_peer_addr, failed, Turn, arrives, stops_accepting, ticks, stops_checking,
  leaves, upgrades, upgraded_leaves, calls, AtomicServer, new, shutdown, accept_upgraded,
  end_accepted, end_upgraded, accept, turn, run,
}

add_zero : (n : ℕ) → n + 0 ≡ n
add_zero n = omega arith

module _ (T : Table ClientSender) (C : Channel HandlerMessage) where
  abbrev total : AtomicServer T C → ℕ
  total v = v.slots.permits + v.slots.connections

  -- What a turn keeps: permits and connections add up to what they did, and the gauge.
  record Keeps (v w : AtomicServer T C) : Type 0 where
    slots : total w ≡ total v
    grows : active T C w.client_senders ≤ suc (active T C v.client_senders)
    gauge : IsGauge T C w.client_senders

  same-Keeps : (v : AtomicServer T C) → IsGauge T C v.client_senders → Keeps v v
  same-Keeps v g = record { slots = refl; grows = omega arith; gauge = g }

  accept-Keeps :
      (a : Arrival) (v : AtomicServer T C) → IsGauge T C v.client_senders → Keeps v (accept T C a v)
  unfolding handle_accept
  accept-Keeps stream v g = record {
    slots = (take_permit_lem v.slots.permits v.slots refl).0;
    grows = omega arith;
    gauge = g;
  }
  accept-Keeps no_peer_addr v g = same-Keeps v g
  accept-Keeps failed v g = same-Keeps v g

  end_accepted-Keeps :
      (n : ℕ) (v : AtomicServer T C)
      → v.slots.connections ≡ n
      → IsGauge T C v.client_senders
      → Keeps v (end_accepted T C n v)
  unfolding drop_permit
  end_accepted-Keeps zero v e g = same-Keeps v g
  end_accepted-Keeps (suc n) v e g = record {
    slots = omega (arith, e);
    grows = omega arith;
    gauge = g;
  }

  end_upgraded-Keeps :
      (n : ℕ) (v : AtomicServer T C) → IsGauge T C v.client_senders → Keeps v (end_upgraded T C n v)
  end_upgraded-Keeps zero v g = same-Keeps v g
  end_upgraded-Keeps (suc n) v g = record { slots = refl; grows = omega arith; gauge = g }

  call-Keeps :
      (c : ℕ × Network × Call) (v : AtomicServer T C)
      → suc (active T C v.client_senders) < 2 ^ 64
      → IsGauge T C v.client_senders
      → Keeps v (record v { client_senders = History.step T C c v.client_senders })
  call-Keeps c v h g = record {
    slots = refl;
    grows = step-le T C c v.client_senders;
    gauge = step-IsGauge T C c v.client_senders h g;
  }

  if-Keeps :
      (b : Bool) (v x y : AtomicServer T C) → Keeps v x → Keeps v y → Keeps v (if b then x else y)
  if-Keeps true v x y k l = k
  if-Keeps false v x y k l = l

  turn-Keeps :
      (t : Turn) (v : AtomicServer T C)
      → suc (active T C v.client_senders) < 2 ^ 64
      → IsGauge T C v.client_senders
      → Keeps v (turn T C t v)
  unfolding turn accept_upgraded History.step
  turn-Keeps (arrives a) v h g = if-Keeps v.accepting v _ _ (accept-Keeps a v g) (same-Keeps v g)
  turn-Keeps stops_accepting v h g =
      if-Keeps v.cancelled v _ _ (record { slots = refl; grows = omega arith; gauge = g })
        (same-Keeps v g)
  turn-Keeps (ticks now) v h g =
      if-Keeps v.checking v _ _ (call-Keeps (now, (λ _. delivered), checks) v h g) (same-Keeps v g)
  turn-Keeps stops_checking v h g =
      if-Keeps v.cancelled v _ _ (record { slots = refl; grows = omega arith; gauge = g })
        (same-Keeps v g)
  turn-Keeps leaves v h g = end_accepted-Keeps v.slots.connections v refl g
  turn-Keeps upgrades v h g = record { slots = refl; grows = omega arith; gauge = g }
  turn-Keeps upgraded_leaves v h g = end_upgraded-Keeps v.upgraded v g
  turn-Keeps (calls c) v h g = call-Keeps c v h g

  run-Keeps :
      (ts : List Turn) (v : AtomicServer T C)
      → active T C v.client_senders + length ts < 2 ^ 64
      → IsGauge T C v.client_senders
      → (total (run T C ts v) ≡ total v) × IsGauge T C (run T C ts v).client_senders
  unfolding run
  run-Keeps [] v h g = (refl, g)
  run-Keeps (t ∷ ts) v h g =
      let k = turn-Keeps t v (omega arith) g in
      let (slots, gauge) = run-Keeps ts (turn T C t v) (omega (arith, k.grows)) k.gauge in
      (slots ∙ k.slots, gauge)

  -- A new server with a registry of its own: however arrivals, ends of connections, rounds of the
  -- checker, calls of the registry, cancellation and upgraded connections follow each other, as long
  -- as there are fewer than 2 ^ 64 of them, permits and accepted connections add up to
  -- `max_connections`, so that there are never more connections than that, and the gauge of active
  -- connections is the number of registered clients.
  pub run-new :
      (c : C.Chan) (option : ServerOptions) (ts : List Turn)
      → length ts < 2 ^ 64
      → (v : AtomicServer T C) × (new T C c true option none ≡ some v)
        × ((run T C ts v).slots.permits + (run T C ts v).slots.connections ≡ option.max_connections)
        × ((run T C ts v).client_senders.metrics.connections_active
            ≡ len T C (run T C ts v).client_senders)
  unfolding new new_with_buffer_size set_options
  run-new c option ts h =
      let k = run-Keeps ts _ (omega arith) (rw T.iter-empty refl) in
      (_, refl, k.0 ∙ add_zero option.max_connections, k.1)

  -- The turns of the two loops that the server itself runs.
  abbrev pub IsBackground : List Turn → Type 0
  IsBackground [] = Unit {0}
  IsBackground (arrives a ∷ ts) = IsBackground ts
  IsBackground (stops_accepting ∷ ts) = IsBackground ts
  IsBackground (ticks now ∷ ts) = IsBackground ts
  IsBackground (stops_checking ∷ ts) = IsBackground ts
  IsBackground (leaves ∷ ts) = ⊥
  IsBackground (upgrades ∷ ts) = ⊥
  IsBackground (upgraded_leaves ∷ ts) = ⊥
  IsBackground (calls c ∷ ts) = ⊥

  record IsDown (v : AtomicServer T C) : Type 0 where
    accepting : v.accepting ≡ false
    checking : v.checking ≡ false

  run-down : (ts : List Turn) (v : AtomicServer T C) → IsBackground ts → IsDown v → run T C ts v ≡ v
  unfolding run turn
  run-down [] v b d = refl
  run-down (arrives a ∷ ts) v b d = ap (run T C ts) (if-false _ _ _ d.accepting) ∙ run-down ts v b d
  run-down (stops_accepting ∷ ts) v b d =
      ap (run T C ts) (ground (arith, d.accepting)) ∙ run-down ts v b d
  run-down (ticks now ∷ ts) v b d = ap (run T C ts) (if-false _ _ _ d.checking) ∙ run-down ts v b d
  run-down (stops_checking ∷ ts) v b d =
      ap (run T C ts) (ground (arith, d.checking)) ∙ run-down ts v b d
  run-down (leaves ∷ ts) v b d = absurd b
  run-down (upgrades ∷ ts) v b d = absurd b
  run-down (upgraded_leaves ∷ ts) v b d = absurd b
  run-down (calls c ∷ ts) v b d = absurd b

  -- Once both loops have seen a shutdown, no arrival and no tick of the checker changes anything. The
  -- shutdown itself closes no connection and removes no client: the registry and the permits are
  -- what they were, so that from then on no client expires, however long it is silent.
  pub run-shutdown :
      (v : AtomicServer T C) (ts : List Turn)
      → IsBackground ts
      → let w = run T C (stops_accepting ∷ stops_checking ∷ []) (shutdown T C v) in
        (run T C ts w ≡ w) × (w.client_senders ≡ v.client_senders) × (w.slots ≡ v.slots)
  unfolding run turn shutdown
  run-shutdown v ts b = (run-down ts _ b (record { accepting = refl; checking = refl }), refl, refl)
