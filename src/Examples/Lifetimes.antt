-- ===== src/Examples/Lifetimes.antt =====
-- A server's life, the builders and the entry points at concrete inputs.
use atomic_websocket.Base.{◌+◌, ◌≡◌, true, false, none, some, List, [], ◌∷◌, arith}
use atomic_websocket.Options.{default_server_options}
use atomic_websocket.Message.{pong}
use atomic_websocket.Clients.{len}
use atomic_websocket.Clients.History.{adds, sends}
use atomic_websocket.Server.Lifetime.{
  AtomicServer, Turn, arrives, stream, failed, calls, ticks, leaves, upgrades, stops_accepting,
  stops_checking, new, run, shutdown,
}
use atomic_websocket.Server.Lifetime.Laws.{run-new, run-shutdown}
use atomic_websocket.Examples.Values.{peer, network, clients, messages, two_clients, empty_chan}

abbrev turns : List Turn
turns =
    arrives stream
    ∷ calls (1, network, adds peer 3)
    ∷ arrives failed
    ∷ upgrades
    ∷ calls (2, network, sends peer pong)
    ∷ ticks 60
    ∷ leaves
    ∷ []

run-new_example :
    (v : AtomicServer clients messages) × (new clients messages
        (empty_chan 2)
        true
        default_server_options
        none
      ≡ some v)
    × ((run clients messages turns v).slots.permits
          + (run clients messages turns v).slots.connections
        ≡ 512)
    × ((run clients messages turns v).client_senders.metrics.connections_active
        ≡ len clients messages (run clients messages turns v).client_senders)
run-new_example = run-new clients messages (empty_chan 2) default_server_options turns (omega arith)

abbrev serving : AtomicServer clients messages
serving = record {
  client_senders = two_clients;
  slots = record { permits = 510; connections = 2 };
  upgraded = 0;
  cancelled = false;
  accepting = true;
  checking = true;
}

abbrev down : AtomicServer clients messages
down =
    run clients messages (stops_accepting ∷ stops_checking ∷ []) (shutdown clients messages serving)

run-shutdown_example :
    (run clients messages (ticks 100000 ∷ arrives stream ∷ []) down ≡ down)
    × (down.client_senders ≡ two_clients)
    × (down.slots ≡ serving.slots)
run-shutdown_example = run-shutdown clients messages serving (ticks 100000 ∷ arrives stream ∷ []) tt
