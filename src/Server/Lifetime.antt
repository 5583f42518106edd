-- ===== src/Server/Lifetime.antt =====
-- A server from its start to its shutdown: `AtomicServer` of src/helpers/internal_server.rs with its
-- accept loop, `loop_client_checker` and the tasks of its connections, each taking its turns in any
-- order. A loop that meets its `select!` takes the branch of a turn.
pub mod Laws
use atomic_websocket.Base.{
  ℕ, zero, suc, ◌+◌, ◌<◌, ◌≤◌, ◌^◌, max, ◌≡◌, refl, ap, ◌∙◌, Text, Bool, true, false, if◌then◌else◌,
  if-true, if-false, Bool-cases, inl, inr, Option, none, some, List, [], ◌∷◌, length, arith,
}
use atomic_websocket.Runtime.Channel.{Channel}
use atomic_websocket.Runtime.Table.{Table}
use atomic_websocket.Options.{ServerOptions}
use atomic_websocket.Clients.{
  ClientSender, Network, HandlerMessage, ClientSenders, len, new_with_buffer_size, set_options,
  check_client_send_time,
}
use atomic_websocket.Clients.Gauge.{IsGauge}
use atomic_websocket.Clients.Growth.{active}
use atomic_websocket.Clients.History.{Call, checks}
use atomic_websocket.Clients.History
use atomic_websocket.Server.Slots.{
  Slots, all_free, handle_accept, drop_permit, take_permit, take_permit_lem,
}

-- What `listener.accept()` and `peer_addr()` give.
pub data Arrival : Type 0 where
  stream no_peer_addr failed : Arrival

pub data Turn : Type 0 where
  -- The accept loop takes an arrival, or sees the cancellation.
  arrives : Arrival → Turn
  stops_accepting : Turn
  -- The checker's interval ticks, or it sees the cancellation.
  ticks : ℕ → Turn
  stops_checking : Turn
  -- An accepted connection ends, an upgraded one begins or ends.
  leaves : Turn
  upgrades : Turn
  upgraded_leaves : Turn
  -- A connection's task or the application calls the registry.
  calls : ℕ × Network × Call → Turn

-- `check_interval_secs.max(1)`, the period of the checker.
unfoldable pub check_period : ServerOptions → ℕ
check_period option = max option.client_check_interval_secs 1

module _ (T : Table ClientSender) (C : Channel HandlerMessage) where
  pub record AtomicServer : Type 0 where
    pub client_senders : ClientSenders T C
    pub slots : Slots
    -- Connections that `accept_upgraded` was given.
    pub upgraded : ℕ
    pub cancelled : Bool
    pub accepting : Bool
    pub checking : Bool

  abbrev registry : C.Chan → ServerOptions → Option (ClientSenders T C) → ClientSenders T C
  registry c option none = new_with_buffer_size T C c option.spillover_buffer_size
  registry c option (some client_senders) = client_senders

  -- `AtomicServer::new`; `c` is the channel of a registry of its own, and the flag tells whether the
  -- address could be bound.
  unfoldable pub new :
      C.Chan → Bool → ServerOptions → Option (ClientSenders T C) → Option AtomicServer
  new c bound option client_senders =
      if bound
      then some (record {
        client_senders = set_options T C option (registry c option client_senders);
        slots = all_free option.max_connections;
        upgraded = 0;
        cancelled = false;
        accepting = true;
        checking = true;
      })
      else none

  unfoldable pub shutdown : AtomicServer → AtomicServer
  shutdown v = record v { cancelled = true }

  -- `accept_upgraded` spawns the connection's task, without a permit.
  unfoldable pub accept_upgraded : AtomicServer → AtomicServer
  accept_upgraded v = record v { upgraded = suc v.upgraded }

  abbrev end_accepted : ℕ → AtomicServer → AtomicServer
  end_accepted zero v = v
  end_accepted (suc n) v = record v { slots = drop_permit v.slots }

  abbrev end_upgraded : ℕ → AtomicServer → AtomicServer
  end_upgraded zero v = v
  end_upgraded (suc n) v = record v { upgraded = n }

  abbrev accept : Arrival → AtomicServer → AtomicServer
  accept stream v = record v { slots = (handle_accept v.slots).1 }
  accept no_peer_addr v = v
  accept failed v = v

  -- A loop that has ended takes no turn.
  unfoldable pub turn : Turn → AtomicServer → AtomicServer
  turn (arrives a) v = if v.accepting then accept a v else v
  turn stops_accepting v = if v.cancelled then record v { accepting = false } else v
  turn (ticks now) v =
      if v.checking
      then record v { client_senders = check_client_send_time T C now v.client_senders }
      else v
  turn stops_checking v = if v.cancelled then record v { checking = false } else v
  turn leaves v = end_accepted v.slots.connections v
  turn upgrades v = accept_upgraded v
  turn upgraded_leaves v = end_upgraded v.upgraded v
  turn (calls c) v = record v { client_senders = History.step T C c v.client_senders }

  unfoldable pub run : List Turn → AtomicServer → AtomicServer
  run [] v = v
  run (t ∷ ts) v = run ts (turn t v)
