-- ===== src/Metrics.antt =====
-- src/helpers/metrics.rs: the counters. Each is an AtomicU64, whose `fetch_add` wraps.
pub mod Snapshot
use atomic_websocket.Base.{ℕ, ◌-◌, add64, ltb, if◌then◌else◌}

pub record Metrics : Type 0 where
  pub messages_sent : ℕ
  pub messages_received : ℕ
  pub messages_dropped : ℕ
  pub connections_total : ℕ
  pub connections_active : ℕ
  pub reconnections : ℕ
  pub send_errors : ℕ

abbrev pub new : Metrics
new = record {
  messages_sent = 0;
  messages_received = 0;
  messages_dropped = 0;
  connections_total = 0;
  connections_active = 0;
  reconnections = 0;
  send_errors = 0;
}

abbrev pub inc_messages_sent : Metrics → Metrics
inc_messages_sent m = record m { messages_sent = add64 m.messages_sent 1 }

abbrev pub inc_messages_received : Metrics → Metrics
inc_messages_received m = record m { messages_received = add64 m.messages_received 1 }

abbrev pub inc_messages_dropped : Metrics → Metrics
inc_messages_dropped m = record m { messages_dropped = add64 m.messages_dropped 1 }

abbrev pub inc_connections_total : Metrics → Metrics
inc_connections_total m = record m { connections_total = add64 m.connections_total 1 }

abbrev pub inc_connections_active : Metrics → Metrics
inc_connections_active m = record m { connections_active = add64 m.connections_active 1 }

-- `fetch_update` leaves the counter alone where the closure answers `None`.
abbrev pub dec_connections_active : Metrics → Metrics
dec_connections_active m = record m {
  connections_active =
      if ltb 0 m.connections_active then m.connections_active - 1 else m.connections_active;
}

abbrev pub inc_reconnections : Metrics → Metrics
inc_reconnections m = record m { reconnections = add64 m.reconnections 1 }

abbrev pub inc_send_errors : Metrics → Metrics
inc_send_errors m = record m { send_errors = add64 m.send_errors 1 }
