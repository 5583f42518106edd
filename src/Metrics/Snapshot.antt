-- ===== src/Metrics/Snapshot.antt =====
-- `snapshot` of src/helpers/metrics.rs: the counters are loaded one after the other, and other tasks
-- may count in between.
use atomic_websocket.Base.{ℕ, ◌≡◌, refl, add64, if◌then◌else◌, ltb}
use atomic_websocket.Metrics.{Metrics, inc_connections_total, inc_connections_active}

pub record MetricsSnapshot : Type 0 where
  pub messages_sent : ℕ
  pub messages_received : ℕ
  pub messages_dropped : ℕ
  pub connections_total : ℕ
  pub connections_active : ℕ
  pub reconnections : ℕ
  pub send_errors : ℕ

-- `at i` is what the counters are at the load `i`.
unfoldable pub snapshot : (ℕ → Metrics) → MetricsSnapshot
snapshot at = record {
  messages_sent = (at 0).messages_sent;
  messages_received = (at 1).messages_received;
  messages_dropped = (at 2).messages_dropped;
  connections_total = (at 3).connections_total;
  connections_active = (at 4).connections_active;
  reconnections = (at 5).reconnections;
  send_errors = (at 6).send_errors;
}

-- A connection that is counted between two loads of a snapshot is active in it, and is not in its
-- total: the counters of a snapshot need not have stood side by side at any time.
pub snapshot_tears :
    (m : Metrics)
    → let counted = inc_connections_active (inc_connections_total m) in
      let taken = snapshot (λ i. if ltb i 4 then m else counted) in
      (taken.connections_total ≡ m.connections_total)
      × (taken.connections_active ≡ add64 m.connections_active 1)
unfolding snapshot
snapshot_tears m = (refl, refl)
