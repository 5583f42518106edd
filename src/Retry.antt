-- ===== src/Retry.antt =====
-- src/helpers/retry.rs: exponential backoff. A `Duration` is a number of milliseconds. The counts
-- are u32. `current * 2` would panic beyond 2 ^ 64 seconds, which no wait can reach.
pub mod Laws
use atomic_websocket.Base.{
  ℕ, zero, suc, ◌+◌, ◌*◌, ◌%◌, ◌^◌, min, Bool, true, false, leb, if◌then◌else◌, List, [], ◌∷◌,
}

pub record ExponentialBackoff : Type 0 where
  pub current : ℕ
  pub initial : ℕ
  pub max : ℕ
  pub count : ℕ
  pub max_count : ℕ

unfoldable pub new : ℕ → ℕ → ℕ → ExponentialBackoff
new initial_ms max_secs max_count = record {
  current = initial_ms;
  initial = initial_ms;
  max = max_secs * 1000;
  count = 0;
  max_count = max_count;
}

unfoldable pub default_retry : ExponentialBackoff
unfolding new
default_retry = new 50 1 5

abbrev pub is_exhausted : ExponentialBackoff → Bool
is_exhausted b = leb b.max_count b.count

-- The answer, the milliseconds slept, and the new state.
unfoldable pub wait : ExponentialBackoff → Bool × ℕ × ExponentialBackoff
wait b = if leb b.max_count b.count then (false, 0, b) else (
  true,
  b.current,
  record b { current = min (b.current * 2) b.max; count = (b.count + 1) % 2 ^ 32 },
)

unfoldable pub reset : ExponentialBackoff → ExponentialBackoff
reset b = record b { current = b.initial; count = 0 }

-- The sleeps of a caller that waits until `wait` answers `false`, at most `fuel` times.
unfoldable pub sleeps : ℕ → ExponentialBackoff → List ℕ
sleeps zero b = []
sleeps (suc fuel) b = elim ((wait b).0) [ false ↦ [] | true ↦ (wait b).1 ∷ sleeps fuel (wait b).2 ]
