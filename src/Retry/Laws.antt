-- ===== src/Retry/Laws.antt =====
-- How often and how long a caller of src/helpers/retry.rs waits.
use atomic_websocket.Base.{
  ℕ, zero, suc, ◌+◌, ◌*◌, ◌%◌, ◌^◌, ◌≤◌, ◌<◌, min, ◌≡◌, refl, List, [], ◌∷◌, arith, sym, subst,
}
use atomic_websocket.Retry.{ExponentialBackoff, new, wait, reset, sleeps}

abbrev pub sum : List ℕ → ℕ
sum [] = 0
sum (x ∷ xs) = x + sum xs

-- The n-th delay of a backoff from `current` under `limit`: doubled each time, then capped.
abbrev pub delays : ℕ → ℕ → ℕ → List ℕ
delays zero limit current = []
delays (suc n) limit current = current ∷ delays n limit (min (current * 2) limit)

sleeps-delays :
    (fuel n : ℕ) (b : ExponentialBackoff)
    → b.max_count < 2 ^ 32
    → b.count + n ≡ b.max_count
    → n ≤ fuel
    → sleeps fuel b ≡ delays n b.max b.current
unfolding sleeps wait
sleeps-delays zero zero b w e h = refl
sleeps-delays zero (suc n) b w e h = absurd (omega arith)
sleeps-delays (suc fuel) zero b w e h = ground arith
sleeps-delays (suc fuel) (suc n) b w e h = ground (
  arith,
  sleeps-delays fuel n
      (record b { current = min (b.current * 2) b.max; count = (b.count + 1) % 2 ^ 32 }),
)

-- A new backoff sleeps exactly `max_count` times before it refuses: first for the initial delay,
-- then each time for twice the last, capped at the maximum. Any fuel from `max_count` on is enough.
pub sleeps-new :
    (initial_ms max_secs max_count fuel : ℕ)
    → max_count < 2 ^ 32
    → max_count ≤ fuel
    → sleeps fuel (new initial_ms max_secs max_count)
      ≡ delays max_count (max_secs * 1000) initial_ms
unfolding new
sleeps-new initial_ms max_secs max_count fuel w h = sleeps-delays fuel max_count _ w (omega arith) h

sum-delays-le : (n limit current : ℕ) → current ≤ limit → sum (delays n limit current) ≤ n * limit
sum-delays-le zero limit current h = omega arith
sum-delays-le (suc n) limit current h =
    grind (arith, sum-delays-le n limit (min (current * 2) limit) (omega arith))

-- All sleeps of a new backoff together last at most `max_count` times the maximum, if the initial
-- delay is not above the maximum.
pub sum-sleeps-new-le :
    (initial_ms max_secs max_count fuel : ℕ)
    → max_count < 2 ^ 32
    → max_count ≤ fuel
    → initial_ms ≤ max_secs * 1000
    → sum (sleeps fuel (new initial_ms max_secs max_count)) ≤ max_count * (max_secs * 1000)
sum-sleeps-new-le initial_ms max_secs max_count fuel w h le =
    subst (λ xs. sum xs ≤ max_count * (max_secs * 1000))
      (sym (sleeps-new initial_ms max_secs max_count fuel w h))
      (sum-delays-le max_count (max_secs * 1000) initial_ms le)

-- `reset` makes a backoff that was made by `new` what it was at first, after any single wait.
pub reset-wait :
    (initial_ms max_secs max_count : ℕ)
    → reset (wait (new initial_ms max_secs max_count)).2 ≡ new initial_ms max_secs max_count
unfolding reset wait new
reset-wait initial_ms max_secs max_count = ground arith
