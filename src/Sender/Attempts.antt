-- ===== src/Sender/Attempts.antt =====
-- The loop of the client's `send` of src/helpers/server_sender.rs: after how many attempts it ends,
-- and with what.
use atomic_websocket.Base.{
  ℕ, zero, suc, ◌+◌, ◌*◌, ◌%◌, min, ◌∙◌, ◌^◌, ◌≤◌, ◌<◌, ◌≡◌, refl, ◌⊎◌, inl, inr, Bool, true, false,
  Option, none, some, arith, ap,
}
use atomic_websocket.Retry.{ExponentialBackoff, wait}
use atomic_websocket.Retry
use atomic_websocket.Sender.{Report, retry_loop, limit_count, Reply, took, refuses, waits}

-- The first of the attempts 0 to n that the channel accepts.
unfoldable pub FirstAccepted : ℕ → (ℕ → Reply) → Type 0
FirstAccepted k replies = (replies k ≡ took) × ((i : ℕ) → i < k → replies i ≡ refuses)

-- The first of the attempts 0 to n that is not refused, and it is never answered.
unfoldable pub FirstWaiting : ℕ → (ℕ → Reply) → Type 0
FirstWaiting k replies = (replies k ≡ waits) × ((i : ℕ) → i < k → replies i ≡ refuses)

unfoldable pub AllRefused : ℕ → (ℕ → Reply) → Type 0
AllRefused n replies = (i : ℕ) → i ≤ n → replies i ≡ refuses

abbrev pub ended : Bool → ℕ → Option Report
ended b n = some (record { was_sent = b; attempts = n })

-- One round of the loop.
retry_loop-round :
    (fuel : ℕ) (replies : ℕ → Reply) (b : ExponentialBackoff) (made : ℕ)
    → b.max_count < 2 ^ 32
    → (replies 0 ≡ waits → retry_loop (suc fuel) replies b made ≡ none)
      × (replies 0 ≡ took → retry_loop (suc fuel) replies b made ≡ ended true (suc made))
      × (replies 0 ≡ refuses
          → b.max_count ≤ b.count
          → retry_loop (suc fuel) replies b made ≡ ended false (suc made))
      × (replies 0 ≡ refuses
          → b.count < b.max_count
          → (b' : ExponentialBackoff) × (b'.count ≡ suc b.count)
            × (b'.max_count ≡ b.max_count)
            × (retry_loop (suc fuel) replies b made
                ≡ retry_loop fuel (λ i. replies (suc i)) b' (suc made)))
unfolding retry_loop wait
retry_loop-round fuel replies b made w = (
  λ h. rw (retry_loop, h) refl,
  λ h. rw (retry_loop, h) refl,
  λ h c. ground arith,
  λ h c. (
    record b { current = min (b.current * 2) b.max; count = (b.count + 1) % 2 ^ 32 },
    omega arith,
    refl,
    ground arith,
  ),
)

pub retry_loop-accepted :
    (k fuel : ℕ) (replies : ℕ → Reply) (b : ExponentialBackoff) (made : ℕ)
    → FirstAccepted k replies
    → b.count + k ≤ b.max_count
    → b.max_count < 2 ^ 32
    → k < fuel
    → retry_loop fuel replies b made ≡ ended true (made + suc k)
unfolding FirstAccepted
retry_loop-accepted k zero replies b made h c w f = absurd (omega arith)
retry_loop-accepted zero (suc fuel) replies b made (t, h) c w f =
    (retry_loop-round fuel replies b made w).1 t ∙ ap (ended true) (omega arith)
retry_loop-accepted (suc k) (suc fuel) replies b made (t, h) c w f =
    let (b', count, limit, round) =
      (retry_loop-round fuel replies b made w).3 (h 0 (omega arith)) (omega arith) in
    round
    ∙ retry_loop-accepted k fuel (λ i. replies (suc i)) b' (suc made)
        (t, λ i l. h (suc i) (omega arith)) (omega arith) (omega arith) (omega arith)
    ∙ ap (ended true) (omega arith)

pub retry_loop-waiting :
    (k fuel : ℕ) (replies : ℕ → Reply) (b : ExponentialBackoff) (made : ℕ)
    → FirstWaiting k replies
    → b.count + k ≤ b.max_count
    → b.max_count < 2 ^ 32
    → k < fuel
    → retry_loop fuel replies b made ≡ none
unfolding FirstWaiting
retry_loop-waiting k zero replies b made h c w f = absurd (omega arith)
retry_loop-waiting zero (suc fuel) replies b made (t, h) c w f =
    (retry_loop-round fuel replies b made w).0 t
retry_loop-waiting (suc k) (suc fuel) replies b made (t, h) c w f =
    let (b', count, limit, round) =
      (retry_loop-round fuel replies b made w).3 (h 0 (omega arith)) (omega arith) in
    round
    ∙ retry_loop-waiting k fuel (λ i. replies (suc i)) b' (suc made)
        (t, λ i l. h (suc i) (omega arith)) (omega arith) (omega arith) (omega arith)

pub retry_loop-refused :
    (n fuel : ℕ) (replies : ℕ → Reply) (b : ExponentialBackoff) (made : ℕ)
    → AllRefused n replies
    → b.count + n ≡ b.max_count
    → b.max_count < 2 ^ 32
    → n < fuel
    → retry_loop fuel replies b made ≡ ended false (made + suc n)
unfolding AllRefused
retry_loop-refused n zero replies b made h c w f = absurd (omega arith)
retry_loop-refused zero (suc fuel) replies b made h c w f =
    (retry_loop-round fuel replies b made w).2 (h 0 (omega arith)) (omega arith)
    ∙ ap (ended false) (omega arith)
retry_loop-refused (suc n) (suc fuel) replies b made h c w f =
    let (b', count, limit, round) =
      (retry_loop-round fuel replies b made w).3 (h 0 (omega arith)) (omega arith) in
    round
    ∙ retry_loop-refused n fuel (λ i. replies (suc i)) b' (suc made)
        (λ i l. h (suc i) (omega arith)) (omega arith) (omega arith) (omega arith)
    ∙ ap (ended false) (omega arith)

elsewhere : (replies : ℕ → Reply) (i j : ℕ) → i ≡ j → replies j ≡ refuses → replies i ≡ refuses
elsewhere replies i j e f = rw e f

le-split : (i n : ℕ) → i ≤ suc n → (i ≤ n) ⊎ (i ≡ suc n)
le-split i n l = ground arith

Reply-cases : (r : Reply) → (r ≡ took) ⊎ ((r ≡ waits) ⊎ (r ≡ refuses))
Reply-cases took = inl refl
Reply-cases waits = inr (inl refl)
Reply-cases refuses = inr (inr refl)

pub attempts_cases :
    (n : ℕ) (replies : ℕ → Reply)
    → ((k : ℕ) × (k ≤ n) × FirstAccepted k replies)
      ⊎ (((k : ℕ) × (k ≤ n) × FirstWaiting k replies) ⊎ AllRefused n replies)
unfolding FirstAccepted FirstWaiting AllRefused
attempts_cases zero replies = elim (Reply-cases (replies 0)) [
  | inl t ↦ inl (0, omega arith, (t, λ i l. absurd (omega arith)))
  | inr (inl t) ↦ inr (inl (0, omega arith, (t, λ i l. absurd (omega arith))))
  | inr (inr f) ↦ inr (inr (λ i l. elsewhere replies i 0 (omega arith) f))
]
attempts_cases (suc n) replies = elim (attempts_cases n replies) [
  | inl (k, l, first) ↦ inl (k, omega arith, first)
  | inr (inl (k, l, first)) ↦ inr (inl (k, omega arith, first))
  | inr (inr refused) ↦ elim (Reply-cases (replies (suc n))) [
    | inl t ↦ inl (suc n, omega arith, (t, λ i l. refused i (omega arith)))
    | inr (inl t) ↦ inr (inl (suc n, omega arith, (t, λ i l. refused i (omega arith))))
    | inr (inr f) ↦ inr (
        inr (λ i l. elim (le-split i n l) [
          | inl h ↦ refused i h
          | inr e ↦ elsewhere replies i (suc n) e f
        ]))
  ]
]

limit_count-bounds :
    (retry_seconds : ℕ) → (1 ≤ limit_count retry_seconds) × (limit_count retry_seconds ≤ 5)
unfolding limit_count
limit_count-bounds n = (ground arith, ground arith)

unfoldable pub new_loop : (ℕ → Reply) → ℕ → Option Report
new_loop replies retry_seconds =
    let limit = limit_count retry_seconds in
    retry_loop (suc (suc limit)) replies (Retry.new 50 1 limit) 0

pub new_loop-accepted :
    (k retry_seconds : ℕ) (replies : ℕ → Reply)
    → k ≤ limit_count retry_seconds
    → FirstAccepted k replies
    → new_loop replies retry_seconds ≡ ended true (suc k)
unfolding new_loop Retry.new
new_loop-accepted k n replies l first =
    let (low, high) = limit_count-bounds n in
    retry_loop-accepted k _ replies _ 0 first (omega arith) (omega arith) (omega arith)
    ∙ ap (ended true) (omega arith)

pub new_loop-waiting :
    (k retry_seconds : ℕ) (replies : ℕ → Reply)
    → k ≤ limit_count retry_seconds
    → FirstWaiting k replies
    → new_loop replies retry_seconds ≡ none
unfolding new_loop Retry.new
new_loop-waiting k n replies l first =
    let (low, high) = limit_count-bounds n in
    retry_loop-waiting k _ replies _ 0 first (omega arith) (omega arith) (omega arith)

pub new_loop-refused :
    (retry_seconds : ℕ) (replies : ℕ → Reply)
    → AllRefused (limit_count retry_seconds) replies
    → new_loop replies retry_seconds ≡ ended false (suc (limit_count retry_seconds))
unfolding new_loop Retry.new
new_loop-refused n replies refused =
    let (low, high) = limit_count-bounds n in
    retry_loop-refused (limit_count n) _ replies _ 0 refused (omega arith) (omega arith)
      (omega arith)
    ∙ ap (ended false) (omega arith)
