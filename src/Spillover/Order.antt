-- ===== src/Spillover/Order.antt =====
-- What the buffers of `send_handle_message` keep: every message in its order, and no more than the
-- configured number.
use atomic_websocket.Base.{
  ℕ, ◌≤◌, ◌≡◌, refl, sym, ap, ◌∙◌, ◌⊎◌, inl, inr, true, false, ltb, if◌then◌else◌, Bool-cases,
  is_empty, List, [], ◌∷◌, ◌++◌, length, length-append, append-nil, append_assoc, arith,
}
use atomic_websocket.Runtime.Channel.{Channel, TrySend, sent, full, closed}
use atomic_websocket.Spillover.{
  Fate, forwarded, buffered, dropped, lost, Buffers, drain, push_back, direct, send_or_buffer,
  offer,
}

module _ {A : Type 0} (C : Channel A) where
  open C use {
    Chan, queued, capacity, is_closed, try_send, try_send-closed, try_send-full, try_send-sent,
  }

  -- All that waits for the application, oldest first.
  abbrev pub content : Buffers C → List A
  content b = queued b.channel ++ b.spillover

  -- What a `try_send` has done.
  data Tried (c : Chan) (a : A) (r : TrySend × Chan) : Type 0 where
    was_sent :
        is_closed c ≡ false
        → r.0 ≡ sent
        → queued r.1 ≡ queued c ++ a ∷ []
        → capacity r.1 ≡ capacity c
        → is_closed r.1 ≡ false
        → Tried c a r
    was_full :
        is_closed c ≡ false → r.0 ≡ full → r.1 ≡ c → capacity c ≤ length (queued c) → Tried c a r
    was_closed : is_closed c ≡ true → r.0 ≡ closed → r.1 ≡ c → Tried c a r

  try_send-Tried : (c : Chan) (a : A) → Tried c a (try_send c a)
  try_send-Tried c a = elim (Bool-cases (is_closed c)) [
    | inl shut ↦
        let e = try_send-closed c a shut in was_closed shut (ap (λ r. r.0) e) (ap (λ r. r.1) e)
    | inr live ↦ elim (Bool-cases (ltb (length (queued c)) (capacity c))) [
      | inl room ↦ let (e, q, k, l) = try_send-sent c a live (ground arith) in was_sent live e q k l
      | inr none_left ↦
          let e = try_send-full c a live (ground arith) in
          was_full live (ap (λ r. r.0) e) (ap (λ r. r.1) e) (ground arith)
    ]
  ]

  -- The state after a drain: nothing is lost or moved, and what is left had no room.
  record Drained (c : Chan) (s : List A) (b : Buffers C) : Type 0 where
    same : content b ≡ queued c ++ s
    room : capacity b.channel ≡ capacity c
    state : is_closed b.channel ≡ is_closed c
    shorter : length b.spillover ≤ length s
    stuck : is_closed c ≡ false → (b.spillover ≡ []) ⊎ (capacity c ≤ length (queued b.channel))

  drain-Drained : (c : Chan) (s : List A) → Drained c s (drain C c s)
  unfolding drain
  drain-Drained c [] = record {
    same = refl;
    room = refl;
    state = refl;
    shorter = omega arith;
    stuck = λ _. inl refl;
  }
  drain-Drained c (item ∷ rest) =
      step (try_send-Tried c item) (drain-Drained (try_send c item).1 rest)
    where
      step :
          Tried c item (try_send c item)
          → Drained (try_send c item).1 rest (drain C (try_send c item).1 rest)
          → Drained c (item ∷ rest) (drain C c (item ∷ rest))
      step (was_sent live e q k l) d =
          rw (e, drain)
            (record {
              same = d.same ∙ ap (λ xs. xs ++ rest) q ∙ append_assoc (queued c) (item ∷ []) rest;
              room = d.room ∙ k;
              state = d.state ∙ l ∙ sym live;
              shorter = omega (arith, d.shorter);
              stuck = λ _. ground (arith, d.stuck l, k);
            })
      step (was_full live e e' f) d =
          rw (e, drain, e')
            (record {
              same = refl;
              room = refl;
              state = refl;
              shorter = omega arith;
              stuck = λ _. inr f;
            })
      step (was_closed shut e e') d =
          rw (e, drain, e')
            (record {
              same = refl;
              room = refl;
              state = refl;
              shorter = omega arith;
              stuck = λ live. cc;
            })

  -- What one call has done with a message on a channel whose receiver is there.
  pub data Outcome (size : ℕ) (b : Buffers C) (message : A) (r : Fate × Buffers C) : Type 0 where
    kept :
        (r.0 ≡ forwarded) ⊎ (r.0 ≡ buffered)
        → content r.1 ≡ content b ++ message ∷ []
        → is_closed r.1.channel ≡ false
        → Outcome size b message r
    refused :
        r.0 ≡ dropped
        → content r.1 ≡ content b
        → size ≤ length r.1.spillover
        → capacity b.channel ≤ length (queued r.1.channel)
        → is_closed r.1.channel ≡ false
        → Outcome size b message r

  push_back-Outcome :
      (size : ℕ) (b : Buffers C) (c : Chan) (s : List A) (message : A)
      → is_closed c ≡ false
      → queued c ++ s ≡ content b
      → capacity b.channel ≤ length (queued c)
      → Outcome size b message (push_back C size c s message)
  push_back-Outcome size b c s message live q f = elim (Bool-cases (ltb (length s) size)) [
    | inl fits ↦ rw fits (
        kept (inr refl)
          (sym (append_assoc (queued c) s (message ∷ [])) ∙ ap (λ xs. xs ++ message ∷ []) q) live)
    | inr over ↦ rw over (refused refl q (ground arith) f live)
  ]

  direct-Outcome :
      (size : ℕ) (b : Buffers C) (c : Chan) (message : A)
      → is_closed c ≡ false
      → capacity c ≡ capacity b.channel
      → queued c ≡ content b
      → Outcome size b message (direct C size (try_send c message) message)
  direct-Outcome size b c message live k q = step (try_send-Tried c message)
    where
      step :
          Tried c message (try_send c message)
          → Outcome size b message (direct C size (try_send c message) message)
      step (was_sent _ e q' _ live') =
          rw (e, direct)
            (kept (inl refl) (append-nil _ ∙ q' ∙ ap (λ xs. xs ++ message ∷ []) q) live')
      step (was_full _ e e' f) =
          rw (e, direct, e')
            (push_back-Outcome size b c [] message live (append-nil _ ∙ q) (omega (arith, k)))
      step (was_closed shut _ _) = cc

  send_or_buffer-Outcome :
      (size : ℕ) (b : Buffers C) (c : Chan) (s : List A) (message : A)
      → is_closed c ≡ false
      → capacity c ≡ capacity b.channel
      → queued c ++ s ≡ content b
      → (s ≡ []) ⊎ (capacity b.channel ≤ length (queued c))
      → Outcome size b message (send_or_buffer C size c s message)
  send_or_buffer-Outcome size b c [] message live k q f =
      direct-Outcome size b c message live k (sym (append-nil (queued c)) ∙ q)
  send_or_buffer-Outcome size b c (item ∷ rest) message live k q f =
      push_back-Outcome size b c (item ∷ rest) message live q (ground arith)

  -- While the receiver is there, a call puts the message behind all that waits and moves nothing
  -- else; or, only when the channel and the queue are both full, it counts the message as dropped
  -- and leaves what waits as it is.
  pub offer-Outcome :
      (size : ℕ) (b : Buffers C) (message : A)
      → is_closed b.channel ≡ false
      → Outcome size b message (offer C size b message)
  unfolding offer
  offer-Outcome size b message live =
      let d = drain-Drained b.channel b.spillover in
      let after = drain C b.channel b.spillover in
      send_or_buffer-Outcome size b after.channel after.spillover message (d.state ∙ live) d.room
        d.same (d.stuck live)

  push_back_bound :
      (size : ℕ) (c : Chan) (s : List A) (message : A)
      → length s ≤ size
      → length (push_back C size c s message).1.spillover ≤ size
  push_back_bound size c s message h = ground (arith, length-append s (message ∷ []))

  send_or_buffer_bound :
      (size : ℕ) (c : Chan) (s : List A) (message : A)
      → length s ≤ size
      → length (send_or_buffer C size c s message).1.spillover ≤ size
  send_or_buffer_bound size c [] message h =
      ground (arith, push_back_bound size (try_send c message).1 [] message h)
  send_or_buffer_bound size c (item ∷ rest) message h =
      push_back_bound size c (item ∷ rest) message h

  -- The queue never outgrows `spillover_buffer_size`, whatever the channel answers.
  pub offer_bound :
      (size : ℕ) (b : Buffers C) (message : A)
      → length b.spillover ≤ size
      → length (offer C size b message).1.spillover ≤ size
  unfolding offer
  offer_bound size b message h =
      send_or_buffer_bound size _ _ message
        (omega (arith, (drain-Drained b.channel b.spillover).shorter))

  drain_closed :
      (c : Chan) (s : List A)
      → is_closed c ≡ true
      → drain C c s ≡ record { channel = c; spillover = s }
  unfolding drain
  drain_closed c [] shut = refl
  drain_closed c (item ∷ rest) shut =
      rw (try_send-closed c item shut, drain, try_send-closed c item shut)

  closed_cases :
      (size : ℕ) (c : Chan) (s : List A) (message : A)
      → is_closed c ≡ true
      → send_or_buffer C size c s message ≡ (
          if is_empty s
          then (lost, record { channel = c; spillover = s })
          else push_back C size c s message)
  closed_cases size c [] message shut = rw (try_send-closed c message shut)
  closed_cases size c (item ∷ rest) message shut = refl

  -- Once the receiver is gone, a message is only logged while nothing is queued. Behind what is
  -- queued, which nobody will take any more, it is still queued as long as there is room.
  pub offer_closed :
      (size : ℕ) (b : Buffers C) (message : A)
      → is_closed b.channel ≡ true
      → offer C size b message ≡ (
          if is_empty b.spillover
          then (lost, b)
          else push_back C size b.channel b.spillover message)
  unfolding offer
  offer_closed size b message shut =
      rw (drain_closed b.channel b.spillover shut)
        (closed_cases size b.channel b.spillover message shut)
