-- ===== src/Spillover/History.antt =====
-- A connection's whole history at the buffers of `send_handle_message`: calls of it, and receives of
-- the application, in any order.
use atomic_websocket.Base.{
  ℕ, suc, ◌+◌, ◌≤◌, ◌≡◌, refl, sym, ap, ◌∙◌, ◌⊎◌, false, Option, none, some, List, [], ◌∷◌, ◌++◌,
  length, length-append, append_assoc, arith,
}
use atomic_websocket.Runtime.Channel.{Channel}
use atomic_websocket.Spillover.{Fate, forwarded, buffered, dropped, lost, Buffers, offer}
use atomic_websocket.Spillover.Order.{content, Outcome, kept, refused, offer-Outcome, offer_bound}

pub data Event (A : Type 0) : Type 0 where
  offers : A → Event A
  receives : Event A

module _ {A : Type 0} (C : Channel A) where
  open C use {Chan, queued, is_closed, recv, recv-some, recv-none}

  pub record Trace : Type 0 where
    pub buffers : Buffers C
    -- What the application has received, and what the calls have kept, oldest first.
    pub received : List A
    pub accepted : List A
    -- `messages_dropped`, and the number of calls.
    pub dropped_count : ℕ
    pub offered_count : ℕ

  abbrev keep : Fate → A → List A → List A
  keep forwarded message xs = xs ++ message ∷ []
  keep buffered message xs = xs ++ message ∷ []
  keep dropped message xs = xs
  keep lost message xs = xs

  abbrev count_drop : Fate → ℕ → ℕ
  count_drop dropped n = suc n
  count_drop _ n = n

  abbrev take_in : Option A → List A → List A
  take_in none xs = xs
  take_in (some a) xs = xs ++ a ∷ []

  pub step : ℕ → Trace → Event A → Trace
  step size t (offers message) =
      let r = offer C size t.buffers message in
      record {
        buffers = r.1;
        received = t.received;
        accepted = keep r.0 message t.accepted;
        dropped_count = count_drop r.0 t.dropped_count;
        offered_count = suc t.offered_count;
      }
  step size t receives =
      let r = recv t.buffers.channel in
      record t {
        buffers = record { channel = r.1; spillover = t.buffers.spillover };
        received = take_in r.0 t.received;
      }

  pub run : ℕ → Trace → List (Event A) → Trace
  run size t [] = t
  run size t (e ∷ es) = run size (step size t e) es

  pub record InOrder (size : ℕ) (t : Trace) : Type 0 where
    pub live : is_closed t.buffers.channel ≡ false
    pub order : t.received ++ content C t.buffers ≡ t.accepted
    pub counted : length t.accepted + t.dropped_count ≡ t.offered_count
    pub bounded : length t.buffers.spillover ≤ size

  keep_of_kept :
      (f : Fate) (message : A) (xs : List A) (n : ℕ)
      → (f ≡ forwarded) ⊎ (f ≡ buffered)
      → (keep f message xs ≡ xs ++ message ∷ []) × (count_drop f n ≡ n)
  keep_of_kept f message xs n h = ground arith

  offers-InOrder :
      (size : ℕ) (t : Trace) (message : A)
      → InOrder size t
      → InOrder size (step size t (offers message))
  unfolding step
  offers-InOrder size t message v = go (offer-Outcome C size t.buffers message v.live)
    where
      r : Fate × Buffers C
      r = offer C size t.buffers message

      go : Outcome C size t.buffers message r → InOrder size (step size t (offers message))
      go (kept fate same live) =
          let (list, number) = keep_of_kept r.0 message t.accepted t.dropped_count fate in
          record {
            live = live;
            order =
                ap (λ xs. t.received ++ xs) same
                ∙ sym (append_assoc t.received (content C t.buffers) (message ∷ []))
                ∙ ap (λ xs. xs ++ message ∷ []) v.order
                ∙ sym list;
            counted =
                omega (
                  arith,
                  ap length list,
                  number,
                  length-append t.accepted (message ∷ []),
                  v.counted,
                );
            bounded = offer_bound C size t.buffers message v.bounded;
          }
      go (refused fate same _ _ live) = record {
        live = live;
        order = rw fate (ap (λ xs. t.received ++ xs) same ∙ v.order);
        counted = rw fate (omega (arith, v.counted));
        bounded = offer_bound C size t.buffers message v.bounded;
      }

  receives-InOrder :
      (size : ℕ) (t : Trace) (q : List A)
      → queued t.buffers.channel ≡ q
      → InOrder size t
      → InOrder size (step size t receives)
  unfolding step
  receives-InOrder size t [] e v = rw (recv-none t.buffers.channel e, step) v
  receives-InOrder size t (a ∷ rest) e v =
      let (e', q, _, l) = recv-some t.buffers.channel a rest e in
      record {
        live = l ∙ v.live;
        order =
            rw (e', q)
              (append_assoc t.received (a ∷ []) (rest ++ t.buffers.spillover)
                ∙ ap (λ xs. t.received ++ (xs ++ t.buffers.spillover)) (sym e)
                ∙ v.order);
        counted = v.counted;
        bounded = v.bounded;
      }

  run-InOrder :
      (size : ℕ) (t : Trace) (es : List (Event A)) → InOrder size t → InOrder size (run size t es)
  unfolding run
  run-InOrder size t [] v = v
  run-InOrder size t (offers message ∷ es) v =
      run-InOrder size (step size t (offers message)) es (offers-InOrder size t message v)
  run-InOrder size t (receives ∷ es) v =
      run-InOrder size (step size t receives) es (receives-InOrder size t _ refl v)

  -- A new connection: an empty channel, and nothing queued.
  pub start : Chan → Trace
  start c = record {
    buffers = record { channel = c; spillover = [] };
    received = [];
    accepted = [];
    dropped_count = 0;
    offered_count = 0;
  }

  -- After any history of calls and receives on a new connection whose receiver is not dropped, what
  -- the application has received, followed by what still waits, is what the calls kept, in their
  -- order. Every call is either kept or counted as dropped, and the queue is within its limit.
  pub run-start-InOrder :
      (size : ℕ) (c : Chan) (es : List (Event A))
      → queued c ≡ []
      → is_closed c ≡ false
      → InOrder size (run size (start c) es)
  unfolding start
  run-start-InOrder size c es none_queued live =
      run-InOrder size (start c) es (record {
        live = live;
        order = rw none_queued;
        counted = omega arith;
        bounded = omega arith;
      })
