-- ===== src/Server/Slots.antt =====
-- The cap on connections of `handle_accept` in src/helpers/internal_server.rs: a semaphore whose
-- permits the connections' tasks hold.
use atomic_websocket.Base.{
  ℕ, zero, suc, ◌+◌, ◌-◌, ◌≤◌, ◌≡◌, refl, ◌∙◌, ◌↔◌, Bool, true, false, arith,
}

pub record Slots : Type 0 where
  pub permits : ℕ
  pub connections : ℕ

-- `Semaphore::new(option.max_connections)`, before the first connection.
abbrev pub all_free : ℕ → Slots
all_free max_connections = record { permits = max_connections; connections = 0 }

abbrev pub take_permit : ℕ → Slots → Bool × Slots
take_permit zero s = (false, s)
take_permit (suc n) s = (true, record { permits = n; connections = suc s.connections })

-- A stream that arrives: `try_acquire_owned`, and a task is spawned or the stream is dropped.
unfoldable pub handle_accept : Slots → Bool × Slots
handle_accept s = take_permit s.permits s

-- `drop(permit)`, when a task that holds one ends.
unfoldable pub drop_permit : Slots → Slots
drop_permit s = record { permits = suc s.permits; connections = s.connections - 1 }

pub data Reaches (max_connections : ℕ) : Slots → Type 0 where
  begin : Reaches max_connections (all_free max_connections)
  arrives : (s : Slots) → Reaches max_connections s → Reaches max_connections (handle_accept s).1
  leaves :
      (s : Slots) (n : ℕ)
      → s.connections ≡ suc n
      → Reaches max_connections s
      → Reaches max_connections (drop_permit s)

pub take_permit_lem :
    (n : ℕ) (s : Slots)
    → s.permits ≡ n
    → ((take_permit n s).1.permits + (take_permit n s).1.connections ≡ s.permits + s.connections)
      × (((take_permit n s).0 ≡ false) ↔ (n ≡ 0))
take_permit_lem zero s e = (refl, (λ _. refl, λ _. refl))
take_permit_lem (suc n) s e = (omega arith, (λ h. cc, λ h. absurd (omega arith)))

Reaches-sum :
    (max_connections : ℕ) (s : Slots)
    → Reaches max_connections s
    → s.permits + s.connections ≡ max_connections
unfolding handle_accept drop_permit
Reaches-sum m _ begin = omega arith
Reaches-sum m _ (arrives s r) = (take_permit_lem s.permits s refl).0 ∙ Reaches-sum m s r
Reaches-sum m _ (leaves s n e r) = omega (arith, Reaches-sum m s r)

-- In every state that arrivals and ends of connections lead to there are at most `max_connections`
-- connections, and an arrival is refused exactly if there are that many.
pub handle_accept_cap :
    (max_connections : ℕ) (s : Slots)
    → Reaches max_connections s
    → (s.connections ≤ max_connections)
      × (((handle_accept s).0 ≡ false) ↔ (s.connections ≡ max_connections))
unfolding handle_accept
handle_accept_cap m s r =
    let sum = Reaches-sum m s r in
    let (_, refused) = take_permit_lem s.permits s refl in
    (
      omega (arith, sum),
      (λ h. omega (arith, sum, refused.0 h), λ h. refused.1 (omega (arith, sum))),
    )
