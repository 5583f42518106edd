-- ===== src/Runtime/Channel.antt =====
-- tokio::sync::mpsc, the bounded channel, as far as src/helpers/server_sender.rs and
-- src/helpers/client_sender.rs use it with `try_send`.
use atomic_websocket.Base.{
  ℕ, ◌≤◌, ◌<◌, ◌≡◌, Bool, true, false, Option, none, some, List, [], ◌∷◌, ◌++◌, length,
}

-- `Ok(())`, `Err(TrySendError::Full(_))`, `Err(TrySendError::Closed(_))`.
pub data TrySend : Type 0 where
  sent full closed : TrySend

pub record Channel (A : Type 0) : Type 1 where
  pub Chan : Type 0
  -- The messages that were accepted and not yet received, oldest first.
  pub queued : Chan → List A
  pub capacity : Chan → ℕ
  -- The receiver was dropped.
  pub is_closed : Chan → Bool
  pub try_send : Chan → A → TrySend × Chan
  pub recv : Chan → Option A × Chan
  pub try_send-closed : (c : Chan) (a : A) → is_closed c ≡ true → try_send c a ≡ (closed, c)
  pub try_send-full :
      (c : Chan) (a : A)
      → is_closed c ≡ false
      → capacity c ≤ length (queued c)
      → try_send c a ≡ (full, c)
  pub try_send-sent :
      (c : Chan) (a : A)
      → is_closed c ≡ false
      → length (queued c) < capacity c
      → ((try_send c a).0 ≡ sent)
        × (queued (try_send c a).1 ≡ queued c ++ a ∷ [])
        × (capacity (try_send c a).1 ≡ capacity c)
        × (is_closed (try_send c a).1 ≡ false)
  -- The receiver takes the oldest message.
  pub recv-some :
      (c : Chan) (a : A) (rest : List A)
      → queued c ≡ a ∷ rest
      → ((recv c).0 ≡ some a)
        × (queued (recv c).1 ≡ rest)
        × (capacity (recv c).1 ≡ capacity c)
        × (is_closed (recv c).1 ≡ is_closed c)
  pub recv-none : (c : Chan) → queued c ≡ [] → recv c ≡ (none, c)
