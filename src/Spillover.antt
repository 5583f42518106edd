-- ===== src/Spillover.antt =====
-- The two-level buffer behind `send_handle_message`, which src/helpers/server_sender.rs and
-- src/helpers/client_sender.rs write out alike: a bounded channel to the application, and a queue
-- that takes what the channel has no room for.
pub mod Order
pub mod History
pub mod Each
use atomic_websocket.Base.{
  ℕ, Bool, true, false, ltb, if◌then◌else◌, List, [], ◌∷◌, ◌++◌, length, is_empty,
}
use atomic_websocket.Runtime.Channel.{Channel, TrySend, sent, full, closed}

-- What `offer` does with the message: forwards it, queues it, drops it with
-- `inc_messages_dropped`, or logs that the channel is closed.
pub data Fate : Type 0 where
  forwarded buffered dropped lost : Fate

module _ {A : Type 0} (C : Channel A) where
  open C use {Chan, try_send}

  pub record Buffers : Type 0 where
    pub channel : Chan
    pub spillover : List A

  -- The `while let` loop of step 1: `front().cloned()`, `try_send`, `pop_front` or `break`.
  unfoldable pub drain : Chan → List A → Buffers
  drain c [] = record { channel = c; spillover = [] }
  drain c (item ∷ rest) = elim ((try_send c item).0) [
    | sent ↦ drain (try_send c item).1 rest
    | full ↦ record { channel = (try_send c item).1; spillover = item ∷ rest }
    | closed ↦ record { channel = (try_send c item).1; spillover = item ∷ rest }
  ]

  -- Queue a message, or count it as dropped.
  abbrev pub push_back : ℕ → Chan → List A → A → Fate × Buffers
  push_back size c spillover message =
      if ltb (length spillover) size
      then (buffered, record { channel = c; spillover = spillover ++ message ∷ [] })
      else (dropped, record { channel = c; spillover = spillover })

  -- The match of step 2 on `try_send`.
  abbrev pub direct : ℕ → TrySend × Chan → A → Fate × Buffers
  direct size (sent, c) message = (forwarded, record { channel = c; spillover = [] })
  direct size (full, c) message = push_back size c [] message
  direct size (closed, c) message = (lost, record { channel = c; spillover = [] })

  -- Step 2, after the drain.
  abbrev pub send_or_buffer : ℕ → Chan → List A → A → Fate × Buffers
  send_or_buffer size c [] message = direct size (try_send c message) message
  send_or_buffer size c (item ∷ rest) message = push_back size c (item ∷ rest) message

  -- `send_handle_message` less the counters; `size` is `spillover_buffer_size`.
  unfoldable pub offer : ℕ → Buffers → A → Fate × Buffers
  offer size b message =
      let drained = drain b.channel b.spillover in
      send_or_buffer size drained.channel drained.spillover message
