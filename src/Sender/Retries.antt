-- ===== src/Sender/Retries.antt =====
-- How the client's `send` of src/helpers/server_sender.rs ends: when it returns, that it hands a
-- message over at most once, and after how many attempts it gives up.
use atomic_websocket.Base.{
  ℕ, suc, ◌∙◌, ◌≤◌, ◌≡◌, ◌↔◌, inl, inr, Text, false, if◌then◌else◌, Option-cases, Option, none,
  some, [], ◌∷◌, ◌++◌, arith, ap,
}
use atomic_websocket.Runtime.Channel.{Channel}
use atomic_websocket.Message.{Outgoing}
use atomic_websocket.Metrics
use atomic_websocket.Options.{internal, external}
use atomic_websocket.Sender.Attempts.{
  FirstAccepted, FirstWaiting, AllRefused, attempts_cases, new_loop, new_loop-accepted,
  new_loop-waiting, new_loop-refused,
}
use atomic_websocket.Sender.{
  report, send_on, finish, disconnected, SenderStatus, Task, dial_internal, dial_outer, Report,
  limit_count, ServerSender, send, Reply, refuses, waits,
}

abbrev pub limit_of : {S : Channel SenderStatus} {C : Channel Text} → ServerSender S C → ℕ
limit_of s = limit_count s.options.retry_seconds

module _ (S : Channel SenderStatus) (C : Channel Text) where
  send-ended :
      (replies : ℕ → Reply) (m : Outgoing) (s : ServerSender S C) (sx : ℕ) (r : Report)
      → s.sx ≡ some sx
      → new_loop replies s.options.retry_seconds ≡ some r
      → send S C replies m s ≡ some (report S C sx m r s)
  unfolding send new_loop
  send-ended replies m s sx r e h =
      ap (λ o. send_on S C replies m o s) e ∙ ap (λ o. finish S C sx m o s) h

  -- Where the channel accepts the message at one of the attempts 0 to the limit, `send` hands it
  -- over once, to the writer that `sx` names, and counts it as sent; nothing else changes.
  pub send-accepted :
      (replies : ℕ → Reply) (m : Outgoing) (s : ServerSender S C) (sx k : ℕ)
      → s.sx ≡ some sx
      → k ≤ limit_of s
      → FirstAccepted k replies
      → send S C replies m s
        ≡ some (record s {
          handed = s.handed ++ (sx, m) ∷ [];
          metrics = Metrics.inc_messages_sent s.metrics;
        })
  send-accepted replies m s sx k e l first =
      send-ended replies m s sx _ e (new_loop-accepted k _ replies l first)

  abbrev pub attempt : ServerSender S C → Task
  attempt s = elim (s.options.atomic_websocket_type) [
    | internal ↦ dial_internal s.server_ip s.options
    | external ↦ dial_outer s.options
  ]

  -- Where the channel of a connection refuses all attempts up to the limit, `send` hands nothing
  -- over, counts one error, offers the status `disconnected` to the application, and spawns one new
  -- connection attempt of the configured kind if the sender was registered.
  pub send-refused :
      (replies : ℕ → Reply) (m : Outgoing) (s : ServerSender S C) (sx : ℕ)
      → s.sx ≡ some sx
      → AllRefused (limit_of s) replies
      → (s' : ServerSender S C) × (send S C replies m s ≡ some s')
        × (s'.handed ≡ s.handed)
        × (s'.metrics ≡ Metrics.inc_send_errors s.metrics)
        × (s'.spawned ≡ (if s.server_sender then s.spawned ++ attempt s ∷ [] else s.spawned))
        × (s'.status_tx ≡ (S.try_send s.status_tx disconnected).1)
  send-refused replies m s sx e refused = (
    report S C sx m (record { was_sent = false; attempts = suc (limit_of s) }) s,
    send-ended replies m s sx _ e (new_loop-refused _ replies refused),
    ground arith,
    ground arith,
    ground arith,
    ground arith,
  )

  send-hangs :
      (replies : ℕ → Reply) (m : Outgoing) (s : ServerSender S C) (sx : ℕ)
      → s.sx ≡ some sx
      → new_loop replies s.options.retry_seconds ≡ none
      → send S C replies m s ≡ none
  unfolding send new_loop
  send-hangs replies m s sx e h =
      ap (λ o. send_on S C replies m o s) e ∙ ap (λ o. finish S C sx m o s) h

  -- No attempt that the sender could come to is left unanswered.
  abbrev pub IsAnswered : ServerSender S C → (ℕ → Reply) → Type 0
  IsAnswered s replies = (i : ℕ) → i ≤ limit_of s → replies i ≡ waits → ⊥

  some-not-none : (s : ServerSender S C) (o : Option (ServerSender S C)) → o ≡ some s → o ≡ none → ⊥
  some-not-none s o e h = cc

  refuses-not-waits : (r : Reply) → r ≡ refuses → r ≡ waits → ⊥
  refuses-not-waits r e h = cc

  -- `send` on a connection does not return exactly if one of its attempts, up to the limit, is never
  -- answered after all earlier ones were refused.
  pub send-waits_iff :
      (replies : ℕ → Reply) (m : Outgoing) (s : ServerSender S C) (sx : ℕ)
      → s.sx ≡ some sx
      → (send S C replies m s ≡ none) ↔ ((k : ℕ) × (k ≤ limit_of s) × FirstWaiting k replies)
  send-waits_iff replies m s sx e = (
    λ h. elim (attempts_cases (limit_of s) replies) [
      | inl (k, l, first) ↦ absurd (some-not-none _ _ (send-accepted replies m s sx k e l first) h)
      | inr (inl found) ↦ found
      | inr (inr refused) ↦
          let r = send-refused replies m s sx e refused in absurd (some-not-none _ _ r.1 h)
    ],
    λ (k, l, first). send-hangs replies m s sx e (new_loop-waiting k _ replies l first),
  )

  -- `send` returns where no attempt is left unanswered.
  pub send-returns :
      (replies : ℕ → Reply) (m : Outgoing) (s : ServerSender S C)
      → IsAnswered s replies
      → (s' : ServerSender S C) × (send S C replies m s ≡ some s')
  unfolding send FirstWaiting
  send-returns replies m s answered = elim (Option-cases s.sx) [
    | inl e ↦ (s, ap (λ o. send_on S C replies m o s) e)
    | inr (sx, e) ↦ elim (attempts_cases (limit_of s) replies) [
      | inl (k, l, first) ↦ (_, send-accepted replies m s sx k e l first)
      | inr (inl (k, l, (w, before))) ↦ absurd (answered k l w)
      | inr (inr refused) ↦ let r = send-refused replies m s sx e refused in (r.0, r.1)
    ]
  ]
