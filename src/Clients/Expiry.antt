-- ===== src/Clients/Expiry.antt =====
-- `check_client_send_time` of src/helpers/client_sender.rs: who is dropped for being silent.
use atomic_websocket.Base.{
  ℕ, ◌+◌, ◌<◌, ◌^◌, ◌≡◌, refl, ◌∙◌, Text, leb, if◌then◌else◌, Option, none, some, arith,
}
use atomic_websocket.Runtime.Channel.{Channel}
use atomic_websocket.Runtime.Table.{Table, keep_if}
use atomic_websocket.Clients.{
  ClientSender, HandlerMessage, ClientSenders, check_client_send_time, in_time,
}
use atomic_websocket.Clients.Registry.{entry}

-- Times and timeouts as they occur: far from the ends of an i64.
abbrev pub InRange : ℕ → Type 0
InRange t = t < 2 ^ 62

-- The entry that a check leaves of an entry, in plain arithmetic.
abbrev pub unexpired : ℕ → ℕ → Option ClientSender → Option ClientSender
unexpired now timeout none = none
unexpired now timeout (some client) =
    if leb now (client.send_time + timeout) then some client else none

abbrev pub EntryInRange : Option ClientSender → Type 0
EntryInRange none = Unit {0}
EntryInRange (some client) = InRange client.send_time

keep_if-unexpired :
    (now timeout : ℕ) (j : Text) (o : Option ClientSender)
    → InRange now
    → InRange timeout
    → EntryInRange o
    → keep_if (in_time now timeout) j o ≡ unexpired now timeout o
keep_if-unexpired now timeout j none h k l = refl
keep_if-unexpired now timeout j (some client) h k l = ground arith

-- A check keeps a client, unchanged, exactly if the present is not later than its last send plus
-- the timeout; it adds nobody. The arithmetic on i64 does not wrap for times below 2 ^ 62.
pub entry-check_client_send_time :
    (T : Table ClientSender) (C : Channel HandlerMessage) (now : ℕ) (s : ClientSenders T C)
    (j : Text)
    → InRange now
    → InRange s.options.client_timeout_seconds
    → EntryInRange (entry T C s j)
    → entry T C (check_client_send_time T C now s) j
      ≡ unexpired now s.options.client_timeout_seconds (entry T C s j)
unfolding check_client_send_time
entry-check_client_send_time T C now s j h k l =
    T.get-retain s.clients _ j
    ∙ keep_if-unexpired now s.options.client_timeout_seconds j (entry T C s j) h k l
