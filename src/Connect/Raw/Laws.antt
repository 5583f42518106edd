-- ===== src/Connect/Raw/Laws.antt =====
-- What the application gets from a client's session of src/helpers/get_internal_websocket.rs without
-- the feature `bebop`, and what the session's writer writes.
use atomic_websocket.Base.{◌≡◌, refl, ap, Text, Bool, true, if◌then◌else◌, List, [], ◌∷◌, ◌++◌, map}
use atomic_websocket.Runtime.Channel.{Channel}
use atomic_websocket.Runtime.Database.{Database}
use atomic_websocket.Sender.{Reply, SenderStatus, notify}
use atomic_websocket.Sender
use atomic_websocket.Connect.Stream.{Turn, next, turn_writes}
use atomic_websocket.Connect.Raw.{
  Event, message, end_of_stream, send, Stream, turn_ends, write_turns,
}

-- The messages of the stream, until it ends.
abbrev pub frames : List Event → List Text
frames [] = []
frames (message now value ∷ es) = value ∷ frames es
frames (end_of_stream ∷ es) = []
frames (send replies m ∷ es) = frames es

-- The writer writes what its channel yields, in order and whatever it says, until the first turn
-- that ends its loop: a message that the socket refuses, a channel that no one holds, or the end of
-- the reader. Nothing is written after that.
pub write_turns-append :
    (fs : List Text) (t : Turn) (rest : List Turn)
    → turn_ends t ≡ true
    → write_turns (map (λ frame. next frame true) fs ++ t ∷ rest) ≡ (fs ++ turn_writes t, true)
unfolding write_turns
write_turns-append [] t rest h = rw h refl
write_turns-append (f ∷ fs) t rest h =
    ap (λ (r : List Text × Bool). (f ∷ r.0, r.1)) (write_turns-append fs t rest h)

module _ (S : Channel SenderStatus) (C : Channel Text) (D : Database) where
  abbrev expected : Bool → List Event → List Text
  expected b es = if b then frames es else []
