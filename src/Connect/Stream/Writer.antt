-- ===== src/Connect/Stream/Writer.antt =====
-- How the writer of a client's session in src/helpers/get_internal_websocket.rs ends, and with it the
-- session.
use atomic_websocket.Base.{
  ◌≡◌, ap, ◌∙◌, Text, Bool, true, false, if◌then◌else◌, if-true, if-false, some, List, [], ◌∷◌,
  ◌++◌, map, arith,
}
use atomic_websocket.Runtime.Channel.{Channel}
use atomic_websocket.Runtime.Database.{Database}
use atomic_websocket.Schema.{Primitives}
use atomic_websocket.Server.Streams.{Pass}
use atomic_websocket.Sender.{SenderStatus}
use atomic_websocket.Sender.Persist.{Session}
use atomic_websocket.Connect.{set_try_connect, try_acquire, session_end}
use atomic_websocket.Connect.Stream.{Turn, next, turn_writes, turn_ends, write_turns}

-- Messages that the socket takes.
abbrev pub written : List Text → List Turn
written = map (λ frame. next frame true)

write_turns-append :
    (fs : List Text) (t : Turn) (rest : List Turn)
    → Pass fs
    → turn_ends t ≡ true
    → write_turns (written fs ++ t ∷ rest) ≡ (fs ++ turn_writes t, true)
unfolding write_turns
write_turns-append [] t rest p h = if-true _ _ _ h
write_turns-append (f ∷ fs) t rest (p, ps) h =
    if-false _ _ _ p
    ∙ ap (λ (r : List Text × Bool). (f ∷ r.0, r.1)) (write_turns-append fs t rest ps h)

module _ (S : Channel SenderStatus) (C : Channel Text) (D : Database) (P : Primitives) where
  -- The rest of `handle_websocket`, from the writer's loop on.
  unfoldable pub write_out : List Turn → Session S C D P → List Text × Session S C D P
  write_out turns w = let r = write_turns turns in (r.0, if r.1 then session_end S C D P w else w)

  -- Messages that do not end the writer are written in order. It leaves at the first turn that does:
  -- a message that is a disconnect or too short to be read, which is still written, one that the
  -- socket refuses, a channel that no one holds, or the end of the reader. Nothing is written after
  -- that, and the session gives the single-flight flag back, so that the next attempt to connect
  -- gets it.
  pub write_out-append :
      (fs : List Text) (t : Turn) (rest : List Turn) (w : Session S C D P)
      → Pass fs
      → turn_ends t ≡ true
      → let r = write_out (written fs ++ t ∷ rest) w in
        (r.0 ≡ fs ++ turn_writes t)
        × (r.1.sender.is_try_connect ≡ false)
        × (try_acquire S C D P r.1 ≡ some (set_try_connect S C D P true w))
  unfolding write_out session_end try_acquire
  write_out-append fs t rest w p h =
      let e = write_turns-append fs t rest p h in
      let left = λ (b : Bool). if b then session_end S C D P w else w in
      let ended = ap (λ (r : List Text × Bool). left r.1) e in
      (
        ap (λ (r : List Text × Bool). r.0) e,
        ap (λ (v : Session S C D P). v.sender.is_try_connect) ended,
        ap (try_acquire S C D P) ended,
      )

  pub write_out-buffers :
      (turns : List Turn) (w : Session S C D P)
      → (write_out turns w).1.sender.buffers ≡ w.sender.buffers
  unfolding write_out session_end
  write_out-buffers turns w = ground arith
