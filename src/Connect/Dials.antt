-- ===== src/Connect/Dials.antt =====
-- A dial from its guard to the end of its session: `get_internal_websocket` and `handle_websocket` of
-- src/helpers/get_internal_websocket.rs and `get_outer_websocket` of
-- src/helpers/get_outer_websocket.rs. How the handshake ends, what happens in the session and what its
-- writer meets are arguments. The task that a dropped guard spawns runs at once here; Connect/Flights
-- has it apart.
pub mod Ends
pub mod Failures
use mathlib.Core.Option
use atomic_websocket.Base.{
  ℕ, ◌≡◌, refl, ap, sym, ◌∙◌, Text, Bool, true, false, if◌then◌else◌, if-true, if-false, Option,
  none, some, List, [], ◌∷◌, ◌++◌, arith, is_empty, Bool-cases, inl, inr,
}
use atomic_websocket.Runtime.Channel.{Channel}
use atomic_websocket.Runtime.Database.{Database}
use atomic_websocket.Schema.{Primitives}
use atomic_websocket.Address.{outer_ws_url}
use atomic_websocket.Options.{ClientOptions}
use atomic_websocket.Store.{get_client_id}
use atomic_websocket.Server.Streams.{Pass}
use atomic_websocket.Sender.{SenderStatus, Reply, ServerSender, sx_drop}
use atomic_websocket.Sender
use atomic_websocket.Sender.Persist.{Session, remove_ip_if_valid_server_ip}
use atomic_websocket.Connect.{try_acquire, set_try_connect, reset_try_connect, session_start}
use atomic_websocket.Connect.Stream.{Event, Turn, Stream, reader_start, run, turn_ends}
use atomic_websocket.Connect.Stream.Writer.{write_out}

-- `timeout(.., connect_async(..))`.
pub data Handshake : Type 0 where
  opened refused timed_out : Handshake

abbrev pub fails : Handshake → Bool
fails opened = false
fails _ = true

-- `tungstenite::Result<()>`.
pub data Answer : Type 0 where
  ok err : Answer

abbrev pub is_ok : Answer → Bool
is_ok ok = true
is_ok err = false

module _ (S : Channel SenderStatus) (C : Channel Text) (D : Database) (P : Primitives) where
  -- What a session goes through: the time of its start, its channel and what becomes of the first
  -- ping there, the events behind its start, and the turns of its writer.
  pub record Course : Type 0 where
    pub now : ℕ
    pub sx : ℕ
    pub replies : ℕ → Reply
    pub events : List Event
    pub turns : List Turn

  abbrev pub read_on :
      ClientOptions → Course → Text → Text → Option (Session S C D P) → Option (Session S C D P)
  read_on options c server_ip id none = none
  read_on options c server_ip id (some w) =
      let x =
        run S C D P c.sx server_ip id c.events
          (record { reader = reader_start options; session = w }) in
      some (write_out S C D P c.turns x.session).1

  -- `handle_websocket`, whose guard the caller has acquired. Its answer is always `Ok`; `none` is a
  -- call that hangs in the first ping.
  unfoldable pub handle_websocket :
      (Text → Bool) → Text → ClientOptions → Course → Session S C D P → Option (Session S C D P)
  handle_websocket is_utf8 server_ip options c w =
      read_on options c server_ip (get_client_id D is_utf8 w.db)
        (session_start S C D P c.now c.replies is_utf8 c.sx server_ip options w)

  abbrev pub give_up : Session S C D P → Session S C D P
  give_up w = reset_try_connect S C D P (remove_ip_if_valid_server_ip S C D P w)

  abbrev pub dialed_internal :
      Handshake
      → (Session S C D P → Option (Session S C D P))
      → Session S C D P
      → Option (Answer × Session S C D P)
  dialed_internal opened handle w = Option.map (λ w'. (ok, w')) (handle w)
  dialed_internal refused handle w = some (ok, give_up w)
  dialed_internal timed_out handle w = some (ok, give_up w)

  abbrev pub acquired_internal :
      Handshake
      → (Session S C D P → Option (Session S C D P))
      → Session S C D P
      → Option (Session S C D P)
      → Option (Answer × Session S C D P)
  acquired_internal shake handle w none = some (ok, w)
  acquired_internal shake handle w (some w') = dialed_internal shake handle w'

  unfoldable pub get_internal_websocket :
      (Text → Bool)
      → Handshake
      → Course
      → Text
      → ClientOptions
      → Session S C D P
      → Option (Answer × Session S C D P)
  get_internal_websocket is_utf8 shake c server_ip options w =
      acquired_internal shake (handle_websocket is_utf8 server_ip options c) w
        (try_acquire S C D P w)

  abbrev pub wrapped : Option (Answer × Session S C D P) → Option (Bool × Session S C D P)
  wrapped = Option.map (λ r. (is_ok r.0, r.1))

  unfoldable pub wrap_get_internal_websocket :
      (Text → Bool)
      → Handshake
      → Course
      → Text
      → ClientOptions
      → Session S C D P
      → Option (Bool × Session S C D P)
  wrap_get_internal_websocket is_utf8 shake c server_ip options w =
      wrapped (get_internal_websocket is_utf8 shake c server_ip options w)

  abbrev pub dialed_outer :
      Handshake
      → (Session S C D P → Option (Session S C D P))
      → Session S C D P
      → Option (Answer × Session S C D P)
  dialed_outer opened handle w = Option.map (λ w'. (ok, w')) (handle w)
  dialed_outer refused handle w = some (ok, reset_try_connect S C D P w)
  dialed_outer timed_out handle w = some (ok, reset_try_connect S C D P w)

  abbrev pub acquired_outer :
      Handshake
      → (Session S C D P → Option (Session S C D P))
      → Session S C D P
      → Option (Session S C D P)
      → Option (Answer × Session S C D P)
  acquired_outer shake handle w none = some (ok, w)
  acquired_outer shake handle w (some w') = dialed_outer shake handle w'

  -- The flag is the `rustls` feature: the two versions differ in the URL and in how it is dialed.
  unfoldable pub get_outer_websocket :
      Bool
      → (Text → Bool)
      → Handshake
      → Course
      → ClientOptions
      → Session S C D P
      → Option (Answer × Session S C D P)
  get_outer_websocket rustls is_utf8 shake c options w =
      acquired_outer shake (handle_websocket is_utf8 (outer_ws_url rustls options.url) options c) w
        (try_acquire S C D P w)
