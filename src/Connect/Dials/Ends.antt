-- ===== src/Connect/Dials/Ends.antt =====
-- How a dial of a client ends: src/helpers/get_internal_websocket.rs and
-- src/helpers/get_outer_websocket.rs.
use mathlib.Core.Option
use atomic_websocket.Base.{
  ℕ, ◌≡◌, refl, ap, ap₂, sym, subst, ◌≤◌, is_empty, ◌∙◌, Text, Bool, true, false, if◌then◌else◌,
  if-true, if-false, none, some, List, [], ◌∷◌, ◌++◌, arith, Bool-cases, inl, inr,
}
use atomic_websocket.Runtime.Channel.{Channel}
use atomic_websocket.Runtime.Database.{Database}
use atomic_websocket.Schema.{Primitives}
use atomic_websocket.Schema.Codecs.{ArePrimitives}
use atomic_websocket.Options.{ClientOptions}
use atomic_websocket.Message.{ping}
use atomic_websocket.Spillover.{Buffers}
use atomic_websocket.Store.{get_client_id, get_server_connect_info}
use atomic_websocket.Server.Streams.{Pass}
use atomic_websocket.Sender.{
  SenderStatus, ServerSender, waits, limit_count, sx_drop, drop_old, remove_ip, connected, notify,
  write_received_times,
}
use atomic_websocket.Sender.Inbox.{SameInbox, notify-SameInbox, send-SameInbox}
use atomic_websocket.Sender.Attempts.{FirstWaiting}
use atomic_websocket.Sender.Retries.{IsAnswered, send-returns, send-waits_iff}
use atomic_websocket.Store.Identity.{IsHealthy, PortIsShort, cleared, get-clear_server_ip}
use atomic_websocket.Sender
use atomic_websocket.Sender.Persist.{Session, add, remove_ip_if_valid_server_ip}
use atomic_websocket.Connect.{with_sender, set_try_connect, session_start}
use atomic_websocket.Connect.Stream.{Turn, Stream, run, reader_start, turn_ends}
use atomic_websocket.Connect.Stream.Received.{run-offer_all}
use atomic_websocket.Spillover.Each.{offer_all}
use atomic_websocket.Connect.Stream.Expected.{for_application, frames}
use atomic_websocket.Connect.Stream.Writer.{write_out, written, write_out-append, write_out-buffers}
use atomic_websocket.Connect.Dials.Failures.{acquired, wrapped_failed, outer_failed, remove_ip_lem}
use atomic_websocket.Connect.Dials.{
  Handshake, opened, fails, ok, Course, handle_websocket, read_on, get_internal_websocket,
  wrap_get_internal_websocket, get_outer_websocket, acquired_internal,
}

module _ (S : Channel SenderStatus) (C : Channel Text) (D : Database) (P : Primitives) where
  -- A dial that is refused or times out, and that found the flag down, leaves it down. An outer dial
  -- leaves the sender and the store as they were. After an internal one no address is left, in the
  -- sender nor in the store, whatever the options say of keeping it; the port in the store is kept
  -- where it is a run of digits, a sender that had an address has dropped its connection, and the
  -- wrapper still answers `true`. Of the store this is said where every transaction of the database
  -- goes through and the port that is stored is short enough to be written again.
  pub failed_dials :
      (A : ArePrimitives P) (H : IsHealthy D) (rustls : Bool) (is_utf8 : Text → Bool)
      (shake : Handshake) (c : Course S C D P) (server_ip : Text) (options : ClientOptions)
      (w : Session S C D P)
      → fails shake ≡ true
      → w.sender.is_try_connect ≡ false
      → PortIsShort D H P A (get_server_connect_info D P w.db)
      → ((y : Session S C D P) × (wrap_get_internal_websocket S C D P is_utf8 shake c server_ip
              options w
            ≡ some (true, y))
          × (y.sender.server_ip ≡ [])
          × (y.sender.is_try_connect ≡ false)
          × (y.sender.sx ≡ (if is_empty w.sender.server_ip then w.sender.sx else none))
          × (get_server_connect_info D P y.db ≡ cleared D H P A (get_server_connect_info D P w.db)))
        × (get_outer_websocket S C D P rustls is_utf8 shake c options w ≡ some (ok, w))
  unfolding remove_ip_if_valid_server_ip
  failed_dials A H rustls is_utf8 shake c server_ip options w f h p =
      let (address, flag, sx, kept) = remove_ip_lem S C D P w.sender in
      (
        (
          remove_ip_if_valid_server_ip S C D P w,
          wrapped_failed S C D P is_utf8 shake c server_ip options w f h,
          address,
          flag ∙ h,
          sx,
          get-clear_server_ip D H P A w.db p,
        ),
        outer_failed S C D P rustls is_utf8 shake c options w f h,
      )

  notified :
      (now : ℕ) (s : ServerSender S C)
      → SameInbox S C s (notify S C connected (write_received_times S C now s))
  unfolding write_received_times
  notified now s =
      let n = notify-SameInbox S C connected (write_received_times S C now s) in
      record { buffers = n.buffers; options = n.options }

  add-SameInbox :
      (sx : ℕ) (server_ip : Text) (w : Session S C D P)
      → SameInbox S C w.sender (add S C D P sx server_ip w).sender
  unfolding add Sender.add sx_drop
  add-SameInbox sx server_ip w = record { buffers = ground arith; options = ground arith }

  -- The first ping of a session, if there is one, is not left waiting for room in the channel.
  abbrev pub PingReturns : ClientOptions → Course S C D P → ServerSender S C → Type 0
  PingReturns options c s = options.use_ping ≡ true → IsAnswered S C s c.replies

  started :
      (is_utf8 : Text → Bool) (c : Course S C D P) (server_ip : Text) (options : ClientOptions)
      (w : Session S C D P)
      → PingReturns options c w.sender
      → (v : Session S C D P) × (session_start S C D P c.now c.replies is_utf8 c.sx server_ip
            options w
          ≡ some v)
        × SameInbox S C w.sender v.sender
  unfolding session_start
  started is_utf8 c server_ip options w answered =
      let a = add-SameInbox c.sx server_ip w in
      let w' = add S C D P c.sx server_ip w in
      elim (Bool-cases options.use_ping) [
        | inl e ↦
            let still : IsAnswered S C w'.sender c.replies =
              subst
                (λ (o : ClientOptions).
                  (i : ℕ) → i ≤ limit_count o.retry_seconds → c.replies i ≡ waits → ⊥)
                (sym a.options) (answered e) in
            let (s, sent) =
              send-returns S C c.replies (ping (get_client_id D is_utf8 w.db)) w'.sender still in
            let b = send-SameInbox S C c.replies _ _ s sent in
            (
              record w' { sender = s },
              if-true _ _ _ e ∙ ap (with_sender S C D P w') sent,
              record { buffers = b.buffers ∙ a.buffers; options = b.options ∙ a.options },
            )
        | inr e ↦
            let b = notified c.now w'.sender in
            (
              _,
              if-false _ _ _ e,
              record { buffers = b.buffers ∙ a.buffers; options = b.options ∙ a.options },
            )
      ]

  -- Where a dial that found the flag down succeeds, the channel leaves no attempt of its first ping
  -- waiting, and its writer meets a turn that ends it, behind messages that do not: then the dial
  -- answers `Ok`, the single-flight flag is down, and the application has been offered exactly the
  -- messages of its server, in order: those before the first disconnect or the end of the stream that
  -- can be read and are no pong, whatever other tasks sent meanwhile, and whether or not their sends
  -- returned.
  pub get_internal_websocket-opened :
      (is_utf8 : Text → Bool) (c : Course S C D P) (server_ip : Text) (options : ClientOptions)
      (w : Session S C D P) (fs : List Text) (t : Turn) (rest : List Turn)
      → w.sender.is_try_connect ≡ false
      → PingReturns options c w.sender
      → c.turns ≡ written fs ++ t ∷ rest
      → Pass fs
      → turn_ends t ≡ true
      → (y : Session S C D P) × (get_internal_websocket S C D P is_utf8 opened c server_ip options w
          ≡ some (ok, y))
        × (y.sender.is_try_connect ≡ false)
        × (y.sender.buffers
            ≡ offer_all C w.sender.options.spillover_buffer_size w.sender.buffers
                (for_application P (frames c.events)))
  unfolding get_internal_websocket handle_websocket write_out
  get_internal_websocket-opened is_utf8 c server_ip options w fs t rest h answered e p q =
      let w' = set_try_connect S C D P true w in
      let id = get_client_id D is_utf8 w.db in
      let (v, start, same) = started is_utf8 c server_ip options w' answered in
      let x0 : Stream S C D P c.sx server_ip id = record {
        reader = reader_start options;
        session = v;
      } in
      let x = run S C D P c.sx server_ip id c.events x0 in
      let left = write_out-append S C D P fs t rest x.session p q in
      (
        (write_out S C D P c.turns x.session).1,
        ap
              (acquired_internal S C D P opened
                (handle_websocket S C D P is_utf8 server_ip options c) w)
              (acquired S C D P w h)
            ∙ ap (Option.map (λ y. (ok, y))) (ap (read_on S C D P options c server_ip id) start),
        ap (λ ts. (write_out S C D P ts x.session).1.sender.is_try_connect) e ∙ left.1,
        write_out-buffers S C D P c.turns x.session
            ∙ run-offer_all S C D P c.sx server_ip id c.events x0 refl
            ∙ ap₂
                (λ (o : ClientOptions) (k : Buffers C).
                  offer_all C o.spillover_buffer_size k (for_application P (frames c.events)))
                same.options same.buffers,
      )

  -- A session that pings and finds its channel full, with nothing that empties it, never comes to its
  -- writer: the dial does not return.
  get_internal_websocket-hangs :
      (is_utf8 : Text → Bool) (c : Course S C D P) (server_ip : Text) (options : ClientOptions)
      (w : Session S C D P)
      → w.sender.is_try_connect ≡ false
      → options.use_ping ≡ true
      → c.replies 0 ≡ waits
      → get_internal_websocket S C D P is_utf8 opened c server_ip options w ≡ none
  unfolding get_internal_websocket handle_websocket session_start add Sender.add FirstWaiting
  get_internal_websocket-hangs is_utf8 c server_ip options w h e k =
      let w' = set_try_connect S C D P true w in
      let v = add S C D P c.sx server_ip w' in
      let id = get_client_id D is_utf8 w.db in
      let hung =
        (send-waits_iff S C c.replies (ping id) v.sender c.sx refl).1
          (0, omega arith, (k, λ i l. absurd (omega arith))) in
      let start : session_start S C D P c.now c.replies is_utf8 c.sx server_ip options w' ≡ none =
        if-true _ _ _ e ∙ ap (with_sender S C D P v) hung in
      ap (acquired_internal S C D P opened (handle_websocket S C D P is_utf8 server_ip options c) w)
        (acquired S C D P w h)
      ∙ ap (Option.map (λ y. (ok, y))) (ap (read_on S C D P options c server_ip id) start)
