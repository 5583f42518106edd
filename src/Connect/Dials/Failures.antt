-- ===== src/Connect/Dials/Failures.antt =====
-- A dial that comes to nothing, step by step: src/helpers/get_internal_websocket.rs and
-- src/helpers/get_outer_websocket.rs.
use atomic_websocket.Base.{
  ℕ, Option, ◌≡◌, refl, ap, sym, is_empty, ◌∙◌, Text, Bool, true, false, if◌then◌else◌, if-true,
  if-false, none, some, [], ◌∷◌, arith, Bool-cases, inl, inr,
}
use atomic_websocket.Runtime.Channel.{Channel}
use atomic_websocket.Runtime.Database.{Database}
use atomic_websocket.Schema.{Primitives}
use atomic_websocket.Address.{outer_ws_url}
use atomic_websocket.Options.{ClientOptions}
use atomic_websocket.Sender.{SenderStatus, ServerSender, sx_drop, drop_old, remove_ip}
use atomic_websocket.Sender.Persist.{Session, remove_ip_if_valid_server_ip}
use atomic_websocket.Connect.{try_acquire, set_try_connect, reset_try_connect}
use atomic_websocket.Connect.Dials.{
  Handshake, opened, refused, timed_out, fails, ok, Course, handle_websocket,
  get_internal_websocket, wrap_get_internal_websocket, get_outer_websocket, acquired_internal,
  acquired_outer, give_up, wrapped,
}

module _ (S : Channel SenderStatus) (C : Channel Text) (D : Database) (P : Primitives) where
  -- The flag up and down again around what an operation does to the rest.
  pub reset_lem :
      (w : Session S C D P)
      → w.sender.is_try_connect ≡ false
      → reset_try_connect S C D P (set_try_connect S C D P true w) ≡ w
  unfolding reset_try_connect
  reset_lem w h = ground (arith, h)

  pub give_up_lem :
      (w : Session S C D P)
      → w.sender.is_try_connect ≡ false
      → give_up S C D P (set_try_connect S C D P true w) ≡ remove_ip_if_valid_server_ip S C D P w
  unfolding reset_try_connect remove_ip_if_valid_server_ip remove_ip sx_drop
  give_up_lem w h = ground (arith, h)

  pub acquired :
      (w : Session S C D P)
      → w.sender.is_try_connect ≡ false
      → try_acquire S C D P w ≡ some (set_try_connect S C D P true w)
  unfolding try_acquire
  acquired w h = if-false _ _ _ h

  pub wrapped_failed :
      (is_utf8 : Text → Bool) (shake : Handshake) (c : Course S C D P) (server_ip : Text)
      (options : ClientOptions) (w : Session S C D P)
      → fails shake ≡ true
      → w.sender.is_try_connect ≡ false
      → wrap_get_internal_websocket S C D P is_utf8 shake c server_ip options w
        ≡ some (true, remove_ip_if_valid_server_ip S C D P w)
  unfolding get_internal_websocket wrap_get_internal_websocket
  wrapped_failed is_utf8 opened c server_ip options w f h = cc
  wrapped_failed is_utf8 refused c server_ip options w f h =
      ap
        (λ o. wrapped S C D P (
          acquired_internal S C D P refused (handle_websocket S C D P is_utf8 server_ip options c) w
            o))
        (acquired w h)
      ∙ ap (λ v. some (true, v)) (give_up_lem w h)
  wrapped_failed is_utf8 timed_out c server_ip options w f h =
      ap
        (λ o. wrapped S C D P (
          acquired_internal S C D P timed_out (handle_websocket S C D P is_utf8 server_ip options c)
            w o))
        (acquired w h)
      ∙ ap (λ v. some (true, v)) (give_up_lem w h)

  pub outer_failed :
      (rustls : Bool) (is_utf8 : Text → Bool) (shake : Handshake) (c : Course S C D P)
      (options : ClientOptions) (w : Session S C D P)
      → fails shake ≡ true
      → w.sender.is_try_connect ≡ false
      → get_outer_websocket S C D P rustls is_utf8 shake c options w ≡ some (ok, w)
  unfolding get_outer_websocket
  outer_failed rustls is_utf8 opened c options w f h = cc
  outer_failed rustls is_utf8 refused c options w f h =
      ap
        (acquired_outer S C D P refused
          (handle_websocket S C D P is_utf8 (outer_ws_url rustls options.url) options c) w)
        (acquired w h)
      ∙ ap (λ v. some (ok, v)) (reset_lem w h)
  outer_failed rustls is_utf8 timed_out c options w f h =
      ap
        (acquired_outer S C D P timed_out
          (handle_websocket S C D P is_utf8 (outer_ws_url rustls options.url) options c) w)
        (acquired w h)
      ∙ ap (λ v. some (ok, v)) (reset_lem w h)

  drop_old_lem :
      (o : Option ℕ) (s : ServerSender S C)
      → s.sx ≡ o
      → ((drop_old S C o s).sx ≡ none)
        × ((drop_old S C o s).is_try_connect ≡ s.is_try_connect)
        × ((drop_old S C o s).buffers ≡ s.buffers)
  drop_old_lem none s h = (h, refl, refl)
  drop_old_lem (some sx) s h = (refl, refl, refl)

  empty_lem : (t : Text) → is_empty t ≡ true → t ≡ []
  empty_lem [] h = refl
  empty_lem (x ∷ t) h = cc

  pub remove_ip_lem :
      (s : ServerSender S C)
      → ((remove_ip S C s).server_ip ≡ [])
        × ((remove_ip S C s).is_try_connect ≡ s.is_try_connect)
        × ((remove_ip S C s).sx ≡ (if is_empty s.server_ip then s.sx else none))
        × ((remove_ip S C s).buffers ≡ s.buffers)
  unfolding remove_ip sx_drop
  remove_ip_lem s = elim (Bool-cases (is_empty s.server_ip)) [
    | inl e ↦
        let same : remove_ip S C s ≡ s = if-true _ _ _ e in
        (
          ap (λ (t : ServerSender S C). t.server_ip) same ∙ empty_lem s.server_ip e,
          ap (λ (t : ServerSender S C). t.is_try_connect) same,
          ap (λ (t : ServerSender S C). t.sx) same ∙ sym (if-true _ _ _ e),
          ap (λ (t : ServerSender S C). t.buffers) same,
        )
    | inr e ↦
        let gone : remove_ip S C s ≡ record (drop_old S C s.sx s) { server_ip = [] } =
          if-false _ _ _ e in
        let (sx, flag, buffers) = drop_old_lem s.sx s refl in
        (
          ap (λ (t : ServerSender S C). t.server_ip) gone,
          ap (λ (t : ServerSender S C). t.is_try_connect) gone ∙ flag,
          ap (λ (t : ServerSender S C). t.sx) gone ∙ sx ∙ sym (if-false _ _ _ e),
          ap (λ (t : ServerSender S C). t.buffers) gone ∙ buffers,
        )
  ]
