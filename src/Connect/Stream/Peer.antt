-- ===== src/Connect/Stream/Peer.antt =====
-- The peer that a client names to its server in a farewell, src/helpers/get_internal_websocket.rs: the
-- host of the address that src/helpers/server_sender.rs made.
use atomic_websocket.Base.{
  ◌≡◌, refl, ap, ◌∙◌, Text, codes, false, Bool-cases, inl, inr, [], ◌∷◌, ◌++◌, is_empty,
  starts_with, contains, arith,
}
use atomic_websocket.Address.{valid_port, parse_port, to_ws_url, trim_end_slash, port_or_empty}
use atomic_websocket.Address.Port.{NoColon, after_last_colon-NoColon, trim-NoColon}
use atomic_websocket.Connect.Stream.{before_scheme, before_colon, peer_of}

pub before_colon-append :
    (host rest : Text) → NoColon host → before_colon (host ++ b':' ∷ rest) ≡ host
unfolding before_colon
before_colon-append [] rest h = refl
before_colon-append (c ∷ host) rest h = ground (arith, before_colon-append host rest h.1)

before_colon_self : (host : Text) → NoColon host → before_colon host ≡ host
unfolding before_colon
before_colon_self [] h = refl
before_colon_self (c ∷ host) h = ground (arith, before_colon_self host h.1)

-- What ends at a separator also ends at its colon.
before_colon-before_scheme : (s : Text) → before_colon (before_scheme s) ≡ before_colon s
unfolding before_colon before_scheme starts_with
before_colon-before_scheme [] = refl
before_colon-before_scheme (c ∷ s) = ground (arith, before_colon-before_scheme s)

not-contains : (host : Text) → NoColon host → contains host (codes "://") ≡ false
unfolding contains starts_with
not-contains [] h = refl
not-contains (c ∷ host) h = ground (arith, not-contains host h.1)

parse_port-NoColon : (host : Text) → NoColon host → parse_port host ≡ []
unfolding parse_port
parse_port-NoColon host h =
    ap port_or_empty (after_last_colon-NoColon (trim_end_slash host) (trim-NoColon host h))

peer_of-append : (t : Text) → peer_of (codes "ws://" ++ t) ≡ before_colon t
unfolding peer_of starts_with
peer_of-append t = before_colon-before_scheme t

-- The farewell names the host that was given, if it has no colon: it is read back from the URL that
-- was made of the host and the port, whatever the port is.
pub peer_of-to_ws_url : (host port : Text) → NoColon host → peer_of (to_ws_url host port) ≡ host
unfolding to_ws_url
peer_of-to_ws_url host port h =
    rw (not-contains host h, parse_port-NoColon host h)
      (elim (Bool-cases (is_empty (valid_port port))) [
        | inl e ↦ rw e (peer_of-append host ∙ before_colon_self host h)
        | inr e ↦ rw e (peer_of-append _ ∙ before_colon-append host (valid_port port) h)
      ])
