-- ===== src/Address/Url.antt =====
-- The URL that `to_ws_url` and `outer_ws_url` make of an address, and that dialling it again or
-- storing it changes nothing.
use atomic_websocket.Base.{
  Text, codes, Bool, true, false, ◌||◌, ◌≡◌, refl, if◌then◌else◌, ◌++◌, [], is_empty, append-nil,
  starts_with, contains, arith, inl, inr, ◌⊎◌,
}
use atomic_websocket.Address.{valid_port, parse_port, to_ws_url, outer_ws_url}
use atomic_websocket.Address.Port.{IsPort, parse_port-scheme, parse_port-append}

ws_has_scheme : (s : Text) → contains (codes "ws://" ++ s) (codes "://") ≡ true
unfolding contains
ws_has_scheme s = refl

-- The URL always names a scheme, so `connect_async` can parse it.
pub to_ws_url-scheme : (a port : Text) → contains (to_ws_url a port) (codes "://") ≡ true
unfolding to_ws_url
to_ws_url-scheme a port =
    ground (arith, ws_has_scheme a, ws_has_scheme (a ++ (codes ":" ++ valid_port port)))

-- A URL that was made once is not changed by making it again, whatever the port at hand: what a
-- successful connection persists is dialled as it stands.
pub to_ws_url_idem : (a p q : Text) → to_ws_url (to_ws_url a p) q ≡ to_ws_url a p
unfolding to_ws_url
to_ws_url_idem a p q =
    ground (arith, ws_has_scheme a, ws_has_scheme (a ++ (codes ":" ++ valid_port p)))

valid_port-cases : (p : Text) → (valid_port p ≡ []) ⊎ (IsPort p × (valid_port p ≡ p))
unfolding valid_port
valid_port-cases p = ground arith

parse_port_of_valid :
    (a p : Text)
    → is_empty (valid_port p) ≡ false
    → parse_port (a ++ (codes ":" ++ valid_port p)) ≡ valid_port p
parse_port_of_valid a p h = elim (valid_port-cases p) [
  | inl e ↦ ground arith
  | inr (k, e) ↦ rw e (rw (append-nil (a ++ (codes ":" ++ p))) at (parse_port-append a p 0 k))
]

-- The port of the URL made of an address without a scheme is the address's own port where it has
-- one, and the port that was given beside it, if that is a run of digits, where it has none.
pub parse_port-to_ws_url :
    (a p : Text)
    → contains a (codes "://") ≡ false
    → parse_port (to_ws_url a p) ≡ (if is_empty (parse_port a) then valid_port p else parse_port a)
unfolding to_ws_url
parse_port-to_ws_url a p h = ground (
  arith,
  parse_port-scheme a,
  parse_port-scheme (a ++ (codes ":" ++ valid_port p)),
  parse_port_of_valid a p,
)

-- The URL of an external server names `ws` or `wss`; an address that already does is dialled as it
-- is, and so is the URL itself, in a build of either kind.
pub outer_ws_url_lem :
    (rustls tls : Bool) (url : Text)
    → ((starts_with (outer_ws_url rustls url) (codes "ws://")
          || starts_with (outer_ws_url rustls url) (codes "wss://"))
        ≡ true)
      × (outer_ws_url tls (outer_ws_url rustls url) ≡ outer_ws_url rustls url)
unfolding outer_ws_url starts_with
outer_ws_url_lem rustls tls url = (ground arith, ground arith)
