-- ===== src/Address.antt =====
-- src/helpers/server_sender.rs and src/helpers/get_outer_websocket.rs: the functions that read a
-- server address and write the URL to dial.
pub mod Port
pub mod Url
use atomic_websocket.Base.{
  ℕ, Text, codes, Bool, true, false, not, ◌&&◌, ◌||◌, leb, ◌==◌, if◌then◌else◌, Option, none, some,
  List, [], ◌∷◌, ◌++◌, all, is_empty, starts_with, contains,
}

-- `u8::is_ascii_digit`.
abbrev pub is_ascii_digit : ℕ → Bool
is_ascii_digit b = leb b'0' b && leb b b'9'

unfoldable pub valid_port : Text → Text
valid_port port = if not (is_empty port) && all is_ascii_digit port then port else []

-- `str::trim_end_matches('/')`.
unfoldable pub trim_end_slash : Text → Text
trim_end_slash [] = []
trim_end_slash (c ∷ s) =
    let rest = trim_end_slash s in if c == b'/' && is_empty rest then [] else c ∷ rest

-- What `str::rsplit_once(':')` finds behind the last colon.
unfoldable pub after_last_colon : Text → Option Text
after_last_colon [] = none
after_last_colon (c ∷ s) = elim (after_last_colon s) [
  | some port ↦ some port
  | none ↦ if c == b':' then some s else none
]

abbrev pub port_or_empty : Option Text → Text
port_or_empty none = []
port_or_empty (some port) = valid_port port

unfoldable pub parse_port : Text → Text
unfolding after_last_colon trim_end_slash valid_port
parse_port server_address = port_or_empty (after_last_colon (trim_end_slash server_address))

unfoldable pub to_ws_url : Text → Text → Text
to_ws_url server_address port =
    if contains server_address (codes "://")
    then server_address
    else if not (is_empty (parse_port server_address))
    then codes "ws://" ++ server_address
    else if is_empty (valid_port port)
    then codes "ws://" ++ server_address
    else codes "ws://" ++ (server_address ++ (codes ":" ++ valid_port port))

-- The flag is the `rustls` feature of the build.
unfoldable pub outer_ws_url : Bool → Text → Text
outer_ws_url rustls url =
    if starts_with url (codes "ws://") || starts_with url (codes "wss://")
    then url
    else if rustls
    then codes "wss://" ++ url
    else codes "ws://" ++ url
