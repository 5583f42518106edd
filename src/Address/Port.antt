-- ===== src/Address/Port.antt =====
-- The port that `parse_port` of src/helpers/server_sender.rs reads from an address.
use atomic_websocket.Base.{
  ℕ, zero, suc, Text, codes, true, false, ◌≡◌, refl, ◌≢◌, none, some, [], ◌∷◌, ◌++◌, all, is_empty,
  arith, Option-cases, inl, inr,
}
use atomic_websocket.Address.{
  is_ascii_digit, valid_port, trim_end_slash, after_last_colon, port_or_empty, parse_port,
}

-- A port as the code accepts it: at least one byte, and only ASCII digits.
abbrev pub IsPort : Text → Type 0
IsPort p = (is_empty p ≡ false) × (all is_ascii_digit p ≡ true)

-- No byte of the text is a colon.
abbrev pub NoColon : Text → Type 0
NoColon [] = Unit {0}
NoColon (c ∷ s) = (c ≢ b':') × NoColon s

abbrev pub slashes : ℕ → Text
slashes zero = []
slashes (suc n) = b'/' ∷ slashes n

pub valid_port-digits : (p : Text) → all is_ascii_digit (valid_port p) ≡ true
unfolding valid_port
valid_port-digits p = ground arith

pub valid_port-IsPort : (p : Text) → IsPort p → valid_port p ≡ p
unfolding valid_port
valid_port-IsPort p h = ground arith

digits-NoColon : (p : Text) → all is_ascii_digit p ≡ true → NoColon p
digits-NoColon [] h = tt
digits-NoColon (c ∷ p) h = (ground arith, digits-NoColon p (ground arith))

pub after_last_colon-NoColon : (s : Text) → NoColon s → after_last_colon s ≡ none
unfolding after_last_colon
after_last_colon-NoColon [] h = refl
after_last_colon-NoColon (c ∷ s) h = ground (arith, after_last_colon-NoColon s h.1)

after_last_colon-some :
    (s t p : Text) → after_last_colon t ≡ some p → after_last_colon (s ++ t) ≡ some p
unfolding after_last_colon
after_last_colon-some [] t p h = h
after_last_colon-some (c ∷ s) t p h = rw (after_last_colon-some s t p h, after_last_colon)

trim-slashes : (n : ℕ) → trim_end_slash (slashes n) ≡ []
unfolding trim_end_slash
trim-slashes zero = refl
trim-slashes (suc n) = rw (trim-slashes n, trim_end_slash)

is_empty-append : (s t : Text) → is_empty t ≡ false → is_empty (s ++ t) ≡ false
is_empty-append [] t h = h
is_empty-append (c ∷ s) t h = refl

pub trim-append :
    (s t : Text)
    → is_empty (trim_end_slash t) ≡ false
    → trim_end_slash (s ++ t) ≡ s ++ trim_end_slash t
unfolding trim_end_slash
trim-append [] t h = refl
trim-append (c ∷ s) t h =
    rw (trim-append s t h, trim_end_slash) (ground (arith, is_empty-append s (trim_end_slash t) h))

trim_digits : (p : Text) → all is_ascii_digit p ≡ true → trim_end_slash p ≡ p
unfolding trim_end_slash
trim_digits [] h = refl
trim_digits (c ∷ p) h = ground (arith, trim_digits p)

trim-append_slashes : (s : Text) (n : ℕ) → trim_end_slash (s ++ slashes n) ≡ trim_end_slash s
unfolding trim_end_slash
trim-append_slashes [] n = trim-slashes n
trim-append_slashes (c ∷ s) n = rw (trim-append_slashes s n, trim_end_slash)

pub parse_port-colon : (host p : Text) → IsPort p → parse_port (host ++ (b':' ∷ p)) ≡ p
unfolding parse_port
parse_port-colon host p h =
    let trimmed : trim_end_slash (b':' ∷ p) ≡ b':' ∷ p = ground (arith, trim_digits p h.1) in
    let last : after_last_colon (b':' ∷ p) ≡ some p =
      ground (arith, after_last_colon-NoColon p (digits-NoColon p h.1)) in
    rw (trim-append host (b':' ∷ p) (ground arith), trimmed, after_last_colon-some host _ p last)
      (valid_port-IsPort p h)

-- An address that ends in a colon and a run of digits, with any number of slashes behind, has
-- that run as its port, whatever stands in front: a host, or a scheme with its own colon.
pub parse_port-append :
    (host p : Text) (n : ℕ) → IsPort p → parse_port ((host ++ (codes ":" ++ p)) ++ slashes n) ≡ p
unfolding parse_port
parse_port-append host p n h =
    rw (trim-append_slashes (host ++ (codes ":" ++ p)) n) (parse_port-colon host p h)

pub trim-NoColon : (s : Text) → NoColon s → NoColon (trim_end_slash s)
unfolding trim_end_slash
trim-NoColon [] h = tt
trim-NoColon (c ∷ s) h = ground (arith, trim-NoColon s h.1)

NoColon-append : (s t : Text) → NoColon s → NoColon t → NoColon (s ++ t)
NoColon-append [] t h k = k
NoColon-append (c ∷ s) t h k = (h.0, NoColon-append s t h.1 k)

-- `valid_port` refuses what follows the colon of a scheme: a slash, or nothing.
port_after_scheme : (host : Text) → valid_port (trim_end_slash (codes "//" ++ host)) ≡ []
unfolding trim_end_slash valid_port
port_after_scheme host = ground arith

colon_trimmed :
    (host : Text)
    → trim_end_slash (codes "://" ++ host) ≡ b':' ∷ trim_end_slash (codes "//" ++ host)
unfolding trim_end_slash
colon_trimmed host = refl

-- A URL whose host has no colon has no port: neither the scheme's colon nor the host is taken for
-- one, whatever the scheme is.
pub parse_port_no_port :
    (scheme host : Text) → NoColon host → parse_port (scheme ++ (codes "://" ++ host)) ≡ []
unfolding parse_port
parse_port_no_port scheme host h =
    let rest : NoColon (trim_end_slash (codes "//" ++ host)) =
      trim-NoColon (codes "//" ++ host) (NoColon-append (codes "//") host (ground arith) h) in
    let last : after_last_colon (b':' ∷ trim_end_slash (codes "//" ++ host))
        ≡ some (trim_end_slash (codes "//" ++ host)) =
      ground (arith, after_last_colon-NoColon (trim_end_slash (codes "//" ++ host)) rest) in
    rw
      (
        trim-append scheme (codes "://" ++ host) refl,
        colon_trimmed host,
        after_last_colon-some scheme _ _ last,
      )
      (port_after_scheme host)

-- Whatever the address, the port read from it is empty or a run of ASCII digits.
pub parse_port-digits : (a : Text) → all is_ascii_digit (parse_port a) ≡ true
unfolding parse_port
parse_port-digits a = elim (Option-cases (after_last_colon (trim_end_slash a))) [
  | inl e ↦ rw (e, port_or_empty)
  | inr (p, e) ↦ rw (e, port_or_empty) (valid_port-digits p)
]

-- A scheme in front of an address leaves the port what it was.
pub parse_port-scheme : (a : Text) → parse_port (codes "ws://" ++ a) ≡ parse_port a
unfolding parse_port
parse_port-scheme a = ground arith
