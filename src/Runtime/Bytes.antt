-- ===== src/Runtime/Bytes.antt =====
-- A concrete value of the codec interface in the format of bebop: integers in little endian, a text
-- or byte array behind its length, a Boolean as a byte. It shows that the laws can be met.
use atomic_websocket.Base.{
  ℕ, zero, suc, ◌+◌, ◌*◌, ◌/◌, ◌%◌, ◌≤◌, ◌<◌, ◌≡◌, refl, ap, ◌∙◌, Text, Bool, true, false, ltb,
  ◌==◌, if◌then◌else◌, none, some, [], ◌∷◌, ◌++◌, append_assoc, length, length-append, drop,
  length-drop, arith,
}
use atomic_websocket.Runtime.Codec.{
  Codec, IsCodec, DeResult, ok, err, bind-ok, ◌>>=◌, more_data_expected, other,
}

-- 256 to the power of the number of bytes.
abbrev pub cap : ℕ → ℕ
cap zero = 1
cap (suc k) = 256 * cap k

unfoldable pub write : ℕ → ℕ → Text
write zero x = []
write (suc k) x = x % 256 ∷ write k (x / 256)

abbrev pub prepend : ℕ → DeResult (ℕ × ℕ) → DeResult (ℕ × ℕ)
prepend b (ok (n, x)) = ok (suc n, b + 256 * x)
prepend b (err e) = err e

unfoldable pub read : ℕ → Text → DeResult (ℕ × ℕ)
read zero raw = ok (0, 0)
read (suc k) [] = err (more_data_expected (suc k))
read (suc k) (b ∷ raw) = prepend b (read k raw)

pub length-write : (k x : ℕ) → length (write k x) ≡ k
unfolding write
length-write zero x = refl
length-write (suc k) x = ap suc (length-write k (x / 256))

pub read-write : (k x : ℕ) (rest : Text) → x < cap k → read k (write k x ++ rest) ≡ ok (k, x)
unfolding read write
read-write zero x rest h = ground arith
read-write (suc k) x rest h =
    rw (read-write k (x / 256) rest (omega arith)) (ap (λ (y : ℕ). ok (suc k, y)) (omega arith))

prepend-ok :
    (b : ℕ) (m : DeResult (ℕ × ℕ)) (r : ℕ × ℕ)
    → prepend b m ≡ ok r
    → (s : ℕ × ℕ) × (m ≡ ok s) × (r.0 ≡ suc s.0)
prepend-ok b (ok (n, x)) r e = ((n, x), refl, cc)
prepend-ok b (err e) r h = cc

first_eq : {A : Type 0} {x y : ℕ × A} → ok x ≡ ok y → x.0 ≡ y.0
first_eq h = cc

pub read-le : (k : ℕ) (raw : Text) (r : ℕ × ℕ) → read k raw ≡ ok r → r.0 ≤ length raw
unfolding read
read-le zero raw r e = omega (arith, first_eq e)
read-le (suc k) [] r e = cc
read-le (suc k) (b ∷ raw) r e =
    let (s, e', same) = prepend-ok b (read k raw) r e in omega (arith, read-le k raw s e', same)

-- An unsigned or, by its pattern, a signed integer of `k` bytes.
abbrev pub int : ℕ → Codec ℕ
int k = record {
  encode = λ x. if ltb x (cap k) then some (write k x) else none;
  decode = read k;
  min_size = k;
}

int-encode :
    (k x : ℕ) (bytes : Text) → (int k).encode x ≡ some bytes → (x < cap k) × (bytes ≡ write k x)
int-encode k x bytes h = (ground arith, ground arith)

pub int-IsCodec : (k : ℕ) → IsCodec (int k)
int-IsCodec k = record {
  round_trip = λ x bytes rest h.
      let (small, same) = int-encode k x bytes h in
      rw (same, read-write k x rest small, length-write k x);
  min_size-le = λ x bytes h.
      let (small, same) = int-encode k x bytes h in omega (arith, ap length same, length-write k x);
  read-le = λ raw n x e. read-le k raw (n, x) e;
}

pub int-length : (k x : ℕ) (bytes : Text) → (int k).encode x ≡ some bytes → length bytes ≡ k
int-length k x bytes h = ap length (int-encode k x bytes h).1 ∙ length-write k x

abbrev pub bool_of : ℕ × ℕ → DeResult (ℕ × Bool)
bool_of (n, x) = if x == 0 then ok (n, false) else if x == 1 then ok (n, true) else err other

abbrev pub bool : Codec Bool
bool = record {
  encode = λ b. some (if b then 1 ∷ [] else 0 ∷ []);
  decode = λ raw. read 1 raw >>= bool_of;
  min_size = 1;
}

bool_round_trip :
    (b : Bool) (bytes rest : Text)
    → bool.encode b ≡ some bytes
    → bool.decode (bytes ++ rest) ≡ ok (length bytes, b)
unfolding read
bool_round_trip true bytes rest e = let same : bytes ≡ 1 ∷ [] = cc in rw same
bool_round_trip false bytes rest e = let same : bytes ≡ 0 ∷ [] = cc in rw same

bool_read-le : (raw : Text) (n : ℕ) (b : Bool) → bool.decode raw ≡ ok (n, b) → n ≤ length raw
unfolding read
bool_read-le [] n b e = cc
bool_read-le (x ∷ raw) n b e = ground arith

pub bool-IsCodec : IsCodec bool
bool-IsCodec = record {
  round_trip = bool_round_trip;
  min_size-le = λ b bytes e. ground arith;
  read-le = bool_read-le;
}

-- `n` bytes, and that many must be there.
unfoldable pub take : ℕ → Text → DeResult (ℕ × Text)
take zero raw = ok (0, [])
take (suc n) [] = err (more_data_expected (suc n))
take (suc n) (b ∷ raw) = take n raw >>= λ r. ok (suc r.0, b ∷ r.1)

take_append : (t rest : Text) → take (length t) (t ++ rest) ≡ ok (length t, t)
unfolding take
take_append [] rest = refl
take_append (b ∷ t) rest = rw (take_append t rest)

take_read-le : (n : ℕ) (raw : Text) (r : ℕ × Text) → take n raw ≡ ok r → r.0 ≤ length raw
unfolding take
take_read-le zero raw r e = omega (arith, first_eq e)
take_read-le (suc n) [] r e = cc
take_read-le (suc n) (b ∷ raw) r e =
    let (s, e', same) = bind-ok (take n raw) _ e in
    omega (arith, take_read-le n raw s e', first_eq same)

abbrev pub array : Codec Text
array = record {
  encode = λ t. if ltb (length t) (cap 4) then some (write 4 (length t) ++ t) else none;
  decode = λ raw. read 4 raw >>= λ r. take r.1 (drop r.0 raw) >>= λ s. ok (r.0 + s.0, s.1);
  min_size = 4;
}

array-encode :
    (t bytes : Text)
    → array.encode t ≡ some bytes
    → (length t < cap 4) × (bytes ≡ write 4 (length t) ++ t)
array-encode t bytes h = (ground arith, ground arith)

pub array-length : (t bytes : Text) → array.encode t ≡ some bytes → length bytes ≡ 4 + length t
array-length t bytes h = omega (
  arith,
  ap length (array-encode t bytes h).1,
  length-append (write 4 (length t)) t,
  length-write 4 (length t),
)

pub bool-length : (b : Bool) (bytes : Text) → bool.encode b ≡ some bytes → length bytes ≡ 1
bool-length b bytes h = ground arith

four : (x : ℕ) (t : Text) → drop 4 (write 4 x ++ t) ≡ t
unfolding write
four x t = refl

array_round_trip :
    (t bytes rest : Text)
    → array.encode t ≡ some bytes
    → array.decode (bytes ++ rest) ≡ ok (length bytes, t)
array_round_trip t bytes rest e =
    let (small, same) = array-encode t bytes e in
    rw (
      same,
      append_assoc (write 4 (length t)) t rest,
      read-write 4 (length t) (t ++ rest) small,
      four (length t) (t ++ rest),
      take_append t rest,
      length-append (write 4 (length t)) t,
      length-write 4 (length t),
    )

array_read-le : (raw : Text) (n : ℕ) (t : Text) → array.decode raw ≡ ok (n, t) → n ≤ length raw
array_read-le raw n t e =
    let (r, e', next) = bind-ok (read 4 raw) _ e in
    let (s, e'', same) = bind-ok (take r.1 (drop r.0 raw)) _ next in
    omega (
      arith,
      read-le 4 raw r e',
      take_read-le r.1 (drop r.0 raw) s e'',
      length-drop r.0 raw,
      first_eq same,
    )

pub array-IsCodec : IsCodec array
array-IsCodec = record {
  round_trip = array_round_trip;
  min_size-le = λ t bytes e.
      let (small, same) = array-encode t bytes e in
      omega
        (arith, ap length same, length-append (write 4 (length t)) t, length-write 4 (length t));
  read-le = array_read-le;
}
