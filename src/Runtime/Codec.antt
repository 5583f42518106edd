-- ===== src/Runtime/Codec.antt =====
-- The crate bebop, as an interface: how a value is written to bytes and read back.
use atomic_websocket.Base.{ℕ, ◌≤◌, ◌≡◌, refl, Text, Option, some, ◌++◌, length}

pub data DeserializeError : Type 0 where
  more_data_expected : ℕ → DeserializeError
  invalid_enum_discriminator : ℕ → DeserializeError
  -- Every other error of the crate, such as bytes that are no UTF-8.
  other : DeserializeError

pub data DeResult (A : Type 0) : Type 0 where
  ok : A → DeResult A
  err : DeserializeError → DeResult A

infixl 5 ◌>>=◌
abbrev pub ◌>>=◌ : {A B : Type 0} → DeResult A → (A → DeResult B) → DeResult B
ok value >>= next = next value
err error >>= next = err error

pub bind-ok :
    {A B : Type 0} (result : DeResult A) (next : A → DeResult B) {value : B}
    → (result >>= next) ≡ ok value
    → (first : A) × (result ≡ ok first) × (next first ≡ ok value)
bind-ok (ok first) next h = (first, refl, h)
bind-ok (err error) next h = cc

-- `SubRecord`: `_serialize_chained` (`none` is a `SerializeError`), `_deserialize_chained` with the
-- number of bytes read, and `MIN_SERIALIZED_SIZE`.
pub record Codec (A : Type 0) : Type 0 where
  pub encode : A → Option Text
  pub decode : Text → DeResult (ℕ × A)
  pub min_size : ℕ

-- What the crate promises of a codec: a value is read back from what was written of it, whatever
-- follows; nothing shorter than the minimum is written; no more is read than there is.
pub record IsCodec {A : Type 0} (c : Codec A) : Type 0 where
  pub round_trip :
      (a : A) (bytes rest : Text)
      → c.encode a ≡ some bytes
      → c.decode (bytes ++ rest) ≡ ok (length bytes, a)
  pub min_size-le : (a : A) (bytes : Text) → c.encode a ≡ some bytes → c.min_size ≤ length bytes
  pub read-le : (raw : Text) (n : ℕ) (a : A) → c.decode raw ≡ ok (n, a) → n ≤ length raw
