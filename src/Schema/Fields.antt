-- ===== src/Schema/Fields.antt =====
-- The shape of the code that bebopc generates for a record of one or two fields.
use atomic_websocket.Base.{
  ℕ, ◌+◌, ◌-◌, ◌≤◌, ◌≡◌, refl, ap, sym, ◌∙◌, Text, ltb, if◌then◌else◌, Option, none, some, ◌++◌,
  append_assoc, length, length-append, drop, drop-length, length-drop, arith,
}
use atomic_websocket.Runtime.Codec.{
  Codec, IsCodec, DeResult, ok, err, bind-ok, ◌>>=◌, more_data_expected,
}

-- The length check in front of the fields.
abbrev pub checked : {A : Type 0} → ℕ → Text → DeResult A → DeResult A
checked min_size raw rest =
    if ltb (length raw) min_size then err (more_data_expected (min_size - length raw)) else rest

-- Two writes to one buffer, each of which may fail.
abbrev pub chain : Option Text → Option Text → Option Text
chain none second = none
chain (some first) none = none
chain (some first) (some second) = some (first ++ second)

module _ {A R : Type 0} (c : Codec A) (get : R → A) (make : A → R) where
  unfoldable pub one_field : Codec R
  one_field = record {
    encode = λ r. c.encode (get r);
    decode = λ raw. checked c.min_size raw (c.decode raw >>= λ f. ok (f.0, make f.1));
    min_size = c.min_size;
  }

module _ {A B R : Type 0} (c : Codec A) (d : Codec B) (first : R → A) (second : R → B)
    (make : A → B → R) where
  unfoldable pub two_fields : Codec R
  two_fields = record {
    encode = λ r. chain (c.encode (first r)) (d.encode (second r));
    decode = λ raw.
        checked (c.min_size + d.min_size) raw
          (c.decode raw >>= λ f. d.decode (drop f.0 raw) >>= λ s. ok (f.0 + s.0, make f.1 s.1));
    min_size = c.min_size + d.min_size;
  }

pub checked_enough :
    {A : Type 0} (n : ℕ) (raw : Text) (rest : DeResult A)
    → n ≤ length raw
    → checked n raw rest ≡ rest
checked_enough n raw rest h = ground arith

pub checked-ok :
    {A : Type 0} (n : ℕ) (raw : Text) (rest : DeResult A) {r : A}
    → checked n raw rest ≡ ok r
    → rest ≡ ok r
checked-ok n raw rest h = ground arith

pub chain-some :
    (x y : Option Text) (bytes : Text)
    → chain x y ≡ some bytes
    → (s t : Text) × (x ≡ some s) × (y ≡ some t) × (bytes ≡ s ++ t)
chain-some none y bytes h = cc
chain-some (some s) none bytes h = cc
chain-some (some s) (some t) bytes h = (s, t, refl, refl, cc)

pub fst_ok : {R : Type 0} {x y : ℕ × R} → ok x ≡ ok y → x.0 ≡ y.0
fst_ok h = cc

module _ {A R : Type 0} (c : Codec A) (get : R → A) (make : A → R)
    (make-get : (r : R) → make (get r) ≡ r) (C : IsCodec c) where
  one_field_round_trip :
      (r : R) (bytes rest : Text)
      → (one_field c get make).encode r ≡ some bytes
      → (one_field c get make).decode (bytes ++ rest) ≡ ok (length bytes, r)
  unfolding one_field
  one_field_round_trip r bytes rest e =
      checked_enough c.min_size (bytes ++ rest) _
        (omega (arith, C.min_size-le (get r) bytes e, length-append bytes rest))
      ∙ rw (C.round_trip (get r) bytes rest e, make-get r)

  one_field_read-le :
      (raw : Text) (n : ℕ) (r : R) → (one_field c get make).decode raw ≡ ok (n, r) → n ≤ length raw
  unfolding one_field
  one_field_read-le raw n r e =
      let ((n', a), e', same) = bind-ok (c.decode raw) _ (checked-ok c.min_size raw _ e) in
      omega (arith, C.read-le raw n' a e', fst_ok same)

  pub one_field-IsCodec : IsCodec (one_field c get make)
  unfolding one_field
  one_field-IsCodec = record {
    round_trip = one_field_round_trip;
    min_size-le = λ r bytes e. C.min_size-le (get r) bytes e;
    read-le = one_field_read-le;
  }

module _ {A B R : Type 0} (c : Codec A) (d : Codec B) (first : R → A) (second : R → B)
    (make : A → B → R) (make_lem : (r : R) → make (first r) (second r) ≡ r) (C : IsCodec c)
    (D : IsCodec d) where
  two_fields_min_size-le :
      (r : R) (bytes : Text)
      → (two_fields c d first second make).encode r ≡ some bytes
      → c.min_size + d.min_size ≤ length bytes
  unfolding two_fields
  two_fields_min_size-le r bytes e =
      let (s, t, es, et, joined) = chain-some (c.encode (first r)) (d.encode (second r)) bytes e in
      omega (
        arith,
        C.min_size-le (first r) s es,
        D.min_size-le (second r) t et,
        length-append s t,
        ap length joined,
      )

  two_fields_round_trip :
      (r : R) (bytes rest : Text)
      → (two_fields c d first second make).encode r ≡ some bytes
      → (two_fields c d first second make).decode (bytes ++ rest) ≡ ok (length bytes, r)
  unfolding two_fields
  two_fields_round_trip r bytes rest e =
      let (s, t, es, et, joined) = chain-some (c.encode (first r)) (d.encode (second r)) bytes e in
      checked_enough (c.min_size + d.min_size) (bytes ++ rest) _
        (omega (arith, two_fields_min_size-le r bytes e, length-append bytes rest))
      ∙ rw
          (
            joined,
            append_assoc s t rest,
            C.round_trip (first r) s (t ++ rest) es,
            drop-length s (t ++ rest),
            D.round_trip (second r) t rest et,
            make_lem r,
          )
          (ap (λ n. ok (n, r)) (sym (length-append s t)))

  two_fields_read-le :
      (raw : Text) (n : ℕ) (r : R)
      → (two_fields c d first second make).decode raw ≡ ok (n, r)
      → n ≤ length raw
  unfolding two_fields
  two_fields_read-le raw n r e =
      let (f, e', next) = bind-ok (c.decode raw) _ (checked-ok (c.min_size + d.min_size) raw _ e) in
      let (s, e'', same) = bind-ok (d.decode (drop f.0 raw)) _ next in
      omega (
        arith,
        C.read-le raw f.0 f.1 e',
        D.read-le (drop f.0 raw) s.0 s.1 e'',
        length-drop f.0 raw,
        fst_ok same,
      )

  pub two_fields-IsCodec : IsCodec (two_fields c d first second make)
  unfolding two_fields
  two_fields-IsCodec = record {
    round_trip = two_fields_round_trip;
    min_size-le = two_fields_min_size-le;
    read-le = two_fields_read-le;
  }
