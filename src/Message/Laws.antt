-- ===== src/Message/Laws.antt =====
-- What a receiver reads from the messages of src/helpers/common.rs.
use atomic_websocket.Base.{
  ℕ, ◌^◌, ◌<◌, ◌≡◌, refl, ap, ◌↔◌, Text, true, none, some, [], ◌∷◌, ◌++◌, append-nil, length, arith,
}
use atomic_websocket.Runtime.Codec.{Codec, IsCodec, ok}
use atomic_websocket.Schema.{
  Primitives, Category, Data, category_code, ping_codec, disconnect_codec, expired_codec,
}
use atomic_websocket.Schema.Codecs.{ArePrimitives, AreCodecs, schema-AreCodecs}
use atomic_websocket.Schema.Fields.{one_field, two_fields}
use atomic_websocket.Message.{
  make_atomic_message, get_data_schema, make_response_message, code16, make_ping_message,
  make_disconnect_message, make_expired_output_message,
}

-- Every byte of a text is one.
abbrev pub IsBytes : Text → Type 0
IsBytes [] = Unit {0}
IsBytes (b ∷ s) = (b < 256) × IsBytes s

-- The receiver reads the category and the payload that the sender put in, for every u16.
pub get_data_schema-make_atomic_message :
    (category : ℕ) (datas : Text)
    → category < 2 ^ 16
    → get_data_schema (make_atomic_message category datas)
      ≡ some (record { category = category; datas = datas })
unfolding get_data_schema make_atomic_message
get_data_schema-make_atomic_message category datas h =
    ap (λ (c : ℕ). some (record { category = c; datas = datas })) (omega arith)

-- A frame of bytes that is read is the message made of what was read: no two frames read alike.
pub make_atomic_message-get_data_schema :
    (frame : Text) (d : Data)
    → IsBytes frame
    → get_data_schema frame ≡ some d
    → make_atomic_message d.category d.datas ≡ frame
unfolding get_data_schema make_atomic_message
make_atomic_message-get_data_schema [] d h e = cc
make_atomic_message-get_data_schema (b ∷ []) d h e = cc
make_atomic_message-get_data_schema (b ∷ c ∷ rest) d (hb, h) e = ground arith

-- A frame is refused exactly if it is too short for a category.
pub get_data_schema-none : (frame : Text) → (get_data_schema frame ≡ none) ↔ (length frame < 2)
unfolding get_data_schema
get_data_schema-none [] = (λ _. omega arith, λ _. refl)
get_data_schema-none (b ∷ []) = (λ _. omega arith, λ _. refl)
get_data_schema-none (b ∷ c ∷ rest) = (λ e. cc, λ h. absurd (omega arith))

code16_lem : (c : Category) → code16 c ≡ category_code c
unfolding category_code
code16_lem Category.ping = refl
code16_lem _ = refl

category_code-lt : (c : Category) → category_code c < 2 ^ 16
unfolding category_code
category_code-lt Category.ping = omega arith
category_code-lt _ = omega arith

-- A frame of a category, whose payload decodes to a value.
pub record Reads {A : Type 0} (c : Codec A) (category : Category) (a : A) (frame : Text)
    : Type 0 where
  pub payload : Text
  pub header :
      get_data_schema frame ≡ some (record { category = category_code category; datas = payload })
  pub body : c.decode payload ≡ ok (length payload, a)

respond-Reads :
    {A : Type 0} (c : Codec A) (C : IsCodec c) (category : Category) (a : A) (datas : Text)
    → c.encode a ≡ some datas
    → Reads c category a (make_response_message category datas)
unfolding make_response_message
respond-Reads c C category a datas e = record {
  payload = datas;
  header = rw (code16_lem category) (
      get_data_schema-make_atomic_message (category_code category) datas
        (category_code-lt category));
  body = rw (append-nil datas) at (C.round_trip a datas [] e);
}

module _ (P : Primitives) (A : ArePrimitives P) where
  codecs : AreCodecs P A
  codecs = schema-AreCodecs P A

  ping_writes :
      (peer : Text)
      → length peer < 2 ^ 32
      → (datas : Text) × ((ping_codec P).encode (record { peer = peer; activations = 0 })
          ≡ some datas)
  unfolding ping_codec two_fields
  ping_writes peer h =
      let (first, e) = A.str_writes peer h in
      let (second, e') = A.i32_writes 0 (omega arith) in (first ++ second, rw (e, e'))

  -- A ping can be made for every peer identifier that bebop can write, and the server that reads it
  -- finds the category `Ping` and the same identifier, with no activations.
  pub make_ping_message-Reads :
      (peer : Text)
      → length peer < 2 ^ 32
      → (frame : Text) × (make_ping_message P peer ≡ some frame)
        × Reads (ping_codec P) Category.ping (record { peer = peer; activations = 0 }) frame
  unfolding make_ping_message
  make_ping_message-Reads peer h =
      let (datas, e) = ping_writes peer h in
      (make_response_message Category.ping datas, rw e, respond-Reads _ codecs.ping _ _ datas e)

  disconnect_writes :
      (peer : Text)
      → length peer < 2 ^ 32
      → (datas : Text) × ((disconnect_codec P).encode (record { peer = peer }) ≡ some datas)
  unfolding disconnect_codec one_field
  disconnect_writes peer h = A.str_writes peer h

  expired_writes :
      (datas : Text) × ((expired_codec P).encode (record { is_expired = true }) ≡ some datas)
  unfolding expired_codec one_field
  expired_writes = A.bool_writes true

  -- The notice of a disconnect, for every peer identifier that bebop can write, and that of an
  -- expiry can be made, and a receiver reads back what they say.
  pub notices-Reads :
      (peer : Text)
      → length peer < 2 ^ 32
      → (notice expiry : Text) × (make_disconnect_message P peer ≡ some notice)
        × Reads (disconnect_codec P) Category.disconnect (record { peer = peer }) notice
        × (make_expired_output_message P ≡ some expiry)
        × Reads (expired_codec P) Category.expired (record { is_expired = true }) expiry
  unfolding make_disconnect_message make_expired_output_message
  notices-Reads peer h =
      let (datas, e) = disconnect_writes peer h in
      let (datas', e') = expired_writes in
      (
        make_response_message Category.disconnect datas,
        make_response_message Category.expired datas',
        rw e,
        respond-Reads _ codecs.disconnect _ _ datas e,
        rw e',
        respond-Reads _ codecs.expired _ _ datas' e',
      )
