-- ===== src/Schema/Codecs.antt =====
-- The codecs of src/generated/schema.rs read back what they write.
use atomic_websocket.Base.{ℕ, ◌<◌, ◌^◌, ◌≡◌, refl, Text, Bool, some, length, arith}
use atomic_websocket.Runtime.Codec.{bind-ok, IsCodec, DeResult, ok, ◌>>=◌}
use atomic_websocket.Schema.Fields.{fst_ok, one_field-IsCodec, two_fields-IsCodec}
use atomic_websocket.Schema.{
  Primitives, Category, SaveKey, category_code, category_of, save_key_code, save_key_of, data_codec,
  ping_codec, pong_codec, expired_codec, disconnect_codec, app_startup_codec,
  app_startup_output_codec, save_data_codec, server_connect_info_codec, valid_client_codec,
  category_codec, save_key_codec,
}

pub record ArePrimitives (P : Primitives) : Type 0 where
  pub u8 : IsCodec P.u8
  pub u16 : IsCodec P.u16
  pub u32 : IsCodec P.u32
  pub i32 : IsCodec P.i32
  pub bool : IsCodec P.bool
  pub str : IsCodec P.str
  pub slice : IsCodec P.slice
  pub u32_size : P.u32.min_size ≡ 4
  -- Writing fails only for a text that is too long for its length field.
  pub str_writes : (t : Text) → length t < 2 ^ 32 → (bytes : Text) × (P.str.encode t ≡ some bytes)
  pub i32_writes : (n : ℕ) → n < 2 ^ 32 → (bytes : Text) × (P.i32.encode n ≡ some bytes)
  pub bool_writes : (b : Bool) → (bytes : Text) × (P.bool.encode b ≡ some bytes)

-- A discriminant is read as the variant that it was written for.
pub category_of-category_code : (c : Category) → category_of (category_code c) ≡ ok c
unfolding category_of category_code
category_of-category_code Category.ping = refl
category_of-category_code _ = refl

-- Every number that is accepted is the discriminant of the variant that is returned.
pub category_code-category_of : (n : ℕ) (c : Category) → category_of n ≡ ok c → category_code c ≡ n
unfolding category_of category_code
category_code-category_of n c e = ground arith

pub save_key_of-save_key_code : (k : SaveKey) → save_key_of (save_key_code k) ≡ ok k
unfolding save_key_of save_key_code
save_key_of-save_key_code SaveKey.server_connect_info = refl
save_key_of-save_key_code _ = refl

module _ (P : Primitives) (A : ArePrimitives P) where
  enum_codec-IsCodec :
      {E : Type 0} (code : E → ℕ) (read : ℕ → DeResult E)
      → ((e : E) → read (code e) ≡ ok e)
      → IsCodec (record {
        encode = λ e. P.u32.encode (code e);
        decode = λ raw. P.u32.decode raw >>= λ r. read r.1 >>= λ e. ok (r.0, e);
        min_size = 4;
      })
  enum_codec-IsCodec code read same = record {
    round_trip = λ e bytes rest h. rw (A.u32.round_trip (code e) bytes rest h, same e);
    min_size-le = λ e bytes h. omega (arith, A.u32.min_size-le (code e) bytes h, A.u32_size);
    read-le = λ raw n e h.
        let (r, e', next) = bind-ok (P.u32.decode raw) _ h in
        let (v, _, e'') = bind-ok (read r.1) _ next in
        omega (arith, A.u32.read-le raw r.0 r.1 e', fst_ok e'');
  }

  -- The laws of a codec, for every record and enum of the protocol.
  pub record AreCodecs : Type 0 where
    pub data' : IsCodec (data_codec P)
    pub ping : IsCodec (ping_codec P)
    pub pong : IsCodec (pong_codec P)
    pub expired : IsCodec (expired_codec P)
    pub disconnect : IsCodec (disconnect_codec P)
    pub app_startup : IsCodec (app_startup_codec P)
    pub app_startup_output : IsCodec (app_startup_output_codec P)
    pub save_data : IsCodec (save_data_codec P)
    pub server_connect_info : IsCodec (server_connect_info_codec P)
    pub valid_client : IsCodec (valid_client_codec P)
    pub category : IsCodec (category_codec P)
    pub save_key : IsCodec (save_key_codec P)

  -- Every record and enum of the protocol reads back what was written of it, whatever follows in
  -- the buffer; its minimum size is a lower bound of what is written; and reading it stays inside
  -- the buffer. All that is assumed is the same of the field types.
  pub schema-AreCodecs : AreCodecs
  unfolding data_codec ping_codec pong_codec expired_codec disconnect_codec app_startup_codec
      app_startup_output_codec save_data_codec server_connect_info_codec valid_client_codec
      category_codec save_key_codec
  schema-AreCodecs = record {
    data' = two_fields-IsCodec _ _ _ _ _ (λ r. refl) A.u16 A.slice;
    ping = two_fields-IsCodec _ _ _ _ _ (λ r. refl) A.str A.i32;
    pong = one_field-IsCodec _ _ _ (λ r. refl) A.i32;
    expired = one_field-IsCodec _ _ _ (λ r. refl) A.bool;
    disconnect = one_field-IsCodec _ _ _ (λ r. refl) A.str;
    app_startup = two_fields-IsCodec _ _ _ _ _ (λ r. refl) A.str A.u8;
    app_startup_output = one_field-IsCodec _ _ _ (λ r. refl) A.bool;
    save_data = two_fields-IsCodec _ _ _ _ _ (λ r. refl) A.u16 A.slice;
    server_connect_info = two_fields-IsCodec _ _ _ _ _ (λ r. refl) A.str A.str;
    valid_client = one_field-IsCodec _ _ _ (λ r. refl) A.bool;
    category = enum_codec-IsCodec category_code category_of category_of-category_code;
    save_key = enum_codec-IsCodec save_key_code save_key_of save_key_of-save_key_code;
  }
