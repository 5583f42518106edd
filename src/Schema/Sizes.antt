-- ===== src/Schema/Sizes.antt =====
-- `serialized_size` of the records of src/generated/schema.rs, by which a writer can reserve its
-- buffer.
use atomic_websocket.Base.{ℕ, ◌+◌, ◌≡◌, ap, ◌∙◌, Text, Bool, some, length, length-append, arith}
use atomic_websocket.Runtime.Codec.{Codec}
use atomic_websocket.Schema.{
  Primitives, Data, Category, Ping, Pong, Expired, Disconnect, AppStartup, AppStartupOutput,
  SaveData, SaveKey, ServerConnectInfo, ValidClient, data_codec, ping_codec, pong_codec,
  expired_codec, disconnect_codec, app_startup_codec, app_startup_output_codec, save_data_codec,
  server_connect_info_codec, valid_client_codec, category_codec, save_key_codec, category_code,
  save_key_code,
}
use atomic_websocket.Schema.Fields.{one_field, two_fields, chain-some}

-- What is written of a value has the length that the function tells.
abbrev pub Measures : {A : Type 0} → Codec A → (A → ℕ) → Type 0
Measures {A = A} c size = (a : A) (bytes : Text) → c.encode a ≡ some bytes → length bytes ≡ size a

-- `serialized_size` of the field types, which bebop implements.
pub record Sizes (P : Primitives) : Type 0 where
  pub u8 : ℕ → ℕ
  pub u16 : ℕ → ℕ
  pub i32 : ℕ → ℕ
  pub bool : Bool → ℕ
  pub str : Text → ℕ
  pub slice : Text → ℕ
  -- `SERIALIZED_SIZE` of the types that have one.
  pub i32_fixed : ℕ
  pub bool_fixed : ℕ
  pub i32-i32_fixed : (n : ℕ) → i32 n ≡ i32_fixed
  pub bool-bool_fixed : (b : Bool) → bool b ≡ bool_fixed
  pub u8-Measures : Measures P.u8 u8
  pub u16-Measures : Measures P.u16 u16
  -- An enum names the size of a u32 in Rust.
  pub u32-Measures : Measures P.u32 (λ n. 4)
  pub i32-Measures : Measures P.i32 i32
  pub bool-Measures : Measures P.bool bool
  pub str-Measures : Measures P.str str
  pub slice-Measures : Measures P.slice slice

module _ {P : Primitives} (S : Sizes P) where
  open S use {u8, u16, i32, str, slice, i32_fixed, bool_fixed}

  unfoldable pub data_size : Data → ℕ
  data_size d = u16 d.category + slice d.datas

  unfoldable pub ping_size : Ping → ℕ
  ping_size p = str p.peer + i32 p.activations

  unfoldable pub pong_size : Pong → ℕ
  pong_size p = i32_fixed

  unfoldable pub expired_size : Expired → ℕ
  expired_size e = bool_fixed

  unfoldable pub disconnect_size : Disconnect → ℕ
  disconnect_size d = str d.peer

  unfoldable pub app_startup_size : AppStartup → ℕ
  app_startup_size s = str s.id + u8 s.app_type

  unfoldable pub app_startup_output_size : AppStartupOutput → ℕ
  app_startup_output_size o = bool_fixed

  unfoldable pub save_data_size : SaveData → ℕ
  save_data_size s = u16 s.save_key + slice s.datas

  unfoldable pub server_connect_info_size : ServerConnectInfo → ℕ
  server_connect_info_size s = str s.server_ip + str s.port

  unfoldable pub valid_client_size : ValidClient → ℕ
  valid_client_size v = bool_fixed

abbrev pub category_size : Category → ℕ
category_size c = 4

abbrev pub save_key_size : SaveKey → ℕ
save_key_size k = 4

one_field-Measures :
    {A R : Type 0} (c : Codec A) (get : R → A) (make : A → R) (size : A → ℕ)
    → Measures c size
    → Measures (one_field c get make) (λ r. size (get r))
unfolding one_field
one_field-Measures c get make size m r bytes e = m (get r) bytes e

-- A record of one field that has a constant size.
fixed-Measures :
    {A R : Type 0} (c : Codec A) (get : R → A) (make : A → R) (size : A → ℕ) (fixed : ℕ)
    → Measures c size
    → ((a : A) → size a ≡ fixed)
    → Measures (one_field c get make) (λ r. fixed)
fixed-Measures c get make size fixed m f r bytes e =
    one_field-Measures c get make size m r bytes e ∙ f (get r)

two_fields-Measures :
    {A B R : Type 0} (c : Codec A) (d : Codec B) (first : R → A) (second : R → B) (make : A → B → R)
    (size : A → ℕ) (size' : B → ℕ)
    → Measures c size
    → Measures d size'
    → Measures (two_fields c d first second make) (λ r. size (first r) + size' (second r))
unfolding two_fields
two_fields-Measures c d first second make size size' m n r bytes e =
    let (s, t, es, et, joined) = chain-some (c.encode (first r)) (d.encode (second r)) bytes e in
    omega (arith, m (first r) s es, n (second r) t et, length-append s t, ap length joined)

-- Each record and enum writes as many bytes as its `serialized_size` tells.
pub record AreMeasured (P : Primitives) (S : Sizes P) : Type 0 where
  data_record : Measures (data_codec P) (data_size S)
  ping : Measures (ping_codec P) (ping_size S)
  pong : Measures (pong_codec P) (pong_size S)
  expired : Measures (expired_codec P) (expired_size S)
  disconnect : Measures (disconnect_codec P) (disconnect_size S)
  app_startup : Measures (app_startup_codec P) (app_startup_size S)
  app_startup_output : Measures (app_startup_output_codec P) (app_startup_output_size S)
  save_data : Measures (save_data_codec P) (save_data_size S)
  server_connect_info : Measures (server_connect_info_codec P) (server_connect_info_size S)
  valid_client : Measures (valid_client_codec P) (valid_client_size S)
  category : Measures (category_codec P) category_size
  save_key : Measures (save_key_codec P) save_key_size

-- Whatever the field types are, if their sizes are right, so is the size of every record and enum:
-- it is the number of bytes that are written of a value, where it can be written.
pub schema-AreMeasured : (P : Primitives) (S : Sizes P) → AreMeasured P S
unfolding data_codec ping_codec pong_codec expired_codec disconnect_codec app_startup_codec
    app_startup_output_codec save_data_codec server_connect_info_codec valid_client_codec
    category_codec save_key_codec data_size ping_size pong_size expired_size disconnect_size
    app_startup_size app_startup_output_size save_data_size server_connect_info_size
    valid_client_size
schema-AreMeasured P S = record {
  data_record = two_fields-Measures P.u16 P.slice _ _ _ _ _ S.u16-Measures S.slice-Measures;
  ping = two_fields-Measures P.str P.i32 _ _ _ _ _ S.str-Measures S.i32-Measures;
  pong = fixed-Measures P.i32 _ _ _ _ S.i32-Measures S.i32-i32_fixed;
  expired = fixed-Measures P.bool _ _ _ _ S.bool-Measures S.bool-bool_fixed;
  disconnect = one_field-Measures P.str _ _ _ S.str-Measures;
  app_startup = two_fields-Measures P.str P.u8 _ _ _ _ _ S.str-Measures S.u8-Measures;
  app_startup_output = fixed-Measures P.bool _ _ _ _ S.bool-Measures S.bool-bool_fixed;
  save_data = two_fields-Measures P.u16 P.slice _ _ _ _ _ S.u16-Measures S.slice-Measures;
  server_connect_info = two_fields-Measures P.str P.str _ _ _ _ _ S.str-Measures S.str-Measures;
  valid_client = fixed-Measures P.bool _ _ _ _ S.bool-Measures S.bool-bool_fixed;
  category = λ c bytes e. S.u32-Measures (category_code c) bytes e;
  save_key = λ k bytes e. S.u32-Measures (save_key_code k) bytes e;
}
