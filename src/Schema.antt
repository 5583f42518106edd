-- ===== src/Schema.antt =====
-- src/generated/schema.rs: the records of the wire protocol. The generated code writes each record
-- field by field, and checks the minimum size before it reads the fields.
pub mod Fields
pub mod Codecs
pub mod Sizes
use atomic_websocket.Base.{ℕ, Text, Bool, ◌==◌, if◌then◌else◌, Option, none, some, List, [], ◌∷◌}
use atomic_websocket.Runtime.Codec.{Codec, DeResult, ok, err, ◌>>=◌, invalid_enum_discriminator}
use Fields.{one_field, two_fields}

pub record Data : Type 0 where
  pub category : ℕ
  pub datas : Text

pub data Category : Type 0 where
  ping pong expired disconnect app_startup app_startup_output save_data server_connect_info :
      Category
  valid_client client_id : Category

pub record Ping : Type 0 where
  pub peer : Text
  pub activations : ℕ

pub record Pong : Type 0 where
  pub total_activations : ℕ

pub record Expired : Type 0 where
  pub is_expired : Bool

pub record Disconnect : Type 0 where
  pub peer : Text

pub record AppStartup : Type 0 where
  pub id : Text
  pub app_type : ℕ

pub record AppStartupOutput : Type 0 where
  pub success : Bool

pub record SaveData : Type 0 where
  pub save_key : ℕ
  pub datas : Text

pub data SaveKey : Type 0 where
  server_connect_info valid_client client_id : SaveKey

pub record ServerConnectInfo : Type 0 where
  pub server_ip : Text
  pub port : Text

pub record ValidClient : Type 0 where
  pub is_valid : Bool

-- `From<Category> for u32`.
unfoldable pub category_code : Category → ℕ
category_code Category.ping = 10000
category_code Category.pong = 10001
category_code Category.expired = 10002
category_code Category.disconnect = 10003
category_code Category.app_startup = 10004
category_code Category.app_startup_output = 10005
category_code Category.save_data = 10006
category_code Category.server_connect_info = 10007
category_code Category.valid_client = 10008
category_code Category.client_id = 10009

-- `TryFrom<u32> for Category`.
unfoldable pub category_of : ℕ → DeResult Category
category_of value =
    if value == 10000
    then ok Category.ping
    else if value == 10001
    then ok Category.pong
    else if value == 10002
    then ok Category.expired
    else if value == 10003
    then ok Category.disconnect
    else if value == 10004
    then ok Category.app_startup
    else if value == 10005
    then ok Category.app_startup_output
    else if value == 10006
    then ok Category.save_data
    else if value == 10007
    then ok Category.server_connect_info
    else if value == 10008
    then ok Category.valid_client
    else if value == 10009
    then ok Category.client_id
    else err (invalid_enum_discriminator value)

-- `From<SaveKey> for u32` and `TryFrom<u32> for SaveKey`.
unfoldable pub save_key_code : SaveKey → ℕ
save_key_code SaveKey.server_connect_info = 1
save_key_code SaveKey.valid_client = 2
save_key_code SaveKey.client_id = 3

unfoldable pub save_key_of : ℕ → DeResult SaveKey
save_key_of value =
    if value == 1
    then ok SaveKey.server_connect_info
    else if value == 2
    then ok SaveKey.valid_client
    else if value == 3
    then ok SaveKey.client_id
    else err (invalid_enum_discriminator value)

-- The codecs of the field types, which bebop implements.
pub record Primitives : Type 0 where
  pub u8 : Codec ℕ
  pub u16 : Codec ℕ
  pub u32 : Codec ℕ
  pub i32 : Codec ℕ
  pub bool : Codec Bool
  pub str : Codec Text
  pub slice : Codec Text

module _ (P : Primitives) where
  open P use {u8, u16, u32, i32, bool, str, slice}

  unfoldable pub data_codec : Codec Data
  data_codec =
      two_fields u16 slice (λ d. d.category) (λ d. d.datas)
        λ c b. record { category = c; datas = b }

  unfoldable pub ping_codec : Codec Ping
  ping_codec =
      two_fields str i32 (λ p. p.peer) (λ p. p.activations)
        λ p a. record { peer = p; activations = a }

  unfoldable pub pong_codec : Codec Pong
  pong_codec = one_field i32 (λ p. p.total_activations) λ a. record { total_activations = a }

  unfoldable pub expired_codec : Codec Expired
  expired_codec = one_field bool (λ e. e.is_expired) λ b. record { is_expired = b }

  unfoldable pub disconnect_codec : Codec Disconnect
  disconnect_codec = one_field str (λ d. d.peer) λ p. record { peer = p }

  unfoldable pub app_startup_codec : Codec AppStartup
  app_startup_codec =
      two_fields str u8 (λ s. s.id) (λ s. s.app_type) λ i t. record { id = i; app_type = t }

  unfoldable pub app_startup_output_codec : Codec AppStartupOutput
  app_startup_output_codec = one_field bool (λ o. o.success) λ b. record { success = b }

  unfoldable pub save_data_codec : Codec SaveData
  save_data_codec =
      two_fields u16 slice (λ s. s.save_key) (λ s. s.datas)
        λ k b. record { save_key = k; datas = b }

  unfoldable pub server_connect_info_codec : Codec ServerConnectInfo
  server_connect_info_codec =
      two_fields str str (λ s. s.server_ip) (λ s. s.port) λ i p. record { server_ip = i; port = p }

  unfoldable pub valid_client_codec : Codec ValidClient
  valid_client_codec = one_field bool (λ v. v.is_valid) λ b. record { is_valid = b }

  -- An enum is written as its u32.
  unfoldable pub category_codec : Codec Category
  category_codec = record {
    encode = λ c. u32.encode (category_code c);
    decode = λ raw. u32.decode raw >>= λ r. category_of r.1 >>= λ c. ok (r.0, c);
    min_size = 4;
  }

  unfoldable pub save_key_codec : Codec SaveKey
  save_key_codec = record {
    encode = λ k. u32.encode (save_key_code k);
    decode = λ raw. u32.decode raw >>= λ r. save_key_of r.1 >>= λ k. ok (r.0, k);
    min_size = 4;
  }
