-- ===== src/Message.antt =====
-- src/helpers/common.rs: the messages of the protocol. A `Message` is the bytes of a binary frame;
-- `none` stands for a panic of `expect`.
pub mod Laws
use atomic_websocket.Base.{
  ℕ, zero, suc, ◌+◌, ◌*◌, ◌/◌, ◌%◌, ◌^◌, Text, Bool, true, ltb, if◌then◌else◌, Option, none, some,
  List, [], ◌∷◌, length,
}
use atomic_websocket.Runtime.Codec.{Codec}
use atomic_websocket.Schema.{
  Primitives, Category, Data, Ping, Disconnect, Expired, category_code, ping_codec,
  disconnect_codec, expired_codec,
}

-- The low byte stands first. Both casts to u8 and the cast of the discriminant to u16 truncate.
unfoldable pub make_atomic_message : ℕ → Text → Text
make_atomic_message category datas = category % 256 % 256 ∷ category / 256 % 256 ∷ datas

pub make_raw_message : Text → Text
make_raw_message bytes = bytes

-- `Err("Data length is too short")` is `none`.
unfoldable pub get_data_schema : Text → Option Data
get_data_schema [] = none
get_data_schema (b ∷ []) = none
get_data_schema (b ∷ c ∷ rest) = some (record { category = (b + c * 256) % 2 ^ 16; datas = rest })

-- `Category as u16`.
abbrev pub code16 : Category → ℕ
code16 c = category_code c % 2 ^ 16

unfoldable pub make_response_message : Category → Text → Text
unfolding make_atomic_message
make_response_message category datas = make_atomic_message (code16 category) datas

abbrev respond : Category → Option Text → Option Text
respond category none = none
respond category (some datas) = some (make_response_message category datas)

module _ (P : Primitives) where
  unfoldable pub make_ping_message : Text → Option Text
  make_ping_message peer =
      respond Category.ping ((ping_codec P).encode (record { peer = peer; activations = 0 }))

  unfoldable pub make_disconnect_message : Text → Option Text
  make_disconnect_message peer =
      respond Category.disconnect ((disconnect_codec P).encode (record { peer = peer }))

  unfoldable pub make_expired_output_message : Option Text
  make_expired_output_message =
      respond Category.expired ((expired_codec P).encode (record { is_expired = true }))

unfoldable pub make_pong_message : Text
unfolding make_response_message
make_pong_message = make_response_message Category.pong []

-- A message that the code hands to a connection: one that it builds, or one of the application.
pub data Outgoing : Type 0 where
  ping disconnect : Text → Outgoing
  expired pong : Outgoing
  raw : Text → Outgoing

-- The frame that is written for it.
pub frame : Primitives → Outgoing → Option Text
frame P (ping id) = make_ping_message P id
frame P (disconnect peer) = make_disconnect_message P peer
frame P expired = make_expired_output_message P
frame P pong = some make_pong_message
frame P (raw bytes) = some bytes
