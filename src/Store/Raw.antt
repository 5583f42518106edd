-- ===== src/Store/Raw.antt =====
-- The connection store of src/helpers/connection_store.rs in the build without the feature `bebop`:
-- the address is stored as it is, and the port is not stored.
pub mod Laws
use atomic_websocket.Base.{Text, Bool, if◌then◌else◌, Option, none, some, []}
use atomic_websocket.Runtime.Database.{Database, Settings}
use atomic_websocket.Store.{
  server_connect_info_key, get_setting_by_key, set_setting, remove_setting, flatten, or_log,
}

module _ (D : Database) where
  open D use {Db}

  abbrev text_of : (Text → Bool) → Text → Text
  text_of is_utf8 value = if is_utf8 value then value else []

  abbrev parse_info : (Text → Bool) → Option Settings → Option (Text × Text)
  parse_info is_utf8 none = none
  parse_info is_utf8 (some setting) = some (text_of is_utf8 setting.value, [])

  -- `is_utf8` tells what `String::from_utf8` accepts.
  unfoldable pub get_server_connect_info : (Text → Bool) → Db → Option (Text × Text)
  get_server_connect_info is_utf8 db =
      parse_info is_utf8 (flatten D (get_setting_by_key D db server_connect_info_key))

  unfoldable pub set_server_connect_info : Text → Text → Db → Db
  set_server_connect_info server_ip port db =
      or_log D db (set_setting D db (record { key = server_connect_info_key; value = server_ip }))

  -- The address in the argument is not used.
  unfoldable pub clear_server_ip : Db → Db
  clear_server_ip db = or_log D db (remove_setting D db server_connect_info_key)
