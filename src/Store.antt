-- ===== src/Store.antt =====
-- The settings functions of src/helpers/common.rs and the connection store of
-- src/helpers/connection_store.rs, in the default build (features `native-db` and `bebop`). A
-- blocking task that fails to join is an error of the database here.
pub mod Rows
pub mod Identity
pub mod Memory
pub mod Raw
use atomic_websocket.Base.{ℕ, Text, codes, Bool, true, false, Option, none, some, List, []}
use atomic_websocket.Runtime.Codec.{Codec, DeResult}
use atomic_websocket.Runtime.Codec
use atomic_websocket.Runtime.Database.{Database, Settings, Result, ok, err, ◌>>=◌}
use atomic_websocket.Schema.{Primitives, ServerConnectInfo, server_connect_info_codec}
use atomic_websocket.Address.{valid_port}

-- src/helpers/types.rs, `save_key`.
abbrev pub server_connect_info_key : Text
server_connect_info_key = codes "ServerConnectInfo"

abbrev pub client_id_key : Text
client_id_key = codes "ClientId"

module _ (D : Database) where
  open D use {Db, r_transaction, primary, rw_transaction, update, insert, remove, commit}

  unfoldable pub get_setting_by_key : Db → Text → Result (Option Settings)
  get_setting_by_key db key = r_transaction db >>= λ reader. primary reader key

  abbrev write_setting : Db → Settings → Option Settings → Result Db
  write_setting db settings none =
      rw_transaction db >>= λ writer. insert writer settings >>= λ w. commit w
  write_setting db settings (some setting) =
      rw_transaction db >>= λ writer. update writer setting settings >>= λ w. commit w

  abbrev delete_setting : Db → Option Settings → Result Db
  delete_setting db none = ok db
  delete_setting db (some setting) =
      rw_transaction db >>= λ writer. remove writer setting >>= λ w. commit w

  -- The new database stands for `Ok(true)`.
  unfoldable pub set_setting : Db → Settings → Result Db
  set_setting db settings = r_transaction db >>= λ reader.
      primary reader settings.key >>= λ setting. write_setting db settings setting

  unfoldable pub remove_setting : Db → Text → Result Db
  remove_setting db key =
      r_transaction db >>= λ reader. primary reader key >>= λ setting. delete_setting db setting

  -- An error is logged, and the database stays as it is.
  abbrev pub or_log : Db → Result Db → Db
  or_log db (ok db') = db'
  or_log db (err e) = db

  -- `.ok().flatten()`.
  abbrev pub flatten : Result (Option Settings) → Option Settings
  flatten (ok o) = o
  flatten (err e) = none

  -- `nanoid` is the identifier that `nanoid!()` draws.
  abbrev ensure : Db → Text → Option Settings → Db
  ensure db nanoid none =
      or_log db (set_setting db (record { key = client_id_key; value = nanoid }))
  ensure db nanoid (some setting) = db

  unfoldable pub ensure_client_id : Text → Db → Db
  ensure_client_id nanoid db = ensure db nanoid (flatten (get_setting_by_key db client_id_key))

  abbrev utf8_or_empty : (Text → Bool) → Result (Option Settings) → Text
  utf8_or_empty is_utf8 (err e) = []
  utf8_or_empty is_utf8 (ok none) = []
  utf8_or_empty is_utf8 (ok (some setting)) = elim (is_utf8 setting.value) [
    | true ↦ setting.value
    | false ↦ []
  ]

  -- `is_utf8` tells what `String::from_utf8` accepts.
  unfoldable pub get_client_id : (Text → Bool) → Db → Text
  get_client_id is_utf8 db = utf8_or_empty is_utf8 (get_setting_by_key db client_id_key)

  module _ (P : Primitives) where
    abbrev connect_info : DeResult (ℕ × ServerConnectInfo) → Option (Text × Text)
    connect_info (Codec.ok r) = some (r.1.server_ip, r.1.port)
    connect_info (Codec.err e) = none

    abbrev parse_info : Option Settings → Option (Text × Text)
    parse_info none = none
    parse_info (some setting) = connect_info ((server_connect_info_codec P).decode setting.value)

    unfoldable pub get_server_connect_info : Db → Option (Text × Text)
    get_server_connect_info db =
        parse_info (flatten (get_setting_by_key db server_connect_info_key))

    abbrev persist : Db → Option Text → Db
    persist db none = db
    persist db (some value) =
        or_log db (set_setting db (record { key = server_connect_info_key; value = value }))

    unfoldable pub set_server_connect_info : Text → Text → Db → Db
    set_server_connect_info server_ip port db =
        persist db
          ((server_connect_info_codec P).encode (record { server_ip = server_ip; port = port }))

    abbrev clear : Db → Option (Text × Text) → Db
    clear db none = db
    clear db (some (server_ip, port)) = set_server_connect_info [] (valid_port port) db

    unfoldable pub clear_server_ip : Db → Db
    clear_server_ip db = clear db (get_server_connect_info db)
