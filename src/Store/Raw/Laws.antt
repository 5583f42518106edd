-- ===== src/Store/Raw/Laws.antt =====
-- What the connection store of src/helpers/connection_store.rs remembers without the feature `bebop`.
use atomic_websocket.Base.{◌≡◌, refl, Text, Bool, true, text_eq_refl, none, some, []}
use atomic_websocket.Runtime.Database.{Database, Settings, ok}
use atomic_websocket.Store.{server_connect_info_key, remove_setting}
use atomic_websocket.Store.Rows.{remove_setting-ok}
use atomic_websocket.Store.Identity.{IsHealthy, set-table, get-table}
use atomic_websocket.Store.Raw.{get_server_connect_info, set_server_connect_info, clear_server_ip}

module _ (D : Database) (H : IsHealthy D) where
  open D use {Db, table}

  -- Where every read and every write goes through, a set address is read back with no port, as
  -- long as it is valid UTF-8; and a clear, if its removal goes through, forgets everything.
  pub get-set_clear :
      (is_utf8 : Text → Bool) (server_ip port : Text) (db cleared : Db)
      → is_utf8 server_ip ≡ true
      → remove_setting D db server_connect_info_key ≡ ok cleared
      → (get_server_connect_info D is_utf8 (set_server_connect_info D server_ip port db)
          ≡ some (server_ip, []))
        × (get_server_connect_info D is_utf8 (clear_server_ip D db) ≡ none)
  unfolding get_server_connect_info set_server_connect_info clear_server_ip
  get-set_clear is_utf8 server_ip port db cleared valid removed =
      let s : Settings = record { key = server_connect_info_key; value = server_ip } in
      let (db', e, stored) = set-table D H db s in
      let gone =
        remove_setting-ok D db cleared server_connect_info_key server_connect_info_key removed in
      (
        rw e (rw (get-table D H db' server_connect_info_key, stored, valid) refl),
        rw removed (
            rw
              (
                get-table D H cleared server_connect_info_key,
                gone,
                text_eq_refl server_connect_info_key,
              )
              refl),
      )
