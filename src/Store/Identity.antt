-- ===== src/Store/Identity.antt =====
-- What the connection store of src/helpers/connection_store.rs remembers.
use atomic_websocket.Base.{
  ◌≡◌, refl, ap, ◌∙◌, Text, text_eq_refl, Option, none, some, [], ◌++◌, append-nil, ◌<◌, ◌^◌,
  length, arith,
}
use atomic_websocket.Runtime.Database.{Database, Settings, ok}
use atomic_websocket.Schema.{Primitives, ServerConnectInfo, server_connect_info_codec}
use atomic_websocket.Schema.Codecs.{ArePrimitives, AreCodecs, schema-AreCodecs}
use atomic_websocket.Schema.Fields.{two_fields}
use atomic_websocket.Address.{valid_port}
use atomic_websocket.Store.{
  server_connect_info_key, client_id_key, get_setting_by_key, set_setting, ensure, ensure_client_id,
  connect_info, get_server_connect_info, set_server_connect_info, clear, clear_server_ip,
}
use atomic_websocket.Store.Rows.{get_setting_by_key-ok, set_setting-ok}

module _ (D : Database) where
  open D use {Db, table}

  -- Every transaction goes through.
  pub record IsHealthy : Type 0 where
    pub reads :
        (db : Db) (key : Text) → (o : Option Settings) × (get_setting_by_key D db key ≡ ok o)
    pub writes : (db : Db) (s : Settings) → (db' : Db) × (set_setting D db s ≡ ok db')

  module _ (H : IsHealthy) where
    pub get-table : (db : Db) (key : Text) → get_setting_by_key D db key ≡ ok (table db key)
    get-table db key = let (o, e) = H.reads db key in e ∙ ap ok (get_setting_by_key-ok D db key o e)

    pub set-table :
        (db : Db) (s : Settings)
        → (db' : Db) × (set_setting D db s ≡ ok db') × (table db' s.key ≡ some s)
    set-table db s =
        let (db', e) = H.writes db s in
        (db', e, set_setting-ok D db db' s s.key e ∙ rw (text_eq_refl s.key))

    -- The identifier that is there after `ensure_client_id`.
    abbrev pub ensured : Text → Option Settings → Settings
    ensured nanoid none = record { key = client_id_key; value = nanoid }
    ensured nanoid (some setting) = setting

    ensure_cases :
        (nanoid other' : Text) (db : Db) (o : Option Settings)
        → table db client_id_key ≡ o
        → (table (ensure D db nanoid o) client_id_key ≡ some (ensured nanoid o))
          × (ensure_client_id D other' (ensure D db nanoid o) ≡ ensure D db nanoid o)
    unfolding ensure_client_id
    ensure_cases nanoid other' db none e =
        let (db', e', new) = set-table db (record { key = client_id_key; value = nanoid }) in
        (rw e' new, rw e' (rw (get-table db' client_id_key, new)))
    ensure_cases nanoid other' db (some s) e = (e, rw (get-table db client_id_key, e))

    -- If every transaction of the database goes through, `ensure_client_id` leaves a stored
    -- identifier alone and stores the drawn one where there is none; a second call, whatever is
    -- drawn then, changes nothing.
    pub ensure_client_id_lem :
        (first second : Text) (db : Db)
        → (table (ensure_client_id D first db) client_id_key
            ≡ some (ensured first (table db client_id_key)))
          × (ensure_client_id D second (ensure_client_id D first db) ≡ ensure_client_id D first db)
    unfolding ensure_client_id
    ensure_client_id_lem first second db =
        let (stored, same) = ensure_cases first second db (table db client_id_key) refl in
        (rw (get-table db client_id_key) stored, rw (get-table db client_id_key) same)

    module _ (P : Primitives) (A : ArePrimitives P) where
      codecs : AreCodecs P A
      codecs = schema-AreCodecs P A

      parse_written :
          (info : ServerConnectInfo) (value : Text)
          → (server_connect_info_codec P).encode info ≡ some value
          → connect_info D P ((server_connect_info_codec P).decode value)
            ≡ some (info.server_ip, info.port)
      parse_written info value e =
          rw (← append-nil value) (rw (codecs.server_connect_info.round_trip info value [] e))

      info_writes :
          (server_ip port : Text)
          → length server_ip < 2 ^ 32
          → length port < 2 ^ 32
          → (value : Text) × ((server_connect_info_codec P).encode
                (record { server_ip = server_ip; port = port })
              ≡ some value)
      unfolding server_connect_info_codec two_fields
      info_writes server_ip port h k =
          let (first, e) = A.str_writes server_ip h in
          let (second, e') = A.str_writes port k in (first ++ second, rw (e, e'))

      -- What is set as the server's address and port is what is read back, whatever was stored, if
      -- every transaction of the database goes through and both are short enough for their length
      -- fields.
      pub get-set_server_connect_info :
          (server_ip port : Text) (db : Db)
          → length server_ip < 2 ^ 32
          → length port < 2 ^ 32
          → get_server_connect_info D P (set_server_connect_info D P server_ip port db)
            ≡ some (server_ip, port)
      unfolding get_server_connect_info set_server_connect_info
      get-set_server_connect_info server_ip port db h k =
          let (value, e) = info_writes server_ip port h k in
          let (db', e', stored) =
            set-table db (record { key = server_connect_info_key; value = value }) in
          rw e (
            rw e' (
              rw (get-table db' server_connect_info_key) (
                rw stored (parse_written (record { server_ip = server_ip; port = port }) value e))))

      valid_port-short : (port : Text) → length port < 2 ^ 32 → length (valid_port port) < 2 ^ 32
      unfolding valid_port
      valid_port-short port h = ground arith

      -- What is read after the address was cleared.
      abbrev pub cleared : Option (Text × Text) → Option (Text × Text)
      cleared none = none
      cleared (some (server_ip, port)) = some ([], valid_port port)

      -- A port is short enough to be written again.
      abbrev pub PortIsShort : Option (Text × Text) → Type 0
      PortIsShort none = Unit {0}
      PortIsShort (some (server_ip, port)) = length port < 2 ^ 32

      cleared_cases :
          (db : Db) (o : Option (Text × Text))
          → get_server_connect_info D P db ≡ o
          → PortIsShort o
          → get_server_connect_info D P (clear D P db o) ≡ cleared o
      cleared_cases db none e h = e
      cleared_cases db (some (server_ip, port)) e h =
          get-set_server_connect_info [] (valid_port port) db (omega arith)
            (valid_port-short port h)

      -- Clearing forgets the address and keeps the port if it is a run of digits; a port that an
      -- older build stored wrongly is replaced by the empty one. Where nothing can be read, nothing
      -- can be read afterwards. This holds if every transaction of the database goes through and
      -- the port is short enough to be written again.
      pub get-clear_server_ip :
          (db : Db)
          → PortIsShort (get_server_connect_info D P db)
          → get_server_connect_info D P (clear_server_ip D P db)
            ≡ cleared (get_server_connect_info D P db)
      unfolding clear_server_ip
      get-clear_server_ip db h = cleared_cases db (get_server_connect_info D P db) refl h
