-- ===== src/Store/Memory.antt =====
-- The settings in memory, the build without the feature `native-db`: `InMemoryStorage` of
-- src/helpers/types.rs, the settings functions of src/helpers/common.rs and `get_id` of
-- src/helpers/get_internal_websocket.rs. `H` is the `HashMap` from keys to values.
pub mod Agreement
use atomic_websocket.Base.{Text, Bool, true, false, Option, none, some, []}
use atomic_websocket.Runtime.Database.{Settings}
use atomic_websocket.Runtime.Table.{Table, get}
use atomic_websocket.Store.{client_id_key}

module _ (H : Table Text) where
  pub record InMemoryStorage : Type 0 where
    pub data_map : H.Map

  unfoldable pub new : InMemoryStorage
  new = record { data_map = H.empty }

  -- A value under its key.
  abbrev pub setting : Text → Option Text → Option Settings
  setting key none = none
  setting key (some value) = some (record { key = key; value = value })

  unfoldable pub get_setting_by_key : InMemoryStorage → Text → Option Settings
  get_setting_by_key db key = setting key (get H db.data_map key)

  unfoldable pub set_setting : InMemoryStorage → Settings → InMemoryStorage
  set_setting db settings = record { data_map = H.insert db.data_map settings.key settings.value }

  unfoldable pub remove_setting : InMemoryStorage → Text → InMemoryStorage
  remove_setting db key = record { data_map = H.remove db.data_map key }

  abbrev utf8_or_empty : (Text → Bool) → Option Text → Text
  utf8_or_empty is_utf8 none = []
  utf8_or_empty is_utf8 (some value) = elim (is_utf8 value) [ true ↦ value | false ↦ [] ]

  -- `is_utf8` tells what `String::from_utf8` accepts.
  unfoldable pub get_id : (Text → Bool) → InMemoryStorage → Text
  get_id is_utf8 db = utf8_or_empty is_utf8 (get H db.data_map client_id_key)
