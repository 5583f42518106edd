-- ===== src/Store/Memory/Agreement.antt =====
-- That the settings of src/helpers/common.rs read the same in memory and in the database.
use atomic_websocket.Base.{
  ◌≡◌, refl, ap, ◌∙◌, Text, text_eq, text_eq→eq, Bool, Bool-cases, inl, inr, Option, none, some,
  List, [], ◌∷◌,
}
use atomic_websocket.Runtime.Database.{Database, Settings, Result, ok, ◌>>=◌}
use atomic_websocket.Runtime.Table.{Table}
use atomic_websocket.Store
use atomic_websocket.Store.{
  get_setting_by_key, set_setting, remove_setting, get_client_id, client_id_key,
}
use atomic_websocket.Store.Rows.{bind-ok, get_setting_by_key-ok, set_setting-ok, remove_setting-ok}
use atomic_websocket.Store.Memory
use atomic_websocket.Store.Memory.{InMemoryStorage, setting}

-- A call that changes the settings.
pub data Write : Type 0 where
  sets : Settings → Write
  removes : Text → Write

module _ (D : Database) (H : Table Text) where
  open D use {Db, table}

  -- A list of calls on the database, up to the first that fails.
  abbrev pub write_all : List Write → Db → Result Db
  write_all [] db = ok db
  write_all (sets s ∷ ws) db = set_setting D db s >>= write_all ws
  write_all (removes key ∷ ws) db = remove_setting D db key >>= write_all ws

  abbrev pub write_memory : List Write → InMemoryStorage H → InMemoryStorage H
  write_memory [] m = m
  write_memory (sets s ∷ ws) m = write_memory ws (Memory.set_setting H m s)
  write_memory (removes key ∷ ws) m = write_memory ws (Memory.remove_setting H m key)

  -- Each row stands in memory, and nothing else does.
  abbrev pub Agrees : Db → InMemoryStorage H → Type 0
  Agrees db m = (key : Text) → table db key ≡ Memory.get_setting_by_key H m key

  set_setting-Agrees :
      (db db' : Db) (m : InMemoryStorage H) (s : Settings)
      → Agrees db m
      → set_setting D db s ≡ ok db'
      → Agrees db' (Memory.set_setting H m s)
  unfolding Memory.get_setting_by_key Memory.set_setting
  set_setting-Agrees db db' m s a e key =
      set_setting-ok D db db' s key e ∙ (elim (Bool-cases (text_eq s.key key)) [
        | inl same ↦
            rw (H.get-insert m.data_map s.key s.value key, same)
              (rw (text_eq→eq s.key key same) refl)
        | inr other ↦ rw (H.get-insert m.data_map s.key s.value key, other) (a key)
      ])

  remove_setting-Agrees :
      (db db' : Db) (m : InMemoryStorage H) (key : Text)
      → Agrees db m
      → remove_setting D db key ≡ ok db'
      → Agrees db' (Memory.remove_setting H m key)
  unfolding Memory.get_setting_by_key Memory.remove_setting
  remove_setting-Agrees db db' m key a e j =
      remove_setting-ok D db db' key j e ∙ (elim (Bool-cases (text_eq key j)) [
        | inl same ↦ rw (H.get-remove m.data_map key j, same) refl
        | inr other ↦ rw (H.get-remove m.data_map key j, other) (a j)
      ])

  write_all-Agrees :
      (ws : List Write) (db db' : Db) (m : InMemoryStorage H)
      → Agrees db m
      → write_all ws db ≡ ok db'
      → Agrees db' (write_memory ws m)
  write_all-Agrees [] db db' m a e = let same : db ≡ db' = cc in rw (← same) a
  write_all-Agrees (sets s ∷ ws) db db' m a e =
      let (next, first, rest) = bind-ok (set_setting D db s) (write_all ws) e in
      write_all-Agrees ws next db' (Memory.set_setting H m s)
        (set_setting-Agrees db next m s a first) rest
  write_all-Agrees (removes key ∷ ws) db db' m a e =
      let (next, first, rest) = bind-ok (remove_setting D db key) (write_all ws) e in
      write_all-Agrees ws next db' (Memory.remove_setting H m key)
        (remove_setting-Agrees db next m key a first) rest

  text-setting :
      (is_utf8 : Text → Bool) (key : Text) (o : Option Text)
      → Store.utf8_or_empty D is_utf8 (ok (setting H key o)) ≡ Memory.utf8_or_empty H is_utf8 o
  text-setting is_utf8 key none = refl
  text-setting is_utf8 key (some value) = refl

  -- Where the database has an answer after calls that all go through, the settings in memory give
  -- the same one after the same calls, if the two agreed before them; and so for the identifier of
  -- the client.
  pub get-write_all :
      (is_utf8 : Text → Bool) (ws : List Write) (db db' : Db) (m : InMemoryStorage H) (key : Text)
      (o o' : Option Settings)
      → Agrees db m
      → write_all ws db ≡ ok db'
      → get_setting_by_key D db' key ≡ ok o
      → get_setting_by_key D db' client_id_key ≡ ok o'
      → (o ≡ Memory.get_setting_by_key H (write_memory ws m) key)
        × (get_client_id D is_utf8 db' ≡ Memory.get_id H is_utf8 (write_memory ws m))
  unfolding get_client_id Memory.get_id Memory.get_setting_by_key
  get-write_all is_utf8 ws db db' m key o o' a written read read' =
      let b = write_all-Agrees ws db db' m a written in
      (
        get_setting_by_key-ok D db' key o read ∙ b key,
        rw read' (
            ap (λ r. Store.utf8_or_empty D is_utf8 (ok r))
              (get_setting_by_key-ok D db' client_id_key o' read' ∙ b client_id_key)
            ∙ text-setting is_utf8 client_id_key _),
      )
