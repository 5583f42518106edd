-- ===== src/Store/Rows.antt =====
-- What the settings functions of src/helpers/common.rs read and write.
use atomic_websocket.Base.{
  ◌≡◌, refl, sym, ap, ◌∙◌, Text, text_eq, text_eq→eq, Bool-cases, inl, inr, if◌then◌else◌, Option,
  none, some,
}
use atomic_websocket.Runtime.Database.{Database, Settings, Result, ok, err, ◌>>=◌}
use atomic_websocket.Store.{
  get_setting_by_key, set_setting, remove_setting, write_setting, delete_setting,
}

pub bind-ok :
    {A B : Type 0} (result : Result A) (next : A → Result B) {value : B}
    → (result >>= next) ≡ ok value
    → (first : A) × (result ≡ ok first) × (next first ≡ ok value)
bind-ok (ok first) next h = (first, refl, h)
bind-ok (err error) next h = cc

module _ (D : Database) where
  open D use {Db, table, r_transaction, primary, table-key}

  pub get_setting_by_key-ok :
      (db : Db) (key : Text) (o : Option Settings)
      → get_setting_by_key D db key ≡ ok o
      → o ≡ table db key
  unfolding get_setting_by_key
  get_setting_by_key-ok db key o e =
      let (reader, e', e'') = bind-ok (r_transaction db) _ e in D.primary-ok db reader key o e' e''

  write_setting-ok :
      (db db' : Db) (s : Settings) (o : Option Settings) (j : Text)
      → o ≡ table db s.key
      → write_setting D db s o ≡ ok db'
      → table db' j ≡ (if text_eq s.key j then some s else table db j)
  write_setting-ok db db' s none j found e =
      let (w, e', next) = bind-ok (D.rw_transaction db) _ e in
      let (w', e'', last) = bind-ok (D.insert w s) _ next in
      D.insert-commit db w w' db' s j e' (sym found) e'' last
  write_setting-ok db db' s (some old) j found e =
      let (w, e', next) = bind-ok (D.rw_transaction db) _ e in
      let (w', e'', last) = bind-ok (D.update w old s) _ next in
      D.update-commit db w w' db' old s j e' (sym found) e'' last

  -- A write that succeeds sets the row of its key, whether there was one or not, and leaves every
  -- other row as it was.
  pub set_setting-ok :
      (db db' : Db) (s : Settings) (j : Text)
      → set_setting D db s ≡ ok db'
      → table db' j ≡ (if text_eq s.key j then some s else table db j)
  unfolding set_setting
  set_setting-ok db db' s j e =
      let (reader, e', next) = bind-ok (r_transaction db) _ e in
      let (o, e'', last) = bind-ok (primary reader s.key) _ next in
      write_setting-ok db db' s o j (D.primary-ok db reader s.key o e' e'') last

  delete_setting-ok :
      (db db' : Db) (key : Text) (o : Option Settings) (j : Text)
      → o ≡ table db key
      → delete_setting D db o ≡ ok db'
      → table db' j ≡ (if text_eq key j then none else table db j)
  delete_setting-ok db db' key none j found e = elim (Bool-cases (text_eq key j)) [
    | inl same ↦
        let p : key ≡ j = text_eq→eq key j same in
        let q : db ≡ db' = cc in rw same (rw (← q, ← p) (sym found))
    | inr other ↦ let q : db ≡ db' = cc in rw other (rw (← q))
  ]
  delete_setting-ok db db' key (some old) j found e =
      let (w, e', next) = bind-ok (D.rw_transaction db) _ e in
      let (w', e'', last) = bind-ok (D.remove w old) _ next in
      let same : old.key ≡ key = table-key db key old (sym found) in
      rw (← same) (D.remove-commit db w w' db' old j e' (ap (table db) same ∙ sym found) e'' last)

  -- A removal that succeeds leaves no row of the key, whether there was one or not, and every other
  -- row as it was.
  pub remove_setting-ok :
      (db db' : Db) (key : Text) (j : Text)
      → remove_setting D db key ≡ ok db'
      → table db' j ≡ (if text_eq key j then none else table db j)
  unfolding remove_setting
  remove_setting-ok db db' key j e =
      let (reader, e', next) = bind-ok (r_transaction db) _ e in
      let (o, e'', last) = bind-ok (primary reader key) _ next in
      delete_setting-ok db db' key o j (D.primary-ok db reader key o e' e'') last
