-- ===== src/Runtime/Database.antt =====
-- The crate native_db, as an interface: transactions on the table of `Settings`, which src/lib.rs
-- declares with `key` as the primary key.
use atomic_websocket.Base.{Text, text_eq, if◌then◌else◌, Option, none, some, ◌≡◌}

pub record Settings : Type 0 where
  pub key : Text
  pub value : Text

-- `Result<A, String>`.
pub data Result (A : Type 0) : Type 0 where
  ok : A → Result A
  err : Text → Result A

infixl 5 ◌>>=◌
abbrev pub ◌>>=◌ : {A B : Type 0} → Result A → (A → Result B) → Result B
ok value >>= next = next value
err error >>= next = err error

pub record Database : Type 1 where
  pub Db : Type 0
  pub Reader : Type 0
  pub Writer : Type 0
  -- The committed table.
  pub table : Db → Text → Option Settings
  pub r_transaction : Db → Result Reader
  pub primary : Reader → Text → Result (Option Settings)
  pub rw_transaction : Db → Result Writer
  pub update : Writer → Settings → Settings → Result Writer
  pub insert : Writer → Settings → Result Writer
  pub remove : Writer → Settings → Result Writer
  -- A transaction that is not committed leaves the table as it was.
  pub commit : Writer → Result Db
  pub table-key : (db : Db) (k : Text) (s : Settings) → table db k ≡ some s → s.key ≡ k
  pub primary-ok :
      (db : Db) (r : Reader) (k : Text) (o : Option Settings)
      → r_transaction db ≡ ok r
      → primary r k ≡ ok o
      → o ≡ table db k
  pub update-commit :
      (db : Db) (w w' : Writer) (db' : Db) (old new : Settings) (j : Text)
      → rw_transaction db ≡ ok w
      → table db new.key ≡ some old
      → update w old new ≡ ok w'
      → commit w' ≡ ok db'
      → table db' j ≡ (if text_eq new.key j then some new else table db j)
  pub insert-commit :
      (db : Db) (w w' : Writer) (db' : Db) (new : Settings) (j : Text)
      → rw_transaction db ≡ ok w
      → table db new.key ≡ none
      → insert w new ≡ ok w'
      → commit w' ≡ ok db'
      → table db' j ≡ (if text_eq new.key j then some new else table db j)
  pub remove-commit :
      (db : Db) (w w' : Writer) (db' : Db) (old : Settings) (j : Text)
      → rw_transaction db ≡ ok w
      → table db old.key ≡ some old
      → remove w old ≡ ok w'
      → commit w' ≡ ok db'
      → table db' j ≡ (if text_eq old.key j then none else table db j)
