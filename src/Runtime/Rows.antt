-- ===== src/Runtime/Rows.antt =====
-- Concrete values of the interfaces of native_db and bebop: a table as a list of rows, the newest
-- first, and the field codecs of Runtime/Bytes. They show that the laws can be met.
use atomic_websocket.Base.{
  ◌≡◌, sym, ap, ◌∙◌, Text, text_eq, text_eq_iff, if◌then◌else◌, Option, none, some, List, [], ◌∷◌,
  arith,
}
use atomic_websocket.Runtime.Database.{Database, Settings, Result, ok}

abbrev pub find : Text → List Settings → Option Settings
find k [] = none
find k (s ∷ rows) = if text_eq s.key k then some s else find k rows

abbrev pub erase : Text → List Settings → List Settings
erase k [] = []
erase k (s ∷ rows) = if text_eq s.key k then erase k rows else s ∷ erase k rows

pub find-key : (rows : List Settings) (k : Text) (s : Settings) → find k rows ≡ some s → s.key ≡ k
find-key [] k s e = cc
find-key (r ∷ rows) k s e = ground (arith, text_eq_iff r.key k, find-key rows k s)

pub find-erase :
    (k : Text) (rows : List Settings) (j : Text)
    → find j (erase k rows) ≡ (if text_eq k j then none else find j rows)
find-erase k [] j = ground arith
find-erase k (s ∷ rows) j =
    ground (arith, text_eq_iff s.key k, text_eq_iff s.key j, text_eq_iff k j, find-erase k rows j)

pub ok-inj : {A : Type 0} {x y : A} → Path (Result A) (ok x) (ok y) → x ≡ y
ok-inj e = cc

pub written :
    (db w w' db' : List Settings) (new : Settings) (j : Text)
    → Path (Result (List Settings)) (ok db) (ok w)
    → Path (Result (List Settings)) (ok (new ∷ w)) (ok w')
    → Path (Result (List Settings)) (ok w') (ok db')
    → find j db' ≡ (if text_eq new.key j then some new else find j db)
written db w w' db' new j e e' e'' =
    ap (find j) (sym (ok-inj e'') ∙ sym (ok-inj e') ∙ ap (λ rows. new ∷ rows) (sym (ok-inj e)))

pub erased :
    (db w w' db' : List Settings) (k j : Text)
    → Path (Result (List Settings)) (ok db) (ok w)
    → Path (Result (List Settings)) (ok (erase k w)) (ok w')
    → Path (Result (List Settings)) (ok w') (ok db')
    → find j db' ≡ (if text_eq k j then none else find j db)
erased db w w' db' k j e e' e'' =
    ap (find j) (sym (ok-inj e'') ∙ sym (ok-inj e') ∙ ap (erase k) (sym (ok-inj e)))
    ∙ find-erase k db j

pub primary_of :
    (db r : List Settings) (k : Text) (o : Option Settings)
    → Path (Result (List Settings)) (ok db) (ok r)
    → Path (Result (Option Settings)) (ok (find k r)) (ok o)
    → o ≡ find k db
primary_of db r k o e e' = sym (ok-inj e') ∙ ap (find k) (sym (ok-inj e))

abbrev pub row_database : Database
row_database = record {
  Db = List Settings;
  Reader = List Settings;
  Writer = List Settings;
  table = λ db k. find k db;
  r_transaction = ok;
  primary = λ r k. ok (find k r);
  rw_transaction = ok;
  update = λ w old new. ok (new ∷ w);
  insert = λ w new. ok (new ∷ w);
  remove = λ w old. ok (erase old.key w);
  commit = ok;
  table-key = find-key;
  primary-ok = primary_of;
  update-commit = λ db w w' db' old new j e _ e' e''. written db w w' db' new j e e' e'';
  insert-commit = λ db w w' db' new j e _ e' e''. written db w w' db' new j e e' e'';
  remove-commit = λ db w w' db' old j e _ e' e''. erased db w w' db' old.key j e e' e'';
}
