-- ===== src/Runtime/Table.antt =====
-- dashmap::DashMap with text keys, as src/helpers/client_sender.rs, src/helpers/scan_manager.rs and
-- src/helpers/traits/connection_state.rs use it.
use atomic_websocket.Base.{
  suc, ◌≡◌, Text, text_eq, Bool, if◌then◌else◌, Option, none, some, is_some, List, [], ◌∷◌, length,
  filter,
}

module _ {V : Type 0} where
  abbrev pub lookup : Text → List (Text × V) → Option V
  lookup k [] = none
  lookup k ((j, v) ∷ m) = if text_eq j k then some v else lookup k m

  -- The entry of a key, if a test holds of the two.
  abbrev pub keep_if : (Text → V → Bool) → Text → Option V → Option V
  keep_if p k none = none
  keep_if p k (some v) = if p k v then some v else none

  -- Each key stands once.
  abbrev pub NodupKeys : List (Text × V) → Type 0
  NodupKeys [] = Unit {0}
  NodupKeys ((k, v) ∷ m) = (lookup k m ≡ none) × NodupKeys m

pub record Table (V : Type 0) : Type 1 where
  pub Map : Type 0
  pub empty : Map
  -- The entries in the order of iteration, which is not specified.
  pub iter : Map → List (Text × V)
  pub insert : Map → Text → V → Map
  pub remove : Map → Text → Map
  pub retain : Map → (Text → V → Bool) → Map
  pub iter-empty : iter empty ≡ []
  pub iter-NodupKeys : (m : Map) → NodupKeys (iter m)
  pub get-insert :
      (m : Map) (k : Text) (v : V) (j : Text)
      → lookup j (iter (insert m k v)) ≡ (if text_eq k j then some v else lookup j (iter m))
  pub get-remove :
      (m : Map) (k j : Text)
      → lookup j (iter (remove m k)) ≡ (if text_eq k j then none else lookup j (iter m))
  pub get-retain :
      (m : Map) (p : Text → V → Bool) (j : Text)
      → lookup j (iter (retain m p)) ≡ keep_if p j (lookup j (iter m))
  -- An insertion counts once for a new key, and a removal once for a key that is there.
  pub length-insert :
      (m : Map) (k : Text) (v : V)
      → length (iter (insert m k v))
        ≡ (if is_some (lookup k (iter m)) then length (iter m) else suc (length (iter m)))
  pub length-remove :
      (m : Map) (k : Text)
      → length (iter m) ≡ (
          if is_some (lookup k (iter m))
          then suc (length (iter (remove m k)))
          else length (iter (remove m k)))
  pub length-retain :
      (m : Map) (p : Text → V → Bool)
      → length (iter (retain m p)) ≡ length (filter (λ e. p e.0 e.1) (iter m))

module _ {V : Type 0} (T : Table V) where
  -- `DashMap::get` and `contains_key`.
  abbrev pub get : T.Map → Text → Option V
  get m k = lookup k (T.iter m)
