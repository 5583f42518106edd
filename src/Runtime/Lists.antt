-- ===== src/Runtime/Lists.antt =====
-- Concrete values of the interfaces: a channel as a list with a bound, a table as an association
-- list. They show that the laws can be met, and the tests run on them.
use atomic_websocket.Base.{
  ℕ, suc, ◌≤◌, ◌<◌, ◌≡◌, refl, Text, text_eq, text_eq_iff, Bool, true, false, ltb, if◌then◌else◌,
  Option, none, some, is_some, List, [], ◌∷◌, ◌++◌, length, filter, arith,
}
use atomic_websocket.Runtime.Channel.{Channel, TrySend, sent, full, closed}
use atomic_websocket.Runtime.Table.{Table, lookup, keep_if, NodupKeys}

pub record ListChan (A : Type 0) : Type 0 where
  pub queue : List A
  pub room : ℕ
  pub shut : Bool

module _ {A : Type 0} where
  abbrev try_send : ListChan A → A → TrySend × ListChan A
  try_send c a =
      if c.shut
      then (closed, c)
      else if ltb (length c.queue) c.room
      then (sent, record c { queue = c.queue ++ a ∷ [] })
      else (full, c)

  abbrev recv_from : List A → ListChan A → Option A × ListChan A
  recv_from [] c = (none, c)
  recv_from (a ∷ rest) c = (some a, record c { queue = rest })

  abbrev recv : ListChan A → Option A × ListChan A
  recv c = recv_from c.queue c

  pub try_send-closed : (c : ListChan A) (a : A) → c.shut ≡ true → try_send c a ≡ (closed, c)
  try_send-closed c a h = rw (h, try_send)

  pub try_send-full :
      (c : ListChan A) (a : A) → c.shut ≡ false → c.room ≤ length c.queue → try_send c a ≡ (full, c)
  try_send-full c a h k = ground arith

  pub try_send-sent :
      (c : ListChan A) (a : A)
      → c.shut ≡ false
      → length c.queue < c.room
      → ((try_send c a).0 ≡ sent)
        × ((try_send c a).1.queue ≡ c.queue ++ a ∷ [])
        × ((try_send c a).1.room ≡ c.room)
        × ((try_send c a).1.shut ≡ false)
  try_send-sent c a h k = (ground arith, ground arith, ground arith, ground arith)

  pub recv-some :
      (c : ListChan A) (a : A) (rest : List A)
      → c.queue ≡ a ∷ rest
      → ((recv c).0 ≡ some a)
        × ((recv c).1.queue ≡ rest)
        × ((recv c).1.room ≡ c.room)
        × ((recv c).1.shut ≡ c.shut)
  recv-some c a rest h = (ground arith, ground arith, ground arith, ground arith)

  pub recv-none : (c : ListChan A) → c.queue ≡ [] → recv c ≡ (none, c)
  recv-none c h = ground arith

abbrev pub list_channel : (A : Type 0) → Channel A
list_channel A = record {
  Chan = ListChan A;
  queued = λ c. c.queue;
  capacity = λ c. c.room;
  is_closed = λ c. c.shut;
  try_send = try_send;
  recv = recv;
  try_send-closed = try_send-closed;
  try_send-full = try_send-full;
  try_send-sent = try_send-sent;
  recv-some = recv-some;
  recv-none = recv-none;
}

module _ {V : Type 0} where
  abbrev put : List (Text × V) → Text → V → List (Text × V)
  put [] k v = (k, v) ∷ []
  put ((j, w) ∷ m) k v = if text_eq j k then (j, v) ∷ m else (j, w) ∷ put m k v

  abbrev drop_key : List (Text × V) → Text → List (Text × V)
  drop_key [] k = []
  drop_key ((j, w) ∷ m) k = if text_eq j k then m else (j, w) ∷ drop_key m k

  abbrev keep : List (Text × V) → (Text → V → Bool) → List (Text × V)
  keep m p = filter (λ e. p e.0 e.1) m

  pub lookup-put :
      (m : List (Text × V)) (k : Text) (v : V) (j : Text)
      → lookup j (put m k v) ≡ (if text_eq k j then some v else lookup j m)
  lookup-put [] k v j = refl
  lookup-put ((i, w) ∷ m) k v j =
      ground (arith, text_eq_iff i k, text_eq_iff i j, text_eq_iff k j, lookup-put m k v j)

  pub lookup-drop_key :
      (m : List (Text × V)) (k j : Text)
      → NodupKeys m
      → lookup j (drop_key m k) ≡ (if text_eq k j then none else lookup j m)
  lookup-drop_key [] k j h = ground arith
  lookup-drop_key ((i, w) ∷ m) k j h =
      ground (arith, text_eq_iff i k, text_eq_iff i j, text_eq_iff k j, lookup-drop_key m k j h.1)

  pub lookup-keep :
      (m : List (Text × V)) (p : Text → V → Bool) (j : Text)
      → NodupKeys m
      → lookup j (keep m p) ≡ keep_if p j (lookup j m)
  lookup-keep [] p j h = refl
  lookup-keep ((i, w) ∷ m) p j h = ground (arith, text_eq_iff i j, lookup-keep m p j h.1)

  pub put-NodupKeys : (m : List (Text × V)) (k : Text) (v : V) → NodupKeys m → NodupKeys (put m k v)
  put-NodupKeys [] k v h = (refl, tt)
  put-NodupKeys ((i, w) ∷ m) k v h =
      ground (arith, text_eq_iff i k, text_eq_iff k i, lookup-put m k v i, put-NodupKeys m k v h.1)

  pub drop_key-NodupKeys : (m : List (Text × V)) (k : Text) → NodupKeys m → NodupKeys (drop_key m k)
  drop_key-NodupKeys [] k h = tt
  drop_key-NodupKeys ((i, w) ∷ m) k h =
      ground (arith, lookup-drop_key m k i h.1, drop_key-NodupKeys m k h.1)

  pub keep-NodupKeys :
      (m : List (Text × V)) (p : Text → V → Bool) → NodupKeys m → NodupKeys (keep m p)
  keep-NodupKeys [] p h = tt
  keep-NodupKeys ((i, w) ∷ m) p h = ground (arith, lookup-keep m p i h.1, keep-NodupKeys m p h.1)

  pub length-put :
      (m : List (Text × V)) (k : Text) (v : V)
      → length (put m k v) ≡ (if is_some (lookup k m) then length m else suc (length m))
  length-put [] k v = refl
  length-put ((i, w) ∷ m) k v = ground (arith, length-put m k v)

  pub length-drop_key :
      (m : List (Text × V)) (k : Text)
      → length m
        ≡ (if is_some (lookup k m) then suc (length (drop_key m k)) else length (drop_key m k))
  length-drop_key [] k = refl
  length-drop_key ((i, w) ∷ m) k = ground (arith, length-drop_key m k)

-- The entries with the fact that each key stands once.
pub record Entries (V : Type 0) : Type 0 where
  pub entries : List (Text × V)
  pub nodup : NodupKeys entries

abbrev pub list_table : (V : Type 0) → Table V
list_table V = record {
  Map = Entries V;
  empty = record { entries = []; nodup = tt };
  iter = λ m. m.entries;
  insert =
      λ m k v. record { entries = put m.entries k v; nodup = put-NodupKeys m.entries k v m.nodup };
  remove = λ m k. record {
    entries = drop_key m.entries k;
    nodup = drop_key-NodupKeys m.entries k m.nodup;
  };
  retain = λ m p. record { entries = keep m.entries p; nodup = keep-NodupKeys m.entries p m.nodup };
  iter-empty = refl;
  iter-NodupKeys = λ m. m.nodup;
  get-insert = λ m k v j. lookup-put m.entries k v j;
  get-remove = λ m k j. lookup-drop_key m.entries k j m.nodup;
  get-retain = λ m p j. lookup-keep m.entries p j m.nodup;
  length-insert = λ m k v. length-put m.entries k v;
  length-remove = λ m k. length-drop_key m.entries k;
  length-retain = λ m p. refl;
}
