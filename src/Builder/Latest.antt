-- ===== src/Builder/Latest.antt =====
-- What a chain of calls of a builder in src/helpers/builder.rs leaves in one of its fields.
use atomic_websocket.Base.{Option, none, some, List, [], ◌∷◌}

abbrev pub or_else : {B : Type 0} → B → Option B → B
or_else b none = b
or_else b (some b') = b'

-- The value of the last call that gives one, or else what was there.
abbrev pub latest : {A B : Type 0} → (A → Option B) → List A → B → B
latest pick [] b = b
latest pick (c ∷ cs) b = latest pick cs (or_else b (pick c))
