-- ===== src/Connect/Stream/Expected.antt =====
-- What the application is to get from a client's session of src/helpers/get_internal_websocket.rs, in
-- terms of the messages that its server sent.
use atomic_websocket.Base.{
  ◌≡◌, refl, Text, Bool, true, false, not, ◌==◌, if◌then◌else◌, Option-cases, inl, inr, Option,
  none, some, List, [], ◌∷◌, ◌++◌, filter, put, put-append, arith,
}
use atomic_websocket.Schema.{Primitives, Category, Data, data_codec, category_code}
use atomic_websocket.Message.{get_data_schema, code16}
use atomic_websocket.Connect.Stream.{Event, message, end_of_stream, wake, send}

-- The messages of the stream, until it ends.
abbrev pub frames : List Event → List Text
frames [] = []
frames (message now taken value ∷ es) = value ∷ frames es
frames (end_of_stream ∷ es) = []
frames (wake replies ∷ es) = frames es
frames (send replies m ∷ es) = frames es

abbrev pub readable : List Text → List Data
readable [] = []
readable (value ∷ vs) = put (get_data_schema value) (readable vs)

abbrev pub before_disconnect : List Data → List Data
before_disconnect [] = []
before_disconnect (d ∷ ds) =
    if d.category == code16 Category.disconnect then [] else d ∷ before_disconnect ds

abbrev pub encoded : Primitives → List Data → List Text
encoded P [] = []
encoded P (d ∷ ds) = put ((data_codec P).encode d) (encoded P ds)

-- The messages for the application: those before the first disconnect that can be read and are no
-- pong, each serialized again.
abbrev pub for_application : Primitives → List Text → List Text
for_application P vs =
    encoded P
      (filter (λ d. not (d.category == code16 Category.pong)) (before_disconnect (readable vs)))

-- What one message contributes, and whether the reader goes on.
abbrev pub verdict : Primitives → Option Data → List Text × Bool
verdict P none = ([], true)
verdict P (some d) =
    if d.category == code16 Category.pong
    then ([], true)
    else if d.category == code16 Category.disconnect
    then ([], false)
    else (put ((data_codec P).encode d) [], true)

pub for_application-cons :
    (P : Primitives) (value : Text) (vs : List Text)
    → for_application P (value ∷ vs) ≡ (
        let r = verdict P (get_data_schema value) in
        r.0 ++ (if r.1 then for_application P vs else []))
unfolding category_code
for_application-cons P value vs = elim (Option-cases (get_data_schema value)) [
  | inl e ↦ rw e refl
  | inr (d, e) ↦ rw e (by_data d)
]
  where
    by_data :
        (d : Data)
        → encoded P (
            filter
              (λ d'. not (d'.category == code16 Category.pong))
              (before_disconnect (d ∷ readable vs)))
          ≡ (let r = verdict P (some d) in r.0 ++ (if r.1 then for_application P vs else []))
    by_data d = ground (arith, put-append ((data_codec P).encode d) (for_application P vs))
