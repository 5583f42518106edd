-- ===== src/Scan/Tasks/Membership.antt =====
-- The lists of addresses in a scan of src/helpers/scan_manager.rs, where one is taken out or left
-- out.
use atomic_websocket.Base.{
  suc, ◌≡◌, refl, ap, Text, text_eq, text_eq_refl, ◌||◌, Bool, true, false, Bool-cases, inl, inr,
  List, [], ◌∷◌, ◌++◌, all, filter, length, arith,
}
use atomic_websocket.Scan.Tasks.{mem}

pub all-middle :
    (p : Text → Bool) (front back : List Text) (ip : Text)
    → all p (front ++ ip ∷ back) ≡ true
    → (p ip ≡ true) × (all p (front ++ back) ≡ true)
all-middle p [] back ip h = ground arith
all-middle p (j ∷ front) back ip h = ground (arith, all-middle p front back ip)

pub all-filter : (p q : Text → Bool) (xs : List Text) → all p xs ≡ true → all p (filter q xs) ≡ true
all-filter p q [] h = refl
all-filter p q (x ∷ xs) h = elim (Bool-cases (q x)) [
  | inl e ↦ rw e ground (arith, h, all-filter p q xs)
  | inr e ↦ rw e (all-filter p q xs (ground (arith, h)))
]

or-right : (a b : Bool) → b ≡ true → (a || b) ≡ true
or-right true b h = refl
or-right false b h = h

pub all-mem :
    (xs ys : List Text)
    → ((j : Text) → mem j xs ≡ true → mem j ys ≡ true)
    → all (λ j. mem j ys) xs ≡ true
all-mem [] ys f = refl
all-mem (x ∷ xs) ys f =
    let here : mem x ys ≡ true = f x (rw (text_eq_refl x) refl) in
    let rest = all-mem xs ys (λ j h. f j (or-right (text_eq x j) (mem j xs) h)) in
    ground (arith, here, rest)

pub length-middle :
    (front back : List Text) (ip : Text)
    → length (front ++ ip ∷ back) ≡ suc (length (front ++ back))
length-middle [] back ip = refl
length-middle (j ∷ front) back ip = ap suc (length-middle front back ip)
