-- ===== src/Spillover/Each.antt =====
-- Several messages for the application, one after the other, at the buffers of `send_handle_message`
-- in src/helpers/server_sender.rs and src/helpers/client_sender.rs.
use atomic_websocket.Base.{ℕ, ◌≡◌, refl, List, [], ◌∷◌, ◌++◌}
use atomic_websocket.Runtime.Channel.{Channel}
use atomic_websocket.Spillover.{Buffers, offer}

-- `zs` are the elements of `xs` and of `ys`, each in its order.
pub data Interleaving {A : Type 0} : List A → List A → List A → Type 0 where
  done : Interleaving [] [] []
  left : {xs ys zs : List A} → (x : A) → Interleaving xs ys zs → Interleaving (x ∷ xs) ys (x ∷ zs)
  right : {xs ys zs : List A} → (y : A) → Interleaving xs ys zs → Interleaving xs (y ∷ ys) (y ∷ zs)

right_all :
    {A : Type 0} {xs ys zs : List A} (bs : List A)
    → Interleaving xs ys zs
    → Interleaving xs (bs ++ ys) (bs ++ zs)
right_all [] i = i
right_all (b ∷ bs) i = right b (right_all bs i)

pub Interleaving-append :
    {A : Type 0} {xs ys zs : List A} (first bs : List A)
    → Interleaving xs ys zs
    → Interleaving (first ++ xs) (bs ++ ys) ((first ++ bs) ++ zs)
Interleaving-append [] bs i = right_all bs i
Interleaving-append (a ∷ first) bs i = left a (Interleaving-append first bs i)

module _ {A : Type 0} (C : Channel A) where
  abbrev pub offer_all : ℕ → Buffers C → List A → Buffers C
  offer_all size b [] = b
  offer_all size b (m ∷ ms) = offer_all size (offer C size b m).1 ms

  pub offer_all-append :
      (size : ℕ) (b : Buffers C) (ms ns : List A)
      → offer_all size b (ms ++ ns) ≡ offer_all size (offer_all size b ms) ns
  offer_all-append size b [] ns = refl
  offer_all-append size b (m ∷ ms) ns = offer_all-append size (offer C size b m).1 ms ns
