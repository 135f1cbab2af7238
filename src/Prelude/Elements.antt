-- ===== src/Prelude/Elements.antt =====
-- What holds of each element of a list.
use mathlib.Core.List.{List, [], ◌∷◌, ◌++◌}

pub data Each {ℓ κ} {A : Type ℓ} (P : A → Type κ) : List A → Type (ℓ ⊔ κ) where
  each_none : Each P []
  each_more : {x : A} {xs : List A} → P x → Each P xs → Each P (x ∷ xs)

module _ {ℓ κ} {A : Type ℓ} {P : A → Type κ} where
  pub take_out :
      (xs : List A) (x : A) (ys : List A) → Each P (xs ++ (x ∷ ys)) → P x × Each P (xs ++ ys)
  take_out [] x ys (each_more p ps) = (p, ps)
  take_out (z ∷ xs) x ys (each_more q qs) = let (p, ps) = take_out xs x ys qs in (p, each_more q ps)

  pub put_in :
      (xs : List A) (x : A) (ys : List A) → P x → Each P (xs ++ ys) → Each P (xs ++ (x ∷ ys))
  put_in [] x ys p ps = each_more p ps
  put_in (z ∷ xs) x ys p (each_more q qs) = each_more q (put_in xs x ys p qs)
