-- ===== src/Deals/Repository/Order.antt =====
-- The rows of the SELECTs with WHERE and ORDER BY of deals/repository.go.
use ganji.Base.{
  ◌≡◌, Bool, true, false, List, [], ◌∷◌, All, filter, Bool-cases, inl, inr, if◌then◌else◌,
}
use ganji.Deals.Repository.{insert_by, order_by}

module _ {A : Type 0} (P : A → Type 0) (before : A → A → Bool) where
  All-if : (b : Bool) (xs ys : List A) → All P xs → All P ys → All P (if b then xs else ys)
  All-if true xs ys all _ = all
  All-if false xs ys _ all = all

  pub All-insert_by : (a : A) (xs : List A) → P a → All P xs → All P (insert_by before a xs)
  All-insert_by a [] pa all = (pa, all)
  All-insert_by a (x ∷ xs) pa (px, all) =
      All-if (before x a) (x ∷ insert_by before a xs) (a ∷ x ∷ xs) (px, All-insert_by a xs pa all)
        (pa, (px, all))

  pub All-order_by : (xs : List A) → All P xs → All P (order_by before xs)
  unfolding order_by
  All-order_by [] all = all
  All-order_by (x ∷ xs) (px, all) = All-insert_by x (order_by before xs) px (All-order_by xs all)

pub All-filter : {A : Type 0} (p : A → Bool) (xs : List A) → All (λ x. p x ≡ true) (filter p xs)
All-filter p [] = tt
All-filter p (x ∷ xs) = elim (Bool-cases (p x)) [
  | inl t ↦ rw t (t, All-filter p xs)
  | inr f ↦ rw f (All-filter p xs)
]

pub All-imp :
    {A : Type 0} (P Q : A → Type 0) → ((a : A) → P a → Q a) → (xs : List A) → All P xs → All Q xs
All-imp P Q h [] all = tt
All-imp P Q h (x ∷ xs) (px, all) = (h x px, All-imp P Q h xs all)
