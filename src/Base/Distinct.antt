-- ===== src/Base/Distinct.antt =====
-- Rows whose keys differ, and what filters and updates keep.
use mathlib.Core.Path.{◌≡◌, refl, ◌∙◌}
use mathlib.Core.Logic.{inl, inr}
use mathlib.Core.Bool.{Bool, false}
use mathlib.Core.List.{List, [], ◌∷◌, map}
use native.Mathlib.Omega.{arith}
use ganji.Base.Tests.{Bool-cases}
use ganji.Base.Lists.{any, filter, All}
use ganji.Base.Strings.{Text, text_eq}

-- The keys of the rows differ.
abbrev pub Distinct : {A : Type 0} → (A → Text) → List A → Type 0
Distinct key [] = Unit
Distinct key (x ∷ xs) = (any (λ y. text_eq (key y) (key x)) xs ≡ false) × Distinct key xs

module _ {A : Type 0} where
  any-filter : (p q : A → Bool) (xs : List A) → any p xs ≡ false → any p (filter q xs) ≡ false
  any-filter p q [] h = refl
  any-filter p q (x ∷ xs) h = ground (arith, any-filter p q xs)

  pub Distinct-filter :
      (key : A → Text) (q : A → Bool) (xs : List A) → Distinct key xs → Distinct key (filter q xs)
  Distinct-filter key q [] h = tt
  Distinct-filter key q (x ∷ xs) (new, h) = elim (Bool-cases (q x)) [
    | inl e ↦ rw e (any-filter (λ y. text_eq (key y) (key x)) q xs new, Distinct-filter key q xs h)
    | inr e ↦ rw e (Distinct-filter key q xs h)
  ]

  pub All-filter : (P : A → Type 0) (q : A → Bool) (xs : List A) → All P xs → All P (filter q xs)
  All-filter P q [] h = tt
  All-filter P q (x ∷ xs) (p, h) = elim (Bool-cases (q x)) [
    | inl e ↦ rw e (p, All-filter P q xs h)
    | inr e ↦ rw e (All-filter P q xs h)
  ]

  pub All-imp : (P Q : A → Type 0) (xs : List A) → ((a : A) → P a → Q a) → All P xs → All Q xs
  All-imp P Q [] le h = tt
  All-imp P Q (x ∷ xs) le (p, h) = (le x p, All-imp P Q xs le h)

  module _ (g : A → A) (key : A → Text) (same : (a : A) → key (g a) ≡ key a) where
    pub any-map :
        (k : Text) (xs : List A)
        → any (λ y. text_eq (key y) k) (map g xs) ≡ any (λ y. text_eq (key y) k) xs
    any-map k [] = refl
    any-map k (x ∷ xs) = rw (same x, any-map k xs) refl

    pub Distinct-map : (xs : List A) → Distinct key xs → Distinct key (map g xs)
    Distinct-map [] h = tt
    Distinct-map (x ∷ xs) (new, h) = (rw (same x) (any-map (key x) xs ∙ new), Distinct-map xs h)

    pub All-map :
        (P : Text → Type 0) (xs : List A)
        → All (λ a. P (key a)) xs
        → All (λ a. P (key a)) (map g xs)
    All-map P [] h = tt
    All-map P (x ∷ xs) (p, h) = (rw (same x) p, All-map P xs h)
