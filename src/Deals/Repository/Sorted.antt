-- ===== src/Deals/Repository/Sorted.antt =====
-- `order_by`, which stands for ORDER BY.
use ganji.Base.{
  ℕ, suc, ◌≡◌, refl, Bool, true, false, ◌&&◌, List, [], ◌∷◌, filter, All, arith, if◌then◌else◌,
}
use ganji.Deals.Types.{Deal}
use ganji.Deals.Repository.{insert_by, order_by, newest_first}
use ganji.Deals.Repository.Order.{All-insert_by, All-imp}

-- No row comes after one that it should come before.
abbrev pub IsOrdered : {A : Type 0} → (A → A → Bool) → List A → Type 0
IsOrdered before [] = Unit
IsOrdered before (a ∷ as') = All (λ b. before b a ≡ false) as' × IsOrdered before as'

-- An order by a key: transitive and with no cycles, as far as sorting needs it.
abbrev pub IsOrder : {A : Type 0} → (A → A → Bool) → Type 0
IsOrder {A} before =
    ((a b : A) → before a b ≡ true → before b a ≡ false)
    × ((a b c : A) → before b a ≡ false → before c b ≡ false → before c a ≡ false)

module _ {A : Type 0} (before : A → A → Bool) (order : IsOrder before) where
  insert-IsOrdered :
      (a : A) (xs : List A) → IsOrdered before xs → IsOrdered before (insert_by before a xs)
  insert-IsOrdered a [] h = (tt, tt)
  insert-IsOrdered a (x ∷ xs) (first, rest) = pick (before x a) refl (insert-IsOrdered a xs rest)
    where
      pick :
          (b : Bool)
          → before x a ≡ b
          → IsOrdered before (insert_by before a xs)
          → IsOrdered before (if b then x ∷ insert_by before a xs else a ∷ x ∷ xs)
      pick true e h = (All-insert_by (λ y. before y x ≡ false) before a xs (order.0 x a e) first, h)
      pick false e h = (
        (e, All-imp _ (λ y. before y a ≡ false) (λ y f. order.1 a x y e f) xs first),
        (first, rest),
      )

  pub order_by-IsOrdered : (xs : List A) → IsOrdered before (order_by before xs)
  unfolding order_by
  order_by-IsOrdered [] = tt
  order_by-IsOrdered (x ∷ xs) = insert-IsOrdered x (order_by before xs) (order_by-IsOrdered xs)

-- How often rows of a kind occur.
abbrev pub occurrences : {A : Type 0} → (A → Bool) → List A → ℕ
occurrences p [] = 0
occurrences p (x ∷ xs) = let rest = occurrences p xs in if p x then suc rest else rest

module _ {A : Type 0} (before : A → A → Bool) (p : A → Bool) where
  insert-occurrences :
      (a : A) (xs : List A) → occurrences p (insert_by before a xs) ≡ occurrences p (a ∷ xs)
  insert-occurrences a [] = refl
  insert-occurrences a (x ∷ xs) = pick (before x a) (insert-occurrences a xs)
    where
      pick :
          (b : Bool)
          → occurrences p (insert_by before a xs) ≡ occurrences p (a ∷ xs)
          → occurrences p (if b then x ∷ insert_by before a xs else a ∷ x ∷ xs)
            ≡ occurrences p (a ∷ x ∷ xs)
      pick true h = ground (arith, h)
      pick false h = refl

  pub order_by-occurrences : (xs : List A) → occurrences p (order_by before xs) ≡ occurrences p xs
  unfolding order_by
  order_by-occurrences [] = refl
  order_by-occurrences (x ∷ xs) =
      ground (arith, insert-occurrences x (order_by before xs), order_by-occurrences xs)

pub occurrences-filter :
    {A : Type 0} (p q : A → Bool) (xs : List A)
    → occurrences p (filter q xs) ≡ occurrences (λ x. p x && q x) xs
occurrences-filter p q [] = refl
occurrences-filter p q (x ∷ xs) = ground (arith, occurrences-filter p q xs)

newest-IsOrder : IsOrder newest_first
newest-IsOrder = ((λ a b h. ground arith), (λ a b c h h'. ground arith))

pub order_by-newest_first :
    (ds : List Deal) (p : Deal → Bool)
    → IsOrdered newest_first (order_by newest_first ds)
      × (occurrences p (order_by newest_first ds) ≡ occurrences p ds)
order_by-newest_first ds p =
    (order_by-IsOrdered newest_first newest-IsOrder ds, order_by-occurrences newest_first p ds)
