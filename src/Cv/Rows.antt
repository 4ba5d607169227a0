-- ===== src/Cv/Rows.antt =====
-- What the JOINs of cv/repository.go find: rows of the tables that go together.
use ganji.Base.{
  ◌≡◌, refl, ◌⊎◌, inl, inr, Bool, true, Bool-cases, Option, none, some, List, [], ◌∷◌, find, All,
  text_eq, arith,
}
use ganji.Deals.Types.{Artifact, Deal}
use ganji.Cv.{User, Anchor, Tables}
use ganji.Cv.Repository.{Joined, with_user, with_deal, with_artifact, join, joined, keep_some}

abbrev pub Member : {A : Type 0} → A → List A → Type 0
Member a [] = ⊥
Member a (x ∷ xs) = (a ≡ x) ⊎ Member a xs

abbrev pub OnSome : {A : Type 0} → (A → Type 0) → Option A → Type 0
OnSome P none = Unit
OnSome P (some a) = P a

pub found :
    {A : Type 0} (P : A → Type 0) (p : A → Bool) (xs : List A)
    → All P xs
    → OnSome (λ a. P a × (p a ≡ true)) (find p xs)
found P p [] h = tt
found P p (x ∷ xs) (px, h) = elim (Bool-cases (p x)) [
  | inl t ↦ rw t (px, t)
  | inr f ↦ rw f (found P p xs h)
]

All-weaken :
    {A : Type 0} (P Q : A → Type 0) (xs : List A) → ((a : A) → P a → Q a) → All P xs → All Q xs
All-weaken P Q [] f h = tt
All-weaken P Q (x ∷ xs) f (p, h) = (f x p, All-weaken P Q xs f h)

All-Member : {A : Type 0} (xs : List A) → All (λ a. Member a xs) xs
All-Member [] = tt
All-Member (x ∷ xs) = (inl refl, All-weaken _ _ xs (λ a m. inr m) (All-Member xs))

-- The four rows are rows of the tables, each named by the one before it.
pub record IsRow (t : Tables) (j : Joined) : Type 0 where
  pub anchor : Member j.anchor t.anchors
  pub artifact : Member j.artifact t.artifacts
  pub deal : Member j.deal t.deals
  pub user : Member j.user t.users
  pub of_anchor : j.artifact.id ≡ j.anchor.artifact_id
  pub of_artifact : j.deal.id ≡ j.artifact.deal_id
  pub of_deal : j.user.id ≡ j.deal.freelancer_id

module _ (t : Tables) where
  with_user-IsRow :
      (a : Anchor) (x : Artifact) (d : Deal) (o : Option User)
      → Member a t.anchors
      → Member x t.artifacts
      → Member d t.deals
      → (x.id ≡ a.artifact_id)
      → (d.id ≡ x.deal_id)
      → OnSome (λ (u : User). Member u t.users × (text_eq u.id d.freelancer_id ≡ true)) o
      → OnSome (IsRow t) (with_user a x d o)
  with_user-IsRow a x d none ma mx md ex ed h = tt
  with_user-IsRow a x d (some u) ma mx md ex ed (mu, eu) = record {
    anchor = ma;
    artifact = mx;
    deal = md;
    user = mu;
    of_anchor = ex;
    of_artifact = ed;
    of_deal = ground arith;
  }

  with_deal-IsRow :
      (a : Anchor) (x : Artifact) (o : Option Deal)
      → Member a t.anchors
      → Member x t.artifacts
      → (x.id ≡ a.artifact_id)
      → OnSome (λ (d : Deal). Member d t.deals × (text_eq d.id x.deal_id ≡ true)) o
      → OnSome (IsRow t) (with_deal t a x o)
  with_deal-IsRow a x none ma mx ex h = tt
  with_deal-IsRow a x (some d) ma mx ex (md, ed) =
      with_user-IsRow a x d _ ma mx md ex (ground arith)
        (found _ (λ (u : User). text_eq u.id d.freelancer_id) t.users (All-Member t.users))

  with_artifact-IsRow :
      (a : Anchor) (o : Option Artifact)
      → Member a t.anchors
      → OnSome (λ (x : Artifact). Member x t.artifacts × (text_eq x.id a.artifact_id ≡ true)) o
      → OnSome (IsRow t) (with_artifact t a o)
  with_artifact-IsRow a none ma h = tt
  with_artifact-IsRow a (some x) ma (mx, ex) =
      with_deal-IsRow a x _ ma mx (ground arith)
        (found _ (λ (d : Deal). text_eq d.id x.deal_id) t.deals (All-Member t.deals))

  pub All-keep :
      (P : Joined → Type 0) (o : Option Joined) (js : List Joined)
      → OnSome P o
      → All P js
      → All P (keep_some o js)
  All-keep P none js h all = all
  All-keep P (some j) js h all = (h, all)

  joined-rows : (xs : List Anchor) → All (λ a. Member a t.anchors) xs → All (IsRow t) (joined t xs)
  joined-rows [] h = tt
  joined-rows (a ∷ xs) (m, h) =
      All-keep (IsRow t) (join t a) (joined t xs)
        (with_artifact-IsRow a _ m (
          found _ (λ (x : Artifact). text_eq x.id a.artifact_id) t.artifacts
            (All-Member t.artifacts)))
        (joined-rows xs h)

  pub joined-IsRow : All (IsRow t) (joined t t.anchors)
  joined-IsRow = joined-rows t.anchors (All-Member t.anchors)

pub All-both :
    {A : Type 0} (P Q : A → Type 0) (xs : List A) → All P xs → All Q xs → All (λ a. P a × Q a) xs
All-both P Q [] h k = tt
All-both P Q (x ∷ xs) (p, h) (q, k) = ((p, q), All-both P Q xs h k)
