-- ===== src/Cv/Requests/Anchors.antt =====
-- The rows of `cv_entries` through the requests of package cv.
use ganji.Base.{
  ℕ, ◌≡◌, refl, sym, ap, ◌∙◌, inl, inr, Bool, true, false, Bool-cases, Option, some, List, [], ◌∷◌,
  map, any, find, All, Text, text_eq, arith,
}
use mathlib.Core.Option
use ganji.Base.Distinct.{Distinct, Distinct-map}
use ganji.Base.Database.{IsStable}
use ganji.Deals.Types.{Artifact}
use ganji.Cv.{Anchor, Tables, World, Env, Config}
use ganji.Cv.Repository.{has_artifact, insert_anchor_row, set_ots, update_ots}
use ganji.Cv.Requests.{Request, serve, serve_all}
use ganji.Cv.Requests.Kept.{IsKept, serve-In}

-- The artifact has an anchor with this hash.
abbrev HasHash : Text → Text → List Anchor → Type 0
HasHash artifact_id hash anchors =
    (a : Anchor) × (find (has_artifact artifact_id) anchors ≡ some a) × (a.hash ≡ hash)

-- Each artifact has one anchor at most, and this one has its hash.
abbrev pub IsAnchored : Text → Text → Tables → Type 0
IsAnchored artifact_id hash t =
    Distinct (λ (a : Anchor). a.artifact_id) t.anchors × HasHash artifact_id hash t.anchors

found-any :
    (p : Anchor → Bool) (xs : List Anchor) (a : Anchor) → find p xs ≡ some a → any p xs ≡ true
found-any p [] a e = absurd (ground arith)
found-any p (x ∷ xs) a e = ground (arith, found-any p xs a)

set_ots-artifact :
    (id : Text) (p : Option Text) (s c : Option ℕ) (a : Anchor)
    → (set_ots id p s c a).artifact_id ≡ a.artifact_id
set_ots-artifact id p s c a = ground arith

set_ots-hash :
    (id : Text) (p : Option Text) (s c : Option ℕ) (a : Anchor) → (set_ots id p s c a).hash ≡ a.hash
set_ots-hash id p s c a = ground arith

find_hit :
    (p : Anchor → Bool) (x : Anchor) (xs : List Anchor) → p x ≡ true → find p (x ∷ xs) ≡ some x
find_hit p x xs t = rw t refl

find_miss :
    (p : Anchor → Bool) (x : Anchor) (xs : List Anchor) → p x ≡ false → find p (x ∷ xs) ≡ find p xs
find_miss p x xs f = rw f refl

module _ (g : Anchor → Anchor) (same : (a : Anchor) → (g a).artifact_id ≡ a.artifact_id) where
  find-map :
      (id : Text) (xs : List Anchor) (a : Anchor)
      → find (has_artifact id) xs ≡ some a
      → find (has_artifact id) (map g xs) ≡ some (g a)
  find-map id [] a e = absurd (ground arith)
  find-map id (x ∷ xs) a e =
      let kept : has_artifact id (g x) ≡ has_artifact id x = ap (λ k. text_eq k id) (same x) in
      elim (Bool-cases (has_artifact id x)) [
        | inl t ↦
            find_hit (has_artifact id) (g x) (map g xs) (kept ∙ t)
            ∙ ap (Option.map g) (sym (find_hit (has_artifact id) x xs t) ∙ e)
        | inr f ↦
            find_miss (has_artifact id) (g x) (map g xs) (kept ∙ f)
            ∙ find-map id xs a (sym (find_miss (has_artifact id) x xs f) ∙ e)
      ]

insert-HasHash :
    (id hash : Text) (row : Anchor) (t : Tables)
    → any (has_artifact row.artifact_id) t.anchors ≡ false
    → HasHash id hash t.anchors
    → HasHash id hash (row ∷ t.anchors)
insert-HasHash id hash row t new (a, found, e) = elim (Bool-cases (text_eq row.artifact_id id)) [
  | inl same ↦
      let here : row.artifact_id ≡ id = ground arith in
      absurd (
        ground (
          arith,
          found-any (has_artifact id) t.anchors a found,
          ap (λ x. any (has_artifact x) t.anchors) here,
        ))
  | inr other ↦ (a, rw other found, e)
]

insert-IsAnchored :
    (id hash : Text) (row : Anchor) (t : Tables)
    → IsAnchored id hash t
    → IsAnchored id hash (insert_anchor_row row t).1
insert-IsAnchored id hash row t (single, h) =
    elim (Bool-cases (any (has_artifact row.artifact_id) t.anchors)) [
      | inl e ↦ rw e (single, h)
      | inr e ↦ rw e ((e, single), insert-HasHash id hash row t e h)
    ]

update-IsAnchored :
    (id hash x proof : Text) (s c : Option ℕ) (t : Tables)
    → IsAnchored id hash t
    → IsAnchored id hash (update_ots x proof s c t).1
update-IsAnchored id hash x proof s c t (single, (a, found, e)) = (
  Distinct-map (set_ots x (some proof) s c) (λ a. a.artifact_id)
      (set_ots-artifact x (some proof) s c) t.anchors single,
  (
    set_ots x (some proof) s c a,
    find-map (set_ots x (some proof) s c) (set_ots-artifact x (some proof) s c) id t.anchors a
        found,
    set_ots-hash x (some proof) s c a ∙ e,
  ),
)

any_candidate : (xs : List Artifact) → All (λ x. Unit {0}) xs
any_candidate [] = tt
any_candidate (x ∷ xs) = (tt, any_candidate xs)

IsAnchored-IsKept :
    (cfg : Config) (env : Env) (id hash : Text)
    → IsStable env.others (IsAnchored id hash)
    → IsKept cfg env (λ _. Unit {0}) (IsAnchored id hash)
IsAnchored-IsKept cfg env id hash stable = record {
  stable = stable;
  listed = λ t h. any_candidate t.artifacts;
  inserted = λ n c content ready e row here digest t h. insert-IsAnchored id hash row t h;
  updated = λ x proof s c t h. update-IsAnchored id hash x proof s c t h;
  scored = λ x score t h. h;
  submitted = λ xs t h. h;
}

module _ (cfg : Config) (id hash : Text) where
  abbrev pub AllStable : List (Env × Request) → Type 0
  AllStable [] = Unit
  AllStable ((env, r) ∷ rest) = IsStable env.others (IsAnchored id hash) × AllStable rest

  -- Whatever requests are served one after the other, the anchor of an artifact stays with its hash, and no
  -- artifact gets a second one. Other requests are taken to keep this.
  pub serve_all-IsAnchored :
      (rs : List (Env × Request))
      → AllStable rs
      → (w : World) → IsAnchored id hash w.tables
      → IsAnchored id hash (serve_all cfg rs w).tables
  unfolding serve_all
  serve_all-IsAnchored [] stable w h = h
  serve_all-IsAnchored ((env, r) ∷ rest) (stable, later) w h =
      serve_all-IsAnchored rest later (serve cfg env r w) (
        serve-In cfg env (λ _. Unit {0}) (IsAnchored id hash)
          (IsAnchored-IsKept cfg env id hash stable) r w h)
