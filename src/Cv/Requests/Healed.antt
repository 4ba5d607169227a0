-- ===== src/Cv/Requests/Healed.antt =====
-- `healAnchors` of cv/service.go and the rows that it writes.
use ganji.Base.{
  ℕ, ◌≡◌, refl, sym, subst, inl, inr, Bool, true, false, Bool-cases, none, some, List, [], ◌∷◌, map,
  any, find, filter, All, Text, text_eq, arith, if◌then◌else◌,
}
use ganji.Base.Distinct.{All-imp}
use ganji.Base.Action.{Outcome, ok, err, Post, Triple, Triple-bind, Triple-pure, Triple-or_raise}
use ganji.Base.Database.{Triple-quiet, Triple-step}
use ganji.Deals.Types.{Artifact, Deal}
use ganji.Cv.{AnchorCandidate, Error, db_failed, Tables, World, Env, Config}
use ganji.Cv.Repository
use ganji.Cv.Repository.{candidate, has_artifact, insert_anchor_row, is_unanchored, is_released_by}
use ganji.Cv.Service
use ganji.Cv.Requests.Due.{HasAnchor, is_of, IsDue, Due, Done, text_eq_refl, insert-Due, none_left}

-- Nothing fails, and no other request writes meanwhile.
pub record Works (env : Env) : Type 0 where
  pub no_failure : (n : ℕ) → env.db_fails n ≡ false
  pub alone : (n : ℕ) (t : Tables) → env.others n t ≡ t
  pub readable : (n : ℕ) (key : Text) → (content : Text) × (env.blob n key ≡ some content)

module _ (cfg : Config) (env : Env) (works : Works env) (t : Tables) (xs : List Text) where
  abbrev Ready : List AnchorCandidate → World → Type 0
  Ready cs w = Due t xs cs w.tables

  start-Ready :
      (cs : List AnchorCandidate) (id digest : Text)
      → Triple (Ready cs) (Service.start_submission cfg id digest) (λ _. Ready cs) (λ _ _. ⊥)
  unfolding Service.start_submission
  start-Ready cs id digest = record { at = λ w h. go cfg.has_ots_client w.tables h }
    where
      go : (b : Bool) (w : Tables) → Due t xs cs w → Due t xs cs (Service.start_if b id digest w)
      go true w h = h
      go false w h = h

  unreadable : (n : ℕ) (key : Text) → env.blob n key ≡ none → ⊥
  unreadable n key e = let (content, e') = works.readable n key in ground arith

  insert_anchors-Ready :
      (cs : List AnchorCandidate)
      → Triple (Ready cs) (Service.insert_anchors cfg env cs) (λ _ w. Done t xs w.tables) (λ _ _. ⊥)
  unfolding Service.insert_anchors Repository.insert_anchor
  insert_anchors-Ready [] = Triple-pure tt (λ w d. (d.0, All-imp _ _ xs (none_left w.tables) d.1))
  insert_anchors-Ready (c ∷ cs) =
      Triple-bind (λ _. Ready (c ∷ cs)) (Triple-step (Due t xs (c ∷ cs)) _)
        λ k.
          Triple-or_raise (env.blob k c.storage_key) _ _ (λ w h e. unreadable k c.storage_key e)
            λ content e.
              Triple-bind (λ _. Ready cs)
                (Triple-bind (λ _. Ready (c ∷ cs)) (Triple-step (Due t xs (c ∷ cs)) _)
                  λ n.
                    Triple-quiet db_failed env.db_fails env.others _ works.no_failure works.alone
                      (λ w d. insert-Due t xs c cs _ w.tables refl d))
                λ done.
                  Triple-bind (λ _. Ready cs) (start-Ready cs c.artifact_id (cfg.sha256 content))
                    λ started. insert_anchors-Ready cs

  heal-Done :
      (freelancer : Text)
      → All (IsDue (map candidate (filter (is_unanchored freelancer t) t.artifacts)) t) xs
      → Triple
          (λ w. w.tables ≡ t)
          (Service.heal_anchors cfg env freelancer)
          (λ _ w. Done t xs w.tables)
          (λ _ _. ⊥)
  unfolding Service.heal_anchors Repository.list_unanchored_released_artifacts
  heal-Done freelancer due =
      Triple-bind Ready
        (Triple-quiet db_failed env.db_fails env.others _ works.no_failure works.alone
          (λ w e. rw e ((refl, refl), due)))
        insert_anchors-Ready

-- The artifacts of the freelancer's released deals.
abbrev of_released : Text → Tables → List Artifact → List Text
of_released freelancer t [] = []
of_released freelancer t (x ∷ xs) =
    let rest = of_released freelancer t xs in
    if is_released_by freelancer (find (λ (d : Deal). text_eq d.id x.deal_id) t.deals)
    then x.id ∷ rest
    else rest

any_more :
    (q : AnchorCandidate → Bool) (p : Artifact → Bool) (x : Artifact) (xs : List Artifact)
    → any q (map candidate (filter p xs)) ≡ true
    → any q (map candidate (filter p (x ∷ xs))) ≡ true
any_more q p x xs h = elim (Bool-cases (p x)) [ inl e ↦ rw (e, h) (ground arith) | inr e ↦ rw e h ]

IsDue-more :
    (p : Artifact → Bool) (x : Artifact) (xs : List Artifact) (t : Tables) (y : Text)
    → IsDue (map candidate (filter p xs)) t y
    → IsDue (map candidate (filter p (x ∷ xs))) t y
IsDue-more p x xs t y (inl h) = inl h
IsDue-more p x xs t y (inr e) = inr (any_more (is_of y) p x xs e)

module _ (P : Text → Type 0) where
  pick :
      (b : Bool) (x : Text) (xs : List Text)
      → (b ≡ true → P x)
      → All P xs
      → All P (if b then x ∷ xs else xs)
  pick true x xs h all = (h refl, all)
  pick false x xs h all = all

  unpick :
      (b : Bool) (x : Text) (xs : List Text)
      → All P (if b then x ∷ xs else xs)
      → (b ≡ true → P x) × All P xs
  unpick true x xs (h, all) = ((λ e. h), all)
  unpick false x xs all = ((λ e. absurd (ground arith)), all)

listed_first :
    (p : Artifact → Bool) (x : Artifact) (xs : List Artifact)
    → p x ≡ true
    → any (is_of x.id) (map candidate (filter p (x ∷ xs))) ≡ true
listed_first p x xs e = rw (e, text_eq_refl x.id) refl

first-IsDue :
    (freelancer : Text) (t : Tables) (x : Artifact) (xs : List Artifact)
    → is_released_by freelancer (find (λ (d : Deal). text_eq d.id x.deal_id) t.deals) ≡ true
    → IsDue (map candidate (filter (is_unanchored freelancer t) (x ∷ xs))) t x.id
first-IsDue freelancer t x xs r = elim (Bool-cases (any (has_artifact x.id) t.anchors)) [
  | inl h ↦ inl h
  | inr n ↦
      let missing : is_unanchored freelancer t x ≡ true = rw (r, n) refl in
      inr (listed_first (is_unanchored freelancer t) x xs missing)
]

-- Each of them has an anchor or is listed.
All-IsDue :
    (freelancer : Text) (t : Tables) (xs : List Artifact)
    → All
        (IsDue (map candidate (filter (is_unanchored freelancer t) xs)) t)
        (of_released freelancer t xs)
All-IsDue freelancer t [] = tt
All-IsDue freelancer t (x ∷ xs) =
    pick _ (is_released_by freelancer (find (λ (d : Deal). text_eq d.id x.deal_id) t.deals)) x.id
      (of_released freelancer t xs) (first-IsDue freelancer t x xs)
      (All-imp _ _ (of_released freelancer t xs) (IsDue-more (is_unanchored freelancer t) x xs t)
        (All-IsDue freelancer t xs))

not_missing :
    (freelancer : Text) (t w : Tables) (x : Artifact)
    → w.deals ≡ t.deals
    → (is_released_by freelancer (find (λ (d : Deal). text_eq d.id x.deal_id) t.deals) ≡ true
        → HasAnchor x.id w)
    → is_unanchored freelancer w x ≡ false
not_missing freelancer t w x e h =
    rw e
      (elim (Bool-cases
        (is_released_by freelancer (find (λ (d : Deal). text_eq d.id x.deal_id) t.deals))) [
          | inl r ↦ rw (r, h r) refl
          | inr f ↦ rw f refl
        ])

-- None of them is without an anchor.
none_missing :
    (freelancer : Text) (t w : Tables) (xs : List Artifact)
    → w.deals ≡ t.deals
    → All (λ x. HasAnchor x w) (of_released freelancer t xs)
    → All (λ x. is_unanchored freelancer w x ≡ false) xs
none_missing freelancer t w [] e h = tt
none_missing freelancer t w (x ∷ xs) e h =
    let released : Bool =
      is_released_by freelancer (find (λ (d : Deal). text_eq d.id x.deal_id) t.deals) in
    let (here, rest) = unpick (λ y. HasAnchor y w) released x.id (of_released freelancer t xs) h in
    (not_missing freelancer t w x e here, none_missing freelancer t w xs e rest)

-- Where nothing fails and no other request writes meanwhile, healing a CV succeeds, and leaves no artifact
-- of a released deal of the freelancer without an anchor.
pub heal_anchors_complete :
    (cfg : Config) (env : Env)
    → Works env
    → (freelancer : Text) (w : World)
    → ((Service.heal_anchors cfg env freelancer w).0 ≡ ok tt)
      × All
          (λ x.
            is_unanchored freelancer (Service.heal_anchors cfg env freelancer w).1.tables x ≡ false)
          (Service.heal_anchors cfg env freelancer w).1.tables.artifacts
heal_anchors_complete cfg env works freelancer w =
    result (Service.heal_anchors cfg env freelancer w) (
      (heal-Done cfg env works w.tables (of_released freelancer w.tables w.tables.artifacts)
          freelancer (All-IsDue freelancer w.tables w.tables.artifacts)).at
        w refl)
  where
    result :
        (o : Outcome Error (Unit {0}) × World)
        → Post
            (λ _ w'. Done w.tables (of_released freelancer w.tables w.tables.artifacts) w'.tables)
            (λ _ _. ⊥)
            o
        → (o.0 ≡ ok tt)
          × All (λ x. is_unanchored freelancer o.1.tables x ≡ false) o.1.tables.artifacts
    result (ok u, w') ((deals, artifacts), h) = (
      refl,
      subst (All (λ x. is_unanchored freelancer w'.tables x ≡ false)) (sym artifacts)
          (none_missing freelancer w.tables w'.tables w.tables.artifacts deals h),
    )
    result (err e, w') x = absurd x
