-- ===== src/Cv/Requests/Kept.antt =====
-- Properties of the tables through the requests of cv/service.go, from the statements up.
use ganji.Base.{
  ℕ, ◌≡◌, refl, inl, inr, Bool, true, false, ◌&&◌, Bool-cases, Option, none, some, List, [], ◌∷◌,
  map, filter, All, Text, text_eq,
}
use ganji.Base.Hex.{encode_hex}
use ganji.Base.Action.{
  Outcome, ok, err, Post, Triple, Keeps, Triple-bind, Triple-or_raise, Triple-assume, Triple-from,
  Keeps-pure, Keeps-bind, keeping,
}
use ganji.Base.Database.{step, reading, IsStable, Triple-statement, Keeps-statement, Keeps-step}
use ganji.Deals.Types.{Artifact}
use ganji.Cv.{
  Anchor, AnchorCandidate, OtsPendingAnchor, Error, db_failed, Tables, World, Env, Config, Upgrade,
  statement,
}
use ganji.Cv.Repository
use ganji.Cv.Repository.{candidate, insert_anchor_row, update_ots, update_score}
use ganji.Cv.Service
use ganji.Cv.Requests.{Request, serve}

-- `I` is kept by each statement, where an artifact to anchor satisfies `C`.
pub record IsKept (cfg : Config) (env : Env) (C : AnchorCandidate → Type 0) (I : Tables → Type 0)
    : Type 0 where
  pub stable : IsStable env.others I
  pub listed : (t : Tables) → I t → All (λ (x : Artifact). C (candidate x)) t.artifacts
  pub inserted :
      (n : ℕ) (c : AnchorCandidate) (content : Text)
      → C c
      → env.blob n c.storage_key ≡ some content
      → (a : Anchor) → a.artifact_id ≡ c.artifact_id
      → a.hash ≡ encode_hex (cfg.sha256 content)
      → (t : Tables) → I t
      → I (insert_anchor_row a t).1
  pub updated :
      (id proof : Text) (submitted confirmed : Option ℕ) (t : Tables)
      → I t
      → I (update_ots id proof submitted confirmed t).1
  pub scored : (id : Text) (score : ℕ) (t : Tables) → I t → I (update_score id score t).1
  pub submitted : (xs : List (Text × Text)) (t : Tables) → I t → I (record t { submissions = xs })

All-selected :
    (C : AnchorCandidate → Type 0) (p : Artifact → Bool) (xs : List Artifact)
    → All (λ x. C (candidate x)) xs
    → All C (map candidate (filter p xs))
All-selected C p [] h = tt
All-selected C p (x ∷ xs) (c, h) = elim (Bool-cases (p x)) [
  | inl e ↦ rw e (c, All-selected C p xs h)
  | inr e ↦ rw e (All-selected C p xs h)
]

module _ (cfg : Config) (env : Env) (C : AnchorCandidate → Type 0) (I : Tables → Type 0)
    (kept : IsKept cfg env C I) where
  abbrev In : World → Type 0
  In w = I w.tables

  Keeps-run :
      {A : Type 0} (run : Tables → Outcome Error A × Tables)
      → ((t : Tables) → I t → I (run t).1)
      → Keeps In (statement env run)
  Keeps-run run h = Keeps-statement db_failed env.db_fails env.others I kept.stable run h

  Keeps-reading : {A : Type 0} (f : Tables → Outcome Error A) → Keeps In (statement env (reading f))
  Keeps-reading f = Keeps-run (reading f) (λ t h. h)

  Keeps-update :
      (id proof : Text) (s c : Option ℕ) → Keeps In (statement env (update_ots id proof s c))
  Keeps-update id proof s c = Keeps-run (update_ots id proof s c) (kept.updated id proof s c)

  Keeps-score : (id : Text) (score : ℕ) → Keeps In (statement env (update_score id score))
  Keeps-score id score = Keeps-run (update_score id score) (kept.scored id score)

  Keeps-ticking : Keeps {E = Error} In step
  Keeps-ticking = Keeps-step I

  Keeps-start : (id digest : Text) → Keeps In (Service.start_submission cfg id digest)
  unfolding Service.start_submission
  Keeps-start id digest = record { at = λ w h. go cfg.has_ots_client w.tables h }
    where
      go : (b : Bool) (t : Tables) → I t → I (Service.start_if b id digest t)
      go true t h = kept.submitted _ t h
      go false t h = h

  Keeps-dequeue : (n : ℕ) → Keeps In (Service.dequeue n)
  unfolding Service.dequeue
  Keeps-dequeue n = record { at = λ w h. go (Service.take_nth n w.tables.submissions) w.tables h }
    where
      go :
          (o : Option ((Text × Text) × List (Text × Text))) (t : Tables)
          → I t
          → I (Service.dequeue_from t o).1
      go none t h = h
      go (some (x, rest)) t h = kept.submitted rest t h

  ruleset leaves =
      (keeping, Keeps-ticking, Keeps-reading, Keeps-update, Keeps-score, Keeps-start, Keeps-dequeue)

  insert_anchors-In :
      (cs : List AnchorCandidate) → All C cs → Keeps In (Service.insert_anchors cfg env cs)
  unfolding Service.insert_anchors Repository.insert_anchor
  insert_anchors-In [] h = Keeps-pure tt
  insert_anchors-In (c ∷ cs) (ready, h) = Keeps-bind Keeps-ticking λ k.
      Triple-or_raise (env.blob k c.storage_key) _ _ (λ w i e. i)
        λ content e.
          Keeps-bind
            (Keeps-bind Keeps-ticking
              λ n. Keeps-run (insert_anchor_row _) (kept.inserted k c content ready e _ refl refl))
            λ done.
              Keeps-bind (Keeps-start c.artifact_id (cfg.sha256 content))
                λ started. insert_anchors-In cs h

  -- The candidates that a query lists are ready.
  listed-C :
      (p : Tables → Artifact → Bool)
      → Triple In
          (statement env (reading (λ t. ok (map candidate (filter (p t) t.artifacts)))))
          (λ cs w. All C cs × In w)
          (λ _. In)
  listed-C p =
      Triple-statement db_failed env.db_fails env.others I kept.stable (λ cs t. All C cs × I t)
        (λ _. I) _ (λ t i. i) (λ t i. (All-selected C (p t) t.artifacts (kept.listed t i), i))

  heal-In : (freelancer : Text) → Keeps In (Service.heal_anchors cfg env freelancer)
  unfolding Service.heal_anchors Repository.list_unanchored_released_artifacts
  heal-In freelancer =
      Triple-bind (λ cs w. All C cs × In w) (listed-C (Repository.is_unanchored freelancer))
        λ cs.
          Triple-assume (λ w x. x.0) λ ready. Triple-from (λ w x. x.1) (insert_anchors-In cs ready)

  anchor-In :
      (freelancer deal : Text) → Keeps In (Service.anchor_released_deal cfg env freelancer deal)
  unfolding Service.anchor_released_deal Repository.list_unanchored_deal_artifacts
  anchor-In freelancer deal =
      Triple-bind (λ cs w. All C cs × In w)
        (listed-C (λ t x. Repository.is_unanchored freelancer t x && text_eq x.deal_id deal))
        λ cs.
          Triple-assume (λ w x. x.0) λ ready. Triple-from (λ w x. x.1) (insert_anchors-In cs ready)

  refresh-In :
      (account : Text) (current : ℕ)
      → Keeps In (Service.refresh_trust_score cfg env account current)
  unfolding Service.refresh_trust_score Repository.count_released_deals
      Repository.update_trust_score
  refresh-In account current = search leaves depth 30

  profile-In : (slug : Text) → Keeps In (Service.get_profile cfg env slug)
  unfolding Service.get_profile Repository.get_profile Repository.list_entries
  profile-In slug = search (leaves, heal-In, refresh-In) depth 40

  verify-In : (slug id : Text) → Keeps In (Service.verify_entry cfg env slug id)
  unfolding Service.verify_entry Repository.get_entry_for_verify
  verify-In slug id = search leaves depth 30

  run-In : (id digest : Text) → Keeps In (Service.run_submission cfg env id digest)
  unfolding Service.run_submission Repository.update_anchor_ots
  run-In id digest = search leaves depth 30

  option-In : (o : Option (Text × Text)) → Keeps In (Service.run_option cfg env o)
  option-In none = Keeps-pure tt
  option-In (some (id, digest)) = run-In id digest

  submission-In : (n : ℕ) → Keeps In (Service.run_nth_submission cfg env n)
  unfolding Service.run_nth_submission
  submission-In n = search (leaves, option-In) depth 20

  store-In : (a : OtsPendingAnchor) (u : Upgrade) → Keeps In (Service.store_upgrade cfg env a u)
  unfolding Repository.update_anchor_ots
  store-In a (Upgrade.upgraded proof) = search leaves depth 20
  store-In a Upgrade.not_ready = Keeps-pure tt
  store-In a Upgrade.failed = Keeps-pure tt

  pending-In : (as' : List OtsPendingAnchor) → Keeps In (Service.upgrade_pending cfg env as')
  unfolding Service.upgrade_pending
  pending-In [] = Keeps-pure tt
  pending-In (a ∷ rest) =
      Keeps-bind Keeps-ticking
        λ k. Keeps-bind (store-In a (env.upgrade k a.ots_proof)) λ _. pending-In rest

  upgrade-In : Keeps In (Service.upgrade_ots_proofs cfg env)
  unfolding Service.upgrade_ots_proofs Repository.list_pending_ots_anchors
  upgrade-In = search (leaves, pending-In) depth 20

  after : {A : Type 0} (o : Outcome Error A × World) → Post (λ _. In) (λ _. In) o → In o.1
  after (ok a, w) h = h
  after (err e, w) h = h

  pub serve-In : (r : Request) (w : World) → I w.tables → I (serve cfg env r w).tables
  unfolding serve
  serve-In (Request.profile slug) w h = after _ ((profile-In slug).at w h)
  serve-In (Request.verify slug id) w h = after _ ((verify-In slug id).at w h)
  serve-In (Request.anchor freelancer deal) w h = after _ ((anchor-In freelancer deal).at w h)
  serve-In (Request.submission n) w h = after _ ((submission-In n).at w h)
  serve-In Request.upgrade w h = after _ (upgrade-In.at w h)
