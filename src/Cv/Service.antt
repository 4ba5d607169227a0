-- ===== src/Cv/Service.antt =====
-- The operations of backend/internal/cv/service.go.
use ganji.Base.{
  ℕ, zero, suc, ◌+◌, ◌*◌, Bool, true, false, ◌||◌, Option, none, some, List, [], ◌∷◌, Text, text_eq,
  is_empty, trim_space, ltb, ◌==◌, if◌then◌else◌,
}
use ganji.Base.Int.{pos}
use ganji.Base.Hex.{encode_hex, decode_hex}
use ganji.Base.Action.{Outcome, ok, err, pure, raise_if, or_raise, try, ◌>>=◌, ◌>>◌}
use ganji.Base.Database.{step}
use ganji.Ots
use ganji.Ots.{Verification}
use ganji.Cv.{
  Profile, VerifyResult, AnchorCandidate, EntryRecord, OtsPendingAnchor, Error, invalid_input,
  storage_failed, Tables, Env, Config, Upgrade, upgraded, not_ready, failed, M,
}
use ganji.Cv.Repository

-- `trustScoreBase`, `trustScorePerDeal`, `trustScoreCap`
abbrev trust_score_base : ℕ
trust_score_base = 100

abbrev trust_score_per_deal : ℕ
trust_score_per_deal = 25

abbrev pub trust_score_cap : ℕ
trust_score_cap = 1000

abbrev pub trust_score_of : ℕ → ℕ
trust_score_of n =
    let score = trust_score_base + n * trust_score_per_deal in
    if ltb trust_score_cap score then trust_score_cap else score

abbrev pub start_if : Bool → Text → Text → Tables → Tables
start_if true artifact_id digest t = record t {
  submissions = (artifact_id, digest) ∷ t.submissions;
}
start_if false artifact_id digest t = t

-- `if s.otsClient != nil { go func(...) }`
unfoldable pub start_submission : Config → Text → Text → M (Unit {0})
start_submission cfg artifact_id digest w =
    (ok tt, record w { tables = start_if cfg.has_ots_client artifact_id digest w.tables })

-- The submission of that number among those started, and the others.
abbrev cons_rest :
    Text × Text
    → Option ((Text × Text) × List (Text × Text))
    → Option ((Text × Text) × List (Text × Text))
cons_rest s none = none
cons_rest s (some (x, rest)) = some (x, s ∷ rest)

abbrev pub take_nth : ℕ → List (Text × Text) → Option ((Text × Text) × List (Text × Text))
take_nth n [] = none
take_nth zero (s ∷ rest) = some (s, rest)
take_nth (suc n) (s ∷ rest) = cons_rest s (take_nth n rest)

abbrev pub dequeue_from :
    Tables → Option ((Text × Text) × List (Text × Text)) → Option (Text × Text) × Tables
dequeue_from t none = (none, t)
dequeue_from t (some (x, rest)) = (some x, record t { submissions = rest })

unfoldable pub dequeue : ℕ → M (Option (Text × Text))
dequeue n w =
    let (x, t) = dequeue_from w.tables (take_nth n w.tables.submissions) in
    (ok x, record w { tables = t })

-- The injected verifier, or the offline check.
abbrev verify_by :
    (Text → Option Ots.ProofFile)
    → Option (Option Ots.Chain)
    → Text
    → Text
    → Ots.Outcome Verification
verify_by parse none proof hash = Ots.verify_proof parse proof hash
verify_by parse (some chain) proof hash = Ots.verify parse chain proof hash

abbrev verify_ots_proof : Config → Text → Text → Ots.Outcome Verification
verify_ots_proof cfg proof hash = verify_by cfg.parse_proof cfg.verifier proof hash

-- `if !ver.Timestamp.IsZero()`
abbrev confirmed_or : Option ℕ → Option ℕ → Option ℕ
confirmed_or stored none = stored
confirmed_or stored (some t) = some t

abbrev pub with_verification : VerifyResult → Ots.Outcome Verification → VerifyResult
with_verification result (Ots.Outcome.err e) = result
with_verification result (Ots.Outcome.ok ver) = record result {
  ots_verified = true;
  ots_block_height = ver.block_height;
  ots_confirmed_at = confirmed_or result.ots_confirmed_at ver.timestamp;
}

abbrev pub with_hash : Config → Text → VerifyResult → Option Text → VerifyResult
with_hash cfg proof result none = result
with_hash cfg proof result (some hash) = with_verification result (verify_ots_proof cfg proof hash)

-- `if len(rec.OTSProof) > 0 && rec.OTSConfirmedAt != nil`
abbrev pub with_ots : Config → EntryRecord → VerifyResult → Option Text → Option ℕ → VerifyResult
with_ots cfg rec result none confirmed = result
with_ots cfg rec result (some proof) none = result
with_ots cfg rec result (some proof) (some at) =
    if is_empty proof then result else with_hash cfg proof result (decode_hex rec.hash)

abbrev pub compared : Text → EntryRecord → Text → VerifyResult
compared slug rec recomputed = record {
  valid = text_eq rec.hash recomputed;
  entry_id = rec.id;
  slug = slug;
  hash = rec.hash;
  algorithm = rec.algorithm;
  matches_current = text_eq recomputed rec.hash;
  deal_title = rec.deal_title;
  verified_at = rec.verified_at;
  ots_verified = false;
  ots_proof = rec.ots_proof;
  ots_confirmed_at = rec.ots_confirmed_at;
  ots_block_height = pos 0;
}

-- The score that could be refreshed, or the stored one.
abbrev pub score_or : ℕ → Outcome Error ℕ → ℕ
score_or stored (ok refreshed) = refreshed
score_or stored (err e) = stored

module _ (cfg : Config) (env : Env) where
  unfoldable pub insert_anchors : List AnchorCandidate → M (Unit {0})
  insert_anchors [] = pure tt
  insert_anchors (c ∷ rest) = do
    k ← step
    content ← or_raise (env.blob k c.storage_key) storage_failed
    let digest = cfg.sha256 content
    Repository.insert_anchor env c.artifact_id (encode_hex digest)
    start_submission cfg c.artifact_id digest
    insert_anchors rest

  -- The goroutine of a submission.
  unfoldable pub run_submission : Text → Text → M (Unit {0})
  run_submission artifact_id digest = do
    k ← step
    proof ← or_raise (env.submit k digest) storage_failed
    n ← step
    Repository.update_anchor_ots env artifact_id proof (some (env.now n)) none

  abbrev pub run_option : Option (Text × Text) → M (Unit {0})
  run_option none = pure tt
  run_option (some (artifact_id, digest)) = run_submission artifact_id digest

  unfoldable pub run_nth_submission : ℕ → M (Unit {0})
  run_nth_submission n = do s ← dequeue n; run_option s

  unfoldable pub heal_anchors : Text → M (Unit {0})
  heal_anchors freelancer = do
    candidates ← Repository.list_unanchored_released_artifacts env freelancer
    insert_anchors candidates

  unfoldable pub anchor_released_deal : Text → Text → M (Unit {0})
  anchor_released_deal freelancer deal_id = do
    candidates ← Repository.list_unanchored_deal_artifacts env deal_id freelancer
    insert_anchors candidates

  unfoldable pub refresh_trust_score : Text → ℕ → M ℕ
  refresh_trust_score account current = do
    released ← Repository.count_released_deals env account
    let score = trust_score_of released
    if score == current
        then pure score
        else (do Repository.update_trust_score env account score; pure score)

  unfoldable pub get_profile : Text → M Profile
  get_profile given_slug = do
    let slug = trim_space given_slug
    raise_if (is_empty slug) invalid_input
    row ← Repository.get_profile env slug
    healed ← try (heal_anchors row.id)
    refreshed ← try (refresh_trust_score row.id row.trust_score)
    entries ← Repository.list_entries env slug
    pure (record {
      display_name = row.display_name;
      slug = row.slug;
      trust_score = score_or row.trust_score refreshed;
      entries = entries;
    })

  unfoldable pub verify_entry : Text → Text → M VerifyResult
  verify_entry given_slug given_id = do
    let slug = trim_space given_slug
    let entry_id = trim_space given_id
    raise_if (is_empty slug || is_empty entry_id) invalid_input
    rec ← Repository.get_entry_for_verify env entry_id slug
    k ← step
    content ← or_raise (env.blob k rec.storage_key) storage_failed
    pure (
        with_ots cfg rec (compared slug rec (encode_hex (cfg.sha256 content))) rec.ots_proof
          rec.ots_confirmed_at)

  abbrev pub store_upgrade : OtsPendingAnchor → Upgrade → M (Unit {0})
  store_upgrade a not_ready = pure tt
  store_upgrade a failed = pure tt
  store_upgrade a (upgraded proof) = do
    n ← step
    stored ← try (
        Repository.update_anchor_ots env a.artifact_id proof (some a.submitted_at)
          (some (env.now n)))
    pure tt

  unfoldable pub upgrade_pending : List OtsPendingAnchor → M (Unit {0})
  upgrade_pending [] = pure tt
  upgrade_pending (a ∷ rest) = do
    k ← step
    store_upgrade a (env.upgrade k a.ots_proof)
    upgrade_pending rest

  unfoldable pub upgrade_ots_proofs : M (Unit {0})
  upgrade_ots_proofs =
      if cfg.has_ots_client
      then (do pending ← Repository.list_pending_ots_anchors env; upgrade_pending pending)
      else pure tt
