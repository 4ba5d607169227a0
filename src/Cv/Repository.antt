-- ===== src/Cv/Repository.antt =====
-- The statements of backend/internal/cv/repository.go, over the tables in memory. A JOIN on a primary key
-- finds the one row of the key.
use ganji.Base.{
  ℕ, Bool, true, false, not, ◌&&◌, ◌||◌, Option, none, some, List, [], ◌∷◌, map, filter, find, any,
  length, Text, codes, text_eq, ltb, if◌then◌else◌,
}
use ganji.Base.Action.{Outcome, ok, err, ◌>>=◌}
use ganji.Base.Database.{step, reading}
use ganji.Deals.Status.{released, status_eq}
use ganji.Deals.Types.{Deal, Artifact}
use ganji.Deals.Repository.{order_by}
use ganji.Cv.{
  User, Anchor, Entry, ProfileRow, AnchorCandidate, EntryRecord, OtsPendingAnchor, Error, not_found,
  Tables, Env, M, statement,
}

-- An anchor with what its JOINs find.
pub record Joined : Type 0 where
  pub anchor : Anchor
  pub artifact : Artifact
  pub deal : Deal
  pub user : User

abbrev pub with_user : Anchor → Artifact → Deal → Option User → Option Joined
with_user a x d none = none
with_user a x d (some u) = some (record { anchor = a; artifact = x; deal = d; user = u })

abbrev pub with_deal : Tables → Anchor → Artifact → Option Deal → Option Joined
with_deal t a x none = none
with_deal t a x (some d) =
    with_user a x d (find (λ (u : User). text_eq u.id d.freelancer_id) t.users)

abbrev pub with_artifact : Tables → Anchor → Option Artifact → Option Joined
with_artifact t a none = none
with_artifact t a (some x) = with_deal t a x (find (λ (d : Deal). text_eq d.id x.deal_id) t.deals)

abbrev pub join : Tables → Anchor → Option Joined
join t a = with_artifact t a (find (λ (x : Artifact). text_eq x.id a.artifact_id) t.artifacts)

abbrev pub keep_some : {A : Type 0} → Option A → List A → List A
keep_some none xs = xs
keep_some (some x) xs = x ∷ xs

abbrev pub joined : Tables → List Anchor → List Joined
joined t [] = []
joined t (a ∷ rest) = keep_some (join t a) (joined t rest)

-- `DESC` puts NULL first.
abbrev pub later : Option ℕ → Option ℕ → Bool
later none none = false
later none (some b) = true
later (some a) none = false
later (some a) (some b) = ltb b a

-- `ORDER BY d.verified_at DESC, cv.created_at DESC`
abbrev pub newest_verified_first : Joined → Joined → Bool
newest_verified_first a b =
    later a.deal.verified_at b.deal.verified_at
    || (not (later b.deal.verified_at a.deal.verified_at)
        && ltb b.anchor.created_at a.anchor.created_at)

abbrev pub entry_of : Joined → Entry
entry_of j = record {
  id = j.anchor.id;
  deal_title = j.deal.title;
  amount_sats = j.deal.amount_sats;
  source_platform = j.deal.source_platform;
  artifact_kind = j.artifact.kind;
  hash = j.anchor.hash;
  algorithm = j.anchor.algorithm;
  verified_at = j.deal.verified_at;
  created_at = j.anchor.created_at;
  ots_proof = j.anchor.ots_proof;
  ots_submitted_at = j.anchor.ots_submitted_at;
  ots_confirmed_at = j.anchor.ots_confirmed_at;
}

abbrev pub is_listed : Text → Joined → Bool
is_listed slug j = text_eq j.user.slug slug && status_eq j.deal.status released

unfoldable pub entries_of : Text → Tables → List Joined
unfolding order_by
entries_of slug t = order_by newest_verified_first (filter (is_listed slug) (joined t t.anchors))

abbrev profile_of : Option User → Outcome Error ProfileRow
profile_of none = err not_found
profile_of (some u) = ok (record {
  id = u.id;
  display_name = u.display_name;
  slug = u.slug;
  trust_score = u.trust_score;
})

-- `releasedArtifactSelector`
abbrev pub is_released_by : Text → Option Deal → Bool
is_released_by freelancer none = false
is_released_by freelancer (some d) =
    text_eq d.freelancer_id freelancer && status_eq d.status released

abbrev pub has_artifact : Text → Anchor → Bool
has_artifact artifact_id a = text_eq a.artifact_id artifact_id

abbrev pub is_unanchored : Text → Tables → Artifact → Bool
is_unanchored freelancer t x =
    is_released_by freelancer (find (λ (d : Deal). text_eq d.id x.deal_id) t.deals)
    && not (any (has_artifact x.id) t.anchors)

abbrev pub candidate : Artifact → AnchorCandidate
candidate x = record { artifact_id = x.id; storage_key = x.storage_key; deal_id = x.deal_id }

-- `ON CONFLICT (artifact_id) DO NOTHING`
abbrev pub insert_anchor_row : Anchor → Tables → Outcome Error (Unit {0}) × Tables
insert_anchor_row a t = (
  ok tt,
  if any (has_artifact a.artifact_id) t.anchors then t else record t { anchors = a ∷ t.anchors },
)

abbrev pub set_ots : Text → Option Text → Option ℕ → Option ℕ → Anchor → Anchor
set_ots artifact_id proof submitted confirmed a =
    if has_artifact artifact_id a
    then record a { ots_proof = proof; ots_submitted_at = submitted; ots_confirmed_at = confirmed }
    else a

abbrev pub update_ots :
    Text → Text → Option ℕ → Option ℕ → Tables → Outcome Error (Unit {0}) × Tables
update_ots artifact_id proof submitted confirmed t = (
  ok tt,
  record t { anchors = map (set_ots artifact_id (some proof) submitted confirmed) t.anchors },
)

abbrev set_score : Text → ℕ → User → User
set_score id score u = if text_eq u.id id then record u { trust_score = score } else u

abbrev pub update_score : Text → ℕ → Tables → Outcome Error (Unit {0}) × Tables
update_score id score t = (ok tt, record t { users = map (set_score id score) t.users })

abbrev is_released_deal : Text → Deal → Bool
is_released_deal freelancer d = text_eq d.freelancer_id freelancer && status_eq d.status released

abbrev pub record_of : Option Joined → Outcome Error EntryRecord
record_of none = err not_found
record_of (some j) = ok (record {
  id = j.anchor.id;
  hash = j.anchor.hash;
  algorithm = j.anchor.algorithm;
  storage_key = j.artifact.storage_key;
  deal_title = j.deal.title;
  verified_at = j.deal.verified_at;
  ots_proof = j.anchor.ots_proof;
  ots_submitted_at = j.anchor.ots_submitted_at;
  ots_confirmed_at = j.anchor.ots_confirmed_at;
})

abbrev pending_of : Anchor → Option Text → Option ℕ → Option ℕ → Option OtsPendingAnchor
pending_of a (some proof) (some submitted) none = some (record {
  artifact_id = a.artifact_id;
  entry_id = a.id;
  hash = a.hash;
  ots_proof = proof;
  submitted_at = submitted;
})
pending_of a (some proof) (some submitted) (some confirmed) = none
pending_of a (some proof) none confirmed = none
pending_of a none submitted confirmed = none

abbrev pending_anchors : List Anchor → List OtsPendingAnchor
pending_anchors [] = []
pending_anchors (a ∷ rest) =
    keep_some (pending_of a a.ots_proof a.ots_submitted_at a.ots_confirmed_at)
      (pending_anchors rest)

module _ (env : Env) where
  unfoldable pub get_profile : Text → M ProfileRow
  get_profile slug =
      statement env (reading (λ t. profile_of (find (λ (u : User). text_eq u.slug slug) t.users)))

  unfoldable pub list_entries : Text → M (List Entry)
  list_entries slug = statement env (reading (λ t. ok (map entry_of (entries_of slug t))))

  unfoldable pub list_unanchored_released_artifacts : Text → M (List AnchorCandidate)
  list_unanchored_released_artifacts freelancer =
      statement env
        (reading (λ t. ok (map candidate (filter (is_unanchored freelancer t) t.artifacts))))

  unfoldable pub list_unanchored_deal_artifacts : Text → Text → M (List AnchorCandidate)
  list_unanchored_deal_artifacts deal_id freelancer = statement env (
      reading (λ t. ok (
        map candidate (
          filter (λ (x : Artifact). is_unanchored freelancer t x && text_eq x.deal_id deal_id)
            t.artifacts))))

  unfoldable pub insert_anchor : Text → Text → M (Unit {0})
  insert_anchor artifact_id hash = do
    k ← step
    statement env (
        insert_anchor_row (record {
          id = env.new_id k;
          artifact_id = artifact_id;
          hash = hash;
          algorithm = codes "sha256";
          ots_proof = none;
          ots_submitted_at = none;
          ots_confirmed_at = none;
          created_at = env.now k;
        }))

  unfoldable pub update_anchor_ots : Text → Text → Option ℕ → Option ℕ → M (Unit {0})
  update_anchor_ots artifact_id proof submitted confirmed =
      statement env (update_ots artifact_id proof submitted confirmed)

  unfoldable pub list_pending_ots_anchors : M (List OtsPendingAnchor)
  list_pending_ots_anchors = statement env (reading (λ t. ok (pending_anchors t.anchors)))

  unfoldable pub count_released_deals : Text → M ℕ
  count_released_deals freelancer =
      statement env (reading (λ t. ok (length (filter (is_released_deal freelancer) t.deals))))

  unfoldable pub update_trust_score : Text → ℕ → M (Unit {0})
  update_trust_score id score = statement env (update_score id score)

  unfoldable pub get_entry_for_verify : Text → Text → M EntryRecord
  get_entry_for_verify entry_id slug = statement env (
      reading (λ t. record_of (
        find (λ j. text_eq j.anchor.id entry_id && text_eq j.user.slug slug) (joined t t.anchors))))
