-- ===== src/Scenarios/Cvs.antt =====
-- Package cv at small inputs: one released deal with one artifact.
use ganji.Base.{
  ℕ, ◌≡◌, refl, Bool, true, false, Option, none, some, List, [], ◌∷◌, All, Text, codes, inl, inr,
  ◌⊎◌, arith, text_eq, is_empty, trim_space,
}
use ganji.Base.Hex.{encode_hex}
use ganji.Base.Action.{ok, err}
use ganji.Base.Database.{Connected}
use ganji.Base.Int.{pos}
use ganji.Deals.Types.{ArtifactKind}
use ganji.Deals.Status.{released}
use ganji.Cv.{User, Anchor, Profile, VerifyResult, Tables, World, Env, Config, Upgrade}
use ganji.Cv.Repository.{is_unanchored}
use ganji.Cv.Service
use ganji.Cv.Profiles.{Shows, get_profile-Shows}
use ganji.Cv.Requests.{Request, serve_all}
use ganji.Cv.Requests.Anchors.{IsAnchored, serve_all-IsAnchored}
use ganji.Cv.Requests.Faithful.{IsFaithful, Compares, verify_entry_faithful}
use ganji.Cv.Requests.Healed.{Works, heal_anchors_complete}
use ganji.Scenarios.Fixtures.{deal_1, deal_in, freelancer, artifact_1}

abbrev content : Text
content = codes "work"

abbrev store : Text → Text
store key = content

abbrev reading_env : Env
reading_env = record {
  db_fails = λ n. false;
  others = λ n t. t;
  now = λ n. 7;
  new_id = λ n. codes "e1";
  blob = λ n key. some content;
  submit = λ n digest. none;
  upgrade = λ n proof. Upgrade.not_ready;
}

-- The blob was altered.
abbrev altered_env : Env
altered_env = record reading_env { blob = λ n key. some (codes "wurk") }

abbrev cv_config : Config
cv_config = record {
  sha256 = λ x. x;
  has_ots_client = true;
  verifier = none;
  parse_proof = λ p. none;
}

abbrev freelancer_row : User
freelancer_row = record {
  id = freelancer;
  display_name = codes "F";
  slug = codes "f";
  trust_score = 100;
}

abbrev unanchored : World
unanchored = record {
  tables = record {
    users = freelancer_row ∷ [];
    deals = deal_in released ∷ [];
    artifacts = artifact_1 ∷ [];
    anchors = [];
    submissions = [];
  };
  tick = 0;
}

abbrev anchor_1 : Anchor
anchor_1 = record {
  id = codes "e1";
  artifact_id = codes "a1";
  hash = codes "776f726b";
  algorithm = codes "sha256";
  ots_proof = none;
  ots_submitted_at = none;
  ots_confirmed_at = none;
  created_at = 7;
}

abbrev anchored : World
anchored = record unanchored { tables = record unanchored.tables { anchors = anchor_1 ∷ [] } }

abbrev visits : List (Env × Request)
visits =
    (reading_env, Request.profile (codes "f"))
    ∷ (reading_env, Request.anchor freelancer deal_1)
    ∷ (reading_env, Request.submission 0)
    ∷ []

serve_all-IsAnchored_example :
    IsAnchored (codes "a1") (codes "776f726b") (serve_all cv_config visits anchored).tables
unfolding ganji.Base.Text-discrete
serve_all-IsAnchored_example =
    serve_all-IsAnchored cv_config (codes "a1") (codes "776f726b") visits
      ((λ n t h. h), ((λ n t h. h), ((λ n t h. h), tt))) anchored
      ((refl, tt), (anchor_1, refl, refl))

unanchored-IsFaithful : IsFaithful cv_config (λ id. codes "k") store unanchored.tables
unanchored-IsFaithful = record { keyed = (refl, tt); hashed = tt }

abbrev altered : VerifyResult
altered = record {
  valid = false;
  entry_id = codes "e1";
  slug = codes "f";
  hash = codes "776f726b";
  algorithm = codes "sha256";
  matches_current = false;
  deal_title = codes "site";
  verified_at = none;
  ots_verified = false;
  ots_proof = none;
  ots_confirmed_at = none;
  ots_block_height = pos 0;
}

visit-Reads : (n : ℕ) (key c : Text) → reading_env.blob n key ≡ some c → c ≡ store key
visit-Reads n key c e = ground arith

verify_entry_faithful_example :
    Compares cv_config
      (λ id. codes "k")
      store
      altered_env
      (trim_space (codes "f"))
      (trim_space (codes "e1"))
      (Service.verify_entry cv_config altered_env (codes "f") (codes "e1") (
        serve_all cv_config
          ((reading_env, Request.anchor freelancer deal_1) ∷ [])
          unanchored)).1.tables
      altered
unfolding Service.verify_entry ganji.Base.Action.◌>>=◌ trim_space
    ganji.Cv.Repository.get_entry_for_verify ganji.Base.Database.run_statement serve_all
    Service.anchor_released_deal ganji.Cv.Repository.list_unanchored_deal_artifacts
    Service.insert_anchors ganji.Base.Text-discrete ganji.Deals.Status.Status-discrete
    ganji.Base.Database.step ganji.Cv.Repository.insert_anchor Service.start_submission encode_hex
verify_entry_faithful_example =
    verify_entry_faithful cv_config (λ id. codes "k") store
      ((reading_env, Request.anchor freelancer deal_1) ∷ []) ((λ n t h. h), visit-Reads, tt)
      unanchored unanchored-IsFaithful altered_env (λ n t h. h) (codes "f") (codes "e1") altered
      refl

reading_env-Works : Works reading_env
reading_env-Works = record {
  no_failure = λ n. refl;
  alone = λ n t. refl;
  readable = λ n key. (content, refl);
}

heal_anchors_complete_example :
    ((Service.heal_anchors cv_config reading_env freelancer unanchored).0 ≡ ok tt)
    × All
        (λ x.
          is_unanchored freelancer
            (Service.heal_anchors cv_config reading_env freelancer unanchored).1.tables
            x
          ≡ false)
        (Service.heal_anchors cv_config reading_env freelancer unanchored).1.tables.artifacts
heal_anchors_complete_example =
    heal_anchors_complete cv_config reading_env reading_env-Works freelancer unanchored

abbrev cv_of_f : Profile
cv_of_f = record {
  display_name = codes "F";
  slug = codes "f";
  trust_score = 125;
  entries =
      (record {
        id = codes "e1";
        deal_title = codes "site";
        amount_sats = pos 1000;
        source_platform = codes "chat";
        artifact_kind = ArtifactKind.source_file;
        hash = codes "776f726b";
        algorithm = codes "sha256";
        verified_at = none;
        created_at = 7;
        ots_proof = none;
        ots_submitted_at = none;
        ots_confirmed_at = none;
      })
      ∷ [];
}

get_profile-Shows_example :
    Shows
      (trim_space (codes " f"))
      (Service.get_profile cv_config reading_env (codes " f") unanchored).1.tables
      cv_of_f.entries
unfolding Service.get_profile ganji.Base.Action.◌>>=◌ trim_space ganji.Cv.Repository.get_profile
    ganji.Base.Database.run_statement ganji.Base.Text-discrete ganji.Cv.Repository.list_entries
    Service.refresh_trust_score ganji.Cv.Repository.entries_of
    ganji.Cv.Repository.count_released_deals Service.heal_anchors
    ganji.Cv.Repository.list_unanchored_released_artifacts Service.insert_anchors
    ganji.Deals.Status.Status-discrete ganji.Base.Database.step ganji.Cv.Repository.insert_anchor
    Service.start_submission ganji.Cv.Repository.update_trust_score encode_hex
    ganji.Deals.Repository.order_by
get_profile-Shows_example =
    get_profile-Shows cv_config reading_env (codes " f") unanchored cv_of_f refl
