-- ===== src/Cv.antt =====
-- Package cv (backend/internal/cv): the public CV of a freelancer, whose lines are anchored by hashes.
--
-- The state is what the package reads and writes of the tables `users`, `deals`, `artifacts` and
-- `cv_entries`, and the submissions to the calendars that were started and have not run yet, each a
-- goroutine of its own. Scores are whole numbers: the signup's default and those that the package stores.
pub mod Repository
pub mod Rows
pub mod Service
pub mod Profiles
pub mod Requests
use ganji.Base.{ℕ, Bool, Option, List, Text}
use ganji.Base.Int.{ℤ}
use ganji.Base.Action.{Action, Outcome}
use ganji.Base.Database.{Connected, run_statement}
use ganji.Deals.Types.{Deal, Artifact, ArtifactKind}
use ganji.Ots.{ProofFile, Chain}

pub record User : Type 0 where
  pub id : Text
  pub display_name : Text
  pub slug : Text
  pub trust_score : ℕ

-- A row of `cv_entries`.
pub record Anchor : Type 0 where
  pub id : Text
  pub artifact_id : Text
  pub hash : Text
  pub algorithm : Text
  pub ots_proof : Option Text
  pub ots_submitted_at : Option ℕ
  pub ots_confirmed_at : Option ℕ
  pub created_at : ℕ

pub record Entry : Type 0 where
  pub id : Text
  pub deal_title : Text
  pub amount_sats : ℤ
  pub source_platform : Text
  pub artifact_kind : ArtifactKind
  pub hash : Text
  pub algorithm : Text
  pub verified_at : Option ℕ
  pub created_at : ℕ
  pub ots_proof : Option Text
  pub ots_submitted_at : Option ℕ
  pub ots_confirmed_at : Option ℕ

pub record Profile : Type 0 where
  pub display_name : Text
  pub slug : Text
  pub trust_score : ℕ
  pub entries : List Entry

pub record VerifyResult : Type 0 where
  pub valid : Bool
  pub entry_id : Text
  pub slug : Text
  pub hash : Text
  pub algorithm : Text
  pub matches_current : Bool
  pub deal_title : Text
  pub verified_at : Option ℕ
  pub ots_verified : Bool
  pub ots_proof : Option Text
  pub ots_confirmed_at : Option ℕ
  pub ots_block_height : ℤ

pub record ProfileRow : Type 0 where
  pub id : Text
  pub display_name : Text
  pub slug : Text
  pub trust_score : ℕ

pub record AnchorCandidate : Type 0 where
  pub artifact_id : Text
  pub storage_key : Text
  pub deal_id : Text

pub record EntryRecord : Type 0 where
  pub id : Text
  pub hash : Text
  pub algorithm : Text
  pub storage_key : Text
  pub deal_title : Text
  pub verified_at : Option ℕ
  pub ots_proof : Option Text
  pub ots_submitted_at : Option ℕ
  pub ots_confirmed_at : Option ℕ

pub record OtsPendingAnchor : Type 0 where
  pub artifact_id : Text
  pub entry_id : Text
  pub hash : Text
  pub ots_proof : Text
  pub submitted_at : ℕ

-- The errors of errors.go, and those of what the package calls.
pub data Error : Type 0 where
  invalid_input not_found db_failed storage_failed : Error

pub record Tables : Type 0 where
  pub users : List User
  pub deals : List Deal
  pub artifacts : List Artifact
  pub anchors : List Anchor
  -- artifact and digest of each submission that was started
  pub submissions : List (Text × Text)

abbrev pub World : Type 0
World = Connected Tables

-- What `Upgrade` of a calendar gives.
pub data Upgrade : Type 0 where
  upgraded : Text → Upgrade
  not_ready failed : Upgrade

pub record Env : Type 0 where
  pub db_fails : ℕ → Bool
  pub others : ℕ → Tables → Tables
  pub now : ℕ → ℕ
  pub new_id : ℕ → Text
  -- the bytes of a blob, read to the end; `none` where opening, reading or closing it fails
  pub blob : ℕ → Text → Option Text
  pub submit : ℕ → Text → Option Text
  pub upgrade : ℕ → Text → Upgrade

-- How the service was built: the hasher, whether it has a client for the calendars, the verifier (none, or
-- one with or without a chain source), and the parser of proofs.
pub record Config : Type 0 where
  pub sha256 : Text → Text
  pub has_ots_client : Bool
  pub verifier : Option (Option Chain)
  pub parse_proof : Text → Option ProofFile

abbrev pub M : Type 0 → Type 0
M A = Action World Error A

abbrev pub statement : {A : Type 0} → Env → (Tables → Outcome Error A × Tables) → M A
statement env run = run_statement db_failed env.db_fails env.others run
