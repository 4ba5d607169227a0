-- ===== src/Deals/Types.antt =====
-- The records of backend/internal/deals/types.go and their redacted views.
use ganji.Base.{ℕ, Option, List, map, Text}
use ganji.Base.Int.{ℤ}
use ganji.Deals.Status.{Status}

-- `time.Time`, as the time elapsed since a fixed origin; `sql.NullTime` is an `Option`.
abbrev pub Time : Type 0
Time = ℕ

pub record Deal : Type 0 where
  pub id : Text
  pub freelancer_id : Text
  pub client_email : Text
  pub title : Text
  pub amount_sats : ℤ
  pub source_platform : Text
  pub preimage_hash : Text
  pub preimage : Text
  pub payee_invoice : Text
  pub invoice : Text
  pub checking_id : Text
  pub payout_checking_id : Text
  pub payout_attempted_at : Option Time
  pub share_token : Text
  pub status : Status
  pub dispute_reason : Text
  pub disputed_at : Option Time
  pub resolved_at : Option Time
  pub resolved_by : Text
  pub created_at : Time
  pub verified_at : Option Time

-- `DisputeResolution`, a string: `invalid` is any string that is neither constant.
pub data DisputeResolution : Type 0 where
  release refund invalid : DisputeResolution

-- `ReconcileAction`
pub data ReconcileAction : Type 0 where
  confirm_payout reset_payout invalid : ReconcileAction

pub record PublicDeal : Type 0 where
  pub title : Text
  pub amount_sats : ℤ
  pub source_platform : Text
  pub invoice : Text
  pub status : Status
  pub dispute_reason : Text
  pub created_at : Time

pub record DealView : Type 0 where
  pub id : Text
  pub freelancer_id : Text
  pub client_email : Text
  pub title : Text
  pub amount_sats : ℤ
  pub source_platform : Text
  pub preimage_hash : Text
  pub invoice : Text
  pub checking_id : Text
  pub share_token : Text
  pub status : Status
  pub dispute_reason : Text
  pub disputed_at : Option Time
  pub resolved_at : Option Time
  pub resolved_by : Text
  pub created_at : Time
  pub verified_at : Option Time

-- `Deal.View`. `nullTime` is the identity here, since both of its types are `Option Time`.
unfoldable pub view : Deal → DealView
view d = record {
  id = d.id;
  freelancer_id = d.freelancer_id;
  client_email = d.client_email;
  title = d.title;
  amount_sats = d.amount_sats;
  source_platform = d.source_platform;
  preimage_hash = d.preimage_hash;
  invoice = d.invoice;
  checking_id = d.checking_id;
  share_token = d.share_token;
  status = d.status;
  dispute_reason = d.dispute_reason;
  disputed_at = d.disputed_at;
  resolved_at = d.resolved_at;
  resolved_by = d.resolved_by;
  created_at = d.created_at;
  verified_at = d.verified_at;
}

-- `Deal.PublicView`
unfoldable pub public_view : Deal → PublicDeal
public_view d = record {
  title = d.title;
  amount_sats = d.amount_sats;
  source_platform = d.source_platform;
  invoice = d.invoice;
  status = d.status;
  dispute_reason = d.dispute_reason;
  created_at = d.created_at;
}

unfoldable pub deals_view : List Deal → List DealView
unfolding view
deals_view = map view

-- `ArtifactKind`, a string: `invalid` is any string that is neither constant.
pub data ArtifactKind : Type 0 where
  source_code source_file invalid : ArtifactKind

pub record Artifact : Type 0 where
  pub id : Text
  pub deal_id : Text
  pub kind : ArtifactKind
  pub storage_key : Text
  pub uploaded_at : Time

pub data VerificationMethod : Type 0 where
  sandbox preview_pdf preview_image invalid : VerificationMethod

-- `VerificationStatus`; `unset` is the empty string.
pub data VerificationStatus : Type 0 where
  pending ready expired unset : VerificationStatus

pub record Verification : Type 0 where
  pub id : Text
  pub artifact_id : Text
  pub method : VerificationMethod
  pub reference : Text
  pub status : VerificationStatus
  pub expires_at : Option Time
  pub created_at : Time
