-- ===== src/Deals/Verifications.antt =====
-- Verifications of artifacts (service.go).
use ganji.Base.{Bool, true, false, not, List, Text, text_eq, is_empty}
use ganji.Deals.Types.{Verification, VerificationMethod, VerificationStatus}
use ganji.Deals.World.{
  invalid_input, forbidden, verification_not_found, Env, M, pure, ◌>>=◌, ◌>>◌, raise_if,
}
use ganji.Deals.Repository
use ganji.Deals.Repository.{pool}

unfoldable is_valid_method : VerificationMethod → Bool
is_valid_method VerificationMethod.invalid = false
is_valid_method _ = true

abbrev initial_status : VerificationStatus → VerificationStatus
initial_status VerificationStatus.unset = VerificationStatus.pending
initial_status s = s

module _ (env : Env) where
  unfoldable pub create_verification : Text → Verification → M Verification
  unfolding is_valid_method
  create_verification user_id v = do
    raise_if (is_empty v.artifact_id) invalid_input
    raise_if (is_empty v.reference) invalid_input
    raise_if (not (is_valid_method v.method)) invalid_input
    artifact ← Repository.get_artifact_by_id env pool v.artifact_id
    deal ← Repository.get_deal_by_id env pool artifact.deal_id
    raise_if (not (text_eq deal.freelancer_id user_id)) forbidden
    Repository.create_verification env pool (record v { status = initial_status v.status })

  unfoldable pub get_verification_by_id : Text → Text → Text → Text → M Verification
  get_verification_by_id user_id deal_id artifact_id verification_id = do
    raise_if (is_empty deal_id) invalid_input
    raise_if (is_empty artifact_id) invalid_input
    raise_if (is_empty verification_id) invalid_input
    verification ← Repository.get_verification_by_id env pool verification_id
    raise_if (not (text_eq verification.artifact_id artifact_id)) verification_not_found
    artifact ← Repository.get_artifact_by_id env pool verification.artifact_id
    raise_if (not (text_eq artifact.deal_id deal_id)) verification_not_found
    deal ← Repository.get_deal_by_id env pool artifact.deal_id
    raise_if (not (text_eq deal.freelancer_id user_id)) forbidden
    pure verification

  unfoldable pub list_verifications_by_artifact : Text → Text → M (List Verification)
  list_verifications_by_artifact user_id artifact_id = do
    raise_if (is_empty artifact_id) invalid_input
    artifact ← Repository.get_artifact_by_id env pool artifact_id
    deal ← Repository.get_deal_by_id env pool artifact.deal_id
    raise_if (not (text_eq deal.freelancer_id user_id)) forbidden
    Repository.list_verifications_by_artifact env pool artifact_id
