-- ===== src/Deals/Handlers/Records.antt =====
-- backend/internal/deals/artifact_handler.go and verification_handler.go: the routes of the artifacts and of
-- their verifications.
use ganji.Base.{Option, none, some, [], Text}
use ganji.Deals.Types.{VerificationMethod, VerificationStatus}
use ganji.Deals.World.{
  Error, invalid_input, forbidden, deal_not_found, artifact_not_found, verification_not_found, Env,
  Config, M, pure,
}
use ganji.Deals.Artifacts
use ganji.Deals.Verifications
use ganji.Deals.Handlers.{answer, refuse_reading}
use ganji.Http.{Caller, Body, Response, respond, refuse, fail, internal_error}

pub record CreateVerificationRequest : Type 0 where
  pub method : VerificationMethod
  pub reference : Text

unfoldable pub refuse_artifact : Error → Response
refuse_artifact invalid_input = refuse 400 invalid_input
refuse_artifact forbidden = refuse 403 forbidden
refuse_artifact artifact_not_found = refuse 404 artifact_not_found
refuse_artifact e = internal_error

unfoldable pub refuse_deletion : Error → Response
refuse_deletion deal_not_found = refuse 404 deal_not_found
refuse_deletion e = refuse_artifact e

unfoldable pub refuse_verification : Error → Response
refuse_verification invalid_input = refuse 400 invalid_input
refuse_verification forbidden = refuse 403 forbidden
refuse_verification verification_not_found = refuse 404 verification_not_found
refuse_verification e = internal_error

module _ (env : Env) (cfg : Config) where
  unfoldable pub list_artifacts_by_deal : Caller → Text → M Response
  list_artifacts_by_deal caller deal_id =
      answer refuse_reading (λ xs. respond 200 (Body.artifacts xs))
        (Artifacts.list_artifacts_by_deal env cfg caller.user_id caller.email deal_id)

  unfoldable pub get_artifact_by_id : Caller → Text → Text → M Response
  get_artifact_by_id caller deal_id artifact_id =
      answer refuse_artifact (λ a. respond 200 (Body.artifact a))
        (Artifacts.get_artifact_by_id env cfg caller.user_id caller.email deal_id artifact_id)

  unfoldable pub download_artifact : Caller → Text → Text → M Response
  download_artifact caller deal_id artifact_id =
      answer refuse_artifact (λ (a, size). respond 200 (Body.file a size))
        (Artifacts.download_artifact env cfg caller.user_id caller.email deal_id artifact_id)

  unfoldable pub delete_artifact : Caller → Text → Text → M Response
  delete_artifact caller deal_id artifact_id =
      answer refuse_deletion (λ _. respond 204 Body.empty)
        (Artifacts.delete_artifact env cfg caller.user_id deal_id artifact_id)

  unfoldable pub create_verification : Caller → Text → Option CreateVerificationRequest → M Response
  create_verification caller artifact_id none = pure (fail 400 "invalid request body")
  create_verification caller artifact_id (some req) =
      answer refuse_artifact (λ v. respond 201 (Body.verification v))
        (Verifications.create_verification env caller.user_id (record {
          id = [];
          artifact_id = artifact_id;
          method = req.method;
          reference = req.reference;
          status = VerificationStatus.unset;
          expires_at = none;
          created_at = 0;
        }))

  unfoldable pub list_verifications_by_artifact : Caller → Text → M Response
  list_verifications_by_artifact caller artifact_id =
      answer refuse_artifact (λ vs. respond 200 (Body.verifications vs))
        (Verifications.list_verifications_by_artifact env caller.user_id artifact_id)

  unfoldable pub get_verification_by_id : Caller → Text → Text → Text → M Response
  get_verification_by_id caller deal_id artifact_id verification_id =
      answer refuse_verification (λ v. respond 200 (Body.verification v))
        (Verifications.get_verification_by_id env caller.user_id deal_id artifact_id
          verification_id)
