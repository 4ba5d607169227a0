-- ===== src/Router/Errors/Served.antt =====
-- What the answers of the routes say of errors, route by route.
use ganji.Base.{
  ℕ, refl, Option, none, some, List, [], ◌∷◌, Text, is_empty, inl, inr, Bool-cases, Option-cases,
}
use ganji.Deals.Types.{ArtifactKind}
use ganji.Deals.World.{World, Env, Config, pure}
use ganji.Deals.Handlers
use ganji.Deals.Handlers.{
  answer, refuse_creation, refuse_reading, refuse_listing, refuse_change, refuse_payment,
  refuse_reconcile, refuse_link,
}
use ganji.Deals.Handlers.Uploads
use ganji.Deals.Handlers.Uploads.{Part, kind_field}
use ganji.Deals.Handlers.Records
use ganji.Deals.Handlers.Records.{refuse_artifact, refuse_deletion, refuse_verification}
use ganji.Auth.{Platform, TokenManager}
use ganji.Auth
use ganji.Http.{Caller, Response}
use ganji.Router.Gates.{IsStop, serve-IsGated}
use ganji.Router.{Route, handle, serve}
use ganji.Router.Errors.{IsProper, Answers, answer-IsProper}
use ganji.Router.Errors.Refusals.{
  refuse_creation-IsFailure, refuse_reading-IsFailure, refuse_listing-IsFailure,
  refuse_change-IsFailure, refuse_payment-IsFailure, refuse_reconcile-IsFailure,
  refuse_link-IsFailure, refuse_artifact-IsFailure, refuse_deletion-IsFailure,
  refuse_verification-IsFailure,
}

module _ (env : Env) (cfg : Config) where
  -- The handlers of artifact uploads.
  upload_part-IsProper :
      (caller : Caller) (id : Text) (known : Option ArtifactKind) (filename : Text) (size : ℕ)
      (w : World)
      → Answers IsProper (Uploads.upload_part env cfg caller id known filename size w).0
  unfolding Uploads.upload_part pure
  upload_part-IsProper caller id none filename size w = elim (Bool-cases (is_empty filename)) [
    | inl e ↦ rw e refl
    | inr e ↦ rw e refl
  ]
  upload_part-IsProper caller id (some kind) filename size w =
      elim (Bool-cases (is_empty filename)) [
        | inl e ↦ rw e refl
        | inr e ↦ rw e (answer-IsProper _ _ _ refuse_reading-IsFailure (λ _. refl) w)
      ]

  read_parts-IsProper :
      (caller : Caller) (id : Text) (known : Option ArtifactKind) (parts : List Part) (w : World)
      → Answers IsProper (Uploads.read_parts env cfg caller id known parts w).0
  unfolding Uploads.read_parts pure
  read_parts-IsProper caller id known [] w = refl
  read_parts-IsProper caller id known (Part.too_large ∷ rest) w = refl
  read_parts-IsProper caller id known (Part.malformed ∷ rest) w = refl
  read_parts-IsProper caller id known (Part.kind_part field ∷ rest) w =
      elim (Option-cases (kind_field field)) [
        | inl e ↦ rw (e, Answers) refl
        | inr (kind, e) ↦ rw (e, Answers) (read_parts-IsProper caller id (some kind) rest w)
      ]
  read_parts-IsProper caller id known (Part.file_part filename size ∷ rest) w =
      upload_part-IsProper caller id known filename size w
  read_parts-IsProper caller id known (Part.another ∷ rest) w =
      read_parts-IsProper caller id known rest w

  handle-IsProper :
      (caller : Caller) (route : Route) (w : World)
      → Answers IsProper (handle env cfg caller route w).0
  unfolding handle Handlers.create_deal Handlers.list_deals Handlers.get_deal_by_id
      Handlers.check_payment Handlers.submit_work Handlers.approve_deal Handlers.rotate_share_link
      Handlers.update_deal_status Handlers.dispute_deal Handlers.update_payee_invoice
      Handlers.get_public_deal Handlers.public_approve_deal Uploads.create_artifact
      Records.list_artifacts_by_deal Records.get_artifact_by_id Records.download_artifact
      Records.delete_artifact Records.create_verification Records.list_verifications_by_artifact
      Records.get_verification_by_id Handlers.list_disputes Handlers.resolve_dispute
      Handlers.reconcile_deal pure
  handle-IsProper caller (Route.create_deal none) w = refl
  handle-IsProper caller (Route.create_deal (some req)) w =
      answer-IsProper _ _ _ refuse_creation-IsFailure (λ _. refl) w
  handle-IsProper caller Route.list_deals w =
      answer-IsProper _ _ _ refuse_listing-IsFailure (λ _. refl) w
  handle-IsProper caller (Route.get_deal_by_id id) w =
      answer-IsProper _ _ _ refuse_reading-IsFailure (λ _. refl) w
  handle-IsProper caller (Route.check_payment id) w =
      answer-IsProper _ _ _ refuse_payment-IsFailure (λ _. refl) w
  handle-IsProper caller (Route.submit_work id) w =
      answer-IsProper _ _ _ refuse_change-IsFailure (λ _. refl) w
  handle-IsProper caller (Route.approve_deal id) w =
      answer-IsProper _ _ _ refuse_change-IsFailure (λ _. refl) w
  handle-IsProper caller (Route.rotate_share_link id) w =
      answer-IsProper _ _ _ refuse_change-IsFailure (λ _. refl) w
  handle-IsProper caller (Route.update_deal_status id none) w = refl
  handle-IsProper caller (Route.update_deal_status id (some s)) w =
      answer-IsProper _ _ _ refuse_change-IsFailure (λ _. refl) w
  handle-IsProper caller (Route.dispute_deal id none) w = refl
  handle-IsProper caller (Route.dispute_deal id (some s)) w =
      answer-IsProper _ _ _ refuse_change-IsFailure (λ _. refl) w
  handle-IsProper caller (Route.update_payee_invoice id none) w = refl
  handle-IsProper caller (Route.update_payee_invoice id (some s)) w =
      answer-IsProper _ _ _ refuse_change-IsFailure (λ _. refl) w
  handle-IsProper caller (Route.get_public_deal token) w =
      answer-IsProper _ _ _ refuse_link-IsFailure (λ _. refl) w
  handle-IsProper caller (Route.public_approve_deal token) w =
      answer-IsProper _ _ _ refuse_change-IsFailure (λ _. refl) w
  handle-IsProper caller (Route.create_artifact id none) w = refl
  handle-IsProper caller (Route.create_artifact id (some parts)) w =
      read_parts-IsProper caller id none parts w
  handle-IsProper caller (Route.list_artifacts_by_deal id) w =
      answer-IsProper _ _ _ refuse_reading-IsFailure (λ _. refl) w
  handle-IsProper caller (Route.get_artifact_by_id id a) w =
      answer-IsProper _ _ _ refuse_artifact-IsFailure (λ _. refl) w
  handle-IsProper caller (Route.download_artifact id a) w =
      answer-IsProper _ _ _ refuse_artifact-IsFailure (λ _. refl) w
  handle-IsProper caller (Route.delete_artifact id a) w =
      answer-IsProper _ _ _ refuse_deletion-IsFailure (λ _. refl) w
  handle-IsProper caller (Route.create_verification a none) w = refl
  handle-IsProper caller (Route.create_verification a (some req)) w =
      answer-IsProper _ _ _ refuse_artifact-IsFailure (λ _. refl) w
  handle-IsProper caller (Route.list_verifications_by_artifact a) w =
      answer-IsProper _ _ _ refuse_artifact-IsFailure (λ _. refl) w
  handle-IsProper caller (Route.get_verification_by_id id a v) w =
      answer-IsProper _ _ _ refuse_verification-IsFailure (λ _. refl) w
  handle-IsProper caller Route.list_disputes w = answer-IsProper _ _ _ (λ _. refl) (λ _. refl) w
  handle-IsProper caller (Route.resolve_dispute id none) w = refl
  handle-IsProper caller (Route.resolve_dispute id (some r)) w =
      answer-IsProper _ _ _ refuse_change-IsFailure (λ _. refl) w
  handle-IsProper caller (Route.reconcile_deal id none) w = refl
  handle-IsProper caller (Route.reconcile_deal id (some r)) w =
      answer-IsProper _ _ _ refuse_reconcile-IsFailure (λ _. refl) w

module _ (platform : Platform) (tm : TokenManager) (auth_env : Auth.Env) (now : Auth.World) where
  stop-IsProper : (r : Response) → IsStop r → IsProper r
  stop-IsProper r (inl code, text, body) = rw (code, body) refl
  stop-IsProper r (inr code, text, body) = rw (code, body) refl

  -- Every request is answered. An answer that names an error names one that callers may see, with the status code
  -- of that error; any other error text comes with a status of 400 or more, and everything else with one below 300.
  pub serve-IsProper :
      (env : Env) (cfg : Config) (header : Text) (route : Route) (w : World)
      → Answers IsProper (serve platform tm auth_env now env cfg header route w).0
  serve-IsProper env cfg header route w =
      elim (serve-IsGated platform tm auth_env now env cfg header route w) [
        | inl (caller, admitted, e) ↦ rw e (handle-IsProper env cfg caller route w)
        | inr (r, stop, e, nobody) ↦ rw e (stop-IsProper r stop)
      ]
