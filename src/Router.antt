-- ===== src/Router.antt =====
-- The routes of the deals: the RegisterRoutes functions of deals/handler.go, artifact_handler.go and
-- verification_handler.go, in the groups of cmd/api/router.go. The rate limiter in front of the public
-- routes is left out.
pub mod Gates
pub mod Errors
pub mod Parties
use ganji.Base.{ℕ, Bool, true, false, Option, none, some, List, [], Text, ◌⊎◌, inl, inr}
use ganji.Deals.Status.{Status}
use ganji.Deals.Types.{DisputeResolution}
use ganji.Deals.World.{Env, Config, M, pure}
use ganji.Deals.Handlers
use ganji.Deals.Handlers.{CreateDealRequest, ReconcileDealRequest}
use ganji.Deals.Handlers.Uploads
use ganji.Deals.Handlers.Uploads.{Part}
use ganji.Deals.Handlers.Records
use ganji.Deals.Handlers.Records.{CreateVerificationRequest}
use ganji.Auth.{Platform, TokenManager}
use ganji.Auth
use ganji.Http.{Caller, Response}
use ganji.Middleware.{auth_required, operator_required}

pub data Route : Type 0 where
  create_deal : Option CreateDealRequest → Route
  list_deals : Route
  get_deal_by_id check_payment submit_work approve_deal rotate_share_link : Text → Route
  update_deal_status : Text → Option Status → Route
  dispute_deal update_payee_invoice : Text → Option Text → Route
  get_public_deal public_approve_deal : Text → Route
  create_artifact : Text → Option (List Part) → Route
  list_artifacts_by_deal : Text → Route
  get_artifact_by_id download_artifact delete_artifact : Text → Text → Route
  create_verification : Text → Option CreateVerificationRequest → Route
  list_verifications_by_artifact : Text → Route
  get_verification_by_id : Text → Text → Text → Route
  list_disputes : Route
  resolve_dispute : Text → Option DisputeResolution → Route
  reconcile_deal : Text → Option ReconcileDealRequest → Route

-- The middleware of the group that a route is registered in.
pub data Gate : Type 0 where
  public protected operator : Gate

unfoldable pub gate_of : Route → Gate
gate_of (Route.get_public_deal token) = Gate.public
gate_of (Route.public_approve_deal token) = Gate.public
gate_of Route.list_disputes = Gate.operator
gate_of (Route.resolve_dispute id r) = Gate.operator
gate_of (Route.reconcile_deal id r) = Gate.operator
gate_of _ = Gate.protected

-- Nobody is signed in behind a public route.
abbrev anonymous : Caller
anonymous = record { user_id = []; email = []; is_operator = false }

abbrev pub then_operator : Response ⊎ Caller → Response ⊎ Caller
then_operator (inl response) = inl response
then_operator (inr caller) = operator_required caller

module _ (env : Env) (cfg : Config) where
  unfoldable pub handle : Caller → Route → M Response
  handle caller (Route.create_deal req) = Handlers.create_deal env cfg caller req
  handle caller Route.list_deals = Handlers.list_deals env cfg caller
  handle caller (Route.get_deal_by_id id) = Handlers.get_deal_by_id env cfg caller id
  handle caller (Route.check_payment id) = Handlers.check_payment env cfg caller id
  handle caller (Route.submit_work id) = Handlers.submit_work env cfg caller id
  handle caller (Route.approve_deal id) = Handlers.approve_deal env cfg caller id
  handle caller (Route.rotate_share_link id) = Handlers.rotate_share_link env cfg caller id
  handle caller (Route.update_deal_status id req) =
      Handlers.update_deal_status env cfg caller id req
  handle caller (Route.dispute_deal id req) = Handlers.dispute_deal env cfg caller id req
  handle caller (Route.update_payee_invoice id req) =
      Handlers.update_payee_invoice env cfg caller id req
  handle caller (Route.get_public_deal token) = Handlers.get_public_deal env cfg token
  handle caller (Route.public_approve_deal token) = Handlers.public_approve_deal env cfg token
  handle caller (Route.create_artifact id parts) = Uploads.create_artifact env cfg caller id parts
  handle caller (Route.list_artifacts_by_deal id) = Records.list_artifacts_by_deal env cfg caller id
  handle caller (Route.get_artifact_by_id id a) = Records.get_artifact_by_id env cfg caller id a
  handle caller (Route.download_artifact id a) = Records.download_artifact env cfg caller id a
  handle caller (Route.delete_artifact id a) = Records.delete_artifact env cfg caller id a
  handle caller (Route.create_verification a req) = Records.create_verification env cfg caller a req
  handle caller (Route.list_verifications_by_artifact a) =
      Records.list_verifications_by_artifact env cfg caller a
  handle caller (Route.get_verification_by_id id a v) =
      Records.get_verification_by_id env cfg caller id a v
  handle caller Route.list_disputes = Handlers.list_disputes env cfg caller
  handle caller (Route.resolve_dispute id req) = Handlers.resolve_dispute env cfg caller id req
  handle caller (Route.reconcile_deal id req) = Handlers.reconcile_deal env cfg caller id req

module _ (platform : Platform) (tm : TokenManager) (auth_env : Auth.Env) (now : Auth.World) where
  -- The middleware in front of a handler, with the Authorization header.
  unfoldable pub pass : Gate → Text → Response ⊎ Caller
  pass Gate.public header = inr anonymous
  pass Gate.protected header = auth_required platform tm auth_env now header
  pass Gate.operator header = then_operator (auth_required platform tm auth_env now header)

  abbrev pub go_on : Env → Config → Route → Response ⊎ Caller → M Response
  go_on env cfg route (inl response) = pure response
  go_on env cfg route (inr caller) = handle env cfg caller route

  unfoldable pub serve : Env → Config → Text → Route → M Response
  serve env cfg header route = go_on env cfg route (pass (gate_of route) header)
