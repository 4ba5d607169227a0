-- ===== src/Deals/Handlers.antt =====
-- backend/internal/deals/handler.go: what the routes of the deals answer.
--
-- A request body is what `ShouldBindJSON` binds: `none` where it does not decode or a field that
-- `binding:"required"` asks for is empty.
pub mod Uploads
pub mod Records
use ganji.Base.{ℕ, Bool, Option, none, some, List, [], Text, codes, if◌then◌else◌}
use ganji.Base.Int.{ℤ, pos}
use ganji.Deals.Status.{Status, other, refunded, status_eq}
use ganji.Deals.Types.{Deal, DisputeResolution, ReconcileAction, view, public_view, deals_view}
use ganji.Deals.World.{
  Error, Result, ok, err, invalid_input, forbidden, deal_not_found, invalid_transition,
  no_checking_id, payout_in_flight, Env, Config, M, pure, ◌>>=◌, try,
}
use ganji.Deals.Lifecycle
use ganji.Deals.Payment
use ganji.Deals.Release
use ganji.Http.{Caller, Body, Response, respond, refuse, fail, internal_error}

pub record CreateDealRequest : Type 0 where
  pub title : Text
  pub amount_sats : ℤ
  pub source_platform : Text
  pub client_email : Text
  pub payee_invoice : Text

pub record ReconcileDealRequest : Type 0 where
  pub action : ReconcileAction
  pub payout_checking_id : Text

-- `if err != nil { switch ... }`, and the answer otherwise.
abbrev pub answered : {A : Type 0} → (Error → Response) → (A → Response) → Result A → Response
answered failed done (ok a) = done a
answered failed done (err e) = failed e

abbrev pub answer : {A : Type 0} → (Error → Response) → (A → Response) → M A → M Response
answer failed done m = do r ← try m; pure (answered failed done r)

-- The switches on the error.
unfoldable pub refuse_creation : Error → Response
refuse_creation invalid_input = refuse 400 invalid_input
refuse_creation e =
    fail 502
      "payment provider error: could not create the escrow hold invoice. Your LNbits wallet must support hold (HODL) invoices — see backend/.env LNBITS_URL."

unfoldable pub refuse_reading : Error → Response
refuse_reading invalid_input = refuse 400 invalid_input
refuse_reading forbidden = refuse 403 forbidden
refuse_reading deal_not_found = refuse 404 deal_not_found
refuse_reading e = internal_error

unfoldable pub refuse_listing : Error → Response
refuse_listing invalid_input = refuse 400 invalid_input
refuse_listing e = internal_error

unfoldable pub refuse_change : Error → Response
refuse_change invalid_input = refuse 400 invalid_input
refuse_change invalid_transition = refuse 400 invalid_transition
refuse_change forbidden = refuse 403 forbidden
refuse_change deal_not_found = refuse 404 deal_not_found
refuse_change e = internal_error

unfoldable pub refuse_payment : Error → Response
refuse_payment forbidden = refuse 403 forbidden
refuse_payment deal_not_found = refuse 404 deal_not_found
refuse_payment no_checking_id = refuse 400 no_checking_id
refuse_payment e = internal_error

unfoldable pub refuse_reconcile : Error → Response
refuse_reconcile payout_in_flight = refuse 409 payout_in_flight
refuse_reconcile e = refuse_change e

unfoldable pub refuse_link : Error → Response
refuse_link invalid_input = refuse 400 invalid_input
refuse_link deal_not_found = refuse 404 deal_not_found
refuse_link e = internal_error

abbrev refuse_disputes : Error → Response
refuse_disputes e = internal_error

-- `gin.H{"deal": deal.View()}`, with a message.
abbrev deal_answer : Option Text → Deal → Response
deal_answer message d = respond 200 (Body.deal message (view d))

abbrev resolved_answer : Deal → Response
resolved_answer d =
    deal_answer
      (some (
        if status_eq d.status refunded
        then codes "dispute resolved — escrow refunded to the client"
        else codes "dispute resolved — escrow released to the freelancer"))
      d

-- The deal of the request; its other columns are zero values.
abbrev requested_deal : Caller → CreateDealRequest → Deal
requested_deal caller req = record {
  id = [];
  freelancer_id = caller.user_id;
  client_email = req.client_email;
  title = req.title;
  amount_sats = req.amount_sats;
  source_platform = req.source_platform;
  preimage_hash = [];
  preimage = [];
  payee_invoice = req.payee_invoice;
  invoice = [];
  checking_id = [];
  payout_checking_id = [];
  payout_attempted_at = none;
  share_token = [];
  status = other [];
  dispute_reason = [];
  disputed_at = none;
  resolved_at = none;
  resolved_by = [];
  created_at = 0;
  verified_at = none;
}

module _ (env : Env) (cfg : Config) where
  unfoldable pub create_deal : Caller → Option CreateDealRequest → M Response
  create_deal caller none = pure (fail 400 "invalid request body")
  create_deal caller (some req) =
      answer refuse_creation (λ d. respond 201 (Body.deal none (view d)))
        (Lifecycle.create_deal env cfg (requested_deal caller req))

  unfoldable pub get_deal_by_id : Caller → Text → M Response
  get_deal_by_id caller deal_id =
      answer refuse_reading (deal_answer none)
        (Lifecycle.get_deal_by_id env cfg deal_id caller.user_id caller.email)

  unfoldable pub list_deals : Caller → M Response
  list_deals caller =
      answer refuse_listing (λ ds. respond 200 (Body.deals (deals_view ds)))
        (Lifecycle.list_by_user env cfg caller.user_id caller.email)

  unfoldable pub update_deal_status : Caller → Text → Option Status → M Response
  update_deal_status caller deal_id none = pure (fail 400 "invalid request body")
  update_deal_status caller deal_id (some status) =
      answer refuse_change (λ _. respond 200 (Body.message (codes "deal status updated")))
        (Lifecycle.update_status env cfg caller.user_id deal_id status)

  unfoldable pub check_payment : Caller → Text → M Response
  check_payment caller deal_id =
      answer refuse_payment (deal_answer none)
        (Payment.check_payment env cfg caller.user_id deal_id)

  unfoldable pub submit_work : Caller → Text → M Response
  submit_work caller deal_id =
      answer refuse_change (deal_answer (some (codes "work submitted")))
        (Lifecycle.submit_work env cfg caller.user_id deal_id)

  unfoldable pub approve_deal : Caller → Text → M Response
  approve_deal caller deal_id =
      answer refuse_change (deal_answer (some (codes "deal approved and escrow released")))
        (Release.approve_deal env cfg caller.email deal_id)

  unfoldable pub dispute_deal : Caller → Text → Option Text → M Response
  dispute_deal caller deal_id none = pure (fail 400 "dispute reason is required")
  dispute_deal caller deal_id (some reason) =
      answer refuse_change
        (deal_answer (some (codes "dispute raised — funds frozen pending arbitration")))
        (Lifecycle.dispute_deal env cfg caller.email deal_id reason)

  unfoldable pub list_disputes : Caller → M Response
  list_disputes caller =
      answer refuse_disputes (λ ds. respond 200 (Body.disputes (deals_view ds)))
        (Lifecycle.list_disputes env cfg)

  unfoldable pub resolve_dispute : Caller → Text → Option DisputeResolution → M Response
  resolve_dispute caller deal_id none = pure (fail 400 "resolution is required")
  resolve_dispute caller deal_id (some resolution) =
      answer refuse_change resolved_answer
        (Release.resolve_dispute env cfg caller.email deal_id resolution)

  unfoldable pub reconcile_deal : Caller → Text → Option ReconcileDealRequest → M Response
  reconcile_deal caller deal_id none = pure (fail 400 "invalid request body")
  reconcile_deal caller deal_id (some req) =
      answer refuse_reconcile (deal_answer none)
        (Payment.reconcile_payout env cfg caller.email deal_id req.action req.payout_checking_id)

  unfoldable pub update_payee_invoice : Caller → Text → Option Text → M Response
  update_payee_invoice caller deal_id none = pure (fail 400 "invalid request body")
  update_payee_invoice caller deal_id (some invoice) =
      answer refuse_change (deal_answer (some (codes "payee invoice updated")))
        (Lifecycle.update_payee_invoice env cfg caller.user_id deal_id invoice)

  unfoldable pub get_public_deal : Text → M Response
  get_public_deal share_token =
      answer refuse_link (λ d. respond 200 (Body.public_deal none d))
        (Payment.get_public_deal env cfg share_token)

  unfoldable pub public_approve_deal : Text → M Response
  public_approve_deal share_token =
      answer refuse_change
        (λ d.
          respond 200
            (Body.public_deal (some (codes "deal approved and escrow released")) (public_view d)))
        (Payment.public_approve_deal env cfg share_token)

  unfoldable pub rotate_share_link : Caller → Text → M Response
  rotate_share_link caller deal_id =
      answer refuse_change (deal_answer (some (codes "share link regenerated")))
        (Lifecycle.rotate_share_link env cfg caller.user_id deal_id)
