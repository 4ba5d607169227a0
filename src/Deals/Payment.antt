-- ===== src/Deals/Payment.antt =====
-- The operations of service.go that follow LNbits: payment detection, the sweep of expired holds, the
-- share link's public view and approval, and the operator's reconciliation of a hung payout.
pub mod ShareLink
use ganji.Base.{
  ℕ, suc, Bool, true, false, not, ◌&&◌, ◌||◌, Option, none, some, List, [], ◌∷◌, Text, text_eq,
  is_empty, is_some, trim_space, to_lower, if◌then◌else◌,
}
use ganji.Deals.Status.{
  Status, awaiting_payment, locked, work_submitted, released, refunded, status_eq, can_transition,
}
use ganji.Deals.Types.{Time, Deal, PublicDeal, public_view, ReconcileAction}
use ganji.Deals.World.{
  Error, Result, ok, err, invalid_input, forbidden, invalid_transition, no_checking_id,
  payout_in_flight, payment_locked, deal_released, deal_refunded, Env, Config, M, pure, raise,
  ◌>>=◌, ◌>>◌, raise_if, try,
}
use ganji.Deals.Repository
use ganji.Deals.Repository.{pool, tx}
use ganji.Deals.Escrow.{
  lnbits_check, check_outgoing_payout, is_hold_released, anchor_released_deal, notify,
}
use ganji.Deals.Release.{ReleaseOptions, release_escrow}

module _ (env : Env) (cfg : Config) where
  -- `refreshPaymentStatus`: the deal as the caller sees it afterwards.
  unfoldable pub refresh_payment_status : Deal → M Deal
  refresh_payment_status deal = do
    payment ← lnbits_check env deal.checking_id
    if not payment.paid
        then pure deal
        else if status_eq deal.status awaiting_payment
        then (do
          transitioned ←
              Repository.update_status_if_current env pool deal.id awaiting_payment locked
          if transitioned
              then (do
                let done = record deal { status = locked }
                notify cfg payment_locked done
                pure done)
              else pure deal)
        else pure deal

  -- `CheckPayment` of the service.
  unfoldable pub check_payment : Text → Text → M Deal
  unfolding refresh_payment_status
  check_payment user_id deal_id = do
    deal ← Repository.get_deal_by_id env pool deal_id
    raise_if (not (text_eq deal.freelancer_id user_id)) forbidden
    raise_if (is_empty deal.checking_id) no_checking_id
    refresh_payment_status deal

  -- The body of the loop of `SweepExpiredHolds`: whether it refunded the deal.
  unfoldable pub sweep_deal : Deal → M Bool
  sweep_deal deal = if is_empty deal.checking_id then pure false else (do
    checked ← try (lnbits_check env deal.checking_id)
    elim checked [
      | err _ ↦ pure false
      | ok payment ↦
          if is_hold_released payment.details.status
          then (do
            updated ←
                try (Repository.update_status_if_current env pool deal.id deal.status refunded)
            elim updated [
              | err _ ↦ pure false
              | ok false ↦ pure false
              | ok true ↦ do notify cfg deal_refunded (record deal { status = refunded }); pure true
            ])
          else pure false
    ])

  unfoldable pub sweep_deals : List Deal → ℕ → M ℕ
  unfolding sweep_deal
  sweep_deals [] swept = pure swept
  sweep_deals (deal ∷ rest) swept = do
    refunded_it ← sweep_deal deal
    sweep_deals rest (if refunded_it then suc swept else swept)

  -- `SweepExpiredHolds`
  unfoldable pub sweep_expired_holds : Time → M ℕ
  unfolding sweep_deals
  sweep_expired_holds cutoff = do
    candidates ← Repository.list_open_before env pool cutoff
    sweep_deals candidates 0

  -- `_ = s.refreshPaymentStatus(ctx, deal)`, where the hold may have been paid meanwhile.
  unfoldable pub refresh_if_awaiting : Deal → M Deal
  unfolding refresh_payment_status
  refresh_if_awaiting deal =
      if not (is_empty deal.checking_id) && status_eq deal.status awaiting_payment
      then (do
        refreshed ← try (refresh_payment_status deal)
        elim refreshed [ ok d ↦ pure d | err _ ↦ pure deal ])
      else pure deal

  unfoldable pub get_public_deal : Text → M PublicDeal
  unfolding refresh_if_awaiting public_view
  get_public_deal share_token = do
    raise_if (is_empty share_token) invalid_input
    deal ← Repository.get_deal_by_share_token env pool share_token
    refreshed ← refresh_if_awaiting deal
    pure (public_view refreshed)

  unfoldable pub public_options : ReleaseOptions
  public_options = record {
    authorize =
        λ deal. if not (can_transition deal.status released) then err invalid_transition else ok tt;
    finalize = λ q id. Repository.update_status env q id released;
  }

  unfoldable pub public_approve_deal : Text → M Deal
  unfolding refresh_if_awaiting public_options
  public_approve_deal share_token = do
    raise_if (is_empty share_token) invalid_input
    found ← Repository.get_deal_by_share_token env pool share_token
    deal ← refresh_if_awaiting found
    raise_if (not (status_eq deal.status locked) && not (status_eq deal.status work_submitted))
        invalid_transition
    release_escrow env cfg public_options deal.id

  -- The transaction of `ReconcileConfirmPayout`.
  unfoldable pub record_reconciled : Text → Text → M Deal
  record_reconciled deal_id payout_checking_id = do
    deal ← Repository.get_deal_for_update env tx deal_id
    raise_if (not (can_transition deal.status released)) invalid_transition
    if text_eq deal.payout_checking_id payout_checking_id
        then pure tt
        else Repository.update_payout_checking_id env tx deal.id payout_checking_id
    Repository.update_status env tx deal.id released
    pure deal

  unfoldable pub confirm_payout : Text → Text → M Deal
  unfolding record_reconciled
  confirm_payout deal_id given_payout = do
    let payout_checking_id = trim_space given_payout
    raise_if (is_empty payout_checking_id) invalid_input
    checked ← try (check_outgoing_payout env payout_checking_id)
    elim checked [
      | err _ ↦ raise payout_in_flight
      | ok (paid, _) ↦ do
        raise_if (not paid) invalid_input
        deal ← Repository.transaction env (record_reconciled deal_id payout_checking_id)
        let done = record deal { status = released }
        anchor_released_deal cfg done
        notify cfg deal_released done
        pure done
    ]

  unfoldable pub reset_payout : Text → M Deal
  reset_payout deal_id = do
    deal ← Repository.get_deal_by_id env pool deal_id
    raise_if (status_eq deal.status released || status_eq deal.status refunded) invalid_transition
    raise_if (is_empty deal.payout_checking_id && not (is_some deal.payout_attempted_at))
        invalid_input
    Repository.clear_payout_tracking env pool deal_id
    pure (record deal { payout_checking_id = []; payout_attempted_at = none })

  -- `ReconcilePayout`
  unfoldable pub reconcile_payout : Text → Text → ReconcileAction → Text → M Deal
  unfolding confirm_payout reset_payout
  reconcile_payout operator_email deal_id action payout_checking_id = do
    let operator = to_lower env.lower_rune (trim_space operator_email)
    raise_if (is_empty operator) invalid_input
    raise_if (is_empty deal_id) invalid_input
    elim action [
      | ReconcileAction.confirm_payout ↦ confirm_payout deal_id payout_checking_id
      | ReconcileAction.reset_payout ↦ reset_payout deal_id
      | ReconcileAction.invalid ↦ raise invalid_input
    ]
