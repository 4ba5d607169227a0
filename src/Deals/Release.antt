-- ===== src/Deals/Release.antt =====
-- `releaseEscrow` of service.go in its three phases, and what goes through it: the client's approval,
-- by the account or by the share link, and the operator's release.
pub mod Ledger
pub mod Money
pub mod Intention
pub mod Safety
pub mod Lawful
pub mod Outcome
use ganji.Base.{
  Bool, true, false, not, ◌&&◌, Option, none, some, List, [], Text, text_eq, equal_fold, is_empty,
  is_some, trim_space, to_lower, if◌then◌else◌,
}
use ganji.Deals.Status.{
  Status, awaiting_payment, locked, work_submitted, released, disputed, refunded, status_eq,
  can_transition,
}
use ganji.Deals.Types.{Deal, DisputeResolution}
use ganji.Deals.World.{
  Error, Result, ok, err, invalid_input, forbidden, invalid_transition, payout_in_flight,
  payout_refused, deal_released, deal_refunded, Env, Config, M, pure, raise, lift, ◌>>=◌, ◌>>◌,
  raise_if, try, step,
}
use ganji.Deals.Repository.{
  Dbtx, pool, tx, transaction, get_deal_for_update, clear_payout_tracking, mark_payout_attempted,
  update_payout_checking_id, update_status, update_dispute_resolution,
}
use ganji.Deals.Escrow.{
  lnbits_pay, settle_hold_guarded, check_outgoing_payout, cancel_escrow_hold, anchor_released_deal,
  notify,
}

-- `releaseEscrowOptions`
pub record ReleaseOptions : Type 0 where
  pub authorize : Deal → Result (Unit {0})
  pub finalize : Dbtx → Text → M (Unit {0})

-- What phase 1 hands on: the row it read, whether the payout is already confirmed, and its id.
pub record Intent : Type 0 where
  pub deal : Deal
  pub confirmed : Bool
  pub payout_checking_id : Text

-- `errors.Is(err, lnbits.ErrPayoutRefused)`
abbrev pub is_payout_refused : Error → Bool
is_payout_refused payout_refused = true
is_payout_refused _ = false

module _ (env : Env) (cfg : Config) where
  -- The `switch` on the payout tracking of the row.
  unfoldable pub resume_payout : Deal → M Intent
  unfolding check_outgoing_payout clear_payout_tracking
  resume_payout deal =
      if not (is_empty deal.payout_checking_id)
      then (do
        verdict ← try (check_outgoing_payout env deal.payout_checking_id)
        elim verdict [
          | err _ ↦ raise payout_in_flight
          | ok (paid, failed) ↦
              if paid
              then pure (record {
                deal = deal;
                confirmed = true;
                payout_checking_id = deal.payout_checking_id;
              })
              else if failed
              then (do
                clear_payout_tracking env tx deal.id
                pure (record { deal = deal; confirmed = false; payout_checking_id = [] }))
              else raise payout_in_flight
        ])
      else if is_some deal.payout_attempted_at
      then raise payout_in_flight
      else pure
          (record { deal = deal; confirmed = false; payout_checking_id = deal.payout_checking_id })

  -- Phase 1 inside its transaction.
  unfoldable pub intend : ReleaseOptions → Text → M Intent
  unfolding resume_payout
  intend opts deal_id = do
    deal ← get_deal_for_update env tx deal_id
    lift (opts.authorize deal)
    intent ← resume_payout deal
    if intent.confirmed then pure tt else mark_payout_attempted env tx deal.id
    pure intent

  unfoldable pub begin_release : ReleaseOptions → Text → M Intent
  unfolding intend transaction
  begin_release opts deal_id = transaction env (intend opts deal_id)

  -- `clearPayoutAttempt`, whose own error is logged only.
  unfoldable pub clear_payout_attempt : Text → M (Unit {0})
  unfolding clear_payout_tracking
  clear_payout_attempt deal_id = do try (clear_payout_tracking env pool deal_id); pure tt

  -- The payout leg of phase 2.
  unfoldable pub pay_freelancer : Deal → M Text
  unfolding clear_payout_attempt
  pay_freelancer deal = do
    paid ← try (lnbits_pay env deal.payee_invoice)
    elim paid [
      | ok id ↦ pure id
      | err e ↦
          if is_payout_refused e
          then (do clear_payout_attempt deal.id; raise e)
          else raise payout_in_flight
    ]

  -- Phase 2, outside any transaction: the checking id of the payout.
  unfoldable pub move_money : Deal → M Text
  unfolding clear_payout_attempt pay_freelancer
  move_money deal = do
    settled ← try (settle_hold_guarded env deal)
    elim settled [ err e ↦ do clear_payout_attempt deal.id; raise e | ok _ ↦ pay_freelancer deal ]

  -- Phase 3 inside its transaction.
  unfoldable pub record_release : ReleaseOptions → Text → Status → Text → M Deal
  record_release opts deal_id original_status payout_checking_id = do
    deal ← get_deal_for_update env tx deal_id
    raise_if (not (status_eq original_status disputed) && status_eq deal.status disputed)
        invalid_transition
    raise_if (not (can_transition deal.status released)) invalid_transition
    if not (is_empty payout_checking_id) && is_empty deal.payout_checking_id
        then update_payout_checking_id env tx deal_id payout_checking_id
        else pure tt
    opts.finalize tx deal_id
    pure deal

  unfoldable pub finish_release : ReleaseOptions → Text → Status → Text → M Deal
  unfolding record_release transaction
  finish_release opts deal_id original_status payout_checking_id = do
    deal ← transaction env (record_release opts deal_id original_status payout_checking_id)
    let done = record deal { status = released }
    anchor_released_deal cfg done
    notify cfg deal_released done
    pure done

  unfoldable pub release_escrow : ReleaseOptions → Text → M Deal
  unfolding begin_release move_money finish_release
  release_escrow opts deal_id = do
    raise_if (is_empty deal_id) invalid_input
    intent ← begin_release opts deal_id
    payout ← if intent.confirmed then pure intent.payout_checking_id else move_money intent.deal
    finish_release opts deal_id intent.deal.status payout

  -- `ApproveDeal`
  unfoldable pub approve_options : Text → ReleaseOptions
  approve_options email = record {
    authorize = λ deal.
        if not (equal_fold env.fold_rune deal.client_email email)
        then err forbidden
        else if not (can_transition deal.status released)
        then err invalid_transition
        else ok tt;
    finalize = λ q id. update_status env q id released;
  }

  unfoldable pub approve_deal : Text → Text → M Deal
  unfolding approve_options release_escrow
  approve_deal email deal_id = do
    raise_if (is_empty deal_id) invalid_input
    release_escrow (approve_options email) deal_id

  -- The operator's release in `ResolveDispute`.
  unfoldable pub resolve_options : Text → ReleaseOptions
  resolve_options operator = record {
    authorize =
        λ deal. if not (status_eq deal.status disputed) then err invalid_transition else ok tt;
    finalize = λ q id. update_dispute_resolution env q id released operator;
  }

  -- `refundDispute`
  unfoldable pub refund_dispute : Text → Text → M Deal
  refund_dispute operator deal_id = do
    deal ← transaction env (do
      deal ← get_deal_for_update env tx deal_id
      raise_if (not (status_eq deal.status disputed)) invalid_transition
      cancel_escrow_hold env deal
      update_dispute_resolution env tx deal_id refunded operator
      pure deal)
    t ← step
    let done = record deal {
      status = refunded;
      resolved_at = some (env.now t);
      resolved_by = operator;
    }
    notify cfg deal_refunded done
    pure done

  -- `ResolveDispute`
  unfoldable pub resolve_dispute : Text → Text → DisputeResolution → M Deal
  unfolding resolve_options release_escrow refund_dispute
  resolve_dispute operator_email deal_id resolution = do
    raise_if (is_empty deal_id) invalid_input
    let operator = to_lower env.lower_rune (trim_space operator_email)
    raise_if (is_empty operator) invalid_input
    elim resolution [
      | DisputeResolution.release ↦ do
        deal ← release_escrow (resolve_options operator) deal_id
        t ← step
        pure (record deal { resolved_at = some (env.now t); resolved_by = operator })
      | DisputeResolution.refund ↦ refund_dispute operator deal_id
      | DisputeResolution.invalid ↦ raise invalid_input
    ]
