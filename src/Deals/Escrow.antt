-- ===== src/Deals/Escrow.antt =====
-- The calls of LNbits, the notifier and the CV, and the helpers of service.go that decide by what
-- LNbits answers.
use ganji.Base.{
  suc, Bool, true, false, ◌&&◌, [], ◌∷◌, Text, codes, text_eq, any, is_empty, if◌then◌else◌,
}
use ganji.Lnbits
use ganji.Lnbits.{
  Answer, CheckPaymentResponse, SimpleInvoiceResponse, Invoice, CreateHoldInvoiceRequest, refused,
  failed,
}
use ganji.Deals.Types.{Deal}
use ganji.Deals.World.{
  Error, Result, ok, err, invalid_input, payout_refused, lnbits_failed, Notice, Payout, Call, Env,
  Config, M, pure, raise, lift, ◌>>=◌, ◌>>◌, raise_if, try, call,
}

abbrev client_error : Lnbits.ClientError → Error
client_error refused = payout_refused
client_error failed = lnbits_failed

abbrev pub answer : {A : Type 0} → Answer A → Result A
answer (Answer.ok a) = ok a
answer (Answer.err e) = err (client_error e)

abbrev pub payout_of : Answer Text → Payout
payout_of (Answer.ok id) = Payout.sent
payout_of (Answer.err refused) = Payout.refused
payout_of (Answer.err failed) = Payout.unknown

-- `isPayoutConfirmed`, `isPayoutFailed`, `isHoldReleased`
unfoldable is_payout_confirmed : Text → Bool
is_payout_confirmed status =
    any (text_eq status)
      (codes "SETTLED" ∷ codes "COMPLETE" ∷ codes "SUCCEEDED" ∷ codes "PAID" ∷ [])

unfoldable is_payout_failed : Text → Bool
is_payout_failed status =
    any (text_eq status)
      (codes "FAILED" ∷ codes "UNPAID" ∷ codes "CANCELLED" ∷ codes "EXPIRED" ∷ [])

unfoldable pub is_hold_released : Text → Bool
is_hold_released status =
    any (text_eq status) (codes "UNPAID" ∷ codes "EXPIRED" ∷ codes "CANCELLED" ∷ [])

module _ (env : Env) where
  unfoldable pub lnbits_check : Text → M CheckPaymentResponse
  lnbits_check id = do
    t ← call (Call.check id)
    lift (answer (Lnbits.check_payment (env.check_reply t)))

  unfoldable lnbits_settle : Text → M SimpleInvoiceResponse
  lnbits_settle preimage = do
    t ← call (Call.settle preimage)
    lift (answer (Lnbits.settle_hold (env.settle_reply t)))

  unfoldable pub lnbits_cancel : Text → M SimpleInvoiceResponse
  lnbits_cancel hash = do
    t ← call (Call.cancel hash)
    lift (answer (Lnbits.cancel_hold (env.cancel_reply t)))

  -- The call is recorded with what became of the payment, as far as the client can tell.
  unfoldable pub lnbits_pay : Text → M Text
  lnbits_pay invoice w =
      let a = Lnbits.pay_invoice (env.pay_reply w.tick) in
      (answer a, record w { tick = suc w.tick; calls = Call.pay invoice (payout_of a) ∷ w.calls })

  unfoldable pub lnbits_create_hold : Lnbits.Config → CreateHoldInvoiceRequest → M Invoice
  lnbits_create_hold client req = do
    t ← call (Call.create_hold (Lnbits.hold_request client req))
    lift (answer (Lnbits.create_hold_invoice (env.hold_reply t)))

  -- `settleHoldGuarded`
  unfoldable pub settle_hold_guarded : Deal → M (Unit {0})
  unfolding lnbits_check lnbits_settle
  settle_hold_guarded deal = do
    raise_if (is_empty deal.preimage) invalid_input
    settled ← try (lnbits_settle deal.preimage)
    elim settled [
      | ok _ ↦ pure tt
      | err e ↦ do
        checked ← try (lnbits_check deal.checking_id)
        elim checked [
          | err _ ↦ raise e
          | ok payment ↦
              if text_eq payment.details.status (codes "SETTLED") then pure tt else raise e
        ]
    ]

  -- `checkOutgoingPayout`: (confirmed, failed)
  unfoldable pub check_outgoing_payout : Text → M (Bool × Bool)
  unfolding lnbits_check is_payout_confirmed is_payout_failed
  check_outgoing_payout payout_checking_id = do
    payment ← lnbits_check payout_checking_id
    if payment.paid && is_payout_confirmed payment.details.status
        then pure (true, false)
        else if is_payout_failed payment.details.status
        then pure (false, true)
        else pure (false, false)

  -- `cancelEscrowHold`
  unfoldable pub cancel_escrow_hold : Deal → M (Unit {0})
  unfolding lnbits_check lnbits_cancel is_hold_released
  cancel_escrow_hold deal = do
    raise_if (is_empty deal.preimage_hash) invalid_input
    cancelled ← try (lnbits_cancel deal.preimage_hash)
    elim cancelled [
      | ok _ ↦ pure tt
      | err e ↦ do
        checked ← try (lnbits_check deal.checking_id)
        elim checked [
          | err _ ↦ raise e
          | ok payment ↦ if is_hold_released payment.details.status then pure tt else raise e
        ]
    ]

  -- `cancelOrphanHold`: the error is logged only.
  unfoldable pub cancel_orphan_hold : Text → M (Unit {0})
  unfolding lnbits_cancel
  cancel_orphan_hold hash = do try (lnbits_cancel hash); pure tt

-- `anchorReleasedDeal` and the four notify functions: nothing where the part is not wired, and an
-- error of theirs is logged only.
module _ (cfg : Config) where
  unfoldable pub anchor_released_deal : Deal → M (Unit {0})
  anchor_released_deal deal =
      if cfg.has_cv then (call (Call.anchor deal.freelancer_id deal.id) >> pure tt) else pure tt

  unfoldable pub notify : Notice → Deal → M (Unit {0})
  notify n deal = if cfg.has_notifier then (call (Call.notify n deal.id) >> pure tt) else pure tt
