-- ===== src/Webhook.antt =====
-- Package webhook (backend/internal/webhook): the payment notifications of LNbits.
pub mod Delivery
pub mod Signature
pub mod Handler
use ganji.Base.{ℕ, Bool, true, false, not, ◌&&◌, Option, none, some, Text, is_empty, if◌then◌else◌}
use ganji.Base.Int.{ℤ}
use ganji.Deals.Status.{awaiting_payment, locked}
use ganji.Deals.World.{
  Error, Result, ok, err, deal_not_found, payment_locked, Env, Config, M, pure, ◌>>=◌, ◌>>◌, try,
}
use ganji.Deals.Repository
use ganji.Deals.Repository.{pool}
use ganji.Deals.Escrow.{lnbits_check, notify}

pub record PaymentNotification : Type 0 where
  pub checking_id : Text
  pub payment_hash : Text
  pub amount : ℤ
  pub fee : ℤ
  pub memo : Text
  pub status : Text

-- The sentinel errors of webhook/service.go; `internal` is any other error.
pub data WebhookError : Type 0 where
  malformed_payload payment_failed no_deal : WebhookError
  internal : Error → WebhookError

abbrev lookup_error : Error → WebhookError
lookup_error deal_not_found = no_deal
lookup_error e = internal e

module _ (env : Env) (cfg : Config) where
  -- From the row on: lock the deal if it still awaits payment, and tell of it once.
  unfoldable pub lock_deal : Text → M (Option WebhookError)
  lock_deal checking_id = do
    found ← try (Repository.get_deal_by_checking_id env pool checking_id)
    elim found [
      | err e ↦ pure (some (lookup_error e))
      | ok deal ↦ do
        updated ← try (Repository.update_status_if_current env pool deal.id awaiting_payment locked)
        elim updated [
          | err e ↦ pure (some (internal e))
          | ok transitioned ↦ do
            if transitioned then notify cfg payment_locked deal else pure tt
            pure none
        ]
    ]

  -- `HandlePayment`: its error, if any. The status in the notification is not read.
  unfoldable pub handle_payment : PaymentNotification → M (Option WebhookError)
  unfolding lock_deal
  handle_payment n = if is_empty n.checking_id then pure (some malformed_payload) else (do
    checked ← try (lnbits_check env n.checking_id)
    elim checked [
      | err e ↦ pure (some (internal e))
      | ok payment ↦
          if not payment.paid then pure (some payment_failed) else lock_deal n.checking_id
    ])
