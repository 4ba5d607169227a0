-- ===== src/Webhook/Delivery.antt =====
-- `HandlePayment` of webhook/service.go, when LNbits does not confirm the payment.
use ganji.Base.{◌≡◌, ◌⊎◌, Bool, false, ◌∷◌, arith}
use ganji.Lnbits
use ganji.Deals.World.{Call, World, Env, Config, ◌>>=◌}
use ganji.Deals.Escrow.{lnbits_check}
use ganji.Webhook.{PaymentNotification, handle_payment}

-- LNbits says that the payment was made.
abbrev pub confirms : Lnbits.Answer Lnbits.CheckPaymentResponse → Bool
confirms (Lnbits.ok p) = p.paid
confirms (Lnbits.err e) = false

module _ (env : Env) (cfg : Config) (n : PaymentNotification) (w : World) where
  -- Unless LNbits itself says that the payment was made, a notification changes no table and notifies
  -- nobody, whatever the notification says.
  pub handle_payment_unconfirmed :
      confirms (Lnbits.check_payment (env.check_reply w.tick)) ≡ false
      → ((handle_payment env cfg n w).1.tables ≡ w.tables)
        × (((handle_payment env cfg n w).1.calls ≡ w.calls)
            ⊎ ((handle_payment env cfg n w).1.calls ≡ Call.check n.checking_id ∷ w.calls))
  unfolding handle_payment ◌>>=◌ lnbits_check
  handle_payment_unconfirmed unpaid = ground arith
