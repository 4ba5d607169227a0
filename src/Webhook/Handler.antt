-- ===== src/Webhook/Handler.antt =====
-- backend/internal/webhook/handler.go: `HandleLNbitsWebhook`. The answer is its status code; HMAC-SHA256 and
-- json.Unmarshal are parameters.
use ganji.Base.{
  ℕ, ◌≡◌, ◌≢◌, refl, ◌∙◌, true, false, not, ◌&&◌, Option, none, some, Text, is_empty, inl, inr,
  Bool-cases, if◌then◌else◌, arith,
}
use ganji.Deals.World.{World, Env, Config, M, pure, ◌>>=◌}
use ganji.Webhook.{PaymentNotification, WebhookError, handle_payment}
use ganji.Webhook.Delivery.{confirms, handle_payment_unconfirmed}
use ganji.Webhook.Signature.{verify_lnbits_signature}
use ganji.Lnbits

-- What reading at most 1 MiB of the body gives.
pub data RawBody : Type 0 where
  received : Text → RawBody
  too_large unreadable : RawBody

-- The status codes of the errors of `HandlePayment`; a payment that failed is acknowledged.
unfoldable pub status_of : Option WebhookError → ℕ
status_of none = 200
status_of (some WebhookError.malformed_payload) = 400
status_of (some WebhookError.payment_failed) = 200
status_of (some WebhookError.no_deal) = 404
status_of (some (WebhookError.internal e)) = 500

module _ (hmac : Text → Text → Text) (unmarshal : Text → Option PaymentNotification) (secret : Text)
    (env : Env) (cfg : Config) (now : ℕ) where
  abbrev handle_notification : Option PaymentNotification → M ℕ
  handle_notification none = pure 400
  handle_notification (some n) = do e ← handle_payment env cfg n; pure (status_of e)

  unfoldable pub handle_lnbits_webhook : Text → RawBody → M ℕ
  handle_lnbits_webhook header RawBody.too_large = pure 413
  handle_lnbits_webhook header RawBody.unreadable = pure 400
  handle_lnbits_webhook header (RawBody.received body) =
      if not (is_empty secret) && not (verify_lnbits_signature hmac now body secret header)
      then pure 401
      else handle_notification (unmarshal body)

  -- What stands behind a webhook that changes a row.
  abbrev pub IsGenuine : Text → RawBody → World → Type 0
  IsGenuine header raw w =
      (body : Text) × (n : PaymentNotification) × (raw ≡ RawBody.received body)
      × (verify_lnbits_signature hmac now body secret header ≡ true)
      × (unmarshal body ≡ some n)
      × (confirms (Lnbits.check_payment (env.check_reply w.tick)) ≡ true)

  notification-tables :
      (n : PaymentNotification) (w : World)
      → (handle_notification (some n) w).1.tables ≡ (handle_payment env cfg n w).1.tables
  unfolding ◌>>=◌ pure
  notification-tables n w = ground arith

  -- Where a secret is set, a webhook changes the tables only if its header verifies for the body that was
  -- received and LNbits itself says that the payment was made.
  pub handle_lnbits_webhook-IsGenuine :
      (is_empty secret ≡ false)
      → (header : Text) (raw : RawBody) (w : World)
      → ((handle_lnbits_webhook header raw w).1.tables ≢ w.tables)
      → IsGenuine header raw w
  unfolding handle_lnbits_webhook pure
  handle_lnbits_webhook-IsGenuine set header RawBody.too_large w changed = absurd (changed refl)
  handle_lnbits_webhook-IsGenuine set header RawBody.unreadable w changed = absurd (changed refl)
  handle_lnbits_webhook-IsGenuine set header (RawBody.received body) w changed =
      elim (Bool-cases (verify_lnbits_signature hmac now body secret header)) [
        | inr e ↦ absurd (changed (rw (set, e) refl))
        | inl e ↦ go e (unmarshal body) refl (λ same. changed (rw (set, e) same))
      ]
    where
      go :
          (verify_lnbits_signature hmac now body secret header ≡ true)
          → (n : Option PaymentNotification) → (unmarshal body ≡ n)
          → ((handle_notification n w).1.tables ≢ w.tables)
          → IsGenuine header (RawBody.received body) w
      go signed none e changed = absurd (changed refl)
      go signed (some n) e changed =
          elim (Bool-cases (confirms (Lnbits.check_payment (env.check_reply w.tick)))) [
            | inl c ↦ (body, n, refl, signed, e, c)
            | inr c ↦
                absurd
                  (changed (notification-tables n w ∙ (handle_payment_unconfirmed env cfg n w c).0))
          ]
