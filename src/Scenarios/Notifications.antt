-- ===== src/Scenarios/Notifications.antt =====
-- The webhook at small inputs.
use ganji.Base.{
  ℕ, ◌≡◌, ◌≢◌, refl, ap, subst, ◌≤◌, ◌↔◌, ◌+◌, ◌*◌, Bool, true, false, Option, none, some, List, [],
  ◌∷◌, ◌++◌, Text, codes, text_eq, inl, inr, ◌⊎◌, arith,
}
use ganji.Base.Int.{pos}
use ganji.Deals.Status.{awaiting_payment, locked}
use ganji.Deals.Types.{Deal}
use ganji.Deals.World.{Tables}
use ganji.Webhook.{PaymentNotification}
use ganji.Webhook.Signature.{verify_lnbits_signature, signature_tolerance}
use ganji.Webhook.Signature.Headers.{signed_header, verify_lnbits_signature_iff}
use ganji.Webhook.Handler.{
  received, handle_lnbits_webhook, IsGenuine, handle_lnbits_webhook-IsGenuine,
}
use ganji.Scenarios.Fixtures.{calm, config, world_in}

-- A code of two bytes that depends on the key and the length of the message only.
abbrev two_bytes : Text → Text → Text
two_bytes key message = ganji.Base.length key ∷ ganji.Base.length message ∷ []

abbrev secret : Text
secret = codes "s"

abbrev body : Text
body = codes "{}"

verify_lnbits_signature_iff_example :
    (verify_lnbits_signature two_bytes 2000000000 body secret
        (signed_header (codes "1") (1 ∷ 4 ∷ []))
      ≡ true)
    ↔ ((2000000000 ≤ 1 * 1000000000 + signature_tolerance)
        × (1 * 1000000000 ≤ 2000000000 + signature_tolerance)
        × ((1 ∷ 4 ∷ []) ≡ two_bytes secret (codes "1" ++ codes "." ++ body)))
verify_lnbits_signature_iff_example =
    verify_lnbits_signature_iff two_bytes 2000000000 body secret (codes "1") (1 ∷ 4 ∷ []) 1 refl
      refl refl (omega arith, (omega arith, tt))

abbrev paid : PaymentNotification
paid = record {
  checking_id = codes "chk";
  payment_hash = codes "hash";
  amount = pos 1000;
  fee = pos 0;
  memo = [];
  status = codes "success";
}

abbrev header : Text
header = signed_header (codes "1") (1 ∷ 4 ∷ [])

-- The status of the first deal.
abbrev first_locked : List Deal → Bool
first_locked [] = false
first_locked (d ∷ ds) = ganji.Deals.Status.status_eq d.status locked

webhook_locks :
    first_locked
      (handle_lnbits_webhook two_bytes
        (λ b. some paid)
        secret
        calm
        config
        2000000000
        header
        (received body)
        (world_in awaiting_payment)).1.tables.deals
    ≡ true
unfolding handle_lnbits_webhook verify_lnbits_signature ganji.Base.Hex.encode_hex
    ganji.Base.Text-discrete ganji.Base.trim_space ganji.Base.Hex.decode_hex ganji.Deals.World.◌>>=◌
    ganji.Webhook.handle_payment ganji.Deals.Escrow.lnbits_check ganji.Lnbits.check_payment
    ganji.Deals.Repository.get_deal_by_checking_id ganji.Deals.Repository.update_status_if_current
    ganji.Deals.Status.Status-discrete ganji.Deals.Escrow.notify
webhook_locks = refl

changes :
    (handle_lnbits_webhook two_bytes
      (λ b. some paid)
      secret
      calm
      config
      2000000000
      header
      (received body)
      (world_in awaiting_payment)).1.tables
    ≢ (world_in awaiting_payment).tables
unfolding ganji.Base.Text-discrete ganji.Deals.Status.Status-discrete
changes e =
    let same : false ≡ true = subst (λ t. first_locked t.deals ≡ true) e webhook_locks in
    absurd (ground arith)

handle_lnbits_webhook-IsGenuine_example :
    IsGenuine two_bytes
      (λ b. some paid)
      secret
      calm
      config
      2000000000
      header
      (received body)
      (world_in awaiting_payment)
handle_lnbits_webhook-IsGenuine_example =
    handle_lnbits_webhook-IsGenuine two_bytes (λ b. some paid) secret calm config 2000000000 refl
      header (received body) (world_in awaiting_payment) changes
