-- ===== src/Deals/Lifecycle.antt =====
-- The deal operations of service.go that move no money: creation, reading, the freelancer's status
-- changes, the payee invoice, the share link, disputes.
pub mod Changes
pub mod Creation
pub mod Disputes
pub mod Lists
use ganji.Base.{
  ℕ, ◌+◌, Bool, true, false, not, ◌&&◌, ◌||◌, Option, none, some, List, [], ◌∷◌, Text, text_eq,
  equal_fold, is_empty, any, length, ltb, trim_space, to_lower, ◌==◌, if◌then◌else◌,
}
use ganji.Base.Int.{ℤ, pos, leb_ℤ}
use ganji.Lnbits.{CreateHoldInvoiceRequest, Invoice}
use ganji.Deals.Status.{
  Status, awaiting_payment, locked, work_submitted, released, disputed, refunded, other, status_eq,
  can_transition,
}
use ganji.Deals.Types.{Deal, Artifact}
use ganji.Deals.World.{
  Error, Result, ok, err, invalid_input, forbidden, invalid_transition, random_failed,
  deal_disputed, Env, Config, M, pure, raise, lift, ◌>>=◌, ◌>>◌, raise_if, try, step,
}
use ganji.Deals.Repository
use ganji.Deals.Repository.{pool, tx}
use ganji.Deals.Escrow.{lnbits_create_hold, cancel_orphan_hold, notify}

-- `maxDisputeReasonRunes`
abbrev max_dispute_reason_runes : ℕ
max_dispute_reason_runes = 2000

-- The statuses that `UpdateStatus` leaves to the backend.
unfoldable pub is_money_transition : Status → Bool
is_money_transition locked = true
is_money_transition released = true
is_money_transition disputed = true
is_money_transition refunded = true
is_money_transition _ = false

-- The `switch` that freezes a deal whose money has moved.
unfoldable pub is_frozen : Status → Bool
is_frozen released = true
is_frozen refunded = true
is_frozen _ = false

module _ (env : Env) where
  -- `isValidEmail`
  unfoldable is_valid_email : Text → Bool
  is_valid_email s = elim (env.parse_address s) [
    | none ↦ false
    | some address ↦ text_eq address s && any (λ c. c == b'@') s
  ]

  -- The normalised fields of `CreateDeal`.
  unfoldable pub normalise : Deal → Deal
  normalise deal = record deal {
    title = trim_space deal.title;
    source_platform = trim_space deal.source_platform;
    payee_invoice = trim_space deal.payee_invoice;
    client_email = to_lower env.lower_rune (trim_space deal.client_email);
  }

  -- The checks of `CreateDeal`, in its order.
  unfoldable pub validate : Deal → Result (Unit {0})
  unfolding is_valid_email
  validate deal =
      if is_empty deal.freelancer_id
      then err invalid_input
      else if not (is_valid_email deal.client_email)
      then err invalid_input
      else if is_empty deal.title
      then err invalid_input
      else if leb_ℤ deal.amount_sats (pos 0)
      then err invalid_input
      else if is_empty deal.source_platform
      then err invalid_input
      else if is_empty deal.payee_invoice
      then err invalid_input
      else ok tt

  abbrev default_status : Status → Status
  default_status s = if status_eq s (other []) then awaiting_payment else s

  abbrev pub random : (ℕ → Option Text) → M Text
  random source = do
    t ← step
    elim (source t) [ none ↦ raise random_failed | some bytes ↦ pure bytes ]

  -- `generateShareToken`
  unfoldable pub generate_share_token : M Text
  generate_share_token = random env.random_token

module _ (env : Env) (cfg : Config) where
  -- The row that `CreateDeal` inserts once LNbits has drawn the hold invoice. Whatever fails in the
  -- transaction, the hold is cancelled.
  unfoldable pub persist_deal : Deal → M Deal
  persist_deal deal = do
    persisted ← try (Repository.transaction env (Repository.create_deal env tx deal))
    elim persisted [
      | ok stored ↦ pure stored
      | err e ↦ do cancel_orphan_hold env deal.preimage_hash; raise e
    ]

  -- `CreateDeal`
  unfoldable pub create_deal : Deal → M Deal
  unfolding normalise validate generate_share_token persist_deal
  create_deal given = do
    let deal = normalise env given
    lift (validate env deal)
    preimage ← random env env.random_hex
    let hash = env.sha256 preimage
    share_token ← generate_share_token env
    hold ← lnbits_create_hold env cfg.client (record {
      out = false;
      amount = deal.amount_sats;
      memo = deal.title;
      payment_hash = hash;
      expiry = pos 0;
      webhook = [];
      unit = [];
    })
    persist_deal (record deal {
      status = default_status env deal.status;
      preimage = preimage;
      preimage_hash = hash;
      share_token = share_token;
      invoice = hold.payment_request;
      checking_id = hold.checking_id;
    })

  -- Whether the caller is the freelancer, or the client by email.
  abbrev pub is_party : Deal → Text → Text → Bool
  is_party deal user_id email =
      text_eq deal.freelancer_id user_id || equal_fold env.fold_rune deal.client_email email

  unfoldable pub get_deal_by_id : Text → Text → Text → M Deal
  get_deal_by_id deal_id user_id email = do
    raise_if (is_empty deal_id) invalid_input
    deal ← Repository.get_deal_by_id env pool deal_id
    raise_if (not (is_party deal user_id email)) forbidden
    pure deal

  unfoldable pub list_by_user : Text → Text → M (List Deal)
  list_by_user user_id email = do
    raise_if (is_empty user_id) invalid_input
    Repository.list_for_user env pool user_id email

  unfoldable pub update_status : Text → Text → Status → M (Unit {0})
  unfolding is_money_transition
  update_status user_id deal_id new_status = do
    deal ← Repository.get_deal_by_id env pool deal_id
    raise_if (not (text_eq deal.freelancer_id user_id)) forbidden
    raise_if (is_money_transition new_status) invalid_transition
    raise_if (not (can_transition deal.status new_status)) invalid_transition
    Repository.update_status env pool deal_id new_status

  unfoldable pub submit_work : Text → Text → M Deal
  submit_work user_id deal_id = do
    raise_if (is_empty deal_id) invalid_input
    deal ← Repository.get_deal_by_id env pool deal_id
    raise_if (not (text_eq deal.freelancer_id user_id)) forbidden
    artifacts ← Repository.list_artifacts_by_deal env pool deal_id
    raise_if (length artifacts == 0) invalid_input
    raise_if (not (can_transition deal.status work_submitted)) invalid_transition
    Repository.update_status env pool deal_id work_submitted
    pure (record deal { status = work_submitted })

  unfoldable pub dispute_deal : Text → Text → Text → M Deal
  dispute_deal email deal_id given_reason = do
    raise_if (is_empty deal_id) invalid_input
    let reason = trim_space given_reason
    raise_if (is_empty reason) invalid_input
    raise_if (ltb max_dispute_reason_runes (length reason)) invalid_input
    deal ← Repository.get_deal_by_id env pool deal_id
    raise_if (not (equal_fold env.fold_rune deal.client_email email)) forbidden
    raise_if (not (can_transition deal.status disputed)) invalid_transition
    transitioned ← Repository.update_dispute_if_current env pool deal_id deal.status reason
    raise_if (not transitioned) invalid_transition
    t ← step
    let done = record deal {
      status = disputed;
      dispute_reason = reason;
      disputed_at = some (env.now t);
    }
    notify cfg deal_disputed done
    pure done

  unfoldable pub list_disputes : M (List Deal)
  list_disputes = Repository.list_disputed env pool

  unfoldable pub update_payee_invoice : Text → Text → Text → M Deal
  unfolding is_frozen
  update_payee_invoice user_id given_id given_invoice = do
    let deal_id = trim_space given_id
    let bolt11 = trim_space given_invoice
    raise_if (is_empty deal_id) invalid_input
    raise_if (is_empty bolt11) invalid_input
    deal ← Repository.get_deal_by_id env pool deal_id
    raise_if (not (text_eq deal.freelancer_id user_id)) forbidden
    raise_if (is_frozen deal.status) invalid_input
    if text_eq deal.payee_invoice bolt11 then pure deal else (do
      Repository.update_payee_invoice env pool deal_id bolt11
      pure (record deal { payee_invoice = bolt11 }))

  unfoldable pub rotate_share_link : Text → Text → M Deal
  unfolding is_frozen generate_share_token
  rotate_share_link user_id deal_id = do
    raise_if (is_empty deal_id) invalid_input
    deal ← Repository.get_deal_by_id env pool deal_id
    raise_if (not (text_eq deal.freelancer_id user_id)) forbidden
    raise_if (is_frozen deal.status) invalid_input
    token ← generate_share_token env
    Repository.update_share_token env pool deal_id token
    pure (record deal { share_token = token })
