-- ===== src/Requests/Payers.antt =====
-- The payouts that each of the requests of `Requests` asks for.
use ganji.Base.{ℕ, ◌≡◌, arith, Bool, true, false, List, [], ◌∷◌, Text, if◌then◌else◌, suc}
use ganji.Deals.Status.{Status}
use ganji.Deals.Types.{Time, Deal, DisputeResolution, ReconcileAction}
use ganji.Deals.World.{ok, err, World, Env, Config, ◌>>=◌}
use ganji.Deals.Contract.Row.{payouts}
use ganji.Deals.Repository
use ganji.Deals.Repository.{pool, tx}
use ganji.Deals.Silent.{
  Silent, silence, Silent-bind, Silent-if, Silent-try, Silent-raise_if, Silent-raise, Silent-pure,
  Silent-check,
}
use ganji.Deals.Release.{refund_dispute, resolve_dispute}
use ganji.Deals.Lifecycle.{
  update_status, submit_work, dispute_deal, update_payee_invoice, rotate_share_link,
  generate_share_token,
}
use ganji.Deals.Payment.{
  refresh_payment_status, check_payment, sweep_deal, sweep_deals, sweep_expired_holds,
  refresh_if_awaiting, get_public_deal, record_reconciled, confirm_payout, reset_payout,
  reconcile_payout,
}
use ganji.Webhook.{PaymentNotification, lock_deal, handle_payment}
use ganji.Requests.{Request, serve}
use ganji.Requests.Request.{
  approve, release_by_link, resolve, confirm, reset, dispute, change_status, submit, poll,
  view_link, change_invoice, rotate_link, notification, sweep,
}

-- The requests that release a deal.
abbrev is_release : Request → Bool
is_release (approve _) = true
is_release release_by_link = true
is_release (resolve _ DisputeResolution.release) = true
is_release _ = false

module _ (env : Env) (cfg : Config) where
  update_status-Silent : (user id : Text) (s : Status) → Silent (update_status env cfg user id s)
  unfolding update_status Repository.get_deal_by_id Repository.update_status
  update_status-Silent user id s = search silence depth 12

  submit_work-Silent : (user id : Text) → Silent (submit_work env cfg user id)
  unfolding submit_work Repository.get_deal_by_id Repository.update_status
      Repository.list_artifacts_by_deal
  submit_work-Silent user id = search silence depth 16

  cas-Silent :
      (id : Text) (expected s : Status)
      → Silent (Repository.update_status_if_current env pool id expected s)
  unfolding Repository.update_status_if_current
  cas-Silent id expected s = search silence

  dispute_deal-Silent : (email id reason : Text) → Silent (dispute_deal env cfg email id reason)
  unfolding dispute_deal Repository.get_deal_by_id Repository.update_dispute_if_current
  dispute_deal-Silent email id reason = search silence depth 24

  update_payee_invoice-Silent :
      (user id invoice : Text) → Silent (update_payee_invoice env cfg user id invoice)
  unfolding update_payee_invoice Repository.get_deal_by_id Repository.update_payee_invoice
  update_payee_invoice-Silent user id invoice = search silence depth 24

  token-Silent : Silent (generate_share_token env)
  unfolding generate_share_token ◌>>=◌
  token-Silent = record { keeps = λ w. ground arith }

  rotate_share_link-Silent : (user id : Text) → Silent (rotate_share_link env cfg user id)
  unfolding rotate_share_link Repository.get_deal_by_id Repository.update_share_token
  rotate_share_link-Silent user id = search (silence, token-Silent) depth 24

  refresh-Silent : (d : Deal) → Silent (refresh_payment_status env cfg d)
  unfolding refresh_payment_status
  refresh-Silent d = search (silence, cas-Silent) depth 16

  check_payment-Silent : (user id : Text) → Silent (check_payment env cfg user id)
  unfolding check_payment Repository.get_deal_by_id
  check_payment-Silent user id = search (silence, refresh-Silent) depth 16

  refresh_if_awaiting-Silent : (d : Deal) → Silent (refresh_if_awaiting env cfg d)
  unfolding refresh_if_awaiting
  refresh_if_awaiting-Silent d =
      Silent-if _ _ _
        (Silent-bind _ _ (Silent-try _ (refresh-Silent d))
          (elim [ ok x ↦ Silent-pure x | err e ↦ Silent-pure d ]))
        (Silent-pure d)

  get_public_deal-Silent : (token : Text) → Silent (get_public_deal env cfg token)
  unfolding get_public_deal Repository.get_deal_by_share_token
  get_public_deal-Silent token = search (silence, refresh_if_awaiting-Silent) depth 16

  lock_deal-Silent : (c : Text) → Silent (lock_deal env cfg c)
  unfolding lock_deal Repository.get_deal_by_checking_id
  lock_deal-Silent c = Silent-bind _ _ (Silent-try _ (search silence)) (elim [
    | err e ↦ Silent-pure _
    | ok d ↦
        Silent-bind _ _ (Silent-try _ (cas-Silent _ _ _))
          (elim [ err e ↦ Silent-pure _ | ok b ↦ search silence depth 8 ])
  ])

  handle_payment-Silent : (n : PaymentNotification) → Silent (handle_payment env cfg n)
  unfolding handle_payment
  handle_payment-Silent n = Silent-if _ _ _ (Silent-pure _) (
      Silent-bind _ _ (Silent-try _ (Silent-check env _)) (elim [
        | err e ↦ Silent-pure _
        | ok p ↦ Silent-if _ _ _ (Silent-pure _) (lock_deal-Silent n.checking_id)
      ]))

  sweep_deal-Silent : (d : Deal) → Silent (sweep_deal env cfg d)
  unfolding sweep_deal
  sweep_deal-Silent d = Silent-if _ _ _ (Silent-pure _) (
      Silent-bind _ _ (Silent-try _ (Silent-check env _)) (elim [
        | err e ↦ Silent-pure _
        | ok p ↦
            Silent-if _ _ _
              (Silent-bind _ _ (Silent-try _ (cas-Silent _ _ _)) (elim [
                | err e ↦ Silent-pure _
                | ok true ↦ search silence depth 8
                | ok false ↦ Silent-pure _
              ]))
              (Silent-pure _)
      ]))

  sweep_deals-Silent : (ds : List Deal) (swept : ℕ) → Silent (sweep_deals env cfg ds swept)
  unfolding sweep_deals
  sweep_deals-Silent [] swept = Silent-pure swept
  sweep_deals-Silent (d ∷ ds) swept =
      Silent-bind _ _ (sweep_deal-Silent d)
        λ b. sweep_deals-Silent ds (if b then suc swept else swept)

  sweep-Silent : (cutoff : Time) → Silent (sweep_expired_holds env cfg cutoff)
  unfolding sweep_expired_holds Repository.list_open_before
  sweep-Silent cutoff = search (silence, sweep_deals-Silent) depth 8

  refund-Silent : (operator id : Text) → Silent (refund_dispute env cfg operator id)
  unfolding refund_dispute Repository.get_deal_for_update Repository.update_dispute_resolution
  refund-Silent operator id = search silence depth 24

  reconciled-Silent : (id payout : Text) → Silent (record_reconciled env cfg id payout)
  unfolding record_reconciled Repository.get_deal_for_update Repository.update_payout_checking_id
      Repository.update_status
  reconciled-Silent id payout = search silence depth 24

  confirm_payout-Silent : (id payout : Text) → Silent (confirm_payout env cfg id payout)
  unfolding confirm_payout
  confirm_payout-Silent id payout = Silent-bind _ _ (Silent-raise_if _ _) λ _.
      Silent-bind _ _ (Silent-try _ (search silence))
        (elim [ err e ↦ Silent-raise _ | ok c ↦ search (silence, reconciled-Silent) depth 16 ])

  confirm-Silent :
      (operator id payout : Text)
      → Silent (reconcile_payout env cfg operator id ReconcileAction.confirm_payout payout)
  unfolding reconcile_payout
  confirm-Silent operator id payout = search (silence, confirm_payout-Silent) depth 8

  reset-Silent :
      (operator id payout : Text)
      → Silent (reconcile_payout env cfg operator id ReconcileAction.reset_payout payout)
  unfolding reconcile_payout reset_payout Repository.get_deal_by_id Repository.clear_payout_tracking
  reset-Silent operator id payout = search silence depth 24

  resolve-Silent :
      (operator id : Text) (r : DisputeResolution)
      → is_release (resolve operator r) ≡ false
      → Silent (resolve_dispute env cfg operator id r)
  unfolding resolve_dispute
  resolve-Silent operator id DisputeResolution.release h = absurd (cc h)
  resolve-Silent operator id DisputeResolution.refund h = search (silence, refund-Silent) depth 8
  resolve-Silent operator id DisputeResolution.invalid h = search silence depth 8

-- A request that is neither a client's approval, nor one by the share link, nor the operator's release of
-- a dispute asks for no payout, whatever the environment does.
pub serve_only_releases_pay :
    (cfg : Config) (id : Text) (env : Env) (r : Request)
    → is_release r ≡ false
    → (w : World) → payouts (serve cfg id env r w).calls ≡ payouts w.calls
unfolding serve
serve_only_releases_pay cfg id env (approve email) h = absurd (cc h)
serve_only_releases_pay cfg id env release_by_link h = absurd (cc h)
serve_only_releases_pay cfg id env (resolve operator r) h =
    (resolve-Silent env cfg operator id r h).keeps
serve_only_releases_pay cfg id env (confirm operator payout) h =
    (confirm-Silent env cfg operator id payout).keeps
serve_only_releases_pay cfg id env (reset operator payout) h =
    (reset-Silent env cfg operator id payout).keeps
serve_only_releases_pay cfg id env (dispute email reason) h =
    (dispute_deal-Silent env cfg email id reason).keeps
serve_only_releases_pay cfg id env (change_status user s) h =
    (update_status-Silent env cfg user id s).keeps
serve_only_releases_pay cfg id env (submit user) h = (submit_work-Silent env cfg user id).keeps
serve_only_releases_pay cfg id env (poll user) h = (check_payment-Silent env cfg user id).keeps
serve_only_releases_pay cfg id env (view_link token) h =
    (get_public_deal-Silent env cfg token).keeps
serve_only_releases_pay cfg id env (change_invoice user invoice) h =
    (update_payee_invoice-Silent env cfg user id invoice).keeps
serve_only_releases_pay cfg id env (rotate_link user) h =
    (rotate_share_link-Silent env cfg user id).keeps
serve_only_releases_pay cfg id env (notification n) h = (handle_payment-Silent env cfg n).keeps
serve_only_releases_pay cfg id env (sweep cutoff) h = (sweep-Silent env cfg cutoff).keeps
