-- ===== src/Requests/Kept.antt =====
-- The payout ledger of a deal through the requests of its parties (deals/service.go).
use ganji.Base.{
  ℕ, ◌≡◌, refl, ◌≢◌, false, not, ◌&&◌, Text, text_eq, is_empty, find, filter, trim_space, ltb,
  arith,
}
use ganji.Deals.Status.{
  Status, awaiting_payment, locked, work_submitted, released, disputed, status_eq, can_transition,
  Status-discrete,
}
use ganji.Deals.Types.{Deal, Artifact}
use ganji.Deals.World.{ok, deal_not_found, Notice, World, Env, Config, M, step, ◌>>=◌}
use ganji.Deals.Contract.{
  Contract, Contract-pure, Contract-if, Contract-bind, Contract-try, Contract-raise_if,
  Contract-weaken,
}
use ganji.Deals.Contract.Row.{payouts, row_of, Holds, Stable}
use ganji.Deals.Contract.Update.{Contract-select}
use ganji.Deals.Repository
use ganji.Deals.Repository.{
  pool, tx, is_open, order_by, required, set_disputed, set_payee_invoice, set_share_token,
}
use ganji.Deals.Escrow.{lnbits_check, notify}
use ganji.Deals.Lifecycle.{
  generate_share_token, update_status, submit_work, dispute_deal, update_payee_invoice,
  rotate_share_link,
}
use ganji.Deals.Payment.{
  refresh_payment_status, check_payment, refresh_if_awaiting, get_public_deal,
}
use ganji.Deals.Release.Ledger.{Contract-quiet}
use ganji.Deals.Release.Lawful.{can_transition-ne-released}
use ganji.Requests.Updates.{
  IsLedger, Kept, Found, Unpaid, Found-kept, Found-Unpaid, forget-Unpaid, get-Contract,
  write-Contract, neutral-Contract, guarded-Contract, set_status-KeepsPayout,
}

pub check_quiet :
    (env : Env) (c : Text) (w : World)
    → ((lnbits_check env c w).1.tables ≡ w.tables)
      × (payouts (lnbits_check env c w).1.calls ≡ payouts w.calls)
unfolding lnbits_check ◌>>=◌
check_quiet env c w = ground arith

pub notify_quiet :
    (cfg : Config) (n : Notice) (d : Deal) (w : World)
    → ((notify cfg n d w).1.tables ≡ w.tables)
      × (payouts (notify cfg n d w).1.calls ≡ payouts w.calls)
unfolding notify ◌>>=◌
notify_quiet cfg n d w = ground arith

pub step_quiet :
    (w : World) → ((step w).1.tables ≡ w.tables) × (payouts (step w).1.calls ≡ payouts w.calls)
unfolding step
step_quiet w = (refl, refl)

token_quiet :
    (env : Env) (w : World)
    → ((generate_share_token env w).1.tables ≡ w.tables)
      × (payouts (generate_share_token env w).1.calls ≡ payouts w.calls)
unfolding generate_share_token ◌>>=◌
token_quiet env w = ground arith

module _ (env : Env) (cfg : Config) (id : Text) (n : ℕ) (K : Deal → Type 0)
    (ledger : IsLedger env id K) where
  same : (w : World) → Holds id n K w → Holds id n K w
  same w h = h

  abbrev Row : World → Type 0
  Row = Holds id n K

  -- A legal transition is out of a status that is not released.
  open_row : (d : Deal) (s : Status) → not (can_transition d.status s) ≡ false → d.status ≢ released
  open_row d s t = can_transition-ne-released d.status s (ground arith)

  abbrev Keeps : {A : Type 0} → M A → Type 0
  Keeps m = Kept env cfg id n K ledger m

  abbrev Read : Deal → World → Type 0
  Read = Found env cfg id n K ledger

  read : Contract Row (Repository.get_deal_by_id env pool id) Read (λ _. Row)
  read = get-Contract env cfg id n K ledger

  back : (d : Deal) (w : World) → Read d w → Row w
  back = Found-kept env cfg id n K ledger

  write-Unpaid :
      (s : Status)
      → Contract
          (Holds id n (Unpaid K))
          (Repository.update_status env pool id s)
          (λ _. Row)
          (λ _. Row)
  unfolding Repository.update_status
  write-Unpaid s =
      write-Contract env cfg id n K ledger pool ledger.stable_unpaid _ (set_status-KeepsPayout s)

  -- The write of a status, after the row was read and found open.
  write_status :
      (d : Deal) (s : Status)
      → d.status ≢ released
      → Contract (Read d) (Repository.update_status env pool id s) (λ _. Row) (λ _. Row)
  write_status d s ne =
      Contract-weaken (write-Unpaid s) (Found-Unpaid env cfg id n K ledger d ne) (λ _. same)
        (λ _. same)

  pub update_status-Kept : (user : Text) (s : Status) → Keeps (update_status env cfg user id s)
  unfolding update_status
  update_status-Kept user s = Contract-bind Read read λ d.
      Contract-raise_if _ _ _ (λ w h _. back d w h)
        λ _.
          Contract-raise_if _ _ _ (λ w h _. back d w h)
            λ _.
              Contract-raise_if _ _ _ (λ w h _. back d w h) λ t. write_status d s (open_row d s t)

  -- Listing the artifacts keeps what is stable of the row.
  list_artifacts :
      (R : Deal → Type 0)
      → Stable env id R
      → Contract
          (Holds id n R)
          (Repository.list_artifacts_by_deal env pool id)
          (λ _. Holds id n R)
          (λ _. Holds id n R)
  unfolding Repository.list_artifacts_by_deal
  list_artifacts R st =
      Contract-weaken
        (Contract-select env pool id n R st λ tables. ok (
          order_by (λ (a b : Artifact). ltb a.uploaded_at b.uploaded_at)
            (filter (λ a. text_eq a.deal_id id) tables.artifacts)))
        (λ w h. h) (λ _ w h. h.1) (λ _ w h. h)

  pub submit_work-Kept : (user : Text) → Keeps (submit_work env cfg user id)
  unfolding submit_work
  submit_work-Kept user =
      Contract-raise_if _ _ _ (λ w h _. h)
        λ _. Contract-bind Read read λ d.
          Contract-raise_if _ _ _ (λ w h _. back d w h)
            λ _. elim (Status-discrete d.status released) [
              | yes e ↦
                  Contract-bind (λ _. Row)
                    (Contract-weaken (list_artifacts K ledger.stable) (back d) (λ _. same)
                      (λ _. same))
                    λ artifacts.
                      Contract-raise_if _ _ _ (λ w h _. h)
                        λ _.
                          Contract-raise_if _ _ _ (λ w h _. h)
                            λ t. absurd (open_row d work_submitted t e)
              | no ne ↦
                  Contract-bind (λ _. Holds id n (Unpaid K))
                    (Contract-weaken (list_artifacts (Unpaid K) ledger.stable_unpaid)
                      (Found-Unpaid env cfg id n K ledger d ne) (λ _ w h. h)
                      (λ _ w h. forget-Unpaid env cfg id n K ledger w h))
                    λ artifacts.
                      Contract-raise_if _ _ _ (λ w h _. forget-Unpaid env cfg id n K ledger w h)
                        λ _.
                          Contract-raise_if _ _ _ (λ w h _. forget-Unpaid env cfg id n K ledger w h)
                            λ t.
                              Contract-bind (λ _. Row) (write-Unpaid work_submitted)
                                λ _. Contract-pure _ same
            ]

  pub dispute_deal-Kept : (email reason : Text) → Keeps (dispute_deal env cfg email id reason)
  unfolding dispute_deal Repository.update_dispute_if_current
  dispute_deal-Kept email reason =
      Contract-raise_if _ _ _ (λ w h _. h)
        λ _.
          Contract-raise_if _ _ _ (λ w h _. h)
            λ _.
              Contract-raise_if _ _ _ (λ w h _. h)
                λ _. Contract-bind Read read λ d.
                  Contract-raise_if _ _ _ (λ w h _. back d w h)
                    λ _.
                      Contract-raise_if _ _ _ (λ w h _. back d w h)
                        λ t.
                          Contract-bind (λ _. Row)
                            (Contract-bind (λ _. Row)
                              (Contract-weaken
                                (guarded-Contract env cfg id n K ledger id d.status
                                  (set_disputed (trim_space reason))
                                  (record {
                                    same_id = λ now x. refl;
                                    same_attempt = λ now x. refl;
                                    same_payout = λ now x. refl;
                                  })
                                  (open_row d disputed t))
                                (back d) (λ _. same) (λ _. same))
                              (λ r. Contract-pure _ same))
                            λ b.
                              Contract-raise_if _ _ _ (λ w h _. h)
                                λ _.
                                  Contract-bind (λ _. Row) (Contract-quiet id n K step step_quiet)
                                    λ x.
                                      Contract-bind (λ _. Row)
                                        (Contract-quiet id n K _ (notify_quiet cfg _ _))
                                        λ _. Contract-pure _ same

  -- Reading any row.
  read_any : (j : Text) → Keeps (Repository.get_deal_by_id env pool j)
  unfolding Repository.get_deal_by_id
  read_any j =
      Contract-weaken
        (Contract-select env pool id n K ledger.stable
          λ tables. required deal_not_found (row_of j tables))
        same (λ _ w h. h.1) (λ _. same)

  invoice_any : (j invoice : Text) → Keeps (Repository.update_payee_invoice env pool j invoice)
  unfolding Repository.update_payee_invoice
  invoice_any j invoice =
      neutral-Contract env cfg id n K ledger j (set_payee_invoice invoice)
        (record {
          same_id = λ now x. refl;
          same_attempt = λ now x. refl;
          same_payout = λ now x. refl;
        })
        (λ now x. refl)

  token_any : (j token : Text) → Keeps (Repository.update_share_token env pool j token)
  unfolding Repository.update_share_token
  token_any j token =
      neutral-Contract env cfg id n K ledger j (set_share_token token)
        (record {
          same_id = λ now x. refl;
          same_attempt = λ now x. refl;
          same_payout = λ now x. refl;
        })
        (λ now x. refl)

  pub update_payee_invoice-Kept :
      (user j invoice : Text) → Keeps (update_payee_invoice env cfg user j invoice)
  unfolding update_payee_invoice
  update_payee_invoice-Kept user j invoice =
      Contract-raise_if _ _ _ (λ w h _. h)
        λ _.
          Contract-raise_if _ _ _ (λ w h _. h)
            λ _.
              Contract-bind (λ _. Row) (read_any _)
                λ d.
                  Contract-raise_if _ _ _ (λ w h _. h)
                    λ _.
                      Contract-raise_if _ _ _ (λ w h _. h)
                        λ _.
                          Contract-if (text_eq d.payee_invoice (trim_space invoice)) _ _
                            (λ _. Contract-pure d same)
                            (λ _.
                              Contract-bind (λ _. Row) (invoice_any _ _) λ _. Contract-pure _ same)

  pub rotate_share_link-Kept : (user j : Text) → Keeps (rotate_share_link env cfg user j)
  unfolding rotate_share_link
  rotate_share_link-Kept user j =
      Contract-raise_if _ _ _ (λ w h _. h)
        λ _.
          Contract-bind (λ _. Row) (read_any _)
            λ d.
              Contract-raise_if _ _ _ (λ w h _. h)
                λ _.
                  Contract-raise_if _ _ _ (λ w h _. h)
                    λ _.
                      Contract-bind (λ _. Row) (Contract-quiet id n K _ (token_quiet env))
                        λ token. Contract-bind (λ _. Row) (token_any _ _) λ _. Contract-pure _ same

  -- `UpdateStatusIfCurrent` from a status that is not released.
  pub guarded_any :
      (j : Text) (expected s : Status)
      → expected ≢ released
      → Keeps (Repository.update_status_if_current env pool j expected s)
  unfolding Repository.update_status_if_current
  guarded_any j expected s ne =
      Contract-bind (λ _. Row)
        (guarded-Contract env cfg id n K ledger j expected _ (set_status-KeepsPayout s) ne)
        (λ r. Contract-pure _ same)

  refresh-Kept : (d : Deal) → Keeps (refresh_payment_status env cfg d)
  unfolding refresh_payment_status
  refresh-Kept d =
      Contract-bind (λ _. Row) (Contract-quiet id n K _ (check_quiet env _))
        λ payment.
          Contract-if (not payment.paid) _ _ (λ _. Contract-pure d same)
            λ _.
              Contract-if (status_eq d.status awaiting_payment) _ _
                (λ _.
                  Contract-bind (λ _. Row) (guarded_any d.id awaiting_payment locked (λ e. cc))
                    λ b.
                      Contract-if b _ _
                        (λ _.
                          Contract-bind (λ _. Row) (Contract-quiet id n K _ (notify_quiet cfg _ _))
                            λ _. Contract-pure _ same)
                        (λ _. Contract-pure d same))
                (λ _. Contract-pure d same)

  pub check_payment-Kept : (user j : Text) → Keeps (check_payment env cfg user j)
  unfolding check_payment
  check_payment-Kept user j =
      Contract-bind (λ _. Row) (read_any _)
        λ d.
          Contract-raise_if _ _ _ (λ w h _. h)
            λ _. Contract-raise_if _ _ _ (λ w h _. h) λ _. refresh-Kept d

  refresh_if_awaiting-Kept : (d : Deal) → Keeps (refresh_if_awaiting env cfg d)
  unfolding refresh_if_awaiting
  refresh_if_awaiting-Kept d =
      Contract-if (not (is_empty d.checking_id) && status_eq d.status awaiting_payment) _ _
        (λ _.
          Contract-try (λ _. Row) (λ _. Row) _ (refresh-Kept d) (λ x. Contract-pure x same)
            (λ e. Contract-pure d same))
        (λ _. Contract-pure d same)

  read_token : (token : Text) → Keeps (Repository.get_deal_by_share_token env pool token)
  unfolding Repository.get_deal_by_share_token
  read_token token =
      Contract-weaken
        (Contract-select env pool id n K ledger.stable
          λ tables. required deal_not_found (find (λ d. text_eq d.share_token token) tables.deals))
        same (λ _ w h. h.1) (λ _. same)

  pub get_public_deal-Kept : (token : Text) → Keeps (get_public_deal env cfg token)
  unfolding get_public_deal
  get_public_deal-Kept token =
      Contract-raise_if _ _ _ (λ w h _. h)
        λ _.
          Contract-bind (λ _. Row) (read_token token)
            λ d. Contract-bind (λ _. Row) (refresh_if_awaiting-Kept d) λ _. Contract-pure _ same
