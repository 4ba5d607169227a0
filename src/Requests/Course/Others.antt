-- ===== src/Requests/Course/Others.antt =====
-- The status of a deal's row through the requests that release nothing.
use ganji.Base.{
  ◌≡◌, refl, inl, inr, true, false, not, ◌&&◌, Text, text_eq, is_empty, trim_space, find, filter,
  ltb, arith,
}
use ganji.Deals.Status.{
  Status, awaiting_payment, locked, work_submitted, disputed, status_eq, can_transition,
}
use ganji.Deals.Types.{Deal, Artifact}
use ganji.Deals.World.{ok, deal_not_found, World, Env, Config, M, Notice, step, ◌>>=◌}
use ganji.Deals.Contract.{
  Contract, Contract-pure, Contract-if, Contract-bind, Contract-try, Contract-raise_if,
  Contract-weaken,
}
use ganji.Deals.Repository
use ganji.Deals.Repository.{
  Dbtx, pool, tx, is_open, required, order_by, set_status, set_disputed, set_resolution,
  set_payee_invoice, set_share_token, set_payout_checking_id, has_id,
}
use ganji.Deals.Escrow.{lnbits_check, cancel_escrow_hold, notify}
use ganji.Deals.Lifecycle.{
  generate_share_token, update_status, submit_work, dispute_deal, update_payee_invoice,
  rotate_share_link,
}
use ganji.Deals.Payment.{
  refresh_payment_status, check_payment, refresh_if_awaiting, get_public_deal,
}
use ganji.Webhook.{PaymentNotification, lock_deal, handle_payment}
use ganji.Requests.Course.{
  Legal, Still, Rows-same, Rows-select, Rows-exec_where, Rows-exec_by_id, Rows-neutral, Rows-get,
  Legal-locked,
}
use ganji.Requests.Course.Releases.{At, To, arrived, notify_tables}

pub check_tables : (env : Env) (c : Text) (w : World) → (lnbits_check env c w).1.tables ≡ w.tables
unfolding lnbits_check ◌>>=◌
check_tables env c w = refl

pub cancel_tables :
    (env : Env) (d : Deal) (w : World) → (cancel_escrow_hold env d w).1.tables ≡ w.tables
unfolding cancel_escrow_hold ◌>>=◌
cancel_tables env d w = ground arith

token_tables : (env : Env) (w : World) → (generate_share_token env w).1.tables ≡ w.tables
unfolding generate_share_token ◌>>=◌
token_tables env w = ground arith

pub step_tables : (w : World) → (step w).1.tables ≡ w.tables
unfolding step
step_tables w = refl

module _ (env : Env) (cfg : Config) (id : Text) (still : Still env id) (s : Status) where
  abbrev Start : World → Type 0
  Start = At env cfg id still s

  abbrev End : World → Type 0
  End = To env cfg id still s

  -- From the status that the deal had.
  abbrev pub Moves : {A : Type 0} → M A → Type 0
  Moves m = Contract Start m (λ _. End) (λ _. End)

  -- From any status that the deal may go to.
  abbrev pub Closed : {A : Type 0} → M A → Type 0
  Closed m = Contract End m (λ _. End) (λ _. End)

  there : (w : World) → Start w → End w
  there = arrived env cfg id still s

  same : (w : World) → End w → End w
  same w h = h

  pub Moves-Closed : {A : Type 0} (m : M A) → Closed m → Moves m
  Moves-Closed m h = Contract-weaken h there (λ _. same) (λ _. same)

  pub tell : (o : Notice) (d : Deal) → Closed (notify cfg o d)
  tell o d = Rows-same id _ _ (notify_tables cfg o d)

  -- The write of a status that the one that was read may go to.
  write_status :
      (d : Deal) (new : Status)
      → s ≡ d.status
      → not (can_transition d.status new) ≡ false
      → Moves (Repository.update_status env pool id new)
  unfolding Repository.update_status
  write_status d new e t =
      Contract-weaken
        (Rows-exec_by_id env id still pool (λ x. s ≡ x) (Legal s) (set_status new) (λ now x. refl)
          (λ now x _. inr (inl (allowed e t))))
        (λ w h. h) (λ _. same) (λ _. there)
    where
      allowed :
          s ≡ d.status → not (can_transition d.status new) ≡ false → can_transition s new ≡ true
      allowed e t = ground arith

  pub update_status-Moves : (user : Text) (new : Status) → Moves (update_status env cfg user id new)
  unfolding update_status
  update_status-Moves user new =
      Rows-get env id still _ _ (λ _. there)
        λ d same_id e.
          Contract-raise_if _ _ _ (λ w h _. there w h)
            λ _.
              Contract-raise_if _ _ _ (λ w h _. there w h)
                λ _. Contract-raise_if _ _ _ (λ w h _. there w h) λ t. write_status d new e t

  list_artifacts :
      Contract Start (Repository.list_artifacts_by_deal env pool id) (λ _. Start) (λ _. End)
  unfolding Repository.list_artifacts_by_deal
  list_artifacts =
      Contract-weaken
        (Rows-select env id still pool _ (λ tables. ok (
          order_by (λ (a b : Artifact). ltb a.uploaded_at b.uploaded_at)
            (filter (λ a. text_eq a.deal_id id) tables.artifacts))))
        (λ w h. h) (λ _ w h. h) (λ _. there)

  pub submit_work-Moves : (user : Text) → Moves (submit_work env cfg user id)
  unfolding submit_work
  submit_work-Moves user =
      Contract-raise_if _ _ _ (λ w h _. there w h)
        λ _.
          Rows-get env id still _ _ (λ _. there)
            λ d same_id e.
              Contract-raise_if _ _ _ (λ w h _. there w h)
                λ _.
                  Contract-bind (λ _. Start) list_artifacts
                    λ artifacts.
                      Contract-raise_if _ _ _ (λ w h _. there w h)
                        λ _.
                          Contract-raise_if _ _ _ (λ w h _. there w h)
                            λ t.
                              Contract-bind (λ _. End) (write_status d work_submitted e t)
                                λ _. Contract-pure _ same

  guarded_dispute :
      (d : Deal) (reason : Text)
      → s ≡ d.status
      → not (can_transition d.status disputed) ≡ false
      → Moves (Repository.update_dispute_if_current env pool id d.status reason)
  unfolding Repository.update_dispute_if_current
  guarded_dispute d reason e t =
      Contract-bind (λ _. End)
        (Contract-weaken
          (Rows-exec_where env id still pool (λ x. s ≡ x) (Legal s) _ (set_disputed reason)
            (λ now x. refl) (λ now x _ _. inr (inl (allowed e t))) (λ x h. inl h))
          (λ w h. h) (λ _. same) (λ _. there))
        (λ rows. Contract-pure _ same)
    where
      allowed :
          s ≡ d.status
          → not (can_transition d.status disputed) ≡ false
          → can_transition s disputed ≡ true
      allowed e t = ground arith

  pub dispute_deal-Moves : (email reason : Text) → Moves (dispute_deal env cfg email id reason)
  unfolding dispute_deal
  dispute_deal-Moves email reason =
      Contract-raise_if _ _ _ (λ w h _. there w h)
        λ _.
          Contract-raise_if _ _ _ (λ w h _. there w h)
            λ _.
              Contract-raise_if _ _ _ (λ w h _. there w h)
                λ _.
                  Rows-get env id still _ _ (λ _. there)
                    λ d same_id e.
                      Contract-raise_if _ _ _ (λ w h _. there w h)
                        λ _.
                          Contract-raise_if _ _ _ (λ w h _. there w h)
                            λ t.
                              Contract-bind (λ _. End) (guarded_dispute d _ e t)
                                λ b.
                                  Contract-raise_if _ _ _ (λ w h _. h)
                                    λ _.
                                      Contract-bind (λ _. End) (Rows-same id _ step step_tables)
                                        λ x.
                                          Contract-bind (λ _. End) (tell _ _)
                                            λ _. Contract-pure _ same

  pub read_any : (j : Text) → Closed (Repository.get_deal_by_id env pool j)
  unfolding Repository.get_deal_by_id
  read_any j =
      Rows-select env id still pool _
        (λ tables. required deal_not_found (find (has_id j) tables.deals))

  set_invoice : (j invoice : Text) → Closed (Repository.update_payee_invoice env pool j invoice)
  unfolding Repository.update_payee_invoice
  set_invoice j invoice =
      Rows-neutral env id still pool _ j (set_payee_invoice invoice) (λ now x. refl) (λ now x. refl)

  set_token : (j token : Text) → Closed (Repository.update_share_token env pool j token)
  unfolding Repository.update_share_token
  set_token j token =
      Rows-neutral env id still pool _ j (set_share_token token) (λ now x. refl) (λ now x. refl)

  pub update_payee_invoice-Closed :
      (user j invoice : Text) → Closed (update_payee_invoice env cfg user j invoice)
  unfolding update_payee_invoice
  update_payee_invoice-Closed user j invoice =
      Contract-raise_if _ _ _ (λ w h _. h)
        λ _.
          Contract-raise_if _ _ _ (λ w h _. h)
            λ _.
              Contract-bind (λ _. End) (read_any _)
                λ d.
                  Contract-raise_if _ _ _ (λ w h _. h)
                    λ _.
                      Contract-raise_if _ _ _ (λ w h _. h)
                        λ _.
                          Contract-if (text_eq d.payee_invoice (trim_space invoice)) _ _
                            (λ _. Contract-pure d same)
                            (λ _.
                              Contract-bind (λ _. End) (set_invoice _ _) λ _. Contract-pure _ same)

  pub rotate_share_link-Closed : (user j : Text) → Closed (rotate_share_link env cfg user j)
  unfolding rotate_share_link
  rotate_share_link-Closed user j =
      Contract-raise_if _ _ _ (λ w h _. h)
        λ _.
          Contract-bind (λ _. End) (read_any _)
            λ d.
              Contract-raise_if _ _ _ (λ w h _. h)
                λ _.
                  Contract-raise_if _ _ _ (λ w h _. h)
                    λ _.
                      Contract-bind (λ _. End) (Rows-same id _ _ (token_tables env))
                        λ token. Contract-bind (λ _. End) (set_token _ _) λ _. Contract-pure _ same

  -- `UpdateStatusIfCurrent` where the expected status may go to the new one.
  pub cas-Closed :
      (j : Text) (expected new : Status)
      → ((t : Status) → Legal s t → t ≡ expected → Legal s new)
      → Closed (Repository.update_status_if_current env pool j expected new)
  unfolding Repository.update_status_if_current
  cas-Closed j expected new le =
      Contract-bind (λ _. End)
        (Rows-exec_where env id still pool (Legal s) (Legal s) _ (set_status new) (λ now x. refl)
          (λ now x h t. le x.status h (was x t)) (λ x h. h))
        (λ rows. Contract-pure _ same)
    where
      was : (x : Deal) → (has_id j x && status_eq x.status expected) ≡ true → x.status ≡ expected
      was x t = ground arith

  refresh-Closed : (d : Deal) → Closed (refresh_payment_status env cfg d)
  unfolding refresh_payment_status
  refresh-Closed d =
      Contract-bind (λ _. End) (Rows-same id _ _ (check_tables env _))
        λ payment.
          Contract-if (not payment.paid) _ _ (λ _. Contract-pure d same)
            λ _.
              Contract-if (status_eq d.status awaiting_payment) _ _
                (λ _.
                  Contract-bind (λ _. End)
                    (cas-Closed d.id awaiting_payment locked (Legal-locked s))
                    λ b.
                      Contract-if b _ _
                        (λ _. Contract-bind (λ _. End) (tell _ _) λ _. Contract-pure _ same)
                        (λ _. Contract-pure d same))
                (λ _. Contract-pure d same)

  pub check_payment-Closed : (user j : Text) → Closed (check_payment env cfg user j)
  unfolding check_payment
  check_payment-Closed user j =
      Contract-bind (λ _. End) (read_any _)
        λ d.
          Contract-raise_if _ _ _ (λ w h _. h)
            λ _. Contract-raise_if _ _ _ (λ w h _. h) λ _. refresh-Closed d

  refresh_if_awaiting-Closed : (d : Deal) → Closed (refresh_if_awaiting env cfg d)
  unfolding refresh_if_awaiting
  refresh_if_awaiting-Closed d =
      Contract-if (not (is_empty d.checking_id) && status_eq d.status awaiting_payment) _ _
        (λ _.
          Contract-try (λ _. End) (λ _. End) _ (refresh-Closed d) (λ x. Contract-pure x same)
            (λ e. Contract-pure d same))
        (λ _. Contract-pure d same)

  pub get_public_deal-Closed : (token : Text) → Closed (get_public_deal env cfg token)
  unfolding get_public_deal Repository.get_deal_by_share_token
  get_public_deal-Closed token =
      Contract-raise_if _ _ _ (λ w h _. h)
        λ _.
          Contract-bind (λ _. End)
            (Rows-select env id still pool _ (λ tables.
              required deal_not_found (find (λ d. text_eq d.share_token token) tables.deals)))
            λ d. Contract-bind (λ _. End) (refresh_if_awaiting-Closed d) λ _. Contract-pure _ same

  lock_deal-Closed : (c : Text) → Closed (lock_deal env cfg c)
  unfolding lock_deal Repository.get_deal_by_checking_id
  lock_deal-Closed c =
      Contract-try (λ _. End) (λ _. End) _
        (Rows-select env id still pool _
          (λ tables. required deal_not_found (find (λ d. text_eq d.checking_id c) tables.deals)))
        (λ d.
          Contract-try (λ _. End) (λ _. End) _
            (cas-Closed d.id awaiting_payment locked (Legal-locked s))
            (λ b.
              Contract-bind (λ _. End)
                (Contract-if b _ _ (λ _. tell _ d) (λ _. Contract-pure tt same))
                (λ _. Contract-pure _ same))
            (λ e. Contract-pure _ same))
        (λ e. Contract-pure _ same)

  pub handle_payment-Closed : (p : PaymentNotification) → Closed (handle_payment env cfg p)
  unfolding handle_payment
  handle_payment-Closed p =
      Contract-if (is_empty p.checking_id) _ _ (λ _. Contract-pure _ same)
        (λ _.
          Contract-try (λ _. End) (λ _. End) _ (Rows-same id _ _ (check_tables env _))
            (λ payment.
              Contract-if (not payment.paid) _ _ (λ _. Contract-pure _ same)
                (λ _. lock_deal-Closed p.checking_id))
            (λ e. Contract-pure _ same))
