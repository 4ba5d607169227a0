-- ===== src/Requests/Operator.antt =====
-- The operator's refund, the payout that the operator confirms and the attempt that the operator clears,
-- against the payout ledger.
use ganji.Base.{ℕ, ◌≡◌, refl, ◌≢◌, false, not, Text, text_eq, trim_space, arith}
use ganji.Deals.Status.{Status, released, disputed, refunded, status_eq}
use ganji.Deals.Types.{Deal}
use ganji.Deals.World.{World, Env, Config, M, step, payout_in_flight, ◌>>=◌}
use ganji.Deals.Contract.{
  Contract, Contract-pure, Contract-raise, Contract-if, Contract-bind, Contract-try,
  Contract-raise_if, Contract-weaken, Contract-assume,
}
use ganji.Deals.Contract.Row.{payouts, Holds, stable_tx, Contract-exec_by_id, Contract-transaction}
use ganji.Deals.Repository
use ganji.Deals.Repository.{
  pool, tx, set_resolution, set_status, set_payout_checking_id, clear_payout, transaction,
}
use ganji.Deals.Escrow.{cancel_escrow_hold, check_outgoing_payout, anchor_released_deal}
use ganji.Deals.Release.{refund_dispute}
use ganji.Deals.Payment.{record_reconciled, confirm_payout, reset_payout}
use ganji.Deals.Release.Ledger.{Recorded, Contract-quiet}
use ganji.Deals.Release.Intention.{row-id}
use ganji.Requests.Updates.{
  IsLedger, Kept, Unpaid, Found, Found-kept, Found-Unpaid, get-Contract, lock-Contract,
  write-Contract,
}
use ganji.Requests.Kept.{notify_quiet, step_quiet}

cancel_quiet :
    (env : Env) (d : Deal) (w : World)
    → ((cancel_escrow_hold env d w).1.tables ≡ w.tables)
      × (payouts (cancel_escrow_hold env d w).1.calls ≡ payouts w.calls)
unfolding cancel_escrow_hold ◌>>=◌
cancel_quiet env d w = ground arith

outgoing_quiet :
    (env : Env) (c : Text) (w : World)
    → ((check_outgoing_payout env c w).1.tables ≡ w.tables)
      × (payouts (check_outgoing_payout env c w).1.calls ≡ payouts w.calls)
unfolding check_outgoing_payout ◌>>=◌
outgoing_quiet env c w = ground arith

anchor_quiet :
    (cfg : Config) (d : Deal) (w : World)
    → ((anchor_released_deal cfg d w).1.tables ≡ w.tables)
      × (payouts (anchor_released_deal cfg d w).1.calls ≡ payouts w.calls)
unfolding anchor_released_deal ◌>>=◌
anchor_quiet cfg d w = ground arith

module _ (env : Env) (cfg : Config) (id : Text) (n : ℕ) (K : Deal → Type 0)
    (ledger : IsLedger env id K) where
  abbrev Row : World → Type 0
  Row = Holds id n K

  abbrev Keeps : {A : Type 0} → M A → Type 0
  Keeps m = Kept env cfg id n K ledger m

  abbrev Body : {A : Type 0} → M A → Type 0
  Body m = Contract Row m (λ _. Row) (λ _ w. payouts w.calls ≡ n)

  same : (w : World) → Row w → Row w
  same w h = h

  run : {A : Type 0} (body : M A) → Body body → Keeps (transaction env body)
  run body b =
      Contract-transaction env id n K K (λ _. K) ledger.stable body b (λ _ k. k) (λ _ _ k. k)

  write_resolution :
      (operator : Text)
      → Contract
          (Holds id n (Unpaid K))
          (Repository.update_dispute_resolution env tx id refunded operator)
          (λ _. Row)
          (λ _. Row)
  unfolding Repository.update_dispute_resolution
  write_resolution operator =
      write-Contract env cfg id n K ledger tx (stable_tx env id (Unpaid K))
        (set_resolution refunded operator)
        (record {
          same_id = λ now d. refl;
          same_attempt = λ now d. refl;
          same_payout = λ now d. refl;
        })

  disputed-ne-released : (s : Status) → not (status_eq s disputed) ≡ false → s ≢ released
  disputed-ne-released s t e = ground arith

  pub refund_dispute-Kept : (operator : Text) → Keeps (refund_dispute env cfg operator id)
  unfolding refund_dispute
  refund_dispute-Kept operator =
      Contract-bind (λ _. Row)
        (run _ (
          Contract-bind (Found env cfg id n K ledger)
            (Contract-weaken (lock-Contract env cfg id n K ledger) same (λ d w h. h)
              (λ _ w h. h.counted))
            λ d.
              Contract-raise_if (not (status_eq d.status disputed)) _ _ (λ w h _. h.counted)
                λ t.
                  Contract-bind (λ _. Holds id n (Unpaid K))
                    (Contract-weaken
                      (Contract-quiet id n (Unpaid K) (cancel_escrow_hold env d)
                        (cancel_quiet env d))
                      (Found-Unpaid env cfg id n K ledger d (disputed-ne-released d.status t))
                      (λ _ w h. h) (λ _ w h. h.counted))
                    λ _.
                      Contract-bind (λ _. Row)
                        (Contract-weaken (write_resolution operator) (λ w h. h) (λ _. same)
                          (λ _ w h. h.counted))
                        λ _. Contract-pure d same))
        λ d.
          Contract-bind (λ _. Row) (Contract-quiet id n K step step_quiet)
            λ t.
              Contract-bind (λ _. Row) (Contract-quiet id n K _ (notify_quiet cfg _ _))
                λ _. Contract-pure _ same

  -- Until the status is written, a row whose payout id was recorded.
  abbrev Recording : Deal → Type 0
  Recording x = (y : Deal) × K y × (x.payout_attempted_at ≡ y.payout_attempted_at)

  record_id :
      (j payout : Text)
      → j ≡ id
      → Contract
          (Holds id n Recording)
          (Repository.update_payout_checking_id env tx j payout)
          (λ _. Holds id n Recording)
          (λ _ w. payouts w.calls ≡ n)
  unfolding Repository.update_payout_checking_id
  record_id j payout e = rw e (
      Contract-weaken
        (Contract-exec_by_id env tx id n Recording Recording (stable_tx env id Recording)
          (set_payout_checking_id payout) (λ now d. refl) (λ now d (y, k, e). (y, k, e)))
        (λ w h. h) (λ _ w h. h) (λ _ w h. h.counted))

  write_released :
      (j : Text)
      → j ≡ id
      → Contract
          (Holds id n Recording)
          (Repository.update_status env tx j released)
          (λ _. Row)
          (λ _ w. payouts w.calls ≡ n)
  unfolding Repository.update_status
  write_released j e = rw e (
      Contract-weaken
        (Contract-exec_by_id env tx id n Recording K (stable_tx env id Recording)
          (set_status released) (λ now d. refl)
          (λ now d (y, k, e). ledger.keep y _ k e (λ _. refl)))
        (λ w h. h) (λ _ w h. h) (λ _ w h. h.counted))

  Found-id : (d : Deal) (w : World) → Found env cfg id n K ledger d w → d.id ≡ id
  Found-id d w h = rw (← h.holds.0) (row-id id h.row w h.found)

  start-Recording :
      (d : Deal) (w : World) → Found env cfg id n K ledger d w → Holds id n Recording w
  start-Recording d w h = record {
    row = h.row;
    found = h.found;
    holds = (h.row, h.holds.1, refl);
    counted = h.counted;
  }

  record_reconciled-Body : (payout : Text) → Body (record_reconciled env cfg id payout)
  unfolding record_reconciled
  record_reconciled-Body payout =
      Contract-bind (Found env cfg id n K ledger)
        (Contract-weaken (lock-Contract env cfg id n K ledger) same (λ d w h. h)
          (λ _ w h. h.counted))
        λ d.
          Contract-raise_if _ _ _ (λ w h _. h.counted)
            λ _. Contract-assume {C = d.id ≡ id} (Found-id d) λ e.
              Contract-bind (λ _. Holds id n Recording)
                (Contract-if (text_eq d.payout_checking_id payout) _ _
                  (λ _. Contract-pure tt (start-Recording d))
                  (λ _.
                    Contract-weaken (record_id d.id payout e) (start-Recording d) (λ _ w h. h)
                      (λ _ w h. h)))
                λ _. Contract-bind (λ _. Row) (write_released d.id e) λ _. Contract-pure d same

  pub confirm_payout-Kept : (payout : Text) → Keeps (confirm_payout env cfg id payout)
  unfolding confirm_payout
  confirm_payout-Kept payout =
      Contract-raise_if _ _ _ (λ w h _. h)
        λ _.
          Contract-try (λ _. Row) (λ _. Row) _ (Contract-quiet id n K _ (outgoing_quiet env _))
            (λ c.
              Contract-raise_if _ _ _ (λ w h _. h)
                λ _.
                  Contract-bind (λ _. Row) (run _ (record_reconciled-Body (trim_space payout)))
                    λ d.
                      Contract-bind (λ _. Row) (Contract-quiet id n K _ (anchor_quiet cfg _))
                        λ _.
                          Contract-bind (λ _. Row) (Contract-quiet id n K _ (notify_quiet cfg _ _))
                            λ _. Contract-pure _ same)
            (λ e. Contract-raise payout_in_flight same)

  -- Clearing the attempt leaves a row with no payout id, and the payouts as they were.
  clears :
      Contract Row
        (Repository.clear_payout_tracking env pool id)
        (λ _. Holds id n Recorded)
        (λ _. Row)
  unfolding Repository.clear_payout_tracking
  clears =
      Contract-exec_by_id env pool id n K Recorded ledger.stable clear_payout (λ now d. refl)
        (λ now d k e. absurd (ground arith))

  pub reset_payout-Contract :
      Contract Row (reset_payout env cfg id) (λ _. Holds id n Recorded) (λ _. Row)
  unfolding reset_payout
  reset_payout-Contract =
      Contract-bind (λ _. Row)
        (Contract-weaken (get-Contract env cfg id n K ledger) same
          (Found-kept env cfg id n K ledger) (λ _. same))
        λ d.
          Contract-raise_if _ _ _ (λ w h _. h)
            λ _.
              Contract-raise_if _ _ _ (λ w h _. h)
                λ _. Contract-bind (λ _. Holds id n Recorded) clears λ _. Contract-pure _ (λ w h. h)
