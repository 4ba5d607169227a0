-- ===== src/Requests/Course/Operators.antt =====
-- The sweep, the operator's refund, the payout that the operator confirms and the attempt that the
-- operator clears, along the lifecycle.
use ganji.Base.{
  ℕ, suc, ◌≡◌, refl, inl, inr, true, false, not, List, [], ◌∷◌, Text, text_eq, is_empty, trim_space,
  All, filter, ltb, ◌&&◌, arith, if◌then◌else◌,
}
use ganji.Deals.Status.{Status, released, disputed, refunded, status_eq, can_transition}
use ganji.Deals.Types.{Time, Deal}
use ganji.Deals.World.{ok, World, Env, Config, M, step, payout_in_flight}
use ganji.Deals.Contract.{
  Contract, Contract-pure, Contract-raise, Contract-if, Contract-bind, Contract-try,
  Contract-raise_if, Contract-weaken, Contract-assume,
}
use ganji.Deals.Contract.Free.{Contract-fact}
use ganji.Deals.Repository.Open.{IsOpen, list_open_before-IsOpen}
use ganji.Deals.Repository
use ganji.Deals.Repository.{
  pool, tx, is_open, order_by, oldest_first, set_status, set_resolution, set_payout_checking_id,
  clear_payout,
}
use ganji.Deals.Escrow.{is_hold_released}
use ganji.Deals.Release.{refund_dispute}
use ganji.Deals.Payment.{
  sweep_deal, sweep_deals, sweep_expired_holds, record_reconciled, confirm_payout, reset_payout,
}
use ganji.Requests.Course.{
  Legal, Still, Rows-same, Rows-select, Rows-exec_by_id, Rows-neutral, Rows-lock, Rows-transaction,
  Legal-refunded,
}
use ganji.Requests.Course.Releases.{At, To, arrived, anchor_tables, outgoing_tables}
use ganji.Requests.Course.Others.{
  Moves, Closed, read_any, cas-Closed, tell, check_tables, cancel_tables, step_tables,
}

module _ (env : Env) (cfg : Config) (id : Text) (still : Still env id) (s : Status) where
  abbrev Start : World → Type 0
  Start = At env cfg id still s

  abbrev End : World → Type 0
  End = To env cfg id still s

  same : (w : World) → End w → End w
  same w h = h

  abbrev Ends : {A : Type 0} → M A → Type 0
  Ends m = Closed env cfg id still s m

  sweep_deal-Closed : (d : Deal) → IsOpen d → Ends (sweep_deal env cfg d)
  unfolding sweep_deal
  sweep_deal-Closed d o =
      Contract-if (is_empty d.checking_id) _ _ (λ _. Contract-pure _ same)
        (λ _.
          Contract-try (λ _. End) (λ _. End) _ (Rows-same id _ _ (check_tables env _))
            (λ payment.
              Contract-if (is_hold_released payment.details.status) _ _
                (λ _.
                  Contract-try (λ _. End) (λ _. End) _
                    (cas-Closed env cfg id still s d.id d.status refunded
                      (λ t h e. Legal-refunded s t h (rw e o)))
                    (elim [
                      | true ↦
                          Contract-bind (λ _. End) (tell env cfg id still s _ _)
                            (λ _. Contract-pure _ same)
                      | false ↦ Contract-pure _ same
                    ])
                    (λ e. Contract-pure _ same))
                (λ _. Contract-pure _ same))
            (λ e. Contract-pure _ same))

  sweep_deals-Closed :
      (ds : List Deal) (swept : ℕ) → All IsOpen ds → Ends (sweep_deals env cfg ds swept)
  unfolding sweep_deals
  sweep_deals-Closed [] swept all = Contract-pure swept same
  sweep_deals-Closed (d ∷ ds) swept (o, all) =
      Contract-bind (λ _. End) (sweep_deal-Closed d o)
        λ b. sweep_deals-Closed ds (if b then suc swept else swept) all

  read_list : (cutoff : Time) → Ends (Repository.list_open_before env pool cutoff)
  unfolding Repository.list_open_before
  read_list cutoff = Rows-select env id still pool _ (λ tables. ok (
      order_by oldest_first
        (filter (λ d. is_open d.status && ltb d.created_at cutoff) tables.deals)))

  pub sweep-Closed : (cutoff : Time) → Ends (sweep_expired_holds env cfg cutoff)
  unfolding sweep_expired_holds
  sweep-Closed cutoff =
      Contract-bind (λ ds w. All IsOpen ds × End w)
        (Contract-fact (All IsOpen) End _ (list_open_before-IsOpen env cutoff) (read_list cutoff))
        λ ds.
          Contract-assume {C = All IsOpen ds} (λ w h. h.0)
            λ all.
              Contract-weaken (sweep_deals-Closed ds 0 all) (λ w h. h.1) (λ _. same) (λ _. same)

  -- In a transaction, whose errors are undone.
  abbrev Body : {A : Type 0} → M A → Type 0
  Body m = Contract Start m (λ _. End) (λ _ _. Unit)

  write_resolution :
      (operator : Text)
      → can_transition s refunded ≡ true
      → Body (Repository.update_dispute_resolution env tx id refunded operator)
  unfolding Repository.update_dispute_resolution
  write_resolution operator t =
      Contract-weaken
        (Rows-exec_by_id env id still tx (λ x. s ≡ x) (Legal s) (set_resolution refunded operator)
          (λ now x. refl) (λ now x _. inr (inl t)))
        (λ w h. h) (λ _. same) (λ _ w h. tt)

  refundable :
      (d : Deal)
      → s ≡ d.status
      → not (status_eq d.status disputed) ≡ false
      → can_transition s refunded ≡ true
  unfolding can_transition
  refundable d e t = ground arith

  pub refund-Moves :
      (operator : Text) → Moves env cfg id still s (refund_dispute env cfg operator id)
  unfolding refund_dispute
  refund-Moves operator =
      Contract-bind (λ _. End)
        (Rows-transaction env id still _ _ _
          (Rows-lock env id still _ _ (λ _ w h. tt)
            λ d same_id e.
              Contract-raise_if _ _ _ (λ w h _. tt)
                λ t.
                  Contract-bind (λ _. Start)
                    (Contract-weaken (Rows-same id _ _ (cancel_tables env d)) (λ w h. h)
                      (λ _ w h. h) (λ _ w h. tt))
                    λ _.
                      Contract-bind (λ _. End) (write_resolution operator (refundable d e t))
                        λ _. Contract-pure d same)
          (λ t e. inl e))
        λ d.
          Contract-bind (λ _. End) (Rows-same id _ step step_tables)
            λ t. Contract-bind (λ _. End) (tell env cfg id still s _ _) λ _. Contract-pure _ same

  record_id :
      (j payout : Text)
      → Contract Start
          (Repository.update_payout_checking_id env tx j payout)
          (λ _. Start)
          (λ _ _. Unit)
  unfolding Repository.update_payout_checking_id
  record_id j payout =
      Contract-weaken
        (Rows-neutral env id still tx _ j (set_payout_checking_id payout) (λ now d. refl)
          (λ now d. refl))
        (λ w h. h) (λ _ w h. h) (λ _ w h. tt)

  write_released :
      (j : Text)
      → j ≡ id
      → can_transition s released ≡ true
      → Body (Repository.update_status env tx j released)
  unfolding Repository.update_status
  write_released j e t = rw e (
      Contract-weaken
        (Rows-exec_by_id env id still tx (λ x. s ≡ x) (Legal s) (set_status released)
          (λ now x. refl) (λ now x _. inr (inl t)))
        (λ w h. h) (λ _. same) (λ _ w h. tt))

  releasable :
      (d : Deal)
      → s ≡ d.status
      → not (can_transition d.status released) ≡ false
      → can_transition s released ≡ true
  releasable d e t = ground arith

  reconciled-Body : (payout : Text) → Body (record_reconciled env cfg id payout)
  unfolding record_reconciled
  reconciled-Body payout =
      Rows-lock env id still _ _ (λ _ w h. tt)
        λ d same_id e.
          Contract-raise_if _ _ _ (λ w h _. tt)
            λ t.
              Contract-bind (λ _. Start)
                (Contract-if (text_eq d.payout_checking_id payout) _ _
                  (λ _. Contract-pure tt (λ w h. h)) (λ _. record_id d.id payout))
                λ _.
                  Contract-bind (λ _. End) (write_released d.id same_id (releasable d e t))
                    λ _. Contract-pure d same

  pub confirm_payout-Moves :
      (payout : Text) → Moves env cfg id still s (confirm_payout env cfg id payout)
  unfolding confirm_payout
  confirm_payout-Moves payout =
      Contract-raise_if _ _ _ (λ w h _. arrived env cfg id still s w h)
        λ _.
          Contract-try (λ _. Start) (λ _. Start) _ (Rows-same id _ _ (outgoing_tables env _))
            (λ c.
              Contract-raise_if _ _ _ (λ w h _. arrived env cfg id still s w h)
                λ _.
                  Contract-bind (λ _. End)
                    (Rows-transaction env id still _ _ _ (reconciled-Body (trim_space payout))
                      (λ t e. inl e))
                    λ d.
                      Contract-bind (λ _. End) (Rows-same id _ _ (anchor_tables cfg _))
                        λ _.
                          Contract-bind (λ _. End) (tell env cfg id still s _ _)
                            λ _. Contract-pure _ same)
            (λ e. Contract-raise payout_in_flight (arrived env cfg id still s))

  clears : Ends (Repository.clear_payout_tracking env pool id)
  unfolding Repository.clear_payout_tracking
  clears = Rows-neutral env id still pool _ id clear_payout (λ now d. refl) (λ now d. refl)

  pub reset_payout-Closed : Ends (reset_payout env cfg id)
  unfolding reset_payout
  reset_payout-Closed =
      Contract-bind (λ _. End) (read_any env cfg id still s id)
        λ d.
          Contract-raise_if _ _ _ (λ w h _. h)
            λ _.
              Contract-raise_if _ _ _ (λ w h _. h)
                λ _. Contract-bind (λ _. End) clears λ _. Contract-pure _ same
