-- ===== src/Requests/Course/Releases.antt =====
-- The status of a deal's row through `releaseEscrow`.
use ganji.Base.{◌≡◌, refl, inl, inr, true, false, not, ◌&&◌, Text, is_empty, is_some, arith}
use ganji.Deals.Status.{Status, released, can_transition}
use ganji.Deals.Types.{Deal}
use ganji.Deals.World.{payout_in_flight, World, Env, Config, M, ◌>>=◌, Notice}
use ganji.Deals.Contract.{
  Contract, Contract-pure, Contract-raise, Contract-if, Contract-bind, Contract-try,
  Contract-raise_if, Contract-lift, Contract-weaken,
}
use ganji.Deals.Repository.{
  pool, tx, set_attempted, clear_payout, set_payout_checking_id, clear_payout_tracking,
  mark_payout_attempted, update_payout_checking_id,
}
use ganji.Deals.Escrow.{
  lnbits_pay, settle_hold_guarded, check_outgoing_payout, anchor_released_deal, notify,
}
use ganji.Deals.Release.{
  ReleaseOptions, is_payout_refused, resume_payout, intend, begin_release, clear_payout_attempt,
  pay_freelancer, move_money, record_release, finish_release, release_escrow,
}
use ganji.Deals.Release.Ledger.{IsLawful}
use ganji.Requests.Course.{
  Legal, Still, Rows, Rows-imp, Rows-same, Rows-neutral, Rows-exec_by_id, Rows-lock,
  Rows-transaction,
}

pay_tables :
    (env : Env) (invoice : Text) (w : World) → (lnbits_pay env invoice w).1.tables ≡ w.tables
unfolding lnbits_pay
pay_tables env invoice w = refl

settle_tables :
    (env : Env) (d : Deal) (w : World) → (settle_hold_guarded env d w).1.tables ≡ w.tables
unfolding settle_hold_guarded ◌>>=◌
settle_tables env d w = ground arith

pub outgoing_tables :
    (env : Env) (c : Text) (w : World) → (check_outgoing_payout env c w).1.tables ≡ w.tables
unfolding check_outgoing_payout ◌>>=◌
outgoing_tables env c w = ground arith

pub anchor_tables :
    (cfg : Config) (d : Deal) (w : World) → (anchor_released_deal cfg d w).1.tables ≡ w.tables
unfolding anchor_released_deal ◌>>=◌
anchor_tables cfg d w = ground arith

pub notify_tables :
    (cfg : Config) (n : Notice) (d : Deal) (w : World) → (notify cfg n d w).1.tables ≡ w.tables
unfolding notify ◌>>=◌
notify_tables cfg n d w = ground arith

module _ (env : Env) (cfg : Config) (id : Text) (still : Still env id) (s : Status) where
  -- The row has the status it had, or one that it may go to.
  abbrev pub At : World → Type 0
  At = Rows id (λ t. s ≡ t)

  abbrev pub To : World → Type 0
  To = Rows id (Legal s)

  pub arrived : (w : World) → At w → To w
  arrived = Rows-imp id (λ t. s ≡ t) (Legal s) (λ t e. inl e)

  abbrev Keeps : {A : Type 0} → M A → Type 0
  Keeps m = Contract At m (λ _. At) (λ _. At)

  same : (w : World) → At w → At w
  same w h = h

  clear_tracking : (j : Text) → Keeps (clear_payout_tracking env tx j)
  unfolding clear_payout_tracking
  clear_tracking j = Rows-neutral env id still tx _ j clear_payout (λ now d. refl) (λ now d. refl)

  mark : (j : Text) → Keeps (mark_payout_attempted env tx j)
  unfolding mark_payout_attempted
  mark j = Rows-neutral env id still tx _ j set_attempted (λ now d. refl) (λ now d. refl)

  record_id : (j payout : Text) → Keeps (update_payout_checking_id env tx j payout)
  unfolding update_payout_checking_id
  record_id j payout =
      Rows-neutral env id still tx _ j (set_payout_checking_id payout) (λ now d. refl)
        (λ now d. refl)

  clear_attempt : (j : Text) → Keeps (clear_payout_attempt env cfg j)
  unfolding clear_payout_attempt clear_payout_tracking
  clear_attempt j =
      Contract-try (λ _. At) (λ _. At) _
        (Rows-neutral env id still pool _ j clear_payout (λ now d. refl) (λ now d. refl))
        (λ _. Contract-pure tt same) (λ _. Contract-pure tt same)

  resume : (d : Deal) → Keeps (resume_payout env cfg d)
  unfolding resume_payout
  resume d =
      Contract-if (not (is_empty d.payout_checking_id)) _ _
        (λ _.
          Contract-try (λ _. At) (λ _. At) _ (Rows-same id _ _ (outgoing_tables env _))
            (λ c.
              Contract-if c.0 _ _ (λ _. Contract-pure _ same)
                (λ _.
                  Contract-if c.1 _ _
                    (λ _. Contract-bind (λ _. At) (clear_tracking _) (λ _. Contract-pure _ same))
                    (λ _. Contract-raise _ same)))
            (λ e. Contract-raise _ same))
        (λ _.
          Contract-if (is_some d.payout_attempted_at) _ _ (λ _. Contract-raise _ same)
            (λ _. Contract-pure _ same))

  begins : (opts : ReleaseOptions) → Contract At (begin_release env cfg opts id) (λ _. At) (λ _. At)
  unfolding begin_release intend
  begins opts =
      Rows-transaction env id still _ _ _
        (Rows-lock env id still _ _ (λ _ w h. tt)
          λ d same_id e.
            Contract-lift (opts.authorize d) _ (λ _ w h _. tt)
              λ _ _.
                Contract-bind (λ _. At) (Contract-weaken (resume d) same (λ _. same) (λ _ w h. tt))
                  λ i.
                    Contract-bind (λ _. At)
                      (Contract-if i.confirmed _ _ (λ _. Contract-pure tt same)
                        (λ _. Contract-weaken (mark d.id) same (λ _. same) (λ _ w h. tt)))
                      λ _. Contract-pure i same)
        (λ t e. e)

  pays : (d : Deal) → Keeps (pay_freelancer env cfg d)
  unfolding pay_freelancer
  pays d =
      Contract-try (λ _. At) (λ _. At) _ (Rows-same id _ _ (pay_tables env d.payee_invoice))
        (λ p. Contract-pure p same)
        (λ e.
          Contract-if (is_payout_refused e) _ _
            (λ _. Contract-bind (λ _. At) (clear_attempt d.id) (λ _. Contract-raise e same))
            (λ _. Contract-raise payout_in_flight same))

  moves_money : (d : Deal) → Keeps (move_money env cfg d)
  unfolding move_money
  moves_money d =
      Contract-try (λ _. At) (λ _. At) _ (Rows-same id _ _ (settle_tables env d)) (λ _. pays d)
        (λ e. Contract-bind (λ _. At) (clear_attempt d.id) (λ _. Contract-raise e same))

  records :
      (opts : ReleaseOptions)
      → IsLawful env id opts
      → (original : Status) (payout : Text)
      → Contract At (record_release env cfg opts id original payout) (λ _. To) (λ _ _. Unit)
  unfolding record_release
  records opts lawful original payout =
      Rows-lock env id still _ _ (λ _ w h. tt)
        λ d same_id e.
          Contract-raise_if _ _ _ (λ w h _. tt)
            λ _.
              Contract-raise_if _ _ _ (λ w h _. tt)
                λ t.
                  Contract-bind (λ _. At)
                    (Contract-if (not (is_empty payout) && is_empty d.payout_checking_id) _ _
                      (λ _. Contract-weaken (record_id id payout) same (λ _. same) (λ _ w h. tt))
                      (λ _. Contract-pure tt same))
                    λ _.
                      Contract-bind (λ _. To)
                        (rw lawful.finalize_is (
                          Contract-weaken
                            (Rows-exec_by_id env id still tx (λ t. s ≡ t) (Legal s) lawful.change
                              lawful.keeps_id
                              (λ now x _. rw (lawful.releases now x) (inr (inl (allowed d e t)))))
                            same (λ _ w h. h) (λ _ w h. tt)))
                        λ _. Contract-pure d (λ w h. h)
    where
      allowed :
          (d : Deal)
          → s ≡ d.status
          → not (can_transition d.status released) ≡ false
          → can_transition s released ≡ true
      allowed d e t = ground arith

  finishes :
      (opts : ReleaseOptions)
      → IsLawful env id opts
      → (original : Status) (payout : Text)
      → Contract At (finish_release env cfg opts id original payout) (λ _. To) (λ _. To)
  unfolding finish_release
  finishes opts lawful original payout =
      Contract-bind (λ _. To)
        (Rows-transaction env id still _ _ _ (records opts lawful original payout) (λ t e. inl e))
        λ d.
          Contract-bind (λ _. To) (Rows-same id _ _ (anchor_tables cfg _))
            λ _.
              Contract-bind (λ _. To) (Rows-same id _ _ (notify_tables cfg _ _))
                λ _. Contract-pure _ (λ w h. h)

  pub release-Contract :
      (opts : ReleaseOptions)
      → IsLawful env id opts
      → Contract At (release_escrow env cfg opts id) (λ _. To) (λ _. To)
  unfolding release_escrow
  release-Contract opts lawful =
      Contract-raise_if _ _ _ (λ w h _. arrived w h)
        λ _.
          Contract-bind (λ _. At) (Contract-weaken (begins opts) same (λ _. same) (λ _. arrived))
            λ i.
              Contract-bind (λ _. At)
                (Contract-if i.confirmed _ _ (λ _. Contract-pure _ same)
                  (λ _. Contract-weaken (moves_money i.deal) same (λ _. same) (λ _. arrived)))
                λ payout. finishes opts lawful i.deal.status payout
