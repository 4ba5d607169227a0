-- ===== src/Deals/Release/Safety.antt =====
-- `releaseEscrow` as a whole, against the payout ledger of the deal.
use ganji.Base.{ℕ, suc, ◌≡◌, refl, inl, inr, false, Text, is_empty, is_some, arith}
use ganji.Deals.Status.{Status}
use ganji.Deals.Types.{Deal}
use ganji.Deals.World.{
  invalid_input, invalid_transition, deal_released, World, Env, Config, M, ◌>>=◌,
}
use ganji.Deals.Contract.{
  Contract, Contract-pure, Contract-if, Contract-bind, Contract-raise_if, Contract-weaken,
  Contract-assume,
}
use ganji.Deals.Contract.Row.{
  payouts, Holds, Stable, stable_tx, Contract-get, Contract-exec_by_id, Contract-transaction,
}
use ganji.Deals.Repository.{tx, get_deal_for_update, update_payout_checking_id}
use ganji.Deals.Escrow.{anchor_released_deal, notify}
use ganji.Deals.Release.{
  ReleaseOptions, Intent, begin_release, record_release, finish_release, release_escrow,
}
use ganji.Deals.Release.Ledger.{
  Marked, Recorded, Armed, Closed, Undisturbed, IsLawful, Stable-Recorded, Stable-Armed,
  Contract-quiet,
}
use ganji.Deals.Release.Money.{Failed, move_money-Contract}
use ganji.Deals.Release.Intention.{IsFresh, intend-Contract}

anchor_quiet :
    (cfg : Config) (d : Deal) (w : World)
    → ((anchor_released_deal cfg d w).1.tables ≡ w.tables)
      × (payouts (anchor_released_deal cfg d w).1.calls ≡ payouts w.calls)
unfolding anchor_released_deal ◌>>=◌
anchor_quiet cfg d w = ground arith

notify_quiet :
    (cfg : Config) (d : Deal) (w : World)
    → ((notify cfg deal_released d w).1.tables ≡ w.tables)
      × (payouts (notify cfg deal_released d w).1.calls ≡ payouts w.calls)
unfolding notify ◌>>=◌
notify_quiet cfg d w = ground arith

module _ (env : Env) (cfg : Config) (id : Text) (quiet : Undisturbed env id) (opts : ReleaseOptions)
    (lawful : IsLawful env id opts) (paid : ℕ) where
  abbrev Started : (Deal → Type 0) → Intent → Deal → Type 0
  Started K i x =
      IsFresh id i × ((d : Deal) × K d × (is_some d.payout_attempted_at ≡ false)) × Armed x

  begin-Contract :
      (n : ℕ) (K : Deal → Type 0)
      → ((d : Deal) → K d → Recorded d)
      → ((d : Deal) → Armed d → K d)
      → Stable env id K
      → Contract
          (Holds id n K)
          (begin_release env cfg opts id)
          (λ i. Holds id n (Started K i))
          (λ _. Holds id n K)
  unfolding begin_release
  begin-Contract n K le ge st =
      Contract-transaction env id n K K (Started K) st _
        (Contract-weaken (intend-Contract env cfg id opts lawful n K le) (λ w h. h)
          (λ i w h. record {
            row = h.2.row;
            found = h.2.found;
            holds = (h.0, h.1, h.2.holds);
            counted = h.2.counted;
          })
          (λ _ w h. h))
        (λ d k. k) (λ i d s. ge d s.2)

  -- The UPDATE that finalizes brings the row back to what the ledger says.
  finalize-Contract :
      Contract
        (Holds id (suc paid) Marked)
        (opts.finalize tx id)
        (λ _. Holds id (suc paid) Closed)
        (λ _. Holds id (suc paid) Marked)
  finalize-Contract = rw lawful.finalize_is (
      Contract-exec_by_id env tx id (suc paid) Marked Closed (stable_tx env id Marked) lawful.change
        lawful.keeps_id
        (λ now d m. (
          ((λ _. lawful.releases now d), rw (lawful.keeps_attempt now d) m),
          lawful.releases now d,
        )))

  Marked-of :
      (R : Deal → Type 0)
      → ((d : Deal) → R d → Marked d)
      → (w : World) → Holds id (suc paid) R w
      → Holds id (suc paid) Marked w
  Marked-of R le w h = record {
    row = h.row;
    found = h.found;
    holds = le h.row h.holds;
    counted = h.counted;
  }

  record-Contract :
      (status : Status) (payout : Text)
      → Contract
          (Holds id (suc paid) Armed)
          (record_release env cfg opts id status payout)
          (λ _. Holds id (suc paid) Closed)
          (λ _ w. payouts w.calls ≡ suc paid)
  unfolding record_release get_deal_for_update update_payout_checking_id
  record-Contract status payout =
      Contract-bind (λ d. Holds id (suc paid) Marked)
        (Contract-weaken (Contract-get env tx id (suc paid) Armed (stable_tx env id Armed))
          (λ w h. h) (λ d w h. Marked-of (λ x. (x ≡ d) × Armed x) (λ x a. a.1.1) w h)
          (λ _ w h. h.counted))
        λ d.
          Contract-raise_if _ invalid_transition _ (λ w h _. h.counted)
            λ _.
              Contract-raise_if _ invalid_transition _ (λ w h _. h.counted)
                λ _.
                  Contract-bind (λ _. Holds id (suc paid) Marked)
                    (Contract-if _ _ _
                      (λ _.
                        Contract-weaken
                          (Contract-exec_by_id env tx id (suc paid) Marked Marked
                            (stable_tx env id Marked)
                            (λ now x. record x { payout_checking_id = payout }) (λ now x. refl)
                            (λ now x m. m))
                          (λ w h. h) (λ _ w h. h) (λ _ w h. h.counted))
                      (λ _. Contract-pure tt (λ w h. h)))
                    λ _.
                      Contract-bind (λ _. Holds id (suc paid) Closed)
                        (Contract-weaken finalize-Contract (λ w h. h) (λ _ w h. h)
                          (λ _ w h. h.counted))
                        λ _. Contract-pure d (λ w h. h)

  pub reopen : (w : World) → Holds id (suc paid) Closed w → Holds id (suc paid) Armed w
  reopen w h = record { row = h.row; found = h.found; holds = h.holds.0; counted = h.counted }

  Closed-quiet :
      (m : M (Unit {0}))
      → ((w : World) → ((m w).1.tables ≡ w.tables) × (payouts (m w).1.calls ≡ payouts w.calls))
      → Contract
          (Holds id (suc paid) Closed)
          m
          (λ _. Holds id (suc paid) Closed)
          (λ _. Holds id (suc paid) Armed)
  Closed-quiet m q =
      Contract-weaken (Contract-quiet id (suc paid) Closed m q) (λ w h. h) (λ _ w h. h)
        (λ _. reopen)

  finish-Contract :
      (status : Status) (payout : Text)
      → Contract
          (Holds id (suc paid) Armed)
          (finish_release env cfg opts id status payout)
          (λ _. Holds id (suc paid) Closed)
          (λ _. Holds id (suc paid) Armed)
  unfolding finish_release
  finish-Contract status payout =
      Contract-bind (λ _. Holds id (suc paid) Closed)
        (Contract-transaction env id (suc paid) Armed Armed (λ _. Closed)
          (Stable-Armed env id quiet) _ (record-Contract status payout) (λ d h. h) (λ _ d h. h.0))
        λ d.
          Contract-bind (λ _. Holds id (suc paid) Closed) (Closed-quiet _ (anchor_quiet cfg _))
            λ _.
              Contract-bind (λ _. Holds id (suc paid) Closed) (Closed-quiet _ (notify_quiet cfg _))
                λ _. Contract-pure _ (λ w h. h)

  -- A release that succeeds has sent one payout more, and one that fails has sent none or has left
  -- the marker.
  pub release-Contract_unpaid :
      Contract
        (Holds id paid Recorded)
        (release_escrow env cfg opts id)
        (λ _. Holds id (suc paid) Closed)
        (Failed paid id)
  unfolding release_escrow
  release-Contract_unpaid =
      Contract-raise_if (is_empty id) invalid_input _ (λ w h _. inl h)
        λ _.
          Contract-bind (λ i. Holds id paid (Started Recorded i))
            (Contract-weaken
              (begin-Contract paid Recorded (λ d r. r) (λ d a. a.0) (Stable-Recorded env id quiet))
              (λ w h. h) (λ i w h. h) (λ _ w h. inl h))
            λ i.
              Contract-assume {C = IsFresh id i} (λ w h. h.holds.0)
                λ c.
                  Contract-bind (λ _. Holds id (suc paid) Armed)
                    (Contract-if i.confirmed _ _ (λ t. absurd (cc (c.0)))
                      (λ _.
                        Contract-weaken (move_money-Contract env cfg id quiet paid i.deal c.1)
                          (λ w h. record {
                            row = h.row;
                            found = h.found;
                            holds = h.holds.2;
                            counted = h.counted;
                          })
                          (λ _ w h. h) (λ _ w h. h)))
                    λ payout.
                      Contract-weaken (finish-Contract i.deal.status payout) (λ w h. h) (λ _ w h. h)
                        (λ _ w h. inr h)

  -- With the marker set it fails and sends nothing.
  pub release-Contract_marked :
      Contract
        (Holds id paid Armed)
        (release_escrow env cfg opts id)
        (λ _ _. ⊥)
        (λ _. Holds id paid Armed)
  unfolding release_escrow
  release-Contract_marked =
      Contract-raise_if (is_empty id) invalid_input _ (λ w h _. h)
        λ _.
          Contract-bind (λ i. Holds id paid (Started Armed i))
            (Contract-weaken
              (begin-Contract paid Armed (λ d a. a.0) (λ d a. a) (Stable-Armed env id quiet))
              (λ w h. h) (λ i w h. h) (λ _ w h. h))
            λ i.
              Contract-assume {C = ⊥} (λ w h. let (d, a, f) = h.holds.1 in cc (a.1, f))
                λ c. absurd c
