-- ===== src/Deals/Release/Money.antt =====
-- Phase 2 of `releaseEscrow`, against the payout ledger of the deal.
use ganji.Base.{ℕ, suc, ◌≡◌, refl, ap, ◌⊎◌, inl, inr, true, false, none, [], ◌∷◌, Text, arith}
use ganji.Deals.Types.{Time, Deal}
use ganji.Deals.World.{Error, payout_in_flight, World, Call, Env, Config, ◌>>=◌}
use ganji.Deals.Contract.{
  Post, Contract, Contract-pure, Contract-raise, Contract-if, Contract-bind, Contract-try,
  Contract-weaken,
}
use ganji.Deals.Contract.Row.{payouts, Holds, Contract-exec_by_id}
use ganji.Deals.Repository.{pool}
use ganji.Lnbits
use ganji.Lnbits.{Answer, refused, failed}
use ganji.Deals.Escrow.{answer, payout_of, settle_hold_guarded, lnbits_pay}
use ganji.Deals.Release.{is_payout_refused, clear_payout_attempt, pay_freelancer, move_money}
use ganji.Deals.Release.Ledger.{Recorded, Armed, Undisturbed, Stable-Armed, Contract-quiet}

-- The calls of LNbits other than a payment leave the tables and the payouts alone.
settle_quiet :
    (env : Env) (d : Deal) (w : World)
    → ((settle_hold_guarded env d w).1.tables ≡ w.tables)
      × (payouts (settle_hold_guarded env d w).1.calls ≡ payouts w.calls)
unfolding settle_hold_guarded ◌>>=◌
settle_quiet env d w = ground arith

-- After a payment was asked for: refused, so nothing was sent, or perhaps sent.
abbrev AfterPay : ℕ → Text → Error → World → Type 0
AfterPay n id e w =
    ((is_payout_refused e ≡ true) × Holds id n Armed w)
    ⊎ ((is_payout_refused e ≡ false) × Holds id (suc n) Armed w)

-- An unsuccessful phase 2: nothing was sent, or the marker stands.
abbrev pub Failed : ℕ → Text → Error → World → Type 0
Failed n id e w = Holds id n Recorded w ⊎ Holds id (suc n) Armed w

module _ (env : Env) (id : Text) (n : ℕ) where
  paid_or_not :
      (invoice : Text) (w : World) (h : Holds id n Armed w) (a : Answer Text)
      → Post
          (λ _. Holds id (suc n) Armed)
          (AfterPay n id)
          (
            answer a,
            record w { tick = suc w.tick; calls = Call.pay invoice (payout_of a) ∷ w.calls },
          )
  paid_or_not invoice w h (Answer.ok p) = record {
    row = h.row;
    found = h.found;
    holds = h.holds;
    counted = ap suc h.counted;
  }
  paid_or_not invoice w h (Answer.err refused) =
      inl (refl, record { row = h.row; found = h.found; holds = h.holds; counted = h.counted })
  paid_or_not invoice w h (Answer.err failed) =
      inr
        (refl, record { row = h.row; found = h.found; holds = h.holds; counted = ap suc h.counted })

  pay-Contract :
      (invoice : Text)
      → Contract
          (Holds id n Armed)
          (lnbits_pay env invoice)
          (λ _. Holds id (suc n) Armed)
          (AfterPay n id)
  unfolding lnbits_pay
  pay-Contract invoice = record {
    at = λ w h. paid_or_not invoice w h (Lnbits.pay_invoice (env.pay_reply w.tick));
  }

module _ (env : Env) (cfg : Config) (id : Text) (quiet : Undisturbed env id) (n : ℕ) where
  abbrev cleared : Time → Deal → Deal
  cleared now d = record d { payout_checking_id = []; payout_attempted_at = none }

  forget_marker : (w : World) → Holds id n Armed w → Holds id n Recorded w
  forget_marker w h = record {
    row = h.row;
    found = h.found;
    holds = h.holds.0;
    counted = h.counted;
  }

  clear-Contract :
      Contract
        (Holds id n Armed)
        (clear_payout_attempt env cfg id)
        (λ _. Holds id n Recorded)
        (Failed n id)
  unfolding clear_payout_attempt
  clear-Contract =
      Contract-try (λ _. Holds id n Recorded) (λ _. Holds id n Armed) _
        (Contract-exec_by_id env pool id n Armed Recorded (Stable-Armed env id quiet) cleared
          (λ now d. refl) (λ now d h e. absurd (ground arith)))
        (λ _. Contract-pure tt (λ w h. h)) (λ e. Contract-pure tt forget_marker)

  after_refusal :
      (e : Error) (w : World) → is_payout_refused e ≡ true → AfterPay n id e w → Holds id n Armed w
  after_refusal e w t (inl (_, h)) = h
  after_refusal e w t (inr (f, h)) = cc

  after_unknown :
      (e : Error) (w : World)
      → is_payout_refused e ≡ false
      → AfterPay n id e w
      → Holds id (suc n) Armed w
  after_unknown e w t (inl (f, h)) = cc
  after_unknown e w t (inr (_, h)) = h

  -- The payout leg: a refused payout was not sent, any other error leaves the marker.
  pay_freelancer-Contract :
      (d : Deal)
      → d.id ≡ id
      → Contract
          (Holds id n Armed)
          (pay_freelancer env cfg d)
          (λ _. Holds id (suc n) Armed)
          (Failed n id)
  unfolding pay_freelancer
  pay_freelancer-Contract d same =
      Contract-try (λ _. Holds id (suc n) Armed) (AfterPay n id) _
        (pay-Contract env id n d.payee_invoice) (λ p. Contract-pure p (λ w h. h))
        (λ e.
          Contract-if (is_payout_refused e) _ _
            (λ t.
              Contract-bind (λ _. Holds id n Recorded)
                (rw same (
                  Contract-weaken clear-Contract (λ w. after_refusal e w t) (λ _ w h. h)
                    (λ _ w h. h)))
                (λ _. Contract-raise e (λ w h. inl h)))
            (λ t. Contract-raise payout_in_flight (λ w h. inr (after_unknown e w t h))))

  pub move_money-Contract :
      (d : Deal)
      → d.id ≡ id
      → Contract
          (Holds id n Armed)
          (move_money env cfg d)
          (λ _. Holds id (suc n) Armed)
          (Failed n id)
  unfolding move_money
  move_money-Contract d same =
      Contract-try (λ _. Holds id n Armed) (λ _. Holds id n Armed) _
        (Contract-quiet id n Armed (settle_hold_guarded env d) (settle_quiet env d))
        (λ _. pay_freelancer-Contract d same)
        (λ e.
          Contract-bind (λ _. Holds id n Recorded) (rw same clear-Contract)
            (λ _. Contract-raise e (λ w h. inl h)))
