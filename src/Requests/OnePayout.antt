-- ===== src/Requests/OnePayout.antt =====
-- How many payouts the requests of `Requests` may send for one deal.
use native.Mathlib.Nat.{le_trans}
use ganji.Base.{
  ℕ, suc, ◌+◌, ◌≡◌, ◌⊎◌, inl, inr, ◌≤◌, Bool, true, false, List, [], ◌∷◌, Text, is_empty, some,
  arith, if◌then◌else◌,
}
use ganji.Deals.Types.{Deal, DisputeResolution, ReconcileAction}
use ganji.Deals.World.{Result, ok, err, World, Env, Config, M, step}
use ganji.Deals.Contract.{
  Post, Contract, Contract-pure, Contract-raise, Contract-bind, Contract-raise_if, Contract-weaken,
}
use ganji.Deals.Contract.Row.{payouts, row_of, Holds}
use ganji.Deals.Release.{ReleaseOptions, release_escrow, approve_deal, resolve_dispute}
use ganji.Deals.Release.Ledger.{Recorded, Armed, Undisturbed, IsLawful, Contract-quiet}
use ganji.Deals.Release.Safety.{reopen, release-Contract_unpaid, release-Contract_marked}
use ganji.Deals.Payment.{reconcile_payout}
use ganji.Deals.Release.Lawful.{approve-IsLawful, public-IsLawful, resolve-IsLawful}
use ganji.Requests.{Request, serve, serve_all}
use ganji.Requests.Request.{
  approve, release_by_link, resolve, confirm, reset, dispute, change_status, submit, poll,
  view_link, change_invoice, rotate_link, notification, sweep,
}
use ganji.Requests.Updates.{IsLedger, Recorded-IsLedger, Armed-IsLedger, Kept}
use ganji.Requests.Kept.{
  step_quiet, update_status-Kept, submit_work-Kept, dispute_deal-Kept, update_payee_invoice-Kept,
  rotate_share_link-Kept, check_payment-Kept, get_public_deal-Kept,
}
use ganji.Requests.Network.{handle_payment-Kept, sweep_expired_holds-Kept}
use ganji.Requests.Operator.{refund_dispute-Kept, confirm_payout-Kept, reset_payout-Contract}

-- What is safe to start from: `k` payouts at most, or one more that its marker tells of.
abbrev Safe : Text → ℕ → World → Type 0
Safe id k w = (n : ℕ) × (n ≤ k) × (Holds id n Recorded w ⊎ Holds id (suc n) Armed w)

Safe-Post :
    {A : Type 0} (id : Text) (k : ℕ) (o : Result A × World)
    → Post (λ _. Safe id k) (λ _. Safe id k) o
    → Safe id k o.1
Safe-Post id k (ok a, w) h = h
Safe-Post id k (err e, w) h = h

Safe-le : (id : Text) (j k : ℕ) (w : World) → j ≤ k → Safe id j w → Safe id k w
Safe-le id j k w le (n, few, h) = (n, le_trans few le, h)

-- The operator's statements that a payout was not sent, which clear its marker.
abbrev pub is_reset : Request → Bool
is_reset (reset operator payout) = true
is_reset _ = false

abbrev pub resets : List (Env × Request) → ℕ
resets [] = 0
resets ((env, r) ∷ rest) = let later = resets rest in if is_reset r then suc later else later

module _ (env : Env) (cfg : Config) (id : Text) (quiet : Undisturbed env id) (k : ℕ) where
  abbrev Keeps : {A : Type 0} → M A → Type 0
  Keeps m = Contract (Safe id k) m (λ _. Safe id k) (λ _. Safe id k)

  -- An action that keeps both cases.
  both :
      {A : Type 0} (j : ℕ) (m : M A)
      → ((n : ℕ) → n ≤ k → Contract (Holds id n Recorded) m (λ _. Safe id j) (λ _. Safe id j))
      → ((n : ℕ) → n ≤ k → Contract (Holds id (suc n) Armed) m (λ _. Safe id j) (λ _. Safe id j))
      → Contract (Safe id k) m (λ _. Safe id j) (λ _. Safe id j)
  both j m h0 h1 = record {
    at = λ w (n, few, s). elim s [ inl h ↦ (h0 n few).at w h | inr h ↦ (h1 n few).at w h ];
  }

  -- One that keeps any ledger keeps both.
  any_ledger :
      {A : Type 0} (m : M A)
      → ((n : ℕ) (K : Deal → Type 0) (l : IsLedger env id K) → Kept env cfg id n K l m)
      → Keeps m
  any_ledger m h =
      both k m
        (λ n few.
          Contract-weaken (h n Recorded (Recorded-IsLedger env id quiet)) (λ w x. x)
            (λ _ w x. (n, few, inl x)) (λ _ w x. (n, few, inl x)))
        (λ n few.
          Contract-weaken (h (suc n) Armed (Armed-IsLedger env id quiet)) (λ w x. x)
            (λ _ w x. (n, few, inr x)) (λ _ w x. (n, few, inr x)))

  release-Keeps :
      (opts : ReleaseOptions) → IsLawful env id opts → Keeps (release_escrow env cfg opts id)
  release-Keeps opts lawful =
      both k _
        (λ n few.
          Contract-weaken (release-Contract_unpaid env cfg id quiet opts lawful n) (λ w h. h)
            (λ _ w h. (n, few, inr (reopen env cfg id quiet opts lawful n w h)))
            (λ _ w h. (n, few, h)))
        (λ n few.
          Contract-weaken (release-Contract_marked env cfg id quiet opts lawful (suc n)) (λ w h. h)
            (λ _ w h. absurd h) (λ _ w h. (n, few, inr h)))

  approve-Keeps : (email : Text) → Keeps (approve_deal env cfg email id)
  unfolding approve_deal
  approve-Keeps email =
      Contract-raise_if _ _ _ (λ w h _. h) λ _. release-Keeps _ (approve-IsLawful env cfg id email)

  step-Keeps : Keeps step
  step-Keeps = any_ledger step λ n K l. Contract-quiet id n K step step_quiet

  resolve-Keeps :
      (operator : Text) (r : DisputeResolution) → Keeps (resolve_dispute env cfg operator id r)
  unfolding resolve_dispute
  resolve-Keeps operator DisputeResolution.release =
      Contract-raise_if _ _ _ (λ w h _. h)
        λ _.
          Contract-raise_if _ _ _ (λ w h _. h)
            λ _.
              Contract-bind (λ _. Safe id k) (release-Keeps _ (resolve-IsLawful env cfg id _))
                λ d. Contract-bind (λ _. Safe id k) step-Keeps λ t. Contract-pure _ (λ w h. h)
  resolve-Keeps operator DisputeResolution.refund =
      Contract-raise_if _ _ _ (λ w h _. h)
        λ _.
          Contract-raise_if _ _ _ (λ w h _. h)
            λ _. any_ledger _ λ n K l. refund_dispute-Kept env cfg id n K l _
  resolve-Keeps operator DisputeResolution.invalid =
      Contract-raise_if _ _ _ (λ w h _. h)
        λ _. Contract-raise_if _ _ _ (λ w h _. h) λ _. Contract-raise _ (λ w h. h)

  confirm-Keeps :
      (operator payout : Text)
      → Keeps (reconcile_payout env cfg operator id ReconcileAction.confirm_payout payout)
  unfolding reconcile_payout
  confirm-Keeps operator payout =
      Contract-raise_if _ _ _ (λ w h _. h)
        λ _.
          Contract-raise_if _ _ _ (λ w h _. h)
            λ _. any_ledger _ λ n K l. confirm_payout-Kept env cfg id n K l payout

  -- Clearing the marker of a payout that may have been sent makes it one of those sent before.
  reset-Clears :
      (operator payout : Text)
      → Contract
          (Safe id k)
          (reconcile_payout env cfg operator id ReconcileAction.reset_payout payout)
          (λ _. Safe id (suc k))
          (λ _. Safe id (suc k))
  unfolding reconcile_payout
  reset-Clears operator payout =
      Contract-raise_if _ _ _ (λ w h _. Safe-le id k (suc k) w (omega arith) h)
        λ _.
          Contract-raise_if _ _ _ (λ w h _. Safe-le id k (suc k) w (omega arith) h)
            λ _.
              both (suc k) _
                (λ n few.
                  Contract-weaken
                    (reset_payout-Contract env cfg id n Recorded (Recorded-IsLedger env id quiet))
                    (λ w h. h) (λ _ w h. (n, omega arith, inl h))
                    (λ _ w h. (n, omega arith, inl h)))
                (λ n few.
                  Contract-weaken
                    (reset_payout-Contract env cfg id (suc n) Armed (Armed-IsLedger env id quiet))
                    (λ w h. h) (λ _ w h. (suc n, omega arith, inl h))
                    (λ _ w h. (n, omega arith, inr h)))

  done : {A : Type 0} {m : M A} → Keeps m → (w : World) → Safe id k w → Safe id k (m w).1
  done {A} {m} h w s = Safe-Post id k (m w) (h.at w s)

  serve-Safe :
      (r : Request) (w : World)
      → Safe id k w
      → Safe id (if is_reset r then suc k else k) (serve cfg id env r w)
  unfolding serve
  serve-Safe (approve email) = done (approve-Keeps email)
  serve-Safe release_by_link = done (release-Keeps _ (public-IsLawful env cfg id))
  serve-Safe (resolve operator r) = done (resolve-Keeps operator r)
  serve-Safe (confirm operator payout) = done (confirm-Keeps operator payout)
  serve-Safe (reset operator payout) =
      λ w s. Safe-Post id (suc k) _ ((reset-Clears operator payout).at w s)
  serve-Safe (dispute email reason) =
      done (any_ledger _ λ n K l. dispute_deal-Kept env cfg id n K l email reason)
  serve-Safe (change_status user s) =
      done (any_ledger _ λ n K l. update_status-Kept env cfg id n K l user s)
  serve-Safe (submit user) = done (any_ledger _ λ n K l. submit_work-Kept env cfg id n K l user)
  serve-Safe (poll user) = done (any_ledger _ λ n K l. check_payment-Kept env cfg id n K l user id)
  serve-Safe (view_link token) =
      done (any_ledger _ λ n K l. get_public_deal-Kept env cfg id n K l token)
  serve-Safe (change_invoice user invoice) =
      done (any_ledger _ λ n K l. update_payee_invoice-Kept env cfg id n K l user id invoice)
  serve-Safe (rotate_link user) =
      done (any_ledger _ λ n K l. rotate_share_link-Kept env cfg id n K l user id)
  serve-Safe (notification p) = done (any_ledger _ λ n K l. handle_payment-Kept env cfg id n K l p)
  serve-Safe (sweep cutoff) =
      done (any_ledger _ λ n K l. sweep_expired_holds-Kept env cfg id n K l cutoff)

module _ (cfg : Config) (id : Text) where
  abbrev Quiet : List (Env × Request) → Type 0
  Quiet [] = Unit
  Quiet ((env, r) ∷ rest) = Undisturbed env id × Quiet rest

  one_reset :
      (b : Bool) (later k : ℕ)
      → later + (if b then suc k else k) ≤ (if b then suc later else later) + k
  one_reset true later k = omega arith
  one_reset false later k = omega arith

  serve_all-Safe :
      (rs : List (Env × Request))
      → Quiet rs
      → (k : ℕ) (w : World) → Safe id k w
      → Safe id (resets rs + k) (serve_all cfg id rs w)
  unfolding serve_all
  serve_all-Safe [] q k w s = Safe-le id k (0 + k) w (omega arith) s
  serve_all-Safe ((env, r) ∷ rest) (q, qs) k w s =
      Safe-le id _ _ _ (one_reset (is_reset r) (resets rest) k) (
        serve_all-Safe rest qs (if is_reset r then suc k else k) (serve cfg id env r w)
          (serve-Safe env cfg id q k r w s))

  Safe-one : (k : ℕ) (w : World) → Safe id k w → payouts w.calls ≤ suc k
  Safe-one k w (n, few, inl h) = rw h.counted (omega arith)
  Safe-one k w (n, few, inr h) = rw h.counted (omega arith)

  -- Starting from a deal that has no payout id and for which no payout was sent, whatever requests about
  -- it are served one after the other, each in an environment of its own that writes neither payout column
  -- of the deal's row and does not take the row out of released: the payouts that may have been sent are
  -- at most one more than the requests of the operator that clear a payout attempt, hence one at most
  -- where the operator clears none.
  pub serve_all_pays_once :
      (rs : List (Env × Request))
      → Quiet rs
      → (w : World) (d : Deal) → row_of id w.tables ≡ some d
      → is_empty d.payout_checking_id ≡ true
      → payouts w.calls ≡ 0
      → payouts (serve_all cfg id rs w).calls ≤ 1 + resets rs
  serve_all_pays_once rs q w d found unpaid none_yet =
      omega (arith, Safe-one (resets rs + 0) _ (serve_all-Safe rs q 0 w start))
    where
      start : Safe id 0 w
      start = (
        0,
        omega arith,
        inl (record {
          row = d;
          found = found;
          holds = λ e. absurd (ground arith);
          counted = none_yet;
        }),
      )
