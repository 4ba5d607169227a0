-- ===== src/Requests/Updates.antt =====
-- The statements of deals/repository.go, against the payout ledger of a deal's row.
use ganji.Base.{
  ℕ, ◌≡◌, refl, ◌≢◌, inl, inr, true, ◌&&◌, Text, is_empty, Bool-cases, subst, arith, ◌==◌,
}
use ganji.Deals.Status.{Status, released, status_eq}
use ganji.Deals.Types.{Time, Deal}
use ganji.Deals.World.{World, Env, Config, M, deal_not_found}
use ganji.Deals.Contract.{
  Contract, Contract-weaken, Contract-bind, Contract-if, Contract-raise, Contract-pure,
}
use ganji.Deals.Contract.Row.{Holds, Stable, StableAt, stable_tx, Contract-get, Contract-exec_by_id}
use ganji.Deals.Contract.Update.{Contract-exec_where}
use ganji.Deals.Repository.{
  Dbtx, pool, tx, has_id, exec_where, exec_by_id, get_deal_by_id, get_deal_for_update, set_status,
}
use ganji.Deals.Release.Ledger.{Recorded, Armed, Undisturbed, Stable-Recorded, Stable-Armed}

-- No payout id is recorded.
abbrev pub Unpaid : (Deal → Type 0) → Deal → Type 0
Unpaid K d = K d × (is_empty d.payout_checking_id ≡ true)

-- What `Recorded` and `Armed` have in common.
pub record IsLedger (env : Env) (id : Text) (K : Deal → Type 0) : Type 0 where
  pub recorded : (d : Deal) → K d → Recorded d
  pub stable : Stable env id K
  pub stable_unpaid : Stable env id (Unpaid K)
  pub keep :
      (d d' : Deal) → K d → d'.payout_attempted_at ≡ d.payout_attempted_at → Recorded d' → K d'

module _ (env : Env) (id : Text) (quiet : Undisturbed env id) where
  pub Recorded-IsLedger : IsLedger env id Recorded
  Recorded-IsLedger = record {
    recorded = λ d k. k;
    stable = Stable-Recorded env id quiet;
    stable_unpaid = λ t tables d found (r, u).
        let (d', found', attempt, payout, status) = quiet t tables d found in
        (d', found', ((λ e. status (r (rw payout at e))), rw payout u));
    keep = λ d d' k e r. r;
  }

  pub Armed-IsLedger : IsLedger env id Armed
  Armed-IsLedger = record {
    recorded = λ d k. k.0;
    stable = Stable-Armed env id quiet;
    stable_unpaid = λ t tables d found k.
        let (d', found', attempt, payout, status) = quiet t tables d found in
        (
          d',
          found',
          (((λ e. status (k.0.0 (rw payout at e))), rw attempt (k.0.1)), rw payout (k.1)),
        );
    keep = λ d d' k e r. (r, rw e (k.1));
  }

Unpaid-Recorded : (d : Deal) → is_empty d.payout_checking_id ≡ true → Recorded d
Unpaid-Recorded d u e = absurd (ground arith)

-- A change that leaves the id and the payout columns alone.
pub record KeepsPayout (f : Time → Deal → Deal) : Type 0 where
  pub same_id : (now : Time) (d : Deal) → (f now d).id ≡ d.id
  pub same_attempt : (now : Time) (d : Deal) → (f now d).payout_attempted_at ≡ d.payout_attempted_at
  pub same_payout : (now : Time) (d : Deal) → (f now d).payout_checking_id ≡ d.payout_checking_id

module _ (env : Env) (cfg : Config) (id : Text) (n : ℕ) (K : Deal → Type 0)
    (ledger : IsLedger env id K) where
  abbrev pub Kept : {A : Type 0} → M A → Type 0
  Kept m = Contract (Holds id n K) m (λ _. Holds id n K) (λ _. Holds id n K)

  unpaid_of : (d : Deal) → K d → d.status ≢ released → is_empty d.payout_checking_id ≡ true
  unpaid_of d k ne = elim (Bool-cases (is_empty d.payout_checking_id)) [
    | inl e ↦ e
    | inr e ↦ absurd (ne (ledger.recorded d k e))
  ]

  pub forget-Unpaid : (w : World) → Holds id n (Unpaid K) w → Holds id n K w
  forget-Unpaid w h = record {
    row = h.row;
    found = h.found;
    holds = h.holds.0;
    counted = h.counted;
  }

  -- A row found to be open is unpaid, and stays so whatever else is written meanwhile.
  abbrev pub Found : Deal → World → Type 0
  Found d = Holds id n (λ x. (x ≡ d) × K x)

  found_ledger : (d : Deal) (w : World) → Found d w → K d
  found_ledger d w h = subst K h.holds.0 h.holds.1

  pub Found-kept : (d : Deal) (w : World) → Found d w → Holds id n K w
  Found-kept d w h = record { row = h.row; found = h.found; holds = h.holds.1; counted = h.counted }

  pub Found-Unpaid :
      (d : Deal) → d.status ≢ released → (w : World) → Found d w → Holds id n (Unpaid K) w
  Found-Unpaid d ne w h = record {
    row = h.row;
    found = h.found;
    holds = (h.holds.1, rw h.holds.0 (unpaid_of d (found_ledger d w h) ne));
    counted = h.counted;
  }

  pub get-Contract : Contract (Holds id n K) (get_deal_by_id env pool id) Found (λ _. Holds id n K)
  unfolding get_deal_by_id
  get-Contract = Contract-get env pool id n K ledger.stable

  pub lock-Contract :
      Contract (Holds id n K) (get_deal_for_update env tx id) Found (λ _. Holds id n K)
  unfolding get_deal_for_update
  lock-Contract = Contract-get env tx id n K (stable_tx env id K)

  keep_unpaid :
      (d d' : Deal)
      → K d
      → is_empty d.payout_checking_id ≡ true
      → d'.payout_attempted_at ≡ d.payout_attempted_at
      → d'.payout_checking_id ≡ d.payout_checking_id
      → K d'
  keep_unpaid d d' k u a p = ledger.keep d d' k a (Unpaid-Recorded d' (rw p u))

  -- A write of the status, or of anything else, to an unpaid row.
  pub write-Contract :
      (q : Dbtx) (st : StableAt env q id (Unpaid K)) (f : Time → Deal → Deal)
      → KeepsPayout f
      → Contract
          (Holds id n (Unpaid K))
          (exec_by_id env q id f)
          (λ _. Holds id n K)
          (λ _. Holds id n K)
  write-Contract q st f p =
      Contract-weaken
        (Contract-exec_by_id env q id n (Unpaid K) K st f p.same_id
          (λ now d k. keep_unpaid d (f now d) k.0 k.1 (p.same_attempt now d) (p.same_payout now d)))
        (λ w h. h) (λ _ w h. h) (λ _ w h. forget-Unpaid w h)

  -- A write that leaves the status alone too, to whatever row.
  pub neutral-Contract :
      (j : Text) (f : Time → Deal → Deal)
      → KeepsPayout f
      → ((now : Time) (d : Deal) → (f now d).status ≡ d.status)
      → Kept (exec_by_id env pool j f)
  unfolding exec_by_id
  neutral-Contract j f p s =
      Contract-bind (λ _. Holds id n K)
        (Contract-exec_where env pool id n K ledger.stable K (has_id j) f p.same_id
          (λ now d k t.
            ledger.keep d (f now d) k (p.same_attempt now d)
              λ e. rw (s now d) (ledger.recorded d k (rw (p.same_payout now d) at e)))
          (λ d k t. k))
        λ rows.
          Contract-if (rows == 0) _ _ (λ _. Contract-raise deal_not_found (λ w h. h))
            (λ _. Contract-pure tt (λ w h. h))

  -- An UPDATE guarded by a status other than released, of whatever rows.
  pub guarded-Contract :
      (j : Text) (expected : Status) (f : Time → Deal → Deal)
      → KeepsPayout f
      → expected ≢ released
      → Kept (exec_where env pool (λ d. has_id j d && status_eq d.status expected) f)
  guarded-Contract j expected f p ne =
      Contract-exec_where env pool id n K ledger.stable K _ f p.same_id
        (λ now d k t.
          keep_unpaid d (f now d) k (unpaid_of d k (λ e. ne (ground arith))) (p.same_attempt now d)
            (p.same_payout now d))
        (λ d k e. k)

pub set_status-KeepsPayout : (s : Status) → KeepsPayout (set_status s)
set_status-KeepsPayout s = record {
  same_id = λ now d. refl;
  same_attempt = λ now d. refl;
  same_payout = λ now d. refl;
}
