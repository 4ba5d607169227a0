-- ===== src/Deals/Payment/ShareLink.antt =====
-- `PublicApproveDeal` of deals/service.go, for a deal that is locked.
use ganji.Base.{
  ℕ, suc, ◌≡◌, refl, ap, ◌∙◌, false, not, ◌&&◌, some, Text, text_eq, find, is_empty, arith,
}
use ganji.Deals.Status.{awaiting_payment, locked, status_eq, can_transition}
use ganji.Deals.Types.{Deal}
use ganji.Deals.World.{
  Result, ok, err, invalid_transition, deal_not_found, Tables, World, Env, Config, M, pure, ◌>>=◌,
}
use ganji.Deals.Contract.{
  Post, Contract, Contract-pure, Contract-bind, Contract-raise_if, Contract-lift, Contract-weaken,
  Contract-assume,
}
use ganji.Deals.Repository.Guarded.{committed}
use ganji.Deals.Contract.Row.{row_of}
use ganji.Deals.Repository
use ganji.Deals.Repository.{
  Dbtx, visible, required, has_id, pool, tx, select, statement, transaction, get_deal_for_update,
}
use ganji.Deals.Release.{intend, begin_release, release_escrow}
use ganji.Deals.Payment.{public_approve_deal, public_options, refresh_if_awaiting}

module _ (env : Env) (tables : Tables) (alone : (t : ℕ) (seen : Tables) → env.others t seen ≡ seen)
    (alive : (t : ℕ) → env.db_fails t ≡ false) where
  abbrev Same : World → Type 0
  Same w = w.tables ≡ tables

  -- It fails with ErrInvalidTransition.
  abbrev Rejected : {A : Type 0} → M A → Type 0
  Rejected m = Contract Same m (λ _ _. ⊥) (λ e _. e ≡ invalid_transition)

  seen_by : (q : Dbtx) (w : World) → Same w → visible env q w.tick w.tables ≡ tables
  seen_by pool w same = alone w.tick w.tables ∙ same
  seen_by tx w same = same

  read :
      {A B : Type 0} (q : Dbtx) (f : Tables → Result A) (a : A) (k : A → M B)
      → f tables ≡ ok a
      → Rejected (k a)
      → Rejected (select env q f >>= k)
  unfolding select statement ◌>>=◌
  read q f a k e h = record {
    at = λ w same.
        rw (alive w.tick, seen_by q w same, e)
          (h.at (record w { tables = tables; tick = suc w.tick }) refl);
  }

  rejected : {A B : Type 0} (m : M A) (k : A → M B) → Rejected m → Rejected (m >>= k)
  rejected m k h = Contract-bind (λ _ _. ⊥) h λ a. record { at = λ w x. absurd x }

  undone : {A : Type 0} (body : M A) → Rejected body → Rejected (transaction env body)
  unfolding transaction
  undone {A} body h = record {
    at = λ w same.
        let before = env.others w.tick w.tables in
        rw (alive w.tick) (
          go before _ (
            h.at (record w { tables = before; tick = suc w.tick }) (alone w.tick w.tables ∙ same)));
  }
    where
      go :
          (before : Tables) (o : Result A × World)
          → Post (λ _ _. ⊥) (λ e _. e ≡ invalid_transition) o
          → Post (λ _ _. ⊥) (λ e _. e ≡ invalid_transition) (committed env before o)
      go before (ok a, w) x = absurd x
      go before (err e, w) x = x

  module _ (cfg : Config) (d : Deal) where
    not_awaiting : d.status ≡ locked → refresh_if_awaiting env cfg d ≡ pure d
    unfolding refresh_if_awaiting
    not_awaiting l = rw (skipped l) refl
      where
        skipped :
            d.status ≡ locked
            → (not (is_empty d.checking_id) && status_eq d.status awaiting_payment) ≡ false
        skipped l = ground arith

    unauthorized : d.status ≡ locked → (public_options env cfg).authorize d ≡ err invalid_transition
    unfolding public_options can_transition
    unauthorized l = ground arith

    release-Rejected :
        row_of d.id tables ≡ some d
        → d.status ≡ locked
        → is_empty d.id ≡ false
        → Rejected (release_escrow env cfg (public_options env cfg) d.id)
    unfolding release_escrow begin_release intend get_deal_for_update
    release-Rejected row l i =
        Contract-raise_if (is_empty d.id) _ _ (λ w h t. absurd (ground arith))
          λ _. rejected _ _ (
            undone _ (
              read tx (λ seen. required deal_not_found (row_of d.id seen)) d _ (rw row refl)
                (Contract-lift _ _ (λ e w h x. cc (x, unauthorized l))
                  (λ a x. absurd (cc (x, unauthorized l))))))

    approve-Rejected :
        (token : Text)
        → is_empty token ≡ false
        → find (λ x. text_eq x.share_token token) tables.deals ≡ some d
        → row_of d.id tables ≡ some d
        → is_empty d.id ≡ false
        → d.status ≡ locked
        → Rejected (public_approve_deal env cfg token)
    unfolding public_approve_deal Repository.get_deal_by_share_token
    approve-Rejected token t found row i l =
        Contract-raise_if (is_empty token) _ _ (λ w h x. absurd (ground arith))
          λ _.
            read pool
              (λ seen. required deal_not_found (find (λ x. text_eq x.share_token token) seen.deals))
              d _ (rw found refl)
              (rw (not_awaiting l) (
                Contract-bind (λ x w. (x ≡ d) × Same w) (Contract-pure d (λ w h. (refl, h)))
                  λ x.
                    Contract-assume {C = x ≡ d} (λ w h. h.0)
                      λ same.
                        Contract-raise_if _ _ _ (λ w h _. refl)
                          λ _.
                            Contract-weaken (rw same (release-Rejected row l i)) (λ w h. h.1)
                              (λ _ w h. h) (λ _ w h. h)))

    -- Where nobody else writes and no statement fails, approving by the share link a deal that is
    -- locked ends in ErrInvalidTransition, although the approval begins by accepting that status.
    pub public_approve_deal-locked :
        (token : Text)
        → is_empty token ≡ false
        → find (λ x. text_eq x.share_token token) tables.deals ≡ some d
        → row_of d.id tables ≡ some d
        → is_empty d.id ≡ false
        → d.status ≡ locked
        → (w : World) → w.tables ≡ tables
        → (public_approve_deal env cfg token w).0 ≡ err invalid_transition
    public_approve_deal-locked token t found row i l w same =
        outcome _ ((approve-Rejected token t found row i l).at w same)
      where
        outcome :
            (o : Result Deal × World)
            → Post (λ _ _. ⊥) (λ e _. e ≡ invalid_transition) o
            → o.0 ≡ err invalid_transition
        outcome (ok a, w) x = absurd x
        outcome (err e, w) x = ap err x
