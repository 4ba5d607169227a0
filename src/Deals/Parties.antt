-- ===== src/Deals/Parties.antt =====
-- The deals that the operations of a party return (deals/service.go).
use ganji.Base.{
  ap, suc, ℕ, ◌≡◌, Bool, true, not, ◌||◌, map, filter, All, Text, text_eq, equal_fold, trim_space,
  inl, inr, arith, Bool-cases, if◌then◌else◌,
}
use ganji.Deals.Status.{status_eq, awaiting_payment}
use ganji.Deals.Types.{Deal}
use ganji.Deals.World.{Result, ok, err, db_failed, World, Tables, Env, Config, M}
use ganji.Deals.Contract.{
  Post, Contract, Contract-bind, Contract-pure, Contract-if, Contract-try, Contract-raise,
}
use ganji.Deals.Contract.Free.{Any, free, OnOk, on_ok, guard}
use ganji.Deals.Repository
use ganji.Deals.Repository.{Dbtx, pool, tx, statement, select, transaction, order_by, newest_first}
use ganji.Deals.Repository.Order.{All-order_by, All-filter, All-imp}
use ganji.Deals.Lifecycle
use ganji.Deals.Payment

text_eq-same : (a b : Text) → (text_eq a b ≡ true) → a ≡ b
text_eq-same a b e = ground arith

module _ (env : Env) (user email : Text) where
  -- The freelancer of this id, or the client of this email.
  abbrev pub HasParty : Deal → Type 0
  HasParty d =
      (text_eq d.freelancer_id user || equal_fold env.fold_rune d.client_email email) ≡ true

  same-HasParty : (d : Deal) → (text_eq d.client_email email ≡ true) → HasParty d
  same-HasParty d e =
      (let folded = ap (map env.fold_rune) (text_eq-same d.client_email email e) in ground arith)

  statement-Contract :
      {A : Type 0} (P : A → Type 0) (q : Dbtx) (f : ℕ → Tables → Result A × Tables)
      → ((t : ℕ) (tables : Tables) → OnOk P (f t tables).0)
      → Contract Any (statement env q f) (λ a _. P a) (λ _. Any)
  unfolding statement
  statement-Contract {A} P q f h = record {
    at = λ w _. elim (Bool-cases (env.db_fails w.tick)) [
      | inl e ↦ rw e tt
      | inr e ↦ rw e (go w (f w.tick (Repository.visible env q w.tick w.tables)) (h w.tick _))
    ];
  }
    where
      go :
          (w : World) (o : Result A × Tables)
          → OnOk P o.0
          → Post (λ a _. P a) (λ _. Any) (o.0, record w { tables = o.1; tick = suc w.tick })
      go w (ok a, t) p = p
      go w (err e, t) p = tt

  transaction-Contract :
      {A : Type 0} (P : A → Type 0) (m : M A)
      → Contract Any m (λ a _. P a) (λ _. Any)
      → Contract Any (transaction env m) (λ a _. P a) (λ _. Any)
  unfolding transaction
  transaction-Contract {A} P m h = record {
    at = λ w _. elim (Bool-cases (env.db_fails w.tick)) [
      | inl e ↦ rw e tt
      | inr e ↦ rw e (finish (env.others w.tick w.tables) _ (h.at _ tt))
    ];
  }
    where
      finish :
          (before : Tables) (o : Result A × World)
          → Post (λ a _. P a) (λ _. Any) o
          → Post
              (λ a _. P a)
              (λ _. Any)
              (elim o.0 [
                | err e ↦ (err e, record o.1 { tables = before })
                | ok a ↦
                    if env.db_fails o.1.tick
                    then (
                      err db_failed,
                      record o.1 {
                        tables = if env.commit_lost o.1.tick then o.1.tables else before;
                        tick = suc o.1.tick;
                      },
                    )
                    else (ok a, record o.1 { tick = suc o.1.tick })
              ])
      finish before (err e, w) p = tt
      finish before (ok a, w) p = elim (Bool-cases (env.db_fails w.tick)) [
        | inl e ↦ rw e tt
        | inr e ↦ rw e p
      ]

  module _ (cfg : Config) where
    persist-HasParty :
        (d : Deal)
        → HasParty d
        → Contract Any (Lifecycle.persist_deal env cfg d) (λ a _. HasParty a) (λ _. Any)
    unfolding Lifecycle.persist_deal Repository.create_deal
    persist-HasParty d own =
        Contract-try (λ a _. HasParty a) (λ _. Any) _
          (transaction-Contract HasParty _ (statement-Contract HasParty tx _ (λ t tables. own)))
          (λ a. Contract-pure a (λ w h. h))
          (λ e. Contract-bind (λ _. Any) (free _) λ _. Contract-raise e (λ w _. tt))

    pub create-HasParty :
        (given : Deal)
        → (text_eq given.freelancer_id user ≡ true)
        → (w : World) → OnOk HasParty (Lifecycle.create_deal env cfg given w).0
    unfolding Lifecycle.create_deal Lifecycle.normalise
    create-HasParty given own w =
        on_ok {S = Any} _ _
          (Contract-bind (λ _. Any) (free _)
            λ _.
              Contract-bind (λ _. Any) (free _)
                λ preimage.
                  Contract-bind (λ _. Any) (free _)
                    λ token.
                      Contract-bind (λ _. Any) (free _) λ hold. persist-HasParty _ (ground arith))
          w tt

    pub submit-HasParty :
        (id : Text) (w : World) → OnOk HasParty (Lifecycle.submit_work env cfg user id w).0
    unfolding Lifecycle.submit_work
    submit-HasParty id w =
        on_ok {S = Any} _ _
          (guard _ _ _ λ _.
            Contract-bind (λ _. Any) (free _)
              λ d. guard _ _ _ λ own.
                Contract-bind (λ _. Any) (free _)
                  λ xs. guard _ _ _ λ _. guard _ _ _ λ _.
                    Contract-bind (λ _. Any) (free _) λ _. Contract-pure _ (λ w _. ground arith))
          w tt

    pub invoice-HasParty :
        (id invoice : Text) (w : World)
        → OnOk HasParty (Lifecycle.update_payee_invoice env cfg user id invoice w).0
    unfolding Lifecycle.update_payee_invoice
    invoice-HasParty id invoice w =
        on_ok {S = Any} _ _
          (guard _ _ _ λ _. guard _ _ _ λ _.
            Contract-bind (λ _. Any) (free _)
              λ d. guard _ _ _ λ own. guard _ _ _ λ _.
                Contract-if (text_eq d.payee_invoice (trim_space invoice)) _ _
                  (λ _. Contract-pure d (λ w _. ground arith))
                  (λ _.
                    Contract-bind (λ _. Any) (free _) λ _. Contract-pure _ (λ w _. ground arith)))
          w tt

    refresh-HasParty :
        (d : Deal)
        → HasParty d
        → Contract Any (Payment.refresh_payment_status env cfg d) (λ a _. HasParty a) (λ _. Any)
    unfolding Payment.refresh_payment_status
    refresh-HasParty d own =
        Contract-bind (λ _. Any) (free _)
          λ payment.
            Contract-if (not payment.paid) _ _ (λ _. Contract-pure d (λ w _. own))
              (λ _.
                Contract-if (status_eq d.status awaiting_payment) _ _
                  (λ _.
                    Contract-bind (λ _. Any) (free _)
                      λ moved.
                        Contract-if moved _ _
                          (λ _. Contract-bind (λ _. Any) (free _) λ _. Contract-pure _ (λ w _. own))
                          (λ _. Contract-pure d (λ w _. own)))
                  (λ _. Contract-pure d (λ w _. own)))

    pub check-HasParty :
        (id : Text) (w : World) → OnOk HasParty (Payment.check_payment env cfg user id w).0
    unfolding Payment.check_payment
    check-HasParty id w =
        on_ok {S = Any} _ _
          (Contract-bind (λ _. Any) (free _)
            λ d. guard _ _ _ λ own. guard _ _ _ λ _. refresh-HasParty d (ground arith))
          w tt

    abbrev listed : Deal → Bool
    listed d = text_eq d.freelancer_id user || text_eq d.client_email email

    listed-HasParty : (d : Deal) → (listed d ≡ true) → HasParty d
    listed-HasParty d e = elim (Bool-cases (text_eq d.client_email email)) [
      | inl same ↦ same-HasParty d same
      | inr other ↦ ground arith
    ]

    pub list-HasParty :
        (w : World) → OnOk (All HasParty) (Lifecycle.list_by_user env cfg user email w).0
    unfolding Lifecycle.list_by_user Repository.list_for_user select
    list-HasParty w =
        on_ok {S = Any} _ _
          (guard _ _ _ λ _.
            statement-Contract (All HasParty) pool
              (λ t tables. (ok (order_by newest_first (filter listed tables.deals)), tables))
              (λ t tables. All-order_by HasParty newest_first (filter listed tables.deals) (
                All-imp _ HasParty listed-HasParty (filter listed tables.deals)
                  (All-filter listed tables.deals))))
          w tt
