-- ===== src/Requests/Course.antt =====
-- The status of a deal's row through a request: what it may go from and to, statement by
-- statement.
pub mod Releases
pub mod Others
pub mod Operators
pub mod Served
use ganji.Base.{
  ℕ, ◌≡◌, refl, ◌⊎◌, inl, inr, Bool, true, false, not, ◌&&◌, some, Text, Bool-cases, subst, suc,
  arith, ◌==◌, if◌then◌else◌,
}
use ganji.Deals.Status.{
  Status, awaiting_payment, locked, released, refunded, status_eq, can_transition,
}
use ganji.Deals.Types.{Time, Deal}
use ganji.Deals.World.{Error, Result, ok, err, deal_not_found, Tables, World, Env, M, ◌>>=◌}
use ganji.Deals.Contract.{
  Post, Contract, Contract-pure, Contract-raise, Contract-if, Contract-bind, Contract-weaken,
  Contract-assume,
}
use ganji.Deals.Contract.Row.{
  payouts, row_of, Holds, Stable, StableAt, stable_tx, Contract-get, Contract-exec_by_id,
  Contract-transaction,
}
use ganji.Deals.Contract.Update.{Contract-select, Contract-exec_where}
use ganji.Deals.Repository.Guarded.{committed}
use ganji.Deals.Release.Intention.{row-id}
use ganji.Deals.Repository.{
  Dbtx, pool, tx, has_id, is_open, select, exec_where, exec_by_id, get_deal_by_id,
  get_deal_for_update, set_status, update_status_if_current, transaction,
}

-- A step of the lifecycle: none, one of ValidTransitions, or the sweep's of an open deal to refunded.
abbrev pub Legal : Status → Status → Type 0
Legal s t = (s ≡ t) ⊎ (can_transition s t ≡ true) ⊎ ((is_open s ≡ true) × (t ≡ refunded))

-- Where a deal may be when payment detection locks it or the sweep refunds it.
pub Legal-locked : (s t : Status) → Legal s t → t ≡ awaiting_payment → Legal s locked
unfolding can_transition
Legal-locked s t h e = ground arith

pub Legal-refunded : (s t : Status) → Legal s t → is_open t ≡ true → Legal s refunded
unfolding can_transition
Legal-refunded s t h o = ground arith

-- Other requests leave the status of the row alone.
abbrev pub Still : Env → Text → Type 0
Still env id =
    (t : ℕ) (tables : Tables) (d : Deal)
    → row_of id tables ≡ some d
    → (d' : Deal) × (row_of id (env.others t tables) ≡ some d') × (d'.status ≡ d.status)

-- The row of the deal has a status that satisfies `P`.
abbrev pub Rows : Text → (Status → Type 0) → World → Type 0
Rows id P w = (n : ℕ) × Holds id n (λ d. P d.status) w

pub Rows-imp :
    (id : Text) (P P' : Status → Type 0)
    → ((t : Status) → P t → P' t)
    → (w : World) → Rows id P w
    → Rows id P' w
Rows-imp id P P' le w (n, h) = (
  n,
  record { row = h.row; found = h.found; holds = le h.row.status h.holds; counted = h.counted },
)

-- A contract for each number of payouts.
each :
    {A : Type 0} (id : Text) (P Q E : Status → Type 0) (m : M A)
    → ((n : ℕ)
        → Contract
            (Holds id n (λ d. P d.status))
            m
            (λ _. Holds id n (λ d. Q d.status))
            (λ _. Holds id n (λ d. E d.status)))
    → Contract (Rows id P) m (λ _. Rows id Q) (λ _. Rows id E)
each {A} id P Q E m h = record { at = λ w (n, held). go n (m w) ((h n).at w held) }
  where
    go :
        (n : ℕ) (o : Result A × World)
        → Post (λ _. Holds id n (λ d. Q d.status)) (λ _. Holds id n (λ d. E d.status)) o
        → Post (λ _. Rows id Q) (λ _. Rows id E) o
    go n (ok a, w) x = (n, x)
    go n (err e, w) x = (n, x)

-- An action that leaves the tables alone.
pub Rows-same :
    {A : Type 0} (id : Text) (P : Status → Type 0) (m : M A)
    → ((w : World) → (m w).1.tables ≡ w.tables)
    → Contract (Rows id P) m (λ _. Rows id P) (λ _. Rows id P)
Rows-same {A} id P m q = record { at = λ w (n, h). go w n h (m w) (q w) }
  where
    go :
        (w : World) (n : ℕ)
        → Holds id n (λ d. P d.status) w
        → (o : Result A × World) → o.1.tables ≡ w.tables
        → Post (λ _. Rows id P) (λ _. Rows id P) o
    go w n h (ok a, w') e = (
      payouts w'.calls,
      record { row = h.row; found = rw e h.found; holds = h.holds; counted = refl },
    )
    go w n h (err x, w') e = (
      payouts w'.calls,
      record { row = h.row; found = rw e h.found; holds = h.holds; counted = refl },
    )

module _ (env : Env) (id : Text) (still : Still env id) where
  stable : (P : Status → Type 0) → Stable env id (λ d. P d.status)
  stable P t tables d found p =
      let (d', found', same) = still t tables d found in (d', found', rw same p)

  stable_at : (q : Dbtx) (P : Status → Type 0) → StableAt env q id (λ d. P d.status)
  stable_at pool P = stable P
  stable_at tx P = stable_tx env id (λ d. P d.status)

  -- A SELECT.
  pub Rows-select :
      {A : Type 0} (q : Dbtx) (P : Status → Type 0) (f : Tables → Result A)
      → Contract (Rows id P) (select env q f) (λ _. Rows id P) (λ _. Rows id P)
  Rows-select q P f = each id P P P _ λ n.
      Contract-weaken (Contract-select env q id n _ (stable_at q P) f) (λ w h. h) (λ _ w h. h.1)
        (λ _ w h. h)

  -- An UPDATE of rows that pass a test.
  pub Rows-exec_where :
      (q : Dbtx) (P P' : Status → Type 0) (p : Deal → Bool) (f : Time → Deal → Deal)
      → ((now : Time) (d : Deal) → (f now d).id ≡ d.id)
      → ((now : Time) (d : Deal) → P d.status → p d ≡ true → P' (f now d).status)
      → ((t : Status) → P t → P' t)
      → Contract (Rows id P) (exec_where env q p f) (λ _. Rows id P') (λ _. Rows id P)
  Rows-exec_where q P P' p f keep change le = each id P P' P _ λ n.
      Contract-exec_where env q id n _ (stable_at q P) (λ d. P' d.status) p f keep change
        (λ d k _. le d.status k)

  -- An UPDATE of the row itself.
  pub Rows-exec_by_id :
      (q : Dbtx) (P P' : Status → Type 0) (f : Time → Deal → Deal)
      → ((now : Time) (d : Deal) → (f now d).id ≡ d.id)
      → ((now : Time) (d : Deal) → P d.status → P' (f now d).status)
      → Contract (Rows id P) (exec_by_id env q id f) (λ _. Rows id P') (λ _. Rows id P)
  Rows-exec_by_id q P P' f keep change =
      each id P P' P _
        λ n. Contract-exec_by_id env q id n _ (λ d. P' d.status) (stable_at q P) f keep change

  -- One of any row that leaves the status alone.
  pub Rows-neutral :
      (q : Dbtx) (P : Status → Type 0) (j : Text) (f : Time → Deal → Deal)
      → ((now : Time) (d : Deal) → (f now d).id ≡ d.id)
      → ((now : Time) (d : Deal) → (f now d).status ≡ d.status)
      → Contract (Rows id P) (exec_by_id env q j f) (λ _. Rows id P) (λ _. Rows id P)
  unfolding exec_by_id
  Rows-neutral q P j f keep same =
      Contract-bind (λ _. Rows id P)
        (Rows-exec_where q P P (has_id j) f keep (λ now d p _. rw (same now d) p) (λ t p. p))
        λ rows.
          Contract-if (rows == 0) _ _ (λ _. Contract-raise deal_not_found (λ w h. h))
            (λ _. Contract-pure tt (λ w h. h))

  -- The row that the code reads has the status.
  read_with :
      {B : Type 0} (q : Dbtx) (P : Status → Type 0) {Q : B → World → Type 0}
      {E : Error → World → Type 0} (m : M Deal) (k : Deal → M B)
      → ((n : ℕ)
          → Contract
              (Holds id n (λ d. P d.status))
              m
              (λ d. Holds id n (λ x. (x ≡ d) × P x.status))
              (λ _. Holds id n (λ d. P d.status)))
      → ((e : Error) (w : World) → Rows id P w → E e w)
      → ((d : Deal) → d.id ≡ id → P d.status → Contract (Rows id P) (k d) Q E)
      → Contract (Rows id P) (m >>= k) Q E
  read_with q P m k hm he hk = record {
    at = λ w (n, h).
        (Contract-bind (λ d. Holds id n (λ x. (x ≡ d) × P x.status))
            (Contract-weaken (hm n) (λ w x. x) (λ d w x. x) (λ e w x. he e w (n, x)))
            (λ d.
              Contract-assume {C = (d.id ≡ id) × P d.status}
                (λ w x. (
                  rw (← x.holds.0) (row-id id x.row w x.found),
                  subst (λ y. P y.status) x.holds.0 x.holds.1,
                ))
                λ c.
                  Contract-weaken (hk d c.0 c.1)
                    (λ w x. (
                      n,
                      record {
                        row = x.row;
                        found = x.found;
                        holds = x.holds.1;
                        counted = x.counted;
                      },
                    ))
                    (λ _ w x. x) (λ _ w x. x))).at
          w h;
  }

  pub Rows-get :
      {B : Type 0} (P : Status → Type 0) {Q : B → World → Type 0} {E : Error → World → Type 0}
      (k : Deal → M B)
      → ((e : Error) (w : World) → Rows id P w → E e w)
      → ((d : Deal) → d.id ≡ id → P d.status → Contract (Rows id P) (k d) Q E)
      → Contract (Rows id P) (get_deal_by_id env pool id >>= k) Q E
  unfolding get_deal_by_id
  Rows-get P k he hk = read_with pool P _ k (λ n. Contract-get env pool id n _ (stable P)) he hk

  pub Rows-lock :
      {B : Type 0} (P : Status → Type 0) {Q : B → World → Type 0} {E : Error → World → Type 0}
      (k : Deal → M B)
      → ((e : Error) (w : World) → Rows id P w → E e w)
      → ((d : Deal) → d.id ≡ id → P d.status → Contract (Rows id P) (k d) Q E)
      → Contract (Rows id P) (get_deal_for_update env tx id >>= k) Q E
  unfolding get_deal_for_update
  Rows-lock P k he hk =
      read_with tx P _ k (λ n. Contract-get env tx id n _ (stable_tx env id _)) he hk

  -- A transaction, whose body may go from `P` to `P'`.
  pub Rows-transaction :
      {A : Type 0} (P P' : Status → Type 0) (body : M A)
      → Contract (Rows id P) body (λ _. Rows id P') (λ _ _. Unit)
      → ((t : Status) → P t → P' t)
      → Contract (Rows id P) (transaction env body) (λ _. Rows id P') (λ _. Rows id P')
  unfolding transaction
  Rows-transaction {A} P P' body hb le = record {
    at = λ w (n, h).
        begin w (stable P w.tick w.tables h.row h.found h.holds) (Bool-cases (env.db_fails w.tick));
  }
    where
      undone :
          (before : Tables) (d : Deal) (w : World)
          → row_of id before ≡ some d
          → P d.status
          → w.tables ≡ before
          → Rows id P' w
      undone before d w found p e = (
        payouts w.calls,
        record { row = d; found = rw e found; holds = le d.status p; counted = refl },
      )

      finish :
          (before : Tables) (d : Deal)
          → row_of id before ≡ some d
          → P d.status
          → (o : Result A × World) → Post (λ _. Rows id P') (λ _ _. Unit) o
          → Post (λ _. Rows id P') (λ _. Rows id P') (committed env before o)
      finish before d found p (err e, w) x =
          undone before d (record w { tables = before }) found p refl
      finish before d found p (ok a, w) (n, x) = elim (Bool-cases (env.db_fails w.tick)) [
        | inr e ↦
            rw e (n, record { row = x.row; found = x.found; holds = x.holds; counted = x.counted })
        | inl e ↦ elim (Bool-cases (env.commit_lost w.tick)) [
          | inl l ↦
              rw (e, l)
                (n, record { row = x.row; found = x.found; holds = x.holds; counted = x.counted })
          | inr l ↦
              rw (e, l)
                (undone before d (record w { tables = before; tick = suc w.tick }) found p refl)
        ]
      ]

      begin :
          (w : World)
          → ((d : Deal) × (row_of id (env.others w.tick w.tables) ≡ some d) × P d.status)
          → (env.db_fails w.tick ≡ true) ⊎ (env.db_fails w.tick ≡ false)
          → Post (λ _. Rows id P') (λ _. Rows id P') (transaction env body w)
      begin w (d, found, p) (inl e) = rw e (
          undone (env.others w.tick w.tables) d
            (record w { tables = env.others w.tick w.tables; tick = suc w.tick }) found p refl)
      begin w (d, found, p) (inr e) = rw e (
          finish (env.others w.tick w.tables) d found p _ (
            hb.at (record w { tables = env.others w.tick w.tables; tick = suc w.tick })
              (payouts w.calls, record { row = d; found = found; holds = p; counted = refl })))
