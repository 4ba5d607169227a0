-- ===== src/Deals/Contract/Row.antt =====
-- Contracts on the row of one deal and on the payouts asked for so far.
use ganji.Base.{
  ℕ, suc, ◌≡◌, refl, Bool, true, false, Option, some, List, [], ◌∷◌, Text, find, Bool-cases, inl,
  inr, ◌⊎◌, arith, ◌==◌, if◌then◌else◌,
}
use ganji.Deals.Types.{Time, Deal}
use ganji.Deals.World.{
  Result, ok, err, db_failed, Payout, Call, Tables, World, Env, M, deal_not_found, pure, raise,
  ◌>>=◌,
}
use ganji.Deals.Contract.{Post, Contract}
use ganji.Deals.Repository.{
  Dbtx, pool, tx, has_id, update_where, count_where, visible, select, exec_by_id, transaction,
  required,
}
use ganji.Deals.Repository.Lookup.{find-update_where_self, count_where-pos}

-- The payouts that LNbits may have sent: those that it did not refuse.
abbrev pub payouts : List Call → ℕ
payouts [] = 0
payouts (Call.pay invoice Payout.refused ∷ calls) = payouts calls
payouts (Call.pay invoice Payout.unknown ∷ calls) = suc (payouts calls)
payouts (Call.pay invoice Payout.sent ∷ calls) = suc (payouts calls)
payouts (_ ∷ calls) = payouts calls

abbrev pub row_of : Text → Tables → Option Deal
row_of id tables = find (has_id id) tables.deals

-- The deal `id` has a row, which satisfies `R`, and `n` payouts may have been sent.
pub record Holds (id : Text) (n : ℕ) (R : Deal → Type 0) (w : World) : Type 0 where
  pub row : Deal
  pub found : row_of id w.tables ≡ some row
  pub holds : R row
  pub counted : payouts w.calls ≡ n

-- What other requests write keeps `R` of the row.
abbrev pub Stable : Env → Text → (Deal → Type 0) → Type 0
Stable env id R =
    (t : ℕ) (tables : Tables) (d : Deal)
    → row_of id tables ≡ some d
    → R d
    → (d' : Deal) × (row_of id (env.others t tables) ≡ some d') × R d'

abbrev pub StableAt : Env → Dbtx → Text → (Deal → Type 0) → Type 0
StableAt env q id R =
    (t : ℕ) (tables : Tables) (d : Deal)
    → row_of id tables ≡ some d
    → R d
    → (d' : Deal) × (row_of id (visible env q t tables) ≡ some d') × R d'

stable_pool : (env : Env) (id : Text) {R : Deal → Type 0} → Stable env id R → StableAt env pool id R
stable_pool env id h = h

pub stable_tx : (env : Env) (id : Text) (R : Deal → Type 0) → StableAt env tx id R
stable_tx env id R t tables d found h = (d, found, h)

module _ (env : Env) (q : Dbtx) (id : Text) (n : ℕ) (R : Deal → Type 0)
    (st : StableAt env q id R) where
  pub Contract-get :
      Contract
        (Holds id n R)
        (select env q (λ tables. required deal_not_found (row_of id tables)))
        (λ d. Holds id n (λ x. (x ≡ d) × R x))
        (λ _. Holds id n R)
  unfolding select
  Contract-get = record {
    at =
        λ w h. go w h (st w.tick w.tables h.row h.found h.holds) (Bool-cases (env.db_fails w.tick));
  }
    where
      go :
          (w : World) (h : Holds id n R w)
          → ((d' : Deal) × (row_of id (visible env q w.tick w.tables) ≡ some d') × R d')
          → (env.db_fails w.tick ≡ true) ⊎ (env.db_fails w.tick ≡ false)
          → Post
              (λ d. Holds id n (λ x. (x ≡ d) × R x))
              (λ _. Holds id n R)
              (select env q (λ tables. required deal_not_found (row_of id tables)) w)
      go w h (d, found, r) (inl e) =
          rw e (record { row = d; found = found; holds = r; counted = h.counted })
      go w h (d, found, r) (inr e) =
          rw (e, found) (record { row = d; found = found; holds = (refl, r); counted = h.counted })

module _ (env : Env) (q : Dbtx) (id : Text) (n : ℕ) (R R' : Deal → Type 0)
    (st : StableAt env q id R) where
  pub Contract-exec_by_id :
      (f : Time → Deal → Deal)
      → ((now : Time) (d : Deal) → (f now d).id ≡ d.id)
      → ((now : Time) (d : Deal) → R d → R' (f now d))
      → Contract (Holds id n R) (exec_by_id env q id f) (λ _. Holds id n R') (λ _. Holds id n R)
  unfolding exec_by_id ◌>>=◌
  Contract-exec_by_id f keep step' = record {
    at =
        λ w h. go w h (st w.tick w.tables h.row h.found h.holds) (Bool-cases (env.db_fails w.tick));
  }
    where
      Seen : World → Type 0
      Seen w = (d' : Deal) × (row_of id (visible env q w.tick w.tables) ≡ some d') × R d'

      changed :
          (w : World)
          → Holds id n R w
          → (d' : Deal) → (tb : Tables) → (row_of id tb ≡ some d')
          → R d'
          → (b : Bool) → (count_where (has_id id) tb.deals == 0) ≡ b
          → Post
              (λ _. Holds id n R')
              (λ _. Holds id n R)
              ((if b then raise deal_not_found else pure tt) (record w {
                tick = suc w.tick;
                tables = record tb {
                  deals = update_where (has_id id) (f (env.now w.tick)) tb.deals;
                };
              }))
      changed w h d tb found r true e =
          absurd (ground (arith, count_where-pos (has_id id) tb.deals {d = d} found))
      changed w h d tb found r false e = record {
        row = f (env.now w.tick) d;
        found =
            find-update_where_self id (f (env.now w.tick)) tb.deals (keep (env.now w.tick)) found;
        holds = step' (env.now w.tick) d r;
        counted = h.counted;
      }

      go :
          (w : World)
          → Holds id n R w
          → Seen w
          → (env.db_fails w.tick ≡ true) ⊎ (env.db_fails w.tick ≡ false)
          → Post (λ _. Holds id n R') (λ _. Holds id n R) (exec_by_id env q id f w)
      go w h (d, found, r) (inl e) =
          rw e (record { row = d; found = found; holds = r; counted = h.counted })
      go w h (d, found, r) (inr e) =
          rw e (changed w h d (visible env q w.tick w.tables) found r _ refl)

module _ {A : Type 0} (env : Env) (id : Text) (n : ℕ) (R R0 : Deal → Type 0) (Q : A → Deal → Type 0)
    (st : Stable env id R) where
  -- An error leaves the row as it was, or as the body left it where a COMMIT that failed was
  -- carried out; `R0` is what both have in common.
  pub Contract-transaction :
      (body : M A)
      → Contract (Holds id n R) body (λ a. Holds id n (Q a)) (λ _ w. payouts w.calls ≡ n)
      → ((d : Deal) → R d → R0 d)
      → ((a : A) (d : Deal) → Q a d → R0 d)
      → Contract (Holds id n R) (transaction env body) (λ a. Holds id n (Q a)) (λ _. Holds id n R0)
  unfolding transaction
  Contract-transaction body hb old new = record {
    at = λ w h.
        begin w h (st w.tick w.tables h.row h.found h.holds) (Bool-cases (env.db_fails w.tick));
  }
    where
      finish :
          (before : Tables) (d : Deal)
          → (row_of id before ≡ some d)
          → R d
          → (o : Result A × World) → Post (λ a. Holds id n (Q a)) (λ _ w. payouts w.calls ≡ n) o
          → Post
              (λ a. Holds id n (Q a))
              (λ _. Holds id n R0)
              (elim o.0 [
                | err e ↦ (err e, record o.1 { tables = before })
                | ok a ↦
                    if env.db_fails o.1.tick
                    then (
                      err db_failed,
                      record o.1 {
                        tables = if env.commit_lost o.1.tick then o.1.tables else before;
                        tick = suc o.1.tick;
                      },
                    )
                    else (ok a, record o.1 { tick = suc o.1.tick })
              ])
      finish before d found r (err e, w) h = record {
        row = d;
        found = found;
        holds = old d r;
        counted = h;
      }
      finish before d found r (ok a, w) h = elim (Bool-cases (env.db_fails w.tick)) [
        | inr e ↦
            rw e (record { row = h.row; found = h.found; holds = h.holds; counted = h.counted })
        | inl e ↦ elim (Bool-cases (env.commit_lost w.tick)) [
          | inl l ↦
              rw (e, l)
                (record {
                  row = h.row;
                  found = h.found;
                  holds = new a h.row h.holds;
                  counted = h.counted;
                })
          | inr l ↦
              rw (e, l) (record { row = d; found = found; holds = old d r; counted = h.counted })
        ]
      ]

      begin :
          (w : World)
          → Holds id n R w
          → ((d' : Deal) × (row_of id (env.others w.tick w.tables) ≡ some d') × R d')
          → (env.db_fails w.tick ≡ true) ⊎ (env.db_fails w.tick ≡ false)
          → Post (λ a. Holds id n (Q a)) (λ _. Holds id n R0) (transaction env body w)
      begin w h (d, found, r) (inl e) =
          rw e (record { row = d; found = found; holds = old d r; counted = h.counted })
      begin w h (d, found, r) (inr e) = rw e (
          finish (env.others w.tick w.tables) d found r _
            (hb.at _ (record { row = d; found = found; holds = r; counted = h.counted })))
