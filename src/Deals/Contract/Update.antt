-- ===== src/Deals/Contract/Update.antt =====
-- Contracts of conditional updates, of reads, and of an action that leaves tables and payouts alone.
use ganji.Base.{
  ℕ, ◌≡◌, refl, Bool, true, false, some, Text, Bool-cases, inl, inr, ◌⊎◌, if◌then◌else◌,
}
use ganji.Deals.Types.{Time, Deal}
use ganji.Deals.World.{Result, ok, err, Tables, World, Env}
use ganji.Deals.Contract.{Post, Contract}
use ganji.Deals.Contract.Row.{row_of, Holds, StableAt}
use ganji.Deals.Repository.{Dbtx, visible, select, exec_where}
use ganji.Deals.Repository.Lookup.{find-update_where}

module _ (env : Env) (q : Dbtx) (id : Text) (n : ℕ) (R : Deal → Type 0)
    (st : StableAt env q id R) where
  -- A SELECT, whatever it looks for.
  pub Contract-select :
      {A : Type 0} (f : Tables → Result A)
      → Contract
          (Holds id n R)
          (select env q f)
          (λ a w. ((tables : Tables) × (f tables ≡ ok a)) × Holds id n R w)
          (λ _. Holds id n R)
  unfolding select
  Contract-select {A} f = record {
    at = λ w h.
        let seen = st w.tick w.tables h.row h.found h.holds in
        go w h seen (f (visible env q w.tick w.tables)) refl (Bool-cases (env.db_fails w.tick));
  }
    where
      go :
          (w : World) (h : Holds id n R w)
          (s : (d' : Deal) × (row_of id (visible env q w.tick w.tables) ≡ some d') × R d')
          (r : Result A)
          → f (visible env q w.tick w.tables) ≡ r
          → (env.db_fails w.tick ≡ true) ⊎ (env.db_fails w.tick ≡ false)
          → Post
              (λ a w'. ((tables : Tables) × (f tables ≡ ok a)) × Holds id n R w')
              (λ _. Holds id n R)
              (select env q f w)
      go w h (d, found, k) r e (inl x) =
          rw x (record { row = d; found = found; holds = k; counted = h.counted })
      go w h (d, found, k) (ok a) e (inr x) =
          rw (x, e)
            (
              (visible env q w.tick w.tables, e),
              record { row = d; found = found; holds = k; counted = h.counted },
            )
      go w h (d, found, k) (err y) e (inr x) =
          rw (x, e) (record { row = d; found = found; holds = k; counted = h.counted })

  -- An UPDATE of the rows that pass a test.
  pub Contract-exec_where :
      (R' : Deal → Type 0) (p : Deal → Bool) (f : Time → Deal → Deal)
      → ((now : Time) (d : Deal) → (f now d).id ≡ d.id)
      → ((now : Time) (d : Deal) → R d → p d ≡ true → R' (f now d))
      → ((d : Deal) → R d → p d ≡ false → R' d)
      → Contract (Holds id n R) (exec_where env q p f) (λ _. Holds id n R') (λ _. Holds id n R)
  unfolding exec_where
  Contract-exec_where R' p f keep change same = record {
    at = λ w h.
        let seen = st w.tick w.tables h.row h.found h.holds in
        go w h seen (Bool-cases (env.db_fails w.tick));
  }
    where
      updated : (now : Time) (d : Deal) → R d → (b : Bool) → p d ≡ b → R' (if b then f now d else d)
      updated now d k true e = change now d k e
      updated now d k false e = same d k e

      go :
          (w : World) (h : Holds id n R w)
          (s : (d' : Deal) × (row_of id (visible env q w.tick w.tables) ≡ some d') × R d')
          → (env.db_fails w.tick ≡ true) ⊎ (env.db_fails w.tick ≡ false)
          → Post (λ _. Holds id n R') (λ _. Holds id n R) (exec_where env q p f w)
      go w h (d, found, k) (inl x) =
          rw x (record { row = d; found = found; holds = k; counted = h.counted })
      go w h (d, found, k) (inr x) = rw x (record {
        row = if p d then f (env.now w.tick) d else d;
        found = find-update_where id p (f (env.now w.tick)) _ (keep (env.now w.tick)) found;
        holds = updated (env.now w.tick) d k (p d) refl;
        counted = h.counted;
      })
