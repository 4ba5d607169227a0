-- ===== src/Deals/Lifecycle/Disputes.antt =====
-- `DisputeDeal` of deals/service.go and the row that it writes.
use ganji.Base.{
  ◌≤◌, ◌≡◌, refl, inl, inr, Bool, true, false, not, ◌&&◌, List, [], ◌∷◌, any, Text, text_eq,
  equal_fold, is_empty, length, trim_space, Bool-cases, ◌==◌, arith,
}
use ganji.Deals.Status.{Status, disputed, status_eq}
use ganji.Deals.Types.{Deal}
use ganji.Deals.World.{Tables, World, Env, Config, Notice, step, ◌>>=◌}
use ganji.Deals.Escrow.{notify}
use ganji.Deals.Contract.{
  Post, Contract, Contract-bind, Contract-raise_if, Contract-pure, Contract-weaken,
}
use ganji.Deals.Contract.Free.{Any, free, guard}
use ganji.Deals.Repository
use ganji.Deals.Repository.{pool, has_id, update_where, count_where, exec_where, set_disputed}
use ganji.Deals.Lifecycle.{dispute_deal}

-- A row that an UPDATE counts is in the tables, as the UPDATE leaves it.
any-update_where :
    (p q : Deal → Bool) (f : Deal → Deal) (rows : List Deal)
    → ((x : Deal) → p x ≡ true → q (f x) ≡ true)
    → (count_where p rows == 1) ≡ true
    → any q (update_where p f rows) ≡ true
any-update_where p q f [] fits counted = absurd (ground arith)
any-update_where p q f (x ∷ xs) fits counted = elim (Bool-cases (p x)) [
  | inl e ↦ rw (e, fits x e) refl
  | inr e ↦
      let rest = any-update_where p q f xs fits (rw e at counted) in rw e (ground (arith, rest))
]

abbrev is_stored : Text → Text → Deal → Bool
is_stored id reason d =
    has_id id d && status_eq d.status disputed && text_eq d.dispute_reason reason

-- There is a row of the id in disputed, with this reason.
abbrev pub IsStored : Text → Text → Tables → Type 0
IsStored id reason t = any (is_stored id reason) t.deals ≡ true

module _ (env : Env) (cfg : Config) where
  update_dispute-IsStored :
      (id reason : Text) (s : Status)
      → Contract Any
          (Repository.update_dispute_if_current env pool id s reason)
          (λ b w. not b ≡ false → IsStored id reason w.tables)
          (λ _. Any)
  unfolding Repository.update_dispute_if_current ◌>>=◌
  update_dispute-IsStored id reason s = record {
    at = λ w h. elim (Bool-cases (env.db_fails w.tick)) [
      | inl e ↦ rw e tt
      | inr e ↦ rw e (λ counted.
          any-update_where (λ d. has_id id d && status_eq d.status s) (is_stored id reason)
            (set_disputed reason (env.now w.tick)) (env.others w.tick w.tables).deals
            (λ x guarded. ground arith) (ground arith))
    ];
  }

  -- What happens after the UPDATE writes no tables.
  step_tables :
      (T : Tables → Type 0) → Contract (λ w. T w.tables) step (λ _ w. T w.tables) (λ _. Any)
  unfolding step
  step_tables T = record { at = λ w h. h }

  notify_tables :
      (T : Tables → Type 0) (n : Notice) (d : Deal)
      → Contract (λ w. T w.tables) (notify cfg n d) (λ _ w. T w.tables) (λ _. Any)
  unfolding notify ◌>>=◌
  notify_tables T n d = record {
    at = λ w h. elim (Bool-cases cfg.has_notifier) [ inl e ↦ rw e h | inr e ↦ rw e h ];
  }

  -- A dispute that succeeds comes from the client of the deal that it returns, gives a reason of one to 2000
  -- runes once trimmed, and leaves a row of the id asked for in disputed with that reason, whatever other
  -- requests wrote before.
  pub dispute_deal-IsStored :
      (email id reason : Text) (w : World)
      → Post
          (λ d after.
            (equal_fold env.fold_rune d.client_email email ≡ true)
            × (is_empty (trim_space reason) ≡ false)
            × (length (trim_space reason) ≤ 2000)
            × IsStored id (trim_space reason) after.tables)
          (λ _ _. Unit {0})
          (dispute_deal env cfg email id reason w)
  unfolding dispute_deal
  dispute_deal-IsStored email id reason w = disputes.at w tt
    where
      disputes :
          Contract Any
            (dispute_deal env cfg email id reason)
            (λ d after.
              (equal_fold env.fold_rune d.client_email email ≡ true)
              × (is_empty (trim_space reason) ≡ false)
              × (length (trim_space reason) ≤ 2000)
              × IsStored id (trim_space reason) after.tables)
            (λ _. Any)
      disputes = guard _ _ _ λ _. guard _ _ _ λ some_reason. guard _ _ _ λ short.
          Contract-bind (λ _. Any) (free _)
            λ d. guard _ _ _ λ own. guard _ _ _ λ _.
              Contract-bind (λ b w. not b ≡ false → IsStored id (trim_space reason) w.tables)
                (update_dispute-IsStored id (trim_space reason) d.status)
                λ b.
                  Contract-raise_if _ _ _ (λ w h _. tt)
                    λ moved.
                      Contract-bind (λ _ w. IsStored id (trim_space reason) w.tables)
                        (Contract-weaken (step_tables (IsStored id (trim_space reason)))
                          (λ w h. h moved) (λ _ w h. h) (λ _ w h. tt))
                        λ t.
                          Contract-bind (λ _ w. IsStored id (trim_space reason) w.tables)
                            (notify_tables (IsStored id (trim_space reason)) _ _)
                            λ _.
                              Contract-pure _ (λ w h. (ground arith, some_reason, ground arith, h))
