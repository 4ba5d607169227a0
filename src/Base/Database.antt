-- ===== src/Base/Database.antt =====
-- Statements on tables in memory, between which other requests write.
--
-- A statement is numbered by `tick`; it may fail, and finds what other requests have written before it.
use Prim.Native.Nat.{ℕ, suc}
use mathlib.Core.Bool.{Bool, true, false}
use mathlib.Core.Path.{◌≡◌, refl, sym, subst}
use ganji.Base.Action.{Action, Outcome, ok, err, Post, Triple, Keeps}

-- The tables that a request sees, and the number of its interactions so far.
pub record Connected (T : Type 0) : Type 0 where
  pub tables : T
  pub tick : ℕ

-- Other requests keep `I`.
abbrev pub IsStable : {T : Type 0} → (ℕ → T → T) → (T → Type 0) → Type 0
IsStable {T} others I = (n : ℕ) (t : T) → I t → I (others n t)

module _ {T E : Type 0} where
  -- The number of an interaction, by which its outcome is found.
  unfoldable pub step : Action (Connected T) E ℕ
  step w = (ok w.tick, record w { tick = suc w.tick })

  module _ {A : Type 0} where
    abbrev ran : ℕ → Outcome E A × T → Outcome E A × Connected T
    ran n (r, tables) = (r, record { tables = tables; tick = n })

    abbrev run_if : Bool → E → ℕ → T → (T → Outcome E A × T) → Outcome E A × Connected T
    run_if true failed n tables run = (err failed, record { tables = tables; tick = n })
    run_if false failed n tables run = ran n (run tables)

    unfoldable pub run_statement :
        E → (ℕ → Bool) → (ℕ → T → T) → (T → Outcome E A × T) → Action (Connected T) E A
    run_statement failed fails others run w =
        run_if (fails w.tick) failed (suc w.tick) (others w.tick w.tables) run

  -- A query does not change the tables.
  abbrev pub reading : {A : Type 0} → (T → Outcome E A) → T → Outcome E A × T
  reading f tables = (f tables, tables)

  -- A statement that does not fail, while no other request writes.
  run_statement-quiet :
      {A : Type 0} (failed : E) (fails : ℕ → Bool) (others : ℕ → T → T) (run : T → Outcome E A × T)
      (w : Connected T)
      → fails w.tick ≡ false
      → others w.tick w.tables ≡ w.tables
      → run_statement failed fails others run w ≡ ran (suc w.tick) (run w.tables)
  unfolding run_statement
  run_statement-quiet failed fails others run w works alone = rw (works, alone) refl

  pub Triple-quiet :
      {A : Type 0} {P : Connected T → Type 0} {Q : A → Connected T → Type 0}
      {F : E → Connected T → Type 0} (failed : E) (fails : ℕ → Bool) (others : ℕ → T → T)
      (run : T → Outcome E A × T)
      → ((n : ℕ) → fails n ≡ false)
      → ((n : ℕ) (t : T) → others n t ≡ t)
      → ((w : Connected T) → P w → Post Q F (ran (suc w.tick) (run w.tables)))
      → Triple P (run_statement failed fails others run) Q F
  Triple-quiet {Q} {F} failed fails others run works alone done = record {
    at = λ w p.
        subst (Post Q F)
          (sym
            (run_statement-quiet failed fails others run w (works w.tick) (alone w.tick w.tables)))
          (done w p);
  }

  module _ (failed : E) (fails : ℕ → Bool) (others : ℕ → T → T) (I : T → Type 0)
      (stable : IsStable others I) where
    pub Triple-statement :
        {A : Type 0} (Q : A → T → Type 0) (F : E → T → Type 0) (run : T → Outcome E A × T)
        → ((t : T) → I t → F failed t)
        → ((t : T) → I t → Post Q F (run t))
        → Triple
            (λ w. I w.tables)
            (run_statement failed fails others run)
            (λ a w. Q a w.tables)
            (λ e w. F e w.tables)
    unfolding run_statement
    Triple-statement {A} Q F run refused done = record {
      at =
          λ w i. go (fails w.tick) (suc w.tick) (others w.tick w.tables) (stable w.tick w.tables i);
    }
      where
        finish :
            (n : ℕ) (o : Outcome E A × T)
            → Post Q F o
            → Post (λ a w. Q a w.tables) (λ e w. F e w.tables) (ran n o)
        finish n (ok a, t) h = h
        finish n (err e, t) h = h

        go :
            (b : Bool) (n : ℕ) (t : T)
            → I t
            → Post (λ a w. Q a w.tables) (λ e w. F e w.tables) (run_if b failed n t run)
        go true n t i = refused t i
        go false n t i = finish n (run t) (done t i)

    Post-same : {A : Type 0} (o : Outcome E A × T) → I o.1 → Post (λ _. I) (λ _. I) o
    Post-same (ok a, t) i = i
    Post-same (err e, t) i = i

    pub Keeps-statement :
        {A : Type 0} (run : T → Outcome E A × T)
        → ((t : T) → I t → I (run t).1)
        → Keeps (λ w. I w.tables) (run_statement failed fails others run)
    Keeps-statement run kept =
        Triple-statement (λ _. I) (λ _. I) run (λ t i. i) (λ t i. Post-same (run t) (kept t i))

  pub Triple-step :
      (I : T → Type 0) (F : E → Connected T → Type 0)
      → Triple (λ w. I w.tables) step (λ _ w. I w.tables) F
  unfolding step
  Triple-step I F = record { at = λ w i. i }

  pub Keeps-step : (I : T → Type 0) → Keeps (λ w. I w.tables) step
  unfolding step
  Keeps-step I = record { at = λ w i. i }
