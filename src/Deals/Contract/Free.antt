-- ===== src/Deals/Contract/Free.antt =====
-- What a result alone says, whatever the tables are.
use ganji.Base.{◌≡◌, Bool, false}
use ganji.Deals.World.{Error, Result, ok, err, World, M, raise_if, ◌>>=◌}
use ganji.Deals.Contract.{Post, Contract, Contract-raise_if}

abbrev pub Any : World → Type 0
Any w = Unit

pub free : {A : Type 0} (m : M A) → Contract Any m (λ _. Any) (λ _. Any)
free {A} m = record { at = λ w h. go (m w) }
  where
    go : (o : Result A × World) → Post (λ _. Any) (λ _. Any) o
    go (ok a, w) = tt
    go (err e, w) = tt

-- What a result satisfies.
abbrev pub OnOk : {A : Type 0} → (A → Type 0) → Result A → Type 0
OnOk P (ok a) = P a
OnOk P (err e) = Unit

pub on_ok :
    {A : Type 0} {S : World → Type 0} (P : A → Type 0) (m : M A)
    → Contract S m (λ a _. P a) (λ _. Any)
    → (w : World) → S w
    → OnOk P (m w).0
on_ok {A} P m h w start = go (m w) (h.at w start)
  where
    go : (o : Result A × World) → Post (λ a _. P a) (λ _. Any) o → OnOk P o.0
    go (ok a, w) p = p
    go (err e, w) p = tt

-- A test that raises an error.
pub guard :
    {A : Type 0} {Q : A → World → Type 0} (b : Bool) (e : Error) (f : Unit {0} → M A)
    → (b ≡ false → Contract Any (f tt) Q (λ _. Any))
    → Contract Any (raise_if b e >>= f) Q (λ _. Any)
guard b e f h = Contract-raise_if b e f (λ w x _. tt) h

-- What every result satisfies may be used of the result.
pub Contract-fact :
    {A : Type 0} {S E : World → Type 0} (P : A → Type 0) (Q : World → Type 0) (m : M A)
    → ((w : World) → OnOk P (m w).0)
    → Contract S m (λ _. Q) (λ _. E)
    → Contract S m (λ a w. P a × Q w) (λ _. E)
Contract-fact {A} {S} {E} P Q m fact h = record { at = λ w start. go (m w) (fact w) (h.at w start) }
  where
    go :
        (o : Result A × World)
        → OnOk P o.0
        → Post (λ _. Q) (λ _. E) o
        → Post (λ a w. P a × Q w) (λ _. E) o
    go (ok a, w) p q = (p, q)
    go (err e, w) p q = q
