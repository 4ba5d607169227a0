-- ===== src/Deals/Contract.antt =====
-- Contracts of actions: what holds after a result and after an error, with one rule for each way to
-- build an action.
pub mod Row
pub mod Update
pub mod Free
use ganji.Base.{◌≡◌, refl, Bool, true, false, if◌then◌else◌}
use ganji.Deals.World.{Error, Result, ok, err, World, M, pure, raise, lift, raise_if, try, ◌>>=◌}

-- What a run that ended in `(r, w)` guarantees.
abbrev pub Post :
    {A : Type 0} → (A → World → Type 0) → (Error → World → Type 0) → Result A × World → Type 0
Post Q E (ok a, w) = Q a w
Post Q E (err e, w) = E e w

-- From a world where `P` holds, `m` returns with `Q` or fails with `E`.
pub record Contract {A : Type 0} (P : World → Type 0) (m : M A) (Q : A → World → Type 0)
    (E : Error → World → Type 0) : Type 0 where
  pub at : (w : World) → P w → Post Q E (m w)

module _ {A : Type 0} {P : World → Type 0} {Q : A → World → Type 0}
    {E : Error → World → Type 0} where
  pub Contract-pure : (a : A) → ((w : World) → P w → Q a w) → Contract P (pure a) Q E
  unfolding pure
  Contract-pure a h = record { at = h }

  pub Contract-raise : (e : Error) → ((w : World) → P w → E e w) → Contract P (raise e) Q E
  unfolding raise
  Contract-raise e h = record { at = h }

  pub Contract-if :
      (b : Bool) (m n : M A)
      → (b ≡ true → Contract P m Q E)
      → (b ≡ false → Contract P n Q E)
      → Contract P (if b then m else n) Q E
  Contract-if true m n hm hn = hm refl
  Contract-if false m n hm hn = hn refl

Post-weaken :
    {A : Type 0} (Q Q' : A → World → Type 0) (E E' : Error → World → Type 0) (o : Result A × World)
    → ((a : A) (w : World) → Q a w → Q' a w)
    → ((e : Error) (w : World) → E e w → E' e w)
    → Post Q E o
    → Post Q' E' o
Post-weaken Q Q' E E' (ok a, w) hq he h = hq a w h
Post-weaken Q Q' E E' (err e, w) hq he h = he e w h

Post-try :
    {A : Type 0} (Q : A → World → Type 0) (E : Error → World → Type 0) (o : Result A × World)
    → Post Q E o
    → Post Q E (o.0, o.1)
Post-try Q E (ok a, w) h = h
Post-try Q E (err e, w) h = h

Post-bind :
    {A B : Type 0} (R : A → World → Type 0) (Q : B → World → Type 0) (E : Error → World → Type 0)
    (o : Result A × World) (f : A → M B)
    → Post R E o
    → ((a : A) → Contract (R a) (f a) Q E)
    → Post Q E ((lift o.0 >>= f) o.1)
unfolding ◌>>=◌
Post-bind R Q E (ok a, w) f h hf = (hf a).at w h
Post-bind R Q E (err e, w) f h hf = h

module _ {A B : Type 0} {P : World → Type 0} {E : Error → World → Type 0} where
  pub Contract-bind :
      (R : A → World → Type 0) {Q : B → World → Type 0} {m : M A} {f : A → M B}
      → Contract P m R E
      → ((a : A) → Contract (R a) (f a) Q E)
      → Contract P (m >>= f) Q E
  unfolding ◌>>=◌
  Contract-bind R {Q} {m} {f} hm hf = record { at = λ w h. Post-bind R Q E (m w) f (hm.at w h) hf }

  -- `x, err := m; if err != nil { ... }`
  pub Contract-try :
      (R : A → World → Type 0) (F : Error → World → Type 0) {Q : B → World → Type 0} {m : M A}
      (f : Result A → M B)
      → Contract P m R F
      → ((a : A) → Contract (R a) (f (ok a)) Q E)
      → ((e : Error) → Contract (F e) (f (err e)) Q E)
      → Contract P (try m >>= f) Q E
  unfolding ◌>>=◌
  Contract-try R F {Q} {m} f hm hok herr = record { at = λ w h. go (m w) (hm.at w h) }
    where
      go : (o : Result A × World) → Post R F o → Post Q E (f o.0 o.1)
      go (ok a, w) h = (hok a).at w h
      go (err e, w) h = (herr e).at w h

module _ {B : Type 0} {P : World → Type 0} {Q : B → World → Type 0}
    {E : Error → World → Type 0} where
  pub Contract-raise_if :
      (b : Bool) (e : Error) (f : Unit {0} → M B)
      → ((w : World) → P w → b ≡ true → E e w)
      → (b ≡ false → Contract P (f tt) Q E)
      → Contract P (raise_if b e >>= f) Q E
  unfolding ◌>>=◌
  Contract-raise_if true e f herr hf = record { at = λ w h. herr w h refl }
  Contract-raise_if false e f herr hf = record { at = λ w h. (hf refl).at w h }

  pub Contract-lift :
      {A : Type 0} (r : Result A) (f : A → M B)
      → ((e : Error) (w : World) → P w → r ≡ err e → E e w)
      → ((a : A) → r ≡ ok a → Contract P (f a) Q E)
      → Contract P (lift r >>= f) Q E
  unfolding ◌>>=◌
  Contract-lift (ok a) f herr hf = record { at = λ w h. (hf a refl).at w h }
  Contract-lift (err e) f herr hf = record { at = λ w h. herr e w h refl }

pub Contract-weaken :
    {A : Type 0} {P P' : World → Type 0} {Q Q' : A → World → Type 0} {E E' : Error → World → Type 0}
    {m : M A}
    → Contract P m Q E
    → ((w : World) → P' w → P w)
    → ((a : A) (w : World) → Q a w → Q' a w)
    → ((e : Error) (w : World) → E e w → E' e w)
    → Contract P' m Q' E'
Contract-weaken {Q} {Q'} {E} {E'} {m} h hp hq he = record {
  at = λ w p. Post-weaken Q Q' E E' (m w) hq he (h.at w (hp w p));
}

-- A fact that the precondition gives whatever the world is.
pub Contract-assume :
    {A : Type 0} {P : World → Type 0} {Q : A → World → Type 0} {E : Error → World → Type 0}
    {m : M A} {C : Type 0}
    → ((w : World) → P w → C)
    → (C → Contract P m Q E)
    → Contract P m Q E
Contract-assume fact h = record { at = λ w p. (h (fact w p)).at w p }
