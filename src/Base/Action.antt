-- ===== src/Base/Action.antt =====
-- Actions on a state that end in a result or in an error, and what they guarantee.
use mathlib.Core.Path.{◌≡◌, refl}
use mathlib.Core.Bool.{Bool, true, false}
use mathlib.Core.Option.{Option, none, some}
use ganji.Base.Tests.{if◌then◌else◌}

pub data Outcome (E A : Type 0) : Type 0 where
  ok : A → Outcome E A
  err : E → Outcome E A

abbrev pub Action : Type 0 → Type 0 → Type 0 → Type 0
Action S E A = S → Outcome E A × S

module _ {S E : Type 0} where
  unfoldable pub pure : {A : Type 0} → A → Action S E A
  pure a s = (ok a, s)

  unfoldable pub raise : {A : Type 0} → E → Action S E A
  raise e s = (err e, s)

  -- An early return of an error under a test.
  unfoldable pub raise_if : Bool → E → Action S E (Unit {0})
  raise_if true e s = (err e, s)
  raise_if false e s = (ok tt, s)

  unfoldable pub or_raise : {A : Type 0} → Option A → E → Action S E A
  or_raise none e s = (err e, s)
  or_raise (some a) e s = (ok a, s)

  -- A result taken as a value.
  unfoldable pub try : {A : Type 0} → Action S E A → Action S E (Outcome E A)
  try m s = let (r, s') = m s in (ok r, s')

  abbrev continue : {A B : Type 0} → Outcome E A → (A → Action S E B) → Action S E B
  continue (ok a) f s = f a s
  continue (err e) f s = (err e, s)

  infixl 5 ◌>>=◌ ◌>>◌
  -- Opening this opens the other ways to build an action.
  unfoldable pub ◌>>=◌ : {A B : Type 0} → Action S E A → (A → Action S E B) → Action S E B
  unfolding pure raise raise_if or_raise try
  ◌>>=◌ m f s = let (r, s') = m s in continue r f s'

  abbrev pub ◌>>◌ : {A B : Type 0} → Action S E A → Action S E B → Action S E B
  m >> k = m >>= λ _. k

  -- What a run that ended in `(r, s)` guarantees.
  abbrev pub Post : {A : Type 0} → (A → S → Type 0) → (E → S → Type 0) → Outcome E A × S → Type 0
  Post Q F (ok a, s) = Q a s
  Post Q F (err e, s) = F e s

  -- From a state where `P` holds, `m` returns with `Q` or fails with `F`.
  pub record Triple {A : Type 0} (P : S → Type 0) (m : Action S E A) (Q : A → S → Type 0)
      (F : E → S → Type 0) : Type 0 where
    pub at : (s : S) → P s → Post Q F (m s)

  module _ {A : Type 0} {P : S → Type 0} {Q : A → S → Type 0} {F : E → S → Type 0} where
    pub Triple-pure : (a : A) → ((s : S) → P s → Q a s) → Triple P (pure a) Q F
    unfolding pure
    Triple-pure a h = record { at = h }

    pub Triple-raise : (e : E) → ((s : S) → P s → F e s) → Triple P (raise e) Q F
    unfolding raise
    Triple-raise e h = record { at = h }

    pub Triple-if :
        (b : Bool) (m n : Action S E A)
        → (b ≡ true → Triple P m Q F)
        → (b ≡ false → Triple P n Q F)
        → Triple P (if b then m else n) Q F
    Triple-if true m n hm hn = hm refl
    Triple-if false m n hm hn = hn refl

  module _ {B : Type 0} {P : S → Type 0} {Q : B → S → Type 0} {F : E → S → Type 0} where
    pub Triple-raise_if :
        (b : Bool) (e : E) (f : Unit {0} → Action S E B)
        → ((s : S) → P s → b ≡ true → F e s)
        → (b ≡ false → Triple P (f tt) Q F)
        → Triple P (raise_if b e >>= f) Q F
    unfolding ◌>>=◌
    Triple-raise_if true e f herr hf = record { at = λ s h. herr s h refl }
    Triple-raise_if false e f herr hf = record { at = λ s h. (hf refl).at s h }

    pub Triple-or_raise :
        {A : Type 0} (o : Option A) (e : E) (f : A → Action S E B)
        → ((s : S) → P s → o ≡ none → F e s)
        → ((a : A) → o ≡ some a → Triple P (f a) Q F)
        → Triple P (or_raise o e >>= f) Q F
    unfolding ◌>>=◌
    Triple-or_raise none e f herr hf = record { at = λ s h. herr s h refl }
    Triple-or_raise (some a) e f herr hf = record { at = λ s h. (hf a refl).at s h }

    pub Triple-bind :
        {A : Type 0} (R : A → S → Type 0) {m : Action S E A} {f : A → Action S E B}
        → Triple P m R F
        → ((a : A) → Triple (R a) (f a) Q F)
        → Triple P (m >>= f) Q F
    unfolding ◌>>=◌
    Triple-bind {A} R {m} {f} hm hf = record { at = λ s h. go (m s) (hm.at s h) }
      where
        go : (o : Outcome E A × S) → Post R F o → Post Q F (continue o.0 f o.1)
        go (ok a, s) h = (hf a).at s h
        go (err e, s) h = h

    pub Triple-try :
        {A : Type 0} (R : A → S → Type 0) (G : E → S → Type 0) {m : Action S E A}
        (f : Outcome E A → Action S E B)
        → Triple P m R G
        → ((a : A) → Triple (R a) (f (ok a)) Q F)
        → ((e : E) → Triple (G e) (f (err e)) Q F)
        → Triple P (try m >>= f) Q F
    unfolding ◌>>=◌
    Triple-try {A} R G {m} f hm hok herr = record { at = λ s h. go (m s) (hm.at s h) }
      where
        go : (o : Outcome E A × S) → Post R G o → Post Q F (f o.0 o.1)
        go (ok a, s) h = (hok a).at s h
        go (err e, s) h = (herr e).at s h

  pub Triple-weaken :
      {A : Type 0} {P P' : S → Type 0} {Q Q' : A → S → Type 0} {F F' : E → S → Type 0}
      {m : Action S E A}
      → Triple P m Q F
      → ((s : S) → P' s → P s)
      → ((a : A) (s : S) → Q a s → Q' a s)
      → ((e : E) (s : S) → F e s → F' e s)
      → Triple P' m Q' F'
  Triple-weaken {A} {Q} {Q'} {F} {F'} {m} h hp hq hf = record {
    at = λ s p. go (m s) (h.at s (hp s p));
  }
    where
      go : (o : Outcome E A × S) → Post Q F o → Post Q' F' o
      go (ok a, s) x = hq a s x
      go (err e, s) x = hf e s x

  pub Triple-option :
      {A : Type 0} {P : S → Type 0} {Q : A → S → Type 0} {F : E → S → Type 0} (o : Option A) (e : E)
      → ((s : S) → P s → o ≡ none → F e s)
      → ((a : A) (s : S) → P s → o ≡ some a → Q a s)
      → Triple P (or_raise o e) Q F
  unfolding or_raise
  Triple-option none e herr hok = record { at = λ s h. herr s h refl }
  Triple-option (some a) e herr hok = record { at = λ s h. hok a s h refl }

  -- A fact that the precondition gives whatever the state is, and a weaker precondition.
  pub Triple-assume :
      {A : Type 0} {P : S → Type 0} {Q : A → S → Type 0} {F : E → S → Type 0} {m : Action S E A}
      {C : Type 0}
      → ((s : S) → P s → C)
      → (C → Triple P m Q F)
      → Triple P m Q F
  Triple-assume fact h = record { at = λ s p. (h (fact s p)).at s p }

  pub Triple-from :
      {A : Type 0} {P P' : S → Type 0} {Q : A → S → Type 0} {F : E → S → Type 0} {m : Action S E A}
      → ((s : S) → P' s → P s)
      → Triple P m Q F
      → Triple P' m Q F
  Triple-from hp h = record { at = λ s p. h.at s (hp s p) }

  -- An action keeps `P`, whether it returns or fails.
  abbrev pub Keeps : {A : Type 0} → (S → Type 0) → Action S E A → Type 0
  Keeps P m = Triple P m (λ _. P) (λ _. P)

  module _ {P : S → Type 0} where
    pub Keeps-pure : {A : Type 0} (a : A) → Keeps P (pure a)
    Keeps-pure a = Triple-pure a (λ s h. h)

    pub Keeps-raise : {A : Type 0} (e : E) → Keeps {A = A} P (raise e)
    Keeps-raise e = Triple-raise e (λ s h. h)

    pub Keeps-raise_if : (b : Bool) (e : E) → Keeps P (raise_if b e)
    unfolding raise_if
    Keeps-raise_if true e = record { at = λ s h. h }
    Keeps-raise_if false e = record { at = λ s h. h }

    pub Keeps-or_raise : {A : Type 0} (o : Option A) (e : E) → Keeps P (or_raise o e)
    unfolding or_raise
    Keeps-or_raise none e = record { at = λ s h. h }
    Keeps-or_raise (some a) e = record { at = λ s h. h }

    pub Keeps-bind :
        {A B : Type 0} {m : Action S E A} {f : A → Action S E B}
        → Keeps P m
        → ((a : A) → Keeps P (f a))
        → Keeps P (m >>= f)
    Keeps-bind hm hf = Triple-bind (λ _. P) hm hf

    pub Keeps-try : {A : Type 0} {m : Action S E A} → Keeps P m → Keeps P (try m)
    unfolding try
    Keeps-try {A} {m} h = record { at = λ s p. go (m s) (h.at s p) }
      where
        go : (o : Outcome E A × S) → Post (λ _. P) (λ _. P) o → P o.1
        go (ok a, s) x = x
        go (err e, s) x = x

    pub Keeps-if :
        {A : Type 0} (b : Bool) {m n : Action S E A}
        → Keeps P m
        → Keeps P n
        → Keeps P (if b then m else n)
    Keeps-if true hm hn = hm
    Keeps-if false hm hn = hn

  -- The rules for actions built in these ways.
  pub ruleset keeping =
      (Keeps-pure, Keeps-raise, Keeps-raise_if, Keeps-or_raise, Keeps-bind, Keeps-try, Keeps-if)
