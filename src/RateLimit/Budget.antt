-- ===== src/RateLimit/Budget.antt =====
-- The requests of one key that `allow` lets through, counted from its bucket.
use native.Mathlib.Nat.{le_trans}
use ganji.Base.{
  ℕ, suc, ◌+◌, ◌-◌, ◌*◌, ◌≤◌, ◌≡◌, refl, sym, ap, ◌∙◌, inl, inr, Bool, true, false, ◌&&◌, Option,
  none, some, List, [], ◌∷◌, Text, text_eq, ltb, Bool-cases, arith, if◌then◌else◌,
}
use ganji.RateLimit.{Visitor, RateLimiter, lookup, put, per_token, refill, take_token, visit, allow}
use ganji.RateLimit.Refill.{refill-worth, refill-past, one_less, spend, take-last}

pub lookup-put :
    (key : Text) (v : Visitor) (m : List (Text × Visitor)) → lookup key (put key v m) ≡ some v
lookup-put key v [] = ground arith
lookup-put key v ((k, old) ∷ rest) = ground (arith, lookup-put key v rest)

lookup-put_ne :
    (key other : Text) (v : Visitor) (m : List (Text × Visitor))
    → text_eq other key ≡ false
    → lookup key (put other v m) ≡ lookup key m
lookup-put_ne key other v [] ne = ground arith
lookup-put_ne key other v ((k, old) ∷ rest) ne = ground (arith, lookup-put_ne key other v rest ne)

-- The requests of `key` that are let through.
abbrev pub granted : Text → RateLimiter → List (Text × ℕ) → ℕ
granted key rl [] = 0
granted key rl ((k, now) ∷ rest) =
    let after = allow rl k now in
    let later = granted key after.1 rest in if after.0 && text_eq k key then suc later else later

-- The requests come in the order of time, from `from` to `to`.
abbrev pub IsTimed : ℕ → ℕ → List (Text × ℕ) → Type 0
IsTimed from to [] = from ≤ to
IsTimed from to ((k, now) ∷ rest) = (from ≤ now) × IsTimed now to rest

pub IsTimed-le : (from to : ℕ) (es : List (Text × ℕ)) → IsTimed from to es → from ≤ to
IsTimed-le from to [] h = h
IsTimed-le from to ((k, now) ∷ es) (le, h) = omega (arith, IsTimed-le now to es h)

module _ (rl : RateLimiter) (k : Text) (now : ℕ) where
  pub visit-settings :
      (o : Option Visitor)
      → ((visit rl k now o).1.rate ≡ rl.rate) × ((visit rl k now o).1.window ≡ rl.window)
  visit-settings none = (refl, refl)
  visit-settings (some v) = (refl, refl)

  pub visit-other :
      (key : Text) (o : Option Visitor)
      → text_eq k key ≡ false
      → lookup key (visit rl k now o).1.visitors ≡ lookup key rl.visitors
  visit-other key none ne = lookup-put_ne key k _ rl.visitors ne
  visit-other key (some v) ne = lookup-put_ne key k _ rl.visitors ne

  abbrev duration_of : ℕ
  duration_of = per_token rl.rate rl.window

  -- The later requests, after one of another key.
  pub granted-other :
      (key : Text) (es : List (Text × ℕ))
      → text_eq k key ≡ false
      → granted key rl ((k, now) ∷ es) ≡ granted key (allow rl k now).1 es
  granted-other key es ne = rw ne (ground arith)

  pub granted-own :
      (key : Text) (es : List (Text × ℕ))
      → text_eq k key ≡ true
      → granted key rl ((k, now) ∷ es) ≡ (
          if (allow rl k now).0
          then suc (granted key (allow rl k now).1 es)
          else granted key (allow rl k now).1 es)
  granted-own key es same = rw same (ground arith)

-- The bucket that a request of the key finds, after it.
abbrev pub bucket_after : ℕ → ℕ → ℕ → Visitor → Visitor
bucket_after rate window now v = refill rate (per_token rate window) now v

module _ (key : Text) (rate window : ℕ) (rl : RateLimiter) (k : Text) (now : ℕ) (v : Visitor)
    (r : rl.rate ≡ rate) (w : rl.window ≡ window) (found : lookup key rl.visitors ≡ some v)
    (same : k ≡ key) where
  pub allow-own : allow rl k now ≡ (
    (take_token (bucket_after rate window now v)).0,
    record rl { visitors = put k (take_token (bucket_after rate window now v)).1 rl.visitors },
  )
  unfolding allow
  allow-own = ap (visit rl k now) (ap (λ x. lookup x rl.visitors) same ∙ found) ∙ at_settings
    where
      at_settings : visit rl k now (some v) ≡ (
        (take_token (bucket_after rate window now v)).0,
        record rl { visitors = put k (take_token (bucket_after rate window now v)).1 rl.visitors },
      )
      at_settings = rw (r, w) refl

  pub bucket-found :
      lookup key (allow rl k now).1.visitors ≡ some (take_token (bucket_after rate window now v)).1
  bucket-found =
      ap (λ (o : Bool × RateLimiter). lookup key o.1.visitors) allow-own
      ∙ ap (λ x. lookup x (put k (take_token (bucket_after rate window now v)).1 rl.visitors))
          (sym same)
      ∙ lookup-put k _ rl.visitors

  pub bucket-past :
      v.last_refill ≤ now → (take_token (bucket_after rate window now v)).1.last_refill ≤ now
  bucket-past past = omega (
    arith,
    take-last (ltb 0 (bucket_after rate window now v).tokens) (bucket_after rate window now v),
    refill-past rate (per_token rate window) now v past,
  )

  own-worth :
      (later to : ℕ)
      → v.last_refill ≤ now
      → now ≤ to
      → later * per_token rate window
        ≤ (take_token (bucket_after rate window now v)).1.tokens * per_token rate window
          + (to - (take_token (bucket_after rate window now v)).1.last_refill)
      → (if (allow rl k now).0 then suc later else later) * per_token rate window
        ≤ v.tokens * per_token rate window + (to - v.last_refill)
  own-worth later to past soon h = rw (ap (λ (o : Bool × RateLimiter). o.0) allow-own) (
      le_trans (spend (bucket_after rate window now v) later (per_token rate window) to h)
        (refill-worth rate (per_token rate window) now to v past soon))

-- With a bucket in the map, the requests let through are worth at most its tokens and the time left.
pub granted-bucket :
    (key : Text) (rate window : ℕ) (rl : RateLimiter) (v : Visitor) (from to : ℕ)
    (es : List (Text × ℕ))
    → rl.rate ≡ rate
    → rl.window ≡ window
    → lookup key rl.visitors ≡ some v
    → v.last_refill ≤ from
    → IsTimed from to es
    → granted key rl es * per_token rate window
      ≤ v.tokens * per_token rate window + (to - v.last_refill)
unfolding allow
granted-bucket key rate window rl v from to [] r w found past timed = omega arith
granted-bucket key rate window rl v from to ((k, now) ∷ es) r w found past (le, timed) =
    elim (Bool-cases (text_eq k key)) [
      | inr ne ↦ rw (granted-other rl k now key es ne) (
          granted-bucket key rate window (allow rl k now).1 v now to es
            ((visit-settings rl k now (lookup k rl.visitors)).0 ∙ r)
            ((visit-settings rl k now (lookup k rl.visitors)).1 ∙ w)
            (visit-other rl k now key (lookup k rl.visitors) ne ∙ found) (omega arith) timed)
      | inl t ↦
          let same : k ≡ key = ground arith in
          let later : ℕ = granted key (allow rl k now).1 es in
          rw (granted-own rl k now key es t) (
            own-worth key rate window rl k now v r w found same later to (omega arith)
              (IsTimed-le now to es timed)
              (granted-bucket key rate window (allow rl k now).1
                (take_token (bucket_after rate window now v)).1 now to es
                ((visit-settings rl k now (lookup k rl.visitors)).0 ∙ r)
                ((visit-settings rl k now (lookup k rl.visitors)).1 ∙ w)
                (bucket-found key rate window rl k now v r w found same)
                (bucket-past key rate window rl k now v r w found same (omega arith)) timed))
    ]

lookup-same :
    (k key : Text) (m : List (Text × Visitor)) → k ≡ key → lookup key m ≡ none → lookup k m ≡ none
lookup-same k key m same absent = ap (λ x. lookup x m) same ∙ absent

-- The case of a key that is new to the limiter.
pub allow_within_budget :
    (key : Text) (rl : RateLimiter) (from to : ℕ) (es : List (Text × ℕ))
    → 1 ≤ rl.rate
    → lookup key rl.visitors ≡ none
    → IsTimed from to es
    → granted key rl es * per_token rl.rate rl.window
      ≤ rl.rate * per_token rl.rate rl.window + (to - from)
unfolding allow
allow_within_budget key rl from to [] some_rate absent timed = omega arith
allow_within_budget key rl from to ((k, now) ∷ es) some_rate absent (le, timed) =
    elim (Bool-cases (text_eq k key)) [
      | inr ne ↦ rw (granted-other rl k now key es ne) (
          le_trans (others ne (allow_within_budget key (allow rl k now).1 now to es)) (omega arith))
      | inl t ↦ let same : k ≡ key = ground arith in rw (granted-own rl k now key es t) (fresh same)
    ]
  where
    others :
        text_eq k key ≡ false
        → (1 ≤ (allow rl k now).1.rate
            → lookup key (allow rl k now).1.visitors ≡ none
            → IsTimed now to es
            → granted key (allow rl k now).1 es
                * per_token (allow rl k now).1.rate (allow rl k now).1.window
              ≤ (allow rl k now).1.rate
                  * per_token (allow rl k now).1.rate (allow rl k now).1.window
                + (to - now))
        → granted key (allow rl k now).1 es * per_token rl.rate rl.window
          ≤ rl.rate * per_token rl.rate rl.window + (to - now)
    others ne h =
        rw
          (
            (visit-settings rl k now (lookup k rl.visitors)).0,
            (visit-settings rl k now (lookup k rl.visitors)).1,
          )
          at h some_rate (visit-other rl k now key (lookup k rl.visitors) ne ∙ absent) timed

    fresh :
        k ≡ key
        → (if (allow rl k now).0
              then suc (granted key (allow rl k now).1 es)
              else granted key (allow rl k now).1 es)
            * per_token rl.rate rl.window
          ≤ rl.rate * per_token rl.rate rl.window + (to - from)
    fresh same = rw (ap (visit rl k now) (lookup-same k key rl.visitors same absent)) (
        omega (
          arith,
          granted-bucket key rl.rate rl.window (visit rl k now none).1
              (record { tokens = rl.rate - 1; last_refill = now }) now to es refl refl
              (ap (λ x. lookup x (visit rl k now none).1.visitors) (sym same)
                ∙ lookup-put k _ rl.visitors)
              (omega arith) timed,
          one_less rl.rate (per_token rl.rate rl.window) some_rate,
          IsTimed-le now to es timed,
        ))
