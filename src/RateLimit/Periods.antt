-- ===== src/RateLimit/Periods.antt =====
-- The requests that `allow` of backend/internal/middleware/ratelimit.go lets through in a period that
-- begins after other requests.
use native.Mathlib.Nat.{le_refl, le_trans, lt-div-mul-add, mul-le-mul_right}
use ganji.Base.{
  ℕ, suc, ◌+◌, ◌-◌, ◌*◌, ◌/◌, ◌≤◌, ◌<◌, ◌≡◌, refl, sym, ap, subst, ◌∙◌, inl, inr, Bool, true, false,
  Option, none, some, List, [], ◌∷◌, Text, text_eq, ltb, Bool-cases, arith,
}
use ganji.RateLimit.{
  Visitor, RateLimiter, lookup, put, per_token, add_tokens, refill, take_if, take_token, allow,
}
use ganji.RateLimit.Refill.{per_token-pos, spend}
use ganji.RateLimit.Budget.{
  granted, IsTimed, IsTimed-le, lookup-put, visit-settings, visit-other, granted-other, granted-own,
  bucket_after, allow-own, bucket-found, bucket-past, granted-bucket, allow_within_budget,
}

-- The limiter after some requests.
abbrev pub allow_all : RateLimiter → List (Text × ℕ) → RateLimiter
allow_all rl [] = rl
allow_all rl ((k, now) ∷ rest) = allow_all (allow rl k now).1 rest

-- A bucket holds no more than the burst, and was filled by `from`.
abbrev Fits : ℕ → ℕ → Option Visitor → Type 0
Fits rate from none = Unit
Fits rate from (some v) = (v.tokens ≤ rate) × (v.last_refill ≤ from)

Fits-later :
    (rate from now : ℕ) (o : Option Visitor) → from ≤ now → Fits rate from o → Fits rate now o
Fits-later rate from now none le h = tt
Fits-later rate from now (some v) le (few, past) = (few, le_trans past le)

-- After a refill less than the time of one token is not yet counted.
added-fits :
    (rate duration now add : ℕ) (v : Visitor)
    → (add ≡ 0 → now - v.last_refill ≤ duration)
    → v.tokens ≤ rate
    → ((add_tokens rate now add v).tokens ≤ rate)
      × (now - (add_tokens rate now add v).last_refill ≤ duration)
added-fits rate duration now add v h few = (ground arith, ground arith)

refill-fits :
    (rate duration now : ℕ) (v : Visitor)
    → 1 ≤ duration
    → v.tokens ≤ rate
    → ((refill rate duration now v).tokens ≤ rate)
      × (now - (refill rate duration now v).last_refill ≤ duration)
refill-fits rate duration now v some_time few =
    added-fits rate duration now ((now - v.last_refill) / duration) v short few
  where
    short : (now - v.last_refill) / duration ≡ 0 → now - v.last_refill ≤ duration
    short e = omega (
      arith,
      subst (λ q. now - v.last_refill < q * duration + duration) e
          (lt-div-mul-add {a = now - v.last_refill} {b = duration} some_time),
    )

taken-fits : (b : Bool) (rate : ℕ) (v : Visitor) → v.tokens ≤ rate → (take_if b v).1.tokens ≤ rate
taken-fits true rate v few = omega arith
taken-fits false rate v few = few

-- A full bucket, the time of one token, and the time left.
full :
    (tokens rate duration now last to : ℕ)
    → tokens ≤ rate
    → now - last ≤ duration
    → now ≤ to
    → tokens * duration + (to - last) ≤ suc rate * duration + (to - now)
full tokens rate duration now last to few short soon = omega (arith, mul-le-mul_right duration few)

more : (n p t : ℕ) → n * p + t ≤ suc n * p + t
more n p t = omega arith

module _ (key : Text) where
  at_key : (rl : RateLimiter) (k : Text) → text_eq k key ≡ true → k ≡ key
  at_key rl k t = ground arith

  -- One request, of whatever key.
  allow-Fits :
      (rl : RateLimiter) (k : Text) (from now : ℕ)
      → from ≤ now
      → Fits rl.rate from (lookup key rl.visitors)
      → Fits rl.rate now (lookup key (allow rl k now).1.visitors)
  unfolding allow
  allow-Fits rl k from now le h = elim (Bool-cases (text_eq k key)) [
    | inr ne ↦
        subst (Fits rl.rate now) (sym (visit-other rl k now key (lookup k rl.visitors) ne))
          (Fits-later rl.rate from now (lookup key rl.visitors) le h)
    | inl t ↦ own (at_key rl k t) (lookup key rl.visitors) refl h
  ]
    where
      own :
          k ≡ key
          → (o : Option Visitor) → lookup key rl.visitors ≡ o
          → Fits rl.rate from o
          → Fits rl.rate now (lookup key (allow rl k now).1.visitors)
      own same (some v) found (few, past) =
          subst (Fits rl.rate now)
            (sym (bucket-found key rl.rate rl.window rl k now v refl refl found same))
            (
              taken-fits (ltb 0 (bucket_after rl.rate rl.window now v).tokens) rl.rate
                  (bucket_after rl.rate rl.window now v)
                  (refill-fits rl.rate (per_token rl.rate rl.window) now v
                    (per_token-pos rl.rate rl.window) few).0,
              bucket-past key rl.rate rl.window rl k now v refl refl found same (le_trans past le),
            )
      own same none absent _ =
          let fresh : Visitor = record { tokens = rl.rate - 1; last_refill = now } in
          let found : lookup key (put k fresh rl.visitors) ≡ some fresh =
            ap (λ x. lookup x (put k fresh rl.visitors)) (sym same)
            ∙ lookup-put k fresh rl.visitors in
          rw (ap (λ x. lookup x rl.visitors) same ∙ absent)
            (subst (Fits rl.rate now) (sym found) (omega arith, omega arith))

  settings_kept :
      (rl : RateLimiter) (k : Text) (now : ℕ)
      → ((allow rl k now).1.rate ≡ rl.rate) × ((allow rl k now).1.window ≡ rl.window)
  unfolding allow
  settings_kept rl k now = visit-settings rl k now (lookup k rl.visitors)

  -- The requests of one key in a period that begins with its bucket at most full.
  granted-Fits :
      (rate window : ℕ) (rl : RateLimiter) (from to : ℕ) (es : List (Text × ℕ))
      → 1 ≤ rate
      → rl.rate ≡ rate
      → rl.window ≡ window
      → Fits rate from (lookup key rl.visitors)
      → IsTimed from to es
      → granted key rl es * per_token rate window ≤ suc rate * per_token rate window + (to - from)
  granted-Fits rate window rl from to [] some_rate r w h timed = omega arith
  granted-Fits rate window rl from to ((k, now) ∷ es) some_rate r w h (le, timed) =
      elim (Bool-cases (text_eq k key)) [
        | inr ne ↦ rw (granted-other rl k now key es ne) (
            le_trans
              (granted-Fits rate window (allow rl k now).1 now to es some_rate
                ((settings_kept rl k now).0 ∙ r) ((settings_kept rl k now).1 ∙ w)
                (subst (λ n. Fits n now (lookup key (allow rl k now).1.visitors)) r
                  (allow-Fits rl k from now le
                    (subst (λ n. Fits n from (lookup key rl.visitors)) (sym r) h)))
                timed)
              (omega arith))
        | inl t ↦ le_trans (own (at_key rl k t) t (lookup key rl.visitors) refl h) (omega arith)
      ]
    where
      own :
          k ≡ key
          → text_eq k key ≡ true
          → (o : Option Visitor) → lookup key rl.visitors ≡ o
          → Fits rate from o
          → granted key rl ((k, now) ∷ es) * per_token rate window
            ≤ suc rate * per_token rate window + (to - now)
      own same t none absent _ =
          let within =
            allow_within_budget key rl now to ((k, now) ∷ es) (subst (λ n. 1 ≤ n) (sym r) some_rate)
              absent (le_refl now, timed) in
          le_trans
            (subst
              (λ n.
                granted key rl ((k, now) ∷ es) * per_token n window
                ≤ n * per_token n window + (to - now))
              r
              (subst
                (λ n.
                  granted key rl ((k, now) ∷ es) * per_token rl.rate n
                  ≤ rl.rate * per_token rl.rate n + (to - now))
                w within))
            (more rate (per_token rate window) (to - now))
      own same t (some v) found (few, past) =
          let u : Visitor = bucket_after rate window now v in
          let later : ℕ = granted key (allow rl k now).1 es in
          let fits =
            refill-fits rate (per_token rate window) now v (per_token-pos rate window) few in
          rw
            (
              granted-own rl k now key es t,
              ap (λ (o : Bool × RateLimiter). o.0)
                  (allow-own key rate window rl k now v r w found same),
            )
            (le_trans
              (spend u later (per_token rate window) to (
                granted-bucket key rate window (allow rl k now).1 (take_token u).1 now to es
                  ((settings_kept rl k now).0 ∙ r) ((settings_kept rl k now).1 ∙ w)
                  (bucket-found key rate window rl k now v r w found same)
                  (bucket-past key rate window rl k now v r w found same (le_trans past le)) timed))
              (full u.tokens rate (per_token rate window) now u.last_refill to fits.0 fits.1
                (IsTimed-le now to es timed)))

  settings_all :
      (rl : RateLimiter) (before : List (Text × ℕ))
      → ((allow_all rl before).rate ≡ rl.rate) × ((allow_all rl before).window ≡ rl.window)
  settings_all rl [] = (refl, refl)
  settings_all rl ((k, now) ∷ rest) = (
    (settings_all (allow rl k now).1 rest).0 ∙ (settings_kept rl k now).0,
    (settings_all (allow rl k now).1 rest).1 ∙ (settings_kept rl k now).1,
  )

  all-Fits :
      (rate : ℕ) (rl : RateLimiter) (start from : ℕ) (before : List (Text × ℕ))
      → rl.rate ≡ rate
      → Fits rate start (lookup key rl.visitors)
      → IsTimed start from before
      → Fits rate from (lookup key (allow_all rl before).visitors)
  all-Fits rate rl start from [] r h timed = Fits-later rate start from _ timed h
  all-Fits rate rl start from ((k, now) ∷ rest) r h (le, timed) =
      all-Fits rate (allow rl k now).1 now from rest ((settings_kept rl k now).0 ∙ r)
        (subst (λ n. Fits n now (lookup key (allow rl k now).1.visitors)) r
          (allow-Fits rl k start now le
            (subst (λ n. Fits n start (lookup key rl.visitors)) (sym r) h)))
        timed

  absent-Fits : (rate start : ℕ) (o : Option Visitor) → o ≡ none → Fits rate start o
  absent-Fits rate start none e = tt
  absent-Fits rate start (some v) e = absurd (ground arith)

  -- In any period from `from` to `to`, whatever requests came before it and come in it, in the order of time
  -- and of whatever keys, the requests of a key that the limiter lets through are worth at most a full
  -- bucket, one request more and the length of the period, one request being worth the time that a token
  -- takes. The key was new to the limiter before the first of the earlier requests, and the rate is
  -- positive.
  pub allow_within_any_period :
      (rl : RateLimiter) (start from to : ℕ) (before es : List (Text × ℕ))
      → 1 ≤ rl.rate
      → lookup key rl.visitors ≡ none
      → IsTimed start from before
      → IsTimed from to es
      → granted key (allow_all rl before) es * per_token rl.rate rl.window
        ≤ suc rl.rate * per_token rl.rate rl.window + (to - from)
  allow_within_any_period rl start from to before es some_rate absent earlier timed =
      granted-Fits rl.rate rl.window (allow_all rl before) from to es some_rate
        (settings_all rl before).0 (settings_all rl before).1
        (all-Fits rl.rate rl start from before refl (absent-Fits rl.rate start _ absent) earlier)
        timed
