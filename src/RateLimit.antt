-- ===== src/RateLimit.antt =====
-- The token bucket of backend/internal/middleware/ratelimit.go.
--
-- Times and durations are nanoseconds of the monotonic clock, which does not run backwards: `now.Sub` is
-- the subtraction of ℕ. The map of visitors is an association list.
pub mod Refill
pub mod Budget
pub mod Periods
pub mod Cleanup
use ganji.Base.{
  ℕ, zero, suc, ◌+◌, ◌-◌, ◌*◌, ◌/◌, Bool, true, false, not, Option, none, some, List, [], ◌∷◌, Text,
  text_eq, filter, ltb, ◌==◌, if◌then◌else◌,
}
use ganji.Base.Int.{ℤ, pos, negsuc}

pub record Visitor : Type 0 where
  pub tokens : ℕ
  pub last_refill : ℕ

pub record RateLimiter : Type 0 where
  pub visitors : List (Text × Visitor)
  pub rate : ℕ
  pub window : ℕ

-- `rl.visitors[key]`, read and written.
abbrev pub lookup : Text → List (Text × Visitor) → Option Visitor
lookup key [] = none
lookup key ((k, v) ∷ rest) = if text_eq k key then some v else lookup key rest

abbrev pub put : Text → Visitor → List (Text × Visitor) → List (Text × Visitor)
put key v [] = (key, v) ∷ []
put key v ((k, old) ∷ rest) = if text_eq k key then (k, v) ∷ rest else (k, old) ∷ put key v rest

-- `perToken`
abbrev pub per_token : ℕ → ℕ → ℕ
per_token rate window = let duration = window / rate in if duration == 0 then 1 else duration

abbrev pub capped : ℕ → ℕ → ℕ
capped rate tokens = if ltb rate tokens then rate else tokens

-- `if tokensToAdd > 0`
abbrev pub add_tokens : ℕ → ℕ → ℕ → Visitor → Visitor
add_tokens rate now tokens_to_add v =
    if ltb 0 tokens_to_add
    then record { tokens = capped rate (v.tokens + tokens_to_add); last_refill = now }
    else v

-- The refill of `allow`.
abbrev pub refill : ℕ → ℕ → ℕ → Visitor → Visitor
refill rate duration now v = add_tokens rate now ((now - v.last_refill) / duration) v

-- `if v.tokens > 0`: whether the request is allowed, and the bucket after it.
abbrev pub take_if : Bool → Visitor → Bool × Visitor
take_if true v = (true, record v { tokens = v.tokens - 1 })
take_if false v = (false, v)

abbrev pub take_token : Visitor → Bool × Visitor
take_token v = take_if (ltb 0 v.tokens) v

-- `allow` once the visitor was looked up.
abbrev pub visit : RateLimiter → Text → ℕ → Option Visitor → Bool × RateLimiter
visit rl key now none =
    let fresh : Visitor = record { tokens = rl.rate - 1; last_refill = now } in
    (true, record rl { visitors = put key fresh rl.visitors })
visit rl key now (some v) =
    let (allowed, left) = take_token (refill rl.rate (per_token rl.rate rl.window) now v) in
    (allowed, record rl { visitors = put key left rl.visitors })

-- `allow`
unfoldable pub allow : RateLimiter → Text → ℕ → Bool × RateLimiter
allow rl key now = visit rl key now (lookup key rl.visitors)

-- Ten minutes.
abbrev pub idle_limit : ℕ
idle_limit = 600000000000

abbrev pub is_kept : ℕ → Text × Visitor → Bool
is_kept now (key, v) = not (ltb idle_limit (now - v.last_refill))

-- One pass of `cleanup`.
unfoldable pub cleanup : ℕ → RateLimiter → RateLimiter
cleanup now rl = record rl { visitors = filter (is_kept now) rl.visitors }

abbrev positive_or : ℕ → ℤ → ℕ
positive_or default (pos zero) = default
positive_or default (pos (suc n)) = suc n
positive_or default (negsuc n) = default

-- The limiter that `RateLimit` makes, with its defaults for values that are not positive.
unfoldable new_rate_limiter : ℤ → ℤ → RateLimiter
new_rate_limiter rate window = record {
  visitors = [];
  rate = positive_or 10 rate;
  window = positive_or 60000000000 window;
}
