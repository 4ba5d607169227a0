-- ===== src/RateLimit/Cleanup.antt =====
-- `cleanup` of middleware/ratelimit.go and the next request of the visitor that it drops.
use native.Mathlib.Nat.{le-div_iff_mul-le}
use ganji.Base.{
  ℕ, ◌+◌, ◌-◌, ◌*◌, ◌/◌, ◌≤◌, ◌<◌, ◌≡◌, refl, ap, ◌∙◌, true, false, none, some, Text, ltb, arith,
}
use ganji.RateLimit.Refill.{per_token-pos}
use ganji.RateLimit.{
  Visitor, RateLimiter, put, per_token, capped, add_tokens, refill, take_token, visit, idle_limit,
  is_kept,
}

capped-full : (rate n : ℕ) → rate ≤ n → capped rate n ≡ rate
capped-full rate n h = ground arith

some_tokens : (rate n : ℕ) → 1 ≤ rate → rate ≤ n → ltb 0 n ≡ true
some_tokens rate n some_rate h = ground arith

add_tokens-full :
    (rate now n : ℕ) (v : Visitor)
    → 1 ≤ rate
    → rate ≤ n
    → add_tokens rate now n v ≡ record { tokens = rate; last_refill = now }
add_tokens-full rate now n v some_rate h =
    rw (some_tokens rate n some_rate h, capped-full rate (v.tokens + n) (omega (arith, h))) refl

take_token-fresh :
    (rate now : ℕ)
    → 1 ≤ rate
    → take_token (record { tokens = rate; last_refill = now })
      ≡ (true, record { tokens = rate - 1; last_refill = now })
take_token-fresh rate now some_rate = rw (some_tokens rate rate some_rate (omega arith)) refl

is_kept-idle :
    (key : Text) (now : ℕ) (v : Visitor)
    → is_kept now (key, v) ≡ false
    → idle_limit < now - v.last_refill
is_kept-idle key now v dropped = ground arith

-- An idle bucket is full again when it is refilled.
refill-full :
    (rate duration now : ℕ) (v : Visitor)
    → 1 ≤ rate
    → 1 ≤ duration
    → rate * duration ≤ idle_limit
    → idle_limit < now - v.last_refill
    → refill rate duration now v ≡ record { tokens = rate; last_refill = now }
refill-full rate duration now v some_rate d enough idle =
    add_tokens-full rate now ((now - v.last_refill) / duration) v some_rate
      ((le-div_iff_mul-le d).1 (omega (arith, enough, idle)))

-- A visitor that cleanup would drop is served as one that was never seen: where the rate is at least 1 and the
-- bucket fills up within the ten minutes after which it is dropped, the answer and the limiter afterwards
-- are the same.
pub visit_after_cleanup :
    (rl : RateLimiter) (key : Text) (now : ℕ) (v : Visitor)
    → 1 ≤ rl.rate
    → rl.rate * per_token rl.rate rl.window ≤ idle_limit
    → is_kept now (key, v) ≡ false
    → visit rl key now (some v) ≡ visit rl key now none
visit_after_cleanup rl key now v some_rate enough dropped =
    ap (λ taken. (taken.0, record rl { visitors = put key taken.1 rl.visitors }))
      (ap take_token (
          refill-full rl.rate _ now v some_rate (per_token-pos rl.rate rl.window) enough
            (is_kept-idle key now v dropped))
        ∙ take_token-fresh rl.rate now some_rate)
