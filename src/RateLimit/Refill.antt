-- ===== src/RateLimit/Refill.antt =====
-- The refill of a bucket in `allow` of middleware/ratelimit.go, and the token that a request
-- takes.
use native.Mathlib.Nat.{div-mul-le_self, mul-le-mul_right}
use ganji.Base.{
  ℕ, zero, suc, ◌+◌, ◌-◌, ◌*◌, ◌/◌, ◌≤◌, ◌≡◌, refl, Bool, true, false, ltb, arith, if◌then◌else◌,
}
use ganji.RateLimit.{Visitor, per_token, capped, add_tokens, refill, take_if, take_token}

pub per_token-pos : (rate window : ℕ) → 1 ≤ per_token rate window
per_token-pos rate window = ground arith

-- Refilling adds no more tokens than the time since the last refill is worth.
worth :
    (n duration now to add last tokens : ℕ)
    → n ≤ tokens + add
    → add * duration ≤ now - last
    → last ≤ now
    → now ≤ to
    → n * duration + (to - now) ≤ tokens * duration + (to - last)
worth n duration now to add last tokens few h past soon =
    omega (arith, mul-le-mul_right duration few)

add_tokens-worth :
    (rate duration now to add : ℕ) (v : Visitor)
    → add * duration ≤ now - v.last_refill
    → v.last_refill ≤ now
    → now ≤ to
    → (add_tokens rate now add v).tokens * duration + (to - (add_tokens rate now add v).last_refill)
      ≤ v.tokens * duration + (to - v.last_refill)
add_tokens-worth rate duration now to add v h past soon = pick (ltb 0 add)
  where
    pick :
        (b : Bool)
        → (if b
                then record { tokens = capped rate (v.tokens + add); last_refill = now }
                else v).tokens
              * duration
            + (to
                - (if b
                    then record { tokens = capped rate (v.tokens + add); last_refill = now }
                    else v).last_refill)
          ≤ v.tokens * duration + (to - v.last_refill)
    pick true =
        worth (capped rate (v.tokens + add)) duration now to add v.last_refill v.tokens
          (ground arith) h past soon
    pick false = omega arith

pub refill-worth :
    (rate duration now to : ℕ) (v : Visitor)
    → v.last_refill ≤ now
    → now ≤ to
    → (refill rate duration now v).tokens * duration
        + (to - (refill rate duration now v).last_refill)
      ≤ v.tokens * duration + (to - v.last_refill)
refill-worth rate duration now to v past soon =
    add_tokens-worth rate duration now to ((now - v.last_refill) / duration) v
      (div-mul-le_self (now - v.last_refill) duration) past soon

pub refill-past :
    (rate duration now : ℕ) (v : Visitor)
    → v.last_refill ≤ now
    → (refill rate duration now v).last_refill ≤ now
refill-past rate duration now v past = ground arith

pub one_less : (n p : ℕ) → 1 ≤ n → (n - 1) * p + p ≡ n * p
one_less zero p h = absurd (omega arith)
one_less (suc n) p h = grind arith

-- A token pays for one request.
spend_if :
    (b : Bool) (u : Visitor) (later duration to : ℕ)
    → (b ≡ true → 1 ≤ u.tokens)
    → later * duration ≤ (take_if b u).1.tokens * duration + (to - (take_if b u).1.last_refill)
    → (if (take_if b u).0 then suc later else later) * duration
      ≤ u.tokens * duration + (to - u.last_refill)
spend_if true u later duration to left h = omega (arith, one_less u.tokens duration (left refl), h)
spend_if false u later duration to left h = h

pub spend :
    (u : Visitor) (later duration to : ℕ)
    → later * duration ≤ (take_token u).1.tokens * duration + (to - (take_token u).1.last_refill)
    → (if (take_token u).0 then suc later else later) * duration
      ≤ u.tokens * duration + (to - u.last_refill)
spend u later duration to = spend_if (ltb 0 u.tokens) u later duration to (λ t. ground arith)

pub take-last : (b : Bool) (u : Visitor) → (take_if b u).1.last_refill ≡ u.last_refill
take-last true u = refl
take-last false u = refl
