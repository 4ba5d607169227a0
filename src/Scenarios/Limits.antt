-- ===== src/Scenarios/Limits.antt =====
-- The lifecycle of a request and the rate limiter, at small inputs.
use ganji.Base.{
  inl, some, ◌⊎◌, ℕ, ◌≡◌, refl, ◌≤◌, ◌*◌, ◌+◌, ◌-◌, none, some, List, [], ◌∷◌, Text, codes, arith,
  text_eq,
}
use ganji.Deals.Status.{released}
use ganji.Requests.{Request, serve_all}
use ganji.Requests.Settled.{serve_all_settled}
use ganji.Deals.Types.{Deal}
use ganji.Deals.World.{Env}
use ganji.Deals.Contract.Row.{row_of}
use ganji.Requests.Course.{Still}
use ganji.RateLimit.{RateLimiter, Visitor, per_token, visit}
use ganji.RateLimit.Budget.{granted}
use ganji.RateLimit.Periods.{allow_all, allow_within_any_period}
use ganji.RateLimit.Cleanup.{visit_after_cleanup}
use ganji.Scenarios.Fixtures.{calm, config, deal_1, deal_in, world_in, client}

calm-Still : Still calm deal_1
calm-Still t tables d found = (d, found, refl)

-- Two requests in 60 ns.
abbrev limiter : RateLimiter
limiter = record { visitors = []; rate = 2; window = 60 }

abbrev burst : List (Text × ℕ)
burst = (codes "a", 10) ∷ (codes "a", 12) ∷ (codes "b", 12) ∷ (codes "a", 20) ∷ (codes "a", 45) ∷ []

-- The bucket is empty when the period begins.
abbrev earlier : List (Text × ℕ)
earlier = (codes "a", 1) ∷ (codes "b", 2) ∷ (codes "a", 3) ∷ []

allow_within_any_period_example :
    granted (codes "a") (allow_all limiter earlier) burst * per_token 2 60
    ≤ 3 * per_token 2 60 + (50 - 5)
allow_within_any_period_example =
    allow_within_any_period (codes "a") limiter 0 5 50 earlier burst (omega arith) refl
      (omega arith, (omega arith, (omega arith, omega arith)))
      (omega arith, (omega arith, (omega arith, (omega arith, (omega arith, omega arith)))))

abbrev idle : Visitor
idle = record { tokens = 0; last_refill = 5 }

visit_after_cleanup_example :
    visit limiter (codes "a") 700000000000 (some idle) ≡ visit limiter (codes "a") 700000000000 none
visit_after_cleanup_example =
    visit_after_cleanup limiter (codes "a") 700000000000 idle (omega arith) (omega arith) refl

abbrev after_release : List (Env × Request)
after_release =
    (calm, Request.dispute client (codes "late"))
    ∷ (calm, Request.sweep 90)
    ∷ (calm, Request.approve client)
    ∷ []

serve_all_settled_example :
    (after : Deal) × (row_of deal_1
        (serve_all config deal_1 after_release (world_in released)).tables
      ≡ some after)
    × (after.status ≡ released)
unfolding ganji.Base.Text-discrete
serve_all_settled_example =
    serve_all_settled config deal_1 after_release (calm-Still, (calm-Still, (calm-Still, tt)))
      (world_in released) (deal_in released) refl (inl refl)
