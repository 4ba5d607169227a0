-- ===== src/Scenarios/Payouts.antt =====
-- Releases, disputes and what follows them, run on one deal.
use ganji.Base.{
  ℕ, ◌≡◌, refl, ◌≤◌, ◌⊎◌, inl, inr, Bool, true, false, none, some, List, [], ◌∷◌, Text, codes,
}
use ganji.Deals.Status.{locked, work_submitted, reviewing, disputed}
use ganji.Deals.Types.{Deal, DisputeResolution}
use ganji.Deals.World.{err, invalid_transition, World, Env, Call, Payout}
use ganji.Deals.Contract.Row.{payouts}
use ganji.Deals.Release.{approve_deal}
use ganji.Deals.Payment.{public_approve_deal}
use ganji.Deals.Payment.ShareLink.{public_approve_deal-locked}
use ganji.Deals.Release.Ledger.{Undisturbed}
use ganji.Deals.Release.Outcome.{PaidOnce, approve_deal_pays_once}
use ganji.Requests.{Request, serve, serve_all}
use ganji.Requests.OnePayout.{serve_all_pays_once}
use ganji.Requests.Payers.{serve_only_releases_pay}
use ganji.Scenarios.Fixtures.{calm, config, deal_1, deal_in, world_in, world_of, client}

calm-Undisturbed : Undisturbed calm deal_1
calm-Undisturbed t tables d found = (d, found, refl, refl, λ e. e)

abbrev two_releases : List (Env × Request)
two_releases =
    (calm, Request.resolve (codes "op@x.io") DisputeResolution.release)
    ∷ (calm, Request.approve client)
    ∷ (calm, Request.reset (codes "op@x.io") [])
    ∷ (calm, Request.sweep 90)
    ∷ []

serve_all_pays_once_example :
    payouts (serve_all config deal_1 two_releases (world_in disputed)).calls ≤ 2
unfolding ganji.Base.Text-discrete
serve_all_pays_once_example =
    serve_all_pays_once config deal_1 two_releases
      (calm-Undisturbed, (calm-Undisturbed, (calm-Undisturbed, (calm-Undisturbed, tt))))
      (world_in disputed) (deal_in disputed) refl refl refl

approve_deal_pays_once_example :
    PaidOnce deal_1 (approve_deal calm config client deal_1 (world_in work_submitted))
unfolding ganji.Base.Text-discrete
approve_deal_pays_once_example =
    approve_deal_pays_once calm config deal_1 calm-Undisturbed client (world_in work_submitted)
      (deal_in work_submitted) refl refl refl

-- The payout was asked for and its outcome is unknown.
abbrev hung : Deal
hung = record (deal_in work_submitted) { payout_attempted_at = some 50 }

abbrev world_hung : World
world_hung = record (world_of (hung ∷ [])) { calls = Call.pay (codes "lnbc1") Payout.unknown ∷ [] }

serve_only_releases_pay_example :
    payouts
      (serve config deal_1 calm (Request.dispute client (codes "late")) (world_in reviewing)).calls
    ≡ payouts (world_in reviewing).calls
serve_only_releases_pay_example =
    serve_only_releases_pay config deal_1 calm (Request.dispute client (codes "late")) refl
      (world_in reviewing)

public_approve_deal-locked_example :
    (public_approve_deal calm config (codes "token") (world_in locked)).0 ≡ err invalid_transition
unfolding ganji.Base.Text-discrete
public_approve_deal-locked_example =
    public_approve_deal-locked calm (world_in locked).tables (λ t seen. refl) (λ t. refl) config
      (deal_in locked) (codes "token") refl refl refl refl refl (world_in locked) refl
