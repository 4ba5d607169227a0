-- ===== src/Scenarios/Routes.antt =====
-- Requests to the routes of the deals, at small inputs.
use ganji.Base.{
  ℕ, ◌≡◌, refl, Bool, true, false, none, some, List, [], ◌∷◌, Text, codes, inl, inr, ◌⊎◌,
}
use ganji.Deals.Status.{locked, disputed}
use ganji.Deals.Types.{DisputeResolution}
use ganji.Auth.{Claims, Platform}
use ganji.Router.{Route, serve}
use ganji.Router.Gates.{IsGated, Bears, serve-IsGated}
use ganji.Router.Errors.{IsProper, Answers}
use ganji.Router.Errors.Served.{serve-IsProper}
use ganji.Router.Parties.{IsOwn}
use ganji.Router.Parties.Served.{serve-IsOwn}
use ganji.Scenarios.Fixtures.{calm, config, deal_1, world_in, freelancer}
use ganji.Scenarios.Accounts.{plain, secrets, quiet, signed_in, claims_of}

-- Every token is the freelancer's.
abbrev freelancer_claims : Claims
freelancer_claims = record (claims_of (codes "t")) { user_id = freelancer; email = codes "f@x.io" }

abbrev one_account : Platform
one_account = record plain { parse = λ secret now t. some freelancer_claims }

abbrev header : Text
header = codes "Bearer t"

header-Bears : Bears one_account secrets quiet signed_in header freelancer_claims
unfolding ganji.Auth.Tokens.verify_access_token ganji.Base.Action.◌>>=◌ ganji.Base.Database.step
header-Bears = (codes "t", refl, refl)

serve-IsGated_example :
    IsGated one_account secrets quiet signed_in calm config header
      (Route.resolve_dispute deal_1 (some DisputeResolution.refund))
      (world_in disputed)
serve-IsGated_example =
    serve-IsGated one_account secrets quiet signed_in calm config header
      (Route.resolve_dispute deal_1 (some DisputeResolution.refund)) (world_in disputed)

serve-IsProper_example :
    Answers IsProper
      (serve one_account secrets quiet signed_in calm config header
        (Route.create_artifact deal_1 (some []))
        (world_in locked)).0
serve-IsProper_example =
    serve-IsProper one_account secrets quiet signed_in calm config header
      (Route.create_artifact deal_1 (some [])) (world_in locked)

serve-IsOwn_example :
    Answers
      (IsOwn calm freelancer (codes "f@x.io"))
      (serve one_account secrets quiet signed_in calm config header Route.list_deals
        (world_in locked)).0
serve-IsOwn_example =
    serve-IsOwn one_account secrets quiet signed_in calm config header freelancer_claims
      Route.list_deals header-Bears refl refl (world_in locked)
