-- ===== src/Deals/Release/Lawful.antt =====
-- The three ways to authorize and finalize a release: the client's, the share link's, the operator's.
use ganji.Base.{◌≡◌, refl, ◌≢◌, true, Text, arith}
use ganji.Deals.Status.{Status, released, can_transition}
use ganji.Deals.Types.{Deal}
use ganji.Deals.World.{ok, Env, Config}
use ganji.Deals.Repository.{set_status, set_resolution, update_status, update_dispute_resolution}
use ganji.Deals.Release.{approve_options, resolve_options}
use ganji.Deals.Payment.{public_options}
use ganji.Deals.Release.Ledger.{IsLawful}

pub can_transition-ne-released : (s t : Status) → can_transition s t ≡ true → s ≢ released
unfolding can_transition
can_transition-ne-released s t h e = ground arith

module _ (env : Env) (cfg : Config) (id : Text) where
  pub approve-IsLawful : (email : Text) → IsLawful env id (approve_options env cfg email)
  unfolding approve_options update_status
  approve-IsLawful email = record {
    change = set_status released;
    finalize_is = refl;
    keeps_id = λ now d. refl;
    keeps_attempt = λ now d. refl;
    releases = λ now d. refl;
    refuses_released = λ d a. can_transition-ne-released d.status released (authorized d a);
  }
    where
      authorized :
          (d : Deal)
          → (approve_options env cfg email).authorize d ≡ ok tt
          → can_transition d.status released ≡ true
      authorized d a = ground arith

  pub public-IsLawful : IsLawful env id (public_options env cfg)
  unfolding public_options update_status
  public-IsLawful = record {
    change = set_status released;
    finalize_is = refl;
    keeps_id = λ now d. refl;
    keeps_attempt = λ now d. refl;
    releases = λ now d. refl;
    refuses_released = λ d a. can_transition-ne-released d.status released (authorized d a);
  }
    where
      authorized :
          (d : Deal)
          → (public_options env cfg).authorize d ≡ ok tt
          → can_transition d.status released ≡ true
      authorized d a = ground arith

  pub resolve-IsLawful : (operator : Text) → IsLawful env id (resolve_options env cfg operator)
  unfolding resolve_options update_dispute_resolution
  resolve-IsLawful operator = record {
    change = set_resolution released operator;
    finalize_is = refl;
    keeps_id = λ now d. refl;
    keeps_attempt = λ now d. refl;
    releases = λ now d. refl;
    refuses_released = λ d a e. ground arith;
  }
