-- ===== src/Router/Parties/Served.antt =====
-- The deals in the answers of the routes, behind the middleware.
use ganji.Base.{◌≡◌, refl, ◌∙◌, ap, false, Text, inl, inr, arith}
use ganji.Deals.World.{World, Env, Config}
use ganji.Auth.{Claims, Platform, TokenManager}
use ganji.Auth
use ganji.Http.{Caller, Response}
use ganji.Middleware.{caller_of}
use ganji.Router.{Route, Gate, gate_of, handle, serve}
use ganji.Router.Gates.{IsStop, IsAdmitted, Bears, serve-IsGated, Bears-unique}
use ganji.Router.Errors
use ganji.Router.Parties.{IsOwn}
use ganji.Router.Parties.Handled.{is_approval, handle-IsOwn}

module _ (platform : Platform) (tm : TokenManager) (auth_env : Auth.Env) (now : Auth.World) where
  stop-IsOwn : (env : Env) (user email : Text) (r : Response) → IsStop r → IsOwn env user email r
  stop-IsOwn env user email r (code, text, body) = rw body tt

  -- A public route does not look at its caller.
  public-same :
      (env : Env) (cfg : Config) (route : Route) (a b : Caller) (w : World)
      → (gate_of route ≡ Gate.public)
      → handle env cfg a route w ≡ handle env cfg b route w
  unfolding handle gate_of
  public-same env cfg (Route.get_public_deal token) a b w g = refl
  public-same env cfg (Route.public_approve_deal token) a b w g = refl
  public-same env cfg _ a b w g = absurd (ground arith)

  admitted-IsOwn :
      (env : Env) (cfg : Config) (header : Text) (claims : Claims) (route : Route) (caller : Caller)
      → Bears platform tm auth_env now header claims
      → (claims.is_operator ≡ false)
      → (is_approval route ≡ false)
      → (w : World) → (gate : Gate) → (gate_of route ≡ gate)
      → IsAdmitted platform tm auth_env now gate header caller
      → Errors.Answers (IsOwn env claims.user_id claims.email) (handle env cfg caller route w).0
  admitted-IsOwn env cfg header claims route caller b o other w Gate.public g a =
      rw (public-same env cfg route caller (caller_of claims) w g)
        (handle-IsOwn env cfg (caller_of claims) route (λ e. absurd (ground arith)) other w)
  admitted-IsOwn env cfg header claims route caller b o other w Gate.protected g (found, d, c) =
      let same = c ∙ ap caller_of (Bears-unique platform tm auth_env now header found claims d b) in
      rw same (handle-IsOwn env cfg (caller_of claims) route (λ e. absurd (ground arith)) other w)
  admitted-IsOwn env cfg header claims route caller b o other w Gate.operator g
        (found, d, c, flag) =
      let same =
        ap (λ x. x.is_operator) (Bears-unique platform tm auth_env now header found claims d b) in
      absurd (ground arith)

  -- The deals with their private columns that a bearer who is no operator is shown have that bearer as their
  -- freelancer or their client, on every route but the client's approval, and whatever else is written meanwhile.
  pub serve-IsOwn :
      (env : Env) (cfg : Config) (header : Text) (claims : Claims) (route : Route)
      → Bears platform tm auth_env now header claims
      → (claims.is_operator ≡ false)
      → (is_approval route ≡ false)
      → (w : World)
      → Errors.Answers
          (IsOwn env claims.user_id claims.email)
          (serve platform tm auth_env now env cfg header route w).0
  serve-IsOwn env cfg header claims route b o other w =
      elim (serve-IsGated platform tm auth_env now env cfg header route w) [
        | inl (caller, admitted, e) ↦
            rw e (admitted-IsOwn env cfg header claims route caller b o other w _ refl admitted)
        | inr (r, stop, e, nobody) ↦ rw e (stop-IsOwn env claims.user_id claims.email r stop)
      ]
