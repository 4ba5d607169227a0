-- ===== src/Router/Gates.antt =====
-- The middleware in front of each route.
use ganji.Base.{
  ap, sym, subst, ◌∙◌, ◌≡◌, refl, true, not, some, [], ◌∷◌, ◌++◌, Text, codes, inl, inr, ◌⊎◌,
  Bool-cases, Option-cases, if◌then◌else◌, arith,
}
use ganji.Base.Action.{Outcome}
use ganji.Base.Action
use ganji.Deals.World.{ok, World, Env, Config, pure}
use ganji.Deals.Preimage.{cut_prefix}
use ganji.Auth.{Claims, Platform, TokenManager}
use ganji.Auth
use ganji.Auth.Tokens.{verify_access_token}
use ganji.Http.{Caller, Body, Response, fail}
use ganji.Middleware.{auth_required, operator_required, caller_of, check_bearer, verified}
use ganji.Router.{Route, Gate, gate_of, handle, pass, serve, anonymous, then_operator, go_on}

cut_prefix-found : (p s t : Text) → (cut_prefix p s ≡ some t) → s ≡ p ++ t
cut_prefix-found [] s t e = ground arith
cut_prefix-found (x ∷ p) [] t e = absurd (ground arith)
cut_prefix-found (x ∷ p) (y ∷ s) t e = let ih = cut_prefix-found p s t in ground arith

cut_prefix_append : (p t : Text) → cut_prefix p (p ++ t) ≡ some t
cut_prefix_append [] t = refl
cut_prefix_append (x ∷ p) t = let ih = cut_prefix_append p t in ground arith

cut_prefix_append_injective : (p s t : Text) → (p ++ s ≡ p ++ t) → s ≡ t
cut_prefix_append_injective p s t e =
    let same = ap (cut_prefix p) e in
    let found = cut_prefix_append p s in let other = cut_prefix_append p t in ground arith

is_operator-admits : (c : Caller) → (c.is_operator ≡ true) → operator_required c ≡ inr c
unfolding operator_required
is_operator-admits c e =
    ap (λ b. if not b then inl (fail 403 "operator privileges required") else inr c) e

-- A response that stops the request: 401 or 403, with a fixed text.
abbrev pub IsStop : Response → Type 0
IsStop r = ((r.status ≡ 401) ⊎ (r.status ≡ 403)) × (text : Text) × (r.body ≡ Body.fixed_error text)

module _ (platform : Platform) (tm : TokenManager) (auth_env : Auth.Env) (now : Auth.World) where
  -- The header is `Bearer ` and an access token that verifies, with these claims.
  abbrev pub Bears : Text → Claims → Type 0
  Bears header claims =
      (token : Text) × (header ≡ codes "Bearer " ++ token)
      × ((verify_access_token platform tm auth_env token now).0 ≡ Action.ok claims)

  abbrev pub IsAdmitted : Gate → Text → Caller → Type 0
  IsAdmitted Gate.public header caller = caller ≡ anonymous
  IsAdmitted Gate.protected header caller =
      (claims : Claims) × Bears header claims × (caller ≡ caller_of claims)
  IsAdmitted Gate.operator header caller =
      (claims : Claims) × Bears header claims
      × (caller ≡ caller_of claims)
      × (claims.is_operator ≡ true)

  -- The request reaches its handler as an admitted caller, or is stopped.
  abbrev pub Passes : Gate → Text → Response ⊎ Caller → Type 0
  Passes gate header (inr caller) = IsAdmitted gate header caller
  Passes gate header (inl r) = IsStop r × ((caller : Caller) → ¬ IsAdmitted gate header caller)

  -- A header bears the claims of one token.
  pub Bears-unique : (header : Text) (a b : Claims) → Bears header a → Bears header b → a ≡ b
  Bears-unique header a b (s, e, v) (t, f, u) =
      let same = cut_prefix_append_injective (codes "Bearer ") s t (sym e ∙ f) in
      let moved =
        subst (λ x. (verify_access_token platform tm auth_env x now).0 ≡ Action.ok a) same v in
      ground arith

  verified-Passes :
      (token : Text) (o : Action.Outcome Auth.Error Claims)
      → ((verify_access_token platform tm auth_env token now).0 ≡ o)
      → Passes Gate.protected (codes "Bearer " ++ token) (verified o)
  verified-Passes token (Action.ok claims) e = (claims, (token, refl, e), refl)
  verified-Passes token (Action.err x) e = (
    (inl refl, codes "invalid access token", refl),
    λ caller (claims, (other, same, v), c).
        (let moved =
            subst (λ x. (verify_access_token platform tm auth_env x now).0 ≡ Action.ok claims)
              (sym (cut_prefix_append_injective (codes "Bearer ") token other same)) v in
          absurd (ground arith)),
  )

  auth_required-Passes :
      (header : Text) → Passes Gate.protected header (auth_required platform tm auth_env now header)
  unfolding auth_required
  auth_required-Passes [] = (
    (inl refl, codes "missing authorization header", refl),
    λ caller (claims, (token, e, v), c). ground arith,
  )
  auth_required-Passes (x ∷ s) = elim (Option-cases (cut_prefix (codes "Bearer ") (x ∷ s))) [
    | inl e ↦ rw e (
      (inl refl, codes "invalid authorization header", refl),
      λ caller (claims, (token, same, v), c).
          (let found =
              ap (cut_prefix (codes "Bearer ")) same ∙ cut_prefix_append (codes "Bearer ") token in
            absurd (ground arith)),
    )
    | inr (token, e) ↦ rw e (
        subst (λ h. Passes Gate.protected h (check_bearer platform tm auth_env now (some token)))
          (sym (cut_prefix-found (codes "Bearer ") (x ∷ s) token e)) (verified-Passes token _ refl))
  ]

  operator-Passes :
      (header : Text) (r : Response ⊎ Caller)
      → Passes Gate.protected header r
      → Passes Gate.operator header (then_operator r)
  unfolding operator_required
  operator-Passes header (inl r) (stop, none_admitted) =
      (stop, λ caller (claims, b, c, o). none_admitted caller (claims, b, c))
  operator-Passes header (inr caller) (claims, b, c) = elim (Bool-cases caller.is_operator) [
    | inl e ↦
        subst (Passes Gate.operator header) (sym (is_operator-admits caller e))
          (claims, b, c, sym (ap (λ x. x.is_operator) c) ∙ e)
    | inr e ↦ rw e (
      (inr refl, codes "operator privileges required", refl),
      λ other (others, d, f, o).
          let same = Bears-unique header claims others b d in
          let flag = ap (λ x. x.is_operator) c in
          let kept = ap (λ x. x.is_operator) same in absurd (ground arith),
    )
  ]

  pass-Passes :
      (gate : Gate) (header : Text) → Passes gate header (pass platform tm auth_env now gate header)
  unfolding pass
  pass-Passes Gate.public header = refl
  pass-Passes Gate.protected header = auth_required-Passes header
  pass-Passes Gate.operator header = operator-Passes header _ (auth_required-Passes header)

  abbrev pub IsGated : Env → Config → Text → Route → World → Type 0
  IsGated env cfg header route w =
      ((caller : Caller) × IsAdmitted (gate_of route) header caller
        × (serve platform tm auth_env now env cfg header route w ≡ handle env cfg caller route w))
      ⊎ ((response : Response) × IsStop response
          × (serve platform tm auth_env now env cfg header route w ≡ (ok response, w))
          × ((caller : Caller) → ¬ IsAdmitted (gate_of route) header caller))

  -- Every request to a route reaches its handler as a caller that the route admits, or it is answered 401 or 403 with a
  -- fixed text, changes nothing and nobody is admitted with its header. A public route admits anyone, a protected
  -- route the bearer of an access token that verifies, as the caller its claims name, and an operator's route such a
  -- bearer whose claims say operator.
  pub serve-IsGated :
      (env : Env) (cfg : Config) (header : Text) (route : Route) (w : World)
      → IsGated env cfg header route w
  unfolding serve pure
  serve-IsGated env cfg header route w = go _ (pass-Passes (gate_of route) header)
    where
      go :
          (r : Response ⊎ Caller)
          → Passes (gate_of route) header r
          → ((caller : Caller) × IsAdmitted (gate_of route) header caller
              × (go_on platform tm auth_env now env cfg route r w ≡ handle env cfg caller route w))
            ⊎ ((response : Response) × IsStop response
                × (go_on platform tm auth_env now env cfg route r w ≡ (ok response, w))
                × ((caller : Caller) → ¬ IsAdmitted (gate_of route) header caller))
      go (inl r) (stop, nobody) = inr (r, stop, refl, nobody)
      go (inr caller) admitted = inl (caller, admitted, refl)
