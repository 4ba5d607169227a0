-- ===== src/Middleware.antt =====
-- backend/internal/middleware/auth.go: who may go on to a handler.
use ganji.Base.{not, Option, none, some, Text, codes, is_empty, ◌⊎◌, inl, inr, if◌then◌else◌}
use ganji.Base.Action.{Outcome, ok, err}
use ganji.Auth.{Claims, Platform, TokenManager}
use ganji.Auth
use ganji.Auth.Tokens.{verify_access_token}
use ganji.Deals.Preimage.{cut_prefix}
use ganji.Http.{Caller, Response, fail}

-- The claims, as the context carries them.
abbrev pub caller_of : Claims → Caller
caller_of claims = record {
  user_id = claims.user_id;
  email = claims.email;
  is_operator = claims.is_operator;
}

abbrev pub verified : Outcome Auth.Error Claims → Response ⊎ Caller
verified (ok claims) = inr (caller_of claims)
verified (err e) = inl (fail 401 "invalid access token")

-- The response of a request that is stopped, or the caller.
module _ (platform : Platform) (tm : TokenManager) (env : Auth.Env) (now : Auth.World) where
  abbrev pub check_bearer : Option Text → Response ⊎ Caller
  check_bearer none = inl (fail 401 "invalid authorization header")
  check_bearer (some token) = verified (verify_access_token platform tm env token now).0

  unfoldable pub auth_required : Text → Response ⊎ Caller
  auth_required header =
      if is_empty header
      then inl (fail 401 "missing authorization header")
      else check_bearer (cut_prefix (codes "Bearer ") header)

unfoldable pub operator_required : Caller → Response ⊎ Caller
operator_required caller =
    if not caller.is_operator then inl (fail 403 "operator privileges required") else inr caller
