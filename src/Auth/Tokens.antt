-- ===== src/Auth/Tokens.antt =====
-- backend/internal/auth/jwt.go: what the tokens say.
use ganji.Base.{ℕ, ◌+◌, ◌*◌, ◌/◌, Bool, false, none, [], Text, if◌then◌else◌}
use ganji.Base.Action.{or_raise, ◌>>=◌}
use ganji.Base.Database.{step}
use ganji.Auth.{invalid_token, random_failed, sign_failed, Claims, Platform, TokenManager, Env, M}

-- Nanoseconds.
abbrev access_token_ttl : ℕ
access_token_ttl = 15 * 60 * 1000000000

abbrev pub refresh_token_ttl : ℕ
refresh_token_ttl = 7 * 24 * 3600 * 1000000000

-- `jwt.NewNumericDate`
abbrev numeric_date : ℕ → ℕ
numeric_date t = t / 1000000000

module _ (platform : Platform) (tm : TokenManager) (env : Env) where
  unfoldable pub generate_access_token : Text → Text → Bool → M Text
  generate_access_token user_id email is_operator = do
    k ← step
    or_raise
        (platform.sign tm.access_secret (record {
          user_id = user_id;
          email = email;
          is_operator = is_operator;
          expires_at = numeric_date (env.now k + access_token_ttl);
          issued_at = numeric_date (env.now k);
          token_id = [];
        }))
        sign_failed

  unfoldable pub random_token_id : M Text
  random_token_id = do k ← step; or_raise (env.random_hex k) random_failed

  unfoldable pub generate_refresh_token : Text → Text → M Text
  generate_refresh_token user_id email = do
    token_id ← random_token_id
    k ← step
    or_raise
        (platform.sign tm.refresh_secret (record {
          user_id = user_id;
          email = email;
          is_operator = false;
          expires_at = numeric_date (env.now k + refresh_token_ttl);
          issued_at = numeric_date (env.now k);
          token_id = token_id;
        }))
        sign_failed

  abbrev pub verify : Text → Text → M Claims
  verify token secret = do
    k ← step
    or_raise (if platform.has_hmac token then platform.parse secret (env.now k) token else none)
        invalid_token

  unfoldable pub verify_access_token : Text → M Claims
  verify_access_token token = verify token tm.access_secret

  unfoldable pub verify_refresh_token : Text → M Claims
  verify_refresh_token token = verify token tm.refresh_secret
