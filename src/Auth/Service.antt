-- ===== src/Auth/Service.antt =====
-- The operations of backend/internal/auth/service.go and cleanup.go.
use ganji.Base.{
  ℕ, suc, zero, ◌+◌, Bool, not, ◌&&◌, Option, none, some, List, ◌++◌, any, Text, codes, is_empty,
  byte_length, trim_space, to_lower, ltb, if◌then◌else◌,
}
use ganji.Base.Action.{Outcome, ok, err, pure, raise, raise_if, or_raise, try, ◌>>=◌, ◌>>◌}
use ganji.Base.Database.{step}
use ganji.Auth.{
  User, StoredRefreshToken, AuthResponse, Error, invalid_input, email_taken, invalid_credentials,
  refresh_token_not_found, invalid_token, random_failed, hash_failed, Platform, TokenManager, Env,
  M,
}
use ganji.Auth.Emails.{matches_email}
use ganji.Auth.Slugs.{slugify}
use ganji.Auth.Repository
use ganji.Auth.Tokens.{
  generate_access_token, generate_refresh_token, verify_refresh_token, refresh_token_ttl,
}

-- `errors.Is(err, ErrRefreshTokenNotFound)` becomes ErrInvalidToken.
abbrev pub as_invalid_token : Error → Error
as_invalid_token refresh_token_not_found = invalid_token
as_invalid_token e = e

abbrev pub found_or_invalid : Outcome Error StoredRefreshToken → M StoredRefreshToken
found_or_invalid (ok t) = pure t
found_or_invalid (err e) = raise (as_invalid_token e)

abbrev pub user_or : Error → Option User → M User
user_or e none = raise e
user_or e (some u) = pure u

module _ (platform : Platform) (tm : TokenManager) (env : Env) where
  unfoldable pub hash_refresh_token : Text → Text
  hash_refresh_token token = platform.sha256_hex token

  abbrev is_strong : Text → Bool
  is_strong password = any platform.is_letter password && any platform.is_digit password

  -- The suffixes of the loop, as many as are left.
  unfoldable pub try_suffixes : ℕ → Text → M Text
  try_suffixes zero base = raise invalid_input
  try_suffixes (suc left) base = do
    k ← step
    suffix ← or_raise (env.random_hex k) random_failed
    let slug = base ++ codes "-" ++ suffix
    taken ← Repository.slug_exists env slug
    if taken then try_suffixes left base else pure slug

  unfoldable pub generate_unique_slug : Text → M Text
  generate_unique_slug display_name = do
    let base = slugify platform.lower_rune display_name
    taken ← Repository.slug_exists env base
    if taken then try_suffixes 5 base else pure base

  unfoldable pub issue_tokens : User → M AuthResponse
  issue_tokens user = do
    access_token ← generate_access_token platform tm env user.id user.email user.is_operator
    refresh_token ← generate_refresh_token platform tm env user.id user.email
    k ← step
    Repository.store_refresh_token env user.id (hash_refresh_token refresh_token)
        (env.now k + refresh_token_ttl)
    pure (record { user = user; access_token = access_token; refresh_token = refresh_token })

  abbrev normal_email : Text → Text
  normal_email email = to_lower platform.lower_rune (trim_space email)

  unfoldable pub register : Text → Text → Text → M AuthResponse
  register given_email password display_name = do
    let email = normal_email given_email
    raise_if (not (matches_email email)) invalid_input
    raise_if (ltb (byte_length password) 8) invalid_input
    raise_if (not (is_strong password)) invalid_input
    raise_if (is_empty (trim_space display_name)) invalid_input
    taken ← Repository.email_exists env email
    raise_if taken email_taken
    slug ← generate_unique_slug display_name
    k ← step
    password_hash ← or_raise (platform.hash_password (env.salt k) password) hash_failed
    user ← Repository.create env email password_hash (trim_space display_name) slug
    issue_tokens user

  unfoldable pub authenticate : Text → Text → M AuthResponse
  authenticate given_email password = do
    let email = normal_email given_email
    raise_if (not (matches_email email)) invalid_input
    raise_if (is_empty (trim_space password)) invalid_input
    found ← Repository.find_by_email env email
    user ← user_or invalid_credentials found
    raise_if (not (platform.compare_password user.password_hash password)) invalid_credentials
    issue_tokens user

  unfoldable pub apply_operator_role : List Text → M (Unit {0})
  apply_operator_role emails = Repository.promote_operators env platform.lower_rune emails

  unfoldable pub refresh_token : Text → M AuthResponse
  refresh_token token = do
    claims ← verify_refresh_token platform tm env token
    found ← Repository.find_by_email env claims.email
    user ← user_or invalid_token found
    let token_hash = hash_refresh_token token
    answer ← try (Repository.find_refresh_token env token_hash)
    stored ← found_or_invalid answer
    k ← step
    if ltb stored.expires_at (env.now k)
        then (do Repository.revoke_refresh_token env token_hash; raise invalid_token)
        else (do Repository.revoke_refresh_token env token_hash; issue_tokens user)

  unfoldable pub logout : Text → M (Unit {0})
  logout token = do
    claims ← verify_refresh_token platform tm env token
    let token_hash = hash_refresh_token token
    answer ← try (Repository.find_refresh_token env token_hash)
    stored ← found_or_invalid answer
    Repository.revoke_refresh_token env token_hash

  unfoldable pub get_me : Text → M (Option User)
  get_me user_id = do raise_if (is_empty user_id) invalid_input; Repository.find_by_id env user_id

  unfoldable pub cleanup_expired_refresh_tokens : M ℕ
  cleanup_expired_refresh_tokens = Repository.cleanup_expired_refresh_tokens env
