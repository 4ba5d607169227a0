-- ===== src/Auth/Repository.antt =====
-- The statements of backend/internal/auth/repository.go, over the tables in memory.
--
-- The UNIQUE constraints of the tables (email, slug, token_hash) and the reference from a token to its user
-- make an INSERT fail. A row read without `password_hash` has an empty one, as in the code.
use ganji.Base.{
  ℕ, Bool, true, false, not, ◌||◌, Option, none, some, List, [], ◌∷◌, map, filter, find, any,
  length, Text, text_eq, is_empty, trim_space, to_lower, ltb, if◌then◌else◌,
}
use ganji.Base.Action.{Outcome, ok, err, pure, ◌>>=◌}
use ganji.Base.Database.{step, reading}
use ganji.Auth.{
  User, StoredRefreshToken, Error, refresh_token_not_found, db_failed, Tables, Env, M, statement,
}

abbrev pub has_email : Text → User → Bool
has_email email u = text_eq u.email email

abbrev pub has_slug : Text → User → Bool
has_slug slug u = text_eq u.slug slug

abbrev pub has_id : Text → User → Bool
has_id id u = text_eq u.id id

abbrev pub has_hash : Text → StoredRefreshToken → Bool
has_hash token_hash t = text_eq t.token_hash token_hash

-- The columns that queries for others than the sign-in read.
abbrev without_hash : User → User
without_hash u = record u { password_hash = [] }

abbrev option_map : {A B : Type 0} → (A → B) → Option A → Option B
option_map f none = none
option_map f (some a) = some (f a)

abbrev pub insert_user : User → Tables → Outcome Error User × Tables
insert_user u tables =
    if any (has_email u.email) tables.users || any (has_slug u.slug) tables.users
    then (err db_failed, tables)
    else (ok (without_hash u), record tables { users = u ∷ tables.users })

abbrev pub insert_token : StoredRefreshToken → Tables → Outcome Error (Unit {0}) × Tables
insert_token t tables =
    if any (has_hash t.token_hash) tables.refresh_tokens
      || not (any (has_id t.user_id) tables.users)
    then (err db_failed, tables)
    else (ok tt, record tables { refresh_tokens = t ∷ tables.refresh_tokens })

abbrev pub delete_token : Text → Tables → Outcome Error (Unit {0}) × Tables
delete_token token_hash tables =
    if any (has_hash token_hash) tables.refresh_tokens
    then (
      ok tt,
      record tables {
        refresh_tokens = filter (λ t. not (has_hash token_hash t)) tables.refresh_tokens;
      },
    )
    else (err refresh_token_not_found, tables)

-- `expires_at < now`
abbrev pub is_expired : ℕ → StoredRefreshToken → Bool
is_expired now t = ltb t.expires_at now

abbrev pub delete_expired : ℕ → Tables → Outcome Error ℕ × Tables
delete_expired now tables = (
  ok (length (filter (is_expired now) tables.refresh_tokens)),
  record tables { refresh_tokens = filter (λ t. not (is_expired now t)) tables.refresh_tokens },
)

abbrev pub promote : List Text → User → User
promote emails u = if any (text_eq u.email) emails then record u { is_operator = true } else u

abbrev pub promote_all : List Text → Tables → Outcome Error (Unit {0}) × Tables
promote_all emails tables = (ok tt, record tables { users = map (promote emails) tables.users })

-- The emails that are not blank, trimmed and in lower case.
abbrev clean_emails : (ℕ → ℕ) → List Text → List Text
clean_emails lower_rune emails =
    filter (λ e. not (is_empty e)) (map (λ e. to_lower lower_rune (trim_space e)) emails)

abbrev pub found_token : Option StoredRefreshToken → Outcome Error StoredRefreshToken
found_token none = err refresh_token_not_found
found_token (some t) = ok t

module _ (env : Env) where
  unfoldable pub create : Text → Text → Text → Text → M User
  create email password_hash display_name slug = do
    k ← step
    statement env (
        insert_user (record {
          id = env.new_id k;
          email = email;
          password_hash = password_hash;
          display_name = display_name;
          slug = slug;
          bitcoin_address = [];
          trust_score = 100;
          is_operator = false;
          created_at = env.now k;
        }))

  unfoldable pub find_by_email : Text → M (Option User)
  find_by_email email = statement env (reading (λ t. ok (find (has_email email) t.users)))

  unfoldable find_by_slug : Text → M (Option User)
  find_by_slug slug =
      statement env (reading (λ t. ok (option_map without_hash (find (has_slug slug) t.users))))

  unfoldable pub find_by_id : Text → M (Option User)
  find_by_id id =
      statement env (reading (λ t. ok (option_map without_hash (find (has_id id) t.users))))

  unfoldable pub email_exists : Text → M Bool
  email_exists email = statement env (reading (λ t. ok (any (has_email email) t.users)))

  unfoldable pub slug_exists : Text → M Bool
  slug_exists slug = statement env (reading (λ t. ok (any (has_slug slug) t.users)))

  unfoldable pub promote_operators : (ℕ → ℕ) → List Text → M (Unit {0})
  promote_operators lower_rune emails =
      let cleaned = clean_emails lower_rune emails in
      if is_empty cleaned then pure tt else statement env (promote_all cleaned)

  unfoldable pub store_refresh_token : Text → Text → ℕ → M (Unit {0})
  store_refresh_token user_id token_hash expires_at = do
    k ← step
    statement env (
        insert_token (record {
          id = env.new_id k;
          user_id = user_id;
          token_hash = token_hash;
          expires_at = expires_at;
          created_at = env.now k;
        }))

  unfoldable pub find_refresh_token : Text → M StoredRefreshToken
  find_refresh_token token_hash =
      statement env (reading (λ t. found_token (find (has_hash token_hash) t.refresh_tokens)))

  unfoldable pub revoke_refresh_token : Text → M (Unit {0})
  revoke_refresh_token token_hash = statement env (delete_token token_hash)

  unfoldable pub cleanup_expired_refresh_tokens : M ℕ
  cleanup_expired_refresh_tokens = do k ← step; statement env (delete_expired (env.now k))
