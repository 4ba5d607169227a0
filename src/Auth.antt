-- ===== src/Auth.antt =====
-- Package auth (backend/internal/auth): accounts, passwords and refresh tokens.
--
-- The state is the tables `users` and `refresh_tokens`. What the libraries compute (bcrypt, JWT, SHA-256,
-- the tables of package unicode) is a `Platform`; what varies from one statement to the next (whether it
-- fails, what other requests wrote before it, the time, random bytes) is an `Env`.
pub mod Slugs
pub mod Emails
pub mod Repository
pub mod Invariant
pub mod Tokens
pub mod Service
pub mod Requests
use ganji.Base.{ℕ, suc, Bool, true, false, Option, List, Text}
use ganji.Base.Action.{Action, Outcome}
use ganji.Base.Database.{Connected, run_statement}

pub record User : Type 0 where
  pub id : Text
  pub email : Text
  pub password_hash : Text
  pub display_name : Text
  pub slug : Text
  pub bitcoin_address : Text
  pub trust_score : ℕ
  pub is_operator : Bool
  pub created_at : ℕ

pub record StoredRefreshToken : Type 0 where
  pub id : Text
  pub user_id : Text
  pub token_hash : Text
  pub expires_at : ℕ
  pub created_at : ℕ

pub record AuthResponse : Type 0 where
  pub user : User
  pub access_token : Text
  pub refresh_token : Text

-- The errors of errors.go, and those of what the package calls.
pub data Error : Type 0 where
  invalid_input email_taken invalid_credentials refresh_token_not_found invalid_token : Error
  db_failed random_failed hash_failed sign_failed : Error

-- The claims of a token. Times are seconds; a refresh token carries a random id.
pub record Claims : Type 0 where
  pub user_id : Text
  pub email : Text
  pub is_operator : Bool
  pub expires_at : ℕ
  pub issued_at : ℕ
  pub token_id : Text

pub record Platform : Type 0 where
  pub lower_rune : ℕ → ℕ
  pub is_letter : ℕ → Bool
  pub is_digit : ℕ → Bool
  -- SHA-256, in hex
  pub sha256_hex : Text → Text
  -- `bcrypt.GenerateFromPassword` with its random salt, and `bcrypt.CompareHashAndPassword`
  pub hash_password : Text → Text → Option Text
  pub compare_password : Text → Text → Bool
  -- `SignedString` of claims with a secret
  pub sign : Text → Claims → Option Text
  -- whether the header of a token names an HMAC method, and `jwt.ParseWithClaims` with a secret at a time
  pub has_hmac : Text → Bool
  pub parse : Text → ℕ → Text → Option Claims

-- The secrets of `NewTokenManager`.
pub record TokenManager : Type 0 where
  pub access_secret : Text
  pub refresh_secret : Text

pub record Tables : Type 0 where
  pub users : List User
  pub refresh_tokens : List StoredRefreshToken

abbrev pub World : Type 0
World = Connected Tables

pub record Env : Type 0 where
  pub db_fails : ℕ → Bool
  pub others : ℕ → Tables → Tables
  pub now : ℕ → ℕ
  pub new_id : ℕ → Text
  -- random bytes in hex; `none` where `rand.Read` fails
  pub random_hex : ℕ → Option Text
  pub salt : ℕ → Text

abbrev pub M : Type 0 → Type 0
M A = Action World Error A

-- A statement, on the tables that it finds.
abbrev pub statement : {A : Type 0} → Env → (Tables → Outcome Error A × Tables) → M A
statement env run = run_statement db_failed env.db_fails env.others run
