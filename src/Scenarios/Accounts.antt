-- ===== src/Scenarios/Accounts.antt =====
-- Package auth at small inputs.
use ganji.Base.{
  ℕ, ◌≡◌, refl, sym, subst, Bool, true, false, Option, none, some, List, [], ◌∷◌, Text, codes,
  text_eq, inl, inr, ◌⊎◌, arith, is_lower_alphanumeric, is_empty, all,
}
use ganji.Base.Action.{ok, err}
use ganji.Base.Database.{Connected}
use ganji.Auth.{
  User, StoredRefreshToken, AuthResponse, Claims, Platform, TokenManager, Tables, World, Env,
}
use ganji.Auth.Slugs.{slugify}
use ganji.Auth.Slugs.Shape.{IsSlug, slugify-IsSlug}
use ganji.Auth.Service
use ganji.Auth.Requests.{Request, serve_all}
use ganji.Auth.Requests.Gone.{NewTokens}
use ganji.Auth.Requests.Replay.{Fresh, Fails, refresh_token_single_use}
use ganji.Auth.Invariant.{IsWellFormed}
use ganji.Auth.Requests.WellFormed.{IsHex, serve_all-IsWellFormed}

slugify-IsSlug_example : IsSlug (slugify (λ c. c) (codes " juma  codes_"))
slugify-IsSlug_example = slugify-IsSlug (λ c. c) (codes " juma  codes_")

-- A token is the id in its claims, and every token is of the same account.
abbrev pub claims_of : Text → Claims
claims_of token = record {
  user_id = codes "u1";
  email = codes "a@b.io";
  is_operator = false;
  expires_at = 900;
  issued_at = 1;
  token_id = token;
}

abbrev pub plain : Platform
plain = record {
  lower_rune = λ c. c;
  is_letter = λ c. true;
  is_digit = λ c. true;
  sha256_hex = λ t. t;
  hash_password = λ salt p. some p;
  compare_password = λ h p. text_eq h p;
  sign = λ secret claims. some claims.token_id;
  has_hmac = λ t. true;
  parse = λ secret now t. some (claims_of t);
}

abbrev pub secrets : TokenManager
secrets = record { access_secret = codes "a"; refresh_secret = codes "r" }

abbrev pub quiet : Env
quiet = record {
  db_fails = λ n. false;
  others = λ n t. t;
  now = λ n. 5;
  new_id = λ n. codes "id";
  random_hex = λ n. some (codes "beef");
  salt = λ n. codes "s";
}

abbrev user_1 : User
user_1 = record {
  id = codes "u1";
  email = codes "a@b.io";
  password_hash = codes "pass1234";
  display_name = codes "A";
  slug = codes "a";
  bitcoin_address = [];
  trust_score = 100;
  is_operator = false;
  created_at = 1;
}

abbrev pub signed_in : World
signed_in = record {
  tables = record {
    users = user_1 ∷ [];
    refresh_tokens =
        (record {
          id = codes "t1";
          user_id = codes "u1";
          token_hash = codes "old";
          expires_at = 90;
          created_at = 1;
        })
        ∷ [];
  };
  tick = 0;
}

beef-NewTokens : NewTokens plain secrets quiet (codes "old")
unfolding ganji.Base.Text-discrete
beef-NewTokens n claims token drawn signed =
    let same : codes "beef" ≡ token = ground arith in
    subst (λ t. text_eq t (codes "old") ≡ false) same beef_differs
  where
    beef_differs : text_eq (codes "beef") (codes "old") ≡ false
    beef_differs = refl

quiet-Fresh : Fresh plain secrets (codes "old") quiet
quiet-Fresh = record { never = λ n t h. h; new = beef-NewTokens }

abbrev exchanged : World
exchanged = (Service.refresh_token plain secrets quiet (codes "old") signed_in).1

abbrev answer : AuthResponse
answer = record { user = user_1; access_token = []; refresh_token = codes "beef" }

refresh_token_single_use_example :
    Fails plain secrets
      (codes "old")
      (Service.refresh_token plain secrets quiet (codes "old") (
        serve_all plain secrets
          ((quiet, Request.login (codes "a@b.io") (codes "pass1234")) ∷ [])
          exchanged)).0
    × Fails plain secrets
        (codes "old")
        (Service.logout plain secrets quiet (codes "old") (
          serve_all plain secrets
            ((quiet, Request.login (codes "a@b.io") (codes "pass1234")) ∷ [])
            exchanged)).0
unfolding Service.refresh_token ganji.Base.Action.◌>>=◌ ganji.Auth.Tokens.verify_refresh_token
    ganji.Base.Database.step ganji.Auth.Repository.find_by_email ganji.Base.Database.run_statement
    ganji.Base.Text-discrete ganji.Auth.Repository.find_refresh_token Service.hash_refresh_token
    ganji.Auth.Repository.revoke_refresh_token Service.issue_tokens
    ganji.Auth.Tokens.generate_access_token ganji.Auth.Tokens.generate_refresh_token
    ganji.Auth.Tokens.random_token_id ganji.Auth.Repository.store_refresh_token
refresh_token_single_use_example =
    refresh_token_single_use plain secrets (codes "old") quiet quiet-Fresh signed_in exchanged
      (inl (answer, refl)) ((quiet, Request.login (codes "a@b.io") (codes "pass1234")) ∷ [])
      (quiet-Fresh, tt) quiet quiet-Fresh

quiet-IsHex : IsHex quiet
quiet-IsHex n s drawn =
    let same : codes "beef" ≡ s = ground arith in
    subst (λ t. (is_empty t ≡ false) × (all is_lower_alphanumeric t ≡ true)) same (refl, refl)

signed_in-IsWellFormed : IsWellFormed signed_in.tables
unfolding ganji.Base.Text-discrete ganji.Auth.Emails.matches_email
signed_in-IsWellFormed = record {
  emails = (refl, tt);
  slugs = (refl, tt);
  hashes = (refl, tt);
  addressed = (refl, tt);
  shaped = (refl, tt);
  owned = (refl, tt);
}

serve_all-IsWellFormed_example :
    IsWellFormed
      (serve_all plain secrets
        ((quiet, Request.register (codes "c@d.io") (codes "word5678") (codes "A")) ∷ [])
        signed_in).tables
serve_all-IsWellFormed_example =
    serve_all-IsWellFormed plain secrets
      ((quiet, Request.register (codes "c@d.io") (codes "word5678") (codes "A")) ∷ [])
      ((λ n t h. h), quiet-IsHex, tt) signed_in signed_in-IsWellFormed
