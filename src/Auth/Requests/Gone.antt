-- ===== src/Auth/Requests/Gone.antt =====
-- Actions that leave a hash out of the stored tokens.
use ganji.Base.{
  inl, inr, ℕ, suc, zero, ◌≡◌, refl, Bool, false, not, Bool-cases, Option, none, some, List, [],
  ◌∷◌, any, filter, find, Text, text_eq, arith,
}
use ganji.Base.Action.{
  Outcome, ok, err, Triple, Keeps, Triple-bind, Triple-option, Triple-assume, Triple-from,
  Keeps-pure, Keeps-raise, Keeps-or_raise, Keeps-bind, Keeps-if, keeping,
}
use ganji.Auth.{
  db_failed, User, StoredRefreshToken, Error, Claims, Platform, TokenManager, Tables, World, Env,
  statement,
}
use ganji.Base.Database.{step, reading, IsStable, Keeps-statement, Keeps-step}
use ganji.Auth.Repository
use ganji.Auth.Repository.{has_hash, insert_token, delete_token, found_token}
use ganji.Auth.Tokens
use ganji.Auth.Service

-- No stored token has this hash.
abbrev IsAbsent : Text → List StoredRefreshToken → Type 0
IsAbsent h ts = any (has_hash h) ts ≡ false

abbrev pub IsGone : Text → Tables → Type 0
IsGone h tables = IsAbsent h tables.refresh_tokens

abbrev pub Gone : Text → World → Type 0
Gone h w = IsGone h w.tables

-- Other requests do not store a token of this hash.
abbrev pub NeverStored : Env → Text → Type 0
NeverStored env h = IsStable env.others (IsGone h)

-- No refresh token that is signed over one of this environment's random ids has this hash.
abbrev pub NewTokens : Platform → TokenManager → Env → Text → Type 0
NewTokens platform tm env h =
    (n : ℕ) (claims : Claims) (token : Text)
    → env.random_hex n ≡ some claims.token_id
    → platform.sign tm.refresh_secret claims ≡ some token
    → text_eq (platform.sha256_hex token) h ≡ false

filter-IsAbsent :
    (h : Text) (p : StoredRefreshToken → Bool) (ts : List StoredRefreshToken)
    → IsAbsent h ts
    → IsAbsent h (filter p ts)
filter-IsAbsent h p [] gone = refl
filter-IsAbsent h p (t ∷ ts) gone = ground (arith, filter-IsAbsent h p ts)

pub delete-IsAbsent :
    (h : Text) (ts : List StoredRefreshToken) → IsAbsent h (filter (λ t. not (has_hash h t)) ts)
delete-IsAbsent h [] = refl
delete-IsAbsent h (t ∷ ts) = elim (Bool-cases (has_hash h t)) [
  | inl e ↦ rw e (delete-IsAbsent h ts)
  | inr e ↦ rw (e, e) (delete-IsAbsent h ts)
]

pub find-IsAbsent :
    (h : Text) (ts : List StoredRefreshToken) → IsAbsent h ts → find (has_hash h) ts ≡ none
find-IsAbsent h [] gone = refl
find-IsAbsent h (t ∷ ts) gone = ground (arith, find-IsAbsent h ts)

module _ (h : Text) (env : Env) (never : NeverStored env h) where
  -- A statement on the users, or a query.
  Keeps-users :
      {A : Type 0} (run : Tables → Outcome Error A × Tables)
      → ((t : Tables) → (run t).1.refresh_tokens ≡ t.refresh_tokens)
      → Keeps (Gone h) (statement env run)
  Keeps-users run same =
      Keeps-statement db_failed env.db_fails env.others (IsGone h) never run
        (λ t gone. rw (same t) gone)

  Keeps-insert :
      (t : StoredRefreshToken)
      → has_hash h t ≡ false
      → Keeps (Gone h) (statement env (insert_token t))
  Keeps-insert t other =
      Keeps-statement db_failed env.db_fails env.others (IsGone h) never (insert_token t)
        (λ ts gone. ground arith)

  Keeps-delete : (x : Text) → Keeps (Gone h) (statement env (delete_token x))
  Keeps-delete x =
      Keeps-statement db_failed env.db_fails env.others (IsGone h) never (delete_token x)
        (λ ts gone. ground (arith, filter-IsAbsent h (λ t. not (has_hash x t)) ts.refresh_tokens))

  Keeps-expired : (now : ℕ) → Keeps (Gone h) (statement env (Repository.delete_expired now))
  Keeps-expired now =
      Keeps-statement db_failed env.db_fails env.others (IsGone h) never
        (Repository.delete_expired now)
        (λ ts gone.
          filter-IsAbsent h (λ t. not (Repository.is_expired now t)) ts.refresh_tokens gone)

  pub Keeps-ticking : Keeps {E = Error} (Gone h) step
  Keeps-ticking = Keeps-step (IsGone h)

  pub Keeps-reading :
      {A : Type 0} (f : Tables → Outcome Error A) → Keeps (Gone h) (statement env (reading f))
  Keeps-reading f = Keeps-users (reading f) (λ t. refl)

  Keeps-insert_user : (u : User) → Keeps (Gone h) (statement env (Repository.insert_user u))
  Keeps-insert_user u = Keeps-users (Repository.insert_user u) (λ t. ground arith)

  Keeps-promote :
      (emails : List Text) → Keeps (Gone h) (statement env (Repository.promote_all emails))
  Keeps-promote emails = Keeps-users (Repository.promote_all emails) (λ t. refl)

  pub Keeps-user_or : (e : Error) (o : Option User) → Keeps (Gone h) (Service.user_or e o)
  Keeps-user_or e none = Keeps-raise e
  Keeps-user_or e (some u) = Keeps-pure u

  Keeps-found_or :
      (o : Outcome Error StoredRefreshToken) → Keeps (Gone h) (Service.found_or_invalid o)
  Keeps-found_or (ok t) = Keeps-pure t
  Keeps-found_or (err e) = Keeps-raise (Service.as_invalid_token e)

  ruleset leaves = (
    keeping, Keeps-ticking, Keeps-reading, Keeps-insert_user, Keeps-promote, Keeps-delete,
    Keeps-expired, Keeps-user_or, Keeps-found_or,
  )

  module _ (platform : Platform) (tm : TokenManager) (new : NewTokens platform tm env h) where
    pub verify-Gone :
        (token : Text) → Keeps (Gone h) (Tokens.verify_refresh_token platform tm env token)
    unfolding Tokens.verify_refresh_token
    verify-Gone token = search leaves depth 12

    access-Gone :
        (id email : Text) (o : Bool)
        → Keeps (Gone h) (Tokens.generate_access_token platform tm env id email o)
    unfolding Tokens.generate_access_token
    access-Gone id email o = search leaves depth 12

    suffixes-Gone :
        (n : ℕ) (base : Text) → Keeps (Gone h) (Service.try_suffixes platform tm env n base)
    unfolding Service.try_suffixes Repository.slug_exists
    suffixes-Gone zero base = Keeps-raise _
    suffixes-Gone (suc n) base = Keeps-bind Keeps-ticking λ k.
        Keeps-bind (Keeps-or_raise (env.random_hex k) _) λ suffix.
          Keeps-bind (Keeps-reading _) λ taken. Keeps-if taken (suffixes-Gone n base) (Keeps-pure _)

    slug-Gone : (name : Text) → Keeps (Gone h) (Service.generate_unique_slug platform tm env name)
    unfolding Service.generate_unique_slug Repository.slug_exists
    slug-Gone name = search (leaves, suffixes-Gone) depth 20

    -- A token that is issued is a new one.
    refresh-IsNew :
        (id email : Text)
        → Triple
            (Gone h)
            (Tokens.generate_refresh_token platform tm env id email)
            (λ token w. (text_eq (platform.sha256_hex token) h ≡ false) × Gone h w)
            (λ _. Gone h)
    unfolding Tokens.generate_refresh_token Tokens.random_token_id
    refresh-IsNew id email =
        Triple-bind (λ token_id w. ((n : ℕ) × (env.random_hex n ≡ some token_id)) × Gone h w)
          (Triple-bind (λ _. Gone h) Keeps-ticking
            λ n.
              Triple-option (env.random_hex n) _ (λ w gone e. gone) (λ a w gone e. ((n, e), gone)))
          λ token_id.
            Triple-assume (λ w x. x.0)
              λ (n, drawn).
                Triple-from (λ w x. x.1)
                  (Triple-bind (λ _. Gone h) Keeps-ticking
                    λ k.
                      Triple-option _ _ (λ w gone e. gone)
                        (λ token w gone e. (new n _ token drawn e, gone)))

    pub issue-Gone : (u : User) → Keeps (Gone h) (Service.issue_tokens platform tm env u)
    unfolding Service.issue_tokens Repository.store_refresh_token Service.hash_refresh_token
    issue-Gone u = Keeps-bind (access-Gone u.id u.email u.is_operator) λ access.
        Triple-bind _ (refresh-IsNew u.id u.email) λ token.
          Triple-assume (λ w x. x.0)
            λ fresh.
              Triple-from (λ w x. x.1)
                (Keeps-bind Keeps-ticking λ k.
                  Keeps-bind (Keeps-bind Keeps-ticking λ n. Keeps-insert _ fresh)
                    λ stored. Keeps-pure _)

    pub register-Gone :
        (email password name : Text)
        → Keeps (Gone h) (Service.register platform tm env email password name)
    unfolding Service.register Repository.email_exists Repository.create
    register-Gone email password name = search (leaves, slug-Gone, issue-Gone) depth 40

    pub authenticate-Gone :
        (email password : Text)
        → Keeps (Gone h) (Service.authenticate platform tm env email password)
    unfolding Service.authenticate Repository.find_by_email
    authenticate-Gone email password = search (leaves, issue-Gone) depth 40

    pub refresh-Gone : (token : Text) → Keeps (Gone h) (Service.refresh_token platform tm env token)
    unfolding Service.refresh_token Repository.find_by_email Repository.find_refresh_token
        Repository.revoke_refresh_token
    refresh-Gone token = search (leaves, verify-Gone, issue-Gone) depth 40

    pub logout-Gone : (token : Text) → Keeps (Gone h) (Service.logout platform tm env token)
    unfolding Service.logout Repository.find_refresh_token Repository.revoke_refresh_token
    logout-Gone token = search (leaves, verify-Gone) depth 40

    pub me-Gone : (id : Text) → Keeps (Gone h) (Service.get_me platform tm env id)
    unfolding Service.get_me Repository.find_by_id
    me-Gone id = search leaves depth 20

    pub promote-Gone :
        (emails : List Text) → Keeps (Gone h) (Service.apply_operator_role platform tm env emails)
    unfolding Service.apply_operator_role Repository.promote_operators
    promote-Gone emails = search leaves depth 20

    pub cleanup-Gone : Keeps (Gone h) (Service.cleanup_expired_refresh_tokens platform tm env)
    unfolding Service.cleanup_expired_refresh_tokens Repository.cleanup_expired_refresh_tokens
    cleanup-Gone = search leaves depth 20
