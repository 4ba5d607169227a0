-- ===== src/Auth/Requests/WellFormed.antt =====
-- The invariant of the tables of accounts, through the operations of auth/service.go.
use ganji.Base.{
  ℕ, suc, zero, ◌≡◌, refl, Bool, true, false, Option, none, some, List, [], ◌∷◌, ◌++◌, all, Text,
  codes, is_empty, is_lower_alphanumeric, arith,
}
use ganji.Base.Action.{
  Outcome, ok, err, Post, Triple, Keeps, Triple-bind, Triple-if, Triple-pure, Triple-raise,
  Triple-or_raise, Triple-raise_if, Triple-assume, Triple-from, Keeps-pure, Keeps-raise,
  Keeps-raise_if, Keeps-or_raise, Keeps-bind, keeping,
}
use ganji.Auth.{
  db_failed, User, StoredRefreshToken, Error, Platform, TokenManager, Tables, World, Env, statement,
}
use ganji.Base.Database.{step, reading, IsStable, Keeps-statement, Keeps-step}
use ganji.Auth.Repository
use ganji.Auth.Repository.{
  has_id, insert_user, insert_token, delete_token, delete_expired, promote, promote_all,
}
use mathlib.Core.List.{append_assoc}
use ganji.Auth.Emails.{matches_email}
use ganji.Auth.Slugs.{hyphen}
use ganji.Auth.Slugs.Shape.{slug_from, IsSlug, slugify-IsSlug}
use ganji.Auth.Invariant.{
  IsWellFormed, promote_all-IsWellFormed, filter-IsWellFormed, insert_user-IsWellFormed,
  insert_token-IsWellFormed, delete_token-IsWellFormed,
}
use ganji.Auth.Tokens
use ganji.Auth.Service
use ganji.Auth.Requests.{Request, serve, serve_all}

-- The random bytes come in hex.
abbrev pub IsHex : Env → Type 0
IsHex env =
    (n : ℕ) (s : Text)
    → env.random_hex n ≡ some s
    → (is_empty s ≡ false) × (all is_lower_alphanumeric s ≡ true)

slug-append :
    (prev : Bool) (base rest : Text)
    → slug_from prev base ≡ true
    → slug_from true rest ≡ true
    → slug_from prev (base ++ hyphen ∷ rest) ≡ true
slug-append true [] rest h k = absurd (ground arith)
slug-append false [] rest h k = k
slug-append prev (c ∷ base) rest h k =
    ground (arith, slug-append true base rest, slug-append false base rest)

word-slug : (s : Text) → all is_lower_alphanumeric s ≡ true → slug_from false s ≡ true
word-slug [] h = refl
word-slug (c ∷ s) h = ground (arith, word-slug s)

hex-IsSlug : (s : Text) → is_empty s ≡ false → all is_lower_alphanumeric s ≡ true → IsSlug s
hex-IsSlug [] e h = absurd (ground arith)
hex-IsSlug (c ∷ s) e h = ground (arith, word-slug s)

suffixed-IsSlug :
    (base s : Text)
    → IsSlug base
    → (is_empty s ≡ false) × (all is_lower_alphanumeric s ≡ true)
    → IsSlug (base ++ codes "-" ++ s)
suffixed-IsSlug base s h (e, hex) =
    rw (append_assoc base (codes "-") s) (slug-append true base s h (hex-IsSlug s e hex))

abbrev Sound : World → Type 0
Sound w = IsWellFormed w.tables

module _ (env : Env) (stable : IsStable env.others IsWellFormed) where
  Keeps-run :
      {A : Type 0} (run : Tables → Outcome Error A × Tables)
      → ((t : Tables) → IsWellFormed t → IsWellFormed (run t).1)
      → Keeps Sound (statement env run)
  Keeps-run run kept =
      Keeps-statement db_failed env.db_fails env.others IsWellFormed stable run kept

  Keeps-reading :
      {A : Type 0} (f : Tables → Outcome Error A) → Keeps Sound (statement env (reading f))
  Keeps-reading f = Keeps-run (reading f) (λ t h. h)

  Keeps-insert : (x : StoredRefreshToken) → Keeps Sound (statement env (insert_token x))
  Keeps-insert x = Keeps-run (insert_token x) (insert_token-IsWellFormed x)

  Keeps-delete : (k : Text) → Keeps Sound (statement env (delete_token k))
  Keeps-delete k = Keeps-run (delete_token k) (delete_token-IsWellFormed k)

  Keeps-expired : (now : ℕ) → Keeps Sound (statement env (Repository.delete_expired now))
  Keeps-expired now = Keeps-run (Repository.delete_expired now) (filter-IsWellFormed _)

  Keeps-promote : (emails : List Text) → Keeps Sound (statement env (promote_all emails))
  Keeps-promote emails = Keeps-run (promote_all emails) (promote_all-IsWellFormed emails)

  Keeps-insert_user :
      (u : User)
      → matches_email u.email ≡ true
      → IsSlug u.slug
      → Keeps Sound (statement env (insert_user u))
  Keeps-insert_user u address shape =
      Keeps-run (insert_user u) (λ t h. insert_user-IsWellFormed u t address shape h)

  Keeps-ticking : Keeps {E = Error} Sound step
  Keeps-ticking = Keeps-step IsWellFormed

  Keeps-user_or : (e : Error) (o : Option User) → Keeps Sound (Service.user_or e o)
  Keeps-user_or e none = Keeps-raise e
  Keeps-user_or e (some u) = Keeps-pure u

  Keeps-found_or : (o : Outcome Error StoredRefreshToken) → Keeps Sound (Service.found_or_invalid o)
  Keeps-found_or (ok t) = Keeps-pure t
  Keeps-found_or (err e) = Keeps-raise (Service.as_invalid_token e)

  ruleset leaves = (
    keeping, Keeps-ticking, Keeps-reading, Keeps-insert, Keeps-promote, Keeps-delete, Keeps-expired,
    Keeps-user_or, Keeps-found_or,
  )

  module _ (platform : Platform) (tm : TokenManager) (hex : IsHex env) where
    verify-Sound : (token : Text) → Keeps Sound (Tokens.verify_refresh_token platform tm env token)
    unfolding Tokens.verify_refresh_token
    verify-Sound token = search leaves depth 12

    access-Sound :
        (id email : Text) (o : Bool)
        → Keeps Sound (Tokens.generate_access_token platform tm env id email o)
    unfolding Tokens.generate_access_token
    access-Sound id email o = search leaves depth 12

    refresh_token-Sound :
        (id email : Text) → Keeps Sound (Tokens.generate_refresh_token platform tm env id email)
    unfolding Tokens.generate_refresh_token Tokens.random_token_id
    refresh_token-Sound id email = search leaves depth 20

    issue-Sound : (u : User) → Keeps Sound (Service.issue_tokens platform tm env u)
    unfolding Service.issue_tokens Repository.store_refresh_token
    issue-Sound u = search (leaves, access-Sound, refresh_token-Sound) depth 30

    -- The slug found has the shape of a slug.
    abbrev Shaped : Text → World → Type 0
    Shaped slug w = IsSlug slug × Sound w

    suffixes-Shaped :
        (n : ℕ) (base : Text)
        → IsSlug base
        → Triple Sound (Service.try_suffixes platform tm env n base) Shaped (λ _. Sound)
    unfolding Service.try_suffixes Repository.slug_exists
    suffixes-Shaped zero base shape = Triple-raise _ (λ w h. h)
    suffixes-Shaped (suc n) base shape =
        Triple-bind (λ _. Sound) Keeps-ticking
          λ k.
            Triple-or_raise (env.random_hex k) _ _ (λ w h e. h)
              λ suffix drawn.
                Triple-bind (λ _. Sound) (Keeps-reading _)
                  λ taken.
                    Triple-if taken _ _ (λ t. suffixes-Shaped n base shape)
                      (λ f.
                        Triple-pure _
                          (λ w h. (suffixed-IsSlug base suffix shape (hex k suffix drawn), h)))

    slug-Shaped :
        (name : Text)
        → Triple Sound (Service.generate_unique_slug platform tm env name) Shaped (λ _. Sound)
    unfolding Service.generate_unique_slug Repository.slug_exists
    slug-Shaped name =
        Triple-bind (λ _. Sound) (Keeps-reading _)
          λ taken.
            Triple-if taken _ _ (λ t. suffixes-Shaped 5 _ (slugify-IsSlug platform.lower_rune name))
              (λ f. Triple-pure _ (λ w h. (slugify-IsSlug platform.lower_rune name, h)))

    register-Sound :
        (email password name : Text)
        → Keeps Sound (Service.register platform tm env email password name)
    unfolding Service.register Repository.email_exists Repository.create
    register-Sound email password name =
        Triple-raise_if _ _ _ (λ w h e. h)
          λ address. Keeps-bind (Keeps-raise_if _ _) λ _. Keeps-bind (Keeps-raise_if _ _) λ _.
            Keeps-bind (Keeps-raise_if _ _) λ _. Keeps-bind (Keeps-reading _) λ taken.
              Keeps-bind (Keeps-raise_if taken _) λ _. Triple-bind Shaped (slug-Shaped name) λ slug.
                Triple-assume (λ w x. x.0)
                  λ shape.
                    Triple-from (λ w x. x.1)
                      (Keeps-bind Keeps-ticking λ k. Keeps-bind (Keeps-or_raise _ _) λ hash.
                        Keeps-bind
                          (Keeps-bind Keeps-ticking λ n. Keeps-insert_user _ (ground arith) shape)
                          λ user. issue-Sound user)

    authenticate-Sound :
        (email password : Text) → Keeps Sound (Service.authenticate platform tm env email password)
    unfolding Service.authenticate Repository.find_by_email
    authenticate-Sound email password = search (leaves, issue-Sound) depth 40

    refresh-Sound : (token : Text) → Keeps Sound (Service.refresh_token platform tm env token)
    unfolding Service.refresh_token Repository.find_by_email Repository.find_refresh_token
        Repository.revoke_refresh_token
    refresh-Sound token = search (leaves, verify-Sound, issue-Sound) depth 40

    logout-Sound : (token : Text) → Keeps Sound (Service.logout platform tm env token)
    unfolding Service.logout Repository.find_refresh_token Repository.revoke_refresh_token
    logout-Sound token = search (leaves, verify-Sound) depth 40

    me-Sound : (id : Text) → Keeps Sound (Service.get_me platform tm env id)
    unfolding Service.get_me Repository.find_by_id
    me-Sound id = search leaves depth 20

    promote-Sound :
        (emails : List Text) → Keeps Sound (Service.apply_operator_role platform tm env emails)
    unfolding Service.apply_operator_role Repository.promote_operators
    promote-Sound emails = search leaves depth 20

    cleanup-Sound : Keeps Sound (Service.cleanup_expired_refresh_tokens platform tm env)
    unfolding Service.cleanup_expired_refresh_tokens Repository.cleanup_expired_refresh_tokens
    cleanup-Sound = search leaves depth 20

module _ (platform : Platform) (tm : TokenManager) where
  after : {A : Type 0} (o : Outcome Error A × World) → Post (λ _. Sound) (λ _. Sound) o → Sound o.1
  after (ok a, w) h = h
  after (err e, w) h = h

  serve-Sound :
      (env : Env)
      → IsStable env.others IsWellFormed
      → IsHex env
      → (r : Request) (w : World) → Sound w
      → Sound (serve platform tm env r w)
  unfolding serve
  serve-Sound env stable hex (Request.register email password name) w h =
      after _ ((register-Sound env stable platform tm hex email password name).at w h)
  serve-Sound env stable hex (Request.login email password) w h =
      after _ ((authenticate-Sound env stable platform tm hex email password).at w h)
  serve-Sound env stable hex (Request.refresh token) w h =
      after _ ((refresh-Sound env stable platform tm hex token).at w h)
  serve-Sound env stable hex (Request.logout token) w h =
      after _ ((logout-Sound env stable platform tm hex token).at w h)
  serve-Sound env stable hex (Request.me id) w h =
      after _ ((me-Sound env stable platform tm hex id).at w h)
  serve-Sound env stable hex (Request.promote emails) w h =
      after _ ((promote-Sound env stable platform tm hex emails).at w h)
  serve-Sound env stable hex Request.cleanup w h =
      after _ ((cleanup-Sound env stable platform tm hex).at w h)

  -- Each environment's other requests keep the tables well formed, and its random bytes come in hex.
  abbrev pub AllStable : List (Env × Request) → Type 0
  AllStable [] = Unit
  AllStable ((env, r) ∷ rest) = IsStable env.others IsWellFormed × IsHex env × AllStable rest

  -- Whatever requests are served one after the other, the tables stay well formed: emails, slugs and token
  -- hashes are unique, every email passes the test of addresses, every slug is words of a-z and 0-9 with single hyphens between them, and every token
  -- belongs to a user. Other requests are taken to keep this, and random bytes to come in hex.
  pub serve_all-IsWellFormed :
      (rs : List (Env × Request))
      → AllStable rs
      → (w : World) → IsWellFormed w.tables
      → IsWellFormed (serve_all platform tm rs w).tables
  unfolding serve_all
  serve_all-IsWellFormed [] h w wf = wf
  serve_all-IsWellFormed ((env, r) ∷ rest) (stable, hex, later) w wf =
      serve_all-IsWellFormed rest later (serve platform tm env r w)
        (serve-Sound env stable hex r w wf)
