-- ===== src/Auth/Requests/Replay.antt =====
-- Exchanges of a refresh token: `RefreshToken` and `Logout` of auth/service.go.
use ganji.Base.{inl, inr, ◌⊎◌, subst, ◌≡◌, Bool-cases, List, [], ◌∷◌, any, ltb, find, Text}
use ganji.Base.Action.{
  Outcome, ok, err, Post, Triple, Triple-bind, Triple-raise, Triple-try, Triple-if, Triple-weaken,
}
use ganji.Auth.{db_failed, AuthResponse, Error, Platform, TokenManager, Tables, World, Env, M}
use ganji.Base.Database.{reading, Triple-statement}
use ganji.Auth.Repository
use ganji.Auth.Repository.{has_hash, insert_token, delete_token, found_token}
use ganji.Auth.Service
use ganji.Auth.Requests.{Request, serve, serve_all}
use ganji.Auth.Requests.Gone.{
  IsGone, Gone, NeverStored, NewTokens, delete-IsAbsent, find-IsAbsent, verify-Gone, issue-Gone,
  register-Gone, authenticate-Gone, refresh-Gone, logout-Gone, me-Gone, promote-Gone, cleanup-Gone,
  Keeps-reading, Keeps-user_or,
}

abbrev Any : World → Type 0
Any w = Unit

free : {A : Type 0} (m : M A) → Triple Any m (λ _. Any) (λ _. Any)
free {A} m = record { at = λ w x. go (m w) }
  where
    go : (o : Outcome Error A × World) → Post (λ _. Any) (λ _. Any) o
    go (ok a, w) = tt
    go (err e, w) = tt

-- No state meets the precondition.
nowhere :
    {A : Type 0} (m : M A) (Q : A → World → Type 0) (F : Error → World → Type 0)
    → Triple (λ _. ⊥) m Q F
nowhere m Q F = record { at = λ w x. absurd x }

-- A deletion that succeeds leaves no token of the hash.
delete-Post : (h : Text) (t : Tables) → Post (λ _. IsGone h) (λ _ _. Unit {0}) (delete_token h t)
delete-Post h t = elim (Bool-cases (any (has_hash h) t.refresh_tokens)) [
  | inl e ↦ rw e (delete-IsAbsent h t.refresh_tokens)
  | inr e ↦ rw e tt
]

reading-Post :
    (h : Text) (t : Tables)
    → IsGone h t
    → Post
        (λ _ _. ⊥)
        (λ _. IsGone h)
        (reading (λ t. found_token (find (has_hash h) t.refresh_tokens)) t)
reading-Post h t gone = rw (find-IsAbsent h t.refresh_tokens gone) gone

module _ (platform : Platform) (tm : TokenManager) (token : Text) where
  abbrev hash : Text
  hash = platform.sha256_hex token

  -- What the theorem asks of an environment.
  pub record Fresh (env : Env) : Type 0 where
    pub never : NeverStored env hash
    pub new : NewTokens platform tm env hash

  revoke-spends :
      (env : Env)
      → Triple Any (Repository.revoke_refresh_token env hash) (λ _. Gone hash) (λ _. Any)
  unfolding Repository.revoke_refresh_token
  revoke-spends env =
      Triple-statement db_failed env.db_fails env.others (λ _. Unit {0}) (λ n t x. tt)
        (λ _. IsGone hash) (λ _ _. Unit {0}) (delete_token hash) (λ t x. tt)
        (λ t x. delete-Post hash t)

  refresh-spends :
      (env : Env)
      → Fresh env
      → Triple Any (Service.refresh_token platform tm env token) (λ _. Gone hash) (λ _. Any)
  unfolding Service.refresh_token Service.hash_refresh_token
  refresh-spends env fresh =
      Triple-bind (λ _. Any) (free _)
        λ claims.
          Triple-bind (λ _. Any) (free _)
            λ found.
              Triple-bind (λ _. Any) (free _)
                λ user.
                  Triple-bind (λ _. Any) (free _)
                    λ answer.
                      Triple-bind (λ _. Any) (free _)
                        λ stored.
                          Triple-bind (λ _. Any) (free _)
                            λ k.
                              Triple-if (ltb stored.expires_at (env.now k)) _ _
                                (λ past.
                                  Triple-bind (λ _. Gone hash) (revoke-spends env)
                                    λ x. Triple-raise _ (λ w gone. tt))
                                (λ valid.
                                  Triple-bind (λ _. Gone hash) (revoke-spends env)
                                    λ x.
                                      Triple-weaken
                                        (issue-Gone hash env fresh.never platform tm fresh.new user)
                                        (λ w gone. gone) (λ a w gone. gone) (λ e w gone. tt))

  find-fails :
      (env : Env)
      → NeverStored env hash
      → Triple (Gone hash) (Repository.find_refresh_token env hash) (λ _ _. ⊥) (λ _. Gone hash)
  unfolding Repository.find_refresh_token
  find-fails env never =
      Triple-statement db_failed env.db_fails env.others (IsGone hash) never (λ _ _. ⊥)
        (λ _. IsGone hash) _ (λ t gone. gone) (λ t gone. reading-Post hash t gone)

  refresh-fails :
      (env : Env)
      → Fresh env
      → Triple (Gone hash) (Service.refresh_token platform tm env token) (λ _ _. ⊥) (λ _. Gone hash)
  unfolding Service.refresh_token Service.hash_refresh_token Repository.find_by_email
  refresh-fails env fresh =
      Triple-bind (λ _. Gone hash) (verify-Gone hash env fresh.never platform tm fresh.new token)
        λ claims.
          Triple-bind (λ _. Gone hash) (Keeps-reading hash env fresh.never _)
            λ found.
              Triple-bind (λ _. Gone hash) (Keeps-user_or hash env fresh.never _ found)
                λ user.
                  Triple-try (λ _ _. ⊥) (λ _. Gone hash) _ (find-fails env fresh.never)
                    (λ t. nowhere _ _ _)
                    λ e.
                      Triple-bind (λ _ _. ⊥) (Triple-raise _ (λ w gone. gone))
                        λ stored. nowhere _ _ _

  logout-spends :
      (env : Env) → Triple Any (Service.logout platform tm env token) (λ _. Gone hash) (λ _. Any)
  unfolding Service.logout Service.hash_refresh_token
  logout-spends env =
      Triple-bind (λ _. Any) (free _)
        λ claims.
          Triple-bind (λ _. Any) (free _)
            λ answer. Triple-bind (λ _. Any) (free _) λ stored. revoke-spends env

  logout-fails :
      (env : Env)
      → Fresh env
      → Triple (Gone hash) (Service.logout platform tm env token) (λ _ _. ⊥) (λ _. Gone hash)
  unfolding Service.logout Service.hash_refresh_token
  logout-fails env fresh =
      Triple-bind (λ _. Gone hash) (verify-Gone hash env fresh.never platform tm fresh.new token)
        λ claims.
          Triple-try (λ _ _. ⊥) (λ _. Gone hash) _ (find-fails env fresh.never) (λ t. nowhere _ _ _)
            λ e. Triple-bind (λ _ _. ⊥) (Triple-raise _ (λ w gone. gone)) λ stored. nowhere _ _ _

  after :
      {A : Type 0} (o : Outcome Error A × World)
      → Post (λ _. Gone hash) (λ _. Gone hash) o
      → Gone hash o.1
  after (ok a, w) gone = gone
  after (err e, w) gone = gone

  serve-Gone :
      (env : Env)
      → Fresh env
      → (r : Request) (w : World) → Gone hash w
      → Gone hash (serve platform tm env r w)
  unfolding serve
  serve-Gone env fresh (Request.register email password name) w gone =
      after _
        ((register-Gone hash env fresh.never platform tm fresh.new email password name).at w gone)
  serve-Gone env fresh (Request.login email password) w gone =
      after _
        ((authenticate-Gone hash env fresh.never platform tm fresh.new email password).at w gone)
  serve-Gone env fresh (Request.refresh other) w gone =
      after _ ((refresh-Gone hash env fresh.never platform tm fresh.new other).at w gone)
  serve-Gone env fresh (Request.logout other) w gone =
      after _ ((logout-Gone hash env fresh.never platform tm fresh.new other).at w gone)
  serve-Gone env fresh (Request.me id) w gone =
      after _ ((me-Gone hash env fresh.never platform tm fresh.new id).at w gone)
  serve-Gone env fresh (Request.promote emails) w gone =
      after _ ((promote-Gone hash env fresh.never platform tm fresh.new emails).at w gone)
  serve-Gone env fresh Request.cleanup w gone =
      after _ ((cleanup-Gone hash env fresh.never platform tm fresh.new).at w gone)

  abbrev AllFresh : List (Env × Request) → Type 0
  AllFresh [] = Unit
  AllFresh ((env, r) ∷ rest) = Fresh env × AllFresh rest

  serve_all-Gone :
      (rs : List (Env × Request))
      → AllFresh rs
      → (w : World) → Gone hash w
      → Gone hash (serve_all platform tm rs w)
  unfolding serve_all
  serve_all-Gone [] fresh w gone = gone
  serve_all-Gone ((env, r) ∷ rest) (fresh, later) w gone =
      serve_all-Gone rest later (serve platform tm env r w) (serve-Gone env fresh r w gone)

  abbrev pub Fails : {A : Type 0} → Outcome Error A → Type 0
  Fails (ok a) = ⊥
  Fails (err e) = Unit

  fails :
      {A : Type 0} (o : Outcome Error A × World) → Post (λ _ _. ⊥) (λ _. Gone hash) o → Fails o.0
  fails (ok a, w) x = x
  fails (err e, w) x = tt

  -- The token was exchanged, or used to log out, and `w'` is what is left.
  abbrev Spent : Env → World → World → Type 0
  Spent env w w' =
      ((a : AuthResponse) × (Service.refresh_token platform tm env token w ≡ (ok a, w')))
      ⊎ (Service.logout platform tm env token w ≡ (ok tt, w'))

  spent-Gone : (env : Env) → Fresh env → (w w' : World) → Spent env w w' → Gone hash w'
  spent-Gone env fresh w w' (inl (a, e)) =
      subst (Post (λ _. Gone hash) (λ _. Any)) e ((refresh-spends env fresh).at w tt)
  spent-Gone env fresh w w' (inr e) =
      subst (Post (λ _. Gone hash) (λ _. Any)) e ((logout-spends env).at w tt)

  -- Once a refresh token was exchanged, or used to log out, it is refused: whatever requests are served
  -- afterwards, exchanging it or logging out with it fails. Asked of each environment: other requests do not
  -- store a token of its hash, and no token signed over one of the environment's random ids has its hash.
  pub refresh_token_single_use :
      (env : Env)
      → Fresh env
      → (w w' : World) → Spent env w w'
      → (rs : List (Env × Request)) → AllFresh rs
      → (last : Env) → Fresh last
      → Fails (Service.refresh_token platform tm last token (serve_all platform tm rs w')).0
        × Fails (Service.logout platform tm last token (serve_all platform tm rs w')).0
  refresh_token_single_use env fresh w w' used rs later last new =
      let gone = serve_all-Gone rs later w' (spent-Gone env fresh w w' used) in
      (
        fails _ ((refresh-fails last new).at (serve_all platform tm rs w') gone),
        fails _ ((logout-fails last new).at (serve_all platform tm rs w') gone),
      )
