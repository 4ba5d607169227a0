-- ===== src/Router/Errors.antt =====
-- What the answers of the routes say of errors.
pub mod Refusals
pub mod Served
use ganji.Base.{
  ℕ, ◌≡◌, refl, Bool, true, false, Option, none, some, List, [], ◌∷◌, Text, leb, ltb, ◌==◌,
  is_empty, inl, inr, arith, Bool-cases, Option-cases,
}
use ganji.Deals.Types.{ArtifactKind}
use ganji.Deals.World.{
  Error, invalid_input, forbidden, deal_not_found, artifact_not_found, verification_not_found,
  invalid_transition, no_checking_id, payout_in_flight, Result, ok, err, World, Env, Config, M,
  pure, ◌>>=◌, try,
}
use ganji.Deals.Handlers
use ganji.Deals.Handlers.{
  answer, refuse_creation, refuse_reading, refuse_listing, refuse_change, refuse_payment,
  refuse_reconcile, refuse_link,
}
use ganji.Deals.Handlers.Uploads
use ganji.Deals.Handlers.Uploads.{Part, kind_field}
use ganji.Deals.Handlers.Records
use ganji.Deals.Handlers.Records.{refuse_artifact, refuse_deletion, refuse_verification}
use ganji.Auth.{Platform, TokenManager}
use ganji.Auth
use ganji.Http.{Caller, Body, Response}
use ganji.Router.Gates.{IsStop, serve-IsGated}
use ganji.Router.{Route, handle, serve}

-- The status code of an error that callers may see; an error of the database, LNbits, the storage or the random
-- source has none.
abbrev code_of : Error → Option ℕ
code_of invalid_input = some 400
code_of invalid_transition = some 400
code_of no_checking_id = some 400
code_of forbidden = some 403
code_of deal_not_found = some 404
code_of artifact_not_found = some 404
code_of verification_not_found = some 404
code_of payout_in_flight = some 409
code_of _ = none

abbrev is_code : ℕ → Option ℕ → Bool
is_code status none = false
is_code status (some code) = status == code

-- A shown error has its status code, another error text a code from 400 on, an answer without one a code below.
abbrev is_proper : ℕ → Body → Bool
is_proper status (Body.refusal e) = is_code status (code_of e)
is_proper status (Body.fixed_error text) = leb 400 status
is_proper status _ = ltb status 300

-- An answer that is an error.
abbrev pub is_failure : ℕ → Body → Bool
is_failure status (Body.refusal e) = is_code status (code_of e)
is_failure status (Body.fixed_error text) = leb 400 status
is_failure status _ = false

abbrev pub IsFailure : Response → Type 0
IsFailure r = is_failure r.status r.body ≡ true

abbrev pub IsProper : Response → Type 0
IsProper r = is_proper r.status r.body ≡ true

IsFailure-IsProper :
    (status : ℕ) (body : Body) → (is_failure status body ≡ true) → is_proper status body ≡ true
IsFailure-IsProper status (Body.refusal e) h = h
IsFailure-IsProper status (Body.fixed_error text) h = h
IsFailure-IsProper status _ h = absurd (ground arith)

-- An action that never fails.
abbrev pub Answers : (Response → Type 0) → Result Response → Type 0
Answers P (ok r) = P r
Answers P (err e) = ⊥

pub answer-Answers :
    {A : Type 0} (P : Response → Type 0) (failed : Error → Response) (done : A → Response) (m : M A)
    → ((e : Error) → P (failed e))
    → ((a : A) → P (done a))
    → (w : World) → Answers P (answer failed done m w).0
unfolding ◌>>=◌ try pure
answer-Answers {A} P failed done m f g w = go (m w)
  where
    go : (o : Result A × World) → P (Handlers.answered failed done o.0)
    go (ok a, w) = g a
    go (err e, w) = f e

-- An answer whose errors and results are proper.
pub answer-IsProper :
    {A : Type 0} (failed : Error → Response) (done : A → Response) (m : M A)
    → ((e : Error) → IsFailure (failed e))
    → ((a : A) → IsProper (done a))
    → (w : World) → Answers IsProper (answer failed done m w).0
answer-IsProper failed done m f g w =
    answer-Answers IsProper failed done m
      (λ e. IsFailure-IsProper (failed e).status (failed e).body (f e)) g w
