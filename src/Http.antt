-- ===== src/Http.antt =====
-- What the HTTP handlers of backend/internal answer: a status code and a body, as gin writes them.
use ganji.Base.{ℕ, Bool, Option, List, Text, codes, String}
use ganji.Deals.Types.{PublicDeal, DealView, Artifact, Verification}
use ganji.Deals.World.{Error}

-- The caller that the access token names, as `AuthRequired` puts it in the context.
pub record Caller : Type 0 where
  pub user_id : Text
  pub email : Text
  pub is_operator : Bool

-- `gin.H` by its keys. `refusal` is `err.Error()` of an error that wraps this sentinel, `fixed_error` a text of
-- the handler's own.
pub data Body : Type 0 where
  refusal : Error → Body
  fixed_error : Text → Body
  message : Text → Body
  deal : Option Text → DealView → Body
  public_deal : Option Text → PublicDeal → Body
  deals disputes : List DealView → Body
  artifact : Artifact → Body
  artifacts : List Artifact → Body
  file : Artifact → ℕ → Body
  verification : Verification → Body
  verifications : List Verification → Body
  empty : Body

pub record Response : Type 0 where
  pub status : ℕ
  pub body : Body

abbrev pub respond : ℕ → Body → Response
respond status body = record { status = status; body = body }

abbrev pub refuse : ℕ → Error → Response
refuse status e = respond status (Body.refusal e)

abbrev pub fail : ℕ → String → Response
fail status text = respond status (Body.fixed_error (codes text))

abbrev pub internal_error : Response
internal_error = fail 500 "internal server error"
