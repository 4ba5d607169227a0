-- ===== src/Router/Parties.antt =====
-- The deals in the answers of the routes.
pub mod Handled
pub mod Served
use ganji.Base.{
  ℕ, ◌≡◌, ◌≢◌, refl, ◌∙◌, ap, Bool, true, false, ◌||◌, Option, none, some, List, [], ◌∷◌, All, Text,
  text_eq, equal_fold, is_empty, inl, inr, arith, Bool-cases, Option-cases,
}
use ganji.Deals.Types.{Deal, DealView, ArtifactKind, view, deals_view}
use ganji.Deals.World.{Error, Result, ok, err, World, Env, Config, M, pure, ◌>>=◌, try}
use ganji.Deals.Contract.Free.{OnOk}
use ganji.Deals.Access.{get_deal_by_id-is_party, rotate_share_link_owner, dispute_deal_client}
use ganji.Deals.Parties.{
  HasParty, create-HasParty, submit-HasParty, invoice-HasParty, check-HasParty, list-HasParty,
}
use ganji.Deals.Handlers
use ganji.Deals.Handlers.{answer, answered}
use ganji.Deals.Handlers.Uploads
use ganji.Deals.Handlers.Uploads.{Part, kind_field}
use ganji.Deals.Handlers.Records
use ganji.Auth.{Claims, Platform, TokenManager}
use ganji.Auth
use ganji.Http.{Caller, Body, Response, respond}
use ganji.Middleware.{caller_of}
use ganji.Router.{Route, Gate, gate_of, handle, serve}
use ganji.Router.Gates.{IsStop, IsAdmitted, Bears, serve-IsGated, Bears-unique}
use ganji.Router.Errors

-- The deals that a body shows with their private columns.
abbrev pub shown : Body → List DealView
shown (Body.deal message d) = d ∷ []
shown (Body.deals ds) = ds
shown (Body.disputes ds) = ds
shown _ = []

module _ (env : Env) where
  abbrev IsPartyOf : Text → Text → DealView → Type 0
  IsPartyOf user email v =
      (text_eq v.freelancer_id user || equal_fold env.fold_rune v.client_email email) ≡ true

  abbrev pub IsOwn : Text → Text → Response → Type 0
  IsOwn user email r = All (IsPartyOf user email) (shown r.body)

  pub fail-IsOwn :
      (user email : Text) (status : ℕ) (body : Body)
      → (Errors.is_failure status body ≡ true)
      → All (IsPartyOf user email) (shown body)
  fail-IsOwn user email status (Body.refusal e) h = tt
  fail-IsOwn user email status (Body.fixed_error text) h = tt
  fail-IsOwn user email status _ h = absurd (ground arith)

  pub view-IsPartyOf :
      (user email : Text) (d : Deal) → HasParty env user email d → IsPartyOf user email (view d)
  unfolding view
  view-IsPartyOf user email d h = h

  pub views-IsPartyOf :
      (user email : Text) (ds : List Deal)
      → All (HasParty env user email) ds
      → All (IsPartyOf user email) (deals_view ds)
  unfolding view deals_view
  views-IsPartyOf user email [] h = tt
  views-IsPartyOf user email (d ∷ ds) (p, h) = (p, views-IsPartyOf user email ds h)

  pub answer-IsOwn :
      {A : Type 0} (user email : Text) (P : A → Type 0) (failed : Error → Response)
      (done : A → Response) (m : M A)
      → ((e : Error) → Errors.IsFailure (failed e))
      → ((a : A) → P a → IsOwn user email (done a))
      → (w : World) → OnOk P (m w).0
      → Errors.Answers (IsOwn user email) (answer failed done m w).0
  unfolding ◌>>=◌ try pure
  answer-IsOwn {A} user email P failed done m f g w = go (m w)
    where
      go : (o : Result A × World) → OnOk P o.0 → IsOwn user email (answered failed done o.0)
      go (ok a, w) p = g a p
      go (err e, w) p = fail-IsOwn user email (failed e).status (failed e).body (f e)
