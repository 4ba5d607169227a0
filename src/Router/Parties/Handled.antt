-- ===== src/Router/Parties/Handled.antt =====
-- The deals in the answers of the handlers, route by route.
use ganji.Base.{
  ℕ, ◌≡◌, ◌≢◌, refl, Bool, true, false, Option, none, some, List, [], ◌∷◌, All, Text, text_eq,
  equal_fold, is_empty, inl, inr, arith, Bool-cases, Option-cases,
}
use ganji.Deals.Types.{Deal, ArtifactKind, view}
use ganji.Deals.World.{Error, Result, ok, err, World, Env, Config, M, pure}
use ganji.Deals.Contract.Free.{OnOk}
use ganji.Deals.Access.{get_deal_by_id-is_party, rotate_share_link_owner, dispute_deal_client}
use ganji.Deals.Parties.{
  HasParty, create-HasParty, submit-HasParty, invoice-HasParty, check-HasParty, list-HasParty,
}
use ganji.Deals.Handlers
use ganji.Deals.Handlers.{answer, answered}
use ganji.Deals.Handlers.Uploads
use ganji.Deals.Handlers.Uploads.{Part, kind_field}
use ganji.Deals.Handlers.Records
use ganji.Http.{Caller, Body, Response, respond}
use ganji.Router.{Route, Gate, gate_of, handle}
use ganji.Router.Errors
use ganji.Router.Errors.Refusals
use ganji.Router.Parties.{IsOwn, fail-IsOwn, view-IsPartyOf, views-IsPartyOf, answer-IsOwn}

-- The client's approval, which returns the row as it stands after the payout.
abbrev pub is_approval : Route → Bool
is_approval (Route.approve_deal id) = true
is_approval _ = false

module _ (env : Env) (cfg : Config) where
  abbrev OwnAnswer : Caller → Result Response → Type 0
  OwnAnswer caller r = Errors.Answers (IsOwn env caller.user_id caller.email) r

  -- An answer that shows no deal.
  plain :
      (caller : Caller) {A : Type 0} (failed : Error → Response) (done : A → Response) (m : M A)
      → ((e : Error) → Errors.IsFailure (failed e))
      → ((a : A) → IsOwn env caller.user_id caller.email (done a))
      → (w : World) → OwnAnswer caller (answer failed done m w).0
  plain caller failed done m f g w =
      Errors.answer-Answers (IsOwn env caller.user_id caller.email) failed done m
        (λ e. fail-IsOwn env caller.user_id caller.email (failed e).status (failed e).body (f e)) g
        w

  upload_part-IsOwn :
      (caller : Caller) (id : Text) (known : Option ArtifactKind) (filename : Text) (size : ℕ)
      (w : World)
      → OwnAnswer caller (Uploads.upload_part env cfg caller id known filename size w).0
  unfolding Uploads.upload_part pure
  upload_part-IsOwn caller id none filename size w = elim (Bool-cases (is_empty filename)) [
    | inl e ↦ rw e tt
    | inr e ↦ rw e tt
  ]
  upload_part-IsOwn caller id (some kind) filename size w = elim (Bool-cases (is_empty filename)) [
    | inl e ↦ rw e tt
    | inr e ↦ rw e (plain caller _ _ _ Refusals.refuse_reading-IsFailure (λ _. tt) w)
  ]

  read_parts-IsOwn :
      (caller : Caller) (id : Text) (known : Option ArtifactKind) (parts : List Part) (w : World)
      → OwnAnswer caller (Uploads.read_parts env cfg caller id known parts w).0
  unfolding Uploads.read_parts pure
  read_parts-IsOwn caller id known [] w = tt
  read_parts-IsOwn caller id known (Part.too_large ∷ rest) w = tt
  read_parts-IsOwn caller id known (Part.malformed ∷ rest) w = tt
  read_parts-IsOwn caller id known (Part.kind_part field ∷ rest) w =
      elim (Option-cases (kind_field field)) [
        | inl e ↦ rw (e, OwnAnswer, Errors.Answers) tt
        | inr (kind, e) ↦
            rw (e, OwnAnswer, Errors.Answers) (read_parts-IsOwn caller id (some kind) rest w)
      ]
  read_parts-IsOwn caller id known (Part.file_part filename size ∷ rest) w =
      upload_part-IsOwn caller id known filename size w
  read_parts-IsOwn caller id known (Part.another ∷ rest) w = read_parts-IsOwn caller id known rest w

  text_eq_refl : (a : Text) → text_eq a a ≡ true
  text_eq_refl a = ground arith

  OnOk-imp :
      {A : Type 0} (P Q : A → Type 0) (r : Result A) → OnOk P r → ((a : A) → P a → Q a) → OnOk Q r
  OnOk-imp P Q (ok a) h f = f a h
  OnOk-imp P Q (err e) h f = tt

  freelancer-HasParty :
      (d : Deal) (caller : Caller)
      → (d.freelancer_id ≡ caller.user_id)
      → HasParty env caller.user_id caller.email d
  freelancer-HasParty d caller e = ground arith

  client-HasParty :
      (d : Deal) (caller : Caller)
      → (equal_fold env.fold_rune d.client_email caller.email ≡ true)
      → HasParty env caller.user_id caller.email d
  client-HasParty d caller e = ground arith

  -- An answer that shows a deal of the caller's.
  own :
      (caller : Caller) (status : ℕ) (message : Option Text) (failed : Error → Response)
      (m : M Deal)
      → ((e : Error) → Errors.IsFailure (failed e))
      → (w : World) → OnOk (HasParty env caller.user_id caller.email) (m w).0
      → OwnAnswer caller (answer failed (λ d. respond status (Body.deal message (view d))) m w).0
  own caller status message failed m f w h =
      answer-IsOwn env caller.user_id caller.email (HasParty env caller.user_id caller.email) failed
        _ m f (λ d p. (view-IsPartyOf env caller.user_id caller.email d p, tt)) w h

  pub handle-IsOwn :
      (caller : Caller) (route : Route)
      → (gate_of route ≢ Gate.operator)
      → (is_approval route ≡ false)
      → (w : World) → OwnAnswer caller (handle env cfg caller route w).0
  unfolding gate_of handle Handlers.create_deal Handlers.list_deals Handlers.get_deal_by_id
      Handlers.check_payment Handlers.submit_work Handlers.rotate_share_link
      Handlers.update_deal_status Handlers.dispute_deal Handlers.update_payee_invoice
      Handlers.get_public_deal Handlers.public_approve_deal Uploads.create_artifact
      Records.list_artifacts_by_deal Records.get_artifact_by_id Records.download_artifact
      Records.delete_artifact Records.create_verification Records.list_verifications_by_artifact
      Records.get_verification_by_id pure
  handle-IsOwn caller (Route.create_deal none) n h w = tt
  handle-IsOwn caller (Route.create_deal (some req)) n h w =
      own caller _ _ _ _ Refusals.refuse_creation-IsFailure w
        (create-HasParty env caller.user_id caller.email cfg _ (text_eq_refl caller.user_id) w)
  handle-IsOwn caller Route.list_deals n h w =
      answer-IsOwn env caller.user_id caller.email (All (HasParty env caller.user_id caller.email))
        _ _ _ Refusals.refuse_listing-IsFailure (views-IsPartyOf env caller.user_id caller.email) w
        (list-HasParty env caller.user_id caller.email cfg w)
  handle-IsOwn caller (Route.get_deal_by_id id) n h w =
      own caller _ _ _ _ Refusals.refuse_reading-IsFailure w
        (get_deal_by_id-is_party env cfg id caller.user_id caller.email w)
  handle-IsOwn caller (Route.check_payment id) n h w =
      own caller _ _ _ _ Refusals.refuse_payment-IsFailure w
        (check-HasParty env caller.user_id caller.email cfg id w)
  handle-IsOwn caller (Route.submit_work id) n h w =
      own caller _ _ _ _ Refusals.refuse_change-IsFailure w
        (submit-HasParty env caller.user_id caller.email cfg id w)
  handle-IsOwn caller (Route.approve_deal id) n h w = absurd (ground arith)
  handle-IsOwn caller (Route.rotate_share_link id) n h w =
      own caller _ _ _ _ Refusals.refuse_change-IsFailure w (
        OnOk-imp _ _ _ (rotate_share_link_owner env cfg caller.user_id id w)
          (λ d p. freelancer-HasParty d caller p.0))
  handle-IsOwn caller (Route.update_deal_status id none) n h w = tt
  handle-IsOwn caller (Route.update_deal_status id (some s)) n h w =
      plain caller _ _ _ Refusals.refuse_change-IsFailure (λ _. tt) w
  handle-IsOwn caller (Route.dispute_deal id none) n h w = tt
  handle-IsOwn caller (Route.dispute_deal id (some reason)) n h w =
      own caller _ _ _ _ Refusals.refuse_change-IsFailure w (
        OnOk-imp _ _ _ (dispute_deal_client env cfg caller.email id reason w)
          (λ d p. client-HasParty d caller p.0))
  handle-IsOwn caller (Route.update_payee_invoice id none) n h w = tt
  handle-IsOwn caller (Route.update_payee_invoice id (some invoice)) n h w =
      own caller _ _ _ _ Refusals.refuse_change-IsFailure w
        (invoice-HasParty env caller.user_id caller.email cfg id invoice w)
  handle-IsOwn caller (Route.get_public_deal token) n h w =
      plain caller _ _ _ Refusals.refuse_link-IsFailure (λ _. tt) w
  handle-IsOwn caller (Route.public_approve_deal token) n h w =
      plain caller _ _ _ Refusals.refuse_change-IsFailure (λ _. tt) w
  handle-IsOwn caller (Route.create_artifact id none) n h w = tt
  handle-IsOwn caller (Route.create_artifact id (some parts)) n h w =
      read_parts-IsOwn caller id none parts w
  handle-IsOwn caller (Route.list_artifacts_by_deal id) n h w =
      plain caller _ _ _ Refusals.refuse_reading-IsFailure (λ _. tt) w
  handle-IsOwn caller (Route.get_artifact_by_id id a) n h w =
      plain caller _ _ _ Refusals.refuse_artifact-IsFailure (λ _. tt) w
  handle-IsOwn caller (Route.download_artifact id a) n h w =
      plain caller _ _ _ Refusals.refuse_artifact-IsFailure (λ _. tt) w
  handle-IsOwn caller (Route.delete_artifact id a) n h w =
      plain caller _ _ _ Refusals.refuse_deletion-IsFailure (λ _. tt) w
  handle-IsOwn caller (Route.create_verification a none) n h w = tt
  handle-IsOwn caller (Route.create_verification a (some req)) n h w =
      plain caller _ _ _ Refusals.refuse_artifact-IsFailure (λ _. tt) w
  handle-IsOwn caller (Route.list_verifications_by_artifact a) n h w =
      plain caller _ _ _ Refusals.refuse_artifact-IsFailure (λ _. tt) w
  handle-IsOwn caller (Route.get_verification_by_id id a v) n h w =
      plain caller _ _ _ Refusals.refuse_verification-IsFailure (λ _. tt) w
  handle-IsOwn caller Route.list_disputes n h w = absurd (n refl)
  handle-IsOwn caller (Route.resolve_dispute id r) n h w = absurd (n refl)
  handle-IsOwn caller (Route.reconcile_deal id r) n h w = absurd (n refl)
