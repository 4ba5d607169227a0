-- ===== src/Router/Errors/Refusals.antt =====
-- The switches on the errors of the handlers.
use ganji.Base.{refl}
use ganji.Deals.World.{
  Error, invalid_input, forbidden, deal_not_found, artifact_not_found, verification_not_found,
  invalid_transition, no_checking_id, payout_in_flight,
}
use ganji.Deals.Handlers.{
  refuse_creation, refuse_reading, refuse_listing, refuse_change, refuse_payment, refuse_reconcile,
  refuse_link,
}
use ganji.Deals.Handlers.Records.{refuse_artifact, refuse_deletion, refuse_verification}
use ganji.Router.Errors.{IsFailure}

pub refuse_creation-IsFailure : (e : Error) → IsFailure (refuse_creation e)
unfolding refuse_creation
refuse_creation-IsFailure invalid_input = refl
refuse_creation-IsFailure _ = refl

pub refuse_reading-IsFailure : (e : Error) → IsFailure (refuse_reading e)
unfolding refuse_reading
refuse_reading-IsFailure invalid_input = refl
refuse_reading-IsFailure forbidden = refl
refuse_reading-IsFailure deal_not_found = refl
refuse_reading-IsFailure _ = refl

pub refuse_listing-IsFailure : (e : Error) → IsFailure (refuse_listing e)
unfolding refuse_listing
refuse_listing-IsFailure invalid_input = refl
refuse_listing-IsFailure _ = refl

pub refuse_change-IsFailure : (e : Error) → IsFailure (refuse_change e)
unfolding refuse_change
refuse_change-IsFailure invalid_input = refl
refuse_change-IsFailure invalid_transition = refl
refuse_change-IsFailure forbidden = refl
refuse_change-IsFailure deal_not_found = refl
refuse_change-IsFailure _ = refl

pub refuse_payment-IsFailure : (e : Error) → IsFailure (refuse_payment e)
unfolding refuse_payment
refuse_payment-IsFailure forbidden = refl
refuse_payment-IsFailure deal_not_found = refl
refuse_payment-IsFailure no_checking_id = refl
refuse_payment-IsFailure _ = refl

pub refuse_reconcile-IsFailure : (e : Error) → IsFailure (refuse_reconcile e)
unfolding refuse_reconcile refuse_change
refuse_reconcile-IsFailure payout_in_flight = refl
refuse_reconcile-IsFailure invalid_input = refl
refuse_reconcile-IsFailure invalid_transition = refl
refuse_reconcile-IsFailure forbidden = refl
refuse_reconcile-IsFailure deal_not_found = refl
refuse_reconcile-IsFailure _ = refl

pub refuse_link-IsFailure : (e : Error) → IsFailure (refuse_link e)
unfolding refuse_link
refuse_link-IsFailure invalid_input = refl
refuse_link-IsFailure deal_not_found = refl
refuse_link-IsFailure _ = refl

pub refuse_artifact-IsFailure : (e : Error) → IsFailure (refuse_artifact e)
unfolding refuse_artifact
refuse_artifact-IsFailure invalid_input = refl
refuse_artifact-IsFailure forbidden = refl
refuse_artifact-IsFailure artifact_not_found = refl
refuse_artifact-IsFailure _ = refl

pub refuse_deletion-IsFailure : (e : Error) → IsFailure (refuse_deletion e)
unfolding refuse_deletion refuse_artifact
refuse_deletion-IsFailure deal_not_found = refl
refuse_deletion-IsFailure invalid_input = refl
refuse_deletion-IsFailure forbidden = refl
refuse_deletion-IsFailure artifact_not_found = refl
refuse_deletion-IsFailure _ = refl

pub refuse_verification-IsFailure : (e : Error) → IsFailure (refuse_verification e)
unfolding refuse_verification
refuse_verification-IsFailure invalid_input = refl
refuse_verification-IsFailure forbidden = refl
refuse_verification-IsFailure verification_not_found = refl
refuse_verification-IsFailure _ = refl
