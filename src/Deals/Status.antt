-- ===== src/Deals/Status.antt =====
-- Deal statuses and the transition table (backend/internal/deals/types.go).
pub mod Chains
use native.Mathlib.Decide.{ℕ_discrete}
use ganji.Base.{
  Bool, true, false, Option, none, some, List, [], ◌∷◌, Text, Text-discrete, ite, any, ◌≡◌,
}

-- A `Status` is a string; `other` is any string that is none of the seven constants.
pub data Status : Type 0 where
  awaiting_payment locked work_submitted reviewing released disputed refunded : Status
  other : Text → Status

unfoldable pub Status-discrete : Discrete Status
unfolding Text-discrete
Status-discrete = hlevel Text-discrete

abbrev pub status_eq : Status → Status → Bool
status_eq a b = ite (Status-discrete a b) true false

-- `ValidTransitions`; `none` is a key that the map lacks.
unfoldable valid_transitions : Status → Option (List Status)
valid_transitions awaiting_payment = some (locked ∷ work_submitted ∷ refunded ∷ [])
valid_transitions locked = some (work_submitted ∷ disputed ∷ [])
valid_transitions work_submitted = some (reviewing ∷ released ∷ disputed ∷ [])
valid_transitions reviewing = some (released ∷ disputed ∷ [])
valid_transitions disputed = some (released ∷ refunded ∷ [])
valid_transitions released = some []
valid_transitions refunded = some []
valid_transitions (other s) = none

unfoldable pub can_transition : Status → Status → Bool
unfolding valid_transitions
can_transition from to = elim (valid_transitions from) [
  | none ↦ false
  | some allowed ↦ any (λ s. status_eq s to) allowed
]
