-- ===== src/Cv/Requests/Due.antt =====
-- The artifacts that `healAnchors` of cv/service.go looks at.
use ganji.Base.{
  ◌≡◌, refl, ◌∙◌, subst, inl, inr, ◌⊎◌, Bool, true, Bool-cases, List, [], ◌∷◌, any, All, Text,
  text_eq, arith,
}
use ganji.Base.Distinct.{All-imp}
use ganji.Cv.{Anchor, AnchorCandidate, Tables}
use ganji.Cv.Repository.{has_artifact, insert_anchor_row}

abbrev pub HasAnchor : Text → Tables → Type 0
HasAnchor x w = any (has_artifact x) w.anchors ≡ true

abbrev pub is_of : Text → AnchorCandidate → Bool
is_of x c = text_eq c.artifact_id x

-- The deals and artifacts are those of `t`.
abbrev pub Fixed : Tables → Tables → Type 0
Fixed t w = (w.deals ≡ t.deals) × (w.artifacts ≡ t.artifacts)

-- The artifact has an anchor already, or is one of those to come.
abbrev pub IsDue : List AnchorCandidate → Tables → Text → Type 0
IsDue cs w x = HasAnchor x w ⊎ (any (is_of x) cs ≡ true)

abbrev pub Due : Tables → List Text → List AnchorCandidate → Tables → Type 0
Due t xs cs w = Fixed t w × All (IsDue cs w) xs

abbrev pub Done : Tables → List Text → Tables → Type 0
Done t xs w = Fixed t w × All (λ x. HasAnchor x w) xs

pub text_eq-eq : (a b : Text) → text_eq a b ≡ true → a ≡ b
text_eq-eq a b e = ground arith

pub text_eq_refl : (a : Text) → text_eq a a ≡ true
text_eq_refl a = ground arith

-- The anchor of `c` is there after its row was inserted.
pub insert-HasAnchor :
    (row : Anchor) (w : Tables) → HasAnchor row.artifact_id (insert_anchor_row row w).1
insert-HasAnchor row w = elim (Bool-cases (any (has_artifact row.artifact_id) w.anchors)) [
  | inl e ↦ rw (e, e) refl
  | inr e ↦ rw (e, text_eq_refl row.artifact_id) refl
]

pub insert-Fixed :
    (t : Tables) (row : Anchor) (w : Tables) → Fixed t w → Fixed t (insert_anchor_row row w).1
insert-Fixed t row w f = elim (Bool-cases (any (has_artifact row.artifact_id) w.anchors)) [
  | inl e ↦ rw e f
  | inr e ↦ rw e f
]

pub insert-stays :
    (x : Text) (row : Anchor) (w : Tables) → HasAnchor x w → HasAnchor x (insert_anchor_row row w).1
insert-stays x row w h = elim (Bool-cases (any (has_artifact row.artifact_id) w.anchors)) [
  | inl e ↦ rw e h
  | inr e ↦ rw (e, h) (ground arith)
]

pub insert-IsDue :
    (c : AnchorCandidate) (cs : List AnchorCandidate) (row : Anchor) (w : Tables) (x : Text)
    → row.artifact_id ≡ c.artifact_id
    → IsDue (c ∷ cs) w x
    → IsDue cs (insert_anchor_row row w).1 x
insert-IsDue c cs row w x same (inl h) = inl (insert-stays x row w h)
insert-IsDue c cs row w x same (inr h) = elim (Bool-cases (is_of x c)) [
  | inl e ↦ inl (
      subst (λ k. HasAnchor k (insert_anchor_row row w).1) (same ∙ text_eq-eq c.artifact_id x e)
        (insert-HasAnchor row w))
  | inr e ↦ inr (ground arith)
]

pub insert-Due :
    (t : Tables) (xs : List Text) (c : AnchorCandidate) (cs : List AnchorCandidate) (row : Anchor)
    (w : Tables)
    → row.artifact_id ≡ c.artifact_id
    → Due t xs (c ∷ cs) w
    → Due t xs cs (insert_anchor_row row w).1
insert-Due t xs c cs row w same (f, due) =
    (insert-Fixed t row w f, All-imp _ _ xs (λ x d. insert-IsDue c cs row w x same d) due)

pub none_left : (w : Tables) (x : Text) → IsDue [] w x → HasAnchor x w
none_left w x (inl h) = h
none_left w x (inr e) = absurd (ground arith)
