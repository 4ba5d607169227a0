-- ===== src/Auth/Slugs/Shape.antt =====
-- The shape of the slugs that `slugify` of auth/service.go builds.
use mathlib.Core.List.{reverse, reverse-cons, reverse-append, append-nil, append_assoc}
use ganji.Base.{
  ℕ, ◌≡◌, refl, sym, ap, ◌∙◌, ◌⊎◌, inl, inr, Bool, true, false, not, ◌&&◌, ◌||◌, Bool-cases, [],
  ◌∷◌, ◌++◌, Text, codes, arith, ◌==◌, if◌then◌else◌, is_empty, is_lower_alphanumeric, trim_space,
  to_lower,
}
use ganji.Auth.Slugs.{hyphen, is_separator, build, trim_left_hyphens, trim_hyphens, slugify}

-- `s` goes on from a word, or from a hyphen or the start, and ends in a word.
abbrev pub slug_from : Bool → Text → Bool
slug_from prev [] = not prev
slug_from prev (c ∷ s) =
    let joined = not prev && slug_from true s in
    let kept = is_lower_alphanumeric c && slug_from false s in if c == hyphen then joined else kept

abbrev pub IsSlug : Text → Type 0
IsSlug s = slug_from true s ≡ true

-- The same, where `s` may end in a hyphen.
abbrev loose_from : Bool → Text → Bool
loose_from prev [] = true
loose_from prev (c ∷ s) =
    let joined = not prev && loose_from true s in
    let kept = is_lower_alphanumeric c && loose_from false s in if c == hyphen then joined else kept

-- What the loop adds to the builder, in the order of the string.
abbrev added : Bool → Bool → Text → Text
added prev started [] = []
added prev started (r ∷ rest) =
    let kept = r ∷ added false true rest in
    let joined = hyphen ∷ added true true rest in
    let skipped = added prev started rest in
    if is_lower_alphanumeric r
    then kept
    else if is_separator r && not prev && started
    then joined
    else skipped

reverse-cons-append :
    (x : ℕ) (built ys : Text) → reverse (x ∷ built) ++ ys ≡ reverse built ++ x ∷ ys
reverse-cons-append x built ys = rw (reverse-cons x built, append_assoc) refl

build-added :
    (prev : Bool) (built rest : Text)
    → reverse (build prev built rest) ≡ reverse built ++ added prev (not (is_empty built)) rest
unfolding build
build-added prev built [] = sym (append-nil (reverse built))
build-added prev built (r ∷ rest) = elim (Bool-cases (is_lower_alphanumeric r)) [
  | inl t ↦
      rw t
        (build-added false (r ∷ built) rest ∙ reverse-cons-append r built (added false true rest))
  | inr f ↦ rw f (elim (Bool-cases (is_separator r && not prev && not (is_empty built))) [
    | inl t ↦ rw t (
        build-added true (hyphen ∷ built) rest
        ∙ reverse-cons-append hyphen built (added true true rest))
    | inr g ↦ rw g (build-added prev built rest)
  ])
]

not_hyphen : (c : ℕ) → is_lower_alphanumeric c ≡ true → c == hyphen ≡ false
not_hyphen c t = ground arith

after_hyphen :
    (sep prev started rest : Bool)
    → sep && not prev && started ≡ true
    → rest ≡ true
    → not (prev || not started) && rest ≡ true
after_hyphen true false true rest t h = h
after_hyphen true false false rest t h = absurd (ground arith)
after_hyphen true true started rest t h = absurd (ground arith)
after_hyphen false prev started rest t h = absurd (ground arith)

added-loose :
    (prev started : Bool) (rest : Text)
    → loose_from (prev || not started) (added prev started rest) ≡ true
added-loose prev started [] = refl
added-loose prev started (r ∷ rest) = elim (Bool-cases (is_lower_alphanumeric r)) [
  | inl t ↦ rw (t, not_hyphen r t, t) (added-loose false true rest)
  | inr f ↦ rw f (elim (Bool-cases (is_separator r && not prev && started)) [
    | inl t ↦ rw t (after_hyphen (is_separator r) prev started _ t (added-loose true true rest))
    | inr g ↦ rw g (added-loose prev started rest)
  ])
]

-- `s` without the hyphens at its end.
abbrev strip_end : Text → Text
strip_end [] = []
strip_end (c ∷ s) = let rest = strip_end s in if is_empty rest && c == hyphen then [] else c ∷ rest

trim_left-snoc :
    (xs : Text) (c : ℕ)
    → trim_left_hyphens (xs ++ c ∷ []) ≡ (
        if is_empty (trim_left_hyphens xs)
        then (if c == hyphen then [] else c ∷ [])
        else trim_left_hyphens xs ++ c ∷ [])
trim_left-snoc [] c = refl
trim_left-snoc (x ∷ xs) c = ground (arith, trim_left-snoc xs c)

is_empty-snoc : (xs : Text) (x : ℕ) → is_empty (xs ++ x ∷ []) ≡ false
is_empty-snoc [] x = refl
is_empty-snoc (y ∷ xs) x = refl

is_empty-reverse : (xs : Text) → is_empty (reverse xs) ≡ is_empty xs
is_empty-reverse [] = refl
is_empty-reverse (x ∷ xs) = rw (reverse-cons x xs) (is_empty-snoc (reverse xs) x)

strip_step :
    (t : Text) (c : ℕ)
    → reverse (if is_empty t then (if c == hyphen then [] else c ∷ []) else t ++ c ∷ [])
      ≡ (if is_empty (reverse t) && c == hyphen then [] else c ∷ reverse t)
strip_step [] c = ground arith
strip_step (x ∷ t) c = rw (is_empty-reverse (x ∷ t)) (reverse-append (x ∷ t) (c ∷ []))

strip_end-trim : (s : Text) → reverse (trim_left_hyphens (reverse s)) ≡ strip_end s
strip_end-trim [] = refl
strip_end-trim (c ∷ s) =
    rw (reverse-cons c s, trim_left-snoc (reverse s) c)
      (strip_step (trim_left_hyphens (reverse s)) c
        ∙ ap (λ t. if is_empty t && c == hyphen then [] else c ∷ t) (strip_end-trim s))

loose-strip :
    (prev : Bool) (s : Text)
    → loose_from prev s ≡ true
    → (strip_end s ≡ []) ⊎ (slug_from prev (strip_end s) ≡ true)
loose-strip prev [] h = inl refl
loose-strip prev (c ∷ s) h = ground (arith, loose-strip true s, loose-strip false s)

-- A string that may follow a hyphen has none before it.
loose-trim_left : (s : Text) → loose_from true s ≡ true → trim_left_hyphens s ≡ s
loose-trim_left [] h = refl
loose-trim_left (c ∷ s) h = ground arith

or_user :
    (s : Text)
    → (s ≡ []) ⊎ (slug_from true s ≡ true)
    → IsSlug (if is_empty s then codes "user" else s)
or_user [] h = refl
or_user (c ∷ s) (inl e) = absurd (ground arith)
or_user (c ∷ s) (inr h) = h

-- Whatever the display name, its slug is made of words of a-z and 0-9 with single hyphens between them, and
-- is not empty.
pub slugify-IsSlug : (lower_rune : ℕ → ℕ) (name : Text) → IsSlug (slugify lower_rune name)
unfolding slugify
slugify-IsSlug lower_rune name =
    or_user (trim_hyphens (reverse (build false [] chars)))
      (rw same (loose-strip true out (added-loose false false chars)))
  where
    chars : Text
    chars = to_lower lower_rune (trim_space name)

    out : Text
    out = added false false chars

    same : trim_hyphens (reverse (build false [] chars)) ≡ strip_end out
    same =
        rw (build-added false [] chars, loose-trim_left out (added-loose false false chars))
          (strip_end-trim out)
