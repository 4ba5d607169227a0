-- ===== src/Auth/Slugs.antt =====
-- `slugify` of auth/service.go.
pub mod Shape
use ganji.Base.{
  ℕ, Bool, true, false, not, ◌&&◌, ◌||◌, List, [], ◌∷◌, ◌++◌, Text, codes, leb, ◌==◌, if◌then◌else◌,
  is_empty, is_lower_alphanumeric, trim_space, to_lower,
}
use mathlib.Core.List.{reverse}

abbrev pub hyphen : ℕ
hyphen = 45

-- The characters that become a hyphen.
abbrev pub is_separator : ℕ → Bool
is_separator c = c == 32 || c == hyphen || c == b'_'

-- The loop: `last_was_hyphen`, and the builder, the last character first.
unfoldable pub build : Bool → Text → Text → Text
build last_was_hyphen built [] = built
build last_was_hyphen built (r ∷ rest) =
    let kept = build false (r ∷ built) rest in
    let joined = build true (hyphen ∷ built) rest in
    let skipped = build last_was_hyphen built rest in
    if is_lower_alphanumeric r
    then kept
    else if is_separator r && not last_was_hyphen && not (is_empty built)
    then joined
    else skipped

-- `strings.Trim(s, "-")` drops hyphens at both ends.
abbrev pub trim_left_hyphens : Text → Text
trim_left_hyphens [] = []
trim_left_hyphens (c ∷ s) = let rest = trim_left_hyphens s in if c == hyphen then rest else c ∷ s

abbrev pub trim_hyphens : Text → Text
trim_hyphens s = reverse (trim_left_hyphens (reverse (trim_left_hyphens s)))

unfoldable pub slugify : (ℕ → ℕ) → Text → Text
slugify lower_rune name =
    let slug = trim_hyphens (reverse (build false [] (to_lower lower_rune (trim_space name)))) in
    if is_empty slug then codes "user" else slug
