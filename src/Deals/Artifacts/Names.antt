-- ===== src/Deals/Artifacts/Names.antt =====
-- `sanitizeExt` of deals/service.go: the extension in the storage key of an upload.
use Prim.Native.Nat.{ℕ}
use mathlib.Core.List.{tail, reverse}
use ganji.Base.{
  ◌≤◌, ◌≡◌, refl, inl, inr, Bool, true, false, ◌&&◌, [], ◌∷◌, Text, all, ◌==◌, to_lower,
  byte_length, file_ext, ext_from, is_lower_alphanumeric, length, Bool-cases, arith, if◌then◌else◌,
}
use ganji.Deals.Artifacts.{sanitize_ext, has_safe_length}

-- At most nine letters a-z and digits.
abbrev IsPlain : Text → Type 0
IsPlain s = (all is_lower_alphanumeric s ≡ true) × (length s ≤ 9)

-- Nothing, or one rune, which is what the dot of the extension is lowered to, and a plain rest.
abbrev pub IsPlainExt : (ℕ → ℕ) → Text → Type 0
IsPlainExt lower_rune [] = Unit
IsPlainExt lower_rune (c ∷ s) = (c ≡ lower_rune 46) × IsPlain s

length-byte_length : (s : Text) → length s ≤ byte_length s
length-byte_length [] = omega arith
length-byte_length (c ∷ s) = ground (arith, length-byte_length s)

-- Nothing, or a text that a dot begins.
abbrev IsDotted : Text → Type 0
IsDotted [] = Unit
IsDotted (c ∷ s) = c ≡ 46

ext_from-IsDotted : (s ext : Text) → IsDotted (ext_from s ext)
unfolding ext_from
ext_from-IsDotted [] ext = tt
ext_from-IsDotted (c ∷ s) ext = elim (Bool-cases (c == 47)) [
  | inl e ↦ rw e tt
  | inr e ↦ elim (Bool-cases (c == 46)) [
    | inl d ↦ rw (e, d) (ground arith)
    | inr d ↦ rw (e, d) (ext_from-IsDotted s (c ∷ ext))
  ]
]

plain :
    (lower_rune : ℕ → ℕ) (ext : Text)
    → IsDotted ext
    → IsPlainExt lower_rune (
        if has_safe_length (to_lower lower_rune ext)
          && all is_lower_alphanumeric (tail (to_lower lower_rune ext))
        then to_lower lower_rune ext
        else [])
plain lower_rune [] dotted = tt
plain lower_rune (c ∷ s) dotted =
    pick (has_safe_length (to_lower lower_rune (c ∷ s)))
      (all is_lower_alphanumeric (to_lower lower_rune s)) refl refl
  where
    pick :
        (safe letters : Bool)
        → has_safe_length (to_lower lower_rune (c ∷ s)) ≡ safe
        → all is_lower_alphanumeric (to_lower lower_rune s) ≡ letters
        → IsPlainExt lower_rune (if safe && letters then to_lower lower_rune (c ∷ s) else [])
    pick true true e f =
        (rw dotted refl, (f, ground (arith, length-byte_length (to_lower lower_rune s))))
    pick true false e f = tt
    pick false letters e f = tt

-- Whatever the file is called, the extension that its storage key ends in is empty, or a lowered dot and
-- at most nine letters a-z and digits: it holds no separator and no further dot.
pub sanitize_ext-IsPlainExt :
    (lower_rune : ℕ → ℕ) (filename : Text)
    → IsPlainExt lower_rune (sanitize_ext lower_rune filename)
unfolding sanitize_ext file_ext
sanitize_ext-IsPlainExt lower_rune filename =
    plain lower_rune (file_ext filename) (ext_from-IsDotted (reverse filename) [])
