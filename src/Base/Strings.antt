-- ===== src/Base/Strings.antt =====
-- Go strings as lists of code points, with the functions of package strings that the code calls.
use Prim.Native.Nat.{ℕ, ◌+◌}
use Prim.Native.Char.{code}
use Prim.Native.String.{String}
use mathlib.Core.Logic.{ite}
use mathlib.Core.Bool.{Bool, true, false, ◌&&◌, ◌||◌}
use mathlib.Core.List.{List, [], ◌∷◌, map, reverse}
use native.Mathlib.Decide.{ℕ_discrete}
use ganji.Base.Tests.{leb, ltb, ◌==◌, if◌then◌else◌}

abbrev pub Text : Type 0
Text = List ℕ

-- A literal.
abbrev pub codes : String → Text
codes String.[] = []
codes (String.◌∷◌ c s) = code c ∷ codes s

unfoldable pub Text-discrete : Discrete Text
unfolding ℕ_discrete
Text-discrete = hlevel ℕ_discrete

-- `a == b` on strings.
abbrev pub text_eq : Text → Text → Bool
text_eq a b = ite (Text-discrete a b) true false

-- `unicode.IsSpace`
unfoldable is_space : ℕ → Bool
is_space c =
    (leb 9 c && leb c 13)
    || c == 32
    || c == 0x85
    || c == 0xa0
    || c == 0x1680
    || (leb 0x2000 c && leb c 0x200a)
    || c == 0x2028
    || c == 0x2029
    || c == 0x202f
    || c == 0x205f
    || c == 0x3000

trim_left : Text → Text
trim_left [] = []
trim_left (c ∷ s) = let rest = trim_left s in if is_space c then rest else c ∷ s

-- `strings.TrimSpace`
unfoldable pub trim_space : Text → Text
unfolding trim_left is_space
trim_space s = reverse (trim_left (reverse (trim_left s)))

-- `strings.ToLower`, `strings.EqualFold`, by the tables of package unicode.
abbrev pub to_lower : (ℕ → ℕ) → Text → Text
to_lower lower_rune s = map lower_rune s

abbrev pub equal_fold : (ℕ → ℕ) → Text → Text → Bool
equal_fold fold_rune a b = text_eq (map fold_rune a) (map fold_rune b)

-- The part before the first separator in `s`, which is what `filepath.Ext` reads backwards.
unfoldable pub ext_from : Text → Text → Text
ext_from [] ext = []
ext_from (c ∷ s) ext =
    let rest = ext_from s (c ∷ ext) in if c == 47 then [] else if c == 46 then c ∷ ext else rest

-- `filepath.Ext`: from the last dot of the last element of the path, or nothing.
unfoldable pub file_ext : Text → Text
unfolding ext_from
file_ext path = ext_from (reverse path) []

-- `len` of a string: the bytes of its UTF-8 encoding.
abbrev rune_length : ℕ → ℕ
rune_length c = if ltb c 0x80 then 1 else if ltb c 0x800 then 2 else if ltb c 0x10000 then 3 else 4

abbrev pub byte_length : Text → ℕ
byte_length [] = 0
byte_length (c ∷ s) = rune_length c + byte_length s

-- A loop that looks for a byte outside `a`-`z` and `0`-`9`.
abbrev pub is_lower_alphanumeric : ℕ → Bool
is_lower_alphanumeric c = (leb b'a' c && leb c b'z') || (leb b'0' c && leb c b'9')
