-- ===== src/Auth/Emails.antt =====
-- `emailPattern` of auth/service.go: `^[a-zA-Z0-9._%+\-]+@[a-zA-Z0-9.\-]+\.[a-zA-Z]{2,}$`.
--
-- Neither class holds `@`, so the only split is at the first one; the last class holds no dot, so the top
-- level domain follows the last dot.
use ganji.Base.{
  ℕ, Bool, false, not, ◌&&◌, ◌||◌, Option, none, some, [], ◌∷◌, Text, all, length, leb, ◌==◌,
  if◌then◌else◌, is_empty,
}

abbrev is_alpha : ℕ → Bool
is_alpha c = (leb b'a' c && leb c b'z') || (leb b'A' c && leb c b'Z')

abbrev is_domain : ℕ → Bool
is_domain c = is_alpha c || (leb b'0' c && leb c b'9') || c == b'.' || c == b'-'

abbrev is_local : ℕ → Bool
is_local c = is_domain c || c == b'_' || c == b'%' || c == b'+'

abbrev cons_first : ℕ → Option (Text × Text) → Option (Text × Text)
cons_first c none = none
cons_first c (some (a, b)) = some (c ∷ a, b)

-- What stands before the first `@` and after it.
abbrev cut_at : Text → Option (Text × Text)
cut_at [] = none
cut_at (c ∷ s) = let rest = cons_first c (cut_at s) in if c == b'@' then some ([], s) else rest

abbrev or_here : ℕ → Text → Option (Text × Text) → Option (Text × Text)
or_here c s (some cut) = cons_first c (some cut)
or_here c s none = if c == b'.' then some ([], s) else none

-- What stands before the last dot and after it.
abbrev cut_last_dot : Text → Option (Text × Text)
cut_last_dot [] = none
cut_last_dot (c ∷ s) = or_here c s (cut_last_dot s)

abbrev is_host : Option (Text × Text) → Bool
is_host none = false
is_host (some (name, top)) =
    not (is_empty name) && all is_domain name && leb 2 (length top) && all is_alpha top

abbrev is_address : Option (Text × Text) → Bool
is_address none = false
is_address (some (user, domain)) =
    not (is_empty user) && all is_local user && is_host (cut_last_dot domain)

unfoldable pub matches_email : Text → Bool
matches_email s = is_address (cut_at s)
