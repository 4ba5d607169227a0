-- ===== src/Webhook/Signature.antt =====
-- backend/internal/webhook/signature.go: `VerifyLNbitsSignature`. HMAC-SHA256 is a parameter; `now` is the clock
-- in nanoseconds.
pub mod Headers
use ganji.Base.{
  ℕ, suc, zero, ◌+◌, ◌-◌, ◌*◌, ◌^◌, Bool, true, false, not, ◌&&◌, Option, none, some, List, [], ◌∷◌,
  ◌++◌, Text, codes, text_eq, is_empty, trim_space, leb, ltb, ◌==◌, if◌then◌else◌,
}
use ganji.Base.Int.{ℤ, pos, negsuc}
use ganji.Base.Hex.{decode_hex}

-- Five minutes.
abbrev pub signature_tolerance : ℕ
signature_tolerance = 5 * 60 * 1000000000

-- `strings.Split` by one byte.
abbrev pub push_front : ℕ → List Text → List Text
push_front x [] = (x ∷ []) ∷ []
push_front x (p ∷ ps) = (x ∷ p) ∷ ps

abbrev pub split_on : ℕ → Text → List Text
split_on c [] = [] ∷ []
split_on c (x ∷ s) = let rest = split_on c s in if x == c then [] ∷ rest else push_front x rest

-- `strings.SplitN(part, "=", 2)` where it has two pieces.
abbrev push_key : ℕ → Option (Text × Text) → Option (Text × Text)
push_key x none = none
push_key x (some (k, v)) = some (x ∷ k, v)

abbrev cut_on : ℕ → Text → Option (Text × Text)
cut_on c [] = none
cut_on c (x ∷ s) = let rest = push_key x (cut_on c s) in if x == c then some ([], s) else rest

-- The items in their order; `none` where a part has no `=`.
abbrev cons_item : Option (Text × Text) → Option (List (Text × Text)) → Option (List (Text × Text))
cons_item none rest = none
cons_item (some (k, v)) none = none
cons_item (some (k, v)) (some rest) = some ((trim_space k, v) ∷ rest)

abbrev read_items : List Text → Option (List (Text × Text))
read_items [] = some []
read_items (part ∷ parts) = cons_item (cut_on b'=' part) (read_items parts)

-- What the map holds for a key: the last value that was put, or the empty string.
abbrev item_or : Text → Text → List (Text × Text) → Text
item_or known key [] = known
item_or known key ((k, v) ∷ rest) = item_or (if text_eq k key then v else known) key rest

abbrev item : Text → List (Text × Text) → Text
item key items = item_or [] key items

-- `strconv.ParseInt(s, 10, 64)`
abbrev pub is_digit : ℕ → Bool
is_digit c = leb b'0' c && leb c b'9'

abbrev digits_from : ℕ → Text → Option ℕ
digits_from n [] = some n
digits_from n (c ∷ s) =
    let rest = digits_from (n * 10 + (c - 48)) s in if is_digit c then rest else none

abbrev pub digits : Text → Option ℕ
digits [] = none
digits (c ∷ s) = digits_from 0 (c ∷ s)

abbrev pub positive : Option ℕ → Option ℤ
positive none = none
positive (some n) = if ltb n (2 ^ 63) then some (pos n) else none

abbrev negative : Option ℕ → Option ℤ
negative none = none
negative (some zero) = some (pos 0)
negative (some (suc n)) = if leb (suc n) (2 ^ 63) then some (negsuc n) else none

abbrev pub parse_int64 : Text → Option ℤ
parse_int64 [] = none
parse_int64 (c ∷ s) =
    if c == b'-'
    then negative (digits s)
    else if c == b'+'
    then positive (digits s)
    else positive (digits (c ∷ s))

-- The timestamp is at most the tolerance before or after the clock.
abbrev pub is_recent : ℕ → ℤ → Bool
is_recent now (pos t) =
    leb now (t * 1000000000 + signature_tolerance)
    && leb (t * 1000000000) (now + signature_tolerance)
is_recent now (negsuc t) = leb (now + (suc t) * 1000000000) signature_tolerance

module _ (hmac : Text → Text → Text) (now : ℕ) (body : Text) (secret : Text) where
  abbrev check_mac : Text → Option Text → Bool
  check_mac timestamp none = false
  check_mac timestamp (some mac) = text_eq (hmac secret (timestamp ++ codes "." ++ body)) mac

  abbrev check_time : List (Text × Text) → Option ℤ → Bool
  check_time items none = false
  check_time items (some t) =
      if not (is_recent now t)
      then false
      else check_mac (item (codes "t") items) (decode_hex (item (codes "v1") items))

  abbrev check_items : Option (List (Text × Text)) → Bool
  check_items none = false
  check_items (some items) = check_time items (parse_int64 (item (codes "t") items))

  unfoldable pub verify_lnbits_signature : Text → Bool
  verify_lnbits_signature header =
      if is_empty secret
      then true
      else if is_empty header
      then false
      else check_items (read_items (split_on b',' header))
