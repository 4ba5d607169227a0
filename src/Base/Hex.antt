-- ===== src/Base/Hex.antt =====
-- Package encoding/hex.
use Prim.Native.Nat.{ℕ, ◌+◌, ◌-◌, ◌*◌, ◌/◌, ◌%◌, ◌<◌}
use mathlib.Core.Path.{◌≡◌, refl}
use mathlib.Core.Bool.{◌&&◌}
use mathlib.Core.Option.{Option, none, some}
use mathlib.Core.List.{List, [], ◌∷◌}
use native.Mathlib.Omega.{arith}
use ganji.Base.Tests.{leb, ltb, if◌then◌else◌}
use ganji.Base.Lists.{All}

abbrev pub hex_digit : ℕ → ℕ
hex_digit n = if ltb n 10 then 48 + n else 87 + n

-- `hex.EncodeToString`
unfoldable pub encode_hex : List ℕ → List ℕ
encode_hex [] = []
encode_hex (b ∷ bs) = hex_digit (b / 16) ∷ hex_digit (b % 16) ∷ encode_hex bs

abbrev hex_value : ℕ → Option ℕ
hex_value c =
    if leb b'0' c && leb c b'9'
    then some (c - 48)
    else if leb b'a' c && leb c b'f'
    then some (c - 87)
    else if leb b'A' c && leb c b'F'
    then some (c - 55)
    else none

abbrev cons_byte : Option ℕ → Option ℕ → Option (List ℕ) → Option (List ℕ)
cons_byte none low rest = none
cons_byte (some h) none rest = none
cons_byte (some h) (some l) none = none
cons_byte (some h) (some l) (some bs) = some ((h * 16 + l) ∷ bs)

-- `hex.DecodeString`
unfoldable pub decode_hex : List ℕ → Option (List ℕ)
decode_hex [] = some []
decode_hex (a ∷ []) = none
decode_hex (a ∷ b ∷ s) = cons_byte (hex_value a) (hex_value b) (decode_hex s)

hex_value-digit : (n : ℕ) → n < 16 → hex_value (hex_digit n) ≡ some n
hex_value-digit n h = ground arith

-- Bytes that are encoded are read back.
pub decode_hex-encode : (bs : List ℕ) → All (λ b. b < 256) bs → decode_hex (encode_hex bs) ≡ some bs
unfolding decode_hex encode_hex
decode_hex-encode [] h = refl
decode_hex-encode (b ∷ bs) (small, h) =
    rw
      (
        hex_value-digit (b / 16) (omega (arith, small)),
        hex_value-digit (b % 16) (omega arith),
        decode_hex-encode bs h,
      )
      (ground arith)
