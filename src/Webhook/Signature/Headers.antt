-- ===== src/Webhook/Signature/Headers.antt =====
-- The headers of signature.go, as LNbits writes them.
use ganji.Base.{
  ℕ, ◌≡◌, refl, sym, ap, ◌∙◌, ◌≤◌, ◌<◌, ◌↔◌, ◌+◌, ◌*◌, ◌/◌, ◌%◌, Bool, true, false, not, ◌&&◌, some,
  List, [], ◌∷◌, ◌++◌, all, All, Text, codes, text_eq, is_empty, trim_space, leb, ◌==◌,
  if◌then◌else◌, arith,
}
use ganji.Base.Int.{pos}
use ganji.Base.Hex.{encode_hex, hex_digit, decode_hex-encode}
use ganji.Webhook.Signature.{
  split_on, push_front, is_digit, parse_int64, is_recent, signature_tolerance,
  verify_lnbits_signature,
}

abbrev free_of : ℕ → Text → Bool
free_of c s = all (λ x. not (x == c)) s

split_on_free : (c : ℕ) (a : Text) → (free_of c a ≡ true) → split_on c a ≡ a ∷ []
split_on_free c [] h = refl
split_on_free c (x ∷ a) h = let ih = split_on_free c a in ground arith

split_on_append :
    (c : ℕ) (a b : Text) → (free_of c a ≡ true) → split_on c (a ++ c ∷ b) ≡ a ∷ split_on c b
split_on_append c [] b h = ground arith
split_on_append c (x ∷ a) b h = let ih = split_on_append c a b in ground arith

digits-free : (t : Text) → (all is_digit t ≡ true) → free_of b',' t ≡ true
digits-free [] h = refl
digits-free (c ∷ t) h = let ih = digits-free t in ground arith

hex_digit_free : (n : ℕ) → n < 16 → (hex_digit n == b',') ≡ false
hex_digit_free n h = ground arith

encode_hex-free : (bs : Text) → All (λ b. b < 256) bs → free_of b',' (encode_hex bs) ≡ true
unfolding encode_hex
encode_hex-free [] h = refl
encode_hex-free (b ∷ bs) (small, h) =
    rw (hex_digit_free (b / 16) (omega (arith, small)), hex_digit_free (b % 16) (omega arith))
      (encode_hex-free bs h)

-- The header that LNbits sends: `t=<unix time>,v1=<mac in hex>`.
abbrev pub signed_header : Text → Text → Text
signed_header t mac = codes "t=" ++ (t ++ (codes ",v1=" ++ encode_hex mac))

signed_items : Text → Text → List (Text × Text)
signed_items t mac = (codes "t", t) ∷ (codes "v1", encode_hex mac) ∷ []

split_signed :
    (t mac : Text)
    → (all is_digit t ≡ true)
    → All (λ b. b < 256) mac
    → split_on b',' (signed_header t mac) ≡ (codes "t=" ++ t) ∷ (codes "v1=" ++ encode_hex mac) ∷ []
split_signed t mac decimal bytes =
    ap (λ r. push_front b't' (push_front b'=' r))
      (split_on_append b',' t (codes "v1=" ++ encode_hex mac) (digits-free t decimal))
    ∙ ap (λ r. (codes "t=" ++ t) ∷ push_front b'v' (push_front b'1' (push_front b'=' r)))
        (split_on_free b',' (encode_hex mac) (encode_hex-free mac bytes))

and_then : (a b : Bool) → (if not a then false else b) ≡ (a && b)
and_then true b = refl
and_then false b = refl

module _ (hmac : Text → Text → Text) (now : ℕ) (body : Text) (secret : Text) where
  verify_signed :
      (t mac : Text) (n : ℕ)
      → (is_empty secret ≡ false)
      → (all is_digit t ≡ true)
      → (parse_int64 t ≡ some (pos n))
      → All (λ b. b < 256) mac
      → verify_lnbits_signature hmac now body secret (signed_header t mac)
        ≡ (is_recent now (pos n) && text_eq (hmac secret (t ++ codes "." ++ body)) mac)
  unfolding verify_lnbits_signature trim_space ganji.Base.Text-discrete
  verify_signed t mac n set decimal time bytes =
      rw (set, split_signed t mac decimal bytes)
        (rw (time, decode_hex-encode mac bytes) (and_then (is_recent now (pos n)) _))

  -- A header as LNbits writes it is accepted exactly when its time is at most five minutes before or after the clock
  -- and its code is the HMAC, by the secret, of the time, a dot and the body that was received.
  pub verify_lnbits_signature_iff :
      (t mac : Text) (n : ℕ)
      → (is_empty secret ≡ false)
      → (all is_digit t ≡ true)
      → (parse_int64 t ≡ some (pos n))
      → All (λ b. b < 256) mac
      → (verify_lnbits_signature hmac now body secret (signed_header t mac) ≡ true) ↔ (
          (now ≤ n * 1000000000 + signature_tolerance)
          × (n * 1000000000 ≤ now + signature_tolerance)
          × (mac ≡ hmac secret (t ++ codes "." ++ body)))
  verify_lnbits_signature_iff t mac n set decimal time bytes =
      let same = verify_signed t mac n set decimal time bytes in
      (
        (λ h.
            let b : (is_recent now (pos n) && text_eq (hmac secret (t ++ codes "." ++ body)) mac)
                ≡ true =
              sym same ∙ h in
            (ground arith, ground arith, ground arith)),
        (λ (a, b, c). same ∙ ground arith),
      )
