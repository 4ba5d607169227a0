-- ===== src/Deals/Preimage/Codec.antt =====
-- Encryption and decryption of the preimage column, one after the other.
use ganji.Base.{
  ℕ, ◌≡◌, refl, sym, ap, ◌∙◌, ◌⊎◌, inl, inr, true, false, none, some, [], ◌∷◌, ◌++◌, Text, is_empty,
  length, length-append, ltb, arith,
}
use ganji.Deals.Preimage.{
  Crypto, preimage_enc_prefix, take_bytes, drop_bytes, cut_prefix, is_key_size, preimage_key,
  seal_with, encrypt_preimage, open_raw, decrypt_preimage,
}

-- What the code relies on: digests of 32 bytes, and decoders that undo their encoders.
pub record IsSound (crypto : Crypto) : Type 0 where
  pub digest_size : (x : Text) → length (crypto.sha256 x) ≡ 32
  pub opens : (key nonce p : Text) → crypto.unseal key nonce (crypto.seal key nonce p) ≡ some p
  pub decodes : (x : Text) → crypto.decode_base64 (crypto.encode_base64 x) ≡ some x

take_bytes-append : (xs ys : Text) → take_bytes (length xs) (xs ++ ys) ≡ xs
take_bytes-append [] ys = refl
take_bytes-append (x ∷ xs) ys = ap (λ zs. x ∷ zs) (take_bytes-append xs ys)

drop_bytes-append : (xs ys : Text) → drop_bytes (length xs) (xs ++ ys) ≡ ys
drop_bytes-append [] ys = refl
drop_bytes-append (x ∷ xs) ys = drop_bytes-append xs ys

long_enough : (xs ys : Text) → ltb (length (xs ++ ys)) (length xs) ≡ false
long_enough xs ys = rw (length-append xs ys) (ground arith)

key_fits : (key : Text) → length key ≡ 32 → (is_empty key ≡ false) × (is_key_size key ≡ true)
key_fits [] size = absurd (omega (arith, size))
key_fits (b ∷ bs) size = (refl, ground arith)

encrypt_sealed :
    (crypto : Crypto) (key nonce : Text) (p : ℕ) (ps : Text)
    → length key ≡ 32
    → encrypt_preimage crypto key (some nonce) (p ∷ ps) ≡ seal_with crypto key (p ∷ ps) (some nonce)
unfolding encrypt_preimage
encrypt_sealed crypto key nonce p ps size = rw ((key_fits key size).0, (key_fits key size).1) refl

open_raw-append :
    (crypto : Crypto) (key nonce sealed : Text)
    → length key ≡ 32
    → length nonce ≡ crypto.nonce_size
    → open_raw crypto key (some (nonce ++ sealed)) ≡ crypto.unseal key nonce sealed
open_raw-append crypto key nonce sealed size nonce_fits =
    rw
      (
        sym nonce_fits,
        (key_fits key size).1,
        long_enough nonce sealed,
        take_bytes-append nonce sealed,
        drop_bytes-append nonce sealed,
      )
      refl

decrypt_sealed :
    (crypto : Crypto) (key nonce plaintext : Text)
    → IsSound crypto
    → length key ≡ 32
    → length nonce ≡ crypto.nonce_size
    → decrypt_preimage crypto key
        (preimage_enc_prefix ++ crypto.encode_base64 (nonce ++ crypto.seal key nonce plaintext))
      ≡ some plaintext
unfolding decrypt_preimage
decrypt_sealed crypto key nonce plaintext sound size nonce_fits =
    rw ((key_fits key size).0, sound.decodes (nonce ++ crypto.seal key nonce plaintext))
      (open_raw-append crypto key nonce (crypto.seal key nonce plaintext) size nonce_fits
        ∙ sound.opens key nonce plaintext)

-- A preimage that is stored, encrypted or not, is read back with the same secret: the random source gives
-- a nonce of the cipher's size, and a preimage stored without a secret does not begin with `enc:`.
pub decrypt_preimage-encrypt :
    (crypto : Crypto)
    → IsSound crypto
    → (secret nonce plaintext : Text) → length nonce ≡ crypto.nonce_size
    → (is_empty secret ≡ false) ⊎ (cut_prefix preimage_enc_prefix plaintext ≡ none)
    → (stored : Text) × (encrypt_preimage crypto (preimage_key crypto secret) (some nonce) plaintext
        ≡ some stored)
      × (decrypt_preimage crypto (preimage_key crypto secret) stored ≡ some plaintext)
unfolding encrypt_preimage decrypt_preimage preimage_key
decrypt_preimage-encrypt crypto sound [] nonce plaintext size (inl e) = absurd (ground arith)
decrypt_preimage-encrypt crypto sound [] nonce plaintext size (inr e) =
    (plaintext, ground arith, rw e refl)
decrypt_preimage-encrypt crypto sound (c ∷ cs) nonce [] size h = ([], refl, refl)
decrypt_preimage-encrypt crypto sound (c ∷ cs) nonce (p ∷ ps) size h = (
  _,
  encrypt_sealed crypto (crypto.sha256 (c ∷ cs)) nonce p ps (sound.digest_size (c ∷ cs)),
  decrypt_sealed crypto (crypto.sha256 (c ∷ cs)) nonce (p ∷ ps) sound (sound.digest_size (c ∷ cs))
      size,
)
