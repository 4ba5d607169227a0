-- ===== src/Deals/Preimage.antt =====
-- The encryption of the preimage column (backend/internal/deals/preimage_crypto.go).
--
-- A string is the list of its bytes. SHA-256, AES-GCM and base64 are what a `Crypto` says of them.
pub mod Codec
use ganji.Base.{
  ℕ, zero, suc, Bool, true, false, not, ◌&&◌, ◌||◌, Option, none, some, List, [], ◌∷◌, ◌++◌, Text,
  codes, is_empty, length, ltb, ◌==◌, if◌then◌else◌,
}

pub record Crypto : Type 0 where
  pub sha256 : Text → Text
  pub nonce_size : ℕ
  -- key, nonce, plaintext or ciphertext
  pub seal : Text → Text → Text → Text
  pub unseal : Text → Text → Text → Option Text
  pub encode_base64 : Text → Text
  pub decode_base64 : Text → Option Text

-- `preimageEncPrefix`
abbrev pub preimage_enc_prefix : Text
preimage_enc_prefix = codes "enc:"

-- `raw[:n]` and `raw[n:]`
abbrev pub take_bytes : ℕ → Text → Text
take_bytes zero bs = []
take_bytes (suc n) [] = []
take_bytes (suc n) (b ∷ bs) = b ∷ take_bytes n bs

abbrev pub drop_bytes : ℕ → Text → Text
drop_bytes zero bs = bs
drop_bytes (suc n) [] = []
drop_bytes (suc n) (b ∷ bs) = drop_bytes n bs

-- What follows the prefix, if the string has it: `strings.HasPrefix` and `strings.TrimPrefix`.
abbrev pub cut_prefix : Text → Text → Option Text
cut_prefix [] bs = some bs
cut_prefix (p ∷ ps) [] = none
cut_prefix (p ∷ ps) (b ∷ bs) = if p == b then cut_prefix ps bs else none

-- Whether `aes.NewCipher` takes the key.
abbrev pub is_key_size : Text → Bool
is_key_size key = length key == 16 || length key == 24 || length key == 32

module _ (crypto : Crypto) where
  -- `preimageKey`
  unfoldable pub preimage_key : Text → Text
  preimage_key secret = if is_empty secret then [] else crypto.sha256 secret

  abbrev pub seal_with : Text → Text → Option Text → Option Text
  seal_with key plaintext none = none
  seal_with key plaintext (some nonce) =
      some (preimage_enc_prefix ++ crypto.encode_base64 (nonce ++ crypto.seal key nonce plaintext))

  -- `encryptPreimage`; the nonce is what the random source gives, if it does not fail.
  unfoldable pub encrypt_preimage : Text → Option Text → Text → Option Text
  encrypt_preimage key nonce plaintext =
      if is_empty plaintext || is_empty key
      then some plaintext
      else if is_key_size key
      then seal_with key plaintext nonce
      else none

  abbrev pub open_raw : Text → Option Text → Option Text
  open_raw key none = none
  open_raw key (some raw) =
      if not (is_key_size key) || ltb (length raw) crypto.nonce_size
      then none
      else crypto.unseal key (take_bytes crypto.nonce_size raw) (drop_bytes crypto.nonce_size raw)

  abbrev open_stored : Text → Text → Option Text → Option Text
  open_stored key value none = some value
  open_stored key value (some encoded) =
      if is_empty key then none else open_raw key (crypto.decode_base64 encoded)

  -- `decryptPreimage`; the empty string has no prefix.
  unfoldable pub decrypt_preimage : Text → Text → Option Text
  decrypt_preimage key value = open_stored key value (cut_prefix preimage_enc_prefix value)
