-- ===== src/Scenarios/Preimages.antt =====
-- A preimage stored under a secret.
use ganji.Base.{◌≡◌, refl, Option, none, some, [], ◌∷◌, Text, codes, inl}
use ganji.Deals.Preimage.{Crypto, preimage_key, encrypt_preimage, decrypt_preimage}
use ganji.Deals.Preimage.Codec.{IsSound, decrypt_preimage-encrypt}

-- A cipher that puts a tag before the text.
abbrev untag : Text → Option Text
untag [] = none
untag (t ∷ p) = some p

abbrev tagging : Crypto
tagging = record {
  sha256 = λ x. codes "0123456789abcdef0123456789abcdef";
  nonce_size = 12;
  seal = λ key nonce p. 116 ∷ p;
  unseal = λ key nonce c. untag c;
  encode_base64 = λ x. x;
  decode_base64 = λ x. some x;
}

tagging-IsSound : IsSound tagging
tagging-IsSound = record {
  digest_size = λ x. refl;
  opens = λ key nonce p. refl;
  decodes = λ x. refl;
}

decrypt_preimage-encrypt_example :
    (stored : Text) × (encrypt_preimage tagging
        (preimage_key tagging (codes "secret"))
        (some (codes "nonce-nonce-"))
        (codes "ab12")
      ≡ some stored)
    × (decrypt_preimage tagging (preimage_key tagging (codes "secret")) stored
        ≡ some (codes "ab12"))
decrypt_preimage-encrypt_example =
    decrypt_preimage-encrypt tagging tagging-IsSound (codes "secret") (codes "nonce-nonce-")
      (codes "ab12") refl (inl refl)
