-- ===== src/Cipher/Tests.antt =====
-- The encryption at one key and one plaintext.
use rein.Base.{◌≡◌, refl, ◌++◌, Text, bytes, ◌∷◌}
use rein.Base.Try.{done}
use rein.Cipher.{aes_gcm, aes_encrypt}
use rein.Cipher.Sealed.{decrypt-encrypt}
use rein.Cipher.Toy.{toy_base64, toy_aead, toy_random, toy_random-length, zeros}

abbrev sealed : Text
sealed = bytes "v1:" ++ (0 ∷ 1 ∷ bytes "sk-0")

encrypted : (aes_gcm toy_base64 (toy_aead 1)).encrypt toy_random (bytes "sk-0") ≡ done sealed
unfolding aes_gcm aes_encrypt zeros bytes
encrypted = refl

decrypt-encrypt_example : (aes_gcm toy_base64 (toy_aead 1)).decrypt sealed ≡ done (bytes "sk-0")
decrypt-encrypt_example =
    decrypt-encrypt toy_base64 (toy_aead 1) toy_random (toy_random-length 1) (bytes "sk-0") sealed
      encrypted
