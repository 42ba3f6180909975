-- ===== src/Cipher/Toy.antt =====
-- Values of the parameters of the encryption, for the tests: an AEAD that writes one byte of its key
-- before the plaintext, and a base64 that writes the bytes as they are.
use rein.Base.{
  ℕ, suc, zero, ◌≡◌, refl, ◌==◌, [], ◌∷◌, Option, none, some, if◌then◌else◌, Text, length, arith,
}
use rein.Cipher.{Random, Cipher, Aead, Base64, aes_gcm}

unfoldable pub unseal_byte : ℕ → Text → Option Text
unseal_byte b [] = none
unseal_byte b (c ∷ p) = if c == b then some p else none

pub unseal_byte_same : (b : ℕ) (p : Text) → unseal_byte b (b ∷ p) ≡ some p
unfolding unseal_byte
unseal_byte_same b p = ground arith

abbrev pub toy_aead : ℕ → Aead
toy_aead b = record {
  nonce_size = 1;
  seal = λ n p. b ∷ p;
  unseal = λ n s. unseal_byte b s;
  unseal-seal = λ n p size. unseal_byte_same b p;
}

abbrev pub toy_base64 : Base64
toy_base64 = record { encode = λ t. t; decode = λ t. some t; decode-encode = λ t. refl }

abbrev pub toy_gcm : Text → Option Aead
toy_gcm [] = none
toy_gcm (b ∷ key) = some (toy_aead b)

unfoldable pub zeros : ℕ → Text
zeros zero = []
zeros (suc n) = 0 ∷ zeros n

pub length-zeros : (n : ℕ) → length (zeros n) ≡ n
unfolding zeros
length-zeros zero = refl
length-zeros (suc n) = ground (arith, length-zeros n)

abbrev pub toy_random : Random
toy_random n = some (zeros n)

pub toy_random-length : (n : ℕ) (nonce : Text) → toy_random n ≡ some nonce → length nonce ≡ n
toy_random-length n nonce e = ground (arith, length-zeros n)

-- The ciphers of the keys that start with 1 and with 2.
abbrev pub first_cipher : Cipher
first_cipher = aes_gcm toy_base64 (toy_aead 1)

abbrev pub second_cipher : Cipher
second_cipher = aes_gcm toy_base64 (toy_aead 2)
