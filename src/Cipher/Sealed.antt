-- ===== src/Cipher/Sealed.antt =====
-- What `Encrypt` writes and what `Decrypt` reads back.
use rein.Base.{
  ℕ, ◌+◌, ◌≡◌, ◌<◌, ◌++◌, refl, ap, false, [], ◌∷◌, Option, none, some, Text, has_prefix-append,
  cut_prefix-append, trim_space, length, take, All, ◌*◌, drop, arith, inl, inr, Bool-cases,
  Option-cases, ltb, length-append, ◌==◌, ==_iff,
}
use rein.Base.Try.{done, failed, or_fail, >>=-eq-done}
use rein.Cipher.{
  CipherError, aes_key_size, aes_gcm_tag, Random, Cipher, Aead, Base64, noop_decrypt, noop_cipher,
  with_byte, hex_digit, decode_hex, decode_hex_key, aes_encrypt, open_payload, aes_decrypt, aes_gcm,
  new_aes_gcm, no_gcm, noop_on_sealed,
}

-- `c` opens what it seals, whatever bytes it drew.
abbrev pub Opens : Cipher → Random → Type 0
Opens c rand = (p s : Text) → c.encrypt rand p ≡ done s → c.decrypt s ≡ done p

-- `c` opens nothing that `d` seals.
abbrev pub Rejects : Cipher → Cipher → Random → Type 0
Rejects c d rand =
    (p s : Text) → d.encrypt rand p ≡ done s → (e : CipherError) × (c.decrypt s ≡ failed e)

take-length-append : (xs ys : Text) → take (length xs) (xs ++ ys) ≡ xs
unfolding take
take-length-append [] ys = refl
take-length-append (x ∷ xs) ys = ap (λ t. x ∷ t) (take-length-append xs ys)

drop-length-append : (xs ys : Text) → drop (length xs) (xs ++ ys) ≡ ys
unfolding drop
drop-length-append [] ys = refl
drop-length-append (x ∷ xs) ys = drop-length-append xs ys

module _ (b64 : Base64) (aead : Aead) where
  open_payload-seal :
      (nonce p : Text)
      → length nonce ≡ aead.nonce_size
      → open_payload b64 aead (nonce ++ aead.seal nonce p) ≡ done p
  unfolding open_payload
  open_payload-seal nonce p size =
      let enough : ltb (length (nonce ++ aead.seal nonce p)) aead.nonce_size ≡ false =
        ground (arith, length-append nonce (aead.seal nonce p)) in
      rw (enough, ← size, take-length-append, drop-length-append, aead.unseal-seal nonce p size)
        refl

  aes_decrypt_tagged :
      (payload : Text)
      → aes_decrypt b64 aead (aes_gcm_tag ++ b64.encode payload) ≡ open_payload b64 aead payload
  unfolding aes_decrypt
  aes_decrypt_tagged payload =
      rw (cut_prefix-append aes_gcm_tag (b64.encode payload), b64.decode-encode payload) refl

  aes_encrypt_sealed :
      (rand : Random) (p s : Text)
      → aes_encrypt b64 aead rand p ≡ done s
      → (nonce : Text) × (rand aead.nonce_size ≡ some nonce)
        × (s ≡ aes_gcm_tag ++ b64.encode (nonce ++ aead.seal nonce p))
  unfolding aes_encrypt
  aes_encrypt_sealed rand p s e = elim (Option-cases (rand aead.nonce_size)) [
    | inl unread ↦ absurd (ground arith)
    | inr (nonce, drawn) ↦ (nonce, drawn, ground arith)
  ]

  -- What AES-GCM encrypts with a nonce of the right size, it decrypts to the same plaintext.
  pub decrypt-encrypt :
      (rand : Random)
      → ((nonce : Text) → rand aead.nonce_size ≡ some nonce → length nonce ≡ aead.nonce_size)
      → (p s : Text) → (aes_gcm b64 aead).encrypt rand p ≡ done s
      → (aes_gcm b64 aead).decrypt s ≡ done p
  unfolding aes_gcm
  decrypt-encrypt rand sized p s e =
      let (nonce, drawn, written) = aes_encrypt_sealed rand p s e in
      rw (written, aes_decrypt_tagged) (open_payload-seal nonce p (sized nonce drawn))

  -- The cipher that stores plaintext refuses whatever AES-GCM wrote.
  pub noop_decrypt-encrypt :
      (rand : Random) (p s : Text)
      → (aes_gcm b64 aead).encrypt rand p ≡ done s
      → noop_cipher.decrypt s ≡ failed noop_on_sealed
  unfolding aes_gcm noop_cipher noop_decrypt
  noop_decrypt-encrypt rand p s e =
      let (nonce, drawn, written) = aes_encrypt_sealed rand p s e in
      rw (written, has_prefix-append aes_gcm_tag (b64.encode (nonce ++ aead.seal nonce p))) refl

-- A hex key that is accepted has the length that NewAESGCM wants.
abbrev IsByte : ℕ → Type 0
IsByte b = b < 256

hex_digit_lt : (c d : ℕ) → hex_digit c ≡ some d → d < 16
unfolding hex_digit
hex_digit_lt c d e = ground arith

with_byte_bounds :
    (c d : ℕ) (rest : Option Text) (t : Text)
    → with_byte (hex_digit c) (hex_digit d) rest ≡ some t
    → (a b : ℕ) × (r : Text) × (rest ≡ some r) × (t ≡ (a * 16 + b) ∷ r) × (a < 16) × (b < 16)
with_byte_bounds c d rest t e = elim (Option-cases (hex_digit c)) [
  | inl bad ↦ absurd (ground arith)
  | inr (a, ea) ↦ elim (Option-cases (hex_digit d)) [
    | inl bad ↦ absurd (ground arith)
    | inr (b, eb) ↦ elim (Option-cases rest) [
      | inl bad ↦ absurd (ground arith)
      | inr (r, er) ↦ (a, b, r, er, ground arith, hex_digit_lt c a ea, hex_digit_lt d b eb)
    ]
  ]
]

decode_hex_bounds : (s t : Text) → decode_hex s ≡ some t → (length s ≡ length t * 2) × All IsByte t
unfolding decode_hex
decode_hex_bounds [] t e = let empty : [] ≡ t = ground arith in rw (← empty) (omega arith, tt)
decode_hex_bounds (c ∷ []) t e = absurd (ground arith)
decode_hex_bounds (c ∷ d ∷ s) t e =
    let (a, b, r, read, made, la, lb) = with_byte_bounds c d (decode_hex s) t e in
    let (len, all) = decode_hex_bounds s r read in rw made (omega arith, (omega arith, all))

-- A hex key that is accepted is 32 bytes.
pub decode_hex_key_bounds :
    (h k : Text) → decode_hex_key h ≡ done k → (length k ≡ aes_key_size) × All IsByte k
unfolding decode_hex_key
decode_hex_key_bounds h k e = elim (Bool-cases (length (trim_space h) == aes_key_size * 2)) [
  | inl right ↦ elim (Option-cases (decode_hex (trim_space h))) [
    | inl bad ↦ absurd (ground arith)
    | inr (t, read) ↦
        let same : t ≡ k = ground arith in
        let (len, all) = decode_hex_bounds (trim_space h) t read in
        let size : length (trim_space h) ≡ 64 = (==_iff _ _).0 right in
        rw (← same) (omega arith, all)
  ]
  | inr wrong ↦ absurd (ground arith)
]

-- So the cipher of a hex key that is accepted fails only where AES-GCM itself is not there.
pub new_aes_gcm-decode_hex_key :
    (b64 : Base64) (gcm : Text → Option Aead) (h k : Text)
    → decode_hex_key h ≡ done k
    → new_aes_gcm b64 gcm k
      ≡ (elim (gcm k) [ none ↦ failed no_gcm | some aead ↦ done (aes_gcm b64 aead) ])
unfolding new_aes_gcm
new_aes_gcm-decode_hex_key b64 gcm h k e =
    let size = (decode_hex_key_bounds h k e).0 in
    elim (Option-cases (gcm k)) [
      | inl missing ↦ rw missing (ground arith)
      | inr (a, there) ↦ rw there (ground arith)
    ]

pub new_aes_gcm_done :
    (b64 : Base64) (gcm : Text → Option Aead) (k : Text) (c : Cipher)
    → new_aes_gcm b64 gcm k ≡ done c
    → (aead : Aead) × (aes_gcm b64 aead ≡ c)
unfolding new_aes_gcm
new_aes_gcm_done b64 gcm k c e = elim (Bool-cases (length k == aes_key_size)) [
  | inl right ↦
      let (aead, there, made) = >>=-eq-done (or_fail no_gcm (gcm k)) _ (rw right at e) in
      (aead, ground arith)
  | inr wrong ↦ absurd (ground arith)
]
