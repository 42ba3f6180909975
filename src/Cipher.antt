-- ===== src/Cipher.antt =====
-- internal/keys/cipher.go: the encryption of upstream keys. AES-GCM and base64 are parameters.
pub mod Sealed
pub mod Toy
mod Tests
use rein.Base.{
  ℕ, ◌≡◌, ◌++◌, ◌+◌, ◌*◌, ◌-◌, Bool, true, false, ◌&&◌, ltb, leb, ◌==◌, List, [], ◌∷◌, Option, none,
  some, if◌then◌else◌, Text, bytes, has_prefix, cut_prefix, trim_space, length, take, drop,
}
use rein.Base.Try.{Try, done, failed, ◌>>=◌, or_fail}

pub data CipherError : Type 0 where
  noop_on_sealed key_size no_gcm bad_hex nonce_unread tag_missing bad_base64 too_short
        not_authentic :
      CipherError

abbrev pub aes_key_size : ℕ
aes_key_size = 32

abbrev pub aes_gcm_tag : Text
aes_gcm_tag = bytes "v1:"

-- rand.Read into a buffer of a size: the bytes, or a failure.
abbrev pub Random : Type 0
Random = ℕ → Option Text

-- The interface `Cipher`. The randomness that `Encrypt` draws is an argument.
pub record Cipher : Type 0 where
  pub encrypt : Random → Text → Try CipherError Text
  pub decrypt : Text → Try CipherError Text

-- cipher.AEAD: what is sealed under a nonce of the right size is opened under it.
pub record Aead : Type 0 where
  pub nonce_size : ℕ
  pub seal : Text → Text → Text
  pub unseal : Text → Text → Option Text
  pub unseal-seal : (n p : Text) → length n ≡ nonce_size → unseal n (seal n p) ≡ some p

-- base64.RawStdEncoding
pub record Base64 : Type 0 where
  pub encode : Text → Text
  pub decode : Text → Option Text
  pub decode-encode : (t : Text) → decode (encode t) ≡ some t

unfoldable pub noop_decrypt : Text → Try CipherError Text
noop_decrypt s = if has_prefix s aes_gcm_tag then failed noop_on_sealed else done s

unfoldable pub noop_cipher : Cipher
unfolding noop_decrypt
noop_cipher = record { encrypt = λ rand s. done s; decrypt = noop_decrypt }

-- hex.DecodeString
unfoldable pub hex_digit : ℕ → Option ℕ
hex_digit c =
    if leb b'0' c && leb c b'9'
    then some (c - 48)
    else if leb b'a' c && leb c b'f'
    then some (c - 87)
    else if leb b'A' c && leb c b'F'
    then some (c - 55)
    else none

abbrev pub with_byte : Option ℕ → Option ℕ → Option Text → Option Text
with_byte (some a) (some b) (some rest) = some ((a * 16 + b) ∷ rest)
with_byte _ _ _ = none

unfoldable pub decode_hex : Text → Option Text
unfolding hex_digit
decode_hex [] = some []
decode_hex (c ∷ []) = none
decode_hex (c ∷ d ∷ s) = with_byte (hex_digit c) (hex_digit d) (decode_hex s)

-- DecodeHexKey
unfoldable pub decode_hex_key : Text → Try CipherError Text
unfolding decode_hex
decode_hex_key h =
    let t = trim_space h in
    if length t == aes_key_size * 2 then or_fail bad_hex (decode_hex t) else failed key_size

module _ (b64 : Base64) (aead : Aead) where
  unfoldable pub aes_encrypt : Random → Text → Try CipherError Text
  aes_encrypt rand plaintext = do
    nonce ← or_fail nonce_unread (rand aead.nonce_size)
    done (aes_gcm_tag ++ b64.encode (nonce ++ aead.seal nonce plaintext))

  -- The payload is split at the nonce's size.
  unfoldable pub open_payload : Text → Try CipherError Text
  open_payload payload =
      if ltb (length payload) aead.nonce_size
      then failed too_short
      else or_fail not_authentic
          (aead.unseal (take aead.nonce_size payload) (drop aead.nonce_size payload))

  unfoldable pub aes_decrypt : Text → Try CipherError Text
  unfolding open_payload
  aes_decrypt encoded = do
    rest ← or_fail tag_missing (cut_prefix encoded aes_gcm_tag)
    payload ← or_fail bad_base64 (b64.decode rest)
    open_payload payload

  unfoldable pub aes_gcm : Cipher
  unfolding aes_encrypt aes_decrypt
  aes_gcm = record { encrypt = aes_encrypt; decrypt = aes_decrypt }

-- NewAESGCM. `gcm` is aes.NewCipher and cipher.NewGCM.
unfoldable pub new_aes_gcm : Base64 → (Text → Option Aead) → Text → Try CipherError Cipher
unfolding aes_gcm
new_aes_gcm b64 gcm key =
    if length key == aes_key_size
    then (or_fail no_gcm (gcm key) >>= λ aead. done (aes_gcm b64 aead))
    else failed key_size
