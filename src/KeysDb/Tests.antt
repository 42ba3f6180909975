-- ===== src/KeysDb/Tests.antt =====
-- The key store in a table with one key.
use rein.Base.{
  ℕ, ◌≡◌, ◌<◌, ◌*◌, ◌+◌, refl, true, [], ◌∷◌, none, some, ◌++◌, Text, bytes, text_eq, All, arith,
}
use rein.Base.Try.{done}
use rein.Sql.{no_faults}
use rein.Cipher.{aes_gcm, aes_encrypt}
use rein.Cipher.Sealed.{decrypt-encrypt}
use rein.Cipher.Toy.{first_cipher, toy_base64, toy_aead, toy_random, toy_random-length, zeros}
use rein.Rfc3339.{second, format}
use rein.Rfc3339.Unary.{unary_clock}
use rein.Samples.{sample_key}
use rein.Keys.{VirtualKey, Memory, new_memory}
use rein.Keys
use rein.Keys.Calls.{after}
use rein.KeysDb.{Row, Table, row_of, is_expiring}
use rein.KeysDb
use rein.KeysDb.Schema.{
  valid_bare_ident, column_exists, scan_columns, add_column, add_columns, migrated,
  apply_migrations,
}
use rein.KeysDb.Migrated.{contains, apply_migrations_twice}
use rein.KeysDb.Expiring.{is_expiring_early}
use rein.KeysDb.Together.{
  Together, start, created, revoked_at_time, answer, after_create, get-Together,
}

abbrev sealed : Text
sealed = bytes "v1:" ++ (0 ∷ 1 ∷ bytes "sk-0")

encrypted : first_cipher.encrypt toy_random (bytes "sk-0") ≡ done sealed
unfolding aes_gcm aes_encrypt zeros bytes
encrypted = refl

-- The key is created, then revoked at a given time.
abbrev made_table : Table ℕ
made_table =
    after_create {F = ℕ} []
      (KeysDb.create first_cipher unary_clock no_faults toy_random (some sample_key) [])

abbrev made_memory : Memory ℕ
made_memory = after new_memory (Keys.create new_memory (some sample_key))

revoked_Together :
    Together first_cipher unary_clock
      (λ i. toy_random)
      (KeysDb.revoke_at first_cipher unary_clock no_faults made_table (bytes "key_0") 100).1
      (after made_memory (Keys.revoke_at made_memory (bytes "key_0") 100))
revoked_Together =
    revoked_at_time (bytes "key_0") 100
      (created 0 sample_key sealed start refl (omega arith) (omega arith) encrypted) (omega arith)

get-Together_example :
    (KeysDb.get_by_id first_cipher unary_clock no_faults
        (KeysDb.revoke_at first_cipher unary_clock no_faults made_table (bytes "key_0") 100).1
        (bytes "key_0")
      ≡ answer (
          Keys.get_by_id
            (after made_memory (Keys.revoke_at made_memory (bytes "key_0") 100))
            (bytes "key_0")))
    × (KeysDb.get_by_token first_cipher unary_clock no_faults
          (KeysDb.revoke_at first_cipher unary_clock no_faults made_table (bytes "key_0") 100).1
          (bytes "key_0")
        ≡ answer (
            Keys.get_by_token
              (after made_memory (Keys.revoke_at made_memory (bytes "key_0") 100))
              (bytes "key_0")))
get-Together_example =
    get-Together first_cipher unary_clock (λ i. toy_random)
      (λ i. decrypt-encrypt toy_base64 (toy_aead 1) toy_random (toy_random-length 1))
      (KeysDb.revoke_at first_cipher unary_clock no_faults made_table (bytes "key_0") 100).1
      (after made_memory (Keys.revoke_at made_memory (bytes "key_0") 100)) revoked_Together
      (bytes "key_0")

-- A row whose key ends half a second after the second 3.
abbrev ending_row : Row ℕ
ending_row = record (row_of {F = ℕ} first_cipher unary_clock sample_key sealed) {
  expires_at = some (format unary_clock (3 * second + 500_000_000));
  revoked_at = none;
}

is_expiring_early_example :
    (is_expiring (format unary_clock (3 * second)) ending_row ≡ true)
    × (3 * second < 3 * second + 500_000_000)
is_expiring_early_example =
    is_expiring_early unary_clock ending_row 3 500_000_000 (omega arith) (omega arith) refl refl

migrated_new :
    apply_migrations (λ i. no_faults) (bytes "id" ∷ []) ≡ (done tt, bytes "id" ∷ migrated)
unfolding apply_migrations add_columns add_column column_exists scan_columns valid_bare_ident bytes
    text_eq
migrated_new = refl

apply_migrations_twice_example :
    All (λ c. contains c (bytes "id" ∷ migrated) ≡ true) migrated
    × ((c : Text) → contains c (bytes "id" ∷ []) ≡ true → contains c (bytes "id" ∷ migrated) ≡ true)
    × (apply_migrations (λ i. no_faults) (bytes "id" ∷ migrated) ≡ (done tt, bytes "id" ∷ migrated))
apply_migrations_twice_example =
    apply_migrations_twice (λ i. no_faults) (bytes "id" ∷ []) (bytes "id" ∷ migrated) migrated_new
