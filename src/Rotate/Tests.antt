-- ===== src/Rotate/Tests.antt =====
-- A rotation of a table with one row, under the key that starts with 1.
use rein.Base.{
  All, ℕ, ◌≡◌, ◌+◌, refl, true, false, [], ◌∷◌, ◌++◌, some, ◌⊎◌, Text, bytes, text_eq, trim_space,
  cut_prefix, drop, length,
}
use rein.Base.Try.{done, failed}
use rein.Sql.{Faults, no_faults, committed, update_where}
use rein.Cipher.{
  not_authentic, Cipher, decode_hex_key, decode_hex, hex_digit, new_aes_gcm, aes_gcm, aes_encrypt,
  aes_decrypt, open_payload,
}
use rein.Cipher.Sealed.{decrypt-encrypt}
use rein.Cipher.Toy.{
  first_cipher, second_cipher, toy_base64, toy_gcm, toy_aead, toy_random, toy_random-length,
  unseal_byte, zeros,
}
use rein.Rfc3339.Unary.{unary_clock}
use rein.Samples.{sample_key}
use rein.KeysDb.{Row, Table, row_of}
use rein.Rotate.{
  database, RotateResult, plan_row, plan_rows, plan_rotation, apply_update, apply_updates, verify,
  stored_key, apply_rotation, apply_plan, rotate_opened, rotate_encryption,
}
use rein.Rotate.Rewrite.{AllRotated}
use rein.Rotate.Whole.{rotate_encryption_failed}
use rein.Rotate.Twice.{IsClosed, rotate_encryption_twice}
use rein.Rotate.Late.{rotate_encryption_late}
use rein.Rotate.Command.{
  Flags, cipher_from_hex, check_flags, parse_sqlite_url, prepare, rotate_prepared, run,
  run-AllRotated,
}

abbrev row : Text → Text → Row ℕ
row id ct = record (row_of {F = ℕ} first_cipher unary_clock sample_key ct) { id = id }

abbrev before : Table ℕ
before = row (bytes "key_0") (bytes "v1:" ++ (0 ∷ 1 ∷ bytes "sk-0")) ∷ []

abbrev after : Table ℕ
after = row (bytes "key_0") (bytes "v1:" ++ (0 ∷ 2 ∷ bytes "sk-0")) ∷ []

abbrev late_row : Row ℕ
late_row = row (bytes "key_1") (bytes "v1:" ++ (0 ∷ 1 ∷ bytes "sk-1"))

abbrev one : RotateResult
one = record { rotated = 1; skipped = 0 }

named : text_eq (trim_space (bytes "rein.db")) [] ≡ false
unfolding text_eq trim_space bytes
named = refl

rotated :
    rotate_encryption
      (bytes "rein.db")
      (some first_cipher)
      (some second_cipher)
      (λ i. toy_random)
      no_faults
      (λ s. s)
      before
    ≡ (done one, after)
unfolding rotate_encryption rotate_opened plan_rotation plan_rows plan_row apply_plan apply_rotation
    apply_updates apply_update verify stored_key aes_gcm aes_encrypt aes_decrypt open_payload
    unseal_byte zeros bytes text_eq update_where trim_space cut_prefix row_of drop
rotated = refl

after-IsClosed : All (IsClosed first_cipher) after
unfolding aes_gcm aes_decrypt open_payload unseal_byte bytes cut_prefix drop row_of
after-IsClosed = ((not_authentic, refl), tt)

rotate_encryption_twice_example :
    rotate_encryption
      (bytes "rein.db")
      (some first_cipher)
      (some second_cipher)
      (λ i. toy_random)
      no_faults
      (λ s. s)
      after
    ≡ (done (record { rotated = 0; skipped = 1 }), after)
rotate_encryption_twice_example =
    rotate_encryption_twice first_cipher second_cipher (λ i. toy_random) (bytes "rein.db") no_faults
      before after one rotated (tt, tt)
      (λ i. decrypt-encrypt toy_base64 (toy_aead 2) toy_random (toy_random-length 1))
      (λ i. toy_random) named after-IsClosed

-- The commit fails.
abbrev commit_fails : Faults
commit_fails committed = true
commit_fails _ = false

not_committed :
    rotate_encryption
      (bytes "rein.db")
      (some first_cipher)
      (some second_cipher)
      (λ i. toy_random)
      commit_fails
      (λ s. s ++ late_row ∷ [])
      before
    ≡ (failed (database committed), before ++ late_row ∷ [])
unfolding rotate_encryption rotate_opened plan_rotation plan_rows plan_row apply_plan apply_rotation
    apply_updates apply_update verify stored_key aes_gcm aes_encrypt aes_decrypt open_payload
    unseal_byte zeros bytes text_eq update_where trim_space cut_prefix row_of drop
not_committed = refl

rotate_encryption_failed_example :
    (before ++ late_row ∷ [] ≡ before) ⊎ (before ++ late_row ∷ [] ≡ before ++ late_row ∷ [])
rotate_encryption_failed_example =
    rotate_encryption_failed (bytes "rein.db") first_cipher second_cipher (λ i. toy_random)
      commit_fails (λ s. s ++ late_row ∷ []) before (before ++ late_row ∷ []) (database committed)
      not_committed

rotated_late :
    rotate_encryption
      (bytes "rein.db")
      (some first_cipher)
      (some second_cipher)
      (λ i. toy_random)
      no_faults
      (λ s. s ++ late_row ∷ [])
      before
    ≡ (done one, after ++ late_row ∷ [])
unfolding rotate_encryption rotate_opened plan_rotation plan_rows plan_row apply_plan apply_rotation
    apply_updates apply_update verify stored_key aes_gcm aes_encrypt aes_decrypt open_payload
    unseal_byte zeros bytes text_eq update_where trim_space cut_prefix row_of drop
rotated_late = refl

fresh : text_eq (bytes "key_1") (bytes "key_0") ≡ false
unfolding text_eq bytes
fresh = refl

rotate_encryption_late_example : (s : Table ℕ) × (after ++ late_row ∷ [] ≡ s ++ late_row ∷ [])
rotate_encryption_late_example =
    rotate_encryption_late (bytes "rein.db") first_cipher second_cipher (λ i. toy_random) no_faults
      before (after ++ late_row ∷ []) late_row one rotated_late (fresh, tt)

abbrev hex_key : ℕ → Text
hex_key d =
    bytes "0" ++ (d ∷ bytes "00000000000000000000000000000000000000000000000000000000000000")

abbrev flags : Flags
flags = record {
  db = bytes "sqlite:rein.db";
  old_key = hex_key b'1';
  new_key = hex_key b'2';
  version = false;
}

ran :
    run {F = ℕ} toy_base64 toy_gcm flags (λ i. toy_random) no_faults (λ s. s) before
    ≡ (done (some one), after)
unfolding run prepare check_flags parse_sqlite_url cipher_from_hex decode_hex_key decode_hex
    hex_digit new_aes_gcm rotate_prepared rotate_encryption rotate_opened plan_rotation plan_rows
    plan_row apply_plan apply_rotation apply_updates apply_update verify stored_key aes_gcm
    aes_encrypt aes_decrypt open_payload unseal_byte zeros bytes text_eq update_where cut_prefix
    trim_space row_of drop
ran = refl

run-AllRotated_example :
    (old_cipher : Cipher) × (new_cipher : Cipher) × (cipher_from_hex toy_base64 toy_gcm
        (hex_key b'1')
      ≡ done old_cipher)
    × (cipher_from_hex toy_base64 toy_gcm (hex_key b'2') ≡ done new_cipher)
    × AllRotated old_cipher new_cipher before after
    × (one.rotated + one.skipped ≡ length before)
run-AllRotated_example =
    run-AllRotated toy_base64 toy_gcm flags (λ i. toy_random) no_faults before after one ran
      (tt, tt) (λ i n nonce e. toy_random-length n nonce e)
