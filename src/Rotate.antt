-- ===== src/Rotate.antt =====
-- internal/keys/rotate.go and cmd/rein-rotate-keys/main.go: the rotation of the encryption key. The
-- plan is made before the transaction begins: `meanwhile` is what other connections write between.
pub mod Rewrite
pub mod Safety
pub mod Whole
pub mod Twice
pub mod Late
pub mod Command
mod Tests
use rein.Base.{
  ℕ, ◌+◌, ◌≡◌, Bool, true, false, List, [], ◌∷◌, Option, none, some, if◌then◌else◌, Text, bytes,
  text_eq, trim_space, cut_prefix, length,
}
use rein.Base.Try.{Try, done, failed, ◌>>=◌, ◌>>◌, or_fail}
use rein.Sql.{
  DbCall, Faults, opened, pinged, queried, iterated, begun, prepared, read_back, committed,
  executed, scanned, transaction, update_where,
}
use rein.Cipher.{Random, Cipher, CipherError, Base64, Aead, decode_hex_key, new_aes_gcm}
use rein.KeysDb.{Row, Table}

pub data RotateError : Type 0 where
  path_missing no_old_cipher no_new_cipher : RotateError
  database : DbCall → RotateError
  not_encrypted : Text → CipherError → RotateError
  under_neither : Text → RotateError
  row_missing : Text → RotateError
  unverified : Text → CipherError → RotateError

pub record RotateResult : Type 0 where
  pub rotated : ℕ
  pub skipped : ℕ

-- rotationUpdate
pub record RotationUpdate : Type 0 where
  pub id : Text
  pub new_ciphertext : Text

abbrev pub Plan : Type 0
Plan = List RotationUpdate × ℕ

abbrev pub try_call : Faults → DbCall → Try RotateError Unit
try_call fails c = if fails c then failed (database c) else done tt

module _ {F : Type 0} where
  -- `SELECT upstream_key FROM virtual_keys WHERE id = ?`
  unfoldable pub stored_key : Text → Table F → Option Text
  stored_key id [] = none
  stored_key id (r ∷ rs) = if text_eq r.id id then some r.upstream_key else stored_key id rs

  abbrev pub reseal : Text → Row F → Row F
  reseal ct r = record r { upstream_key = ct }

  -- `UPDATE virtual_keys SET upstream_key = ? WHERE id = ?`
  unfoldable pub apply_update : RotationUpdate → Table F → Table F
  unfolding update_where
  apply_update u t = update_where (λ r. text_eq r.id u.id) (reseal u.new_ciphertext) t

  unfoldable pub apply_updates :
      Faults → ℕ → List RotationUpdate → Table F → Try RotateError (Table F)
  unfolding apply_update
  apply_updates fails i [] t = done t
  apply_updates fails i (u ∷ us) t =
      let rest = apply_updates fails (i + 1) us (apply_update u t) in
      if fails (executed i) then failed (database (executed i)) else rest

  -- The check of the first row that was written.
  unfoldable pub verify : Cipher → Faults → Text → Table F → Try RotateError (Table F)
  unfolding stored_key
  verify new_cipher fails id t =
      if fails read_back then failed (database read_back) else elim (stored_key id t) [
        | none ↦ failed (row_missing id)
        | some enc ↦ elim (new_cipher.decrypt enc) [
          | failed e ↦ failed (unverified id e)
          | done plain ↦ if fails committed then failed (database committed) else done t
        ]
      ]

  -- applyRotation. There is a first update: the caller skips an empty plan.
  unfoldable pub apply_rotation :
      Cipher
      → Faults
      → RotationUpdate
      → List RotationUpdate
      → Table F
      → Try RotateError Unit × Table F
  unfolding apply_updates verify
  apply_rotation new_cipher fails u us t = transaction t do
    try_call fails begun
    try_call fails prepared
    t' ← apply_updates fails 0 (u ∷ us) t
    verify new_cipher fails u.id t'

  abbrev pub report : Plan → Try RotateError Unit × Table F → Try RotateError RotateResult × Table F
  report p (done _, t) = (done (record { rotated = length p.0; skipped = p.1 }), t)
  report p (failed e, t) = (failed e, t)

  module _ (old_cipher : Cipher) (new_cipher : Cipher) (rand : ℕ → Random) (fails : Faults) where
    -- One row of the plan, in front of the plan of the rest.
    unfoldable pub plan_row : ℕ → Row F → Try RotateError Plan → Try RotateError Plan
    plan_row i r rest = elim (old_cipher.decrypt r.upstream_key) [
      | done plain ↦ elim (new_cipher.encrypt (rand i) plain) [
        | failed e ↦ failed (not_encrypted r.id e)
        | done ct ↦ rest >>= λ p. done ((record { id = r.id; new_ciphertext = ct }) ∷ p.0, p.1)
      ]
      | failed _ ↦ elim (new_cipher.decrypt r.upstream_key) [
        | done _ ↦ rest >>= λ p. done (p.0, p.1 + 1)
        | failed _ ↦ failed (under_neither r.id)
      ]
    ]

    unfoldable pub plan_rows : ℕ → Table F → Try RotateError Plan
    unfolding plan_row
    plan_rows i [] = if fails iterated then failed (database iterated) else done ([], 0)
    plan_rows i (r ∷ rs) =
        let next = plan_row i r (plan_rows (i + 1) rs) in
        if fails (scanned i) then failed (database (scanned i)) else next

    unfoldable pub plan_rotation : Table F → Try RotateError Plan
    unfolding plan_rows
    plan_rotation t = if fails queried then failed (database queried) else plan_rows 0 t

    unfoldable pub apply_plan : Plan → Table F → Try RotateError RotateResult × Table F
    unfolding apply_rotation
    apply_plan ([], k) t = (done (record { rotated = 0; skipped = k }), t)
    apply_plan (u ∷ us, k) t = report (u ∷ us, k) (apply_rotation new_cipher fails u us t)

    unfoldable pub rotate_opened :
        (Table F → Table F) → Table F → Try RotateError RotateResult × Table F
    unfolding plan_rotation apply_plan
    rotate_opened meanwhile t = elim (plan_rotation t) [
      | failed e ↦ (failed e, t)
      | done p ↦ apply_plan p (meanwhile t)
    ]

  -- RotateEncryption. A cipher that is nil is `none`.
  unfoldable pub rotate_encryption :
      Text
      → Option Cipher
      → Option Cipher
      → (ℕ → Random)
      → Faults
      → (Table F → Table F)
      → Table F
      → Try RotateError RotateResult × Table F
  unfolding rotate_opened
  rotate_encryption path none new_cipher rand fails meanwhile t =
      (failed (if text_eq (trim_space path) [] then path_missing else no_old_cipher), t)
  rotate_encryption path (some c) none rand fails meanwhile t =
      (failed (if text_eq (trim_space path) [] then path_missing else no_new_cipher), t)
  rotate_encryption path (some old_cipher) (some new_cipher) rand fails meanwhile t =
      if text_eq (trim_space path) []
      then (failed path_missing, t)
      else if fails opened
      then (failed (database opened), t)
      else if fails pinged
      then (failed (database pinged), t)
      else rotate_opened old_cipher new_cipher rand fails meanwhile t
