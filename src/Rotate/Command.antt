-- ===== src/Rotate/Command.antt =====
-- cmd/rein-rotate-keys/main.go: the command around the rotation. flag.Parse is not modelled: its
-- result is the argument, and so are the table of the database at a path and its faults.
use rein.Base.{
  ℕ, ◌+◌, ◌≡◌, ap, ◌∙◌, Bool, [], Option, none, some, if◌then◌else◌, Text, bytes, text_eq,
  trim_space, cut_prefix, length, arith, inl, inr, Bool-cases,
}
use mathlib.Core.Path.{subst}
use rein.Base.Try.{Try, done, failed, ◌>>=◌, ◌>>◌, or_fail, >>=-eq-done, Try-cases}
use rein.Sql.{Faults}
use rein.Cipher.{Random, Cipher, CipherError, Base64, Aead, decode_hex_key, new_aes_gcm, aes_gcm}
use rein.Cipher.Sealed.{Opens, decrypt-encrypt, new_aes_gcm_done}
use rein.KeysDb.{Table}
use rein.Rotate.{RotateError, RotateResult, rotate_encryption}
use rein.Rotate.Rewrite.{DistinctIds, AllRotated}
use rein.Rotate.Twice.{rotate_encryption-AllRotated}

pub data CommandError : Type 0 where
  no_db no_old_key no_new_key same_keys bad_scheme no_path : CommandError
  bad_old_key bad_new_key : CipherError → CommandError
  rotation : RotateError → CommandError

pub record Flags : Type 0 where
  pub db : Text
  pub old_key : Text
  pub new_key : Text
  pub version : Bool

-- parseSQLiteURL
unfoldable pub parse_sqlite_url : Text → Try CommandError Text
parse_sqlite_url db_url = do
  path ← or_fail bad_scheme (cut_prefix (trim_space db_url) (bytes "sqlite:"))
  if text_eq (trim_space path) [] then failed no_path else done path

-- cipherFromHex
unfoldable pub cipher_from_hex : Base64 → (Text → Option Aead) → Text → Try CipherError Cipher
cipher_from_hex b64 gcm h = do raw ← decode_hex_key h; new_aes_gcm b64 gcm raw

abbrev pub or_error :
    {A : Type 0} → (CipherError → CommandError) → Try CipherError A → Try CommandError A
or_error f (done a) = done a
or_error f (failed e) = failed (f e)

-- The checks of the flags, in the command's order.
unfoldable pub check_flags : Flags → Try CommandError Unit
check_flags f =
    if text_eq f.db []
    then failed no_db
    else if text_eq f.old_key []
    then failed no_old_key
    else if text_eq f.new_key []
    then failed no_new_key
    else if text_eq f.old_key f.new_key
    then failed same_keys
    else done tt

unfoldable pub prepare :
    Base64 → (Text → Option Aead) → Flags → Try CommandError (Text × Cipher × Cipher)
unfolding check_flags parse_sqlite_url cipher_from_hex
prepare b64 gcm f = do
  check_flags f
  path ← parse_sqlite_url f.db
  old_cipher ← or_error bad_old_key (cipher_from_hex b64 gcm f.old_key)
  new_cipher ← or_error bad_new_key (cipher_from_hex b64 gcm f.new_key)
  done (path, old_cipher, new_cipher)

module _ {F : Type 0} where
  abbrev pub with_result :
      Try RotateError RotateResult × Table F → Try CommandError (Option RotateResult) × Table F
  with_result (done res, t) = (done (some res), t)
  with_result (failed e, t) = (failed (rotation e), t)

  with_result_done :
      (m : Try RotateError RotateResult × Table F) {res : RotateResult} {t : Table F}
      → with_result m ≡ (done (some res), t)
      → m ≡ (done res, t)
  with_result_done (done r, s) e = ground arith
  with_result_done (failed x, s) e = absurd (ground arith)

  unfoldable pub rotate_prepared :
      (ℕ → Random)
      → Faults
      → (Table F → Table F)
      → Table F
      → Try CommandError (Text × Cipher × Cipher)
      → Try CommandError (Option RotateResult) × Table F
  rotate_prepared rand fails meanwhile t (failed e) = (failed e, t)
  rotate_prepared rand fails meanwhile t (done (path, old_cipher, new_cipher)) =
      with_result
        (rotate_encryption path (some old_cipher) (some new_cipher) rand fails meanwhile t)

  -- run. `none` is the version.  `meanwhile` is what other connections write while it runs.
  unfoldable pub run :
      Base64
      → (Text → Option Aead)
      → Flags
      → (ℕ → Random)
      → Faults
      → (Table F → Table F)
      → Table F
      → Try CommandError (Option RotateResult) × Table F
  unfolding prepare rotate_prepared
  run b64 gcm f rand fails meanwhile t =
      if f.version
      then (done none, t)
      else rotate_prepared rand fails meanwhile t (prepare b64 gcm f)

module _ (b64 : Base64) (gcm : Text → Option Aead) where
  cipher_from_hex_done :
      (h : Text) (c : Cipher)
      → cipher_from_hex b64 gcm h ≡ done c
      → (aead : Aead) × (aes_gcm b64 aead ≡ c)
  unfolding cipher_from_hex
  cipher_from_hex_done h c e =
      let (raw, decoded, made) = >>=-eq-done (decode_hex_key h) _ e in
      new_aes_gcm_done b64 gcm raw c made

  or_error_done :
      {A : Type 0} (f : CipherError → CommandError) (m : Try CipherError A) {a : A}
      → or_error f m ≡ done a
      → m ≡ done a
  or_error_done f (done b) e = ground arith
  or_error_done f (failed x) e = absurd (ground arith)

  prepare_done :
      (f : Flags) (path : Text) (old_cipher new_cipher : Cipher)
      → prepare b64 gcm f ≡ done (path, old_cipher, new_cipher)
      → (cipher_from_hex b64 gcm f.old_key ≡ done old_cipher)
        × (cipher_from_hex b64 gcm f.new_key ≡ done new_cipher)
  unfolding prepare
  prepare_done f path old_cipher new_cipher e =
      let (x, checked, e1) = >>=-eq-done (check_flags f) _ e in
      let (p, parsed, e2) = >>=-eq-done (parse_sqlite_url f.db) _ e1 in
      let (c, old, e3) =
        >>=-eq-done (or_error bad_old_key (cipher_from_hex b64 gcm f.old_key)) _ e2 in
      let (d, new, e4) =
        >>=-eq-done (or_error bad_new_key (cipher_from_hex b64 gcm f.new_key)) _ e3 in
      let last : ◌≡◌ {A = Text × Cipher × Cipher} (p, c, d) (path, old_cipher, new_cipher) =
        ground arith in
      (
        or_error_done bad_old_key _ old ∙ ap (λ (q : Text × Cipher × Cipher). done q.1) last,
        or_error_done bad_new_key _ new ∙ ap (λ (q : Text × Cipher × Cipher). done q.2) last,
      )

  module _ {F : Type 0} (f : Flags) (rand : ℕ → Random) (fails : Faults) (t : Table F)
      (t' : Table F) (res : RotateResult) where
    run_prepared :
        run b64 gcm f rand fails (λ s. s) t ≡ (done (some res), t')
        → (path : Text) × (old_cipher : Cipher) × (new_cipher : Cipher) × (prepare b64 gcm f
            ≡ done (path, old_cipher, new_cipher))
          × (rotate_encryption path (some old_cipher) (some new_cipher) rand fails (λ s. s) t
              ≡ (done res, t'))
    unfolding run
    run_prepared e = elim (Bool-cases f.version) [
      | inl asked ↦ absurd (ground arith)
      | inr rotating ↦ elim (Try-cases (prepare b64 gcm f)) [
        | inl ((path, c, d), ready) ↦
            (path, c, d, ready, with_result_done _ (rw (rotating, ready, rotate_prepared) at e))
        | inr (x, bad) ↦ absurd (ground arith)
      ]
    ]

    -- The command, with the keys of its flags, on a table whose rows have distinct ids and that nothing
    -- else writes: if it reports a result, then each row is in its place and opens under the new key
    -- to the plaintext that the old key gave, or was under the new key before and has not changed.
    -- AES-GCM opens what it seals under a nonce of its size, and the
    -- source of randomness fills the buffer that it is given.
    pub run-AllRotated :
        run b64 gcm f rand fails (λ s. s) t ≡ (done (some res), t')
        → DistinctIds t
        → ((i n : ℕ) (nonce : Text) → rand i n ≡ some nonce → length nonce ≡ n)
        → (old_cipher : Cipher) × (new_cipher : Cipher) × (cipher_from_hex b64 gcm f.old_key
            ≡ done old_cipher)
          × (cipher_from_hex b64 gcm f.new_key ≡ done new_cipher)
          × AllRotated old_cipher new_cipher t t'
          × (res.rotated + res.skipped ≡ length t)
    run-AllRotated e ids sized =
        let (path, c, d, ready, rotated) = run_prepared e in
        let (old, new) = prepare_done f path c d ready in
        let (aead, made) = cipher_from_hex_done f.new_key d new in
        let opens : (i : ℕ) → Opens d (rand i) = λ i.
          subst (λ x. Opens x (rand i)) made
            (decrypt-encrypt b64 aead (rand i) (sized i aead.nonce_size)) in
        let (all, counted) =
          rotate_encryption-AllRotated c d rand path fails t t' res rotated ids opens in
        (c, d, old, new, all, counted)
