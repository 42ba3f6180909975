-- ===== src/Rotate/Twice.antt =====
-- Every row after a rotation, and a rotation after a rotation.
use rein.Base.{
  ℕ, suc, ◌+◌, ◌≡◌, refl, ap, ◌∙◌, false, [], ◌∷◌, some, Text, text_eq, All, length, arith,
  trim_space,
}
use rein.Base.Try.{Try, done, failed, ◌>>=◌}
use rein.Sql.{Faults, no_faults}
use rein.Cipher.{Random, Cipher, CipherError}
use rein.Cipher.Sealed.{Opens}
use rein.KeysDb.{Row, Table}
use rein.Rotate.{
  RotateError, RotateResult, Plan, plan_row, plan_rows, plan_rotation, apply_plan, rotate_opened,
  rotate_encryption,
}
use rein.Rotate.Rewrite.{DistinctIds, Rotated, resealed, kept, AllRotated}
use rein.Rotate.Safety.{plan_rows-AllRotated}
use rein.Rotate.Whole.{rotate_opened_done, rotate_encryption_done}

-- The old cipher does not open what the row stores.
abbrev pub IsClosed : {F : Type 0} → Cipher → Row F → Type 0
IsClosed old_cipher r = (e : CipherError) × (old_cipher.decrypt r.upstream_key ≡ failed e)

-- The row is under the new cipher only.
abbrev pub IsMoved : {F : Type 0} → Cipher → Cipher → Row F → Type 0
IsMoved old_cipher new_cipher r =
    (e : CipherError) × (p : Text) × (old_cipher.decrypt r.upstream_key ≡ failed e)
    × (new_cipher.decrypt r.upstream_key ≡ done p)

module _ {F : Type 0} (old_cipher : Cipher) (new_cipher : Cipher) where
  AllRotated-length :
      (t t' : Table F) → AllRotated old_cipher new_cipher t t' → length t' ≡ length t
  AllRotated-length [] [] h = refl
  AllRotated-length (r ∷ rs) (r' ∷ rs') (_, later) = ap suc (AllRotated-length rs rs' later)
  AllRotated-length [] (r ∷ rs) h = absurd h
  AllRotated-length (r ∷ rs) [] h = absurd h

  Rotated-IsMoved :
      (r r' : Row F)
      → IsClosed old_cipher r'
      → Rotated old_cipher new_cipher r r'
      → IsMoved old_cipher new_cipher r'
  Rotated-IsMoved r r' (e, closed) (resealed ct plain before after) = (e, plain, closed, after)
  Rotated-IsMoved r r' closed (kept e plain refused after) = (e, plain, refused, after)

  AllRotated-IsMoved :
      (t t' : Table F)
      → All (IsClosed old_cipher) t'
      → AllRotated old_cipher new_cipher t t'
      → All (IsMoved old_cipher new_cipher) t'
  AllRotated-IsMoved [] [] c h = tt
  AllRotated-IsMoved (r ∷ rs) (r' ∷ rs') (closed, c) (here, later) =
      (Rotated-IsMoved r r' closed here, AllRotated-IsMoved rs rs' c later)
  AllRotated-IsMoved [] (r ∷ rs) c h = absurd h
  AllRotated-IsMoved (r ∷ rs) [] c h = absurd h

  module _ (rand : ℕ → Random) where
    plan_row_again :
        (i : ℕ) (r : Row F) (rest : Try RotateError Plan)
        → IsMoved old_cipher new_cipher r
        → plan_row old_cipher new_cipher rand no_faults i r rest
          ≡ (rest >>= λ p. done (p.0, p.1 + 1))
    unfolding plan_row
    plan_row_again i r rest (e, p, refused, opens) = rw (refused, plan_row, opens) refl

    plan_rows_again :
        (i : ℕ) (t : Table F)
        → All (IsMoved old_cipher new_cipher) t
        → plan_rows old_cipher new_cipher rand no_faults i t ≡ done ([], length t)
    unfolding plan_rows
    plan_rows_again i [] h = refl
    plan_rows_again i (r ∷ rs) (here, later) =
        plan_row_again i r _ here ∙ rw (plan_rows_again (i + 1) rs later) (ground arith)

    -- With no failing call, a rotation of rows that are all under the new key skips every one.
    rotate_again :
        (path : Text) (t : Table F)
        → text_eq (trim_space path) [] ≡ false
        → All (IsMoved old_cipher new_cipher) t
        → rotate_encryption path (some old_cipher) (some new_cipher) rand no_faults (λ s. s) t
          ≡ (done (record { rotated = 0; skipped = length t }), t)
    unfolding rotate_encryption rotate_opened plan_rotation apply_plan
    rotate_again path t named h =
        rw (named, plan_rows_again 0 t h, rotate_opened, plan_rotation) refl

  module _ (rand : ℕ → Random) (path : Text) (fails : Faults) (t : Table F) (t' : Table F)
      (res : RotateResult)
      (ran : rotate_encryption path (some old_cipher) (some new_cipher) rand fails (λ s. s) t
        ≡ (done res, t'))
      (ids : DistinctIds t) (opens : (i : ℕ) → Opens new_cipher (rand i)) where
    -- After a rotation that succeeds, with no other writer, each row is in its place and either has been
    -- sealed again so that the new cipher opens it to the plaintext that the old one did, or was under
    -- the new cipher before and has not changed. Every row is counted once.
    pub rotate_encryption-AllRotated :
        AllRotated old_cipher new_cipher t t' × (res.rotated + res.skipped ≡ length t)
    rotate_encryption-AllRotated =
        let opened_ran =
          rotate_encryption_done path old_cipher new_cipher rand fails (λ s. s) t t' res ran in
        let (p, planned, written, rotated, skipped) =
          rotate_opened_done old_cipher new_cipher rand fails (λ s. s) t t' res opened_ran in
        let (all, counted) =
          plan_rows-AllRotated old_cipher new_cipher rand fails opens 0 t p planned ids in
        (rw written all, omega arith)

    -- After a rotation that succeeds, on rows with distinct ids and with no other writer, of which the
    -- old key opens none any more, a second rotation between the same keys ends if no call fails,
    -- skips every row and changes none.
    pub rotate_encryption_twice :
        (again : ℕ → Random)
        → text_eq (trim_space path) [] ≡ false
        → All (IsClosed old_cipher) t'
        → rotate_encryption path (some old_cipher) (some new_cipher) again no_faults (λ s. s) t'
          ≡ (done (record { rotated = 0; skipped = length t }), t')
    rotate_encryption_twice again named closed =
        let all = rotate_encryption-AllRotated.0 in
        rw (← AllRotated-length t t' all)
          (rotate_again again path t' named (AllRotated-IsMoved t t' closed all))
