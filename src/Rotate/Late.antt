-- ===== src/Rotate/Late.antt =====
-- A row that another connection adds after the plan is made.
use rein.Base.{◌≡◌, refl, ap, false, List, [], ◌∷◌, ◌++◌, some, Text, text_eq, All}
use rein.Base.Try.{done}
use rein.Sql.{Faults}
use rein.Cipher.{Random, Cipher}
use rein.KeysDb.{Row, Table}
use rein.Rotate.{RotateResult, RotationUpdate, rotate_encryption}
use rein.Rotate.Rewrite.{rewrite_row, rewrite_rows, rewrite_row-Skips}
use rein.Rotate.Safety.{plan_rows_ids}
use rein.Rotate.Whole.{rotate_opened_done, rotate_encryption_done}
use Prim.Native.Nat.{ℕ}

module _ {F : Type 0} where
  rewrite_rows_last :
      (us : List RotationUpdate) (t : Table F) (r : Row F)
      → rewrite_rows us (t ++ r ∷ []) ≡ rewrite_rows us t ++ rewrite_row us r ∷ []
  unfolding rewrite_rows
  rewrite_rows_last us [] r = refl
  rewrite_rows_last us (q ∷ t) r = ap (λ s. rewrite_row us q ∷ s) (rewrite_rows_last us t r)

  -- A row with a new id that another connection stores between the plan and the transaction stays as
  -- it is, under whatever key, though the rotation succeeds.
  pub rotate_encryption_late :
      (path : Text) (old_cipher new_cipher : Cipher) (rand : ℕ → Random) (fails : Faults)
      (t t' : Table F) (r : Row F) (res : RotateResult)
      → rotate_encryption path (some old_cipher) (some new_cipher) rand fails (λ s. s ++ r ∷ []) t
        ≡ (done res, t')
      → All (λ q. text_eq r.id q.id ≡ false) t
      → (s : Table F) × (t' ≡ s ++ r ∷ [])
  rotate_encryption_late path old_cipher new_cipher rand fails t t' r res ran fresh =
      let opened_ran =
        rotate_encryption_done path old_cipher new_cipher rand fails (λ s. s ++ r ∷ []) t t' res
          ran in
      let (p, planned, written, rotated, skipped) =
        rotate_opened_done old_cipher new_cipher rand fails (λ s. s ++ r ∷ []) t t' res
          opened_ran in
      let skips =
        plan_rows_ids old_cipher new_cipher rand fails (λ id. text_eq r.id id ≡ false) 0 t p planned
          fresh in
      (
        rewrite_rows p.0 t,
        rw (written, rewrite_rows_last p.0 t r, rewrite_row-Skips p.0 r skips) refl,
      )
