-- ===== src/Rotate/Whole.antt =====
-- The whole rotation: one that succeeds, one that does not, and a second one.
use rein.Base.{
  ℕ, ◌≡◌, ap, sym, ◌∙◌, false, List, [], ◌∷◌, some, Text, text_eq, length, arith, inl, inr,
  Bool-cases, Option-cases, ◌⊎◌, trim_space,
}
use rein.Base.Try.{Try, done, failed, >>=-eq-done, Try-cases}
use rein.Sql.{Faults, queried, opened, pinged, begun, prepared, transaction}
use rein.Cipher.{Random, Cipher}
use rein.KeysDb.{Table}
use rein.Rotate.{
  RotateError, RotateResult, RotationUpdate, Plan, try_call, stored_key, plan_rows, plan_rotation,
  apply_rotation, apply_updates, apply_plan, rotate_opened, rotate_encryption, verify, report,
}
use rein.Rotate.Rewrite.{rewrite_rows, rewrite_rows-none, apply_updates-rewrite_rows}

try_call-done :
    (fails : Faults) → (c : _) → {x : Unit {0}} → try_call fails c ≡ done x → fails c ≡ false
try_call-done fails c e = elim (Bool-cases (fails c)) [
  | inl bad ↦ absurd (ground arith)
  | inr good ↦ good
]

module _ {F : Type 0} where
  transaction_done :
      (t t' : Table F) (m : Try RotateError (Table F)) {x : Unit {0}}
      → transaction t m ≡ (done x, t')
      → m ≡ done t'
  transaction_done t t' (done s) e = ap done (ap (λ p. p.1) e)
  transaction_done t t' (failed x) e = absurd (ground arith)

  transaction_failed :
      (t t' : Table F) (m : Try RotateError (Table F)) {x : RotateError}
      → transaction t m ≡ (failed x, t')
      → t' ≡ t
  transaction_failed t t' (done s) e = absurd (ground arith)
  transaction_failed t t' (failed x) e = sym (ap (λ p. p.1) e)

  verify_same :
      (c : Cipher) (fails : Faults) (id : Text) (t t' : Table F)
      → verify c fails id t ≡ done t'
      → t ≡ t'
  unfolding verify
  verify_same c fails id t t' e = elim (Option-cases (stored_key id t)) [
    | inl gone ↦ absurd (ground arith)
    | inr (enc, there) ↦ elim (Try-cases (c.decrypt enc)) [
      | inl (p, open_) ↦ ground arith
      | inr (x, bad) ↦ absurd (ground arith)
    ]
  ]

  apply_rotation_done :
      (c : Cipher) (fails : Faults) (u : RotationUpdate) (us : List RotationUpdate) (t t' : Table F)
      {x : Unit {0}}
      → apply_rotation c fails u us t ≡ (done x, t')
      → apply_updates fails 0 (u ∷ us) t ≡ done t'
  unfolding apply_rotation
  apply_rotation_done c fails u us t t' e =
      let m = transaction_done t t' _ e in
      let (a, began, m1) = >>=-eq-done (try_call fails begun) _ m in
      let (b, ready, m2) = >>=-eq-done (try_call fails prepared) _ m1 in
      let (t2, ran, m3) = >>=-eq-done (apply_updates fails 0 (u ∷ us) t) _ m2 in
      ran ∙ ap done (verify_same c fails u.id t2 t' m3)

  report_done :
      (p : Plan) (m : Try RotateError Unit × Table F) (t' : Table F) (res : RotateResult)
      → report p m ≡ (done res, t')
      → (x : Unit {0}) × (m ≡ (done x, t')) × (res.rotated ≡ length p.0) × (res.skipped ≡ p.1)
  report_done p (done x, t) t' res e = (x, ap (λ q. (done x, q.1)) e, ground arith, ground arith)
  report_done p (failed x, t) t' res e = absurd (ground arith)

  report_failed :
      (p : Plan) (m : Try RotateError Unit × Table F) (t' : Table F) (x : RotateError)
      → report p m ≡ (failed x, t')
      → (y : RotateError) × (m ≡ (failed y, t'))
  report_failed p (done y, t) t' x e = absurd (ground arith)
  report_failed p (failed y, t) t' x e = (y, ap (λ q. (failed y, q.1)) e)

module _ {F : Type 0} (old_cipher : Cipher) (new_cipher : Cipher) (rand : ℕ → Random)
    (fails : Faults) where
  apply_plan_done :
      (p : Plan) (t t' : Table F) (res : RotateResult)
      → apply_plan old_cipher new_cipher rand fails p t ≡ (done res, t')
      → (t' ≡ rewrite_rows p.0 t) × (res.rotated ≡ length p.0) × (res.skipped ≡ p.1)
  unfolding apply_plan
  apply_plan_done ([], k) t t' res e =
      (sym (ap (λ q. q.1) e) ∙ sym (rewrite_rows-none t), ground arith, ground arith)
  apply_plan_done (u ∷ us, k) t t' res e =
      let (x, applied, rotated, skipped) =
        report_done (u ∷ us, k) (apply_rotation new_cipher fails u us t) t' res e in
      (
        apply_updates-rewrite_rows fails 0 (u ∷ us) t t'
            (apply_rotation_done new_cipher fails u us t t' applied),
        rotated,
        skipped,
      )

  apply_plan_failed :
      (p : Plan) (t t' : Table F) (x : RotateError)
      → apply_plan old_cipher new_cipher rand fails p t ≡ (failed x, t')
      → t' ≡ t
  unfolding apply_plan apply_rotation
  apply_plan_failed ([], k) t t' x e = absurd (ground arith)
  apply_plan_failed (u ∷ us, k) t t' x e =
      let (y, rolled_back) =
        report_failed (u ∷ us, k) (apply_rotation new_cipher fails u us t) t' x e in
      transaction_failed t t' _ rolled_back

  plan_rotation_rows :
      (t : Table F) (p : Plan)
      → plan_rotation old_cipher new_cipher rand fails t ≡ done p
      → plan_rows old_cipher new_cipher rand fails 0 t ≡ done p
  unfolding plan_rotation
  plan_rotation_rows t p e = elim (Bool-cases (fails queried)) [
    | inl bad ↦ absurd (ground arith)
    | inr good ↦ ground arith
  ]

  pub rotate_opened_done :
      (meanwhile : Table F → Table F) (t t' : Table F) (res : RotateResult)
      → rotate_opened old_cipher new_cipher rand fails meanwhile t ≡ (done res, t')
      → (p : Plan) × (plan_rows old_cipher new_cipher rand fails 0 t ≡ done p)
        × (t' ≡ rewrite_rows p.0 (meanwhile t))
        × (res.rotated ≡ length p.0)
        × (res.skipped ≡ p.1)
  unfolding rotate_opened
  rotate_opened_done meanwhile t t' res e =
      elim (Try-cases (plan_rotation old_cipher new_cipher rand fails t)) [
        | inl (p, planned) ↦
            let (written, rotated, skipped) =
              apply_plan_done p (meanwhile t) t' res (rw (planned, rotate_opened) at e) in
            (p, plan_rotation_rows t p planned, written, rotated, skipped)
        | inr (x, bad) ↦ absurd (ground arith)
      ]

module _ {F : Type 0} (path : Text) (old_cipher : Cipher) (new_cipher : Cipher) (rand : ℕ → Random)
    (fails : Faults) (meanwhile : Table F → Table F) (t : Table F) (t' : Table F) where
  pub rotate_encryption_done :
      (res : RotateResult)
      → rotate_encryption path (some old_cipher) (some new_cipher) rand fails meanwhile t
        ≡ (done res, t')
      → rotate_opened old_cipher new_cipher rand fails meanwhile t ≡ (done res, t')
  unfolding rotate_encryption
  rotate_encryption_done res e = elim (Bool-cases (text_eq (trim_space path) [])) [
    | inl empty ↦ absurd (ground arith)
    | inr named ↦ elim (Bool-cases (fails opened)) [
      | inl bad ↦ absurd (ground arith)
      | inr open_ ↦ elim (Bool-cases (fails pinged)) [
        | inl bad ↦ absurd (ground arith)
        | inr alive ↦ rw (named, open_, alive) at e
      ]
    ]
  ]

  -- A rotation that fails, at whatever row or call of the database, writes nothing: the table is as it
  -- was, but for what other connections wrote before the transaction.
  pub rotate_encryption_failed :
      (x : RotateError)
      → rotate_encryption path (some old_cipher) (some new_cipher) rand fails meanwhile t
        ≡ (failed x, t')
      → (t' ≡ t) ⊎ (t' ≡ meanwhile t)
  unfolding rotate_encryption rotate_opened
  rotate_encryption_failed x e = elim (Bool-cases (text_eq (trim_space path) [])) [
    | inl empty ↦ inl (sym (ap (λ q. q.1) (rw empty at e)))
    | inr named ↦ elim (Bool-cases (fails opened)) [
      | inl bad ↦ inl (sym (ap (λ q. q.1) (rw (named, bad) at e)))
      | inr open_ ↦ elim (Bool-cases (fails pinged)) [
        | inl bad ↦ inl (sym (ap (λ q. q.1) (rw (named, open_, bad) at e)))
        | inr alive ↦ elim (Try-cases (plan_rotation old_cipher new_cipher rand fails t)) [
          | inl (p, planned) ↦ inr (
              apply_plan_failed old_cipher new_cipher rand fails p (meanwhile t) t' x
                (rw (named, open_, alive, rotate_opened, planned) at e))
          | inr (y, refused) ↦
              inl (sym (ap (λ q. q.1) (rw (named, open_, alive, rotate_opened, refused) at e)))
        ]
      ]
    ]
  ]
