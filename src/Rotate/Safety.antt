-- ===== src/Rotate/Safety.antt =====
-- A rotation that succeeds, and one that does not.
use rein.Base.{
  ℕ, suc, ◌+◌, ◌≡◌, refl, false, [], ◌∷◌, Text, text_eq, text_eq_iff, All, length, arith, inl, inr,
  Bool-cases, All-mono,
}
use mathlib.Core.Path.{subst}
use rein.Base.Try.{Try, done, >>=-eq-done, Try-cases}
use rein.Sql.{Faults, scanned}
use rein.Cipher.{Random, Cipher}
use rein.Cipher.Sealed.{Opens}
use rein.KeysDb.{Row, Table}
use rein.Rotate.{RotateError, Plan, plan_row, plan_rows}
use rein.Rotate.Rewrite.{
  rewrite_row, rewrite_rows, Skips, rewrite_row-Skips, DistinctIds, Rotated, kept, AllRotated,
  rewrite_row-Rotated, rewrite_rows-cons_ne, Planned, update, skip,
}

module _ {F : Type 0} (old_cipher : Cipher) (new_cipher : Cipher) (rand : ℕ → Random)
    (fails : Faults) where
  plan_row-Planned :
      (i : ℕ) (r : Row F) (rest : Try RotateError Plan) (p' : Plan)
      → plan_row old_cipher new_cipher rand fails i r rest ≡ done p'
      → (p : Plan) × (rest ≡ done p) × Planned old_cipher new_cipher rand fails i r p p'
  unfolding plan_row
  plan_row-Planned i r rest p' e = elim (Try-cases (old_cipher.decrypt r.upstream_key)) [
    | inl (plain, before) ↦ elim (Try-cases (new_cipher.encrypt (rand i) plain)) [
      | inl (ct, sealed) ↦
          let (p, read, made) = >>=-eq-done rest _ (rw (before, plan_row, sealed) at e) in
          (
            p,
            read,
            subst (λ q. Planned old_cipher new_cipher rand fails i r p q) (ground arith)
                (update ct plain before sealed),
          )
      | inr (x, bad) ↦ absurd (ground arith)
    ]
    | inr (x, refused) ↦ elim (Try-cases (new_cipher.decrypt r.upstream_key)) [
      | inl (plain, after) ↦
          let (p, read, made) = >>=-eq-done rest _ (rw (refused, plan_row, after) at e) in
          (
            p,
            read,
            subst (λ q. Planned old_cipher new_cipher rand fails i r p q) (ground arith)
                (skip x plain refused after),
          )
      | inr (y, bad) ↦ absurd (ground arith)
    ]
  ]

  plan_rows_step :
      (i : ℕ) (r : Row F) (rs : Table F) (p' : Plan)
      → plan_rows old_cipher new_cipher rand fails i (r ∷ rs) ≡ done p'
      → (p : Plan) × (plan_rows old_cipher new_cipher rand fails (i + 1) rs ≡ done p)
        × Planned old_cipher new_cipher rand fails i r p p'
  unfolding plan_rows
  plan_rows_step i r rs p' e = elim (Bool-cases (fails (scanned i))) [
    | inl bad ↦ absurd (ground arith)
    | inr good ↦ plan_row-Planned i r _ p' (rw good at e)
  ]

  -- Every update is for an id of the table.
  planned_ids :
      (P : Text → Type 0) (i : ℕ) (r : Row F) (p p' : Plan)
      → Planned old_cipher new_cipher rand fails i r p p'
      → P r.id
      → All (λ u. P u.id) p.0
      → All (λ u. P u.id) p'.0
  planned_ids P i r p p' (update ct plain before sealed) h a = (h, a)
  planned_ids P i r p p' (skip x plain refused after) h a = a

  pub plan_rows_ids :
      (P : Text → Type 0) (i : ℕ) (t : Table F) (p : Plan)
      → plan_rows old_cipher new_cipher rand fails i t ≡ done p
      → All (λ r. P r.id) t
      → All (λ u. P u.id) p.0
  unfolding plan_rows
  plan_rows_ids P i [] p e h = let same : ◌≡◌ {A = Plan} ([], 0) p = ground arith in rw (← same) tt
  plan_rows_ids P i (r ∷ rs) p' e (here, later) =
      let (p, read, planned) = plan_rows_step i r rs p' e in
      planned_ids P i r p p' planned here (plan_rows_ids P (i + 1) rs p read later)

  -- A row that passes the plan becomes what it should, the updates of the rest being for other ids.
  planned_Rotated :
      (i : ℕ) (r : Row F) (p p' : Plan)
      → Opens new_cipher (rand i)
      → Planned old_cipher new_cipher rand fails i r p p'
      → Skips r.id p.0
      → Rotated old_cipher new_cipher r (rewrite_row p'.0 r)
  planned_Rotated i r p p' opens (update ct plain before sealed) skips =
      rewrite_row-Rotated old_cipher new_cipher (record { id = r.id; new_ciphertext = ct }) p.0 r
        plain ((text_eq_iff r.id r.id).1 refl) skips before (opens plain ct sealed)
  planned_Rotated i r p p' opens (skip x plain refused after) skips =
      rw (rewrite_row-Skips p.0 r skips) (kept x plain refused after)

  planned_rest :
      (i : ℕ) (r : Row F) (p p' : Plan) (rs : Table F)
      → Planned old_cipher new_cipher rand fails i r p p'
      → All (λ q. text_eq q.id r.id ≡ false) rs
      → rewrite_rows p'.0 rs ≡ rewrite_rows p.0 rs
  planned_rest i r p p' rs (update ct plain before sealed) others =
      rewrite_rows-cons_ne old_cipher new_cipher (record { id = r.id; new_ciphertext = ct }) p.0 rs
        others
  planned_rest i r p p' rs (skip x plain refused after) others = refl

  planned_count :
      (i : ℕ) (r : Row F) (p p' : Plan)
      → Planned old_cipher new_cipher rand fails i r p p'
      → length p'.0 + p'.1 ≡ suc (length p.0 + p.1)
  planned_count i r p p' (update ct plain before sealed) = omega arith
  planned_count i r p p' (skip x plain refused after) = omega arith

  pub plan_rows-AllRotated :
      ((i : ℕ) → Opens new_cipher (rand i))
      → (i : ℕ) (t : Table F) (p : Plan) → plan_rows old_cipher new_cipher rand fails i t ≡ done p
      → DistinctIds t
      → AllRotated old_cipher new_cipher t (rewrite_rows p.0 t) × (length p.0 + p.1 ≡ length t)
  unfolding rewrite_rows plan_rows
  plan_rows-AllRotated opens i [] p e d =
      let same : ◌≡◌ {A = Plan} ([], 0) p = ground arith in (tt, rw (← same) (omega arith))
  plan_rows-AllRotated opens i (r ∷ rs) p' e (others, d) =
      let (p, read, planned) = plan_rows_step i r rs p' e in
      let (rotated, counted) = plan_rows-AllRotated opens (i + 1) rs p read d in
      let skips =
        plan_rows_ids (λ id. text_eq r.id id ≡ false) (i + 1) rs p read
          (All-mono _ _ (λ q h. h.0) rs others) in
      (
        (
          planned_Rotated i r p p' (opens i) planned skips,
          rw (planned_rest i r p p' rs planned (All-mono _ _ (λ q h. h.1) rs others)) rotated,
        ),
        omega (arith, planned_count i r p p' planned),
      )
