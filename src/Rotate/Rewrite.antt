-- ===== src/Rotate/Rewrite.antt =====
-- What the plan and its updates do to the table.
use rein.Base.{
  ℕ, ◌+◌, ◌≡◌, refl, ap, sym, ◌∙◌, true, false, List, [], ◌∷◌, if◌then◌else◌, Text, text_eq, All,
  arith, inl, inr, Bool-cases,
}
use rein.Base.Try.{done, failed}
use rein.Sql.{Faults, update_where, executed}
use rein.Cipher.{Random, Cipher, CipherError}
use rein.KeysDb.{Row, Table}
use rein.Rotate.{RotationUpdate, Plan, reseal, apply_update, apply_updates}

-- No update is for the row with this id.
abbrev pub Skips : Text → List RotationUpdate → Type 0
Skips id us = All (λ u. text_eq id u.id ≡ false) us

module _ {F : Type 0} where
  -- What one row becomes under the updates in turn.
  unfoldable pub rewrite_row : List RotationUpdate → Row F → Row F
  rewrite_row [] r = r
  rewrite_row (u ∷ us) r =
      rewrite_row us (if text_eq r.id u.id then reseal u.new_ciphertext r else r)

  unfoldable pub rewrite_rows : List RotationUpdate → Table F → Table F
  rewrite_rows us [] = []
  rewrite_rows us (r ∷ rs) = rewrite_row us r ∷ rewrite_rows us rs

  pub rewrite_rows-none : (t : Table F) → rewrite_rows [] t ≡ t
  unfolding rewrite_rows rewrite_row
  rewrite_rows-none [] = refl
  rewrite_rows-none (r ∷ rs) = ap (λ x. r ∷ x) (rewrite_rows-none rs)

  rewrite_rows-cons :
      (u : RotationUpdate) (us : List RotationUpdate) (t : Table F)
      → rewrite_rows us (apply_update u t) ≡ rewrite_rows (u ∷ us) t
  unfolding rewrite_rows rewrite_row apply_update update_where
  rewrite_rows-cons u us [] = refl
  rewrite_rows-cons u us (r ∷ rs) = ap (λ x. rewrite_row (u ∷ us) r ∷ x) (rewrite_rows-cons u us rs)

  pub apply_updates-rewrite_rows :
      (fails : Faults) (i : ℕ) (us : List RotationUpdate) (t t' : Table F)
      → apply_updates fails i us t ≡ done t'
      → t' ≡ rewrite_rows us t
  unfolding apply_updates
  apply_updates-rewrite_rows fails i [] t t' e =
      let same : t ≡ t' = ground arith in sym same ∙ sym (rewrite_rows-none t)
  apply_updates-rewrite_rows fails i (u ∷ us) t t' e = elim (Bool-cases (fails (executed i))) [
    | inl bad ↦ absurd (ground arith)
    | inr good ↦
        let rest : apply_updates fails (i + 1) us (apply_update u t) ≡ done t' = rw good at e in
        apply_updates-rewrite_rows fails (i + 1) us (apply_update u t) t' rest
        ∙ rewrite_rows-cons u us t
  ]

  pub rewrite_row-Skips :
      (us : List RotationUpdate) (r : Row F) → Skips r.id us → rewrite_row us r ≡ r
  unfolding rewrite_row
  rewrite_row-Skips [] r h = refl
  rewrite_row-Skips (u ∷ us) r (here, later) = rw here (rewrite_row-Skips us r later)

  -- Ids of a table, as the primary key keeps them.
  abbrev pub DistinctIds : Table F → Type 0
  DistinctIds [] = Unit
  DistinctIds (r ∷ rs) =
      All (λ q. (text_eq r.id q.id ≡ false) × (text_eq q.id r.id ≡ false)) rs × DistinctIds rs

  module _ (old_cipher : Cipher) (new_cipher : Cipher) where
    -- What became of a row: sealed again with the same plaintext, or left because it was under the
    -- new cipher and not under the old one.
    pub data Rotated (r : Row F) : Row F → Type 0 where
      resealed :
          (ct plain : Text)
          → old_cipher.decrypt r.upstream_key ≡ done plain
          → new_cipher.decrypt ct ≡ done plain
          → Rotated r (reseal ct r)
      kept :
          (e : CipherError) (plain : Text)
          → old_cipher.decrypt r.upstream_key ≡ failed e
          → new_cipher.decrypt r.upstream_key ≡ done plain
          → Rotated r r

    abbrev pub AllRotated : Table F → Table F → Type 0
    AllRotated [] [] = Unit
    AllRotated (r ∷ rs) (r' ∷ rs') = Rotated r r' × AllRotated rs rs'
    AllRotated _ _ = ⊥

    pub rewrite_row-Rotated :
        (u : RotationUpdate) (us : List RotationUpdate) (r : Row F) (plain : Text)
        → text_eq r.id u.id ≡ true
        → Skips r.id us
        → old_cipher.decrypt r.upstream_key ≡ done plain
        → new_cipher.decrypt u.new_ciphertext ≡ done plain
        → Rotated r (rewrite_row (u ∷ us) r)
    unfolding rewrite_row
    rewrite_row-Rotated u us r plain own skips before after =
        rw (own, rewrite_row-Skips us (reseal u.new_ciphertext r) skips)
          (resealed u.new_ciphertext plain before after)

    -- Updates for other rows come before nothing: they may be dropped.
    pub rewrite_rows-cons_ne :
        (u : RotationUpdate) (us : List RotationUpdate) (t : Table F)
        → All (λ r. text_eq r.id u.id ≡ false) t
        → rewrite_rows (u ∷ us) t ≡ rewrite_rows us t
    unfolding rewrite_rows rewrite_row
    rewrite_rows-cons_ne u us [] h = refl
    rewrite_rows-cons_ne u us (r ∷ rs) (here, later) =
        rw (here, rewrite_rows-cons_ne u us rs later) refl

    module _ (rand : ℕ → Random) (fails : Faults) where
      -- How a row can pass the plan.
      pub data Planned (i : ℕ) (r : Row F) (p : Plan) : Plan → Type 0 where
        update :
            (ct plain : Text)
            → old_cipher.decrypt r.upstream_key ≡ done plain
            → new_cipher.encrypt (rand i) plain ≡ done ct
            → Planned i r p ((record { id = r.id; new_ciphertext = ct }) ∷ p.0, p.1)
        skip :
            (e : CipherError) (plain : Text)
            → old_cipher.decrypt r.upstream_key ≡ failed e
            → new_cipher.decrypt r.upstream_key ≡ done plain
            → Planned i r p (p.0, p.1 + 1)
