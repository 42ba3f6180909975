-- ===== src/KeysDb/Updated.antt =====
-- Updates of both stores, and the lookups of the table by id.
use rein.Base.{
  ℕ, ◌≡◌, refl, ap, sym, ◌∙◌, false, not, ◌&&◌, ◌==◌, none, some, if◌then◌else◌, is_some, Text,
  lookup, text_eq, text_eq_iff, arith, inl, inr, Bool-cases,
}
use rein.Base.Try.{done, failed}
use rein.Sql.{no_faults, update_where, affected}
use rein.Cipher.{Cipher}
use rein.Rfc3339.{Rfc3339}
use rein.Keys.{
  VirtualKey, KeyPatch, Memory, ok, err, new_memory, store_key, create_valid, is_revoked, apply_to,
  stamp, or_not_found, read,
}
use rein.Keys
use rein.Keys.Store.{PointsTo}
use rein.Keys.Calls.{updates, after_update, step}
use rein.Keys.Permanence.{step-IsValid}
use rein.Keys.Aliasing.{update-PointsTo}
use rein.KeysDb.{
  StoreError, Row, Table, is_active, stamp_row, rewrite, select, row_of, insert_row, mark_revoked,
  write_row,
}
use rein.KeysDb
use rein.KeysDb.Scan.{Reads, IsWritable, rewrite-Reads, scan_key-Reads, apply_to-IsWritable}
use rein.KeysDb.Agree.{Under, absent, present}
use rein.KeysDb.Refinement.{id_column, Agree, update_where-Agree, active_same, update-SameMaps}

module _ {F : Type 0} where
  module _ (cipher : Cipher) (clock : Rfc3339) where
    -- Only one key has the id, so the row that the statement writes is that of the key that was read.
    rewritten-Reads :
        (id : Text) (patch : KeyPatch F) (r : Row F) (j k : VirtualKey F) (a b : ℕ) (m : Memory F)
        → IsWritable (apply_to patch j).expires_at
        → is_revoked j ≡ false
        → PointsTo m b j
        → j.id ≡ id
        → PointsTo m a k
        → Reads cipher clock r k
        → Reads cipher clock
            (if is_active id r then rewrite cipher clock (apply_to patch j) r else r)
            (if text_eq id k.id && not (is_revoked k) then apply_to patch k else k)
    unfolding is_revoked
    rewritten-Reads id patch r j k a b m w active q named p h =
        rw (active_same cipher clock id r k h) (elim (Bool-cases (text_eq id k.id)) [
          | inr other ↦ rw other h
          | inl own ↦
              let same_id : j.id ≡ k.id = named ∙ (text_eq_iff id k.id).0 own in
              let same_cell : some b ≡ some a =
                sym q.id_entry ∙ ap (λ x. lookup x m.by_id) same_id ∙ p.id_entry in
              let same : j ≡ k = ground (arith, q.cell, p.cell, same_cell) in
              let alive : is_some k.revoked_at ≡ false = rw (← same) active in
              rw (own, alive, same) (rewrite-Reads cipher clock r k patch (rw (← same) w) h)
        ])

    -- What a lookup of the table gives, by what is under the column.
    pub get_by_id_absent :
        (t : Table F) (id : Text)
        → select (λ r. text_eq r.id id) t ≡ none
        → KeysDb.get_by_id cipher clock no_faults t id ≡ failed KeysDb.not_found
    unfolding KeysDb.get_by_id KeysDb.query_one
    get_by_id_absent t id gone = rw gone refl

    pub get_by_id_present :
        (t : Table F) (id : Text) (r : Row F) (k : VirtualKey F)
        → select (λ r. text_eq r.id id) t ≡ some r
        → Reads cipher clock r k
        → KeysDb.get_by_id cipher clock no_faults t id ≡ done k
    unfolding KeysDb.get_by_id KeysDb.query_one
    get_by_id_present t id r k found h = rw found (scan_key-Reads cipher clock r k h)

    module _ (t : Table F) (m : Memory F) (id : Text) (patch : KeyPatch F)
        (w : IsWritable patch.expires_at) (s : Agree cipher clock t m) where
      update_written :
          (r : Row F) (k : VirtualKey F) (a : ℕ)
          → Reads cipher clock r k
          → PointsTo m a k
          → k.id ≡ id
          → is_revoked k ≡ false
          → Agree cipher clock
              (update_where (is_active id) (rewrite cipher clock (apply_to patch k)) t)
              (after_update m (Keys.update m id patch))
      unfolding step apply_to
      update_written r k a h p named active =
          update_where-Agree cipher clock t m (after_update m (Keys.update m id patch))
            (is_active id) (rewrite cipher clock (apply_to patch k))
            (λ j. if text_eq id j.id && not (is_revoked j) then apply_to patch j else j) s
            (step-IsValid m (updates id patch) s.valid) (update-SameMaps m id patch) (λ r. refl)
            (λ r. refl) (λ j. ground arith) (λ j. ground arith)
            (λ b j q. update-PointsTo m s.valid b j q id patch)
            (λ q j b pj hj.
              rewritten-Reads id patch q k j b a m (apply_to-IsWritable patch k w h.writable) active
                p named pj hj)

      pub update_found :
          Under cipher clock id_column t m id
          → Agree cipher clock
              (KeysDb.update cipher clock no_faults (λ s. s) t id patch).1
              (after_update m (Keys.update m id patch))
      unfolding KeysDb.update Keys.update write_row
      update_found (absent gone missing) =
          rw (get_by_id_absent t id gone, KeysDb.update, missing, Keys.update) s
      update_found (present r k a found h p named) =
          let entry : lookup id m.by_id ≡ some a = rw (← named) p.id_entry in
          elim (Bool-cases (is_revoked k)) [
            | inl dead ↦
                rw
                  (
                    get_by_id_present t id r k found h,
                    KeysDb.update,
                    dead,
                    entry,
                    Keys.update,
                    p.cell,
                    dead,
                  )
                  s
            | inr alive ↦
                let result = update_written r k a h p named alive in
                rw (get_by_id_present t id r k found h, KeysDb.update, alive)
                  (elim (Bool-cases (affected (is_active id) t == 0)) [
                    | inl none_ ↦ rw none_ result
                    | inr some_ ↦ rw some_ result
                  ])
          ]
