-- ===== src/KeysDb/Refinement.antt =====
-- The SQLite store gives the answers of the in-memory store.
use rein.Base.{
  ℕ, ◌≡◌, refl, Bool, not, ◌&&◌, ◌==◌, some, if◌then◌else◌, is_some, Text, lookup, insert, length,
  get_elem?, text_eq, text_eq_comm, arith, inl, inr, Bool-cases, Option-cases,
}
use rein.Sql.{no_faults, update_where, affected}
use rein.Cipher.{Cipher}
use rein.Rfc3339.{Rfc3339, format}
use rein.Keys.{
  VirtualKey, KeyPatch, Memory, ok, err, new_memory, store_key, create_valid, is_revoked, apply_to,
  stamp, or_not_found, read,
}
use rein.Keys
use rein.Keys.Store.{PointsTo, IsValid}
use rein.Keys.Calls.{revokes_at, after, after_update, step}
use rein.Keys.Permanence.{step-IsValid}
use rein.Keys.Aliasing.{modify-PointsTo}
use rein.KeysDb.{Row, Table, is_active, stamp_row, mark_revoked}
use rein.KeysDb.Scan.{Reads, IsWritable, Reads-active, stamp_row-Reads}
use rein.KeysDb.Agree.{Column, Under, update_where-Under}

module _ {F : Type 0} where
  pub stored_id :
      (m : Memory F) (k : VirtualKey F)
      → (store_key m k).by_id ≡ insert k.id (length m.cells) m.by_id
  unfolding store_key
  stored_id m k = refl

  pub stored_token :
      (m : Memory F) (k : VirtualKey F)
      → (store_key m k).by_token ≡ insert k.token (length m.cells) m.by_token
  unfolding store_key
  stored_token m k = refl

  abbrev pub id_column : Column F
  id_column = record {
    col = λ r. r.id;
    field = λ k. k.id;
    index = λ m. m.by_id;
    entry = λ p. p.id_entry;
    stored = stored_id;
  }

  abbrev pub token_column : Column F
  token_column = record {
    col = λ r. r.token;
    field = λ k. k.token;
    index = λ m. m.by_token;
    entry = λ p. p.token_entry;
    stored = stored_token;
  }

  -- The two stores have the same keys under each id and each token.
  pub record Agree (cipher : Cipher) (clock : Rfc3339) (t : Table F) (m : Memory F) : Type 0 where
    pub valid : IsValid m
    pub ids : (x : Text) → Under cipher clock id_column t m x
    pub tokens : (x : Text) → Under cipher clock token_column t m x

  -- A change leaves both maps of the store as they are.
  abbrev pub SameMaps : Memory F → Memory F → Type 0
  SameMaps m n = (n.by_id ≡ m.by_id) × (n.by_token ≡ m.by_token)

  modify-SameMaps :
      (m : Memory F) (id : Text) (f : VirtualKey F → VirtualKey F)
      → SameMaps m (after m (Keys.modify m id f))
  unfolding Keys.modify Keys.write
  modify-SameMaps m id f = elim (Option-cases (lookup id m.by_id)) [
    | inl missing ↦ rw (missing, Keys.modify) (refl, refl)
    | inr (a, e) ↦ elim (Option-cases (get_elem? m.cells a)) [
      | inl dangling ↦ rw (e, Keys.modify, dangling) (refl, refl)
      | inr (k, cell) ↦ rw (e, Keys.modify, cell) (refl, refl)
    ]
  ]

  pub update-SameMaps :
      (m : Memory F) (id : Text) (p : KeyPatch F) → SameMaps m (after_update m (Keys.update m id p))
  unfolding Keys.update Keys.write
  update-SameMaps m id p = elim (Option-cases (lookup id m.by_id)) [
    | inl missing ↦ rw (missing, Keys.update) (refl, refl)
    | inr (a, e) ↦ elim (Option-cases (get_elem? m.cells a)) [
      | inl dangling ↦ rw (e, Keys.update, dangling) (refl, refl)
      | inr (k, cell) ↦ elim (Bool-cases (is_revoked k)) [
        | inl dead ↦ rw (e, Keys.update, cell, dead) (refl, refl)
        | inr alive ↦ rw (e, Keys.update, cell, alive) (refl, refl)
      ]
    ]
  ]

  module _ (cipher : Cipher) (clock : Rfc3339) where
    pub update_where-Agree :
        (t : Table F) (m n : Memory F) (which : Row F → Bool) (g : Row F → Row F)
        (f : VirtualKey F → VirtualKey F)
        → Agree cipher clock t m
        → IsValid n
        → SameMaps m n
        → ((r : Row F) → (g r).id ≡ r.id)
        → ((r : Row F) → (g r).token ≡ r.token)
        → ((k : VirtualKey F) → (f k).id ≡ k.id)
        → ((k : VirtualKey F) → (f k).token ≡ k.token)
        → ((a : ℕ) (k : VirtualKey F) → PointsTo m a k → PointsTo n a (f k))
        → ((r : Row F) (k : VirtualKey F) (a : ℕ)
            → PointsTo m a k
            → Reads cipher clock r k
            → Reads cipher clock (if which r then g r else r) (f k))
        → Agree cipher clock (update_where which g t) n
    update_where-Agree t m n which g f s v (by_id, by_token) row_id row_token key_id key_token moves
          reads =
        record {
          valid = v;
          ids = λ x.
              update_where-Under cipher clock id_column t m n x which g f row_id key_id by_id moves
                reads (s.ids x);
          tokens = λ x.
              update_where-Under cipher clock token_column t m n x which g f row_token key_token
                by_token moves reads (s.tokens x);
        }

    -- The row is one that the statement writes exactly if its key is.
    pub active_same :
        (id : Text) (r : Row F) (k : VirtualKey F)
        → Reads cipher clock r k
        → is_active id r ≡ (text_eq id k.id && not (is_some k.revoked_at))
    active_same id r k h = rw (h.id, Reads-active cipher clock r k h, text_eq_comm k.id id) refl

    stamped-Reads :
        (id : Text) (at : ℕ) (r : Row F) (k : VirtualKey F) (a : ℕ) (m : Memory F)
        → IsWritable (some at)
        → PointsTo m a k
        → Reads cipher clock r k
        → Reads cipher clock
            (if is_active id r then stamp_row (format clock at) r else r)
            (if text_eq id k.id then stamp at k else k)
    stamped-Reads id at r k a m w p h =
        rw (active_same id r k h) (elim (Bool-cases (text_eq id k.id)) [
          | inr other ↦ rw other h
          | inl own ↦ elim (Bool-cases (is_some k.revoked_at)) [
            | inl dead ↦ rw (own, dead) h
            | inr alive ↦ rw (own, alive) (stamp_row-Reads cipher clock r k at w h)
          ]
        ])

    pub mark_revoked-Agree :
        (t : Table F) (m : Memory F) (id : Text) (at : ℕ)
        → IsWritable (some at)
        → Agree cipher clock t m
        → Agree cipher clock
            (mark_revoked cipher clock no_faults t id (format clock at)).1
            (after m (Keys.revoke_at m id at))
    unfolding mark_revoked Keys.revoke_at step
    mark_revoked-Agree t m id at w s = elim (Bool-cases (affected (is_active id) t == 0)) [
      | inl none_ ↦ rw none_ agree
      | inr some_ ↦ rw some_ agree
    ]
      where
        agree :
            Agree cipher clock
              (update_where (is_active id) (stamp_row (format clock at)) t)
              (after m (Keys.modify m id (stamp at)))
        agree =
            update_where-Agree t m _ (is_active id) (stamp_row (format clock at))
              (λ k. if text_eq id k.id then stamp at k else k) s
              (step-IsValid m (revokes_at id at) s.valid) (modify-SameMaps m id (stamp at))
              (λ r. refl) (λ r. refl) (λ k. ground arith) (λ k. ground arith)
              (λ a k p.
                modify-PointsTo m s.valid a k p id (stamp at) (λ j. ground arith)
                  (λ j. ground arith))
              (λ r k a p h. stamped-Reads id at r k a m w p h)
