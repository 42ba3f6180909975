-- ===== src/KeysDb/Together.antt =====
-- The two stores under the same calls.
use rein.Base.{
  ℕ, ◌≡◌, refl, ◌∙◌, false, [], none, some, is_some, Text, lookup, get_elem?, text_eq, arith, inl,
  inr, Option-cases,
}
use rein.Base.Try.{Try, done, failed}
use rein.Sql.{no_faults}
use rein.Cipher.{Random, Cipher}
use rein.Cipher.Sealed.{Opens}
use rein.Rfc3339.{Rfc3339}
use rein.Keys.{
  VirtualKey, KeyPatch, Memory, Result, ok, err, new_memory, store_key, create_valid, is_revoked,
  stamp, or_not_found, read,
}
use rein.Keys
use rein.Keys.Store.{new_memory-IsValid, store_key-IsValid}
use rein.Keys.Calls.{after, after_update}
use rein.KeysDb.{StoreError, Row, Table, select, row_of, insert_row}
use rein.KeysDb
use rein.KeysDb.Scan.{Reads, IsWritable, row_of-Reads, scan_key-Reads}
use rein.KeysDb.Agree.{Under, absent, present, store_key-Under, select-lookup}
use rein.KeysDb.Refinement.{id_column, token_column, Agree, mark_revoked-Agree}
use rein.KeysDb.Updated.{update_found, get_by_id_absent, get_by_id_present}

-- The answer of a lookup, its only failure being `ErrNotFound`.
abbrev pub answer : {F : Type 0} → Result (VirtualKey F) → Try StoreError (VirtualKey F)
answer (ok k) = done k
answer (err e) = failed KeysDb.not_found

abbrev pub after_create : {F : Type 0} → Table F → Try StoreError (Table F) → Table F
after_create t (done t') = t'
after_create t (failed e) = t

module _ {F : Type 0} (cipher : Cipher) (clock : Rfc3339) where
  invalid_key_same :
      (k : VirtualKey F) → is_some (KeysDb.invalid_key k) ≡ is_some (Keys.invalid_key k)
  unfolding KeysDb.invalid_key Keys.invalid_key
  invalid_key_same k = ground arith

  start-Agree : Agree {F = F} cipher clock [] new_memory
  unfolding select lookup
  start-Agree = record {
    valid = new_memory-IsValid;
    ids = λ x. absent refl refl;
    tokens = λ x. absent refl refl;
  }

  added-Agree :
      (t : Table F) (m : Memory F) (row : Row F) (k : VirtualKey F)
      → Agree cipher clock t m
      → Reads cipher clock row k
      → Agree cipher clock (after_create t (insert_row row t)) (after m (create_valid m k))
  unfolding insert_row create_valid
  added-Agree t m row k s h =
      let same_id : is_some (select (λ r. text_eq r.id row.id) t) ≡ is_some (lookup k.id m.by_id) =
        rw h.id (select-lookup cipher clock id_column t m k.id (s.ids k.id)) in
      let same_token : is_some (select (λ r. text_eq r.token row.token) t)
          ≡ is_some (lookup k.token m.by_token) =
        rw h.token (select-lookup cipher clock token_column t m k.token (s.tokens k.token)) in
      elim (Option-cases (lookup k.id m.by_id)) [
        | inr (a, taken) ↦ rw (same_id, create_valid, taken) s
        | inl new_id ↦ elim (Option-cases (lookup k.token m.by_token)) [
          | inr (a, taken) ↦ rw (same_id, same_token, create_valid, new_id, taken) s
          | inl new_token ↦
              rw (same_id, same_token, create_valid, new_id, new_token)
                (record {
                  valid = store_key-IsValid m k new_id new_token s.valid;
                  ids = λ x.
                      store_key-Under cipher clock id_column t m x row k new_id new_token new_id
                        h.id h (s.ids x);
                  tokens = λ x.
                      store_key-Under cipher clock token_column t m x row k new_id new_token
                        new_token h.token h (s.tokens x);
                })
        ]
      ]

  created-Agree :
      (t : Table F) (m : Memory F) (rand : Random) (k : VirtualKey F) (enc : Text)
      → Agree cipher clock t m
      → cipher.encrypt rand k.upstream_key ≡ done enc
      → Reads cipher clock (row_of cipher clock k enc) k
      → Agree cipher clock
          (after_create t (KeysDb.create cipher clock no_faults rand (some k) t))
          (after m (Keys.create m (some k)))
  unfolding KeysDb.create KeysDb.create_valid Keys.create
  created-Agree t m rand k enc s sealed h =
      let same = invalid_key_same k in
      elim (Option-cases (Keys.invalid_key k)) [
        | inr (e, refused) ↦ elim (Option-cases (KeysDb.invalid_key k)) [
          | inr (x, refused_too) ↦ rw (refused, Keys.create, refused_too, KeysDb.create) s
          | inl accepted ↦ absurd (ground arith)
        ]
        | inl accepted ↦ elim (Option-cases (KeysDb.invalid_key k)) [
          | inr (x, refused) ↦ absurd (ground arith)
          | inl accepted_too ↦
              rw (accepted, Keys.create, accepted_too, KeysDb.create, sealed)
                (added-Agree t m _ k s h)
        ]
      ]

  -- The stores after the same calls, no call of the database failing: from no key, keys that are
  -- created active, calls of RevokeAt, calls of Revoke for keys that are not revoked, and updates, in any
  -- order.
  pub data Together (rand : ℕ → Random) : Table F → Memory F → Type 0 where
    start : Together rand [] new_memory
    created :
        {t : Table F} {m : Memory F} (i : ℕ) (k : VirtualKey F) (enc : Text)
        → Together rand t m
        → k.revoked_at ≡ none
        → IsWritable (some k.created_at)
        → IsWritable k.expires_at
        → cipher.encrypt (rand i) k.upstream_key ≡ done enc
        → Together rand
            (after_create t (KeysDb.create cipher clock no_faults (rand i) (some k) t))
            (after m (Keys.create m (some k)))
    revoked_at_time :
        {t : Table F} {m : Memory F} (id : Text) (at : ℕ)
        → Together rand t m
        → IsWritable (some at)
        → Together rand
            (KeysDb.revoke_at cipher clock no_faults t id at).1
            (after m (Keys.revoke_at m id at))
    ended :
        {t : Table F} {m : Memory F} (id : Text) (now : ℕ)
        → Together rand t m
        → IsWritable (some now)
        → ((k : VirtualKey F) → Keys.get_by_id m id ≡ ok k → is_revoked k ≡ false)
        → Together rand
            (KeysDb.revoke cipher clock no_faults t id now).1
            (after m (Keys.revoke m id now))
    updated :
        {t : Table F} {m : Memory F} (id : Text) (patch : KeyPatch F)
        → Together rand t m
        → IsWritable patch.expires_at
        → Together rand
            (KeysDb.update cipher clock no_faults (λ s. s) t id patch).1
            (after_update m (Keys.update m id patch))

  -- A first revocation is the same by either call of the in-memory store.
  revoke_first :
      (m : Memory F) (id : Text) (now : ℕ)
      → ((k : VirtualKey F) → Keys.get_by_id m id ≡ ok k → is_revoked k ≡ false)
      → Keys.revoke_at m id now ≡ Keys.revoke m id now
  unfolding Keys.revoke_at Keys.revoke Keys.modify Keys.get_by_id read is_revoked
  revoke_first m id now active = elim (Option-cases (lookup id m.by_id)) [
    | inl missing ↦ rw (missing, Keys.modify) refl
    | inr (a, e) ↦ elim (Option-cases (get_elem? m.cells a)) [
      | inl dangling ↦ rw (e, Keys.modify, dangling) refl
      | inr (k, cell) ↦
          let alive : is_some k.revoked_at ≡ false = active k (rw (e, read, cell) refl) in
          rw (e, Keys.modify, cell, alive) refl
    ]
  ]

  get_by_id_answer :
      (t : Table F) (m : Memory F) (x : Text)
      → Under cipher clock id_column t m x
      → KeysDb.get_by_id cipher clock no_faults t x ≡ answer (Keys.get_by_id m x)
  unfolding Keys.get_by_id read
  get_by_id_answer t m x (absent gone missing) =
      get_by_id_absent cipher clock t x gone ∙ rw (missing, read) refl
  get_by_id_answer t m x (present r k a found h p named) =
      let entry : lookup x m.by_id ≡ some a = rw (← named) p.id_entry in
      get_by_id_present cipher clock t x r k found h ∙ rw (entry, read, p.cell) refl

  get_by_token_answer :
      (t : Table F) (m : Memory F) (x : Text)
      → Under cipher clock token_column t m x
      → KeysDb.get_by_token cipher clock no_faults t x ≡ answer (Keys.get_by_token m x)
  unfolding KeysDb.get_by_token KeysDb.query_one Keys.get_by_token read
  get_by_token_answer t m x (absent gone missing) = rw (gone, missing, read) refl
  get_by_token_answer t m x (present r k a found h p named) =
      let entry : lookup x m.by_token ≡ some a = rw (← named) p.token_entry in
      rw (found, entry, read, p.cell) (scan_key-Reads cipher clock r k h)

  module _ (rand : ℕ → Random) (opens : (i : ℕ) → Opens cipher (rand i)) where
    Together-Agree : {t : Table F} {m : Memory F} → Together rand t m → Agree cipher clock t m
    unfolding KeysDb.revoke_at KeysDb.revoke
    Together-Agree start = start-Agree
    Together-Agree (created {t} {m} i k enc g active cw ew sealed) =
        created-Agree t m (rand i) k enc (Together-Agree g) sealed
          (row_of-Reads cipher clock k enc (opens i k.upstream_key enc sealed) cw ew active)
    Together-Agree (revoked_at_time {t} {m} id at g w) =
        mark_revoked-Agree cipher clock t m id at w (Together-Agree g)
    Together-Agree (ended {t} {m} id now g w active) =
        rw (← revoke_first m id now active)
          (mark_revoked-Agree cipher clock t m id now w (Together-Agree g))
    Together-Agree (updated {t} {m} id patch g w) =
        update_found cipher clock t m id patch w (Together-Agree g) ((Together-Agree g).ids id)

    -- After the same calls with the same arguments on both, which are creations of keys that are not
    -- revoked, calls of RevokeAt, calls of Revoke for keys that are not revoked yet, and updates, with
    -- times before the year 10000 and no call of the database failing, each lookup of the SQLite
    -- store, by id or by token, ends and gives the key that the in-memory store gives, with its
    -- plaintext upstream key, or `ErrNotFound` where that store has none. The cipher opens what it
    -- seals.
    pub get-Together :
        (t : Table F) (m : Memory F)
        → Together rand t m
        → (x : Text)
        → (KeysDb.get_by_id cipher clock no_faults t x ≡ answer (Keys.get_by_id m x))
          × (KeysDb.get_by_token cipher clock no_faults t x ≡ answer (Keys.get_by_token m x))
    get-Together t m g x =
        let s = Together-Agree g in
        (get_by_id_answer t m x (s.ids x), get_by_token_answer t m x (s.tokens x))
