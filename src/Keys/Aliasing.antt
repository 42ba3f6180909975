-- ===== src/Keys/Aliasing.antt =====
-- A key has two pointers, one in each map: a change made by id is the one seen by token.
use rein.Base.{
  ℕ, ◌≡◌, refl, List, ◌∙◌, Bool, true, false, not, ◌&&◌, some, if◌then◌else◌, Text, text_eq,
  text_eq_iff, lookup, get_elem?, get_elem?-set_self, get_elem?-set_ne, arith, Bool-cases,
  Option-cases, inl, inr,
}
use mathlib.Core.Path.{subst}
use native.Mathlib.Decide.{ℕ_discrete}
use rein.Keys.{
  VirtualKey, KeyPatch, Memory, ok, new_memory, get_by_token, write, modify, revoke, update,
  apply_to, is_revoked,
}
use rein.Keys.Store.{PointsTo, IsValid, new_memory-IsValid}
use rein.Keys.Permanence.{run-IsValid, PointsTo-get_by_token, get_by_token-PointsTo}
use rein.Keys.Calls.{Call, run, after, after_update}

module _ {F : Type 0} (m : Memory F) (v : IsValid m) (a : ℕ) (k : VirtualKey F)
    (p : PointsTo m a k) where
  write_self-PointsTo :
      (k' : VirtualKey F) → k'.id ≡ k.id → k'.token ≡ k.token → PointsTo (write m a k') a k'
  unfolding write
  write_self-PointsTo k' same_id same_token = record {
    cell = get_elem?-set_self m.cells a k' p.cell;
    id_entry = rw same_id p.id_entry;
    token_entry = rw same_token p.token_entry;
  }

  write_other-PointsTo :
      (id : Text) (b : ℕ) (k' : VirtualKey F)
      → text_eq id k.id ≡ false
      → lookup id m.by_id ≡ some b
      → PointsTo (write m b k') a k
  unfolding write
  write_other-PointsTo id b k' other e = elim (ℕ_discrete b a) [
    | yes here ↦
        let (j, q, named) = v.ids id b e in
        let same_key : j ≡ k = ground (arith, q.cell, p.cell) in
        absurd (ground (arith, text_eq_iff id k.id, same_key, named))
    | no elsewhere ↦ record {
      cell = get_elem?-set_ne m.cells b a k' elsewhere ∙ p.cell;
      id_entry = p.id_entry;
      token_entry = p.token_entry;
    }
  ]

  pub modify-PointsTo :
      (id : Text) (f : VirtualKey F → VirtualKey F)
      → ((j : VirtualKey F) → (f j).id ≡ j.id)
      → ((j : VirtualKey F) → (f j).token ≡ j.token)
      → PointsTo (after m (modify m id f)) a (if text_eq id k.id then f k else k)
  unfolding modify
  modify-PointsTo id f same_id same_token = elim (Bool-cases (text_eq id k.id)) [
    | inl named ↦
        let e : lookup id m.by_id ≡ some a = rw ((text_eq_iff id k.id).0 named) p.id_entry in
        rw (named, modify, e, p.cell) (write_self-PointsTo (f k) (same_id k) (same_token k))
    | inr other ↦ elim (Option-cases (lookup id m.by_id)) [
      | inl missing ↦ rw (other, modify, missing) p
      | inr (b, e) ↦ elim (Option-cases (get_elem? m.cells b)) [
        | inl dangling ↦ rw (other, modify, e, dangling) p
        | inr (j, cell) ↦ rw (other, modify, e, cell) (write_other-PointsTo id b (f j) other e)
      ]
    ]
  ]

  pub update-PointsTo :
      (id : Text) (patch : KeyPatch F)
      → PointsTo
          (after_update m (update m id patch))
          a
          (if text_eq id k.id && not (is_revoked k) then apply_to patch k else k)
  unfolding apply_to update is_revoked
  update-PointsTo id patch = elim (Bool-cases (text_eq id k.id)) [
    | inl named ↦
        let e : lookup id m.by_id ≡ some a = rw ((text_eq_iff id k.id).0 named) p.id_entry in
        elim (Bool-cases (is_revoked k)) [
          | inl dead ↦ rw (named, update, e, p.cell, dead) p
          | inr alive ↦
              rw (named, update, e, p.cell, alive)
                (write_self-PointsTo (apply_to patch k) refl refl)
        ]
    | inr other ↦ elim (Option-cases (lookup id m.by_id)) [
      | inl missing ↦ rw (other, update, missing) p
      | inr (b, e) ↦ elim (Option-cases (get_elem? m.cells b)) [
        | inl dangling ↦ rw (other, update, e, dangling) p
        | inr (j, cell) ↦ elim (Bool-cases (is_revoked j)) [
          | inl dead ↦ rw (other, update, e, cell, dead) p
          | inr alive ↦
              rw (other, update, e, cell, alive)
                (write_other-PointsTo id b (apply_to patch j) other e)
        ]
      ]
    ]
  ]

module _ {F : Type 0} where
  pub seen_by_token :
      (n : Memory F) (a : ℕ) (k k' : VirtualKey F) (t : Text) (b : Bool)
      → k.token ≡ t
      → k'.token ≡ k.token
      → PointsTo n a (if b then k' else k)
      → get_by_token n t ≡ ok (if b then k' else k)
  seen_by_token n a k k' t true named same_token p =
      subst (λ u. get_by_token n u ≡ ok k') (same_token ∙ named) (PointsTo-get_by_token n a k' p)
  seen_by_token n a k k' t false named same_token p =
      subst (λ u. get_by_token n u ≡ ok k) named (PointsTo-get_by_token n a k p)

  -- In a store that calls made: after a revocation by id, the token of the key with that id leads to
  -- the key revoked at the time of the call, and any other token to the key it led to before.
  pub get_by_token-revoke :
      (cs : List (Call F)) (t id : Text) (now : ℕ) (k : VirtualKey F)
      → get_by_token (run new_memory cs) t ≡ ok k
      → get_by_token (after (run new_memory cs) (revoke (run new_memory cs) id now)) t
        ≡ ok (if text_eq id k.id then record k { revoked_at = some now } else k)
  unfolding revoke
  get_by_token-revoke cs t id now k got =
      let m = run new_memory cs in
      let v = run-IsValid new_memory cs new_memory-IsValid in
      let (a, p, named) = get_by_token-PointsTo m t k v got in
      seen_by_token _ a k (record k { revoked_at = some now }) t (text_eq id k.id) named refl
        (modify-PointsTo m v a k p id (λ j. record j { revoked_at = some now }) (λ j. refl)
          (λ j. refl))

  -- In a store that calls made: after an update by id, the token of the key with that id leads to
  -- the patched key if it was not revoked, and every token else to the key it led to before.
  pub get_by_token-update :
      (cs : List (Call F)) (t id : Text) (patch : KeyPatch F) (k : VirtualKey F)
      → get_by_token (run new_memory cs) t ≡ ok k
      → get_by_token (after_update (run new_memory cs) (update (run new_memory cs) id patch)) t
        ≡ ok (if text_eq id k.id && not (is_revoked k) then apply_to patch k else k)
  unfolding apply_to
  get_by_token-update cs t id patch k got =
      let m = run new_memory cs in
      let v = run-IsValid new_memory cs new_memory-IsValid in
      let (a, p, named) = get_by_token-PointsTo m t k v got in
      seen_by_token _ a k (apply_to patch k) t (text_eq id k.id && not (is_revoked k)) named refl
        (update-PointsTo m v a k p id patch)
