-- ===== src/Keys/Calls.antt =====
-- The calls that change the store, and how a store can go on.
use rein.Base.{
  ℕ, ◌≡◌, refl, true, List, [], ◌∷◌, none, some, is_some, Text, lookup, get_elem?, arith,
  Bool-cases, Option-cases, inl, inr,
}
use rein.Keys.{
  VirtualKey, KeyPatch, Memory, Result, ok, err, invalid_key, store_key, create_valid, create,
  write, modify, revoke, revoke_at, stamp, update, apply_to, is_revoked,
}

-- The calls of the store that change it.
pub data Call (F : Type 0) : Type 0 where
  creates : VirtualKey F → Call F
  revokes : Text → ℕ → Call F
  revokes_at : Text → ℕ → Call F
  updates : Text → KeyPatch F → Call F

module _ {F : Type 0} where
  -- A call that fails leaves the store as it was.
  abbrev pub after : Memory F → Result (Memory F) → Memory F
  after m (ok n) = n
  after m (err e) = m

  abbrev pub after_update : Memory F → Result (Memory F × VirtualKey F) → Memory F
  after_update m (ok (n, k)) = n
  after_update m (err e) = m

  unfoldable pub step : Memory F → Call F → Memory F
  step m (creates k) = after m (create m (some k))
  step m (revokes id now) = after m (revoke m id now)
  step m (revokes_at id at) = after m (revoke_at m id at)
  step m (updates id patch) = after_update m (update m id patch)

  unfoldable pub run : Memory F → List (Call F) → Memory F
  run m [] = m
  run m (c ∷ cs) = run (step m c) cs

  -- How a store can go on: as it is, with one more key, or with one key rewritten that keeps its id,
  -- its token, and its revocation if it has one.
  pub data Change (m : Memory F) : Memory F → Type 0 where
    same : Change m m
    added :
        (k : VirtualKey F)
        → lookup k.id m.by_id ≡ none
        → lookup k.token m.by_token ≡ none
        → Change m (store_key m k)
    rewritten :
        (id : Text) (a : ℕ) (k k' : VirtualKey F)
        → lookup id m.by_id ≡ some a
        → get_elem? m.cells a ≡ some k
        → k'.id ≡ k.id
        → k'.token ≡ k.token
        → (is_some k.revoked_at ≡ true → is_some k'.revoked_at ≡ true)
        → Change m (write m a k')

  create-Change : (m : Memory F) (k : VirtualKey F) → Change m (after m (create m (some k)))
  unfolding create
  create-Change m k = elim (Option-cases (invalid_key k)) [
    | inr (x, refused) ↦ rw (refused, create) same
    | inl accepted ↦ elim (Option-cases (lookup k.id m.by_id)) [
      | inr (a, taken) ↦ rw (accepted, create, create_valid, taken) same
      | inl new_id ↦ elim (Option-cases (lookup k.token m.by_token)) [
        | inr (a, taken) ↦ rw (accepted, create, create_valid, new_id, taken) same
        | inl new_token ↦
            rw (accepted, create, create_valid, new_id, new_token) (added k new_id new_token)
      ]
    ]
  ]

  modify-Change :
      (m : Memory F) (id : Text) (f : VirtualKey F → VirtualKey F)
      → ((k : VirtualKey F) → (f k).id ≡ k.id)
      → ((k : VirtualKey F) → (f k).token ≡ k.token)
      → ((k : VirtualKey F) → is_some k.revoked_at ≡ true → is_some (f k).revoked_at ≡ true)
      → Change m (after m (modify m id f))
  unfolding modify
  modify-Change m id f same_id same_token keeps = elim (Option-cases (lookup id m.by_id)) [
    | inl missing ↦ rw (missing, modify) same
    | inr (a, e) ↦ elim (Option-cases (get_elem? m.cells a)) [
      | inl dangling ↦ rw (e, modify, dangling) same
      | inr (k, cell) ↦
          rw (e, modify, cell) (rewritten id a k (f k) e cell (same_id k) (same_token k) (keeps k))
    ]
  ]

  update-Change :
      (m : Memory F) (id : Text) (p : KeyPatch F) → Change m (after_update m (update m id p))
  unfolding update apply_to is_revoked
  update-Change m id p = elim (Option-cases (lookup id m.by_id)) [
    | inl missing ↦ rw (missing, update) same
    | inr (a, e) ↦ elim (Option-cases (get_elem? m.cells a)) [
      | inl dangling ↦ rw (e, update, dangling) same
      | inr (k, cell) ↦ elim (Bool-cases (is_revoked k)) [
        | inl r ↦ rw (e, update, cell, r) same
        | inr r ↦
            rw (e, update, cell, r) (rewritten id a k (apply_to p k) e cell refl refl (λ x. x))
      ]
    ]
  ]

  pub step-Change : (m : Memory F) (c : Call F) → Change m (step m c)
  unfolding step revoke revoke_at
  step-Change m (creates k) = create-Change m k
  step-Change m (revokes id now) = modify-Change m id _ (λ k. refl) (λ k. refl) (λ k r. refl)
  step-Change m (revokes_at id at) =
      modify-Change m id (stamp at) (λ k. ground arith) (λ k. ground arith) (λ k r. ground arith)
  step-Change m (updates id p) = update-Change m id p
