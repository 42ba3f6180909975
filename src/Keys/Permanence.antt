-- ===== src/Keys/Permanence.antt =====
-- Any history of calls: the store stays consistent, and what is revoked stays revoked.
use rein.Base.{
  ℕ, ◌≡◌, refl, ap, ◌∙◌, true, List, [], ◌∷◌, some, is_some, Text, lookup, get_elem?,
  get_elem?-set_self, get_elem?-set_ne, arith, Option-cases, inl, inr,
}
use mathlib.Core.Path.{subst}
use native.Mathlib.Decide.{ℕ_discrete}
use rein.Keys.{VirtualKey, Memory, ok, new_memory, read, get_by_token, write, is_revoked}
use rein.Keys.Store.{
  PointsTo, IsValid, write-IsValid, store_key-PointsTo, store_key-IsValid, new_memory-IsValid,
}
use rein.Keys.Calls.{Call, step, run, Change, same, added, rewritten, step-Change}

module _ {F : Type 0} where
  module _ {m : Memory F} (v : IsValid m) where
    entry-PointsTo :
        (id : Text) (a : ℕ) (k : VirtualKey F)
        → lookup id m.by_id ≡ some a
        → get_elem? m.cells a ≡ some k
        → PointsTo m a k
    entry-PointsTo id a k e cell =
        let (j, p, named) = v.ids id a e in
        let same_key : j ≡ k = ground (arith, p.cell, cell) in subst (PointsTo m a) same_key p

    Change-IsValid : {n : Memory F} → Change m n → IsValid n
    Change-IsValid same = v
    Change-IsValid (added k new_id new_token) = store_key-IsValid m k new_id new_token v
    Change-IsValid (rewritten id a k k' e cell same_id same_token keeps) =
        write-IsValid m a k k' v (entry-PointsTo id a k e cell) same_id same_token

  -- A pointer to a revoked key with the id and the token.
  pub record RevokedAt (m : Memory F) (a : ℕ) (id token : Text) : Type 0 where
    pub key : VirtualKey F
    pub points : PointsTo m a key
    pub has_id : key.id ≡ id
    pub has_token : key.token ≡ token
    pub is_dead : is_some key.revoked_at ≡ true

  Change-RevokedAt :
      {m n : Memory F}
      → IsValid m
      → Change m n
      → (b : ℕ) (i t : Text) → RevokedAt m b i t
      → RevokedAt n b i t
  unfolding write
  Change-RevokedAt v same b i t r = r
  Change-RevokedAt {m} v (added k new_id new_token) b i t r = record {
    key = r.key;
    points = store_key-PointsTo m k new_id new_token b r.key r.points;
    has_id = r.has_id;
    has_token = r.has_token;
    is_dead = r.is_dead;
  }
  Change-RevokedAt {m} v (rewritten id a k k' e cell same_id same_token keeps) b i t r =
      elim (ℕ_discrete a b) [
        | yes here ↦
            let same_key : k ≡ r.key = ground (arith, r.points.cell) in
            record {
              key = k';
              points = record {
                cell = rw (← here) (get_elem?-set_self m.cells a k' cell);
                id_entry = rw (same_id, same_key) r.points.id_entry;
                token_entry = rw (same_token, same_key) r.points.token_entry;
              };
              has_id = same_id ∙ ap (λ j. j.id) same_key ∙ r.has_id;
              has_token = same_token ∙ ap (λ j. j.token) same_key ∙ r.has_token;
              is_dead = keeps (rw same_key r.is_dead);
            }
        | no elsewhere ↦ record {
          key = r.key;
          has_id = r.has_id;
          has_token = r.has_token;
          is_dead = r.is_dead;
          points = record {
            cell = get_elem?-set_ne m.cells a b k' elsewhere ∙ r.points.cell;
            id_entry = r.points.id_entry;
            token_entry = r.points.token_entry;
          };
        }
      ]

  pub step-IsValid : (m : Memory F) (c : Call F) → IsValid m → IsValid (step m c)
  step-IsValid m c v = Change-IsValid v (step-Change m c)

  -- Whatever calls are made on a consistent store, it stays consistent: each id and each token leads to
  -- a key that has it, and each such key is under both its id and its token.
  pub run-IsValid : (m : Memory F) (cs : List (Call F)) → IsValid m → IsValid (run m cs)
  unfolding run
  run-IsValid m [] v = v
  run-IsValid m (c ∷ cs) v = run-IsValid (step m c) cs (step-IsValid m c v)

  run-RevokedAt :
      (m : Memory F) (cs : List (Call F)) (b : ℕ) (i t : Text)
      → IsValid m
      → RevokedAt m b i t
      → RevokedAt (run m cs) b i t
  unfolding run
  run-RevokedAt m [] b i t v r = r
  run-RevokedAt m (c ∷ cs) b i t v r =
      run-RevokedAt (step m c) cs b i t (step-IsValid m c v)
        (Change-RevokedAt v (step-Change m c) b i t r)

  pub PointsTo-get_by_token :
      (m : Memory F) (a : ℕ) (k : VirtualKey F) → PointsTo m a k → get_by_token m k.token ≡ ok k
  unfolding get_by_token read
  PointsTo-get_by_token m a k p = rw (p.token_entry, get_by_token, p.cell) refl

  pub get_by_token-PointsTo :
      (m : Memory F) (t : Text) (k : VirtualKey F)
      → IsValid m
      → get_by_token m t ≡ ok k
      → (a : ℕ) × PointsTo m a k × (k.token ≡ t)
  unfolding get_by_token read
  get_by_token-PointsTo m t k v got = elim (Option-cases (lookup t m.by_token)) [
    | inl missing ↦ absurd (ground (arith, missing))
    | inr (a, e) ↦
        let (j, p, named) = v.tokens t a e in
        let same_key : j ≡ k = ground (arith, p.cell) in
        (a, subst (PointsTo m a) same_key p, rw (← same_key) named)
  ]

  -- Whatever calls made the store and whatever calls follow, a token whose key is revoked leads to
  -- a revoked key of the same id for good.
  pub run-is_revoked :
      (before later : List (Call F)) (t : Text) (k : VirtualKey F)
      → get_by_token (run new_memory before) t ≡ ok k
      → is_revoked k ≡ true
      → (k' : VirtualKey F) × (get_by_token (run (run new_memory before) later) t ≡ ok k')
        × (is_revoked k' ≡ true)
        × (k'.id ≡ k.id)
  unfolding is_revoked
  run-is_revoked before later t k got dead =
      let v = run-IsValid new_memory before new_memory-IsValid in
      let (a, p, named) = get_by_token-PointsTo _ t k v got in
      let r =
        run-RevokedAt _ later a k.id t v
          (record { key = k; points = p; has_id = refl; has_token = named; is_dead = dead }) in
      (r.key, rw r.has_token at (PointsTo-get_by_token _ a r.key r.points), r.is_dead, r.has_id)
