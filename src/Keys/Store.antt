-- ===== src/Keys/Store.antt =====
-- The invariant of the store: the two maps lead to the same keys.
use rein.Base.{
  ℕ, ◌≡◌, refl, ◌∙◌, [], ◌∷◌, none, some, Text, text_eq, text_eq_iff, lookup, lookup-insert, length,
  get_elem?, get_elem?-set_self, get_elem?-set_ne, get_elem?-append_last, get_elem?-append_left,
  arith, Bool-cases, inl, inr,
}
use mathlib.Core.Path.{subst}
use native.Mathlib.Decide.{ℕ_discrete}
use rein.Keys.{VirtualKey, Memory, new_memory, store_key, write}

module _ {F : Type 0} where
  -- A pointer leads to a key, and the maps have the pointer under the key's id and token.
  pub record PointsTo (m : Memory F) (a : ℕ) (k : VirtualKey F) : Type 0 where
    pub cell : get_elem? m.cells a ≡ some k
    pub id_entry : lookup k.id m.by_id ≡ some a
    pub token_entry : lookup k.token m.by_token ≡ some a

  pub record IsValid (m : Memory F) : Type 0 where
    pub ids :
        (id : Text) (a : ℕ)
        → lookup id m.by_id ≡ some a
        → (k : VirtualKey F) × PointsTo m a k × (k.id ≡ id)
    pub tokens :
        (t : Text) (a : ℕ)
        → lookup t m.by_token ≡ some a
        → (k : VirtualKey F) × PointsTo m a k × (k.token ≡ t)

  pub new_memory-IsValid : IsValid new_memory
  unfolding lookup
  new_memory-IsValid = record {
    ids = λ id a e. absurd (ground arith);
    tokens = λ t a e. absurd (ground arith);
  }

  -- A write of a key that keeps the id and the token.
  pub write-PointsTo :
      (m : Memory F) (a : ℕ) (k k' : VirtualKey F)
      → PointsTo m a k
      → k'.id ≡ k.id
      → k'.token ≡ k.token
      → (b : ℕ) (j : VirtualKey F) → PointsTo m b j
      → (j' : VirtualKey F) × PointsTo (write m a k') b j' × (j'.id ≡ j.id) × (j'.token ≡ j.token)
  unfolding write
  write-PointsTo m a k k' p same_id same_token b j q = elim (ℕ_discrete a b) [
    | yes here ↦
        let same : k ≡ j = ground (arith, p.cell, q.cell) in
        (
          k',
          record {
            cell = rw (← here) (get_elem?-set_self m.cells a k' p.cell);
            id_entry = rw (same_id, ← here) p.id_entry;
            token_entry = rw (same_token, ← here) p.token_entry;
          },
          rw (same_id, same),
          rw (same_token, same),
        )
    | no elsewhere ↦ (
      j,
      record {
        cell = get_elem?-set_ne m.cells a b k' elsewhere ∙ q.cell;
        id_entry = q.id_entry;
        token_entry = q.token_entry;
      },
      refl,
      refl,
    )
  ]

  pub write-IsValid :
      (m : Memory F) (a : ℕ) (k k' : VirtualKey F)
      → IsValid m
      → PointsTo m a k
      → k'.id ≡ k.id
      → k'.token ≡ k.token
      → IsValid (write m a k')
  unfolding write
  write-IsValid m a k k' v p same_id same_token = record {
    ids = λ id b e.
        let (j, q, named) = v.ids id b e in
        let (j', q', id', token') = write-PointsTo m a k k' p same_id same_token b j q in
        (j', q', id' ∙ named);
    tokens = λ t b e.
        let (j, q, named) = v.tokens t b e in
        let (j', q', id', token') = write-PointsTo m a k k' p same_id same_token b j q in
        (j', q', token' ∙ named);
  }

  -- A new key with an id and a token that no key has.
  module _ (m : Memory F) (k : VirtualKey F) (new_id : lookup k.id m.by_id ≡ none)
      (new_token : lookup k.token m.by_token ≡ none) where
    pub store_key-PointsTo_new : PointsTo (store_key m k) (length m.cells) k
    unfolding store_key
    store_key-PointsTo_new = record {
      cell = get_elem?-append_last m.cells k;
      id_entry =
          ground (arith, lookup-insert k.id k.id (length m.cells) m.by_id, text_eq_iff k.id k.id);
      token_entry = ground (
        arith,
        lookup-insert k.token k.token (length m.cells) m.by_token,
        text_eq_iff k.token k.token,
      );
    }

    pub store_key-PointsTo :
        (a : ℕ) (j : VirtualKey F) → PointsTo m a j → PointsTo (store_key m k) a j
    unfolding store_key
    store_key-PointsTo a j p = record {
      cell = get_elem?-append_left m.cells (k ∷ []) a p.cell;
      id_entry = ground (
        arith,
        p.id_entry,
        lookup-insert k.id j.id (length m.cells) m.by_id,
        text_eq_iff k.id j.id,
      );
      token_entry = ground (
        arith,
        p.token_entry,
        lookup-insert k.token j.token (length m.cells) m.by_token,
        text_eq_iff k.token j.token,
      );
    }

    pub store_key-IsValid : IsValid m → IsValid (store_key m k)
    unfolding store_key
    store_key-IsValid v = record {
      ids = λ id a e. elim (Bool-cases (text_eq k.id id)) [
        | inl same ↦
            let at : length m.cells ≡ a =
              ground (arith, lookup-insert k.id id (length m.cells) m.by_id) in
            (
              k,
              subst (λ b. PointsTo (store_key m k) b k) at store_key-PointsTo_new,
              (text_eq_iff _ _).0 same,
            )
        | inr other ↦
            let (j, p, named) =
              v.ids id a (ground (arith, lookup-insert k.id id (length m.cells) m.by_id)) in
            (j, store_key-PointsTo a j p, named)
      ];
      tokens = λ t a e. elim (Bool-cases (text_eq k.token t)) [
        | inl same ↦
            let at : length m.cells ≡ a =
              ground (arith, lookup-insert k.token t (length m.cells) m.by_token) in
            (
              k,
              subst (λ b. PointsTo (store_key m k) b k) at store_key-PointsTo_new,
              (text_eq_iff _ _).0 same,
            )
        | inr other ↦
            let (j, p, named) =
              v.tokens t a (ground (arith, lookup-insert k.token t (length m.cells) m.by_token)) in
            (j, store_key-PointsTo a j p, named)
      ];
    }
