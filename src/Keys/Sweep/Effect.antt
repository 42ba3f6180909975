-- ===== src/Keys/Sweep/Effect.antt =====
-- What a sweep does to the keys of a store.
use rein.Base.{
  ℕ, ◌≡◌, refl, Bool, true, false, not, ◌&&◌, ◌||◌, List, [], ◌∷◌, none, some, if◌then◌else◌,
  is_some, ltb, get_or, Text, text_eq, text_eq_iff, Dict, lookup, arith, Bool-cases, Option-cases,
  inl, inr,
}
use mathlib.Core.Path.{subst}
use rein.Keys.{
  VirtualKey, Memory, ok, new_memory, get_by_token, read, revoke_at, stamp, is_revoked, is_expired,
}
use rein.Keys.Store.{PointsTo, IsValid, new_memory-IsValid}
use rein.Keys.Permanence.{run-IsValid, step-IsValid, get_by_token-PointsTo}
use rein.Keys.Calls.{Call, revokes_at, step, run, after}
use rein.Keys.Aliasing.{modify-PointsTo, seen_by_token}
use rein.Keys.Sweep.{
  names, is_expiring, keep, collect_expiring, list_expiring, sweep_keys, sweep_once,
}

-- Whether an id is among those of the map.
unfoldable listed : Text → List Text → Bool
listed id [] = false
listed id (i ∷ is) = text_eq i id || listed id is

lookup-listed : (id : Text) (a : ℕ) (d : Dict ℕ) → lookup id d ≡ some a → listed id (names d) ≡ true
unfolding lookup listed names
lookup-listed id a [] e = absurd (ground arith)
lookup-listed id a ((i, b) ∷ d) e = ground (arith, lookup-listed id a d)

module _ {F : Type 0} where
  -- Whether some key of the list has the id.
  unfoldable has_id : Text → List (VirtualKey F) → Bool
  has_id id [] = false
  has_id id (j ∷ js) = text_eq j.id id || has_id id js

  -- The keys of the list with the id have the given expiry.
  abbrev Snapshots : Text → ℕ → List (VirtualKey F) → Type 0
  Snapshots id at [] = Unit {0}
  Snapshots id at (j ∷ js) = (text_eq j.id id ≡ true → j.expires_at ≡ some at) × Snapshots id at js

  revoke_at-IsValid :
      (m : Memory F) (id : Text) (at : ℕ) → IsValid m → IsValid (after m (revoke_at m id at))
  unfolding step
  revoke_at-IsValid m id at v = step-IsValid m (revokes_at id at) v

  revoke_at-PointsTo :
      (m : Memory F) (v : IsValid m) (a : ℕ) (k : VirtualKey F) (id : Text) (at : ℕ)
      → PointsTo m a k
      → PointsTo (after m (revoke_at m id at)) a (if text_eq id k.id then stamp at k else k)
  unfolding revoke_at
  revoke_at-PointsTo m v a k id at p =
      modify-PointsTo m v a k p id (stamp at) (λ j. ground arith) (λ j. ground arith)

  stamp-id : (at : ℕ) (k : VirtualKey F) → (stamp at k).id ≡ k.id
  stamp-id at k = ground arith

  stamp_twice : (at : ℕ) (k : VirtualKey F) → stamp at (stamp at k) ≡ stamp at k
  stamp_twice at k = elim (Bool-cases (is_some k.revoked_at)) [
    | inl dead ↦ rw (dead, dead) refl
    | inr alive ↦ rw alive refl
  ]

  sweep_keys-PointsTo :
      (js : List (VirtualKey F)) (m : Memory F) (a : ℕ) (k : VirtualKey F) (at : ℕ)
      → IsValid m
      → PointsTo m a k
      → Snapshots k.id at js
      → PointsTo (sweep_keys m js) a (if has_id k.id js then stamp at k else k)
  unfolding sweep_keys has_id
  sweep_keys-PointsTo [] m a k at v p s = p
  sweep_keys-PointsTo (j ∷ js) m a k at v p (s, ss) = elim (Option-cases j.expires_at) [
    | inl never ↦
        let other : text_eq j.id k.id ≡ false = ground (arith, s) in
        rw (never, other) (sweep_keys-PointsTo js m a k at v p ss)
    | inr (u, e) ↦
        let n = after m (revoke_at m j.id u) in
        let w = revoke_at-IsValid m j.id u v in
        let q = revoke_at-PointsTo m v a k j.id u p in
        elim (Bool-cases (text_eq j.id k.id)) [
          | inr other ↦ rw (e, other) (sweep_keys-PointsTo js n a k at w (rw other at q) ss)
          | inl named ↦
              let on_time : u ≡ at = ground (arith, s named) in
              let q' : PointsTo n a (stamp at k) = rw (← on_time) (rw named at q) in
              let next = sweep_keys-PointsTo js n a (stamp at k) at w q' (rw (stamp-id at k) ss) in
              rw (e, named) (settled (has_id (stamp at k).id js) next)
        ]
  ]
    where
      settled :
          {n : Memory F} (b : Bool)
          → PointsTo n a (if b then stamp at (stamp at k) else stamp at k)
          → PointsTo n a (stamp at k)
      settled true q = rw (stamp_twice at k) at q
      settled false q = q

  module _ (m : Memory F) (now a : ℕ) (k : VirtualKey F) (v : IsValid m) (p : PointsTo m a k) where
    read_id :
        (id : Text) (j : VirtualKey F)
        → read m (lookup id m.by_id) ≡ some j
        → (j.id ≡ id) × (text_eq id k.id ≡ true → j ≡ k)
    unfolding read
    read_id id j got = elim (Option-cases (lookup id m.by_id)) [
      | inl missing ↦ absurd (ground arith)
      | inr (b, e) ↦
          let (i, q, named) = v.ids id b e in
          let same_key : i ≡ j = ground (arith, q.cell) in
          (
            rw (← same_key) named,
            λ eq.
                let same_id = (text_eq_iff id k.id).0 eq in
                let here : a ≡ b = ground (arith, p.id_entry) in ground (arith, p.cell),
          )
    ]

    read_own : read m (lookup k.id m.by_id) ≡ some k
    unfolding read
    read_own = rw (p.id_entry, read) p.cell

    not_own : (id : Text) → read m (lookup id m.by_id) ≡ none → text_eq id k.id ≡ false
    not_own id missing = elim (Bool-cases (text_eq id k.id)) [
      | inr other ↦ other
      | inl here ↦
          let same_id = (text_eq_iff id k.id).0 here in
          absurd (ground (arith, read_own, rw same_id at missing))
    ]

    keep-has_id :
        (id : Text) (j : VirtualKey F) (js : List (VirtualKey F)) (b : Bool)
        → (j.id ≡ id) × (text_eq id k.id ≡ true → j ≡ k)
        → has_id k.id js ≡ (b && is_expiring now k)
        → has_id k.id (keep now (some j) js) ≡ ((text_eq id k.id || b) && is_expiring now k)
    unfolding has_id keep
    keep-has_id id j js b (named, same_key) e = elim (Bool-cases (text_eq id k.id)) [
      | inl here ↦
          let self : text_eq k.id k.id ≡ true = (text_eq_iff k.id k.id).1 refl in
          rw (here, same_key here)
            (elim (Bool-cases (is_expiring now k)) [
              | inl yes_it ↦ rw (yes_it, self) refl
              | inr not_it ↦ ground (arith, e)
            ])
      | inr other ↦ elim (Bool-cases (is_expiring now j)) [
        | inl yes_it ↦ rw (other, yes_it, named, other) e
        | inr not_it ↦ rw (other, not_it) e
      ]
    ]

    collect_expiring-has_id :
        (ids : List Text)
        → has_id k.id (collect_expiring m now ids) ≡ (listed k.id ids && is_expiring now k)
    unfolding collect_expiring has_id listed keep
    collect_expiring-has_id [] = refl
    collect_expiring-has_id (id ∷ ids) = elim (Option-cases (read m (lookup id m.by_id))) [
      | inl missing ↦ rw (missing, not_own id missing) (collect_expiring-has_id ids)
      | inr (j, got) ↦ rw got (
          keep-has_id id j (collect_expiring m now ids) (listed k.id ids) (read_id id j got)
            (collect_expiring-has_id ids))
    ]

    collect_expiring-Snapshots :
        (ids : List Text) (at : ℕ)
        → (is_expiring now k ≡ true → k.expires_at ≡ some at)
        → Snapshots k.id at (collect_expiring m now ids)
    unfolding collect_expiring keep
    collect_expiring-Snapshots [] at e = tt
    collect_expiring-Snapshots (id ∷ ids) at e =
        let rest = collect_expiring-Snapshots ids at e in
        elim (Option-cases (read m (lookup id m.by_id))) [
          | inl missing ↦ rw missing rest
          | inr (j, got) ↦
              let (named, same_key) = read_id id j got in
              rw got (elim (Bool-cases (is_expiring now j)) [
                | inr not_it ↦ rw not_it rest
                | inl yes_it ↦ rw yes_it (own id j named same_key yes_it, rest)
              ])
        ]
      where
        own :
            (id : Text) (j : VirtualKey F)
            → j.id ≡ id
            → (text_eq id k.id ≡ true → j ≡ k)
            → is_expiring now j ≡ true
            → text_eq j.id k.id ≡ true
            → j.expires_at ≡ some at
        own id j named same_key yes_it eq =
            let same = same_key (rw named at eq) in rw same (e (rw same at yes_it))

    sweep_once-PointsTo :
        (at : ℕ)
        → (is_expiring now k ≡ true → k.expires_at ≡ some at)
        → PointsTo (sweep_once m now) a (if is_expiring now k then stamp at k else k)
    unfolding sweep_once list_expiring
    sweep_once-PointsTo at e =
        let all = names m.by_id in
        let mine : has_id k.id (collect_expiring m now all) ≡ is_expiring now k =
          ground (arith, collect_expiring-has_id all, lookup-listed k.id a m.by_id p.id_entry) in
        subst (λ b. PointsTo (sweep_once m now) a (if b then stamp at k else k)) mine
          (sweep_keys-PointsTo (list_expiring m now) m a k at v p
            (collect_expiring-Snapshots all at e))

  expiring-at :
      (now : ℕ) (k : VirtualKey F)
      → is_expiring now k ≡ true
      → k.expires_at ≡ some (get_or k.expires_at 0)
  unfolding is_expiring
  expiring-at now k e = ground arith

  swept :
      (now : ℕ) (k : VirtualKey F)
      → (if is_expiring now k then stamp (get_or k.expires_at 0) k else k) ≡ (
          if not (is_revoked k) && is_expired k now
          then record k { revoked_at = k.expires_at }
          else k)
  unfolding is_expiring is_revoked is_expired
  swept now k = elim (Option-cases k.revoked_at) [
    | inr (r, dead) ↦ rw dead refl
    | inl alive ↦ elim (Option-cases k.expires_at) [
      | inl never ↦ rw (alive, never) refl
      | inr (t, e) ↦ elim (Bool-cases (ltb now t)) [
        | inl later ↦ rw (alive, e, later) refl
        | inr due ↦ rw (alive, e, due) refl
      ]
    ]
  ]

  -- In a store that calls made: after a sweep, a token leads to the key that it led to before, which
  -- is now revoked at its expiry if it had expired by then and was not revoked.
  pub get_by_token-sweep_once :
      (cs : List (Call F)) (t : Text) (now : ℕ) (k : VirtualKey F)
      → get_by_token (run new_memory cs) t ≡ ok k
      → get_by_token (sweep_once (run new_memory cs) now) t
        ≡ ok (
            if not (is_revoked k) && is_expired k now
            then record k { revoked_at = k.expires_at }
            else k)
  get_by_token-sweep_once cs t now k got =
      let m = run new_memory cs in
      let v = run-IsValid new_memory cs new_memory-IsValid in
      let (a, p, named) = get_by_token-PointsTo m t k v got in
      let q = sweep_once-PointsTo m now a k v p (get_or k.expires_at 0) (expiring-at now k) in
      seen_by_token _ a k (record k { revoked_at = k.expires_at }) t
        (not (is_revoked k) && is_expired k now) named refl (subst (PointsTo _ a) (swept now k) q)
