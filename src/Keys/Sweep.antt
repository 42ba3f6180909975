-- ===== src/Keys/Sweep.antt =====
-- internal/keys: ListExpiring and sweeper.go. A map of Go is walked in an order that Go leaves open;
-- here it is the order of the dictionary. A failure of one key leaves the others to be swept.
pub mod Effect
use rein.Base.{
  ℕ, ◌≡◌, refl, Bool, true, false, not, ◌&&◌, ◌||◌, List, [], ◌∷◌, Option, none, some,
  if◌then◌else◌, is_some, ltb, get_or, Text, text_eq, text_eq_iff, Dict, lookup, arith, Bool-cases,
  Option-cases, inl, inr,
}
use mathlib.Core.Path.{subst}
use rein.Keys.{
  VirtualKey, Memory, ok, new_memory, get_by_token, read, revoke_at, stamp, is_revoked, is_expired,
}
use rein.Keys.Store.{PointsTo, IsValid, new_memory-IsValid}
use rein.Keys.Permanence.{run-IsValid, step-IsValid, get_by_token-PointsTo}
use rein.Keys.Calls.{Call, revokes_at, step, run, after}
use rein.Keys.Aliasing.{modify-PointsTo, seen_by_token}

-- The ids that a walk over the map meets.
unfoldable pub names : Dict ℕ → List Text
names [] = []
names ((id, a) ∷ d) = id ∷ names d

module _ {F : Type 0} where
  -- `k.RevokedAt != nil || k.ExpiresAt == nil` and `k.ExpiresAt.After(asOf)` pass the key over.
  unfoldable pub is_expiring : ℕ → VirtualKey F → Bool
  is_expiring as_of k =
      if is_some k.revoked_at
      then false
      else elim k.expires_at [ none ↦ false | some t ↦ not (ltb as_of t) ]

  -- The key that a pointer leads to, kept if it expires.
  unfoldable pub keep : ℕ → Option (VirtualKey F) → List (VirtualKey F) → List (VirtualKey F)
  keep as_of none out = out
  keep as_of (some k) out = if is_expiring as_of k then k ∷ out else out

  unfoldable pub collect_expiring : Memory F → ℕ → List Text → List (VirtualKey F)
  collect_expiring m as_of [] = []
  collect_expiring m as_of (id ∷ ids) =
      keep as_of (read m (lookup id m.by_id)) (collect_expiring m as_of ids)

  unfoldable pub list_expiring : Memory F → ℕ → List (VirtualKey F)
  list_expiring m as_of = collect_expiring m as_of (names m.by_id)

  -- The loop of `sweepOnce`.
  unfoldable pub sweep_keys : Memory F → List (VirtualKey F) → Memory F
  sweep_keys m [] = m
  sweep_keys m (k ∷ ks) = elim k.expires_at [
    | none ↦ sweep_keys m ks
    | some at ↦ sweep_keys (after m (revoke_at m k.id at)) ks
  ]

  unfoldable pub sweep_once : Memory F → ℕ → Memory F
  sweep_once m now = sweep_keys m (list_expiring m now)
