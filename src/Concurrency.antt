-- ===== src/Concurrency.antt =====
-- internal/concurrency: concurrency.go and memory.go, the per-key cap on requests in flight. The map
-- of counters is a dictionary; a counter is an atomic int64, modelled as an integer that does not
-- wrap. Padding and the cache line are no part of the model.
pub mod Store
pub mod Safety
pub mod Rejection
mod Tests
use rein.Base.{
  ℕ, ◌≡◌, Bool, true, false, Option, none, some, if◌then◌else◌, get_or, ℤ, pos, negsuc, ◌+ℤ◌, ltb_ℤ,
  positive, Text, Dict, lookup, insert,
}

abbrev pub Memory : Type 0
Memory = Dict ℤ

-- loadOrCreate: the map with a counter for the key, and what it holds.
unfoldable pub load_or_create : Memory → Text → Memory × ℤ
load_or_create m key_id = elim (lookup key_id m) [
  | some n ↦ (m, n)
  | none ↦ (insert key_id (pos 0) m, pos 0)
]

-- `ctr.count.Add(d)`: the new value is stored and returned.
unfoldable pub add : Memory → Text → ℤ → Memory × ℤ
add m key_id d = let n = get_or (lookup key_id m) (pos 0) +ℤ d in (insert key_id n m, n)

-- The part of `Acquire` up to the comparison: whether the count went over the limit.
unfoldable pub try_slot : Memory → Text → ℤ → Memory × Bool
try_slot m key_id limit =
    let (m₁, _) = load_or_create m key_id in
    let (m₂, n) = add m₁ key_id (pos 1) in (m₂, ltb_ℤ limit n)

unfoldable pub acquire : Memory → Text → ℤ → Memory × Bool
unfolding try_slot
acquire m key_id limit =
    if positive limit
    then (let (m', over) = try_slot m key_id limit in
        if over then ((add m' key_id (negsuc 0)).0, false) else (m', true))
    else (m, true)

unfoldable pub release : Memory → Text → ℤ → Memory
release m key_id limit =
    if positive limit
    then elim (lookup key_id m) [ none ↦ m | some _ ↦ (add m key_id (negsuc 0)).0 ]
    else m

unfoldable pub in_flight : Memory → Text → ℤ
in_flight m key_id = get_or (lookup key_id m) (pos 0)
