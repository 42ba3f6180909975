-- ===== src/Concurrency/Store.antt =====
-- One caller at a time: what `Acquire` and `Release` do to the counts that `InFlight` reports.
use rein.Base.{
  get_or-if, ℕ, ◌+◌, ◌≡◌, ◌<◌, refl, ap, ◌∙◌, ◌&&◌, none, if◌then◌else◌, get_or, ℤ, pos, negsuc,
  ◌+ℤ◌, ltb, ltb_ℤ, positive, true, false, Text, text_eq, text_eq_iff, lookup, lookup-insert, arith,
}
use rein.Concurrency.{Memory, load_or_create, add, acquire, release, in_flight}

pub in_flight-load_or_create :
    (m : Memory) (k j : Text) → in_flight (load_or_create m k).0 j ≡ in_flight m j
unfolding load_or_create in_flight
in_flight-load_or_create m k j = ground (arith, lookup-insert k j (pos 0) m, text_eq_iff k j)

pub in_flight-add :
    (m : Memory) (k j : Text) (d : ℤ)
    → ((add m k d).1 ≡ in_flight m k +ℤ d)
      × (in_flight (add m k d).0 j ≡ (if text_eq k j then in_flight m k +ℤ d else in_flight m j))
unfolding add in_flight
in_flight-add m k j d =
    (refl, ap (λ o. get_or o (pos 0)) (lookup-insert k j _ m) ∙ get_or-if (text_eq k j) _ _ (pos 0))

-- `Acquire` with a cap succeeds exactly when fewer than `limit` slots are taken, then takes one slot
-- of the key, and otherwise takes none; no other key's count moves, and an uncapped call keeps the map.
pub in_flight-acquire :
    (m : Memory) (k j : Text) (n limit : ℕ)
    → in_flight m k ≡ pos n
    → 0 < limit
    → ((acquire m k (pos limit)).1 ≡ ltb n limit)
      × (in_flight (acquire m k (pos limit)).0 j
          ≡ (if text_eq k j && ltb n limit then pos (n + 1) else in_flight m j))
unfolding acquire
in_flight-acquire m k j n limit e lt =
    let m₁ = (load_or_create m k).0 in
    let m₂ = (add m₁ k (pos 1)).0 in
    ground (
      arith,
      text_eq_iff k j,
      text_eq_iff k k,
      in_flight-load_or_create m k k,
      in_flight-load_or_create m k j,
      in_flight-add m₁ k k (pos 1),
      in_flight-add m₁ k j (pos 1),
      in_flight-add m₂ k j (negsuc 0),
    )

in_flight-none : (m : Memory) (k : Text) → lookup k m ≡ none → in_flight m k ≡ pos 0
unfolding in_flight
in_flight-none m k e = rw e

-- `Release` with a cap, of a key with a slot taken, gives back one slot of the key; no other key's
-- count moves.
pub in_flight-release :
    (m : Memory) (k j : Text) (n limit : ℕ)
    → in_flight m k ≡ pos (n + 1)
    → 0 < limit
    → in_flight (release m k (pos limit)) j ≡ (if text_eq k j then pos n else in_flight m j)
unfolding release
in_flight-release m k j n limit e lt =
    ground (arith, in_flight-none m k, in_flight-add m k j (negsuc 0))

unit_below : (n limit : ℤ) → ltb_ℤ limit (n +ℤ pos 1) ≡ false → ltb_ℤ n limit ≡ true
unit_below n limit h = ground arith

-- `Acquire` with a cap succeeds only where fewer slots than the cap are taken.
pub acquire-in_flight :
    (m : Memory) (k : Text) (limit : ℤ)
    → positive limit ≡ true
    → (acquire m k limit).1 ≡ true
    → ltb_ℤ (in_flight m k) limit ≡ true
unfolding acquire
acquire-in_flight m k limit capped got =
    let m₁ = (load_or_create m k).0 in
    unit_below (in_flight m k) limit
      (ground (arith, in_flight-load_or_create m k k, in_flight-add m₁ k k (pos 1)))
