-- ===== src/Concurrency/Safety.antt =====
-- Callers in parallel. `Add` and `LoadOrStore` are atomic, so the calls for a key interleave at
-- these points: `Acquire` adds one and compares (`try_slot`), and if it went over the limit takes the
-- one back at a later step (`undo`); `Release` takes one back.
use rein.Base.{
  ℕ, suc, ◌+◌, ◌≡◌, ◌≤◌, ◌<◌, true, false, ◌≢◌, ℤ, pos, negsuc, Text, text_eq_iff, arith, ltb,
}
use rein.Concurrency.{Memory, load_or_create, add, try_slot, release, in_flight}
use rein.Concurrency.Store.{in_flight-add, in_flight-load_or_create, in_flight-release}

-- The counters, with the number of callers for the key that hold a slot and that have yet to take
-- back what they added.
pub record System : Type 0 where
  pub counters : Memory
  pub holding : ℕ
  pub undoing : ℕ

module _ (k : Text) (limit : ℕ) where
  pub data Step : System → System → Type 0 where
    admit :
        (s : System)
        → (try_slot s.counters k (pos limit)).1 ≡ false
        → Step s
            (record s { counters = (try_slot s.counters k (pos limit)).0; holding = s.holding + 1 })
    overshoot :
        (s : System)
        → (try_slot s.counters k (pos limit)).1 ≡ true
        → Step s
            (record s { counters = (try_slot s.counters k (pos limit)).0; undoing = s.undoing + 1 })
    undo :
        (s : System) (n : ℕ)
        → s.undoing ≡ suc n
        → Step s (record s { counters = (add s.counters k (negsuc 0)).0; undoing = n })
    finish :
        (s : System) (n : ℕ)
        → s.holding ≡ suc n
        → Step s (record s { counters = release s.counters k (pos limit); holding = n })
    other_key :
        (s : System) (j : Text) (d : ℤ)
        → j ≢ k
        → Step s (record s { counters = (add (load_or_create s.counters j).0 j d).0 })

  pub data Reach (s : System) : System → Type 0 where
    here : Reach s s
    next : {t u : System} → Reach s t → Step t u → Reach s u

  -- The count is what the callers have added and not taken back, and no more than `limit` hold a slot.
  pub record IsSafe (s : System) : Type 0 where
    pub counted : in_flight s.counters k ≡ pos (s.holding + s.undoing)
    pub capped : s.holding ≤ limit

  module _ (capped_key : 0 < limit) where
    pub in_flight-try_slot :
        (m : Memory) (n : ℕ)
        → in_flight m k ≡ pos n
        → ((try_slot m k (pos limit)).1 ≡ ltb limit (n + 1))
          × (in_flight (try_slot m k (pos limit)).0 k ≡ pos (n + 1))
    unfolding try_slot
    in_flight-try_slot m n e = ground (
      arith,
      text_eq_iff k k,
      in_flight-load_or_create m k k,
      in_flight-add (load_or_create m k).0 k k (pos 1),
    )

    Step-IsSafe : {s t : System} → Step s t → IsSafe s → IsSafe t
    Step-IsSafe (admit s ok) v =
        ground (arith, in_flight-try_slot s.counters (s.holding + s.undoing))
    Step-IsSafe (overshoot s over) v =
        ground (arith, in_flight-try_slot s.counters (s.holding + s.undoing))
    Step-IsSafe (undo s n e) v =
        ground (arith, text_eq_iff k k, in_flight-add s.counters k k (negsuc 0))
    Step-IsSafe (finish s n e) v =
        ground (arith, text_eq_iff k k, in_flight-release s.counters k k (n + s.undoing) limit)
    Step-IsSafe (other_key s j d ne) v = ground (
      arith,
      text_eq_iff j k,
      in_flight-load_or_create s.counters j k,
      in_flight-add (load_or_create s.counters j).0 j k d,
    )

    -- However the callers of a key with a cap interleave, and whatever happens to other keys, at most
    -- `limit` of them hold a slot at any time; and the counter is exactly the number of those with the
    -- callers that are about to take back an attempt, so no slot is lost or made up.
    pub Reach-IsSafe : {s t : System} → IsSafe s → Reach s t → IsSafe t
    Reach-IsSafe v here = v
    Reach-IsSafe v (next r st) = Step-IsSafe st (Reach-IsSafe v r)
