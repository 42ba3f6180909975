-- ===== src/Concurrency/Tests.antt =====
-- The cap on small runs.
use rein.Base.{◌+◌, ◌≡◌, refl, true, false, [], pos, bytes, Text, text_eq, lookup, insert, arith}
use rein.Concurrency.{Memory, try_slot, add, load_or_create, acquire, in_flight}
use rein.Concurrency.Safety.{System, Reach, here, next, admit, IsSafe, Reach-IsSafe}
use rein.Concurrency.Rejection.{start, rejected_idle}

abbrev key : Text
key = bytes "key_0"

free : in_flight [] key ≡ pos 0
unfolding in_flight lookup
free = refl

abbrev one_in : Memory
one_in = (acquire [] key (pos 2)).0

start-IsSafe : IsSafe key 2 start
start-IsSafe = record { counted = free; capped = omega arith }

first_in : (try_slot [] key (pos 2)).1 ≡ false
unfolding try_slot add load_or_create lookup insert text_eq bytes
first_in = refl

abbrev one_holder : System
one_holder = record { counters = (try_slot [] key (pos 2)).0; holding = 0 + 1; undoing = 0 }

one_step : Reach key 2 start one_holder
one_step = next here (admit start first_in)

Reach-IsSafe_example : IsSafe key 2 one_holder
Reach-IsSafe_example = Reach-IsSafe key 2 (omega arith) start-IsSafe one_step

rejected_idle_example :
    (s : System) × Reach key 2 start s
    × (s.holding ≡ 0)
    × ((try_slot s.counters key (pos 2)).1 ≡ true)
rejected_idle_example = rejected_idle key 2 (omega arith)
