-- ===== src/Rates/History.antt =====
-- The limiter seen from outside: the history of the instants at which it let a request through.
use rein.Base.{
  ℕ, ◌+◌, ◌-◌, ◌*◌, ◌/◌, ◌%◌, List, [], ◌∷◌, Bool, ◌&&◌, ◌||◌, not, leb, ◌==◌, if◌then◌else◌,
  count_if, ℤ, positive, pos_part,
}

-- How many requests of the history fell into the window with the given number; windows are the
-- multiples of the window length.
abbrev pub in_window : ℕ → ℕ → List ℕ → ℕ
in_window window_ns k h = count_if (λ t. t / window_ns == k) h

abbrev pub before_window : ℕ → ℕ → List ℕ → ℕ
before_window window_ns k h = count_if (λ t. t / window_ns + 1 == k) h

-- The sliding window rule: the requests of the window before, weighted by the part of it that a
-- window ending now still covers and rounded down, with those of this window.
unfoldable pub sliding_estimate : ℕ → List ℕ → ℕ → ℕ
sliding_estimate window_ns h now =
    before_window window_ns (now / window_ns) h * (window_ns - now % window_ns) / window_ns
    + in_window window_ns (now / window_ns) h

-- One more request keeps the estimate within the limit; a limit that is not positive admits all.
unfoldable pub admits : ℕ → ℤ → List ℕ → ℕ → Bool
unfolding sliding_estimate
admits window_ns limit h now =
    not (positive limit) || leb (sliding_estimate window_ns h now + 1) (pos_part limit)

-- The history after the arrivals, under the rule for two windows.
unfoldable pub sliding_run : ℕ → ℕ → ℤ → ℤ → List ℕ → List ℕ → List ℕ
sliding_run sec_ns min_ns rps rpm h [] = h
sliding_run sec_ns min_ns rps rpm h (now ∷ ts) =
    sliding_run sec_ns min_ns rps rpm
      (if admits sec_ns rps h now && admits min_ns rpm h now then now ∷ h else h) ts
