-- ===== src/Rates/Tests.antt =====
-- The limiter on three requests, and on single calls.
use rein.Base.{ℕ, ◌+◌, ◌*◌, ◌≤◌, ◌≡◌, refl, List, [], ◌∷◌, pos, arith}
use rein.Rates.{sec_window_ns, min_window_ns, fresh_key}
use rein.Rates.History.{in_window, sliding_run}
use rein.Rates.Runs.{InOrder, allow_run, allow_run-sliding_run}
use rein.Rates.Limits.{in_span, allow_run-in_sec_window}
use rein.Rates.Burst.{burst, allow_run-burst}

abbrev stamps : List ℕ
stamps = 5 ∷ 6 ∷ 2_000_000_000 ∷ []

stamps-InOrder : InOrder 0 stamps
stamps-InOrder = (omega arith, (omega arith, (omega arith, tt)))

allow_run-sliding_run_example :
    allow_run (pos 1) (pos 2) fresh_key [] stamps
    ≡ sliding_run sec_window_ns min_window_ns (pos 1) (pos 2) [] stamps
allow_run-sliding_run_example = allow_run-sliding_run (pos 1) (pos 2) stamps stamps-InOrder

allow_run-in_sec_window_example :
    in_window sec_window_ns 0 (allow_run (pos 1) (pos 2) fresh_key [] stamps) ≤ 1
allow_run-in_sec_window_example =
    allow_run-in_sec_window (pos 1) (pos 2) stamps 0 stamps-InOrder refl

allow_run-burst_example :
    in_span
      (1_000_000_000 * 3 + 999_999_999)
      sec_window_ns
      (allow_run (pos 10) (pos 0) fresh_key [] (burst 10 3))
    ≡ 2 * 10
allow_run-burst_example = allow_run-burst 10 3 (omega arith)
