-- ===== src/Rates/Window.antt =====
-- internal/rates/memory.go: `windowCounter` and `estimateCount`.
use rein.Base.{ℕ, ◌+◌, ◌-◌, ◌*◌, ◌/◌, ◌%◌, leb, ◌==◌, if◌then◌else◌}

pub record WindowCounter : Type 0 where
  pub window_start : ℕ
  pub prev_count : ℕ
  pub curr_count : ℕ

abbrev pub fresh : WindowCounter
fresh = record { window_start = 0; prev_count = 0; curr_count = 0 }

-- The window moved on to `now`. The source's test `elapsed >= windowNS` is written as a sum, which
-- is the same also where the clock stands before the window's start.
unfoldable pub advance : WindowCounter → ℕ → ℕ → WindowCounter
advance w now window_ns =
    if leb (w.window_start + window_ns) now
    then (let elapsed = now - w.window_start in
        record {
          window_start = now - elapsed % window_ns;
          prev_count = if elapsed / window_ns == 1 then w.curr_count else 0;
          curr_count = 0;
        })
    else w

-- The window, moved on, and the estimate. `windowNS - elapsed` is written as
-- `window_start + windowNS - now`, which never stops at 0 once the window is moved on.
unfoldable pub estimate_count : WindowCounter → ℕ → ℕ → WindowCounter × ℕ
unfolding advance
estimate_count w now window_ns =
    let w' = advance w now window_ns in
    (w', w'.prev_count * (w'.window_start + window_ns - now) / window_ns + w'.curr_count)
