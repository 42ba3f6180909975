-- ===== src/Rates.antt =====
-- internal/rates: rates.go and memory.go, the per-key request velocity limiter. Instants are
-- nanoseconds since the epoch, as `UnixNano` gives them; a key's mutex makes each call of `Allow`
-- one step. The map of counters is a dictionary, and a counter that is missing is a fresh one.
pub mod Window
pub mod History
pub mod Refinement
pub mod Runs
pub mod Limits
pub mod Burst
pub mod Store
mod Tests
use rein.Base.{
  ℕ, ◌+◌, ◌-◌, ◌*◌, ◌/◌, ◌≡◌, refl, Bool, ◌&&◌, not, Option, none, some, ltb, if◌then◌else◌, get_or,
  ℤ, pos, positive, ltb_ℤ, Text, Dict, lookup, insert,
}
use Window.{WindowCounter, estimate_count, fresh}

-- What `Store.Allow` may return: the error with its Retry-After value, ErrRateLimited without one,
-- or an error of another kind.
pub data RateError : Type 0 where
  retry_after_error : ℕ → RateError
  rate_limited : RateError
  other_error : RateError

unfoldable pub new_retry_after_error : ℕ → RateError
new_retry_after_error seconds =
    let low = if ltb seconds 1 then 1 else seconds in
    retry_after_error (if ltb 60 low then 60 else low)

-- The seconds, if the error carries them.
unfoldable pub retry_after : RateError → Option ℕ
retry_after (retry_after_error seconds) = some seconds
retry_after rate_limited = none
retry_after other_error = none

pub record KeyState : Type 0 where
  pub sec : WindowCounter
  pub min : WindowCounter

abbrev pub second : ℕ
second = 1_000_000_000

abbrev pub sec_window_ns : ℕ
sec_window_ns = second

abbrev pub min_window_ns : ℕ
min_window_ns = 60 * second

-- One of the two checks: the window as `estimateCount` left it, and the error if the cap is reached.
unfoldable pub check_window : ℤ → ℕ → ℕ → WindowCounter → WindowCounter × Option RateError
check_window limit window_ns now w =
    if positive limit
    then (let (w', est) = estimate_count w now window_ns in
        if ltb_ℤ limit (pos (est + 1))
        then (w', some (new_retry_after_error ((w'.window_start + window_ns - now) / second + 1)))
        else (w', none))
    else (w, none)

unfoldable pub bump : ℤ → WindowCounter → WindowCounter
bump limit w = if positive limit then record w { curr_count = w.curr_count + 1 } else w

-- What `Allow` does with the two checks: the first error is returned, and the requests are counted
-- only if both pass. The second check is not made, and its window not moved, if the first fails.
unfoldable pub settle :
    ℤ
    → ℤ
    → KeyState
    → WindowCounter × Option RateError
    → WindowCounter × Option RateError
    → KeyState × Option RateError
settle rps rpm ks (sec', some e) _ = (record ks { sec = sec' }, some e)
settle rps rpm ks (sec', none) (min', some e) = (record { sec = sec'; min = min' }, some e)
settle rps rpm ks (sec', none) (min', none) =
    (record { sec = bump rps sec'; min = bump rpm min' }, none)

-- The body of `Allow` under the key's mutex.
unfoldable pub allow_key : ℤ → ℤ → ℕ → KeyState → KeyState × Option RateError
allow_key rps rpm now ks =
    settle rps rpm ks (check_window rps sec_window_ns now ks.sec)
      (check_window rpm min_window_ns now ks.min)

abbrev pub fresh_key : KeyState
fresh_key = record { sec = fresh; min = fresh }

abbrev pub Memory : Type 0
Memory = Dict KeyState

-- `now` is what the injected clock returns in this call.
unfoldable pub allow : Memory → ℕ → Text → ℤ → ℤ → Memory × Option RateError
allow m now key_id rps rpm =
    if not (positive rps) && not (positive rpm)
    then (m, none)
    else (let (ks, e) = allow_key rps rpm now (get_or (lookup key_id m) fresh_key) in
        (insert key_id ks m, e))
