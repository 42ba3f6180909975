-- ===== src/Meter.antt =====
-- internal/meter/meter.go: the in-process spend meter. The spend map is a dictionary in which a
-- missing entry reads as zero; the mutex makes each call one step. The date is what the clock says.
pub mod Period
pub mod Ledger
pub mod Pricing
pub mod Loader
mod Tests
use rein.Base.{
  ◌≡◌, Bool, true, false, ◌&&◌, not, Option, none, some, if◌then◌else◌, get_or, Text, Dict, lookup,
  insert,
}
use rein.Base.Float.{Float}
use Period.{Date, day_key, month_key}

-- What `Check` may return: ErrBudgetExceeded, or an error of another kind.
pub data MeterError : Type 0 where
  budget_exceeded other_error : MeterError

abbrev pub Memory : Type 0 → Type 0
Memory F = Dict F

module _ {F : Type 0} ⦃fl : Float F⦄ where
  open fl use {zero_usd, plus, less, at_most}

  -- The total under a key of the map.
  unfoldable pub spend : Memory F → Text → F
  spend m k = get_or (lookup k m) zero_usd

  -- `cap > 0 && spend >= cap`
  abbrev pub reached : F → F → Bool
  reached cap total = less zero_usd cap && at_most cap total

  unfoldable pub check : Memory F → Date → Text → F → F → Option MeterError
  check m now key_id daily_cap month_cap =
      if at_most daily_cap zero_usd && at_most month_cap zero_usd
      then none
      else if reached daily_cap (spend m (day_key key_id now))
      then some budget_exceeded
      else if reached month_cap (spend m (month_key key_id now))
      then some budget_exceeded
      else none

  unfoldable pub add_spend : Text → F → Memory F → Memory F
  add_spend k cost m = insert k (plus (spend m k) cost) m

  unfoldable pub record_cost : Memory F → Date → Text → F → Memory F
  record_cost m now key_id cost =
      if at_most cost zero_usd
      then m
      else add_spend (month_key key_id now) cost (add_spend (day_key key_id now) cost m)
