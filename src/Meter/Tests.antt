-- ===== src/Meter/Tests.antt =====
-- The meter on one day's spend, and the price table on two models.
use rein.Base.{
  ℕ, ◌≡◌, refl, ◌||◌, List, [], ◌∷◌, Option, none, some, if◌then◌else◌, bytes, Text, text_eq, Dict,
  lookup, insert,
}
use rein.Samples.{cents, sample_date, sample_date-IsDate}
use rein.Meter.{check, reached, budget_exceeded, spend, add_spend, record_cost}
use rein.Meter.Period.{day_period_key, month_period_key, period_keys}
use rein.Meter.Ledger.{Entry, same_day, same_month, total, record_all, check-record_all}
use rein.Meter.Pricing.{ModelPrice, Pricer}
use rein.Meter.Loader.{ConfigFile}
use rein.Meter.Loader.Reload.{Serves, reload_all, reload_all-Serves}

abbrev key : Text
key = bytes "key_0"

abbrev costs : List (Entry ℕ)
costs = record { date = sample_date; key_id = bytes "key_0"; cost = 600 } ∷ []

check-record_all_example :
    check ⦃fl = cents⦄ (record_all ⦃fl = cents⦄ [] costs) sample_date key 500 0 ≡ (
      if reached ⦃fl = cents⦄ 500 (total ⦃fl = cents⦄ (λ d. same_day d sample_date) key 0 costs)
        || reached ⦃fl = cents⦄ 0 (total ⦃fl = cents⦄ (λ d. same_month d sample_date) key 0 costs)
      then some budget_exceeded
      else none)
check-record_all_example =
    check-record_all ⦃fl = cents⦄ costs sample_date key 500 0 (sample_date-IsDate, tt)
      sample_date-IsDate

over_budget :
    check ⦃fl = cents⦄ (record_all ⦃fl = cents⦄ [] costs) sample_date key 500 0
    ≡ some budget_exceeded
unfolding check record_all record_cost add_spend spend lookup insert day_period_key month_period_key
    period_keys text_eq bytes
over_budget = refl

abbrev table : Dict (ModelPrice ℕ)
table = (bytes "gpt-4o", record { input_per_mtoken = 250; output_per_mtoken = 1000 }) ∷ []

abbrev prices : Pricer ℕ
prices = (bytes "openai", table) ∷ []

prices-Serves : Serves ⦃fl = cents⦄ (some prices)
prices-Serves = record { table = prices; is_table = refl; non_negative = ((refl, tt), tt) }

abbrev decode : Text → Option (ConfigFile ℕ)
decode t = some (record { version = bytes "1"; models = prices })

reload_all-Serves_example : Serves ⦃fl = cents⦄ (
    reload_all ⦃fl = cents⦄ decode
      (bytes "/p.json")
      (some prices)
      (some prices)
      ((λ p. some p) ∷ []))
reload_all-Serves_example =
    reload_all-Serves ⦃fl = cents⦄ decode (bytes "/p.json") (some prices) (some prices)
      ((λ p. some p) ∷ []) prices-Serves prices-Serves
