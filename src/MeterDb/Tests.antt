-- ===== src/MeterDb/Tests.antt =====
-- The meter in a table with one recorded cost.
use rein.Base.{ℕ, ◌≡◌, List, [], ◌∷◌, bytes}
use rein.Samples.{cents, sample_date, sample_date-IsDate}
use rein.Sql.{no_faults}
use rein.Meter
use rein.Meter.Ledger.{Entry, record_all}
use rein.MeterDb.{check}
use rein.MeterDb.Equivalence.{record_all_db, verdict, check-check}

abbrev costs : List (Entry ℕ)
costs = record { date = sample_date; key_id = bytes "key_0"; cost = 600 } ∷ []

check-check_example :
    check ⦃fl = cents⦄ no_faults
      (record_all_db ⦃fl = cents⦄ [] costs)
      sample_date
      (bytes "key_0")
      500
      0
    ≡ verdict (
        Meter.check ⦃fl = cents⦄
          (record_all ⦃fl = cents⦄ [] costs)
          sample_date
          (bytes "key_0")
          500
          0)
check-check_example =
    check-check ⦃fl = cents⦄ costs sample_date (bytes "key_0") 500 0 (sample_date-IsDate, tt)
      sample_date-IsDate
