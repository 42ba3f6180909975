-- ===== src/MeterDb.antt =====
-- internal/meter/sqlite.go: the spend meter in the table `spend`, whose primary key is the pair of
-- `key_id` and `period`. One connection serves the handle, so a call is one step.
pub mod Rows
pub mod Equivalence
mod Tests
use rein.Base.{
  ℕ, ◌+◌, ◌≡◌, Bool, true, false, ◌&&◌, ◌||◌, List, [], ◌∷◌, Option, none, some, if◌then◌else◌,
  get_or, Text, text_eq, trim_space,
}
use rein.Base.Try.{Try, done, failed, ◌>>=◌, ◌>>◌}
use rein.Base.Float.{Float}
use rein.Sql.{
  DbCall, Faults, opened, pinged, queried, iterated, begun, committed, executed, scanned,
  transaction, where_rows,
}
use rein.Meter.{reached}
use rein.Meter.Period.{Date, day_period_key, month_period_key}

pub data MeterDbError : Type 0 where
  budget_exceeded path_missing : MeterDbError
  database : DbCall → MeterDbError

pub record Spend (F : Type 0) : Type 0 where
  pub key_id : Text
  pub period : Text
  pub amount : F

abbrev pub SpendTable : Type 0 → Type 0
SpendTable F = List (Spend F)

abbrev pub try_call : Faults → DbCall → Try MeterDbError Unit
try_call fails c = if fails c then failed (database c) else done tt

-- NewSQLite, up to the handle. The schema is a single `CREATE TABLE IF NOT EXISTS`.
unfoldable pub new_sqlite : Faults → Text → Try MeterDbError Unit
new_sqlite fails path =
    if text_eq (trim_space path) []
    then failed path_missing
    else do try_call fails opened; try_call fails pinged; try_call fails (executed 0)

module _ {F : Type 0} ⦃fl : Float F⦄ where
  open fl use {zero_usd, plus, less, at_most}

  abbrev pub is_spend : Text → Text → Spend F → Bool
  is_spend k p r = text_eq r.key_id k && text_eq r.period p

  -- `WHERE key_id = ? AND period IN (?, ?)`
  abbrev pub of_key : Text → Text → Text → Spend F → Bool
  of_key k day month r = text_eq r.key_id k && (text_eq r.period day || text_eq r.period month)

  -- The switch on the period of a row.
  abbrev pub take_row : Text → Text → F × F → Spend F → F × F
  take_row day month acc r =
      if text_eq r.period day
      then (r.amount, acc.1)
      else if text_eq r.period month
      then (acc.0, r.amount)
      else acc

  unfoldable pub scan_rows :
      Faults → Text → Text → ℕ → F × F → SpendTable F → Try MeterDbError (F × F)
  scan_rows fails day month i acc [] =
      if fails iterated then failed (database iterated) else done acc
  scan_rows fails day month i acc (r ∷ rs) =
      let rest = scan_rows fails day month (i + 1) (take_row day month acc r) rs in
      if fails (scanned i) then failed (database (scanned i)) else rest

  unfoldable pub read_spend : Faults → SpendTable F → Text → Text → Text → Try MeterDbError (F × F)
  unfolding scan_rows where_rows
  read_spend fails t k day month =
      if fails queried
      then failed (database queried)
      else scan_rows fails day month 0 (zero_usd, zero_usd) (where_rows (of_key k day month) t)

  abbrev pub compare_caps : F → F → F × F → Try MeterDbError Unit
  compare_caps daily_cap month_cap spent =
      if reached daily_cap spent.0
      then failed budget_exceeded
      else if reached month_cap spent.1
      then failed budget_exceeded
      else done tt

  -- Check. With no cap the table is not read.
  unfoldable pub check : Faults → SpendTable F → Date → Text → F → F → Try MeterDbError Unit
  unfolding read_spend
  check fails t now key_id daily_cap month_cap =
      if at_most daily_cap zero_usd && at_most month_cap zero_usd
      then done tt
      else (read_spend fails t key_id (day_period_key now) (month_period_key now)
          >>= compare_caps daily_cap month_cap)

  -- `INSERT … ON CONFLICT(key_id, period) DO UPDATE SET amount = amount + excluded.amount`
  unfoldable pub upsert : Text → Text → F → SpendTable F → SpendTable F
  upsert k p cost [] = (record { key_id = k; period = p; amount = cost }) ∷ []
  upsert k p cost (r ∷ rs) =
      if is_spend k p r
      then (record r { amount = plus r.amount cost }) ∷ rs
      else r ∷ upsert k p cost rs

  -- Record
  unfoldable pub record_cost :
      Faults → SpendTable F → Date → Text → F → Try MeterDbError Unit × SpendTable F
  unfolding upsert
  record_cost fails t now key_id cost =
      if at_most cost zero_usd
      then (done tt, t)
      else transaction t do
        try_call fails begun
        try_call fails (executed 0)
        try_call fails (executed 1)
        try_call fails committed
        done (upsert key_id (month_period_key now) cost (upsert key_id (day_period_key now) cost t))
