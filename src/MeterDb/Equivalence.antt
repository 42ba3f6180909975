-- ===== src/MeterDb/Equivalence.antt =====
-- The meter in the table against the ledger and the in-process meter.
use rein.Base.{
  ◌≡◌, refl, ◌∙◌, ◌&&◌, ◌||◌, List, [], ◌∷◌, Option, none, some, if◌then◌else◌, get_or, Text,
  text_eq, text_eq_comm, arith, All, inl, inr, Bool-cases,
}
use rein.Base.Try.{Try, done, failed}
use rein.Base.Float.{Float}
use rein.Sql.{Faults, no_faults}
use rein.Meter.{reached}
use rein.Meter
use rein.Meter.Period.{Date, IsDate, day_period_key, month_period_key}
use rein.Meter.Ledger.{Entry, Dated, total, record_all, same_day, same_month, check-record_all}
use rein.MeterDb.{MeterDbError, budget_exceeded, SpendTable, check, upsert, record_cost}
use rein.MeterDb.Rows.{
  month_day_apart, day_period_key_iff, month_period_key_iff, if_and_false, amount, amount-upsert,
  IsKeyed, upsert-IsKeyed, read_spend-amount,
}

-- The verdict of the in-process meter as a result.
abbrev pub verdict : Option Meter.MeterError → Try MeterDbError Unit
verdict none = done tt
verdict (some e) = failed budget_exceeded

module _ {F : Type 0} ⦃fl : Float F⦄ where
  open fl use {zero_usd, plus, less, at_most}

  -- The table after a list of recorded costs, no call failing.
  unfoldable pub record_all_db : SpendTable F → List (Entry F) → SpendTable F
  record_all_db t [] = t
  record_all_db t (e ∷ es) = record_all_db (record_cost no_faults t e.date e.key_id e.cost).1 es

  record_cost-IsKeyed :
      (t : SpendTable F) (e : Entry F)
      → IsKeyed t
      → IsKeyed (record_cost no_faults t e.date e.key_id e.cost).1
  unfolding record_cost
  record_cost-IsKeyed t e h = elim (Bool-cases (at_most e.cost zero_usd)) [
    | inl free ↦ rw free h
    | inr costs ↦ rw costs (upsert-IsKeyed _ _ _ _ (upsert-IsKeyed _ _ _ _ h))
  ]

  record_all_db-IsKeyed :
      (t : SpendTable F) (es : List (Entry F)) → IsKeyed t → IsKeyed (record_all_db t es)
  unfolding record_all_db
  record_all_db-IsKeyed t [] h = h
  record_all_db-IsKeyed t (e ∷ es) h =
      record_all_db-IsKeyed (record_cost no_faults t e.date e.key_id e.cost).1 es
        (record_cost-IsKeyed t e h)

  amount-record_day :
      (t : SpendTable F) (e : Entry F) (k : Text) (now : Date)
      → IsDate e.date
      → IsDate now
      → get_or
          (amount k (day_period_key now) (record_cost no_faults t e.date e.key_id e.cost).1)
          zero_usd
        ≡ (if (text_eq e.key_id k && same_day e.date now) && less zero_usd e.cost
            then plus (get_or (amount k (day_period_key now) t) zero_usd) e.cost
            else get_or (amount k (day_period_key now) t) zero_usd)
  unfolding record_cost
  amount-record_day t e k now v w = elim (Bool-cases (less zero_usd e.cost)) [
    | inl costs ↦
        rw (fl.at_most-not-less e.cost zero_usd, costs)
          (amount-upsert e.key_id (month_period_key e.date) k (day_period_key now) e.cost _
            ∙ rw
                (
                  text_eq_comm (month_period_key e.date) (day_period_key now),
                  month_day_apart now e.date,
                )
                (if_and_false (text_eq e.key_id k) _ _
                  ∙ amount-upsert e.key_id (day_period_key e.date) k (day_period_key now) e.cost t
                  ∙ rw (day_period_key_iff e.date now v w) (ground arith)))
    | inr free ↦ rw (fl.at_most-not-less e.cost zero_usd, free) (ground arith)
  ]

  amount-record_month :
      (t : SpendTable F) (e : Entry F) (k : Text) (now : Date)
      → IsDate e.date
      → IsDate now
      → get_or
          (amount k (month_period_key now) (record_cost no_faults t e.date e.key_id e.cost).1)
          zero_usd
        ≡ (if (text_eq e.key_id k && same_month e.date now) && less zero_usd e.cost
            then plus (get_or (amount k (month_period_key now) t) zero_usd) e.cost
            else get_or (amount k (month_period_key now) t) zero_usd)
  unfolding record_cost
  amount-record_month t e k now v w = elim (Bool-cases (less zero_usd e.cost)) [
    | inl costs ↦
        let inner : get_or
              (amount k (month_period_key now) (upsert e.key_id (day_period_key e.date) e.cost t))
              zero_usd
            ≡ get_or (amount k (month_period_key now) t) zero_usd =
          amount-upsert e.key_id (day_period_key e.date) k (month_period_key now) e.cost t
          ∙ rw (month_day_apart e.date now) (if_and_false (text_eq e.key_id k) _ _) in
        rw (fl.at_most-not-less e.cost zero_usd, costs)
          (amount-upsert e.key_id (month_period_key e.date) k (month_period_key now) e.cost _
            ∙ rw (inner, month_period_key_iff e.date now v w) (ground arith))
    | inr free ↦ rw (fl.at_most-not-less e.cost zero_usd, free) (ground arith)
  ]

  amount-same_day :
      (t : SpendTable F) (h : List (Entry F)) (k : Text) (now : Date)
      → All Dated h
      → IsDate now
      → get_or (amount k (day_period_key now) (record_all_db t h)) zero_usd
        ≡ total (λ d. same_day d now) k (get_or (amount k (day_period_key now) t) zero_usd) h
  unfolding record_all_db total
  amount-same_day t [] k now a w = refl
  amount-same_day t (e ∷ h) k now a w =
      amount-same_day (record_cost no_faults t e.date e.key_id e.cost).1 h k now a.1 w
      ∙ rw (amount-record_day t e k now a.0 w)

  amount-same_month :
      (t : SpendTable F) (h : List (Entry F)) (k : Text) (now : Date)
      → All Dated h
      → IsDate now
      → get_or (amount k (month_period_key now) (record_all_db t h)) zero_usd
        ≡ total (λ d. same_month d now) k (get_or (amount k (month_period_key now) t) zero_usd) h
  unfolding record_all_db total
  amount-same_month t [] k now a w = refl
  amount-same_month t (e ∷ h) k now a w =
      amount-same_month (record_cost no_faults t e.date e.key_id e.cost).1 h k now a.1 w
      ∙ rw (amount-record_month t e k now a.0 w)

  check_db-reached :
      (t : SpendTable F) (now : Date) (k : Text) (daily month : F)
      → IsKeyed t
      → check no_faults t now k daily month
        ≡ verdict (
            if reached daily (get_or (amount k (day_period_key now) t) zero_usd)
              || reached month (get_or (amount k (month_period_key now) t) zero_usd)
            then some Meter.budget_exceeded
            else none)
  unfolding check
  check_db-reached t now k daily month h =
      rw (read_spend-amount t k now h)
        (ground (arith, fl.at_most-not-less daily zero_usd, fl.at_most-not-less month zero_usd))

  -- After the same list of recorded costs, with four-digit years and no call of the database failing,
  -- `Check` on the table ends and gives the verdict of the in-process meter, for every key, date and
  -- caps.
  pub check-check :
      (h : List (Entry F)) (now : Date) (k : Text) (daily month : F)
      → All Dated h
      → IsDate now
      → check no_faults (record_all_db [] h) now k daily month
        ≡ verdict (Meter.check (record_all [] h) now k daily month)
  unfolding amount
  check-check h now k daily month a w =
      check_db-reached (record_all_db [] h) now k daily month (record_all_db-IsKeyed [] h tt)
      ∙ rw
          (
            amount-same_day [] h k now a w,
            amount-same_month [] h k now a w,
            check-record_all h now k daily month a w,
          )
          refl

  -- A `Record` that fails leaves the table as it was.
  pub record_cost_failed :
      (fails : Faults) (t t' : SpendTable F) (now : Date) (k : Text) (cost : F) (e : MeterDbError)
      → record_cost fails t now k cost ≡ (failed e, t')
      → t' ≡ t
  unfolding record_cost
  record_cost_failed fails t t' now k cost e h = ground arith
