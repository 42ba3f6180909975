-- ===== src/MeterDb/Rows.antt =====
-- What the rows of the table say after an upsert, and what the scan of them finds.
use rein.Base.{
  ℕ, ◌+◌, ◌≡◌, refl, ap, ◌∙◌, Bool, true, false, ◌&&◌, [], ◌∷◌, Option, none, some, if◌then◌else◌,
  get_or, Text, text_eq, text_eq_iff, text_eq_comm, arith, inl, inr, Bool-cases, Bool_eq,
}
use rein.Base.Try.{done}
use rein.Base.Float.{Float}
use rein.Sql.{no_faults, where_rows}
use rein.Meter.Period.{
  Date, IsDate, day_period_key, month_period_key, day_period_key-eq, month_period_key-eq,
}
use rein.Meter.Ledger.{same_day, same_month}
use rein.MeterDb.{Spend, SpendTable, is_spend, of_key, scan_rows, read_spend, upsert}

pub month_day_apart : (d e : Date) → text_eq (day_period_key d) (month_period_key e) ≡ false
unfolding day_period_key month_period_key text_eq
month_day_apart d e = ground arith

pub day_period_key_iff :
    (d e : Date)
    → IsDate d
    → IsDate e
    → text_eq (day_period_key d) (day_period_key e) ≡ same_day d e
day_period_key_iff d e v w =
    Bool_eq _ _
      (λ h. let (y, m, x) = day_period_key-eq d e v w ((text_eq_iff _ _).0 h) in ground arith)
      (λ h. let same : d ≡ e = ground arith in (text_eq_iff _ _).1 (ap day_period_key same))

pub month_period_key_iff :
    (d e : Date)
    → IsDate d
    → IsDate e
    → text_eq (month_period_key d) (month_period_key e) ≡ same_month d e
unfolding month_period_key
month_period_key_iff d e v w =
    Bool_eq _ _
      (λ h. let (y, m) = month_period_key-eq d e v w ((text_eq_iff _ _).0 h) in ground arith)
      (λ h.
        let year : d.year ≡ e.year = ground arith in
        let month : d.month ≡ e.month = ground arith in (text_eq_iff _ _).1 (rw (year, month) refl))

pub if_and_false : {A : Type 0} (b : Bool) (x y : A) → (if b && false then x else y) ≡ y
if_and_false true x y = refl
if_and_false false x y = refl

module _ {F : Type 0} ⦃fl : Float F⦄ where
  open fl use {zero_usd, plus, less, at_most}

  -- The amount under a key and a period.
  unfoldable pub amount : Text → Text → SpendTable F → Option F
  amount k p [] = none
  amount k p (r ∷ rs) = if is_spend k p r then some r.amount else amount k p rs

  pub amount-upsert :
      (k p j q : Text) (c : F) (t : SpendTable F)
      → get_or (amount j q (upsert k p c t)) zero_usd ≡ (
          if text_eq k j && text_eq p q
          then plus (get_or (amount j q t) zero_usd) c
          else get_or (amount j q t) zero_usd)
  unfolding amount upsert
  amount-upsert k p j q c [] = ground (arith, fl.zero-plus c)
  amount-upsert k p j q c (r ∷ rs) = ground (
    arith,
    amount-upsert k p j q c rs,
    text_eq_iff r.key_id k,
    text_eq_iff r.key_id j,
    text_eq_iff r.period p,
    text_eq_iff r.period q,
    text_eq_iff k j,
    text_eq_iff p q,
  )

  -- The primary key.
  abbrev pub IsKeyed : SpendTable F → Type 0
  IsKeyed [] = Unit
  IsKeyed (r ∷ rs) = (amount r.key_id r.period rs ≡ none) × IsKeyed rs

  amount-upsert-none :
      (k p j q : Text) (c : F) (t : SpendTable F)
      → text_eq k j && text_eq p q ≡ false
      → amount j q t ≡ none
      → amount j q (upsert k p c t) ≡ none
  unfolding amount upsert
  amount-upsert-none k p j q c [] other h = ground arith
  amount-upsert-none k p j q c (r ∷ rs) other h = ground (
    arith,
    amount-upsert-none k p j q c rs,
    text_eq_iff r.key_id k,
    text_eq_iff r.key_id j,
    text_eq_iff r.period p,
    text_eq_iff r.period q,
    text_eq_iff k j,
    text_eq_iff p q,
  )

  pub upsert-IsKeyed :
      (k p : Text) (c : F) (t : SpendTable F) → IsKeyed t → IsKeyed (upsert k p c t)
  unfolding upsert
  upsert-IsKeyed k p c [] h = (unfold amount in refl, tt)
  upsert-IsKeyed k p c (r ∷ rs) h = elim (Bool-cases (is_spend k p r)) [
    | inl here ↦ rw here h
    | inr later ↦
        let other : (text_eq k r.key_id && text_eq p r.period) ≡ false =
          rw (text_eq_comm k r.key_id, text_eq_comm p r.period) later in
        rw later
          (amount-upsert-none k p r.key_id r.period c rs other h.0, upsert-IsKeyed k p c rs h.1)
  ]

  only_row :
      (r : Spend F) (rs : SpendTable F) (k p : Text)
      → amount r.key_id r.period rs ≡ none
      → text_eq r.key_id k ≡ true
      → text_eq r.period p ≡ true
      → amount k p rs ≡ none
  only_row r rs k p only own same =
      let key : r.key_id ≡ k = (text_eq_iff _ _).0 own in
      let period : r.period ≡ p = (text_eq_iff _ _).0 same in rw (← key, ← period) only

  -- What the scan of a keyed table finds.
  scan_rows-amount :
      (day month k : Text) (i : ℕ) (d m : F) (t : SpendTable F)
      → text_eq day month ≡ false
      → IsKeyed t
      → scan_rows no_faults day month i (d, m) (where_rows (of_key k day month) t)
        ≡ done (get_or (amount k day t) d, get_or (amount k month t) m)
  unfolding scan_rows where_rows amount
  scan_rows-amount day month k i d m [] apart h = refl
  scan_rows-amount day month k i d m (r ∷ rs) apart (only, h) =
      elim (Bool-cases (text_eq r.key_id k)) [
        | inr other ↦ rw other (scan_rows-amount day month k i d m rs apart h)
        | inl own ↦ elim (Bool-cases (text_eq r.period day)) [
          | inl today ↦
              let period : r.period ≡ day = (text_eq_iff _ _).0 today in
              let not_month : text_eq r.period month ≡ false = rw period apart in
              let once : amount k day rs ≡ none = only_row r rs k day only own today in
              rw (own, today, not_month, today)
                (scan_rows-amount day month k (i + 1) r.amount m rs apart h ∙ rw once refl)
          | inr other_day ↦ elim (Bool-cases (text_eq r.period month)) [
            | inl this_month ↦
                let once : amount k month rs ≡ none = only_row r rs k month only own this_month in
                rw (own, other_day, this_month, other_day, this_month)
                  (scan_rows-amount day month k (i + 1) d r.amount rs apart h ∙ rw once refl)
            | inr other_month ↦
                rw (own, other_day, other_month) (scan_rows-amount day month k i d m rs apart h)
          ]
        ]
      ]

  pub read_spend-amount :
      (t : SpendTable F) (k : Text) (now : Date)
      → IsKeyed t
      → read_spend no_faults t k (day_period_key now) (month_period_key now)
        ≡ done (
          get_or (amount k (day_period_key now) t) zero_usd,
          get_or (amount k (month_period_key now) t) zero_usd,
        )
  unfolding read_spend
  read_spend-amount t k now h =
      scan_rows-amount (day_period_key now) (month_period_key now) k 0 zero_usd zero_usd t
        (month_day_apart now now) h
