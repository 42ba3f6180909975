-- ===== src/Meter/Ledger.antt =====
-- The meter against a ledger: the list of everything recorded, from which the totals are added up.
use rein.Base.{
  get_or-if, Bool_eq, not_true, ◌≡◌, refl, sym, ap, ◌∙◌, List, [], ◌∷◌, Bool, true, false, ◌&&◌,
  ◌||◌, ◌==◌, none, some, if◌then◌else◌, get_or, Text, text_eq, text_eq_iff, lookup, lookup-insert,
  arith, All, Bool-cases, inl, inr,
}
use rein.Base.Float.{Float}
use rein.Meter.{Memory, budget_exceeded, spend, reached, check, record_cost, add_spend}
use rein.Meter.Period.{
  Date, period_keys, month_period_key, IsDate, day_key, month_key, day_key_eq, month_key_eq,
  day_key-ne-month_key,
}

pub record Entry (F : Type 0) : Type 0 where
  pub date : Date
  pub key_id : Text
  pub cost : F

abbrev pub same_month : Date → Date → Bool
same_month d e = d.year == e.year && d.month == e.month

abbrev pub same_day : Date → Date → Bool
same_day d e = d.year == e.year && (d.month == e.month && d.day == e.day)

day_key_iff :
    (k j : Text) (d e : Date)
    → IsDate d
    → IsDate e
    → text_eq (day_key k d) (day_key j e) ≡ (text_eq k j && same_day d e)
day_key_iff k j d e v w =
    Bool_eq _ _
      (λ h.
        let (key, day) = day_key_eq k j d e v w ((text_eq_iff _ _).0 h) in
        ground (arith, text_eq_iff k j))
      (λ h.
        let key : k ≡ j = ground (arith, text_eq_iff k j) in
        let day : d ≡ e = ground arith in (text_eq_iff _ _).1 (rw (key, day)))

month_key-SameMonth :
    (k : Text) (d e : Date) → d.year ≡ e.year → d.month ≡ e.month → month_key k d ≡ month_key k e
unfolding period_keys month_period_key
month_key-SameMonth k d e p q = rw (p, q)

month_key_iff :
    (k j : Text) (d e : Date)
    → IsDate d
    → IsDate e
    → text_eq (month_key k d) (month_key j e) ≡ (text_eq k j && same_month d e)
month_key_iff k j d e v w =
    Bool_eq _ _
      (λ h.
        let (key, month) = month_key_eq k j d e v w ((text_eq_iff _ _).0 h) in
        ground (arith, text_eq_iff k j))
      (λ h.
        let key : k ≡ j = ground (arith, text_eq_iff k j) in
        let year : d.year ≡ e.year = ground arith in
        let month : d.month ≡ e.month = ground arith in
        (text_eq_iff _ _).1 (rw key (month_key-SameMonth j d e year month)))

refused : (b : Bool) → (if b then some budget_exceeded else none) ≡ some budget_exceeded → b ≡ true
refused true e = refl
refused false e = cc

module _ {F : Type 0} ⦃fl : Float F⦄ where
  open fl use {zero_usd, plus, less, at_most}

  -- The spend of a key over the entries of the ledger whose date passes the test, added up in the
  -- order of the ledger; a cost that is not positive does not count.
  unfoldable pub total : (Date → Bool) → Text → F → List (Entry F) → F
  total in_period k sum [] = sum
  total in_period k sum (e ∷ es) =
      total in_period k
        (if (text_eq e.key_id k && in_period e.date) && less zero_usd e.cost
          then plus sum e.cost
          else sum)
        es

  unfoldable pub record_all : Memory F → List (Entry F) → Memory F
  record_all m [] = m
  record_all m (e ∷ es) = record_all (record_cost m e.date e.key_id e.cost) es

  abbrev pub Dated : Entry F → Type 0
  Dated e = IsDate e.date

  spend-add :
      (k j : Text) (c : F) (m : Memory F)
      → spend (add_spend k c m) j ≡ (if text_eq k j then plus (spend m k) c else spend m j)
  unfolding spend add_spend
  spend-add k j c m =
      ap (λ o. get_or o zero_usd) (lookup-insert k j _ m) ∙ get_or-if (text_eq k j) _ _ zero_usd

  spend-record_day :
      (m : Memory F) (e : Entry F) (k : Text) (now : Date)
      → IsDate e.date
      → IsDate now
      → spend (record_cost m e.date e.key_id e.cost) (day_key k now) ≡ (
          if (text_eq e.key_id k && same_day e.date now) && less zero_usd e.cost
          then plus (spend m (day_key k now)) e.cost
          else spend m (day_key k now))
  unfolding record_cost
  spend-record_day m e k now v w = elim (Bool-cases (less zero_usd e.cost)) [
    | inl costs ↦
        rw
          (
            fl.at_most-not-less e.cost zero_usd,
            costs,
            spend-add (month_key e.key_id e.date) (day_key k now) e.cost
                (add_spend (day_key e.key_id e.date) e.cost m),
            other_key,
            spend-add (day_key e.key_id e.date) (day_key k now) e.cost m,
          )
          (ground (
            arith,
            day_key_iff e.key_id k e.date now v w,
            text_eq_iff (day_key e.key_id e.date) (day_key k now),
          ))
    | inr free ↦ rw (fl.at_most-not-less e.cost zero_usd, free) (ground arith)
  ]
    where
      other_key : text_eq (month_key e.key_id e.date) (day_key k now) ≡ false
      other_key =
          not_true (λ h. day_key-ne-month_key k e.key_id now e.date (sym ((text_eq_iff _ _).0 h)))

  spend-record_month :
      (m : Memory F) (e : Entry F) (k : Text) (now : Date)
      → IsDate e.date
      → IsDate now
      → spend (record_cost m e.date e.key_id e.cost) (month_key k now) ≡ (
          if (text_eq e.key_id k && same_month e.date now) && less zero_usd e.cost
          then plus (spend m (month_key k now)) e.cost
          else spend m (month_key k now))
  unfolding record_cost
  spend-record_month m e k now v w = elim (Bool-cases (less zero_usd e.cost)) [
    | inl costs ↦
        rw
          (
            fl.at_most-not-less e.cost zero_usd,
            costs,
            spend-add (month_key e.key_id e.date) (month_key k now) e.cost
                (add_spend (day_key e.key_id e.date) e.cost m),
            spend-add (day_key e.key_id e.date) (month_key k now) e.cost m,
            spend-add (day_key e.key_id e.date) (month_key e.key_id e.date) e.cost m,
            other_key (k, now),
            other_key (e.key_id, e.date),
          )
          (ground (
            arith,
            month_key_iff e.key_id k e.date now v w,
            text_eq_iff (month_key e.key_id e.date) (month_key k now),
          ))
    | inr free ↦ rw (fl.at_most-not-less e.cost zero_usd, free) (ground arith)
  ]
    where
      other_key : (j : Text × Date) → text_eq (day_key e.key_id e.date) (month_key j.0 j.1) ≡ false
      other_key (j, d) =
          not_true (λ h. day_key-ne-month_key e.key_id j e.date d ((text_eq_iff _ _).0 h))

  -- A memory that holds the totals of a ledger holds them after the entries to come.
  spend-record_all_day :
      (m : Memory F) (h : List (Entry F)) (k : Text) (now : Date)
      → All Dated h
      → IsDate now
      → spend (record_all m h) (day_key k now)
        ≡ total (λ d. same_day d now) k (spend m (day_key k now)) h
  unfolding record_all total
  spend-record_all_day m [] k now a w = refl
  spend-record_all_day m (e ∷ h) k now a w =
      spend-record_all_day (record_cost m e.date e.key_id e.cost) h k now a.1 w
      ∙ rw (spend-record_day m e k now a.0 w)

  spend-record_all_month :
      (m : Memory F) (h : List (Entry F)) (k : Text) (now : Date)
      → All Dated h
      → IsDate now
      → spend (record_all m h) (month_key k now)
        ≡ total (λ d. same_month d now) k (spend m (month_key k now)) h
  unfolding record_all total
  spend-record_all_month m [] k now a w = refl
  spend-record_all_month m (e ∷ h) k now a w =
      spend-record_all_month (record_cost m e.date e.key_id e.cost) h k now a.1 w
      ∙ rw (spend-record_month m e k now a.0 w)

  -- `Check` is the two comparisons; the early return for no caps changes nothing.
  check-reached :
      (m : Memory F) (now : Date) (k : Text) (daily month : F)
      → check m now k daily month ≡ (
          if reached daily (spend m (day_key k now)) || reached month (spend m (month_key k now))
          then some budget_exceeded
          else none)
  unfolding check
  check-reached m now k daily month =
      ground (arith, fl.at_most-not-less daily zero_usd, fl.at_most-not-less month zero_usd)

  spend-nil : (k : Text) → spend [] k ≡ zero_usd
  unfolding spend lookup
  spend-nil k = refl

  -- After any list of recorded costs, of any keys on any dates that have a four-digit year, `Check`
  -- refuses a key exactly when a cap of it is positive and at most the total of its costs on this
  -- day, or in this month, as the list itself gives them; so no key's spend is charged to another,
  -- and no day's to another day.
  pub check-record_all :
      (h : List (Entry F)) (now : Date) (k : Text) (daily month : F)
      → All Dated h
      → IsDate now
      → check (record_all [] h) now k daily month ≡ (
          if reached daily (total (λ d. same_day d now) k zero_usd h)
            || reached month (total (λ d. same_month d now) k zero_usd h)
          then some budget_exceeded
          else none)
  check-record_all h now k daily month a w =
      check-reached (record_all [] h) now k daily month
      ∙ rw (
        spend-record_all_day [] h k now a w,
        spend-record_all_month [] h k now a w,
        spend-nil (day_key k now),
        spend-nil (month_key k now),
      )

  reached-plus :
      (cap sum cost : F) (b : Bool)
      → reached cap sum ≡ true
      → reached cap (if b && less zero_usd cost then plus sum cost else sum) ≡ true
  reached-plus cap sum cost b r =
      ground (arith, fl.at_most_trans cap sum (plus sum cost), fl.at_most-plus sum cost)

  check-record_cost :
      (m : Memory F) (e : Entry F) (now : Date) (k : Text) (daily month : F)
      → IsDate e.date
      → IsDate now
      → check m now k daily month ≡ some budget_exceeded
      → check (record_cost m e.date e.key_id e.cost) now k daily month ≡ some budget_exceeded
  check-record_cost m e now k daily month v w r =
      let both = refused _ (sym (check-reached m now k daily month) ∙ r) in
      check-reached (record_cost m e.date e.key_id e.cost) now k daily month
      ∙ rw (spend-record_day m e k now v w, spend-record_month m e k now v w)
          (ground (
            arith,
            reached-plus daily (spend m (day_key k now)) e.cost
                (text_eq e.key_id k && same_day e.date now),
            reached-plus month (spend m (month_key k now)) e.cost
                (text_eq e.key_id k && same_month e.date now),
          ))

  -- Once `Check` refuses a key on a date it refuses it on that date for good, whatever costs are
  -- recorded after, for this key or others, on this date or others.
  pub check-record_all_later :
      (h : List (Entry F)) (m : Memory F) (now : Date) (k : Text) (daily month : F)
      → All Dated h
      → IsDate now
      → check m now k daily month ≡ some budget_exceeded
      → check (record_all m h) now k daily month ≡ some budget_exceeded
  unfolding record_all
  check-record_all_later [] m now k daily month a w r = r
  check-record_all_later (e ∷ h) m now k daily month a w r =
      check-record_all_later h (record_cost m e.date e.key_id e.cost) now k daily month a.1 w
        (check-record_cost m e now k daily month a.0 w r)
