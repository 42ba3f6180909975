-- ===== src/Meter/Period.antt =====
-- internal/meter/meter.go: `dayPeriodKey`, `monthPeriodKey` and `periodKeys`. An instant is read as
-- its civil date in UTC; `Format` writes the year with four digits, month and day with two.
use mathlib.Core.List.{append_assoc}
use rein.Base.{
  ℕ, ◌+◌, ◌/◌, ◌%◌, ◌<◌, ◌≡◌, refl, ap, ◌∙◌, sym, [], ◌∷◌, ◌++◌, Text, bytes, arith, length,
  length-append, ◌≢◌,
}

pub record Date : Type 0 where
  pub year : ℕ
  pub month : ℕ
  pub day : ℕ

-- A date that `Format` writes with these widths.
pub record IsDate (d : Date) : Type 0 where
  pub year_lt : d.year < 10000
  pub month_lt : d.month < 100
  pub day_lt : d.day < 100

abbrev pub digit : ℕ → ℕ
digit n = 48 + n % 10

abbrev pub pad2 : ℕ → Text
pad2 n = digit (n / 10) ∷ digit n ∷ []

abbrev pub pad4 : ℕ → Text
pad4 n = digit (n / 1000) ∷ digit (n / 100) ∷ digit (n / 10) ∷ digit n ∷ []

-- "d:2006-01-02"
unfoldable pub day_period_key : Date → Text
unfolding bytes
day_period_key d =
    bytes "d:" ++ (pad4 d.year ++ (bytes "-" ++ (pad2 d.month ++ (bytes "-" ++ pad2 d.day))))

-- "m:2006-01"
unfoldable pub month_period_key : Date → Text
unfolding bytes
month_period_key d = bytes "m:" ++ (pad4 d.year ++ (bytes "-" ++ pad2 d.month))

unfoldable pub period_keys : Text → Date → Text × Text
period_keys key_id now =
    (key_id ++ (bytes "|" ++ day_period_key now), key_id ++ (bytes "|" ++ month_period_key now))

-- The keys under which the spend of a key is kept.
abbrev pub day_key : Text → Date → Text
day_key key_id now = (period_keys key_id now).0

abbrev pub month_key : Text → Date → Text
month_key key_id now = (period_keys key_id now).1

append_cancel : (xs ys a b : Text) → length a ≡ length b → xs ++ a ≡ ys ++ b → (xs ≡ ys) × (a ≡ b)
append_cancel [] [] a b l e = (refl, e)
append_cancel [] (y ∷ ys) a b l e = absurd (omega (arith, ap length e, length-append ys b))
append_cancel (x ∷ xs) [] a b l e = absurd (omega (arith, ap length e, length-append xs a))
append_cancel (x ∷ xs) (y ∷ ys) a b l e = let (p, q) = append_cancel xs ys a b l (cc) in (cc, q)

-- The same day; the same month of a year.
abbrev pub SameMonth : Date → Date → Type 0
SameMonth d e = (d.year ≡ e.year) × (d.month ≡ e.month)

abbrev pub SameDay : Date → Date → Type 0
SameDay d e = (d.year ≡ e.year) × (d.month ≡ e.month) × (d.day ≡ e.day)

pad2_eq : (a b : ℕ) → a < 100 → b < 100 → pad2 a ≡ pad2 b → a ≡ b
pad2_eq a b p q e = ground arith

pad4_eq : (a b : ℕ) → a < 10000 → b < 10000 → pad4 a ≡ pad4 b → a ≡ b
pad4_eq a b p q e = ground arith

pub day_period_key-eq :
    (d e : Date) → IsDate d → IsDate e → day_period_key d ≡ day_period_key e → SameDay d e
unfolding day_period_key
day_period_key-eq d e v w p = (
  pad4_eq d.year e.year v.year_lt w.year_lt (cc),
  pad2_eq d.month e.month v.month_lt w.month_lt (cc),
  pad2_eq d.day e.day v.day_lt w.day_lt (cc),
)

pub month_period_key-eq :
    (d e : Date) → IsDate d → IsDate e → month_period_key d ≡ month_period_key e → SameMonth d e
unfolding month_period_key
month_period_key-eq d e v w p = (
  pad4_eq d.year e.year v.year_lt w.year_lt (cc),
  pad2_eq d.month e.month v.month_lt w.month_lt (cc),
)

pub day_key_eq :
    (k j : Text) (d e : Date)
    → IsDate d
    → IsDate e
    → day_key k d ≡ day_key j e
    → (k ≡ j) × SameDay d e
unfolding period_keys day_period_key
day_key_eq k j d e v w p =
    let (same, tail) =
      append_cancel k j (bytes "|" ++ day_period_key d) (bytes "|" ++ day_period_key e) refl p in
    (same, day_period_key-eq d e v w (cc))

pub month_key_eq :
    (k j : Text) (d e : Date)
    → IsDate d
    → IsDate e
    → month_key k d ≡ month_key j e
    → (k ≡ j) × SameMonth d e
unfolding period_keys month_period_key
month_key_eq k j d e v w p =
    let (same, tail) =
      append_cancel k j (bytes "|" ++ month_period_key d) (bytes "|" ++ month_period_key e) refl
        p in
    (same, month_period_key-eq d e v w (cc))

pub day_key-ne-month_key : (k j : Text) (d e : Date) → day_key k d ≢ month_key j e
unfolding period_keys day_period_key month_period_key
day_key-ne-month_key k j d e p =
    let date : Text =
      digit (d.year / 100)
      ∷ digit (d.year / 10)
      ∷ digit d.year
      ∷ 45
      ∷ (pad2 d.month ++ 45 ∷ pad2 d.day) in
    let head : Text = 124 ∷ 100 ∷ 58 ∷ digit (d.year / 1000) ∷ [] in
    let (_, tail) =
      append_cancel (k ++ head) (j ++ 124 ∷ []) date (month_period_key e) refl
        (append_assoc k head date ∙ p ∙ sym (append_assoc j (124 ∷ []) (month_period_key e))) in
    ground arith
