-- ===== src/Rfc3339/Unary.antt =====
-- A value of the parameter that writes and reads seconds, for the tests: as many `1` as there are
-- seconds, then `0`.
use native.Mathlib.Nat.{div-lt_iff_lt-mul, div-add-mod', mod-lt}
use rein.Base.{
  ℕ, suc, zero, ◌≡◌, refl, ◌==◌, ◌+◌, ◌-◌, ◌*◌, ◌/◌, ◌%◌, ◌^◌, ◌<◌, ◌∙◌, ap, true, false, [], ◌∷◌,
  ◌++◌, some, if◌then◌else◌, Text, bytes, arith, inl, inr, Bool-cases,
}
use rein.Rfc3339.Order.{fraction_zero, fraction_some}
use rein.Rfc3339.{Rfc3339, second, trimmed_digits, fraction, text_le}

unary : ℕ → Text
unary zero = b'0' ∷ []
unary (suc n) = b'1' ∷ unary n

-- The digits up to `Z`, in n places.
read_digits : ℕ → Text → ℕ
read_digits zero s = 0
read_digits (suc n) [] = 0
read_digits (suc n) (c ∷ s) =
    let rest = read_digits n s in if c == b'Z' then 0 else (c - b'0') * 10 ^ n + rest

read_fraction : Text → ℕ
unfolding read_digits
read_fraction [] = 0
read_fraction (c ∷ s) = if c == b'.' then read_digits 9 s else 0

read_unary : Text → ℕ
unfolding read_fraction
read_unary [] = 0
read_unary (c ∷ s) = let rest = read_unary s in if c == b'1' then second + rest else read_fraction s

unary_before :
    (a b : ℕ) (x y : Text)
    → a < b
    → (text_le (unary a ++ x) (unary b ++ y) ≡ true)
      × (text_le (unary b ++ y) (unary a ++ x) ≡ false)
unfolding text_le unary
unary_before a zero x y lt = absurd (omega arith)
unary_before zero (suc b) x y lt = (refl, refl)
unary_before (suc a) (suc b) x y lt = unary_before a b x y (omega arith)

power_pos : (n : ℕ) → 0 < 10 ^ n
power_pos zero = omega arith
power_pos (suc n) = let h = power_pos n in omega (arith, h)

digit_lt : (n f : ℕ) → f < 10 ^ suc n → f / 10 ^ n < 10
digit_lt n f lt = (div-lt_iff_lt-mul (power_pos n)).1 (omega (arith, lt))

read_digits-trimmed_digits :
    (n f : ℕ) → f < 10 ^ n → read_digits n (trimmed_digits n f ++ bytes "Z") ≡ f
unfolding read_digits trimmed_digits bytes
read_digits-trimmed_digits zero f lt = omega arith
read_digits-trimmed_digits (suc n) f lt = elim (Bool-cases (f == 0)) [
  | inl none_left ↦ ground arith
  | inr left ↦
      let small = digit_lt n f lt in
      let low : f % 10 ^ n < 10 ^ n = mod-lt f (power_pos n) in
      let again = read_digits-trimmed_digits n (f % 10 ^ n) low in
      let whole = div-add-mod' f (10 ^ n) in
      let other : ((48 + f / 10 ^ n) == 90) ≡ false = ground arith in
      let digit : (48 + f / 10 ^ n) - 48 ≡ f / 10 ^ n = omega arith in
      rw (left, other, digit, again) whole
]

no_fraction : read_fraction (bytes "Z") ≡ 0
unfolding read_fraction bytes
no_fraction = refl

read_fraction_point : (s : Text) → read_fraction (b'.' ∷ s) ≡ read_digits 9 s
unfolding read_fraction
read_fraction_point s = refl

read_fraction-fraction : (f : ℕ) → f < second → read_fraction (fraction f ++ bytes "Z") ≡ f
read_fraction-fraction f lt = elim (Bool-cases (f == 0)) [
  | inl whole ↦ let zero_part : f ≡ 0 = ground arith in rw (zero_part, fraction_zero) no_fraction
  | inr part ↦
      rw (fraction_some f (ground arith), read_fraction_point) (read_digits-trimmed_digits 9 f lt)
]

read_unary-unary : (s : ℕ) (x : Text) → read_unary (unary s ++ x) ≡ s * second + read_fraction x
unfolding read_unary unary
read_unary-unary zero x = omega arith
read_unary-unary (suc s) x = rw (read_unary-unary s x) (omega arith)

pub unary_clock : Rfc3339
unary_clock = record {
  second_text = unary;
  parse = λ t. some (read_unary t);
  before = λ a b lt last x y. unary_before a b x y lt;
  parse-format = λ t last. ap some (
      read_unary-unary (t / second) _
      ∙ rw (read_fraction-fraction (t % second) (omega arith)) (omega arith));
}
