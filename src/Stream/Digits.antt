-- ===== src/Stream/Digits.antt =====
-- The number in the trailer of a timeout.
use native.Mathlib.Nat.{div-add-mod}
use rein.Base.{
  ℕ, zero, suc, ◌+◌, ◌-◌, ◌*◌, ◌/◌, ◌%◌, ◌≤◌, ◌≡◌, refl, ltb, [], ◌∷◌, ◌++◌, Text, arith,
  Bool-cases, inl, inr,
}
use rein.Stream.Reader.{decimal}

-- The number that a text of decimal digits reads as, after the digits of another.
unfoldable pub value_from : ℕ → Text → ℕ
value_from n [] = n
value_from n (c ∷ s) = value_from (n * 10 + (c - 48)) s

value_from-append :
    (n : ℕ) (s : Text) (c : ℕ) → value_from n (s ++ c ∷ []) ≡ value_from n s * 10 + (c - 48)
unfolding value_from
value_from-append n [] c = refl
value_from-append n (d ∷ s) c = value_from-append (n * 10 + (d - 48)) s c

tenth_smaller : (fuel n : ℕ) → n ≤ suc fuel → 10 ≤ n → n / 10 ≤ fuel
tenth_smaller fuel n le big = omega (arith, div-add-mod n 10)

-- With fuel no less than the number, as in the trailer, the digits read back as the number.
pub value_from-decimal : (fuel n : ℕ) → n ≤ fuel → value_from 0 (decimal fuel n) ≡ n
unfolding value_from decimal
value_from-decimal zero n le = omega arith
value_from-decimal (suc fuel) n le = elim (Bool-cases (ltb n 10)) [
  | inl single ↦ rw single (omega arith)
  | inr more ↦
      let rest = value_from-decimal fuel (n / 10) (tenth_smaller fuel n le (ground arith)) in
      rw (more, value_from-append 0 (decimal fuel (n / 10)) (48 + n % 10), rest)
        (omega (arith, div-add-mod n 10))
]
