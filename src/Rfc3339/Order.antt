-- ===== src/Rfc3339/Order.antt =====
-- The order of the texts of instants, which is that of time only between different seconds.
use rein.Base.{
  ℕ, ◌+◌, ◌/◌, ◌%◌, ◌*◌, ◌<◌, ◌≡◌, ◌≢◌, refl, true, false, [], ◌∷◌, ◌++◌, Text, bytes, ltb, leb,
  arith, inl, inr, Bool-cases,
}
use rein.Rfc3339.{Rfc3339, second, end_of_years, fraction, trimmed_digits, format, text_le}

text_le-append : (s x y : Text) → text_le (s ++ x) (s ++ y) ≡ text_le x y
unfolding text_le
text_le-append [] x y = refl
text_le-append (c ∷ s) x y = ground (arith, text_le-append s x y)

pub fraction_zero : fraction 0 ≡ []
unfolding fraction
fraction_zero = refl

pub fraction_some : (f : ℕ) → f ≢ 0 → fraction f ≡ b'.' ∷ trimmed_digits 9 f
unfolding fraction
fraction_some f h = ground arith

point_le : (d : Text) → text_le (b'.' ∷ d) (bytes "Z") ≡ true
unfolding text_le bytes
point_le d = refl

not_le_point : (d : Text) → text_le (bytes "Z") (b'.' ∷ d) ≡ false
unfolding text_le bytes
not_le_point d = refl

module _ (clock : Rfc3339) where
  -- Instants of different seconds are ordered as their texts are.
  pub text_le-format :
      (t u : ℕ)
      → t / second ≢ u / second
      → t / second < end_of_years
      → u / second < end_of_years
      → text_le (format clock t) (format clock u) ≡ leb t u
  unfolding format
  text_le-format t u apart lt lu = elim (Bool-cases (ltb (t / second) (u / second))) [
    | inl earlier ↦
        let (yes_, _) = clock.before (t / second) (u / second) (ground arith) lu _ _ in
        let order : leb t u ≡ true = ground arith in rw (order, format) yes_
    | inr later ↦
        let (_, no_) = clock.before (u / second) (t / second) (ground arith) lt _ _ in
        let order : leb t u ≡ false = ground arith in rw (order, format) no_
  ]

  -- Within a second a whole instant has the greater text, though it is the earlier one: `.` is
  -- less than `Z`.
  pub text_le-format_whole :
      (s f : ℕ)
      → f ≢ 0
      → f < second
      → (text_le (format clock (s * second + f)) (format clock (s * second)) ≡ true)
        × (text_le (format clock (s * second)) (format clock (s * second + f)) ≡ false)
  unfolding format
  text_le-format_whole s f some_ lt =
      let q : (s * second + f) / second ≡ s = omega arith in
      let r : (s * second + f) % second ≡ f = omega arith in
      let q0 : (s * second) / second ≡ s = omega arith in
      let r0 : (s * second) % second ≡ 0 = omega arith in
      (
        rw
            (
              q,
              r,
              q0,
              r0,
              fraction_some f some_,
              fraction_zero,
              text_le-append (clock.second_text s),
            )
            (point_le _),
        rw
            (
              q,
              r,
              q0,
              r0,
              fraction_some f some_,
              fraction_zero,
              text_le-append (clock.second_text s),
            )
            (not_le_point _),
      )
