-- ===== src/Rfc3339.antt =====
-- time.RFC3339Nano in UTC, as the key store writes instants: the text of the second, the fraction
-- without its trailing zeros, and `Z`. Instants are nanoseconds since 1970.
pub mod Order
pub mod Unary
use rein.Base.{
  ℕ, zero, suc, ◌+◌, ◌-◌, ◌*◌, ◌/◌, ◌%◌, ◌^◌, ◌<◌, ◌≡◌, true, false, Bool, List, [], ◌∷◌, ◌++◌,
  Option, some, if◌then◌else◌, Text, bytes, ltb, ◌==◌,
}

abbrev pub second : ℕ
second = 1_000_000_000

-- The first second of the year 10000, where the format ends.
abbrev pub end_of_years : ℕ
end_of_years = 253_402_300_800

-- The digits of a number at most `10 ^ n - 1`, in n places, less the zeros at the end.
unfoldable pub trimmed_digits : ℕ → ℕ → Text
trimmed_digits zero f = []
trimmed_digits (suc n) f =
    let rest = trimmed_digits n (f % 10 ^ n) in if f == 0 then [] else (b'0' + f / 10 ^ n) ∷ rest

-- `.5` for half a second, and nothing for a whole one.
unfoldable pub fraction : ℕ → Text
unfolding trimmed_digits
fraction f = if f == 0 then [] else b'.' ∷ trimmed_digits 9 f

-- SQLite's `<=` on TEXT: byte by byte.
unfoldable pub text_le : Text → Text → Bool
text_le [] t = true
text_le (x ∷ s) [] = false
text_le (x ∷ s) (y ∷ t) = if x == y then text_le s t else ltb x y

-- The text of a second up to `05` in `2006-01-02T15:04:05`, whose order is that of time, and
-- time.Parse.
pub record Rfc3339 : Type 0 where
  pub second_text : ℕ → Text
  pub parse : Text → Option ℕ
  pub before :
      (a b : ℕ)
      → a < b
      → b < end_of_years
      → (x y : Text)
      → (text_le (second_text a ++ x) (second_text b ++ y) ≡ true)
        × (text_le (second_text b ++ y) (second_text a ++ x) ≡ false)
  pub parse-format :
      (t : ℕ)
      → t / second < end_of_years
      → parse (second_text (t / second) ++ (fraction (t % second) ++ bytes "Z")) ≡ some t

-- t.UTC().Format(time.RFC3339Nano)
unfoldable pub format : Rfc3339 → ℕ → Text
format clock t = clock.second_text (t / second) ++ (fraction (t % second) ++ bytes "Z")
