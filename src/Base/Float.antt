-- ===== src/Base/Float.antt =====
-- Go's float64, the type of USD amounts and prices, as an interface: the type and its operations are
-- a parameter of the model, with the laws of IEEE 754 arithmetic that the proofs use. The values are
-- the float64 values other than NaN, which no amount here is: prices and caps come from JSON, which
-- has no NaN and no infinity, and spend only grows.
use rein.Base.Int.{ℤ}
use mathlib.Core.Path.{◌≡◌}
use mathlib.Core.Bool.{Bool, true, not}

pub record Float (F : Type 0) : Type 0 where
  pub zero_usd : F
  pub million : F
  -- float64(n) of a Go int.
  pub of_int : ℤ → F
  pub plus : F → F → F
  pub times : F → F → F
  pub over : F → F → F
  -- a < b and a <= b.
  pub less : F → F → Bool
  pub at_most : F → F → Bool
  pub zero-plus : (a : F) → plus zero_usd a ≡ a
  pub at_most-not-less : (a b : F) → at_most a b ≡ not (less b a)
  pub at_most_trans : (a b c : F) → at_most a b ≡ true → at_most b c ≡ true → at_most a c ≡ true
  -- Adding a positive amount never makes a sum smaller, whatever the rounding.
  pub at_most-plus : (a c : F) → less zero_usd c ≡ true → at_most a (plus a c) ≡ true
