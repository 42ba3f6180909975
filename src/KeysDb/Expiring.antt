-- ===== src/KeysDb/Expiring.antt =====
-- Which keys the sweeper gets from `ListExpiring`.
use rein.Base.{ℕ, ◌+◌, ◌*◌, ◌<◌, ◌≡◌, ◌≢◌, refl, true, false, none, some, arith}
use rein.Rfc3339.{Rfc3339, second, format}
use rein.Rfc3339.Order.{text_le-format_whole}
use rein.KeysDb.{Row, is_expiring}

module _ {F : Type 0} (clock : Rfc3339) (r : Row F) where
  -- A key that is not revoked and that ends within a second is listed at the start of that second,
  -- before it ends.
  pub is_expiring_early :
      (s f : ℕ)
      → f ≢ 0
      → f < second
      → r.revoked_at ≡ none
      → r.expires_at ≡ some (format clock (s * second + f))
      → (is_expiring (format clock (s * second)) r ≡ true) × (s * second < s * second + f)
  unfolding is_expiring
  is_expiring_early s f some_ lt active ends = (
    rw (ends, is_expiring, (text_le-format_whole clock s f some_ lt).0, active) refl,
    omega arith,
  )

  -- A key that ends with a whole second is not listed within the rest of that second.
  pub is_expiring_late :
      (s f : ℕ)
      → f ≢ 0
      → f < second
      → r.expires_at ≡ some (format clock (s * second))
      → is_expiring (format clock (s * second + f)) r ≡ false
  unfolding is_expiring
  is_expiring_late s f some_ lt ends =
      rw (ends, is_expiring, (text_le-format_whole clock s f some_ lt).1) refl
