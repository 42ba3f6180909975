-- ===== src/Meter/Pricing/Dated.antt =====
-- Dated model names resolve to their base entries.
use rein.Base.{
  ◌≡◌, refl, ap, true, false, [], ◌∷◌, ◌++◌, none, some, ℕ, ℤ, Text, text_eq, text_eq_iff, Dict,
  lookup, length, length-append, arith, not_true, inl, inr, ◌≤◌, ◌<◌, ◌⊎◌,
}
use rein.Base.Float.{Float}
use rein.Meter.Pricing.{
  ModelPrice, is_date_suffix, strip_date, find_price, cost, price_cost, Pricer,
}

suffix_long : (s : Text) → 12 ≤ length s → is_date_suffix s ≡ false
unfolding is_date_suffix
suffix_long (a ∷ b ∷ c ∷ d ∷ e ∷ f ∷ g ∷ h ∷ i ∷ j ∷ k ∷ l ∷ s) le = refl
suffix_long _ le = absurd (omega arith)

suffix_length : (s : Text) → is_date_suffix s ≡ true → (length s ≡ 9) ⊎ (length s ≡ 11)
unfolding is_date_suffix
suffix_length (a ∷ b ∷ c ∷ d ∷ e ∷ f ∷ g ∷ h ∷ i ∷ []) p = inl refl
suffix_length (a ∷ b ∷ c ∷ d ∷ e ∷ f ∷ g ∷ h ∷ i ∷ j ∷ k ∷ []) p = inr refl
suffix_length _ p = absurd (ground arith)

-- One or two characters before a suffix of nine make no suffix: there is none of ten, and in one of
-- eleven the third character is a digit and not the hyphen.
suffix_nine :
    (x y h a b c d e f g i : ℕ)
    → is_date_suffix (h ∷ a ∷ b ∷ c ∷ d ∷ e ∷ f ∷ g ∷ i ∷ []) ≡ true
    → is_date_suffix (x ∷ y ∷ h ∷ a ∷ b ∷ c ∷ d ∷ e ∷ f ∷ g ∷ i ∷ []) ≡ false
unfolding is_date_suffix
suffix_nine x y h a b c d e f g i p = ground arith

suffix_two : (x y : ℕ) (d : Text) → is_date_suffix d ≡ true → is_date_suffix (x ∷ y ∷ d) ≡ false
suffix_two x y (h ∷ a ∷ b ∷ c ∷ d ∷ e ∷ f ∷ g ∷ i ∷ []) p = suffix_nine x y h a b c d e f g i p
suffix_two x y d p = not_true (λ q. omega (arith, suffix_length d p, suffix_length (x ∷ y ∷ d) q))

-- A text that ends in a date suffix, and is longer, is no date suffix as a whole.
suffix-append : (x : ℕ) (s d : Text) → is_date_suffix d ≡ true → is_date_suffix (x ∷ s ++ d) ≡ false
suffix-append x [] d p = not_true (λ q. omega (arith, suffix_length d p, suffix_length (x ∷ d) q))
suffix-append x (y ∷ []) d p = suffix_two x y d p
suffix-append x (y ∷ z ∷ s) d p =
    not_true (λ q.
      omega (arith, suffix_length d p, suffix_length (x ∷ y ∷ z ∷ s ++ d) q, length-append s d))

-- A model name with a date behind it, in either form, is stripped to the name without the date.
pub strip_date-append : (base d : Text) → is_date_suffix d ≡ true → strip_date (base ++ d) ≡ base
unfolding strip_date
strip_date-append [] [] p = refl
strip_date-append [] (x ∷ d) p = rw p
strip_date-append (x ∷ base) d p =
    rw (suffix-append x base d p) (ap (◌∷◌ x) (strip_date-append base d p))

append-ne : (base d : Text) → 0 < length d → text_eq base (base ++ d) ≡ false
append-ne base d lt =
    not_true
      (λ q. omega (arith, ap length ((text_eq_iff base (base ++ d)).0 q), length-append base d))

module _ {F : Type 0} ⦃fl : Float F⦄ where
  -- At an upstream that the price table has, a dated model that has no entry of its own costs what its base model costs, and has no cost if
  -- the base model has no entry; with an entry of its own, that entry prices it.
  pub cost-dated :
      (p : Pricer F) (table : Dict (ModelPrice F)) (upstream base d : Text) (input output : ℤ)
      → lookup upstream p ≡ some table
      → is_date_suffix d ≡ true
      → cost p upstream (base ++ d) input output ≡ (elim (lookup (base ++ d) table) [
        | some own ↦ some (price_cost own input output)
        | none ↦ elim (lookup base table) [
          | some mp ↦ some (price_cost mp input output)
          | none ↦ none
        ]
      ])
  unfolding cost find_price
  cost-dated p table upstream base d input output found dated = ground (
    arith,
    strip_date-append base d dated,
    append-ne base d (omega (arith, suffix_length d dated)),
  )
