-- ===== src/Meter/Pricing.antt =====
-- internal/meter/pricing.go: the pricing table and the cost of a response.
pub mod Dated
use rein.Base.{
  ◌≡◌, Bool, true, false, ◌&&◌, ◌||◌, leb, ◌==◌, List, [], ◌∷◌, Option, none, some, if◌then◌else◌,
  ℕ, ◌+◌, ℤ, Text, text_eq, Dict, lookup, length,
}
use rein.Base.Float.{Float}

pub record ModelPrice (F : Type 0) : Type 0 where
  pub input_per_mtoken : F
  pub output_per_mtoken : F

-- The map from an upstream and a model to a price.
abbrev pub Pricer : Type 0 → Type 0
Pricer F = Dict (Dict (ModelPrice F))

abbrev pub is_digit : ℕ → Bool
is_digit c = leb 48 c && leb c 57

abbrev pub all_digits : Text → Bool
all_digits [] = true
all_digits (c ∷ s) = is_digit c && all_digits s

abbrev pub hyphen : ℕ
hyphen = 45

-- The two alternatives of `dateSuffix`, on a whole text: "-YYYYMMDD" and "-YYYY-MM-DD".
unfoldable pub is_date_suffix : Text → Bool
is_date_suffix (h ∷ a ∷ b ∷ c ∷ d ∷ e ∷ f ∷ g ∷ i ∷ []) =
    h == hyphen && all_digits (a ∷ b ∷ c ∷ d ∷ e ∷ f ∷ g ∷ i ∷ [])
is_date_suffix (h ∷ a ∷ b ∷ c ∷ d ∷ e ∷ f ∷ g ∷ i ∷ j ∷ k ∷ []) =
    (h == hyphen && all_digits (a ∷ b ∷ c ∷ d ∷ []))
    && (e == hyphen && all_digits (f ∷ g ∷ []))
    && (i == hyphen && all_digits (j ∷ k ∷ []))
is_date_suffix _ = false

-- `dateSuffix.ReplaceAllString(model, "")`: the text before the leftmost rest that is such a suffix.
unfoldable pub strip_date : Text → Text
strip_date [] = []
strip_date (c ∷ s) = if is_date_suffix (c ∷ s) then [] else c ∷ strip_date s

module _ {F : Type 0} ⦃fl : Float F⦄ where
  open fl use {million, of_int, plus, times, over}

  unfoldable pub price_cost : ModelPrice F → ℤ → ℤ → F
  price_cost p input_tokens output_tokens =
      plus (times (over (of_int input_tokens) million) p.input_per_mtoken)
        (times (over (of_int output_tokens) million) p.output_per_mtoken)

  -- The entry that prices a model: its own, or that of the model without its date.
  unfoldable pub find_price : Dict (ModelPrice F) → Text → Option (ModelPrice F)
  find_price table model = elim (lookup model table) [
    | some mp ↦ some mp
    | none ↦ let base = strip_date model in if text_eq base model then none else lookup base table
  ]

  unfoldable pub cost : Pricer F → Text → Text → ℤ → ℤ → Option F
  cost p upstream model input_tokens output_tokens = elim (lookup upstream p) [
    | none ↦ none
    | some table ↦ elim (find_price table model) [
      | none ↦ none
      | some mp ↦ some (price_cost mp input_tokens output_tokens)
    ]
  ]

  unfoldable pub len : Pricer F → ℕ
  len [] = 0
  len ((_, table) ∷ p) = length table + len p
