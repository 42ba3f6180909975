-- ===== src/Adapter/Prices.antt =====
-- internal/meter/pricing.go: what prices a model, told apart from how `Cost` finds it.
use rein.Base.{
  ℤ, ◌≡◌, ◌⊎◌, refl, true, false, List, none, some, Text, text_eq, lookup, arith, Bool-cases,
  Option-cases, inl, inr,
}
use rein.Base.Float.{Float}
use rein.Meter.Pricing.{Pricer, ModelPrice, strip_date, price_cost, find_price, cost}

-- The price of a model of an upstream: its own, or, where the model has none, that of another name
-- which the name without its date is.
pub data IsPriced {F : Type 0} (p : Pricer F) (upstream model : Text) (price : ModelPrice F)
    : Type 0 where
  by_name :
      (models : List (Text × ModelPrice F))
      → lookup upstream p ≡ some models
      → lookup model models ≡ some price
      → IsPriced p upstream model price
  by_undated :
      (models : List (Text × ModelPrice F))
      → lookup upstream p ≡ some models
      → lookup model models ≡ none
      → text_eq (strip_date model) model ≡ false
      → lookup (strip_date model) models ≡ some price
      → IsPriced p upstream model price

module _ {F : Type 0} ⦃fl : Float F⦄ where
  open fl use {million, of_int, plus, times, over}

  pub cost-IsPriced :
      (p : Pricer F) (upstream model : Text) (i o : ℤ)
      → ((¬ ((price : ModelPrice F) × IsPriced p upstream model price))
          × (cost p upstream model i o ≡ none))
        ⊎ ((price : ModelPrice F) × IsPriced p upstream model price
            × (cost p upstream model i o
                ≡ some (
                    plus
                      (times (over (of_int i) million) price.input_per_mtoken)
                      (times (over (of_int o) million) price.output_per_mtoken))))
  unfolding cost find_price price_cost
  cost-IsPriced p upstream model i o = elim (Option-cases (lookup upstream p)) [
    | inl absent ↦ inl (no_models absent, rw (absent, cost) refl)
    | inr (models, there) ↦ elim (Option-cases (lookup model models)) [
      | inr (price, named) ↦ inr (price, by_name models there named, ground (arith, there, named))
      | inl unnamed ↦ elim (Bool-cases (text_eq (strip_date model) model)) [
        | inl same ↦ inl (no_name models there unnamed same, ground (arith, there, unnamed, same))
        | inr dated ↦ elim (Option-cases (lookup (strip_date model) models)) [
          | inl unknown ↦ inl (
            no_dated models there unnamed unknown,
            ground (arith, there, unnamed, dated, unknown),
          )
          | inr (price, based) ↦ inr (
            price,
            by_undated models there unnamed dated based,
            ground (arith, there, unnamed, dated, based),
          )
        ]
      ]
    ]
  ]
    where
      no_models :
          lookup upstream p ≡ none → ¬ ((price : ModelPrice F) × IsPriced p upstream model price)
      no_models absent (price, by_name models there named) = absurd (ground arith)
      no_models absent (price, by_undated models there unnamed dated based) = absurd (ground arith)

      no_name :
          (models : List (Text × ModelPrice F))
          → lookup upstream p ≡ some models
          → lookup model models ≡ none
          → text_eq (strip_date model) model ≡ true
          → ¬ ((price : ModelPrice F) × IsPriced p upstream model price)
      no_name models there unnamed same (price, by_name models' there' named) =
          absurd (ground arith)
      no_name models there unnamed same (price, by_undated models' there' _ dated based) =
          absurd (ground arith)

      no_dated :
          (models : List (Text × ModelPrice F))
          → lookup upstream p ≡ some models
          → lookup model models ≡ none
          → lookup (strip_date model) models ≡ none
          → ¬ ((price : ModelPrice F) × IsPriced p upstream model price)
      no_dated models there unnamed unknown (price, by_name models' there' named) =
          absurd (ground arith)
      no_dated models there unnamed unknown (price, by_undated models' there' _ dated based) =
          absurd (ground arith)
