-- ===== src/Meter/Loader/Merge.antt =====
-- What the merged table holds.
use rein.Base.{
  ◌≡◌, refl, ◌∙◌, [], ◌∷◌, Option, get_or, Text, text_eq_iff, Dict, lookup, insert, lookup-insert,
  Distinct, or_else, arith, All,
}
use rein.Base.Float.{Float}
use rein.Meter.Pricing.{ModelPrice, Pricer}
use rein.Meter.Loader.{merge_table, merge}

module _ {F : Type 0} ⦃fl : Float F⦄ where
  -- The price of a model at an upstream.
  abbrev pub price_at : Pricer F → Text → Text → Option (ModelPrice F)
  price_at p u m = lookup m (get_or (lookup u p) [])

  -- Each table of the map, as the whole, has no key twice.
  abbrev pub IsMap : Pricer F → Type 0
  IsMap p = Distinct p × All (λ e. Distinct e.1) p

  lookup-merge_table :
      (m : Text) (merged t : Dict (ModelPrice F))
      → Distinct t
      → lookup m (merge_table merged t) ≡ or_else (lookup m t) (lookup m merged)
  unfolding merge_table lookup
  lookup-merge_table m merged [] d = refl
  lookup-merge_table m merged ((k, price) ∷ t) d =
      lookup-merge_table m (insert k price merged) t d.1
      ∙ ground (arith, text_eq_iff k m, lookup-insert k m price merged)

  -- After the merge of a file without repeated keys, a model has the file's price if the file gives
  -- one, and else the embedded one.
  pub price_at-merge :
      (base file : Pricer F) (u m : Text)
      → IsMap file
      → price_at (merge base file) u m ≡ or_else (price_at file u m) (price_at base u m)
  unfolding merge lookup
  price_at-merge base [] u m d = refl
  price_at-merge base ((v, table) ∷ p) u m d =
      price_at-merge (insert v (merge_table (get_or (lookup v base) []) table) base) p u m
        (d.0.1, d.1.1)
      ∙ ground (
        arith,
        text_eq_iff v u,
        lookup-insert v u (merge_table (get_or (lookup v base) []) table) base,
        lookup-merge_table m (get_or (lookup v base) []) table d.1.0,
      )
