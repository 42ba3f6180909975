-- ===== src/Meter/Loader/Reload.antt =====
-- Reloads over time: the holder never holds a table with a negative price.
use rein.Base.{
  ◌≡◌, refl, false, List, [], ◌∷◌, Option, none, some, get_or, Text, text_eq, Dict, lookup, insert,
  arith, All, All-insert, Bool-cases, Option-cases, inl, inr, ◌⊎◌, trim_space,
}
use rein.Base.Float.{Float}
use rein.Meter.Pricing.{ModelPrice, Pricer}
use rein.Meter.Loader.{
  ConfigFile, LoadError, Result, ok, err, bad_model, bad_entry, merge_table, merge, negative_price,
  load_decoded, load_config_file, try_reload,
}

Result-cases {ℓ} :
    {A : Type ℓ} (r : Result A) → ((a : A) × (r ≡ ok a)) ⊎ ((e : LoadError) × (r ≡ err e))
Result-cases (ok a) = inl (a, refl)
Result-cases (err e) = inr (e, refl)

module _ {F : Type 0} ⦃fl : Float F⦄ where
  -- No price of the table is negative.
  abbrev pub NonNegativeTable : Dict (ModelPrice F) → Type 0
  NonNegativeTable = All (λ e. negative_price e.1 ≡ false)

  abbrev pub NonNegative : Pricer F → Type 0
  NonNegative = All (λ e. NonNegativeTable e.1)

  bad_model-NonNegativeTable : (t : Dict (ModelPrice F)) → bad_model t ≡ none → NonNegativeTable t
  unfolding bad_model
  bad_model-NonNegativeTable [] h = tt
  bad_model-NonNegativeTable ((m, p) ∷ t) h = elim (Bool-cases (negative_price p)) [
    | inl bad ↦ absurd (ground arith)
    | inr fine ↦ (fine, bad_model-NonNegativeTable t (ground arith))
  ]

  bad_entry-NonNegative : (p : Pricer F) → bad_entry p ≡ none → NonNegative p
  unfolding bad_entry
  bad_entry-NonNegative [] h = tt
  bad_entry-NonNegative ((u, t) ∷ p) h = elim (Option-cases (bad_model t)) [
    | inr (m, bad) ↦ absurd (ground arith)
    | inl fine ↦ (bad_model-NonNegativeTable t fine, bad_entry-NonNegative p (ground arith))
  ]

  merge_table-NonNegativeTable :
      (merged t : Dict (ModelPrice F))
      → NonNegativeTable merged
      → NonNegativeTable t
      → NonNegativeTable (merge_table merged t)
  unfolding merge_table
  merge_table-NonNegativeTable merged [] n a = n
  merge_table-NonNegativeTable merged ((m, p) ∷ t) n a =
      merge_table-NonNegativeTable (insert m p merged) t
        (All-insert (λ q. negative_price q ≡ false) m p merged a.0 n) a.1

  lookup-NonNegative :
      (p : Pricer F) (u : Text) → NonNegative p → NonNegativeTable (get_or (lookup u p) [])
  unfolding lookup
  lookup-NonNegative [] u n = tt
  lookup-NonNegative ((v, t) ∷ p) u n = elim (Bool-cases (text_eq v u)) [
    | inl same ↦ rw same n.0
    | inr other ↦ rw other (lookup-NonNegative p u n.1)
  ]

  merge-NonNegative :
      (merged file : Pricer F)
      → NonNegative merged
      → NonNegative file
      → NonNegative (merge merged file)
  unfolding merge
  merge-NonNegative merged [] n a = n
  merge-NonNegative merged ((u, t) ∷ p) n a =
      merge-NonNegative (insert u (merge_table (get_or (lookup u merged) []) t) merged) p
        (All-insert NonNegativeTable u _ merged
          (merge_table-NonNegativeTable _ t (lookup-NonNegative merged u n) a.0) n)
        a.1

  -- What the requests read: a table, none of whose prices is negative.
  pub record Serves (holder : Option (Pricer F)) : Type 0 where
    pub table : Pricer F
    pub is_table : holder ≡ some table
    pub non_negative : NonNegative table

  load_decoded-NonNegative :
      (raw : Option Text) (decode : Text → Option (ConfigFile F)) (base merged : Pricer F)
      → NonNegative base
      → load_decoded raw decode base ≡ ok merged
      → NonNegative merged
  unfolding load_decoded
  load_decoded-NonNegative none decode base merged n e = cc
  load_decoded-NonNegative (some raw) decode base merged n e = elim (Option-cases (decode raw)) [
    | inl garbled ↦ absurd (ground arith)
    | inr (file, decoded) ↦ elim (Option-cases (bad_entry file.models)) [
      | inr (entry, bad) ↦ absurd (ground arith)
      | inl fine ↦
          let same : merge base file.models ≡ merged = ground arith in
          rw same at (merge-NonNegative base file.models n (bad_entry-NonNegative file.models fine))
    ]
  ]

  load_config_file-Serves :
      (read : Text → Option Text) (decode : Text → Option (ConfigFile F)) (path : Text)
      (base next : Option (Pricer F))
      → Serves base
      → load_config_file read decode path base ≡ ok next
      → Serves next
  unfolding load_config_file
  load_config_file-Serves read decode path base next b e =
      elim (Bool-cases (text_eq (trim_space path) [])) [
        | inl blank ↦ let same : base ≡ next = ground arith in rw same at b
        | inr given ↦ elim (Result-cases (load_decoded (read path) decode b.table)) [
          | inr (why, failed) ↦ absurd (ground (arith, b.is_table))
          | inl (merged, loaded) ↦ record {
            table = merged;
            is_table = ground (arith, b.is_table);
            non_negative =
                load_decoded-NonNegative (read path) decode b.table merged b.non_negative loaded;
          }
        ]
      ]

  try_reload-Serves :
      (read : Text → Option Text) (decode : Text → Option (ConfigFile F)) (path : Text)
      (base holder : Option (Pricer F))
      → Serves base
      → Serves holder
      → Serves (try_reload read decode path base holder).0
  unfolding try_reload
  try_reload-Serves read decode path base holder b h =
      elim (Result-cases (load_config_file read decode path base)) [
        | inr (why, failed) ↦ rw (failed, try_reload) h
        | inl (next, loaded) ↦
            rw (loaded, try_reload) (load_config_file-Serves read decode path base next b loaded)
      ]

  -- The holder after reloads at which the file reads as given, one after another.
  unfoldable pub reload_all :
      (Text → Option (ConfigFile F))
      → Text
      → Option (Pricer F)
      → Option (Pricer F)
      → List (Text → Option Text)
      → Option (Pricer F)
  reload_all decode path base holder [] = holder
  reload_all decode path base holder (read ∷ reads) =
      reload_all decode path base (try_reload read decode path base holder).0 reads

  -- Whatever the file holds at each reload, or if it cannot be read or decoded, the holder goes on to
  -- hold a table, and none of its prices is negative, if that is so of the embedded table and of the
  -- table at the start.
  pub reload_all-Serves :
      (decode : Text → Option (ConfigFile F)) (path : Text) (base holder : Option (Pricer F))
      (reads : List (Text → Option Text))
      → Serves base
      → Serves holder
      → Serves (reload_all decode path base holder reads)
  unfolding reload_all
  reload_all-Serves decode path base holder [] b h = h
  reload_all-Serves decode path base holder (read ∷ reads) b h =
      reload_all-Serves decode path base (try_reload read decode path base holder).0 reads b
        (try_reload-Serves read decode path base holder b h)
