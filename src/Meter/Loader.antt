-- ===== src/Meter/Loader.antt =====
-- internal/meter/loader.go, holder.go and poll.go: the operator's price file, merged over the embedded
-- table, and its reload into the holder that the requests read.
pub mod Merge
pub mod Reload
use rein.Base.{
  ℕ, ◌≡◌, Bool, true, false, ◌&&◌, ◌||◌, ◌==◌, List, [], ◌∷◌, Option, none, some, if◌then◌else◌,
  get_or, Text, bytes, text_eq, Dict, lookup, insert, trim_space,
}
use rein.Base.Float.{Float}
use rein.Meter.Pricing.{ModelPrice, Pricer}

-- The decoded file.
pub record ConfigFile (F : Type 0) : Type 0 where
  pub version : Text
  pub models : Pricer F

abbrev pub config_schema_version : Text
config_schema_version = bytes "1"

-- Why `LoadConfigFile` fails.
pub data LoadError : Type 0 where
  base_required read_failed parse_failed : LoadError
  unknown_version : Text → LoadError
  invalid_entry : Text → Text → LoadError

pub data Result {ℓ} (A : Type ℓ) : Type ℓ where
  ok : A → Result A
  err : LoadError → Result A

unfoldable pub is_unknown_config_version : LoadError → Bool
is_unknown_config_version (unknown_version _) = true
is_unknown_config_version _ = false

module _ {F : Type 0} ⦃fl : Float F⦄ where
  open fl use {zero_usd, less}

  abbrev pub negative_price : ModelPrice F → Bool
  negative_price p = less p.input_per_mtoken zero_usd || less p.output_per_mtoken zero_usd

  -- The first entry of a table with a negative price. A Go map is walked in no fixed order; the
  -- model takes that of its list.
  unfoldable pub bad_model : Dict (ModelPrice F) → Option Text
  bad_model [] = none
  bad_model ((model, price) ∷ t) = if negative_price price then some model else bad_model t

  unfoldable pub bad_entry : Pricer F → Option (Text × Text)
  unfolding bad_model
  bad_entry [] = none
  bad_entry ((upstream, table) ∷ p) = elim (bad_model table) [
    | some model ↦ some (upstream, model)
    | none ↦ bad_entry p
  ]

  -- The inner loop of the merge: the entries of one upstream, over those that are there.
  unfoldable pub merge_table : Dict (ModelPrice F) → Dict (ModelPrice F) → Dict (ModelPrice F)
  merge_table merged [] = merged
  merge_table merged ((model, price) ∷ t) = merge_table (insert model price merged) t

  -- The outer loop; an upstream that is not there yet starts empty.
  unfoldable pub merge : Pricer F → Pricer F → Pricer F
  unfolding merge_table
  merge merged [] = merged
  merge merged ((upstream, table) ∷ p) =
      merge (insert upstream (merge_table (get_or (lookup upstream merged) []) table) merged) p

  -- LoadConfigFile behind the read and the decoding of the file, `none` where one of them failed.
  -- The base table is not nil where the program calls it.
  unfoldable pub load_decoded :
      Option Text → (Text → Option (ConfigFile F)) → Pricer F → Result (Pricer F)
  unfolding bad_entry merge
  load_decoded none decode base = err read_failed
  load_decoded (some raw) decode base = elim (decode raw) [
    | none ↦ err parse_failed
    | some file ↦
        let version = if text_eq file.version [] then config_schema_version else file.version in
        if text_eq version config_schema_version
        then (elim (bad_entry file.models) [
          | some (upstream, model) ↦ err (invalid_entry upstream model)
          | none ↦ ok (merge base file.models)
        ])
        else err (unknown_version version)
  ]

  -- `read` is os.ReadFile and `decode` json.Unmarshal.
  unfoldable pub load_config_file :
      (Text → Option Text)
      → (Text → Option (ConfigFile F))
      → Text
      → Option (Pricer F)
      → Result (Option (Pricer F))
  unfolding load_decoded
  load_config_file read decode path base =
      if text_eq (trim_space path) [] then ok base else (elim base [
        | none ↦ err base_required
        | some table ↦ elim (load_decoded (read path) decode table) [
          | ok merged ↦ ok (some merged)
          | err e ↦ err e
        ]
      ])

  -- The holder is the current table; TryReload swaps it on success and returns whether it did.
  unfoldable pub try_reload :
      (Text → Option Text)
      → (Text → Option (ConfigFile F))
      → Text
      → Option (Pricer F)
      → Option (Pricer F)
      → Option (Pricer F) × Bool
  try_reload read decode path base holder = elim (load_config_file read decode path base) [
    | err e ↦ (holder, false)
    | ok next ↦ (next, true)
  ]

-- What one tick of PollLoop sees: the error of os.Stat, or the file's modification time.
pub data Stat : Type 0 where
  stat_failed : Stat
  mod_time : ℕ → Stat

-- One tick: whether to reload, and the modification time to remember. The time is `none` while the
-- file has not been seen, which is Go's zero time.
unfoldable pub poll_tick : Option ℕ → Stat → Option ℕ × Bool
poll_tick seen stat_failed = (seen, false)
poll_tick none (mod_time t) = (some t, true)
poll_tick (some s) (mod_time t) = if t == s then (some s, false) else (some t, true)
