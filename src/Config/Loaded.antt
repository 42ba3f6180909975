-- ===== src/Config/Loaded.antt =====
-- What a configuration that loads is known to be.
use rein.Base.{
  ◌≡◌, refl, ◌∙◌, ap, Bool, true, false, [], Option, some, ℤ, pos, ltb_ℤ, Text, bytes, text_eq, inl,
  inr, arith, Bool-cases, Option-cases,
}
use mathlib.Core.Path.{subst}
use rein.Base.Try.{done, >>=-eq-done, done_inj}
use rein.Config.{
  ConfigSource, env_var, default_path, embedded_only, Config, default_config_file_path, duration,
  config_file_of, load, poll_interval, sweep_interval, grace, config_of, config_poll_interval_min,
  config_poll_interval_max, expiry_sweep_interval_min, expiry_sweep_interval_max,
  expiry_sweep_interval_default, shutdown_grace_min, shutdown_grace_max, shutdown_grace_default,
}

abbrev pub Within : ℤ → ℤ → ℤ → Type 0
Within lo hi d = (ltb_ℤ d lo ≡ false) × (ltb_ℤ hi d ≡ false)

module _ (env : Text → Text) (stat : Text → Option Bool) (parse_duration : Text → Option ℤ) where
  -- The value of a duration: the default where the variable is not set, and otherwise what the
  -- variable says, which is in the range.
  pub data IsGiven (key : Text) (def lo hi : ℤ) : ℤ → Type 0 where
    by_default : text_eq (env key) [] ≡ true → IsGiven key def lo hi def
    by_variable :
        (d : ℤ)
        → text_eq (env key) [] ≡ false
        → parse_duration (env key) ≡ some d
        → Within lo hi d
        → IsGiven key def lo hi d

  duration-IsGiven :
      (key : Text) (def lo hi d : ℤ)
      → duration env stat parse_duration key def lo hi ≡ done d
      → IsGiven key def lo hi d
  unfolding duration
  duration-IsGiven key def lo hi d e = elim (Bool-cases (text_eq (env key) [])) [
    | inl absent ↦ subst (IsGiven key def lo hi) (done_inj (rw absent at e)) (by_default absent)
    | inr set_ ↦ elim (Option-cases (parse_duration (env key))) [
      | inl bad ↦ absurd (ground arith)
      | inr (x, read) ↦
          let same : x ≡ d = ground arith in
          by_variable d set_ (read ∙ ap some same) (ground arith, ground arith)
    ]
  ]

  -- The file is named exactly if the label says so, and the default path only where it has a file.
  abbrev pub IsSourced : Text → ConfigSource → Type 0
  IsSourced file env_var = (file ≡ env (bytes "REIN_CONFIG_FILE")) × (text_eq file [] ≡ false)
  IsSourced file default_path =
      (file ≡ default_config_file_path)
      × (text_eq (env (bytes "REIN_CONFIG_FILE")) [] ≡ true)
      × (stat default_config_file_path ≡ some false)
  IsSourced file embedded_only = text_eq file [] ≡ true

  config_file_of-IsSourced :
      IsSourced
        (config_file_of env stat parse_duration).0
        (config_file_of env stat parse_duration).1
  unfolding config_file_of
  config_file_of-IsSourced = elim (Bool-cases (text_eq (env (bytes "REIN_CONFIG_FILE")) [])) [
    | inr set_ ↦ rw set_ (refl, set_)
    | inl unset ↦ elim (Option-cases (stat default_config_file_path)) [
      | inl missing ↦ rw (unset, missing) unset
      | inr (is_dir, there) ↦ elim (Bool-cases is_dir) [
        | inl dir ↦ rw (unset, there, dir) unset
        | inr file ↦ rw (unset, there, file) (refl, unset, there ∙ ap some file)
      ]
    ]
  ]

  -- What `load` promises of its result.
  pub record IsLoaded (c : Config) : Type 0 where
    pub token : text_eq c.admin_token [] ≡ false
    pub sweep :
        IsGiven
          (bytes "REIN_EXPIRY_SWEEP_INTERVAL")
          expiry_sweep_interval_default
          expiry_sweep_interval_min
          expiry_sweep_interval_max
          c.expiry_sweep_interval
    pub drain :
        IsGiven
          (bytes "REIN_SHUTDOWN_GRACE")
          shutdown_grace_default
          shutdown_grace_min
          shutdown_grace_max
          c.shutdown_grace
    pub poll :
        IsGiven
          (bytes "REIN_CONFIG_POLL_INTERVAL")
          (pos 0)
          config_poll_interval_min
          config_poll_interval_max
          c.config_poll_interval
    pub source : IsSourced c.config_file c.config_file_source

  loaded :
      (poll sweep drain : ℤ)
      → text_eq (env (bytes "REIN_ADMIN_TOKEN")) [] ≡ false
      → poll_interval env stat parse_duration ≡ done poll
      → sweep_interval env stat parse_duration ≡ done sweep
      → grace env stat parse_duration ≡ done drain
      → IsLoaded (config_of env stat parse_duration poll sweep drain)
  unfolding poll_interval sweep_interval grace
  loaded poll sweep drain token p s g = record {
    token = token;
    sweep = duration-IsGiven _ _ _ _ sweep s;
    drain = duration-IsGiven _ _ _ _ drain g;
    poll = duration-IsGiven _ _ _ _ poll p;
    source = config_file_of-IsSourced;
  }

  -- A configuration that loads has an admin token; each of its three durations is the default where
  -- its variable is not set, which is a minute for the sweep interval, half a minute for the grace and
  -- zero for the poll interval, and otherwise what the variable says, which is between 10 seconds and
  -- an hour, a second and five minutes, a second and an hour; and its file is labelled by where it
  -- comes from.
  pub load-IsLoaded : (c : Config) → load env stat parse_duration ≡ done c → IsLoaded c
  unfolding load
  load-IsLoaded c e = elim (Bool-cases (text_eq (env (bytes "REIN_ADMIN_TOKEN")) [])) [
    | inl missing ↦ absurd (ground arith)
    | inr token ↦
        let (poll, p, e1) = >>=-eq-done (poll_interval env stat parse_duration) _ (rw token at e) in
        let (sweep, s, e2) = >>=-eq-done (sweep_interval env stat parse_duration) _ e1 in
        let (drain, g, e3) = >>=-eq-done (grace env stat parse_duration) _ e2 in
        subst IsLoaded (done_inj e3) (loaded poll sweep drain token p s g)
  ]
