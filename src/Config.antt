-- ===== src/Config.antt =====
-- internal/config/config.go: `Load`. The environment gives the empty text for a variable that is not
-- set; os.Stat and time.ParseDuration are parameters. Durations are nanoseconds.
pub mod Loaded
mod Tests
use rein.Base.{
  ℕ, ◌*◌, ◌≡◌, Bool, true, false, not, ◌||◌, [], Option, none, some, if◌then◌else◌, ℤ, pos, ltb_ℤ,
  Text, bytes, text_eq,
}
use rein.Base.Try.{Try, done, failed, ◌>>=◌, ◌>>◌}

abbrev pub seconds : ℕ → ℤ
seconds n = pos (n * 1_000_000_000)

abbrev pub config_poll_interval_min : ℤ
config_poll_interval_min = seconds 1

abbrev pub config_poll_interval_max : ℤ
config_poll_interval_max = seconds 3600

abbrev pub expiry_sweep_interval_min : ℤ
expiry_sweep_interval_min = seconds 10

abbrev pub expiry_sweep_interval_max : ℤ
expiry_sweep_interval_max = seconds 3600

abbrev pub expiry_sweep_interval_default : ℤ
expiry_sweep_interval_default = seconds 60

abbrev pub shutdown_grace_min : ℤ
shutdown_grace_min = seconds 1

abbrev pub shutdown_grace_max : ℤ
shutdown_grace_max = seconds 300

abbrev pub shutdown_grace_default : ℤ
shutdown_grace_default = seconds 30

abbrev pub default_config_file_path : Text
default_config_file_path = bytes "/etc/rein/rein.json"

pub data ConfigSource : Type 0 where
  env_var default_path embedded_only : ConfigSource

pub data ConfigError : Type 0 where
  no_admin_token : ConfigError
  bad_duration out_of_range : Text → ConfigError

pub record Config : Type 0 where
  pub port : Text
  pub admin_token : Text
  pub database_url : Text
  pub encryption_key : Text
  pub openai_base : Text
  pub anthropic_base : Text
  pub config_file : Text
  pub config_file_source : ConfigSource
  pub config_poll_interval : ℤ
  pub expiry_sweep_interval : ℤ
  pub shutdown_grace : ℤ

-- The file that os.Stat finds: whether it is a directory, or `none` for an error.
abbrev pub default_config_file_exists : Option Bool → Bool
default_config_file_exists none = false
default_config_file_exists (some is_dir) = not is_dir

module _ (env : Text → Text) (stat : Text → Option Bool) (parse_duration : Text → Option ℤ) where
  unfoldable pub getenv : Text → Text → Text
  getenv key def = if text_eq (env key) [] then def else env key

  abbrev pub in_range : Text → ℤ → ℤ → Option ℤ → Try ConfigError ℤ
  in_range key lo hi none = failed (bad_duration key)
  in_range key lo hi (some d) =
      if ltb_ℤ d lo || ltb_ℤ hi d then failed (out_of_range key) else done d

  -- One of the three durations: its default, or what the variable says, if it is in range.
  unfoldable pub duration : Text → ℤ → ℤ → ℤ → Try ConfigError ℤ
  duration key def lo hi =
      if text_eq (env key) [] then done def else in_range key lo hi (parse_duration (env key))

  -- The file and where it comes from.
  unfoldable pub config_file_of : Text × ConfigSource
  config_file_of =
      if not (text_eq (env (bytes "REIN_CONFIG_FILE")) [])
      then (env (bytes "REIN_CONFIG_FILE"), env_var)
      else if default_config_file_exists (stat default_config_file_path)
      then (default_config_file_path, default_path)
      else (env (bytes "REIN_CONFIG_FILE"), embedded_only)

  unfoldable pub poll_interval : Try ConfigError ℤ
  poll_interval =
      duration (bytes "REIN_CONFIG_POLL_INTERVAL") (pos 0) config_poll_interval_min
        config_poll_interval_max

  unfoldable pub sweep_interval : Try ConfigError ℤ
  sweep_interval =
      duration (bytes "REIN_EXPIRY_SWEEP_INTERVAL") expiry_sweep_interval_default
        expiry_sweep_interval_min expiry_sweep_interval_max

  unfoldable pub grace : Try ConfigError ℤ
  grace =
      duration (bytes "REIN_SHUTDOWN_GRACE") shutdown_grace_default shutdown_grace_min
        shutdown_grace_max

  abbrev pub config_of : ℤ → ℤ → ℤ → Config
  config_of poll sweep drain = record {
    port = getenv (bytes "REIN_PORT") (bytes "8080");
    admin_token = env (bytes "REIN_ADMIN_TOKEN");
    database_url = getenv (bytes "REIN_DB_URL") (bytes "sqlite:./rein.db");
    encryption_key = env (bytes "REIN_ENCRYPTION_KEY");
    openai_base = getenv (bytes "REIN_OPENAI_BASE") (bytes "https://api.openai.com");
    anthropic_base = getenv (bytes "REIN_ANTHROPIC_BASE") (bytes "https://api.anthropic.com");
    config_file = config_file_of.0;
    config_file_source = config_file_of.1;
    config_poll_interval = poll;
    expiry_sweep_interval = sweep;
    shutdown_grace = drain;
  }

  -- Load
  unfoldable pub load : Try ConfigError Config
  load = if text_eq (env (bytes "REIN_ADMIN_TOKEN")) [] then failed no_admin_token else do
    poll ← poll_interval
    sweep ← sweep_interval
    drain ← grace
    done (config_of poll sweep drain)
