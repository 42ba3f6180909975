-- ===== src/Config/Tests.antt =====
-- A configuration with an admin token and a grace of five seconds.
use rein.Base.{◌≡◌, refl, Bool, [], Option, none, some, if◌then◌else◌, ℤ, Text, bytes, text_eq}
use rein.Base.Try.{done}
use rein.Config.{Config, seconds, config_of, duration, poll_interval, sweep_interval, grace, load}
use rein.Config.Loaded.{IsLoaded, load-IsLoaded}

abbrev env : Text → Text
env key =
    if text_eq key (bytes "REIN_ADMIN_TOKEN")
    then bytes "secret"
    else if text_eq key (bytes "REIN_SHUTDOWN_GRACE")
    then bytes "5s"
    else []

abbrev stat : Text → Option Bool
stat path = none

abbrev parse_duration : Text → Option ℤ
parse_duration t = if text_eq t (bytes "5s") then some (seconds 5) else none

abbrev loaded_config : Config
loaded_config = config_of env stat parse_duration (seconds 0) (seconds 60) (seconds 5)

loads : load env stat parse_duration ≡ done loaded_config
unfolding load poll_interval sweep_interval grace duration text_eq bytes
loads = refl

load-IsLoaded_example : IsLoaded env stat parse_duration loaded_config
load-IsLoaded_example = load-IsLoaded env stat parse_duration loaded_config loads
