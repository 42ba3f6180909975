-- ===== src/Keys/Tests.antt =====
-- The key store on a store with one key.
use rein.Base.{
  ℕ, ◌≡◌, refl, true, [], ◌∷◌, none, some, bytes, text_eq, lookup, insert, not, ◌&&◌, if◌then◌else◌,
}
use rein.Samples.{
  sample_key, sample_token, made, ended, ended_key, ended_key_found, ended_is_revoked,
}
use rein.Keys.{
  VirtualKey, KeyPatch, ok, is_expired, new_memory, invalid_key, store_key, create_valid, create,
  read, get_by_token, is_revoked,
}
use rein.Keys.Permanence.{run-is_revoked}
use rein.Keys.Calls.{updates, step, run}
use rein.Keys.Sweep.{sweep_once}
use rein.Keys.Sweep.Effect.{get_by_token-sweep_once}

abbrev rename : KeyPatch ℕ
rename = record {
  name = some (bytes "renamed");
  daily_budget_usd = none;
  month_budget_usd = none;
  rps_limit = none;
  rpm_limit = none;
  max_concurrent = none;
  upstream_base_url = none;
  upstream_timeout_seconds = none;
  expires_at = none;
  clear_expires_at = true;
}

made_key : get_by_token (run new_memory made) sample_token ≡ ok sample_key
unfolding run step create invalid_key create_valid store_key get_by_token read lookup insert text_eq
    bytes
made_key = refl

run-is_revoked_example :
    (k' : VirtualKey ℕ) × (get_by_token
        (run (run new_memory ended) (updates (bytes "key_0") rename ∷ []))
        sample_token
      ≡ ok k')
    × (is_revoked k' ≡ true)
    × (k'.id ≡ bytes "key_0")
run-is_revoked_example =
    run-is_revoked ended (updates (bytes "key_0") rename ∷ []) sample_token ended_key
      ended_key_found ended_is_revoked

get_by_token-sweep_once_example :
    get_by_token (sweep_once (run new_memory made) 100) sample_token
    ≡ ok (
        if not (is_revoked sample_key) && is_expired sample_key 100
        then record sample_key { revoked_at = some 100 }
        else sample_key)
get_by_token-sweep_once_example = get_by_token-sweep_once made sample_token 100 sample_key made_key
