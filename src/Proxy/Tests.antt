-- ===== src/Proxy/Tests.antt =====
-- The handler on one request of one key, in all of its states.
use rein.Base.{
  ℕ, ◌≡◌, ◌≢◌, refl, true, false, ◌++◌, List, [], ◌∷◌, none, some, pos, bytes, Text, text_eq,
  lookup, insert, has_prefix, cut_prefix,
}
use rein.Samples.{
  cents, sample_key, sample_token, sample_date, sample_date-IsDate, made, ended, ended_key,
  ended_key_found, ended_is_revoked,
}
use rein.Concurrency.{in_flight, acquire, try_slot, add, load_or_create}
use rein.Keys.{
  VirtualKey, Result, ok, new_memory, get_by_token, is_revoked, is_expired, is_rein_token,
  upstream_openai,
}
use rein.Keys.Calls.{run}
use rein.Meter.{check, reached}
use rein.Meter.Ledger.{Entry, record_all, total, same_day}
use rein.Proxy.{
  Proxy, Request, forwarded, serve_http, expected_upstream_for_path, check_draining,
  check_kill_switch, resolve_key, check_key, check_budget, check_rates, acquire_slot, limit,
  admit_key, admit, bearer,
}
use rein.Proxy.Admission.{IsOpen, Allowed, serve_http-forwarded}
use rein.Proxy.Slots.{IsBalanced, serve_http-IsBalanced}
use rein.Rates
use rein.Rates.Window.{estimate_count}
use rein.Meter.{spend}
use rein.Proxy.Barred.{revoked_never-forwarded, spent_never-forwarded, expired-as_revoked}

abbrev known : Text → Result (VirtualKey ℕ)
known t = ok sample_key

abbrev revoked_one : Text → Result (VirtualKey ℕ)
revoked_one t = ok ended_key

abbrev proxy : Proxy ℕ
proxy = record {
  store = some known;
  kill_switch = some (some false);
  meter = none;
  rates = none;
  concurrency = some [];
  draining = false;
}

abbrev request : Request
request = record {
  path = bytes "/v1/chat/completions";
  authorization = bearer ++ sample_token;
  expiry_now = 50;
  rates_now = 50;
}

passes : (serve_http ⦃fl = cents⦄ proxy request).1 ≡ forwarded upstream_openai (some sample_key)
unfolding serve_http expected_upstream_for_path check_draining check_kill_switch resolve_key
    check_key check_budget check_rates acquire_slot limit admit_key admit bytes has_prefix
    cut_prefix text_eq is_rein_token is_revoked is_expired acquire try_slot add load_or_create
    lookup insert
passes = refl

-- The same with a meter that has nothing of the key yet, and a fresh limiter.
abbrev guarded : Proxy ℕ
guarded = record proxy { meter = some (check ⦃fl = cents⦄ [] sample_date); rates = some [] }

guarded_passes :
    (serve_http ⦃fl = cents⦄ guarded request).1 ≡ forwarded upstream_openai (some sample_key)
unfolding serve_http expected_upstream_for_path check_draining check_kill_switch resolve_key
    check_key check_budget check_rates acquire_slot limit admit_key admit bytes has_prefix
    cut_prefix text_eq is_rein_token is_revoked is_expired acquire try_slot add load_or_create
    lookup insert check Rates.allow Rates.allow_key Rates.check_window Rates.settle Rates.bump
    estimate_count spend
guarded_passes = refl

serve_http-forwarded_example :
    IsOpen guarded request upstream_openai
    × Allowed ⦃fl = cents⦄ guarded request upstream_openai (some sample_key)
serve_http-forwarded_example =
    serve_http-forwarded ⦃fl = cents⦄ guarded request upstream_openai (some sample_key)
      guarded_passes

no_counts : (j : Text) → in_flight [] j ≡ pos 0
unfolding in_flight lookup
no_counts j = refl

serve_http-IsBalanced_example : IsBalanced (λ j. 0) (serve_http ⦃fl = cents⦄ proxy request)
serve_http-IsBalanced_example =
    serve_http-IsBalanced ⦃fl = cents⦄ (λ j. 0) proxy request [] refl no_counts

abbrev after_end : Proxy ℕ
after_end = record proxy { store = some (get_by_token (run (run new_memory ended) made)) }

revoked_never-forwarded_example :
    (serve_http ⦃fl = cents⦄ after_end request).1 ≢ forwarded upstream_openai none
revoked_never-forwarded_example =
    revoked_never-forwarded ⦃fl = cents⦄ after_end request ended made sample_token ended_key
      upstream_openai none ended_key_found ended_is_revoked refl refl

abbrev ledger : List (Entry ℕ)
ledger = record { date = sample_date; key_id = bytes "key_0"; cost = 600 } ∷ []

abbrev metered : Proxy ℕ
metered = record proxy {
  meter = some (check ⦃fl = cents⦄ (record_all ⦃fl = cents⦄ [] ledger) sample_date);
}

ledger-reached :
    reached ⦃fl = cents⦄ 500
      (total ⦃fl = cents⦄ (λ d. same_day d sample_date) (bytes "key_0") 0 ledger)
    ≡ true
unfolding total bytes text_eq
ledger-reached = refl

spent_never-forwarded_example :
    (serve_http ⦃fl = cents⦄ metered request).1 ≢ forwarded upstream_openai (some sample_key)
spent_never-forwarded_example =
    spent_never-forwarded ⦃fl = cents⦄ metered request ledger sample_date sample_key upstream_openai
      (sample_date-IsDate, tt) sample_date-IsDate refl ledger-reached

abbrev late_request : Request
late_request = record request { expiry_now = 200 }

sample_key_expired : is_expired sample_key 200 ≡ true
unfolding is_expired
sample_key_expired = refl

expired-as_revoked_example :
    (serve_http ⦃fl = cents⦄ (record proxy { store = some known }) late_request).1
    ≡ (serve_http ⦃fl = cents⦄ (record proxy { store = some revoked_one }) late_request).1
expired-as_revoked_example =
    expired-as_revoked ⦃fl = cents⦄ proxy late_request sample_token known revoked_one sample_key
      ended_key refl refl refl sample_key_expired ended_is_revoked
