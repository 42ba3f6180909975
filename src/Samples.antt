-- ===== src/Samples.antt =====
-- Values that the tests share. Amounts are natural numbers of cents, an instance of the interface of
-- float64 whose sums do not round.
use rein.Base.{
  ℕ, ◌≡◌, not, ◌+◌, ◌*◌, ◌/◌, true, ltb, leb, List, [], ◌∷◌, none, some, pos, pos_part, bytes, Text,
  arith, refl, text_eq, lookup, insert,
}
use rein.Base.Float.{Float}
use rein.Keys.{
  VirtualKey, upstream_openai, ok, new_memory, invalid_key, store_key, create_valid, create, read,
  get_by_token, modify, write, revoke, is_revoked,
}
use rein.Keys.Calls.{Call, creates, revokes, step, run}
use rein.Meter.Period.{Date, IsDate}

pub cents-at_most : (a b : ℕ) → leb a b ≡ not (ltb b a)
cents-at_most a b = ground arith

pub cents_trans : (a b c : ℕ) → leb a b ≡ true → leb b c ≡ true → leb a c ≡ true
cents_trans a b c h k = ground arith

pub cents-grow : (a c : ℕ) → ltb 0 c ≡ true → leb a (a + c) ≡ true
cents-grow a c h = ground arith

abbrev pub cents : Float ℕ
cents = record {
  zero_usd = 0;
  million = 1_000_000;
  of_int = pos_part;
  plus = λ a b. a + b;
  times = λ a b. a * b;
  over = λ a b. a / b;
  less = ltb;
  at_most = leb;
  zero-plus = λ a. omega arith;
  at_most-not-less = cents-at_most;
  at_most_trans = cents_trans;
  at_most-plus = cents-grow;
}

abbrev pub sample_token : Text
sample_token = bytes "rein_live_0"

abbrev pub sample_key : VirtualKey ℕ
sample_key = record {
  id = bytes "key_0";
  token = bytes "rein_live_0";
  name = bytes "sample";
  upstream = upstream_openai;
  upstream_key = bytes "sk-0";
  daily_budget_usd = 500;
  month_budget_usd = 0;
  upstream_base_url = [];
  rps_limit = pos 5;
  rpm_limit = pos 0;
  max_concurrent = pos 2;
  upstream_timeout_seconds = pos 0;
  created_at = 1;
  revoked_at = none;
  expires_at = some 100;
}

abbrev pub sample_date : Date
sample_date = record { year = 2026; month = 4; day = 17 }

pub sample_date-IsDate : IsDate sample_date
sample_date-IsDate = record { year_lt = omega arith; month_lt = omega arith; day_lt = omega arith }

-- A store with one key, and the same with the key revoked.
abbrev pub made : List (Call ℕ)
made = creates sample_key ∷ []

abbrev pub ended : List (Call ℕ)
ended = creates sample_key ∷ revokes (bytes "key_0") 7 ∷ []

abbrev pub ended_key : VirtualKey ℕ
ended_key = record sample_key { revoked_at = some 7 }

pub ended_key_found : get_by_token (run new_memory ended) sample_token ≡ ok ended_key
unfolding run step create invalid_key create_valid store_key get_by_token read lookup insert text_eq
    bytes revoke modify write
ended_key_found = refl

pub ended_is_revoked : is_revoked ended_key ≡ true
unfolding is_revoked
ended_is_revoked = refl
