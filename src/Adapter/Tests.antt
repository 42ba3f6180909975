-- ===== src/Adapter/Tests.antt =====
-- The bills of two adapters, a burst of lines, and two requests of a key with its own URL.
use rein.Base.{
  ℕ, ◌≡◌, refl, [], ◌∷◌, ◌||◌, if◌then◌else◌, List, Option, none, some, pos, Text, bytes, insert,
}
use rein.Samples.{cents, sample_date, sample_date-IsDate, sample_key}
use rein.Keys.{VirtualKey}
use rein.Meter
use rein.Meter.{check, reached, budget_exceeded}
use rein.Meter.Ledger.{Entry, total, same_day, same_month}
use rein.Meter.Pricing.{Pricer}
use rein.Adapter.{Adapter, Recorder, new_unknown_model_logger, Payload, UpstreamResponse, Moment}
use rein.Adapter.Usage.{AdapterName, openai_adapter, anthropic_adapter}
use rein.Adapter.Bills.{Arrival, Adapters, memory_record, Billed, respond_all, respond_all-Billed}
use rein.Adapter.Forward.{
  Url, authorization, openai_rewrite, anthropic_rewrite, rewrite-authorization,
}

abbrev parse : Text → Option Url
parse t = some (record { scheme = bytes "https"; host = t; path = [] })

abbrev base : Url
base = record { scheme = bytes "https"; host = bytes "api.openai.com"; path = [] }

abbrev own_url_key : VirtualKey ℕ
own_url_key = record sample_key { upstream_base_url = bytes "example.com" }

rewrite-authorization_example :
    (openai_rewrite parse base []
        (some own_url_key)
        (insert authorization (bytes "Bearer rein_live_0") [])
      ≡ openai_rewrite parse base [] (some own_url_key) [])
    × (anthropic_rewrite base
          (some own_url_key)
          (insert authorization (bytes "Bearer rein_live_0") [])
        ≡ anthropic_rewrite base (some own_url_key) [])
rewrite-authorization_example =
    rewrite-authorization parse base [] own_url_key (some own_url_key) (bytes "Bearer rein_live_0")
      []

abbrev decode : Text → Option Payload
decode t = some (record { model = bytes "gpt-4o"; input = pos 3; output = pos 4; total = pos 7 })

abbrev response : UpstreamResponse
response = record {
  content_type = bytes "application/json";
  status = 200;
  body = some (bytes "{u}");
  key_id = some (bytes "key_0");
}

abbrev moment : Moment
moment = record { date = sample_date; instant = 5 }

-- A dollar is a hundred, and a price is for a million tokens.
abbrev prices : Pricer ℕ
prices =
    (
      bytes "openai",
      (bytes "gpt-4o", record { input_per_mtoken = 250; output_per_mtoken = 1000 }) ∷ [],
    )
    ∷ []

abbrev start : Adapter (Meter.Memory ℕ)
start = record { meter = some []; unknown_model_log = new_unknown_model_logger }

abbrev in_memory : Recorder ℕ (Meter.Memory ℕ)
in_memory = memory_record ⦃fl = cents⦄ (λ n. decode)

-- A million tokens in and out by the first adapter, an unknown upstream's by the second.
abbrev million_tokens : AdapterName → Text → Option Payload
million_tokens n t = some (record {
  model = bytes "gpt-4o";
  input = pos 1_000_000;
  output = pos 2_000_000;
  total = pos 3_000_000;
})

abbrev arrivals : List (Arrival ℕ)
arrivals =
    record { adapter = openai_adapter; table = prices; now = moment; response = response }
    ∷ record { adapter = anthropic_adapter; table = prices; now = moment; response = response }
    ∷ []

abbrev adapters : Adapters (Meter.Memory ℕ)
adapters = record {
  meter = some [];
  openai_log = new_unknown_model_logger;
  anthropic_log = new_unknown_model_logger;
}

respond_all-Billed_example :
    (es : List (Entry ℕ)) × (m : Meter.Memory ℕ) × Billed ⦃fl = cents⦄ million_tokens arrivals es
    × ((respond_all ⦃fl = cents⦄ million_tokens adapters arrivals).meter ≡ some m)
    × (check ⦃fl = cents⦄ m sample_date (bytes "key_0") 500 0 ≡ (
        if reached ⦃fl = cents⦄ 500
            (total ⦃fl = cents⦄ (λ d. same_day d sample_date) (bytes "key_0") 0 es)
          || reached ⦃fl = cents⦄ 0
              (total ⦃fl = cents⦄ (λ d. same_month d sample_date) (bytes "key_0") 0 es)
        then some budget_exceeded
        else none))
respond_all-Billed_example =
    respond_all-Billed ⦃fl = cents⦄ million_tokens arrivals adapters sample_date (bytes "key_0") 500
      0 refl (sample_date-IsDate, (sample_date-IsDate, tt)) sample_date-IsDate
