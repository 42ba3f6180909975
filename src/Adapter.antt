-- ===== src/Adapter.antt =====
-- internal/proxy: what the two adapters, openai.go and anthropic.go, do with the usage of a response
-- that is not a stream, and unknown_model_logger.go. Both adapters bill by the same steps; they differ
-- in the upstream's name and in the test for a payload without usage. Log lines are no part of the
-- model, but for whether the unknown model logger emits one.
pub mod Billing
pub mod Prices
pub mod Usage
pub mod Bills
pub mod Quiet
pub mod Failed
pub mod Forward
mod Tests
use rein.Base.{
  ℕ, ◌+◌, Bool, true, false, not, ◌&&◌, ◌||◌, leb, ltb, List, [], ◌∷◌, Option, none, some,
  if◌then◌else◌, get_or, is_some, ℤ, pos, negsuc, Text, bytes, text_eq, has_prefix, Dict, lookup,
  insert,
}
use rein.Base.Float.{Float}
use rein.Keys.{upstream_openai, upstream_anthropic}
use rein.Meter.Period.{Date}
use rein.Meter.Pricing.{Pricer, cost}

pub record UnknownModelState : Type 0 where
  pub first_seen : ℕ
  pub last_logged : ℕ

-- The map from a key id and a model, in two levels.
pub record UnknownModelLogger : Type 0 where
  pub seen : Dict (Dict UnknownModelState)
  pub burst_window : ℕ
  pub steady_interval : ℕ

abbrev pub new_unknown_model_logger : UnknownModelLogger
new_unknown_model_logger = record {
  seen = [];
  burst_window = 60_000_000_000;
  steady_interval = 60_000_000_000;
}

-- The decision for one key and model: the state to keep, and whether to log.
unfoldable pub should_log_state : ℕ → ℕ → ℕ → Option UnknownModelState → UnknownModelState × Bool
should_log_state burst steady now none = (record { first_seen = now; last_logged = now }, true)
should_log_state burst steady now (some st) =
    if leb now (st.first_seen + burst)
    then (record st { last_logged = now }, true)
    else if leb (st.last_logged + steady) now
    then (record st { last_logged = now }, true)
    else (st, false)

abbrev pub states_of : UnknownModelLogger → Text → Dict UnknownModelState
states_of l key_id = get_or (lookup key_id l.seen) []

unfoldable pub should_log : UnknownModelLogger → ℕ → Text → Text → UnknownModelLogger × Bool
should_log l now key_id model =
    let (st, emit) =
      should_log_state l.burst_window l.steady_interval now (lookup model (states_of l key_id)) in
    (record l { seen = insert key_id (insert model st (states_of l key_id)) l.seen }, emit)

-- `Record` of a meter whose state is S: what the meter holds after the call on a date, and whether
-- there was no error.
abbrev pub Recorder : Type 0 → Type 0 → Type 0
Recorder F S = S → Date → Text → F → S × Bool

-- Of an adapter, what billing changes: the meter, which both adapters share, and its own log.
pub record Adapter (S : Type 0) : Type 0 where
  pub meter : Option S
  pub unknown_model_log : UnknownModelLogger

-- When a response is billed: the date and the instant that the clock gives.
pub record Moment : Type 0 where
  pub date : Date
  pub instant : ℕ

module _ {F S : Type 0} ⦃fl : Float F⦄ where
  -- recordSpend. An error of `Record` is a log line and nothing else. `holder` is what the holder
  -- loads, if there is one.
  unfoldable pub record_spend :
      Text
      → Recorder F S
      → Option (Option (Pricer F))
      → Adapter S
      → Moment
      → Text
      → Text
      → ℤ
      → ℤ
      → Adapter S
  record_spend upstream recorder holder a now key_id model input output = elim a.meter [
    | none ↦ a
    | some m ↦ elim holder [
      | none ↦ a
      | some loaded ↦ elim loaded [
        | none ↦ a
        | some pricer ↦ elim (cost pricer upstream model input output) [
          | none ↦ record a {
            unknown_model_log = (should_log a.unknown_model_log now.instant key_id model).0;
          }
          | some usd ↦ record a { meter = some (recorder m now.date key_id usd).0 }
        ]
      ]
    ]
  ]

-- The usage of a decoded payload: the model, the input and output tokens, and OpenAI's total.
pub record Payload : Type 0 where
  pub model : Text
  pub input : ℤ
  pub output : ℤ
  pub total : ℤ

pub record UpstreamResponse : Type 0 where
  pub content_type : Text
  pub status : ℕ
  -- The body, if it can be read to its end.
  pub body : Option Text
  -- The id of the virtual key on the context of the request.
  pub key_id : Option Text

-- What becomes of the response: its body is wrapped for a stream, is passed on, or is an error.
pub data Handled : Type 0 where
  streamed passed failed : Handled

abbrev pub is_zero : ℤ → Bool
is_zero (pos n) = not (ltb 0 n)
is_zero (negsuc n) = false

-- The payloads that the two adapters take to have no usage.
unfoldable pub no_usage_openai : Payload → Bool
no_usage_openai q = is_zero q.total

unfoldable pub no_usage_anthropic : Payload → Bool
no_usage_anthropic q = is_zero q.input && is_zero q.output

module _ {F S : Type 0} ⦃fl : Float F⦄ where
  -- modifyResponse, with the upstream, the test and the decoder of the adapter. Of a stream, the body
  -- is wrapped by wrapStream, but not where there is no meter, price table or key.
  unfoldable pub modify_response :
      Text
      → (Payload → Bool)
      → (Text → Option Payload)
      → Recorder F S
      → Option (Option (Pricer F))
      → Adapter S
      → Moment
      → UpstreamResponse
      → Adapter S × Handled
  modify_response upstream no_usage decode recorder holder a now resp =
      if has_prefix resp.content_type (bytes "text/event-stream")
      then (
        a,
        if is_some a.meter && is_some holder && is_some resp.key_id then streamed else passed,
      )
      else if not (has_prefix resp.content_type (bytes "application/json"))
      then (a, passed)
      else elim resp.body [
        | none ↦ (a, failed)
        | some body ↦ if leb 400 resp.status then (a, passed) else elim (decode body) [
          | none ↦ (a, passed)
          | some q ↦ if no_usage q then (a, passed) else elim resp.key_id [
            | none ↦ (a, passed)
            | some id ↦
                (record_spend upstream recorder holder a now id q.model q.input q.output, passed)
          ]
        ]
      ]

  abbrev pub openai_response :
      (Text → Option Payload)
      → Recorder F S
      → Option (Option (Pricer F))
      → Adapter S
      → Moment
      → UpstreamResponse
      → Adapter S × Handled
  openai_response = modify_response upstream_openai no_usage_openai

  abbrev pub anthropic_response :
      (Text → Option Payload)
      → Recorder F S
      → Option (Option (Pricer F))
      → Adapter S
      → Moment
      → UpstreamResponse
      → Adapter S × Handled
  anthropic_response = modify_response upstream_anthropic no_usage_anthropic
