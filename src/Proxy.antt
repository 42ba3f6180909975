-- ===== src/Proxy.antt =====
-- internal/proxy: the handler of /v1/*, from proxy.go, with the codes of errcodes.go and the freeze
-- of internal/killswitch. A collaborator that may be nil is an option; the stores that the handler
-- only reads (keys, spend, freeze) are given by what they answer, so that either implementation fits.
pub mod Admission
pub mod Slots
pub mod Barred
mod Tests
use rein.Base.{
  ℕ, Bool, true, false, not, ◌&&◌, ◌||◌, List, [], ◌∷◌, Option, none, some, if◌then◌else◌, get_or,
  ℤ, positive, Text, bytes, text_eq, has_prefix, cut_prefix,
}
use rein.Base.Float.{Float}
use rein.Rates.{RateError, retry_after_error, rate_limited, other_error, retry_after, allow}
use rein.Rates
use rein.Concurrency.{acquire, release}
use rein.Concurrency
use rein.Meter.{MeterError}
use rein.Keys.{
  VirtualKey, Result, ok, err, upstream_openai, upstream_anthropic, is_rein_token, is_revoked,
  is_expired,
}

pub data Code : Type 0 where
  code_kill_switch_engaged code_draining code_missing_key code_invalid_key code_key_revoked : Code
  code_upstream_mismatch code_budget_exceeded code_rate_limited code_concurrency_exceeded : Code
  code_unknown_route code_upstream_timeout code_internal_error : Code

-- What `api.WriteError` and the Retry-After header make of a refusal.
pub record Response : Type 0 where
  pub status : ℕ
  pub code : Code
  pub retry : Option ℕ

pub record Proxy (F : Type 0) : Type 0 where
  -- GetByToken of the key store.
  pub store : Option (Text → Result (VirtualKey F))
  -- What IsFrozen answers: an error is `none`.
  pub kill_switch : Option (Option Bool)
  -- Check of the meter.
  pub meter : Option (Text → F → F → Option MeterError)
  pub rates : Option Rates.Memory
  pub concurrency : Option Concurrency.Memory
  pub draining : Bool

-- What the handler reads of a request, with the clock at its two readings: for the expiry of the key
-- and in the rate limiter.
pub record Request : Type 0 where
  pub path : Text
  -- The Authorization header, empty if there is none.
  pub authorization : Text
  pub expiry_now : ℕ
  pub rates_now : ℕ

-- The end of the guards: a response, or a call of an adapter with the resolved key.
pub data Outcome (F : Type 0) : Type 0 where
  rejected : Response → Outcome F
  forwarded : Text → Option (VirtualKey F) → Outcome F

unfoldable pub expected_upstream_for_path : Text → Text
expected_upstream_for_path path =
    if has_prefix path (bytes "/v1/chat/")
      || has_prefix path (bytes "/v1/completions")
      || has_prefix path (bytes "/v1/embeddings")
      || has_prefix path (bytes "/v1/models")
      || has_prefix path (bytes "/v1/audio/")
      || has_prefix path (bytes "/v1/images/")
    then upstream_openai
    else if has_prefix path (bytes "/v1/messages")
    then upstream_anthropic
    else []

abbrev pub refuse : ℕ → Code → Option Response
refuse status code = some (record { status = status; code = code; retry = none })

abbrev pub refuse_for : ℕ → Code → ℕ → Option Response
refuse_for status code seconds =
    some (record { status = status; code = code; retry = some seconds })

unfoldable pub check_draining : Bool → Option Response
check_draining draining = if draining then refuse_for 503 code_draining 5 else none

unfoldable pub check_kill_switch : Option (Option Bool) → Option Response
check_kill_switch none = none
check_kill_switch (some none) = refuse 500 code_internal_error
check_kill_switch (some (some frozen)) =
    if frozen then refuse_for 503 code_kill_switch_engaged 60 else none

abbrev pub bearer : Text
bearer = bytes "Bearer "

-- errMissingKey and errInvalidKey.
pub data KeyFault : Type 0 where
  missing_key invalid_key : KeyFault

-- An error of the limiter that is not a refusal lets the request pass.
abbrev pub rate_response : Option RateError → Option Response
rate_response none = none
rate_response (some other_error) = none
rate_response (some (retry_after_error s)) = refuse_for 429 code_rate_limited s
rate_response (some rate_limited) = refuse_for 429 code_rate_limited 1

abbrev pub meter_response : Option MeterError → Option Response
meter_response none = none
meter_response (some MeterError.budget_exceeded) = refuse 402 code_budget_exceeded
meter_response (some MeterError.other_error) = none

-- `some e` as the first part is the error of `resolveKey`.
module _ {F : Type 0} where
  unfoldable pub resolve_key :
      Option (Text → Result (VirtualKey F)) → Text → Option KeyFault × Option (VirtualKey F)
  resolve_key none auth = (none, none)
  resolve_key (some get_by_token) auth =
      if text_eq auth [] then (some missing_key, none) else elim (cut_prefix auth bearer) [
        | none ↦ (some missing_key, none)
        | some token ↦
            if is_rein_token token
            then elim (get_by_token token) [
              | ok k ↦ (none, some k)
              | err e ↦ (some invalid_key, none)
            ]
            else (some invalid_key, none)
      ]

  -- Revocation, expiry and upstream.
  unfoldable pub check_key : VirtualKey F → ℕ → Text → Option Response
  check_key k now want =
      if is_revoked k
      then refuse 401 code_key_revoked
      else if is_expired k now
      then refuse 401 code_key_revoked
      else if text_eq k.upstream want
      then none
      else refuse 400 code_upstream_mismatch

  unfoldable pub check_rates :
      Option Rates.Memory → ℕ → VirtualKey F → Option Rates.Memory × Option Response
  check_rates none now k = (none, none)
  check_rates (some m) now k =
      if positive k.rps_limit || positive k.rpm_limit
      then (let (m', e) = allow m now k.id k.rps_limit k.rpm_limit in (some m', rate_response e))
      else (some m, none)

  unfoldable pub acquire_slot :
      Option Concurrency.Memory → VirtualKey F → Option Concurrency.Memory × Option Response
  acquire_slot none k = (none, none)
  acquire_slot (some m) k =
      if positive k.max_concurrent
      then (let (m', got) = acquire m k.id k.max_concurrent in
          (some m', if got then none else refuse_for 429 code_concurrency_exceeded 1))
      else (some m, none)

  -- The deferred Release, with the same guard.
  unfoldable pub release_slot : Option Concurrency.Memory → VirtualKey F → Option Concurrency.Memory
  release_slot none k = none
  release_slot (some m) k =
      if positive k.max_concurrent then some (release m k.id k.max_concurrent) else some m

  -- The deferred calls, run when the adapter has returned.
  unfoldable pub finish : Proxy F → Outcome F → Proxy F
  finish p (rejected w) = p
  finish p (forwarded want none) = p
  finish p (forwarded want (some k)) = record p { concurrency = release_slot p.concurrency k }

  unfoldable pub set_draining : Proxy F → Bool → Proxy F
  set_draining p v = record p { draining = v }

module _ {F : Type 0} ⦃fl : Float F⦄ where
  open fl use {zero_usd, less}

  -- An error of the meter that is not a refusal lets the request pass.
  unfoldable pub check_budget :
      Option (Text → F → F → Option MeterError) → VirtualKey F → Option Response
  check_budget none k = none
  check_budget (some check) k =
      if less zero_usd k.daily_budget_usd || less zero_usd k.month_budget_usd
      then meter_response (check k.id k.daily_budget_usd k.month_budget_usd)
      else none

  -- The rate limit and the cap, for a key that passed the other guards.
  unfoldable pub limit : Proxy F → Request → Text → VirtualKey F → Proxy F × Outcome F
  limit p r want k =
      let (rates', limited) = check_rates p.rates r.rates_now k in
      elim limited [
        | some w ↦ (record p { rates = rates' }, rejected w)
        | none ↦
            let (concurrency', full) = acquire_slot p.concurrency k in
            (
              record p { rates = rates'; concurrency = concurrency' },
              elim full [ some w ↦ rejected w | none ↦ forwarded want (some k) ],
            )
      ]

  unfoldable pub admit_key : Proxy F → Request → Text → VirtualKey F → Proxy F × Outcome F
  admit_key p r want k = elim (check_key k r.expiry_now want) [
    | some w ↦ (p, rejected w)
    | none ↦ elim (check_budget p.meter k) [ some w ↦ (p, rejected w) | none ↦ limit p r want k ]
  ]

  unfoldable pub admit :
      Proxy F → Request → Text → Option KeyFault × Option (VirtualKey F) → Proxy F × Outcome F
  admit p r want (some missing_key, _) =
      (p, rejected (record { status = 401; code = code_missing_key; retry = none }))
  admit p r want (some invalid_key, _) =
      (p, rejected (record { status = 401; code = code_invalid_key; retry = none }))
  admit p r want (none, none) = (p, forwarded want none)
  admit p r want (none, some k) = admit_key p r want k

  -- `ServeHTTP` up to the call of the adapter. An upstream that is no adapter's is never expected,
  -- so the last branch of the switch has no counterpart.
  unfoldable pub serve_http : Proxy F → Request → Proxy F × Outcome F
  serve_http p r =
      let want = expected_upstream_for_path r.path in
      if text_eq want []
      then (p, rejected (record { status = 404; code = code_unknown_route; retry = none }))
      else elim (check_draining p.draining) [
        | some w ↦ (p, rejected w)
        | none ↦ elim (check_kill_switch p.kill_switch) [
          | some w ↦ (p, rejected w)
          | none ↦ admit p r want (resolve_key p.store r.authorization)
        ]
      ]
