-- ===== src/Proxy/Admission.antt =====
-- Which requests the handler forwards, and what it answers to the others.
use rein.Base.{
  ℕ, ltb_ℤ, positive, ◌≢◌, ◌||◌, Bool-cases, ◌≡◌, ◌⊎◌, refl, ◌++◌, [], Bool, true, false, Option,
  none, some, Text, text_eq, text_eq_iff, cut_prefix, cut_prefix_sound, arith, Option-cases, inl,
  inr,
}
use mathlib.Core.Path.{subst}
use rein.Base.Float.{Float}
use rein.Keys.{VirtualKey, Result, ok, is_rein_token, is_revoked, is_expired}
use rein.Rates.{RateError, retry_after_error, rate_limited, other_error, allow}
use rein.Rates
use rein.Concurrency.{acquire, in_flight}
use rein.Concurrency.Store.{acquire-in_flight}
use rein.Concurrency
use rein.Meter.{MeterError}
use rein.Proxy.{
  rate_response, Proxy, Request, forwarded, KeyFault, missing_key, invalid_key, check_draining,
  check_kill_switch, resolve_key, check_key, check_budget, check_rates, acquire_slot, limit,
  admit_key, admit, serve_http, expected_upstream_for_path, bearer,
}

check_kill_switch-none :
    (o : Option (Option Bool)) → check_kill_switch o ≡ none → (o ≡ none) ⊎ (o ≡ some (some false))
unfolding check_kill_switch
check_kill_switch-none none h = inl refl
check_kill_switch-none (some none) h = absurd (ground arith)
check_kill_switch-none (some (some true)) h = absurd (ground arith)
check_kill_switch-none (some (some false)) h = inr refl

module _ {F : Type 0} where
  -- The key is the one that the store has for the bearer token of the request.
  pub record IsFound (p : Proxy F) (r : Request) (k : VirtualKey F) : Type 0 where
    pub get_by_token : Text → Result (VirtualKey F)
    pub token : Text
    pub configured : p.store ≡ some get_by_token
    pub sent : r.authorization ≡ bearer ++ token
    pub prefixed : is_rein_token token ≡ true
    pub found : get_by_token token ≡ ok k

  -- Nothing stops requests of all keys on this path.
  pub record IsOpen (p : Proxy F) (r : Request) (want : Text) : Type 0 where
    pub routed : expected_upstream_for_path r.path ≡ want
    pub known : text_eq want [] ≡ false
    pub serving : p.draining ≡ false
    pub unfrozen : (p.kill_switch ≡ none) ⊎ (p.kill_switch ≡ some (some false))

  resolve_key-IsFound :
      (p : Proxy F) (r : Request) (k : VirtualKey F)
      → resolve_key p.store r.authorization ≡ (none, some k)
      → IsFound p r k
  unfolding resolve_key
  resolve_key-IsFound p r k h = elim (Option-cases p.store) [
    | inl nil ↦ absurd (ground arith)
    | inr (get_by_token, configured) ↦ elim (Option-cases (cut_prefix r.authorization bearer)) [
      | inl other ↦ absurd (ground arith)
      | inr (token, cut) ↦ record {
        get_by_token = get_by_token;
        token = token;
        configured = configured;
        sent = cut_prefix_sound r.authorization bearer cut;
        prefixed = ground arith;
        found = ground arith;
      }
    ]
  ]

  resolve_key-none :
      (p : Proxy F) (auth : Text) → resolve_key p.store auth ≡ (none, none) → p.store ≡ none
  unfolding resolve_key
  resolve_key-none p auth h = ground arith

  check_key-none :
      (k : VirtualKey F) (now : ℕ) (want : Text)
      → check_key k now want ≡ none
      → (is_revoked k ≡ false) × (is_expired k now ≡ false) × (k.upstream ≡ want)
  unfolding check_key
  check_key-none k now want h = ground (arith, text_eq_iff k.upstream want)

passed_rates : (e : Option RateError) → rate_response e ≡ none → (e ≡ none) ⊎ (e ≡ some other_error)
passed_rates none h = inl refl
passed_rates (some other_error) h = inr refl
passed_rates (some rate_limited) h = absurd (ground arith)
passed_rates (some (retry_after_error s)) h = absurd (ground arith)

module _ {F : Type 0} ⦃fl : Float F⦄ where
  open fl use {zero_usd, less}

  -- What the meter said of the key, if it was asked: no refusal. An error of the meter is none.
  pub data IsWithinBudget (p : Proxy F) (k : VirtualKey F) : Type 0 where
    unmetered : p.meter ≡ none → IsWithinBudget p k
    unbudgeted :
        less zero_usd k.daily_budget_usd ≡ false
        → less zero_usd k.month_budget_usd ≡ false
        → IsWithinBudget p k
    unspent :
        (check : Text → F → F → Option MeterError)
        → p.meter ≡ some check
        → check k.id k.daily_budget_usd k.month_budget_usd ≢ some MeterError.budget_exceeded
        → IsWithinBudget p k

  -- What the limiter said of the key at the instant of the request, if it was asked: no refusal.
  pub data IsWithinRates (p : Proxy F) (r : Request) (k : VirtualKey F) : Type 0 where
    unmeasured : p.rates ≡ none → IsWithinRates p r k
    unlimited : positive k.rps_limit ≡ false → positive k.rpm_limit ≡ false → IsWithinRates p r k
    unrefused :
        (m : Rates.Memory)
        → p.rates ≡ some m
        → ((allow m r.rates_now k.id k.rps_limit k.rpm_limit).1 ≡ none)
          ⊎ ((allow m r.rates_now k.id k.rps_limit k.rpm_limit).1 ≡ some other_error)
        → IsWithinRates p r k

  -- The slots of the key that were taken: fewer than its cap.
  pub data HasSlot (p : Proxy F) (k : VirtualKey F) : Type 0 where
    uncounted : p.concurrency ≡ none → HasSlot p k
    uncapped : positive k.max_concurrent ≡ false → HasSlot p k
    untaken :
        (m : Concurrency.Memory)
        → p.concurrency ≡ some m
        → ltb_ℤ (in_flight m k.id) k.max_concurrent ≡ true
        → HasSlot p k

  check_budget-IsWithinBudget :
      (p : Proxy F) (k : VirtualKey F) → check_budget p.meter k ≡ none → IsWithinBudget p k
  unfolding check_budget
  check_budget-IsWithinBudget p k h = elim (Option-cases p.meter) [
    | inl nil ↦ unmetered nil
    | inr (check, asks) ↦
        elim (Bool-cases (less zero_usd k.daily_budget_usd || less zero_usd k.month_budget_usd)) [
          | inr neither ↦ unbudgeted (ground arith) (ground arith)
          | inl either ↦
              unspent check asks (λ refused. absurd (ground (arith, asks, either, refused)))
        ]
  ]

  check_rates-IsWithinRates :
      (p : Proxy F) (r : Request) (k : VirtualKey F)
      → (check_rates p.rates r.rates_now k).1 ≡ none
      → IsWithinRates p r k
  unfolding check_rates
  check_rates-IsWithinRates p r k h = elim (Option-cases p.rates) [
    | inl nil ↦ unmeasured nil
    | inr (m, asks) ↦ elim (Bool-cases (positive k.rps_limit || positive k.rpm_limit)) [
      | inr neither ↦ unlimited (ground arith) (ground arith)
      | inl either ↦ unrefused m asks (passed_rates _ (rw (asks, either, check_rates) at h))
    ]
  ]

  acquire_slot-HasSlot :
      (p : Proxy F) (k : VirtualKey F) → (acquire_slot p.concurrency k).1 ≡ none → HasSlot p k
  unfolding acquire_slot
  acquire_slot-HasSlot p k h = elim (Option-cases p.concurrency) [
    | inl nil ↦ uncounted nil
    | inr (m, counts) ↦ elim (Bool-cases (positive k.max_concurrent)) [
      | inr no_cap ↦ uncapped no_cap
      | inl capped ↦ elim (Bool-cases (acquire m k.id k.max_concurrent).1) [
        | inl got ↦ untaken m counts (acquire-in_flight m k.id k.max_concurrent capped got)
        | inr full ↦ absurd (ground (arith, counts, capped, full))
      ]
    ]
  ]

  -- What is known of a key whose request is forwarded.
  pub record IsAllowed (p : Proxy F) (r : Request) (want : Text) (k : VirtualKey F) : Type 0 where
    pub is_found : IsFound p r k
    pub alive : is_revoked k ≡ false
    pub unexpired : is_expired k r.expiry_now ≡ false
    pub routed_upstream : k.upstream ≡ want
    pub within_budget : IsWithinBudget p k
    pub within_rates : IsWithinRates p r k
    pub has_slot : HasSlot p k

  -- Without a key, only a handler without a key store forwards.
  abbrev pub Allowed : Proxy F → Request → Text → Option (VirtualKey F) → Type 0
  Allowed p r want none = p.store ≡ none
  Allowed p r want (some k) = IsAllowed p r want k

  limit-forwarded :
      (p : Proxy F) (r : Request) (want w : Text) (k : VirtualKey F) (o : Option (VirtualKey F))
      → (limit p r want k).1 ≡ forwarded w o
      → ((check_rates p.rates r.rates_now k).1 ≡ none)
        × ((acquire_slot p.concurrency k).1 ≡ none)
        × (want ≡ w)
        × (some k ≡ o)
  unfolding limit
  limit-forwarded p r want w k o h = ground arith

  admit_key-forwarded :
      (p : Proxy F) (r : Request) (want w : Text) (k : VirtualKey F) (o : Option (VirtualKey F))
      → IsFound p r k
      → (admit_key p r want k).1 ≡ forwarded w o
      → (want ≡ w) × (some k ≡ o) × IsAllowed p r want k
  unfolding admit_key
  admit_key-forwarded p r want w k o f h =
      let good : check_key k r.expiry_now want ≡ none = ground arith in
      let within : check_budget p.meter k ≡ none = ground arith in
      let (free_, slot, same, this) =
        limit-forwarded p r want w k o (ground (arith, good, within)) in
      let (alive, unexpired, upstream) = check_key-none k r.expiry_now want good in
      (
        same,
        this,
        record {
          is_found = f;
          alive = alive;
          unexpired = unexpired;
          routed_upstream = upstream;
          within_budget = check_budget-IsWithinBudget p k within;
          within_rates = check_rates-IsWithinRates p r k free_;
          has_slot = acquire_slot-HasSlot p k slot;
        },
      )

  admit-forwarded :
      (p : Proxy F) (r : Request) (want w : Text) (o : Option (VirtualKey F))
      (found : Option KeyFault × Option (VirtualKey F))
      → resolve_key p.store r.authorization ≡ found
      → (admit p r want found).1 ≡ forwarded w o
      → (want ≡ w) × Allowed p r want o
  unfolding admit
  admit-forwarded p r want w o (some missing_key, _) e h = absurd (ground arith)
  admit-forwarded p r want w o (some invalid_key, _) e h = absurd (ground arith)
  admit-forwarded p r want w none (none, none) e h =
      (ground arith, resolve_key-none p r.authorization e)
  admit-forwarded p r want w (some k) (none, none) e h = absurd (ground arith)
  admit-forwarded p r want w o (none, some k) e h =
      let (same, this, allowed) =
        admit_key-forwarded p r want w k o (resolve_key-IsFound p r k e) h in
      (same, subst (Allowed p r want) this allowed)

  -- A request that the handler forwards is on a known path, with the handler neither draining nor
  -- frozen; its key is the one that the store has for its bearer token, is neither revoked nor
  -- expired, and belongs to the upstream of the path; if it has a budget the meter, where there is
  -- one, did not say that it is spent, if it has a rate limit the limiter, where there is one, did not
  -- refuse it, an error of either not counting, and if it has a cap fewer slots of it than that were
  -- taken, where there is a counter; and a request goes without a key only where no key store is
  -- configured.
  pub serve_http-forwarded :
      (p : Proxy F) (r : Request) (want : Text) (o : Option (VirtualKey F))
      → (serve_http p r).1 ≡ forwarded want o
      → IsOpen p r want × Allowed p r want o
  unfolding serve_http check_draining
  serve_http-forwarded p r want o h =
      let path = expected_upstream_for_path r.path in
      let known : text_eq path [] ≡ false = ground arith in
      let serving : p.draining ≡ false = ground arith in
      let live : check_kill_switch p.kill_switch ≡ none = ground arith in
      let (same, allowed) =
        admit-forwarded p r path want o (resolve_key p.store r.authorization) refl
          (ground (arith, known, serving, live)) in
      (
        record {
          routed = same;
          known = rw same at known;
          serving = serving;
          unfrozen = check_kill_switch-none p.kill_switch live;
        },
        subst (λ w. Allowed p r w o) same allowed,
      )
