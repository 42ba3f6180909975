-- ===== src/Adapter/Bills.antt =====
-- Both adapters over one in-process meter: what their responses cost the keys. Streams, which are
-- billed at their end, bill nothing here.
use rein.Base.{
  ◌++◌, ◌≡◌, refl, sym, ap, ◌∙◌, true, ◌||◌, List, [], ◌∷◌, Option, none, some, if◌then◌else◌, Text,
  bytes, arith, All, inl, inr,
}
use rein.Base.Float.{Float}
use rein.Meter
use rein.Meter.{record_cost, check, reached, budget_exceeded}
use rein.Meter.Period.{Date, IsDate}
use rein.Meter.Ledger.{Entry, Dated, record_all, total, same_day, same_month, check-record_all}
use rein.Meter.Pricing.{Pricer, ModelPrice}
use rein.Adapter.{
  Adapter, Recorder, Moment, UnknownModelLogger, record_spend, UpstreamResponse, Payload,
  modify_response, openai_response, anthropic_response,
}
use rein.Adapter.Usage.{
  AdapterName, openai_adapter, anthropic_adapter, no_usage_of, HasUsage, no_usage_iff,
  map-IsBillable,
}
use rein.Adapter.Prices.{IsPriced, cost-IsPriced}
use rein.Adapter.Billing.{IsBillable, modify_response-IsBillable}

-- A response of an adapter, with the price table that is in force and the time when it arrives.
pub record Arrival (F : Type 0) : Type 0 where
  pub adapter : AdapterName
  pub table : Pricer F
  pub now : Moment
  pub response : UpstreamResponse

-- The state that the two adapters have: one meter, and a log each.
pub record Adapters (S : Type 0) : Type 0 where
  pub meter : Option S
  pub openai_log : UnknownModelLogger
  pub anthropic_log : UnknownModelLogger

abbrev pub upstream_of : AdapterName → Text
upstream_of openai_adapter = bytes "openai"
upstream_of anthropic_adapter = bytes "anthropic"

module _ {F : Type 0} ⦃fl : Float F⦄ (decode : AdapterName → Text → Option Payload) where
  open fl use {zero_usd, million, of_int, plus, times, over}

  -- recordSpend of the in-process meter, whose Record has no error.
  abbrev pub memory_record : Recorder F (Meter.Memory F)
  memory_record m today key_id usd = (record_cost m today key_id usd, true)

  unfoldable pub respond : Adapters (Meter.Memory F) → Arrival F → Adapters (Meter.Memory F)
  respond g x = elim x.adapter [
    | openai_adapter ↦
        let a =
          (openai_response (decode openai_adapter) memory_record (some (some x.table))
            (record { meter = g.meter; unknown_model_log = g.openai_log }) x.now x.response).0 in
        record g { meter = a.meter; openai_log = a.unknown_model_log }
    | anthropic_adapter ↦
        let a =
          (anthropic_response (decode anthropic_adapter) memory_record (some (some x.table))
            (record { meter = g.meter; unknown_model_log = g.anthropic_log }) x.now x.response).0 in
        record g { meter = a.meter; anthropic_log = a.unknown_model_log }
  ]

  unfoldable pub respond_all :
      Adapters (Meter.Memory F) → List (Arrival F) → Adapters (Meter.Memory F)
  respond_all g [] = g
  respond_all g (x ∷ xs) = respond_all (respond g x) xs

  -- The response of an arrival is billable, for this key and usage, by its adapter.
  abbrev pub Bills : Arrival F → Text → Payload → Type 0
  Bills x id q = IsBillable (HasUsage x.adapter) (decode x.adapter) x.response id q

  -- What is charged for an arrival: nothing, or an entry.
  pub data Charge (x : Arrival F) : List (Entry F) → Type 0 where
    unbilled : ¬ ((id : Text) × (q : Payload) × Bills x id q) → Charge x []
    unpriced :
        (id : Text)
        → (q : Payload) → Bills x id q
        → ¬ ((price : ModelPrice F) × IsPriced x.table (upstream_of x.adapter) q.model price)
        → Charge x []
    charged :
        (id : Text)
        → (q : Payload) → Bills x id q
        → (price : ModelPrice F) → IsPriced x.table (upstream_of x.adapter) q.model price
        → Charge x (
            record {
              date = x.now.date;
              key_id = id;
              cost =
                  plus
                    (times (over (of_int q.input) million) price.input_per_mtoken)
                    (times (over (of_int q.output) million) price.output_per_mtoken);
            }
            ∷ [])

  -- What is charged for arrivals, each in its turn.
  pub data Billed : List (Arrival F) → List (Entry F) → Type 0 where
    no_arrivals : Billed [] []
    then_arrival :
        (x : Arrival F)
        → (xs : List (Arrival F)) → (es fs : List (Entry F)) → Charge x es
        → Billed xs fs
        → Billed (x ∷ xs) (es ++ fs)

  record_spend-Charge :
      (x : Arrival F) (id : Text) (q : Payload) (m : Meter.Memory F) (a : Adapter (Meter.Memory F))
      → Bills x id q
      → a.meter ≡ some m
      → (es : List (Entry F)) × Charge x es
        × ((record_spend
              (upstream_of x.adapter)
              memory_record
              (some (some x.table))
              a
              x.now
              id
              q.model
              q.input
              q.output).meter
            ≡ some (record_all m es))
  unfolding record_spend record_all
  record_spend-Charge x id q m a bills e =
      elim (cost-IsPriced x.table (upstream_of x.adapter) q.model q.input q.output) [
        | inl (no_price, free) ↦ ([], unpriced id q bills no_price, ground (arith, e, free))
        | inr (price, priced, costs) ↦
            (_, charged id q bills price priced, ground (arith, e, costs))
      ]

  modify_response-Charge :
      (x : Arrival F) (m : Meter.Memory F) (a : Adapter (Meter.Memory F))
      → a.meter ≡ some m
      → (es : List (Entry F)) × Charge x es
        × ((modify_response
              (upstream_of x.adapter)
              (no_usage_of x.adapter)
              (decode x.adapter)
              memory_record
              (some (some x.table))
              a
              x.now
              x.response).0.meter
            ≡ some (record_all m es))
  unfolding record_all
  modify_response-Charge x m a e =
      elim (modify_response-IsBillable (upstream_of x.adapter) (no_usage_of x.adapter)
        (decode x.adapter) memory_record (some (some x.table)) a x.now x.response) [
          | inl (nothing, same) ↦ (
            [],
            unbilled (λ (id, q, b).
                nothing (id, q, map-IsBillable (λ q. (no_usage_iff x.adapter q).1) b)),
            ap (λ b. b.meter) same ∙ e,
          )
          | inr (id, q, tested, spends) ↦
              let bills = map-IsBillable (λ q. (no_usage_iff x.adapter q).0) tested in
              let (es, charge, after) = record_spend-Charge x id q m a bills e in
              (es, charge, ap (λ b. b.meter) spends ∙ after)
        ]

  respond-Charge :
      (x : Arrival F) (m : Meter.Memory F) (g : Adapters (Meter.Memory F))
      → g.meter ≡ some m
      → (es : List (Entry F)) × Charge x es × ((respond g x).meter ≡ some (record_all m es))
  unfolding respond
  respond-Charge x m g e = by_adapter x.adapter
    where
      by_adapter :
          (n : AdapterName)
          → (es : List (Entry F)) × Charge (record x { adapter = n }) es
            × ((respond g (record x { adapter = n })).meter ≡ some (record_all m es))
      by_adapter openai_adapter =
          modify_response-Charge (record x { adapter = openai_adapter }) m
            (record { meter = g.meter; unknown_model_log = g.openai_log }) e
      by_adapter anthropic_adapter =
          modify_response-Charge (record x { adapter = anthropic_adapter }) m
            (record { meter = g.meter; unknown_model_log = g.anthropic_log }) e

  record_all-++ :
      (m : Meter.Memory F) (es fs : List (Entry F))
      → record_all m (es ++ fs) ≡ record_all (record_all m es) fs
  unfolding record_all
  record_all-++ m [] fs = refl
  record_all-++ m (e ∷ es) fs = record_all-++ (record_cost m e.date e.key_id e.cost) es fs

  respond_all-record_all :
      (xs : List (Arrival F)) (m : Meter.Memory F) (g : Adapters (Meter.Memory F))
      → g.meter ≡ some m
      → (es : List (Entry F)) × Billed xs es × ((respond_all g xs).meter ≡ some (record_all m es))
  unfolding respond_all record_all
  respond_all-record_all [] m g e = ([], no_arrivals, e)
  respond_all-record_all (x ∷ xs) m g e =
      let (es, charge, now) = respond-Charge x m g e in
      let (fs, rest, after) = respond_all-record_all xs (record_all m es) (respond g x) now in
      (
        es ++ fs,
        then_arrival x xs es fs charge rest,
        after ∙ ap (λ n. some n) (sym (record_all-++ m es fs)),
      )

  Charge-Dated :
      (x : Arrival F) (es fs : List (Entry F))
      → Charge x es
      → IsDate x.now.date
      → All Dated fs
      → All Dated (es ++ fs)
  Charge-Dated x es fs (unbilled nothing) d later = later
  Charge-Dated x es fs (unpriced id q bills no_price) d later = later
  Charge-Dated x es fs (charged id q bills price priced) d later = (d, later)

  Billed-Dated :
      (xs : List (Arrival F)) (es : List (Entry F))
      → Billed xs es
      → All (λ x. IsDate x.now.date) xs
      → All Dated es
  Billed-Dated xs es no_arrivals a = a
  Billed-Dated xs es (then_arrival x ys fs gs charge rest) (d, ds) =
      Charge-Dated x fs gs charge d (Billed-Dated ys gs rest ds)

  -- Whatever responses the two adapters pass on, in any order, on dates that have a four-digit year,
  -- the usage that a stream reports at its end left aside, with a meter that is empty at first and a
  -- price table that may change between the responses: there is a list of charges, of each billable
  -- response with a priced model its input and output tokens, in millions, times the prices of the
  -- model at the adapter's upstream, to the key of its request, and of every other response none; and
  -- in the end `Check` refuses a key exactly when a cap of it is positive and at most the total of
  -- its charges on this day, or in this month.
  pub respond_all-Billed :
      (xs : List (Arrival F)) (g : Adapters (Meter.Memory F)) (today : Date) (k : Text)
      (daily month : F)
      → g.meter ≡ some []
      → All (λ x. IsDate x.now.date) xs
      → IsDate today
      → (es : List (Entry F)) × (m : Meter.Memory F) × Billed xs es
        × ((respond_all g xs).meter ≡ some m)
        × (check m today k daily month ≡ (
            if reached daily (total (λ d. same_day d today) k zero_usd es)
              || reached month (total (λ d. same_month d today) k zero_usd es)
            then some budget_exceeded
            else none))
  respond_all-Billed xs g today k daily month e dates date =
      let (es, bills, after) = respond_all-record_all xs [] g e in
      (
        es,
        record_all [] es,
        bills,
        after,
        check-record_all es today k daily month (Billed-Dated xs es bills dates) date,
      )
