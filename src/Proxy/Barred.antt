-- ===== src/Proxy/Barred.antt =====
-- The handler over the stores of the other components: what a revocation, an expiry or a spent budget
-- means for the requests of a key.
use rein.Base.{
  ◌≡◌, ◌≢◌, refl, sym, ap, ◌∙◌, ◌++◌, [], true, false, ◌||◌, List, Option, none, some,
  if◌then◌else◌, All, Text, bytes, text_eq, cut_prefix, cut_prefix-append, arith, Bool-cases, inl,
  inr,
}
use mathlib.Core.Path.{subst}
use rein.Base.Float.{Float}
use rein.Keys.{
  VirtualKey, Result, ok, err, not_found, new_memory, get_by_token, is_rein_token, is_revoked,
  is_expired,
}
use rein.Keys.Permanence.{run-is_revoked}
use rein.Keys.Calls.{Call, run}
use rein.Meter.{MeterError, budget_exceeded, check, reached}
use rein.Meter.Period.{Date, IsDate}
use rein.Meter.Ledger.{Entry, Dated, same_day, total, record_all, check-record_all}
use rein.Proxy.{
  Proxy, Request, Outcome, rejected, forwarded, resolve_key, check_key, admit_key, admit,
  serve_http, expected_upstream_for_path, bearer, code_key_revoked, code_invalid_key,
}
use rein.Proxy.Admission.{
  Allowed, IsWithinBudget, unmetered, unbudgeted, unspent, serve_http-forwarded,
}

bearer_not_empty : (t : Text) → text_eq (bearer ++ t) [] ≡ false
unfolding text_eq bytes
bearer_not_empty t = refl

module _ {F : Type 0} ⦃fl : Float F⦄ where
  open fl use {zero_usd, less}

  abbrev read_store : Option (Text → Result (VirtualKey F)) → Text → Result (VirtualKey F)
  read_store none t = err not_found
  read_store (some get) t = get t

  forwarded-alive :
      (p : Proxy F) (r : Request) (want t : Text) (o : Option (VirtualKey F))
      (get : Text → Result (VirtualKey F)) (k : VirtualKey F)
      → p.store ≡ some get
      → r.authorization ≡ bearer ++ t
      → get t ≡ ok k
      → Allowed p r want o
      → is_revoked k ≡ false
  forwarded-alive p r want t none get k s sent got a = absurd (ground arith)
  forwarded-alive p r want t (some j) get k s sent got a =
      let f = a.is_found in
      let cut : some f.token ≡ some t =
        sym (cut_prefix-append bearer f.token)
        ∙ ap (λ auth. cut_prefix auth bearer) (sym f.sent ∙ sent)
        ∙ cut_prefix-append bearer t in
      let same_token : f.token ≡ t = ground arith in
      let same_store : some f.get_by_token ≡ some get = sym f.configured ∙ s in
      let answer : read_store (some f.get_by_token) t ≡ ok j = rw same_token at f.found in
      let same_answer : read_store (some get) t ≡ ok j =
        subst (λ u. read_store u t ≡ ok j) same_store answer in
      let same_key : j ≡ k = ground arith in rw same_key at a.alive

  -- A token whose key has been revoked in the store, whatever calls of the store follow, never gets
  -- a request forwarded.
  pub revoked_never-forwarded :
      (p : Proxy F) (r : Request) (before later : List (Call F)) (t : Text) (k : VirtualKey F)
      (want : Text) (o : Option (VirtualKey F))
      → get_by_token (run new_memory before) t ≡ ok k
      → is_revoked k ≡ true
      → p.store ≡ some (get_by_token (run (run new_memory before) later))
      → r.authorization ≡ bearer ++ t
      → (serve_http p r).1 ≢ forwarded want o
  revoked_never-forwarded p r before later t k want o got dead s sent h =
      let (k', got', dead', same) = run-is_revoked before later t k got dead in
      let (door, allowed) = serve_http-forwarded p r want o h in
      let alive = forwarded-alive p r want t o _ k' s sent got' allowed in
      ground (arith, dead', alive)

  spent-barred :
      (p : Proxy F) (k : VirtualKey F) (asked : Text → F → F → Option MeterError)
      → p.meter ≡ some asked
      → less zero_usd k.daily_budget_usd ≡ true
      → asked k.id k.daily_budget_usd k.month_budget_usd ≡ some budget_exceeded
      → ¬ IsWithinBudget p k
  spent-barred p k asked m capped refused (unmetered nil) = absurd (ground arith)
  spent-barred p k asked m capped refused (unbudgeted no_day no_month) = absurd (ground arith)
  spent-barred p k asked m capped refused (unspent check' m' passed) =
      let same : asked ≡ check' = ground arith in
      passed (
        subst (λ f. f k.id k.daily_budget_usd k.month_budget_usd ≡ some budget_exceeded) same
          refused)

  -- With the in-process meter: once the costs recorded for a key on a day reach its positive daily
  -- budget, no request of the key is forwarded on that day.
  pub spent_never-forwarded :
      (p : Proxy F) (r : Request) (h : List (Entry F)) (today : Date) (k : VirtualKey F)
      (want : Text)
      → All Dated h
      → IsDate today
      → p.meter ≡ some (check (record_all [] h) today)
      → reached k.daily_budget_usd (total (λ d. same_day d today) k.id zero_usd h) ≡ true
      → (serve_http p r).1 ≢ forwarded want (some k)
  spent_never-forwarded p r h today k want dated date m spent e =
      let (door, allowed) = serve_http-forwarded p r want (some k) e in
      let refused =
        check-record_all h today k.id k.daily_budget_usd k.month_budget_usd dated date in
      let capped : less zero_usd k.daily_budget_usd ≡ true = ground arith in
      spent-barred p k (check (record_all [] h) today) m capped (ground (arith, refused))
        allowed.within_budget

  -- What the guards say to a bearer token whose key is revoked or expired.
  abbrev barred_token : Text → Outcome F
  barred_token t =
      if is_rein_token t
      then rejected (record { status = 401; code = code_key_revoked; retry = none })
      else rejected (record { status = 401; code = code_invalid_key; retry = none })

  admit-barred :
      (p : Proxy F) (r : Request) (want t : Text) (get : Text → Result (VirtualKey F))
      (k : VirtualKey F)
      → get t ≡ ok k
      → (is_revoked k || is_expired k r.expiry_now) ≡ true
      → (admit (record p { store = some get }) r want (resolve_key (some get) (bearer ++ t))).1
        ≡ barred_token t
  unfolding admit admit_key resolve_key check_key
  admit-barred p r want t get k got bad = elim (Bool-cases (is_rein_token t)) [
    | inr other ↦ rw (cut_prefix-append bearer t, other, bearer_not_empty t) refl
    | inl rein_token ↦
        rw (cut_prefix-append bearer t, rein_token, got, bearer_not_empty t) (ground arith)
  ]

  -- Two stores of which one has an expired key for the bearer token of a request and the other a
  -- revoked one, the expiry unnoticed by a sweep or not: the handler answers the same to both, the
  -- code included, whatever else the keys say.
  pub expired-as_revoked :
      (p : Proxy F) (r : Request) (t : Text) (get get' : Text → Result (VirtualKey F))
      (k k' : VirtualKey F)
      → r.authorization ≡ bearer ++ t
      → get t ≡ ok k
      → get' t ≡ ok k'
      → is_expired k r.expiry_now ≡ true
      → is_revoked k' ≡ true
      → (serve_http (record p { store = some get }) r).1
        ≡ (serve_http (record p { store = some get' }) r).1
  unfolding serve_http
  expired-as_revoked p r t get get' k k' sent got got' old dead =
      let want = expected_upstream_for_path r.path in
      let one = rw (← sent) at (admit-barred p r want t get k got (ground arith)) in
      let other = rw (← sent) at (admit-barred p r want t get' k' got' (ground arith)) in
      ground (arith, one, other)
