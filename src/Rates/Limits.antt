-- ===== src/Rates/Limits.antt =====
-- What the limits bound: the requests let through in a window, and in any span of that length.
use native.Mathlib.Nat.{div-eq_of_lt-le, div-add-mod, mod-lt}
use rein.Base.{
  ℕ, ◌+◌, ◌*◌, ◌/◌, ◌%◌, ◌≤◌, ◌<◌, ◌≡◌, ◌⊎◌, inl, inr, List, [], ◌∷◌, true, ◌&&◌, leb, ltb, ◌==◌,
  arith, Bool-cases, ℤ, positive, pos_part, count_if,
}
use rein.Rates.{sec_window_ns, min_window_ns, fresh_key}
use rein.Rates.History.{in_window, sliding_estimate, admits, sliding_run}
use rein.Rates.Runs.{allow_run, InOrder, allow_run-sliding_run}

admits_room :
    (window_ns : ℕ) (limit : ℤ) (h : List ℕ) (now : ℕ)
    → positive limit ≡ true
    → admits window_ns limit h now ≡ true
    → in_window window_ns (now / window_ns) h + 1 ≤ pos_part limit
unfolding admits sliding_estimate
admits_room window_ns limit h now p a = ground arith

count_within :
    (window_ns : ℕ) (limit : ℤ) (k : ℕ) (h : List ℕ) (now : ℕ)
    → positive limit ≡ true
    → admits window_ns limit h now ≡ true
    → in_window window_ns k h ≤ pos_part limit
    → in_window window_ns k (now ∷ h) ≤ pos_part limit
count_within window_ns limit k h now p a le = elim (Bool-cases (now / window_ns == k)) [
  | inl here ↦
      let e : now / window_ns ≡ k = ground arith in
      let room : in_window window_ns k h + 1 ≤ pos_part limit =
        rw e at (admits_room window_ns limit h now p a) in
      ground arith
  | inr elsewhere ↦ ground arith
]

module _ (sec_ns min_ns : ℕ) (rps rpm : ℤ) where
  sliding_run-sec :
      (k : ℕ) (ts h : List ℕ)
      → positive rps ≡ true
      → in_window sec_ns k h ≤ pos_part rps
      → in_window sec_ns k (sliding_run sec_ns min_ns rps rpm h ts) ≤ pos_part rps
  unfolding sliding_run
  sliding_run-sec k [] h p le = le
  sliding_run-sec k (now ∷ ts) h p le =
      sliding_run-sec k ts _ p (ground (arith, count_within sec_ns rps k h now p))

  sliding_run-min :
      (k : ℕ) (ts h : List ℕ)
      → positive rpm ≡ true
      → in_window min_ns k h ≤ pos_part rpm
      → in_window min_ns k (sliding_run sec_ns min_ns rps rpm h ts) ≤ pos_part rpm
  unfolding sliding_run
  sliding_run-min k [] h p le = le
  sliding_run-min k (now ∷ ts) h p le =
      sliding_run-min k ts _ p (ground (arith, count_within min_ns rpm k h now p))

-- The requests of the history in the span of the given length from `start` on.
abbrev pub in_span : ℕ → ℕ → List ℕ → ℕ
in_span start len h = count_if (λ t. leb start t && ltb t (start + len)) h

span_window :
    (window_ns start t : ℕ)
    → 0 < window_ns
    → start ≤ t
    → t < start + window_ns
    → (t / window_ns ≡ start / window_ns) ⊎ (t / window_ns ≡ start / window_ns + 1)
span_window window_ns start t nz le lt = elim (Bool-cases (ltb t (window_ns * q + window_ns))) [
  | inl same ↦ inl (div-eq_of_lt-le window_ns (grind arith) (grind arith))
  | inr next ↦ inr (div-eq_of_lt-le window_ns (grind arith) (grind arith))
]
  where
    q : ℕ
    q = start / window_ns

    low : window_ns * q + start % window_ns ≡ start
    low = div-add-mod start window_ns

    high : start % window_ns < window_ns
    high = mod-lt start {m = window_ns} nz

-- Such a span meets two windows at most.
in_span-le :
    (window_ns start : ℕ) (h : List ℕ)
    → 0 < window_ns
    → in_span start window_ns h
      ≤ in_window window_ns (start / window_ns) h + in_window window_ns (start / window_ns + 1) h
in_span-le window_ns start [] nz = omega arith
in_span-le window_ns start (t ∷ h) nz =
    elim (Bool-cases (leb start t && ltb t (start + window_ns))) [
      | inl inside ↦
          ground (arith, in_span-le window_ns start h nz, span_window window_ns start t nz)
      | inr outside ↦ ground (arith, in_span-le window_ns start h nz)
    ]

-- Whatever requests come, where the clock readings of the limiter never fall from one to the next, it
-- lets no more of them through in any aligned second than a positive limit per second.
pub allow_run-in_sec_window :
    (rps rpm : ℤ) (ts : List ℕ) (k : ℕ)
    → InOrder 0 ts
    → positive rps ≡ true
    → in_window sec_window_ns k (allow_run rps rpm fresh_key [] ts) ≤ pos_part rps
allow_run-in_sec_window rps rpm ts k o p =
    rw (allow_run-sliding_run rps rpm ts o)
      (sliding_run-sec sec_window_ns min_window_ns rps rpm k ts [] p (omega arith))

-- Whatever requests come in order, the limiter lets no more of them through in any aligned minute
-- than a positive limit per minute.
pub allow_run-in_min_window :
    (rps rpm : ℤ) (ts : List ℕ) (k : ℕ)
    → InOrder 0 ts
    → positive rpm ≡ true
    → in_window min_window_ns k (allow_run rps rpm fresh_key [] ts) ≤ pos_part rpm
allow_run-in_min_window rps rpm ts k o p =
    rw (allow_run-sliding_run rps rpm ts o)
      (sliding_run-min sec_window_ns min_window_ns rps rpm k ts [] p (omega arith))

-- In a span of one second, wherever it starts, the limiter lets no more requests through than twice a
-- positive limit per second, where the requests come in order.
pub allow_run-in_sec_span :
    (rps rpm : ℤ) (ts : List ℕ) (start : ℕ)
    → InOrder 0 ts
    → positive rps ≡ true
    → in_span start sec_window_ns (allow_run rps rpm fresh_key [] ts) ≤ 2 * pos_part rps
allow_run-in_sec_span rps rpm ts start o p = omega (
  arith,
  in_span-le sec_window_ns start (allow_run rps rpm fresh_key [] ts) (omega arith),
  allow_run-in_sec_window rps rpm ts (start / sec_window_ns) o p,
  allow_run-in_sec_window rps rpm ts (start / sec_window_ns + 1) o p,
)

-- In a span of one minute, wherever it starts, the limiter lets no more requests through than twice a
-- positive limit per minute, where the requests come in order.
pub allow_run-in_min_span :
    (rps rpm : ℤ) (ts : List ℕ) (start : ℕ)
    → InOrder 0 ts
    → positive rpm ≡ true
    → in_span start min_window_ns (allow_run rps rpm fresh_key [] ts) ≤ 2 * pos_part rpm
allow_run-in_min_span rps rpm ts start o p = omega (
  arith,
  in_span-le min_window_ns start (allow_run rps rpm fresh_key [] ts) (omega arith),
  allow_run-in_min_window rps rpm ts (start / min_window_ns) o p,
  allow_run-in_min_window rps rpm ts (start / min_window_ns + 1) o p,
)
