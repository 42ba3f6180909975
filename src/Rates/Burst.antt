-- ===== src/Rates/Burst.antt =====
-- How far a burst at the turn of two windows gets: to twice the limit within one window's length.
use rein.Base.{
  ℕ, zero, suc, ◌+◌, ◌*◌, ◌/◌, ◌≤◌, ◌<◌, ◌≡◌, refl, ap, ◌∙◌, List, [], ◌∷◌, ◌++◌, Bool, true, ◌&&◌,
  leb, ltb, ◌==◌, if◌then◌else◌, arith, ℤ, pos, count_if, replicate,
}
use rein.Rates.{sec_window_ns, min_window_ns, fresh_key}
use rein.Rates.History.{sliding_estimate, admits, sliding_run}
use rein.Rates.Runs.{allow_run, InOrder, allow_run-sliding_run}
use rein.Rates.Limits.{in_span}

admits_off : (window_ns : ℕ) (h : List ℕ) (now : ℕ) → admits window_ns (pos 0) h now ≡ true
unfolding admits
admits_off window_ns h now = refl

admits_on :
    (window_ns n : ℕ) (h : List ℕ) (now : ℕ)
    → sliding_estimate window_ns h now + 1 ≤ n
    → admits window_ns (pos n) h now ≡ true
unfolding admits
admits_on window_ns n h now le = ground arith

-- A request leaves the window before alone, and counts once in its own.
estimate_next :
    (window_ns : ℕ) (h : List ℕ) (now : ℕ)
    → sliding_estimate window_ns (now ∷ h) now ≡ sliding_estimate window_ns h now + 1
unfolding sliding_estimate
estimate_next window_ns h now = ground arith

replicate-cons {ℓ} :
    {A : Type ℓ} (m : ℕ) (a : A) (h : List A) → replicate m a ++ a ∷ h ≡ a ∷ replicate m a ++ h
replicate-cons zero a h = refl
replicate-cons (suc m) a h = ap (◌∷◌ a) (replicate-cons m a h)

admitted :
    (sec_ns min_ns n now : ℕ) (ts h : List ℕ)
    → sliding_estimate sec_ns h now + 1 ≤ n
    → sliding_run sec_ns min_ns (pos n) (pos 0) h (now ∷ ts)
      ≡ sliding_run sec_ns min_ns (pos n) (pos 0) (now ∷ h) ts
unfolding sliding_run
admitted sec_ns min_ns n now ts h le =
    ground (arith, admits_on sec_ns n h now le, admits_off min_ns h now)

-- `m` requests at one instant all pass if there is room for them.
burst_passes :
    (sec_ns min_ns n m now : ℕ) (h : List ℕ)
    → sliding_estimate sec_ns h now + m ≤ n
    → sliding_run sec_ns min_ns (pos n) (pos 0) h (replicate m now) ≡ replicate m now ++ h
unfolding sliding_run
burst_passes sec_ns min_ns n zero now h le = refl
burst_passes sec_ns min_ns n (suc m) now h le =
    admitted sec_ns min_ns n now (replicate m now) h (omega arith)
    ∙ burst_passes sec_ns min_ns n m now (now ∷ h) (omega (arith, estimate_next sec_ns h now))
    ∙ replicate-cons m now h

sliding_run-append :
    (sec_ns min_ns : ℕ) (rps rpm : ℤ) (ts us h : List ℕ)
    → sliding_run sec_ns min_ns rps rpm h (ts ++ us)
      ≡ sliding_run sec_ns min_ns rps rpm (sliding_run sec_ns min_ns rps rpm h ts) us
unfolding sliding_run
sliding_run-append sec_ns min_ns rps rpm [] us h = refl
sliding_run-append sec_ns min_ns rps rpm (t ∷ ts) us h =
    sliding_run-append sec_ns min_ns rps rpm ts us _

count_if-replicate {ℓ} :
    {A : Type ℓ} (p : A → Bool) (m : ℕ) (a : A) (h : List A)
    → count_if p (replicate m a ++ h) ≡ (if p a then m else 0) + count_if p h
count_if-replicate p zero a h = ground arith
count_if-replicate p (suc m) a h = ground (arith, count_if-replicate p m a h)

-- `n` requests in the last nanosecond of second `k`, and `n` near the end of the next second.
abbrev pub burst : ℕ → ℕ → List ℕ
burst n k =
    replicate n (1_000_000_000 * k + 999_999_999) ++ replicate n (1_000_000_000 * k + 1_999_999_998)

InOrder-replicate : (last n now : ℕ) → last ≤ now → InOrder last (replicate n now)
InOrder-replicate last zero now le = tt
InOrder-replicate last (suc n) now le = (le, InOrder-replicate now n now (omega arith))

InOrder-burst :
    (last m n t u : ℕ) → last ≤ t → t ≤ u → InOrder last (replicate m t ++ replicate n u)
InOrder-burst last zero n t u p q = InOrder-replicate last n u (omega arith)
InOrder-burst last (suc m) n t u p q = (p, InOrder-burst t m n t u (omega arith) q)

sliding_estimate-nil : (window_ns now : ℕ) → sliding_estimate window_ns [] now ≡ 0
unfolding sliding_estimate
sliding_estimate-nil window_ns now = grind arith

second_half :
    (n k : ℕ)
    → 2 * n < sec_window_ns
    → sliding_estimate sec_window_ns
        (replicate n (1_000_000_000 * k + 999_999_999) ++ [])
        (1_000_000_000 * k + 1_999_999_998)
      ≡ 0
unfolding sliding_estimate
second_half n k lt =
    rw
      (
        count_if-replicate
            (λ t. t / sec_window_ns + 1 == (1_000_000_000 * k + 1_999_999_998) / sec_window_ns) n
            (1_000_000_000 * k + 999_999_999) [],
        count_if-replicate
            (λ t. t / sec_window_ns == (1_000_000_000 * k + 1_999_999_998) / sec_window_ns) n
            (1_000_000_000 * k + 999_999_999) [],
      )
      (ground arith)

burst-all :
    (n k : ℕ)
    → 2 * n < sec_window_ns
    → allow_run (pos n) (pos 0) fresh_key [] (burst n k)
      ≡ replicate n (1_000_000_000 * k + 1_999_999_998)
        ++ (replicate n (1_000_000_000 * k + 999_999_999) ++ [])
burst-all n k lt =
    allow_run-sliding_run (pos n) (pos 0) (burst n k)
      (InOrder-burst 0 n n t u (omega arith) (omega arith))
    ∙ sliding_run-append sec_window_ns min_window_ns (pos n) (pos 0) (replicate n t) (replicate n u)
        []
    ∙ rw
        (burst_passes sec_window_ns min_window_ns n n t []
          (omega (arith, sliding_estimate-nil sec_window_ns t)))
        (burst_passes sec_window_ns min_window_ns n n u _ (omega (arith, second_half n k lt)))
  where
    t : ℕ
    t = 1_000_000_000 * k + 999_999_999

    u : ℕ
    u = 1_000_000_000 * k + 1_999_999_998

-- For every limit below half a thousand million per second there is a run, in any second `k`, in
-- which twice the limit pass within one second.
pub allow_run-burst :
    (n k : ℕ)
    → 2 * n < sec_window_ns
    → in_span
        (1_000_000_000 * k + 999_999_999)
        sec_window_ns
        (allow_run (pos n) (pos 0) fresh_key [] (burst n k))
      ≡ 2 * n
allow_run-burst n k lt =
    rw
      (
        burst-all n k lt,
        count_if-replicate
            (λ t.
              leb (1_000_000_000 * k + 999_999_999) t
              && ltb t (1_000_000_000 * k + 999_999_999 + sec_window_ns))
            n (1_000_000_000 * k + 1_999_999_998)
            (replicate n (1_000_000_000 * k + 999_999_999) ++ []),
        count_if-replicate
            (λ t.
              leb (1_000_000_000 * k + 999_999_999) t
              && ltb t (1_000_000_000 * k + 999_999_999 + sec_window_ns))
            n (1_000_000_000 * k + 999_999_999) [],
      )
      (ground arith)
