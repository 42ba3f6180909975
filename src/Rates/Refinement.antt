-- ===== src/Rates/Refinement.antt =====
-- The two counters of a window say of the history what the sliding window rule asks of it.
use native.Mathlib.Nat.{
  mod-lt, div-add-mod, mul-add-div, mul-add-mod_self_left, div-eq_of_lt-le, le-div_iff_mul-le,
}
use rein.Base.{
  ℕ, ◌+◌, ◌-◌, ◌*◌, ◌/◌, ◌%◌, ◌≤◌, ◌<◌, ◌≡◌, refl, sym, ap, ◌∙◌, inl, inr, List, [], ◌∷◌, leb, ◌==◌,
  if◌then◌else◌, arith, All, Bool-cases,
}
use rein.Rates.Window.{WindowCounter, advance, estimate_count}
use rein.Rates.History.{in_window, before_window, sliding_estimate}

module _ (window_ns : ℕ) where
  -- The counters of window `i` against the history `h`.
  pub record Tracks (i : ℕ) (h : List ℕ) (w : WindowCounter) : Type 0 where
    pub start : w.window_start ≡ window_ns * i
    pub curr : w.curr_count ≡ in_window window_ns i h
    pub prev : w.prev_count ≡ before_window window_ns i h
    pub past : All (λ t. t / window_ns ≤ i) h

  in_window_later :
      (i k : ℕ) (h : List ℕ) → All (λ t. t / window_ns ≤ i) h → i < k → in_window window_ns k h ≡ 0
  in_window_later i k [] a lt = refl
  in_window_later i k (t ∷ h) a lt = ground (arith, in_window_later i k h a.1)

  before_window_later :
      (i k : ℕ) (h : List ℕ)
      → All (λ t. t / window_ns ≤ i) h
      → i + 1 < k
      → before_window window_ns k h ≡ 0
  before_window_later i k [] a lt = refl
  before_window_later i k (t ∷ h) a lt = ground (arith, before_window_later i k h a.1)

  before_window_next :
      (i : ℕ) (h : List ℕ) → before_window window_ns (i + 1) h ≡ in_window window_ns i h
  before_window_next i [] = refl
  before_window_next i (t ∷ h) = ground (arith, before_window_next i h)

  past_mono :
      (i k : ℕ) (h : List ℕ)
      → All (λ t. t / window_ns ≤ i) h
      → i ≤ k
      → All (λ t. t / window_ns ≤ k) h
  past_mono i k [] a le = tt
  past_mono i k (t ∷ h) a le = (omega arith, past_mono i k h a.1 le)

  -- Where `now` lies in the windows, counted from the start of window `i`.
  start_of_window :
      (i now : ℕ)
      → 0 < window_ns
      → window_ns * i ≤ now
      → ((now - window_ns * i) % window_ns ≡ now % window_ns)
        × ((now - window_ns * i) / window_ns + i ≡ now / window_ns)
        × (now - now % window_ns ≡ window_ns * (now / window_ns))
  start_of_window i now pos le =
      let d = now - window_ns * i in
      let e : window_ns * i + d ≡ now = omega arith in
      (
        sym (mul-add-mod_self_left window_ns i d) ∙ ap (λ (t : ℕ). t % window_ns) e,
        omega (arith, mul-add-div {m = window_ns} pos i d, ap (λ (t : ℕ). t / window_ns) e),
        omega (arith, div-add-mod now window_ns),
      )

  advance_same :
      (i now : ℕ)
      → 0 < window_ns
      → window_ns * i ≤ now
      → now < window_ns * i + window_ns
      → now / window_ns ≡ i
  advance_same i now pos le lt = div-eq_of_lt-le window_ns (grind arith) (grind arith)

  advance_moved :
      (i now : ℕ)
      → 0 < window_ns
      → window_ns * i ≤ now
      → window_ns * i + window_ns ≤ now
      → i < now / window_ns
  advance_moved i now pos le ge =
      grind (arith, le-div_iff_mul-le {k = window_ns} {x = i + 1} {y = now} pos)

  prev_moved :
      (i k d c : ℕ) (h : List ℕ)
      → All (λ t. t / window_ns ≤ i) h
      → c ≡ in_window window_ns i h
      → d + i ≡ k
      → i < k
      → (if d == 1 then c else 0) ≡ before_window window_ns k h
  prev_moved i k d c h past curr e lt = elim (Bool-cases (d == 1)) [
    | inl one ↦
        let next : k ≡ i + 1 = ground arith in rw (one, next) (curr ∙ sym (before_window_next i h))
    | inr more ↦ rw more (sym (before_window_later i k h past (ground arith)))
  ]

  -- Moving the window on keeps its counters in step with the history.
  pub advance-Tracks :
      (i now : ℕ) (h : List ℕ) (w : WindowCounter)
      → 0 < window_ns
      → window_ns * i ≤ now
      → Tracks i h w
      → Tracks (now / window_ns) h (advance w now window_ns)
  unfolding advance
  advance-Tracks i now h w pos le t = elim (Bool-cases (leb (w.window_start + window_ns) now)) [
    | inl moved ↦
        let (rest, index, start) = start_of_window i now pos le in
        let lt = advance_moved i now pos le (ground arith) in
        rw (moved, t.start)
          (record {
            start = rw rest start;
            curr = sym (in_window_later i (now / window_ns) h t.past lt);
            prev = prev_moved i (now / window_ns) _ w.curr_count h t.past t.curr index lt;
            past = past_mono i (now / window_ns) h t.past (omega arith);
          })
    | inr same ↦ rw (same, advance_same i now pos le (ground arith)) t
  ]

  -- The estimate is that of the sliding window rule.
  pub estimate_count-sliding :
      (i now : ℕ) (h : List ℕ) (w : WindowCounter)
      → 0 < window_ns
      → window_ns * i ≤ now
      → Tracks i h w
      → (estimate_count w now window_ns).1 ≡ sliding_estimate window_ns h now
  unfolding estimate_count sliding_estimate
  estimate_count-sliding i now h w pos le t =
      let t' = advance-Tracks i now h w pos le t in rw (t'.prev, t'.curr, t'.start) (rw left)
    where
      left : window_ns * (now / window_ns) + window_ns - now ≡ window_ns - now % window_ns
      left = omega (arith, div-add-mod now window_ns, mod-lt now {m = window_ns} pos)

  -- Counting a request keeps the counters in step with the longer history.
  pub count-Tracks :
      (now : ℕ) (h : List ℕ) (w : WindowCounter)
      → Tracks (now / window_ns) h w
      → Tracks (now / window_ns) (now ∷ h) (record w { curr_count = w.curr_count + 1 })
  count-Tracks now h w t = record {
    start = t.start;
    curr = ground arith;
    prev = ground arith;
    past = (omega arith, t.past);
  }
