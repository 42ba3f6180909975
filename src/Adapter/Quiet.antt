-- ===== src/Adapter/Quiet.antt =====
-- How often the unknown model logger speaks.
use rein.Base.{
  ℕ, ◌+◌, ◌*◌, ◌≤◌, ◌<◌, ◌≡◌, refl, false, leb, List, Bool-cases, inl, inr, [], ◌∷◌, some,
  if◌then◌else◌, arith, All,
}
use rein.Adapter.{UnknownModelState, should_log_state}

module _ (burst steady : ℕ) where
  -- The state after calls for one key and model at some instants, and the number of lines.
  unfoldable pub log_run : UnknownModelState → List ℕ → UnknownModelState × ℕ
  log_run st [] = (st, 0)
  log_run st (now ∷ ts) =
      let (st', emit) = should_log_state burst steady now (some st) in
      let (end, n) = log_run st' ts in (end, if emit then n + 1 else n)

  -- For one key and model, over any calls after the burst window of the first line: every line is at
  -- least the steady interval after the one before, so the lines times the interval are at most the
  -- time between the last line of before and the last line of the run; and the window's start stays.
  pub log_run-steady :
      (st : UnknownModelState) (ts : List ℕ)
      → All (λ now. st.first_seen + burst < now) ts
      → ((log_run st ts).0.first_seen ≡ st.first_seen)
        × (st.last_logged + (log_run st ts).1 * steady ≤ (log_run st ts).0.last_logged)
  unfolding log_run should_log_state
  log_run-steady st [] a = (refl, omega arith)
  log_run-steady st (now ∷ ts) (late, a) =
      let over : leb now (st.first_seen + burst) ≡ false = ground arith in
      elim (Bool-cases (leb (st.last_logged + steady) now)) [
        | inl due ↦
            let (start, spaced) = log_run-steady (record st { last_logged = now }) ts a in
            rw (over, due) (start, spaced_more st.last_logged now steady _ _ (ground arith) spaced)
        | inr early ↦ rw (over, early) (log_run-steady st ts a)
      ]
    where
      spaced_more :
          (last now d n end : ℕ) → last + d ≤ now → now + n * d ≤ end → last + (n + 1) * d ≤ end
      spaced_more last now d n end le spaced = grind arith
