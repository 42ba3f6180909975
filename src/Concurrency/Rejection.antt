-- ===== src/Concurrency/Rejection.antt =====
-- When a caller in parallel is turned away.
use rein.Base.{ℕ, zero, suc, ◌+◌, ◌≡◌, ◌≤◌, ◌<◌, refl, ◌∙◌, true, pos, Text, arith, ltb, [], lookup}
use rein.Concurrency.{try_slot, in_flight}
use rein.Concurrency.Safety.{
  System, admit, overshoot, finish, Reach, here, next, IsSafe, in_flight-try_slot, Reach-IsSafe,
}

abbrev pub start : System
start = record { counters = []; holding = 0; undoing = 0 }

-- The state reached by a run from the start that has these numbers of holders and of callers that
-- have yet to take their attempt back.
pub record At (k : Text) (limit holding undoing : ℕ) : Type 0 where
  pub state : System
  pub run : Reach k limit start state
  pub holds : state.holding ≡ holding
  pub undoes : state.undoing ≡ undoing

module _ (k : Text) (limit : ℕ) (capped_key : 0 < limit) where
  start-IsSafe : IsSafe k limit start
  unfolding in_flight lookup
  start-IsSafe = record { counted = ground arith; capped = omega arith }

  At-IsSafe : {h u : ℕ} (a : At k limit h u) → IsSafe k limit a.state
  At-IsSafe a = Reach-IsSafe k limit capped_key start-IsSafe a.run

  -- A caller is turned away exactly when the holders, with the callers that have yet to take their
  -- attempt back, already number `limit`.
  pub try_slot-At :
      {h u : ℕ} (a : At k limit h u)
      → (try_slot a.state.counters k (pos limit)).1 ≡ ltb limit (h + u + 1)
  try_slot-At {h} {u} a =
      let v = At-IsSafe a in
      ground (
        arith,
        in_flight-try_slot k limit capped_key a.state.counters (a.state.holding + a.state.undoing),
      )

  step_admit : {h : ℕ} → h < limit → At k limit h 0 → At k limit (suc h) 0
  step_admit {h} lt a = record {
    state = _;
    run = next a.run (admit a.state (try_slot-At a ∙ ground arith));
    holds = ground arith;
    undoes = a.undoes;
  }

  step_overshoot : {u : ℕ} → At k limit limit u → At k limit limit (suc u)
  step_overshoot {u} a = record {
    state = _;
    run = next a.run (overshoot a.state (try_slot-At a ∙ ground arith));
    holds = a.holds;
    undoes = ground arith;
  }

  step_finish : {h u : ℕ} → At k limit (suc h) u → At k limit h u
  step_finish {h} a = record {
    state = _;
    run = next a.run (finish a.state h a.holds);
    holds = refl;
    undoes = a.undoes;
  }

  fill : (h : ℕ) → h ≤ limit → At k limit h 0
  fill zero le = record { state = start; run = here; holds = refl; undoes = refl }
  fill (suc h) le = step_admit le (fill h (omega arith))

  crowd : (u : ℕ) → At k limit limit u
  crowd zero = fill limit (omega arith)
  crowd (suc u) = step_overshoot (crowd u)

  drain : (h : ℕ) {u : ℕ} → At k limit h u → At k limit 0 u
  drain zero a = a
  drain (suc h) a = drain h (step_finish a)

  -- So a caller can be turned away while nobody holds a slot: the run in which `limit` callers get in,
  -- `limit` more fail and have not yet taken their attempts back, and the holders then leave.
  pub rejected_idle :
      (s : System) × Reach k limit start s
      × (s.holding ≡ 0)
      × ((try_slot s.counters k (pos limit)).1 ≡ true)
  rejected_idle =
      let a = drain limit (crowd limit) in (a.state, a.run, a.holds, try_slot-At a ∙ ground arith)
