-- ===== src/Rates/Runs.antt =====
-- Runs of the limiter of one key against the sliding window rule.
use native.Mathlib.Nat.{mul-div-le}
use rein.Base.{
  ℕ, ◌*◌, ◌/◌, ◌≤◌, ◌<◌, ◌≡◌, refl, ◌∙◌, inl, inr, List, [], ◌∷◌, Bool, true, false, not, ◌&&◌,
  if◌then◌else◌, arith, Bool-cases, ℤ, pos, negsuc, positive, Option, none, some, is_some,
}
use rein.Rates.{
  RateError, KeyState, sec_window_ns, min_window_ns, check_window, bump, settle, allow_key,
  fresh_key,
}
use rein.Rates.Window.{WindowCounter, advance, estimate_count, fresh}
use rein.Rates.History.{admits, sliding_run}
use rein.Rates.Refinement.{Tracks, advance-Tracks, estimate_count-sliding, count-Tracks}

-- The history after a run of calls with the same limits: the clock readings at which `Allow`
-- returned no error, the newest first.
unfoldable pub allow_run : ℤ → ℤ → KeyState → List ℕ → List ℕ → List ℕ
allow_run rps rpm ks h [] = h
allow_run rps rpm ks h (now ∷ ts) =
    let (ks', e) = allow_key rps rpm now ks in
    allow_run rps rpm ks' (if is_some e then h else now ∷ h) ts

-- The clock readings never fall, and none is before the given one.
abbrev pub InOrder : ℕ → List ℕ → Type 0
InOrder last [] = Unit {0}
InOrder last (now ∷ ts) = (last ≤ now) × InOrder now ts

-- A window whose limit is on follows the history; one whose limit is off is not used.
pub data Follows (window_ns : ℕ) (limit : ℤ) (last : ℕ) (h : List ℕ) (w : WindowCounter)
    : Type 0 where
  off : positive limit ≡ false → Follows window_ns limit last h w
  on :
      positive limit ≡ true
      → (i : ℕ) → window_ns * i ≤ last
      → Tracks window_ns i h w
      → Follows window_ns limit last h w

module _ (window_ns : ℕ) (positive_ns : 0 < window_ns) where
  check_window-window :
      (limit : ℤ) (now : ℕ) (w : WindowCounter)
      → positive limit ≡ true
      → (check_window limit window_ns now w).0 ≡ advance w now window_ns
  unfolding check_window estimate_count
  check_window-window limit now w e = rw e (ground arith)

  -- The check of one window follows the rule.
  check_window-admits :
      (limit : ℤ) (last now : ℕ) (h : List ℕ) (w : WindowCounter)
      → last ≤ now
      → Follows window_ns limit last h w
      → is_some (check_window limit window_ns now w).1 ≡ not (admits window_ns limit h now)
  unfolding check_window admits
  check_window-admits limit last now h w le (off e) = rw e
  check_window-admits (pos n) last now h w le (on e i start t) =
      rw e (ground (arith, estimate_count-sliding window_ns i now h w positive_ns (omega arith) t))
  check_window-admits (negsuc n) last now h w le (on e i start t) = absurd (ground arith)

  -- It leaves the window in step with the history, also if a request is then counted.
  check_window-Follows :
      (limit : ℤ) (last now : ℕ) (h : List ℕ) (w : WindowCounter)
      → last ≤ now
      → Follows window_ns limit last h w
      → Follows window_ns limit now h (check_window limit window_ns now w).0
        × Follows window_ns limit now (now ∷ h) (bump limit (check_window limit window_ns now w).0)
  unfolding bump
  check_window-Follows limit last now h w le (off e) = (off e, off e)
  check_window-Follows limit last now h w le (on e i start t) =
      let moved = advance-Tracks window_ns i now h w positive_ns (omega arith) t in
      let here : window_ns * (now / window_ns) ≤ now = mul-div-le now window_ns in
      rw (check_window-window limit now w e, e)
        (
          on e (now / window_ns) here moved,
          on e (now / window_ns) here (count-Tracks window_ns now h _ moved),
        )

-- Both windows of a key.
pub record KeyFollows (rps rpm : ℤ) (last : ℕ) (h : List ℕ) (ks : KeyState) : Type 0 where
  pub by_sec : Follows sec_window_ns rps last h ks.sec
  pub by_min : Follows min_window_ns rpm last h ks.min

Follows-later :
    (window_ns : ℕ) (limit : ℤ) (last now : ℕ) (h : List ℕ) (w : WindowCounter)
    → last ≤ now
    → Follows window_ns limit last h w
    → Follows window_ns limit now h w
Follows-later window_ns limit last now h w le (off e) = off e
Follows-later window_ns limit last now h w le (on e i start t) = on e i (omega arith) t

-- The history after one call.
abbrev noted : Option RateError → ℕ → List ℕ → List ℕ
noted e now h = if is_some e then h else now ∷ h

-- The step once both checks are made, from what each of them decided (`sec_ok`, `min_ok`).
settle-KeyFollows :
    (rps rpm : ℤ) (now : ℕ) (h : List ℕ) (ks : KeyState) (sec_ok min_ok : Bool)
    (s m : WindowCounter × Option RateError)
    → is_some s.1 ≡ not sec_ok
    → is_some m.1 ≡ not min_ok
    → Follows sec_window_ns rps now h s.0 × Follows sec_window_ns rps now (now ∷ h) (bump rps s.0)
    → Follows min_window_ns rpm now h m.0 × Follows min_window_ns rpm now (now ∷ h) (bump rpm m.0)
    → Follows min_window_ns rpm now h ks.min
    → (is_some (settle rps rpm ks s m).1 ≡ not (sec_ok && min_ok))
      × KeyFollows rps rpm now (noted (settle rps rpm ks s m).1 now h) (settle rps rpm ks s m).0
unfolding settle
settle-KeyFollows rps rpm now h ks sec_ok min_ok (sec, some e) m p q fs fm old =
    (ground arith, record { by_sec = fs.0; by_min = old })
settle-KeyFollows rps rpm now h ks sec_ok min_ok (sec, none) (min, some e) p q fs fm old =
    (ground arith, record { by_sec = fs.0; by_min = fm.0 })
settle-KeyFollows rps rpm now h ks sec_ok min_ok (sec, none) (min, none) p q fs fm old =
    (ground arith, record { by_sec = fs.1; by_min = fm.1 })

-- One call decides as the rule does, and both windows stay in step with the history.
allow_key-KeyFollows :
    (rps rpm : ℤ) (last now : ℕ) (h : List ℕ) (ks : KeyState)
    → last ≤ now
    → KeyFollows rps rpm last h ks
    → (is_some (allow_key rps rpm now ks).1
        ≡ not (admits sec_window_ns rps h now && admits min_window_ns rpm h now))
      × KeyFollows rps rpm now
          (noted (allow_key rps rpm now ks).1 now h)
          (allow_key rps rpm now ks).0
unfolding allow_key
allow_key-KeyFollows rps rpm last now h ks le f =
    settle-KeyFollows rps rpm now h ks _ _ _ _
      (check_window-admits sec_window_ns (omega arith) rps last now h ks.sec le f.by_sec)
      (check_window-admits min_window_ns (omega arith) rpm last now h ks.min le f.by_min)
      (check_window-Follows sec_window_ns (omega arith) rps last now h ks.sec le f.by_sec)
      (check_window-Follows min_window_ns (omega arith) rpm last now h ks.min le f.by_min)
      (Follows-later min_window_ns rpm last now h ks.min le f.by_min)

noted_rule :
    (e : Option RateError) (ok : Bool) (now : ℕ) (h : List ℕ)
    → is_some e ≡ not ok
    → noted e now h ≡ (if ok then now ∷ h else h)
noted_rule none ok now h p = ground arith
noted_rule (some e) ok now h p = ground arith

allow_run-sliding :
    (rps rpm : ℤ) (last : ℕ) (ts h : List ℕ) (ks : KeyState)
    → InOrder last ts
    → KeyFollows rps rpm last h ks
    → allow_run rps rpm ks h ts ≡ sliding_run sec_window_ns min_window_ns rps rpm h ts
unfolding allow_run sliding_run
allow_run-sliding rps rpm last [] h ks o f = refl
allow_run-sliding rps rpm last (now ∷ ts) h ks o f =
    let (decides, next) = allow_key-KeyFollows rps rpm last now h ks o.0 f in
    let same = noted_rule _ _ now h decides in
    allow_run-sliding rps rpm now ts _ _ o.1 next ∙ rw same

fresh-Follows : (window_ns : ℕ) (limit : ℤ) → Follows window_ns limit 0 [] fresh
fresh-Follows window_ns limit = elim (Bool-cases (positive limit)) [
  | inl e ↦
      on e 0 (omega arith) (record { start = omega arith; curr = refl; prev = refl; past = tt })
  | inr e ↦ off e
]

-- Over a run of calls for one key with fixed limits, whose clock never falls, `Allow` admits exactly
-- the requests that the sliding window rule admits on the history of admitted requests, for both
-- windows at once; the two counters per window lose nothing that the rule needs.
pub allow_run-sliding_run :
    (rps rpm : ℤ) (ts : List ℕ)
    → InOrder 0 ts
    → allow_run rps rpm fresh_key [] ts ≡ sliding_run sec_window_ns min_window_ns rps rpm [] ts
allow_run-sliding_run rps rpm ts o =
    allow_run-sliding rps rpm 0 ts [] fresh_key o (record {
      by_sec = fresh-Follows sec_window_ns rps;
      by_min = fresh-Follows min_window_ns rpm;
    })
