-- ===== src/Rates/Store.antt =====
-- The limiter as a whole: the map of keys, and the Retry-After value of a refusal.
use rein.Base.{
  ℕ, ◌+◌, ◌/◌, ◌≤◌, ◌≡◌, refl, true, false, ◌&&◌, ◌||◌, not, if◌then◌else◌, arith, ℤ, positive,
  Option, none, some, Bool-cases, inl, inr, ◌-◌, Text, text_eq, lookup, lookup-insert, get_or,
}
use rein.Rates.{
  RateError, retry_after_error, rate_limited, other_error, new_retry_after_error, KeyState,
  check_window, settle, allow_key, fresh_key, Memory, allow, second,
}
use rein.Rates.Window.{WindowCounter, estimate_count}

-- An error that carries a Retry-After value between 1 and 60 seconds.
abbrev pub InRange : Option RateError → Type 0
InRange none = Unit {0}
InRange (some (retry_after_error s)) = (1 ≤ s) × (s ≤ 60)
InRange (some rate_limited) = ⊥
InRange (some other_error) = ⊥

new_retry_after_error-InRange : (s : ℕ) → InRange (some (new_retry_after_error s))
unfolding new_retry_after_error
new_retry_after_error-InRange s = ground arith

check_window-InRange :
    (limit : ℤ) (window_ns now : ℕ) (w : WindowCounter)
    → InRange (check_window limit window_ns now w).1
unfolding check_window
check_window-InRange limit window_ns now w =
    let (w', est) = estimate_count w now window_ns in
    ground (arith, new_retry_after_error-InRange ((w'.window_start + window_ns - now) / second + 1))

settle-InRange :
    (rps rpm : ℤ) (ks : KeyState) (s m : WindowCounter × Option RateError)
    → InRange s.1
    → InRange m.1
    → InRange (settle rps rpm ks s m).1
unfolding settle
settle-InRange rps rpm ks (sec, some e) m p q = p
settle-InRange rps rpm ks (sec, none) (min, some e) p q = q
settle-InRange rps rpm ks (sec, none) (min, none) p q = tt

allow_key-InRange : (rps rpm : ℤ) (now : ℕ) (ks : KeyState) → InRange (allow_key rps rpm now ks).1
unfolding allow_key
allow_key-InRange rps rpm now ks =
    settle-InRange rps rpm ks _ _ (check_window-InRange rps _ now ks.sec)
      (check_window-InRange rpm _ now ks.min)

-- Whatever the counters and the clock, an error of the limiter carries a Retry-After value between 1
-- and 60 seconds.
pub allow-InRange :
    (m : Memory) (now : ℕ) (key_id : Text) (rps rpm : ℤ) → InRange (allow m now key_id rps rpm).1
unfolding allow
allow-InRange m now key_id rps rpm = elim (Bool-cases (not (positive rps) && not (positive rpm))) [
  | inl off ↦ rw off tt
  | inr on ↦ rw on (allow_key-InRange rps rpm now _)
]

-- With a limit per second or per minute that is positive, a call moves the counters of its own key
-- and returns as `allow_key` says, and moves those of no other key.
pub lookup-allow :
    (m : Memory) (now : ℕ) (key_id j : Text) (rps rpm : ℤ)
    → (positive rps || positive rpm) ≡ true
    → let step = allow_key rps rpm now (get_or (lookup key_id m) fresh_key) in
      (lookup j (allow m now key_id rps rpm).0
        ≡ (if text_eq key_id j then some step.0 else lookup j m))
      × ((allow m now key_id rps rpm).1 ≡ step.1)
unfolding allow
lookup-allow m now key_id j rps rpm p =
    let on : (not (positive rps) && not (positive rpm)) ≡ false = ground arith in
    rw on (lookup-insert key_id j _ m, refl)
