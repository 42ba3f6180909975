-- ===== src/Server/Connections.antt =====
-- The counter of connections against the transitions that net/http reported.
use rein.Base.{
  ℕ, suc, ◌≡◌, refl, ap, ◌∙◌, Bool, true, false, ◌==◌, ==_iff, List, [], ◌∷◌, if◌then◌else◌, pos,
  length, arith, inl, inr, Bool-cases,
}
use rein.Server.{
  ConnState, state_new, state_active, state_idle, state_closed, state_hijacked, Tracker,
  new_tracker, member, remove, leave, observe, inflight,
}

-- A transition of a connection.
abbrev pub Event : Type 0
Event = ℕ × ConnState

unfoldable pub observe_all : Tracker → List Event → Tracker
observe_all t [] = t
observe_all t ((c, s) ∷ es) = observe_all (observe t c s) es

-- Whether a connection's last transition that counts was into the active state.
abbrev pub enters : ConnState → Bool → Bool
enters state_active b = true
enters state_new b = b
enters state_idle b = false
enters state_closed b = false
enters state_hijacked b = false

unfoldable pub is_active : ℕ → Bool → List Event → Bool
is_active c b [] = b
is_active c b ((d, s) ∷ es) = is_active c (if d == c then enters s b else b) es

-- Each connection once.
abbrev pub Nodup : List ℕ → Type 0
Nodup [] = Unit
Nodup (c ∷ l) = (member c l ≡ false) × Nodup l

member-remove : (c d : ℕ) (l : List ℕ) → (c == d) ≡ false → member c (remove d l) ≡ member c l
unfolding member remove
member-remove c d [] h = refl
member-remove c d (e ∷ l) h = ground (arith, member-remove c d l)

member-remove_gone : (c d : ℕ) (l : List ℕ) → member c l ≡ false → member c (remove d l) ≡ false
unfolding member remove
member-remove_gone c d [] h = refl
member-remove_gone c d (e ∷ l) h = ground (arith, member-remove_gone c d l)

member-remove_self : (c : ℕ) (l : List ℕ) → Nodup l → member c (remove c l) ≡ false
unfolding member remove
member-remove_self c [] n = refl
member-remove_self c (d ∷ l) (fresh, n) = elim (Bool-cases (d == c)) [
  | inl own ↦ let same : d ≡ c = (==_iff d c).0 own in rw own (rw (← same) fresh)
  | inr other ↦ rw (other, other) (member-remove_self c l n)
]

remove-Nodup : (c : ℕ) (l : List ℕ) → Nodup l → Nodup (remove c l)
unfolding remove
remove-Nodup c [] n = tt
remove-Nodup c (d ∷ l) (fresh, n) = elim (Bool-cases (d == c)) [
  | inl own ↦ rw own n
  | inr other ↦ rw other (member-remove_gone d c l fresh, remove-Nodup c l n)
]

length-remove : (c : ℕ) (l : List ℕ) → member c l ≡ true → suc (length (remove c l)) ≡ length l
unfolding member remove
length-remove c [] h = ground arith
length-remove c (d ∷ l) h = ground (arith, length-remove c l)

-- The tracker has each connection once, and counts them.
pub record IsCounted (t : Tracker) : Type 0 where
  pub once : Nodup t.active
  pub counted : t.count ≡ pos (length t.active)

leave-IsCounted : (t : Tracker) (c : ℕ) → IsCounted t → IsCounted (leave t c)
leave-IsCounted t c v = elim (Bool-cases (member c t.active)) [
  | inr out ↦ rw out v
  | inl in_ ↦ rw in_ (record {
    once = remove-Nodup c t.active v.once;
    counted = rw v.counted (ground (arith, length-remove c t.active));
  })
]

observe-IsCounted : (t : Tracker) (c : ℕ) (s : ConnState) → IsCounted t → IsCounted (observe t c s)
unfolding observe
observe-IsCounted t c state_active v = elim (Bool-cases (member c t.active)) [
  | inl in_ ↦ rw in_ v
  | inr out ↦ rw out (record { once = (out, v.once); counted = rw v.counted (ground arith) })
]
observe-IsCounted t c state_idle v = leave-IsCounted t c v
observe-IsCounted t c state_closed v = leave-IsCounted t c v
observe-IsCounted t c state_hijacked v = leave-IsCounted t c v
observe-IsCounted t c state_new v = v

member-leave :
    (t : Tracker) (c d : ℕ)
    → IsCounted t
    → member c (leave t d).active ≡ (if d == c then false else member c t.active)
member-leave t c d v = elim (Bool-cases (member d t.active)) [
  | inr out ↦ rw out (ground (arith, out))
  | inl in_ ↦ rw in_ (elim (Bool-cases (d == c)) [
    | inl own ↦
        let same : d ≡ c = (==_iff d c).0 own in
        rw (own, same) (member-remove_self c t.active v.once)
    | inr other ↦ rw other (member-remove c d t.active (ground arith))
  ])
]

member-observe :
    (t : Tracker) (c d : ℕ) (s : ConnState)
    → IsCounted t
    → member c (observe t d s).active
      ≡ (if d == c then enters s (member c t.active) else member c t.active)
unfolding observe
member-observe t c d state_active v = elim (Bool-cases (member d t.active)) [
  | inl in_ ↦ rw in_ (ground (arith, in_))
  | inr out ↦ rw out (unfold member in ground arith)
]
member-observe t c d state_idle v = member-leave t c d v
member-observe t c d state_closed v = member-leave t c d v
member-observe t c d state_hijacked v = member-leave t c d v
member-observe t c d state_new v = ground arith

observe_all-IsCounted :
    (t : Tracker) (es : List Event) (c : ℕ)
    → IsCounted t
    → IsCounted (observe_all t es)
      × (member c (observe_all t es).active ≡ is_active c (member c t.active) es)
unfolding observe_all is_active
observe_all-IsCounted t [] c v = (v, refl)
observe_all-IsCounted t ((d, s) ∷ es) c v =
    let (w, e) = observe_all-IsCounted (observe t d s) es c (observe-IsCounted t d s v) in
    (w, e ∙ ap (λ b. is_active c b es) (member-observe t c d s v))

-- After any transitions the count is that of a list in which a connection stands exactly if the last
-- of its transitions other than the first was into the active state, and stands there once. So the
-- count is never negative, and a connection that is active again and again counts once.
pub inflight-observe_all :
    (es : List Event)
    → (l : List ℕ) × (inflight (observe_all new_tracker es) ≡ pos (length l))
      × Nodup l
      × ((c : ℕ) → member c l ≡ is_active c false es)
inflight-observe_all es =
    let start : IsCounted new_tracker = record { once = tt; counted = refl } in
    let v = (observe_all-IsCounted new_tracker es 0 start).0 in
    (
      (observe_all new_tracker es).active,
      v.counted,
      v.once,
      λ c. unfold member in (observe_all-IsCounted new_tracker es c start).1,
    )
