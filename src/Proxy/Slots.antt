-- ===== src/Proxy/Slots.antt =====
-- The handler and the concurrency cap: what a request takes it gives back.
use rein.Base.{
  [], ℕ, ◌+◌, ◌≡◌, true, ◌&&◌, Option, none, some, if◌then◌else◌, ℤ, pos, negsuc, positive, Text,
  text_eq, text_eq_iff, arith, Bool-cases, Option-cases, inl, inr,
}
use rein.Base.Float.{Float}
use rein.Concurrency.{Memory, acquire, release, in_flight}
use rein.Concurrency.Store.{in_flight-acquire, in_flight-release}
use rein.Keys.{VirtualKey}
use rein.Proxy.{
  Proxy, Request, Response, Outcome, rejected, forwarded, KeyFault, missing_key, invalid_key,
  check_draining, check_kill_switch, resolve_key, check_key, check_budget, check_rates,
  acquire_slot, release_slot, limit, admit_key, admit, serve_http, finish,
  expected_upstream_for_path,
}

-- The slots of a key that are taken.
unfoldable pub slots : Option Memory → Text → ℤ
slots none j = pos 0
slots (some m) j = in_flight m j

module _ (counts : Text → ℕ) where
  acquire-counts :
      (m : Memory) (id j : Text) (cap : ℤ)
      → ((i : Text) → in_flight m i ≡ pos (counts i))
      → positive cap ≡ true
      → in_flight (acquire m id cap).0 j
        ≡ pos (counts j + (if (acquire m id cap).1 && text_eq id j then 1 else 0))
  acquire-counts m id j (pos n) c p =
      ground (arith, in_flight-acquire m id j (counts id) n (c id), c j, text_eq_iff id j)
  acquire-counts m id j (negsuc n) c p = absurd (ground arith)

  release-counts :
      (m : Memory) (id j : Text) (cap : ℤ)
      → ((i : Text) → in_flight m i ≡ pos (counts i + (if text_eq id i then 1 else 0)))
      → positive cap ≡ true
      → in_flight (release m id cap) j ≡ pos (counts j)
  release-counts m id j (pos n) c p = ground (
    arith,
    in_flight-release m id j (counts id) n,
    c id,
    c j,
    text_eq_iff id id,
    text_eq_iff id j,
  )
  release-counts m id j (negsuc n) c p = absurd (ground arith)

module _ {F : Type 0} where
  -- The slots of a key that the outcome holds.
  abbrev pub held : Outcome F → Text → ℕ
  held (rejected w) j = 0
  held (forwarded want none) j = 0
  held (forwarded want (some k)) j = if positive k.max_concurrent && text_eq k.id j then 1 else 0

  -- Over the counts that stood before, the outcome holds its slots, and gives them back at its end.
  pub record IsBalanced (counts : Text → ℕ) (s : Proxy F × Outcome F) : Type 0 where
    pub during : (j : Text) → slots s.0.concurrency j ≡ pos (counts j + held s.1 j)
    pub ended : (j : Text) → slots (finish s.0 s.1).concurrency j ≡ pos (counts j)

  module _ (counts : Text → ℕ) where
    unchanged :
        (p : Proxy F) (w : Response)
        → ((j : Text) → slots p.concurrency j ≡ pos (counts j))
        → IsBalanced counts (p, rejected w)
    unfolding finish
    unchanged p w c = record { during = λ j. ground (arith, c j); ended = c }

    -- What the last guard leaves, with the outcome that it makes.
    after_slot :
        (p : Proxy F) (want : Text) (k : VirtualKey F) (m : Memory)
        → ((j : Text) → in_flight m j ≡ pos (counts j))
        → let (c', full) = acquire_slot (some m) k in
          IsBalanced counts (
            record p { concurrency = c' },
            elim full [ some w ↦ rejected w | none ↦ forwarded want (some k) ],
          )
    unfolding acquire_slot finish release_slot slots
    after_slot p want k m c = elim (Bool-cases (positive k.max_concurrent)) [
      | inr off ↦
          rw (off, acquire_slot)
            (record {
              during = λ j. ground (arith, c j, off);
              ended = λ j. rw (off, release_slot) (c j);
            })
      | inl on ↦
          let taken = λ (j : Text). acquire-counts counts m k.id j k.max_concurrent c on in
          elim (Bool-cases (acquire m k.id k.max_concurrent).1) [
            | inl got ↦
                rw (on, got)
                  (record {
                    during = λ j. rw on (rw got at taken j);
                    ended = λ j. rw on (
                        release-counts counts _ k.id j k.max_concurrent (λ i. rw got at taken i)
                          on);
                  })
            | inr full ↦
                rw (on, full)
                  (record {
                    during = λ j. rw full at taken j;
                    ended = λ j. ground (arith, rw full at taken j);
                  })
          ]
    ]

module _ {F : Type 0} ⦃fl : Float F⦄ (counts : Text → ℕ) (p : Proxy F) (r : Request) (m : Memory)
    (e : p.concurrency ≡ some m) (c : (j : Text) → in_flight m j ≡ pos (counts j)) where
  counted : (j : Text) → slots p.concurrency j ≡ pos (counts j)
  unfolding slots
  counted j = rw e (c j)

  limit-IsBalanced : (want : Text) (k : VirtualKey F) → IsBalanced counts (limit p r want k)
  unfolding limit
  limit-IsBalanced want k = elim (Option-cases (check_rates p.rates r.rates_now k).1) [
    | inr (w, limited) ↦ rw (limited, limit) (unchanged counts (record p { rates = _ }) w counted)
    | inl free ↦ rw (free, limit, e) (after_slot counts (record p { rates = _ }) want k m c)
  ]

  admit_key-IsBalanced : (want : Text) (k : VirtualKey F) → IsBalanced counts (admit_key p r want k)
  unfolding admit_key
  admit_key-IsBalanced want k = elim (Option-cases (check_key k r.expiry_now want)) [
    | inr (w, refused) ↦ rw (refused, admit_key) (unchanged counts p w counted)
    | inl good ↦ elim (Option-cases (check_budget p.meter k)) [
      | inr (w, spent) ↦ rw (good, admit_key, spent) (unchanged counts p w counted)
      | inl within ↦ rw (good, admit_key, within) (limit-IsBalanced want k)
    ]
  ]

  admit-IsBalanced :
      (want : Text) (found : Option KeyFault × Option (VirtualKey F))
      → IsBalanced counts (admit p r want found)
  unfolding admit finish
  admit-IsBalanced want (some missing_key, _) = unchanged counts p _ counted
  admit-IsBalanced want (some invalid_key, _) = unchanged counts p _ counted
  admit-IsBalanced want (none, none) = record {
    during = λ j. ground (arith, counted j);
    ended = counted;
  }
  admit-IsBalanced want (none, some k) = admit_key-IsBalanced want k

  -- Let the cap's store say that `counts j` requests of each key j are in flight. While a request
  -- that the handler forwards for a capped key runs, one more is in flight for that key and none for
  -- any other; for every other outcome none is; and at the end of the handler, whatever the outcome,
  -- the counts are those of before.
  pub serve_http-IsBalanced : IsBalanced counts (serve_http p r)
  unfolding serve_http
  serve_http-IsBalanced = elim (Bool-cases (text_eq (expected_upstream_for_path r.path) [])) [
    | inl unknown ↦ rw unknown (unchanged counts p _ counted)
    | inr known ↦ elim (Option-cases (check_draining p.draining)) [
      | inr (w, drained) ↦ rw (known, drained) (unchanged counts p w counted)
      | inl open_door ↦ elim (Option-cases (check_kill_switch p.kill_switch)) [
        | inr (w, frozen) ↦ rw (known, open_door, frozen) (unchanged counts p w counted)
        | inl live ↦
            rw (known, open_door, live)
              (admit-IsBalanced (expected_upstream_for_path r.path)
                (resolve_key p.store r.authorization))
      ]
    ]
  ]
