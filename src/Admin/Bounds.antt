-- ===== src/Admin/Bounds.antt =====
-- What the checks establish of a key that is about to be stored.
use rein.Base.{
  ℕ, ◌+◌, ◌≡◌, ◌≤◌, ◌<◌, refl, ap, sym, ◌∙◌, Bool, true, false, not, ◌&&◌, ltb, [], Option, none,
  some, negative, Text, text_eq, text_eq_iff, trim_space, length, ◌⊎◌, inl, inr, arith, Bool-cases,
  Option-cases,
}
use rein.Base.Try.{done, >>=-eq-done, done_inj, Try-cases}
use rein.Base.Float.{Float}
use rein.Rfc3339.{Rfc3339, second}
use rein.BaseUrl.{Net, UrlCode, validate}
use rein.Keys.{upstream_openai, upstream_anthropic}
use rein.Admin.{Response, CreateBody, guard, refuse_as, bad_request}
use rein.Admin.Checks.{
  check_name, create_base_url, check_base_url, create_expires_at, check_create, parse_expires_at,
  out_of_hour,
}

supported : (a b : Bool) → (not a && not b) ≡ false → (a ≡ true) ⊎ (b ≡ true)
supported true b e = inl refl
supported false true e = inr refl
supported false false e = absurd (ground arith)

module _ {F : Type 0} where
  guard_done : (bad : Bool) (r : Response F) {x : Unit {0}} → guard bad r ≡ done x → bad ≡ false
  guard_done true r e = absurd (ground arith)
  guard_done false r e = refl

  pub refuse_as_done :
      {A : Type 0} (r : Response F) (o : Option A) {a : A} → refuse_as r o ≡ done a → o ≡ some a
  refuse_as_done r none e = absurd (ground arith)
  refuse_as_done r (some b) e = ap some (done_inj e)

  pub check_name_bounds :
      (blank raw name : Text)
      → check_name {F = F} blank raw ≡ done name
      → (name ≡ trim_space raw) × (text_eq name [] ≡ false) × (length name ≤ 100)
  unfolding check_name
  check_name_bounds blank raw name e =
      let (x, given, e1) =
        >>=-eq-done (guard (text_eq (trim_space raw) []) (bad_request blank)) _ e in
      let (y, short, e2) = >>=-eq-done (guard (ltb 100 (length (trim_space raw))) _) _ e1 in
      let same : trim_space raw ≡ name = done_inj e2 in
      let len = guard_done _ _ short in
      (sym same, rw (← same) (guard_done _ _ given), rw (← same) (ground (arith, len)))

  -- The expiry is that of the body.
  pub create_expires_at_read :
      (clock : Rfc3339) (now : ℕ) (raw : Text) (e : Option ℕ)
      → create_expires_at {F = F} clock now raw ≡ done e
      → ((e ≡ none) × (text_eq (trim_space raw) [] ≡ true))
        ⊎ ((t : ℕ) × (clock.parse (trim_space raw) ≡ some t) × (e ≡ some t))
  unfolding create_expires_at parse_expires_at
  create_expires_at_read clock now raw e h = elim (Bool-cases (text_eq (trim_space raw) [])) [
    | inl absent ↦ inl (sym (done_inj (rw absent at h)), absent)
    | inr given ↦ elim (Option-cases (clock.parse (trim_space raw))) [
      | inl bad ↦ absurd (ground arith)
      | inr (u, read) ↦ elim (Bool-cases (ltb (now + second) u)) [
        | inr past ↦ absurd (ground arith)
        | inl ahead ↦ inr (u, read, sym (done_inj (rw (given, read, parse_expires_at, ahead) at h)))
      ]
    ]
  ]

  -- An expiry is more than a second ahead of the clock.
  pub create_expires_at_bounds :
      (clock : Rfc3339) (now : ℕ) (raw : Text) (e : Option ℕ)
      → create_expires_at {F = F} clock now raw ≡ done e
      → (t : ℕ) → e ≡ some t
      → now + second < t
  unfolding create_expires_at parse_expires_at
  create_expires_at_bounds clock now raw e h t there =
      elim (Bool-cases (text_eq (trim_space raw) [])) [
        | inl absent ↦
            let same : none ≡ e = done_inj (rw absent at h) in absurd (ground (arith, same, there))
        | inr given ↦ elim (Option-cases (clock.parse (trim_space raw))) [
          | inl bad ↦ absurd (ground arith)
          | inr (u, read) ↦ elim (Bool-cases (ltb (now + second) u)) [
            | inr past ↦ absurd (ground arith)
            | inl ahead ↦
                let same : some u ≡ e = done_inj (rw (given, read, parse_expires_at, ahead) at h) in
                ground (arith, same, there)
          ]
        ]
      ]

  -- A base URL is stored only for OpenAI, as the validator gives it.
  pub create_base_url_bounds :
      {Ip : Type 0} (net : Net Ip) (message : UrlCode → Text) (upstream raw base : Text)
      → create_base_url {F = F} net message upstream raw ≡ done base
      → ((base ≡ []) × (text_eq (trim_space raw) [] ≡ true))
        ⊎ ((upstream ≡ upstream_openai) × (validate net raw ≡ done base))
  unfolding create_base_url check_base_url
  create_base_url_bounds net message upstream raw base e =
      elim (Bool-cases (text_eq (trim_space raw) [])) [
        | inl absent ↦ inl (sym (done_inj (rw absent at e)), absent)
        | inr given ↦ elim (Bool-cases (text_eq upstream upstream_openai)) [
          | inr other ↦ absurd (ground arith)
          | inl openai ↦ elim (Try-cases (validate net raw)) [
            | inr (code, bad) ↦ absurd (ground arith)
            | inl (c, good) ↦
                let same : c ≡ base = done_inj (rw (given, openai, good) at e) in
                inr ((text_eq_iff _ _).0 openai, good ∙ ap done same)
          ]
        ]
      ]

  module _ ⦃fl : Float F⦄ where
    open fl use {zero_usd, less}

    pub record IsChecked (b : CreateBody F) : Type 0 where
      pub upstream : (b.upstream ≡ upstream_openai) ⊎ (b.upstream ≡ upstream_anthropic)
      pub upstream_key : text_eq (trim_space b.upstream_key) [] ≡ false
      pub budgets :
          (less b.daily_budget_usd zero_usd ≡ false) × (less b.month_budget_usd zero_usd ≡ false)
      pub rates : (negative b.rps_limit ≡ false) × (negative b.rpm_limit ≡ false)
      pub concurrent : negative b.max_concurrent ≡ false
      pub timeout : out_of_hour b.upstream_timeout_seconds ≡ false

    pub check_create-IsChecked :
        (b : CreateBody F) {x : Unit {0}} → check_create b ≡ done x → IsChecked b
    unfolding check_create
    check_create-IsChecked b e = record {
      upstream =
          elim (supported (text_eq b.upstream upstream_openai)
            (text_eq b.upstream upstream_anthropic) (ground arith)) [
              | inl openai ↦ inl ((text_eq_iff _ _).0 openai)
              | inr anthropic ↦ inr ((text_eq_iff _ _).0 anthropic)
            ];
      upstream_key = ground arith;
      budgets = (ground arith, ground arith);
      rates = (ground arith, ground arith);
      concurrent = ground arith;
      timeout = ground arith;
    }
