-- ===== src/Admin/Created.antt =====
-- The key that `handleCreateKey` hands to the store.
use rein.Base.{
  ℕ, ◌+◌, ◌*◌, ◌/◌, ◌%◌, ◌≡◌, ◌≤◌, ◌<◌, refl, true, false, ◌&&◌, ◌||◌, leb, [], ◌∷◌, ◌++◌, Option,
  none, some, negative, Text, bytes, text_eq, trim_space, length, ◌⊎◌, inl, inr, arith,
  Option-cases, All, cut_prefix-append, some_inj,
}
use mathlib.Core.Path.{subst}
use rein.Base.Try.{done, >>=-eq-done, done_inj}
use rein.Base.Float.{Float}
use rein.Rfc3339.{second}
use rein.Cipher.{Random}
use rein.Keys.{VirtualKey, upstream_openai, upstream_anthropic}
use rein.Admin.{
  CreateBody, KeyStore, refuse_as, generate_id, generate_token, random_hex, encode_hex, hex_char,
  all_hex, valid_id, id_prefix, bad_request, internal_error,
}
use rein.BaseUrl.{validate}
use rein.Admin.Checks.{check_name, create_base_url, create_expires_at, check_create, out_of_hour}
use rein.Admin.Handlers.{World, Library, key_to_create}
use rein.Admin.Bounds.{
  refuse_as_done, check_name_bounds, create_expires_at_bounds, create_expires_at_read,
  create_base_url_bounds, check_create-IsChecked,
}

abbrev IsByte : ℕ → Type 0
IsByte b = b < 256

hex_char_hex :
    (d : ℕ)
    → d < 16
    → ((leb b'a' (hex_char d) && leb (hex_char d) b'f')
        || (leb b'0' (hex_char d) && leb (hex_char d) b'9'))
      ≡ true
hex_char_hex d h = ground arith

all_hex-encode_hex : (s : Text) → All IsByte s → all_hex (encode_hex s) ≡ true
unfolding all_hex encode_hex
all_hex-encode_hex [] h = refl
all_hex-encode_hex (b ∷ s) (lt, h) =
    rw (hex_char_hex (b / 16) (omega arith), hex_char_hex (b % 16) (omega arith))
      (all_hex-encode_hex s h)

length-encode_hex : (s : Text) → length (encode_hex s) ≡ length s * 2
unfolding encode_hex
length-encode_hex [] = omega arith
length-encode_hex (b ∷ s) = omega (arith, length-encode_hex s)

-- Every id that is generated from eight bytes passes the check of the path parameter.
pub valid_id-generate_id :
    (rand : Random) (id : Text)
    → ((b : Text) → rand 8 ≡ some b → (length b ≡ 8) × All IsByte b)
    → generate_id rand ≡ some id
    → valid_id id ≡ true
unfolding generate_id random_hex valid_id
valid_id-generate_id rand id drawn e = elim (Option-cases (rand 8)) [
  | inl unread ↦ absurd (ground (arith, unread))
  | inr (b, read) ↦
      let (size, all) = drawn b read in
      let same : id_prefix ++ encode_hex b ≡ id = some_inj (rw (read, random_hex) at e) in
      let len : length (encode_hex b) ≡ 16 = omega (arith, length-encode_hex b) in
      rw
        (
          ← same,
          cut_prefix-append id_prefix (encode_hex b),
          valid_id,
          all_hex-encode_hex b all,
          len,
        )
        refl
]

-- What holds of a key when the store gets it.
pub record IsSane {F : Type 0} ⦃fl : Float F⦄ (now : ℕ) (k : VirtualKey F) : Type 0 where
  pub named : (text_eq k.name [] ≡ false) × (length k.name ≤ 100)
  pub upstream : (k.upstream ≡ upstream_openai) ⊎ (k.upstream ≡ upstream_anthropic)
  pub upstream_key : text_eq (trim_space k.upstream_key) [] ≡ false
  pub budgets :
      (fl.less k.daily_budget_usd fl.zero_usd ≡ false)
      × (fl.less k.month_budget_usd fl.zero_usd ≡ false)
  pub rates : (negative k.rps_limit ≡ false) × (negative k.rpm_limit ≡ false)
  pub concurrent : negative k.max_concurrent ≡ false
  pub timeout : out_of_hour k.upstream_timeout_seconds ≡ false
  pub base : (k.upstream_base_url ≡ []) ⊎ (k.upstream ≡ upstream_openai)
  pub ahead : (t : ℕ) → k.expires_at ≡ some t → now + second < t
  pub active : k.revoked_at ≡ none

-- The key has what the body asks for, field by field.
pub record AsAsked {F : Type 0} {Ip : Type 0} (lib : Library Ip) (later : ℕ) (b : CreateBody F)
    (k : VirtualKey F) : Type 0 where
  pub name : k.name ≡ trim_space b.name
  pub upstream : k.upstream ≡ b.upstream
  pub upstream_key : k.upstream_key ≡ b.upstream_key
  pub daily_budget_usd : k.daily_budget_usd ≡ b.daily_budget_usd
  pub month_budget_usd : k.month_budget_usd ≡ b.month_budget_usd
  pub rps_limit : k.rps_limit ≡ b.rps_limit
  pub rpm_limit : k.rpm_limit ≡ b.rpm_limit
  pub max_concurrent : k.max_concurrent ≡ b.max_concurrent
  pub upstream_timeout_seconds : k.upstream_timeout_seconds ≡ b.upstream_timeout_seconds
  pub upstream_base_url :
      ((k.upstream_base_url ≡ []) × (text_eq (trim_space b.upstream_base_url) [] ≡ true))
      ⊎ (validate lib.net b.upstream_base_url ≡ done k.upstream_base_url)
  pub expires_at :
      ((k.expires_at ≡ none) × (text_eq (trim_space b.expires_at) [] ≡ true))
      ⊎ ((t : ℕ) × (lib.clock.parse (trim_space b.expires_at) ≡ some t) × (k.expires_at ≡ some t))
  pub created_at : k.created_at ≡ later

module _ {F : Type 0} {S : Type 0} {Ip : Type 0} ⦃fl : Float F⦄ (ks : KeyStore S F)
    (lib : Library Ip) where
  -- A body that passes every check asks for a key with a name of 1 to 100 bytes, a supported upstream,
  -- an upstream key that is not blank, budgets, rates and a concurrency cap that are not negative, a
  -- timeout of 0 to 3600 seconds, a base URL only for OpenAI, an end more than a second ahead if it
  -- has one, no revocation, the id and the token that were generated, and every other field as in
  -- the body.
  pub key_to_create-IsSane :
      (w : World) (body : Option (CreateBody F)) (k : VirtualKey F)
      → key_to_create ks lib w body ≡ done k
      → IsSane w.now k
        × (generate_id w.id_rand ≡ some k.id)
        × (generate_token w.token_rand ≡ some k.token)
        × ((b : CreateBody F) × (body ≡ some b) × AsAsked lib w.later b k)
  unfolding key_to_create
  key_to_create-IsSane w body k e =
      let (b, given, e1) =
        >>=-eq-done (refuse_as (bad_request (bytes "invalid json body")) body) _ e in
      let (name, n, e2) = >>=-eq-done (check_name (bytes "name is required") b.name) _ e1 in
      let (x, checked, e3) = >>=-eq-done (check_create b) _ e2 in
      let (base, u, e4) =
        >>=-eq-done (create_base_url lib.net lib.url_message b.upstream b.upstream_base_url) _ e3 in
      let (expires, t, e5) = >>=-eq-done (create_expires_at lib.clock w.now b.expires_at) _ e4 in
      let (id, i, e6) = >>=-eq-done (refuse_as internal_error (generate_id w.id_rand)) _ e5 in
      let (token, o, e7) =
        >>=-eq-done (refuse_as internal_error (generate_token w.token_rand)) _ e6 in
      let (trimmed, full, short) = check_name_bounds _ b.name name n in
      let c = check_create-IsChecked b checked in
      subst
        (λ k.
          IsSane w.now k
          × (generate_id w.id_rand ≡ some k.id)
          × (generate_token w.token_rand ≡ some k.token)
          × ((b : CreateBody F) × (body ≡ some b) × AsAsked lib w.later b k))
        (done_inj e7)
        (
          record {
            named = (full, short);
            upstream = c.upstream;
            upstream_key = c.upstream_key;
            budgets = c.budgets;
            rates = c.rates;
            concurrent = c.concurrent;
            timeout = c.timeout;
            base =
                elim (create_base_url_bounds lib.net lib.url_message b.upstream b.upstream_base_url
                  base u) [ inl none_ ↦ inl none_.0 | inr (openai, _) ↦ inr openai ];
            ahead =
                λ u there. create_expires_at_bounds lib.clock w.now b.expires_at expires t u there;
            active = refl;
          },
          refuse_as_done internal_error _ i,
          refuse_as_done internal_error _ o,
          (
            b,
            refuse_as_done _ _ given,
            record {
              name = trimmed;
              upstream = refl;
              upstream_key = refl;
              daily_budget_usd = refl;
              month_budget_usd = refl;
              rps_limit = refl;
              rpm_limit = refl;
              max_concurrent = refl;
              upstream_timeout_seconds = refl;
              upstream_base_url =
                  elim (create_base_url_bounds lib.net lib.url_message b.upstream
                    b.upstream_base_url base u) [
                      | inl none_ ↦ inl none_
                      | inr (_, valid) ↦ inr valid
                    ];
              expires_at = create_expires_at_read lib.clock w.now b.expires_at expires t;
              created_at = refl;
            },
          ),
        )
