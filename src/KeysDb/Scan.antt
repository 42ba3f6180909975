-- ===== src/KeysDb/Scan.antt =====
-- What `scanKey` reads back from a row that the store wrote.
use rein.Base.{
  ℕ, ◌/◌, ◌<◌, ◌≡◌, refl, ap, Option, none, some, is_some, Text, arith, inl, inr, Option-cases,
  Bool-cases,
}
use mathlib.Core.Path.{subst}
use rein.Base.Try.{done}
use rein.Cipher.{Cipher}
use rein.Rfc3339.{Rfc3339, format, second, end_of_years}
use rein.Keys.{VirtualKey, KeyPatch, apply_to}
use rein.KeysDb.{
  StoreError, Row, map_option, parse_column, scan_key, row_of, rewrite, bad_revoked_at,
  bad_expires_at,
}

-- The instant can be written.
abbrev pub IsWritable : Option ℕ → Type 0
IsWritable none = Unit
IsWritable (some t) = t / second < end_of_years

pub parse_column-format :
    (clock : Rfc3339) (e : StoreError) (o : Option ℕ)
    → IsWritable o
    → parse_column clock e (map_option (format clock) o) ≡ done o
unfolding format
parse_column-format clock e none h = refl
parse_column-format clock e (some t) h = rw (clock.parse-format t h) refl

pub parse_column_null :
    (clock : Rfc3339) (e : StoreError) (o : Option Text) (v : Option ℕ)
    → parse_column clock e o ≡ done v
    → is_some o ≡ is_some v
parse_column_null clock e none v h = let same : none ≡ v = ground arith in ap is_some same
parse_column_null clock e (some s) v h = elim (Option-cases (clock.parse s)) [
  | inl bad ↦ absurd (ground arith)
  | inr (t, read) ↦ ground arith
]

module _ {F : Type 0} (cipher : Cipher) (clock : Rfc3339) where
  -- What a row says of its key, whose end can be written.
  pub record Reads (r : Row F) (k : VirtualKey F) : Type 0 where
    pub key : cipher.decrypt r.upstream_key ≡ done k.upstream_key
    pub created : clock.parse r.created_at ≡ some k.created_at
    pub revoked : parse_column clock bad_revoked_at r.revoked_at ≡ done k.revoked_at
    pub expires : parse_column clock bad_expires_at r.expires_at ≡ done k.expires_at
    pub id : r.id ≡ k.id
    pub token : r.token ≡ k.token
    pub name : r.name ≡ k.name
    pub upstream : r.upstream ≡ k.upstream
    pub daily : r.daily_budget_usd ≡ k.daily_budget_usd
    pub month : r.month_budget_usd ≡ k.month_budget_usd
    pub base : r.upstream_base_url ≡ k.upstream_base_url
    pub rps : r.rps_limit ≡ k.rps_limit
    pub rpm : r.rpm_limit ≡ k.rpm_limit
    pub concurrent : r.max_concurrent ≡ k.max_concurrent
    pub timeout : r.upstream_timeout_seconds ≡ k.upstream_timeout_seconds
    pub writable : IsWritable k.expires_at

  pub scan_key-Reads : (r : Row F) (k : VirtualKey F) → Reads r k → scan_key cipher clock r ≡ done k
  unfolding scan_key
  scan_key-Reads r k h =
      rw (h.key, h.created, h.revoked, h.expires)
        (rw
          (
            h.id, h.token, h.name, h.upstream, h.daily, h.month, h.base, h.rps, h.rpm, h.concurrent,
            h.timeout,
          )
          refl)

  pub row_of-Reads :
      (k : VirtualKey F) (enc : Text)
      → cipher.decrypt enc ≡ done k.upstream_key
      → IsWritable (some k.created_at)
      → IsWritable k.expires_at
      → k.revoked_at ≡ none
      → Reads (row_of cipher clock k enc) k
  unfolding row_of format
  row_of-Reads k enc opened created expires active = record {
    key = opened;
    created = clock.parse-format k.created_at created;
    revoked = rw active refl;
    expires = parse_column-format clock bad_expires_at k.expires_at expires;
    id = refl;
    token = refl;
    name = refl;
    upstream = refl;
    daily = refl;
    month = refl;
    base = refl;
    rps = refl;
    rpm = refl;
    concurrent = refl;
    timeout = refl;
    writable = expires;
  }

  -- A key is active in its row exactly if it is in the store.
  pub Reads-active :
      (r : Row F) (k : VirtualKey F) → Reads r k → is_some r.revoked_at ≡ is_some k.revoked_at
  Reads-active r k h = parse_column_null clock bad_revoked_at r.revoked_at k.revoked_at h.revoked

  pub stamp_row-Reads :
      (r : Row F) (k : VirtualKey F) (at : ℕ)
      → IsWritable (some at)
      → Reads r k
      → Reads (record r { revoked_at = some (format clock at) }) (record k { revoked_at = some at })
  stamp_row-Reads r k at w h = record {
    key = h.key;
    created = h.created;
    revoked = parse_column-format clock bad_revoked_at (some at) w;
    expires = h.expires;
    id = h.id;
    token = h.token;
    name = h.name;
    upstream = h.upstream;
    daily = h.daily;
    month = h.month;
    base = h.base;
    rps = h.rps;
    rpm = h.rpm;
    concurrent = h.concurrent;
    timeout = h.timeout;
    writable = h.writable;
  }

  pub rewrite-Reads :
      (r : Row F) (k : VirtualKey F) (p : KeyPatch F)
      → IsWritable (apply_to p k).expires_at
      → Reads r k
      → Reads (rewrite cipher clock (apply_to p k) r) (apply_to p k)
  unfolding apply_to
  rewrite-Reads r k p w h = record {
    key = h.key;
    created = h.created;
    revoked = h.revoked;
    expires = parse_column-format clock bad_expires_at (apply_to p k).expires_at w;
    id = h.id;
    token = h.token;
    name = refl;
    upstream = h.upstream;
    daily = refl;
    month = refl;
    base = refl;
    rps = refl;
    rpm = refl;
    concurrent = refl;
    timeout = refl;
    writable = w;
  }

-- A patch leaves a key an end that can be written.
pub apply_to-IsWritable :
    {F : Type 0} (p : KeyPatch F) (k : VirtualKey F)
    → IsWritable p.expires_at
    → IsWritable k.expires_at
    → IsWritable (apply_to p k).expires_at
unfolding apply_to
apply_to-IsWritable p k w h = elim (Bool-cases p.clear_expires_at) [
  | inl clears ↦ rw clears tt
  | inr keeps ↦ elim (Option-cases p.expires_at) [
    | inl unset ↦ rw (keeps, unset) h
    | inr (t, set_) ↦ rw (keeps, set_) (subst IsWritable set_ w)
  ]
]
