-- ===== src/Keys.antt =====
-- internal/keys/keys.go and sweeper.go: virtual keys and the in-memory store. Instants are
-- nanoseconds in UTC, so `.UTC()` changes none of them. The two maps of the store hold pointers to
-- shared keys: `cells` is the heap of keys and a pointer is an index into it.
pub mod Store
pub mod Aliasing
pub mod Calls
pub mod Permanence
pub mod Sweep
mod Tests
use rein.Base.{
  ℕ, ◌≡◌, refl, Bool, true, false, not, ◌&&◌, ◌||◌, leb, ltb, List, [], ◌∷◌, ◌++◌, Option, none,
  some, if◌then◌else◌, get_or, is_some, ℤ, Text, bytes, text_eq, has_prefix, Dict, lookup, insert,
  length, get_elem?, set,
}

abbrev pub upstream_openai : Text
upstream_openai = bytes "openai"

abbrev pub upstream_anthropic : Text
upstream_anthropic = bytes "anthropic"

abbrev pub token_prefix : Text
token_prefix = bytes "rein_live_"

pub data KeyError : Type 0 where
  not_found revoked nil_key fields_missing unsupported_upstream id_exists token_collision : KeyError

pub data Result {ℓ} (A : Type ℓ) : Type ℓ where
  ok : A → Result A
  err : KeyError → Result A

pub record VirtualKey (F : Type 0) : Type 0 where
  pub id : Text
  pub token : Text
  pub name : Text
  pub upstream : Text
  pub upstream_key : Text
  pub daily_budget_usd : F
  pub month_budget_usd : F
  pub upstream_base_url : Text
  pub rps_limit : ℤ
  pub rpm_limit : ℤ
  pub max_concurrent : ℤ
  pub upstream_timeout_seconds : ℤ
  pub created_at : ℕ
  pub revoked_at : Option ℕ
  pub expires_at : Option ℕ

pub record KeyPatch (F : Type 0) : Type 0 where
  pub name : Option Text
  pub daily_budget_usd : Option F
  pub month_budget_usd : Option F
  pub rps_limit : Option ℤ
  pub rpm_limit : Option ℤ
  pub max_concurrent : Option ℤ
  pub upstream_base_url : Option Text
  pub upstream_timeout_seconds : Option ℤ
  pub expires_at : Option ℕ
  pub clear_expires_at : Bool

pub record Memory (F : Type 0) : Type 0 where
  pub cells : List (VirtualKey F)
  pub by_id : Dict ℕ
  pub by_token : Dict ℕ

-- IsReinToken
unfoldable pub is_rein_token : Text → Bool
is_rein_token s = has_prefix s token_prefix

module _ {F : Type 0} where
  unfoldable pub is_revoked : VirtualKey F → Bool
  is_revoked k = is_some k.revoked_at

  -- `!now.Before(*k.ExpiresAt)` where there is an expiry.
  unfoldable pub is_expired : VirtualKey F → ℕ → Bool
  is_expired k now = elim k.expires_at [ none ↦ false | some t ↦ not (ltb now t) ]

  -- The fields of the patch that are set, over those of the key.
  unfoldable pub apply_to : KeyPatch F → VirtualKey F → VirtualKey F
  apply_to p k = record k {
    name = get_or p.name k.name;
    daily_budget_usd = get_or p.daily_budget_usd k.daily_budget_usd;
    month_budget_usd = get_or p.month_budget_usd k.month_budget_usd;
    rps_limit = get_or p.rps_limit k.rps_limit;
    rpm_limit = get_or p.rpm_limit k.rpm_limit;
    max_concurrent = get_or p.max_concurrent k.max_concurrent;
    upstream_base_url = get_or p.upstream_base_url k.upstream_base_url;
    upstream_timeout_seconds = get_or p.upstream_timeout_seconds k.upstream_timeout_seconds;
    expires_at =
        if p.clear_expires_at
        then none
        else (elim p.expires_at [ none ↦ k.expires_at | some t ↦ some t ]);
  }

  abbrev pub new_memory : Memory F
  new_memory = record { cells = []; by_id = []; by_token = [] }

  -- The checks of `Create` that need no lock.
  unfoldable pub invalid_key : VirtualKey F → Option KeyError
  invalid_key k =
      if text_eq k.id [] || text_eq k.token []
      then some fields_missing
      else if not (text_eq k.upstream upstream_openai)
          && not (text_eq k.upstream upstream_anthropic)
      then some unsupported_upstream
      else none

  -- Both maps get the pointer to one new copy.
  unfoldable pub store_key : Memory F → VirtualKey F → Memory F
  store_key m k = record {
    cells = m.cells ++ k ∷ [];
    by_id = insert k.id (length m.cells) m.by_id;
    by_token = insert k.token (length m.cells) m.by_token;
  }

  unfoldable pub create_valid : Memory F → VirtualKey F → Result (Memory F)
  unfolding store_key
  create_valid m k =
      if is_some (lookup k.id m.by_id)
      then err id_exists
      else if is_some (lookup k.token m.by_token)
      then err token_collision
      else ok (store_key m k)

  unfoldable pub create : Memory F → Option (VirtualKey F) → Result (Memory F)
  unfolding invalid_key create_valid
  create m none = err nil_key
  create m (some k) = elim (invalid_key k) [ some e ↦ err e | none ↦ create_valid m k ]

  -- The key that a pointer map leads to. (No pointer of a store dangles.)
  unfoldable pub read : Memory F → Option ℕ → Option (VirtualKey F)
  read m none = none
  read m (some a) = get_elem? m.cells a

  abbrev pub or_not_found : Option (VirtualKey F) → Result (VirtualKey F)
  or_not_found none = err not_found
  or_not_found (some k) = ok k

  unfoldable pub get_by_token : Memory F → Text → Result (VirtualKey F)
  unfolding read
  get_by_token m token = or_not_found (read m (lookup token m.by_token))

  unfoldable pub get_by_id : Memory F → Text → Result (VirtualKey F)
  unfolding read
  get_by_id m id = or_not_found (read m (lookup id m.by_id))

  -- A write through a pointer.
  unfoldable pub write : Memory F → ℕ → VirtualKey F → Memory F
  write m a k = record m { cells = set m.cells a k }

  -- The key with an id, changed in place.
  unfoldable pub modify : Memory F → Text → (VirtualKey F → VirtualKey F) → Result (Memory F)
  unfolding write read
  modify m id f = elim (lookup id m.by_id) [
    | none ↦ err not_found
    | some a ↦ elim (get_elem? m.cells a) [ none ↦ err not_found | some k ↦ ok (write m a (f k)) ]
  ]

  -- `now` is what the clock says in the call.
  unfoldable pub revoke : Memory F → Text → ℕ → Result (Memory F)
  unfolding modify
  revoke m id now = modify m id (λ k. record k { revoked_at = some now })

  -- RevokeAt leaves a key that is revoked as it is.
  abbrev pub stamp : ℕ → VirtualKey F → VirtualKey F
  stamp at k = if is_some k.revoked_at then k else record k { revoked_at = some at }

  unfoldable pub revoke_at : Memory F → Text → ℕ → Result (Memory F)
  unfolding modify
  revoke_at m id at = modify m id (stamp at)

  -- Update returns the store and a copy of the key.
  unfoldable pub update : Memory F → Text → KeyPatch F → Result (Memory F × VirtualKey F)
  unfolding write read
  update m id patch = elim (lookup id m.by_id) [
    | none ↦ err not_found
    | some a ↦ elim (get_elem? m.cells a) [
      | none ↦ err not_found
      | some k ↦
          if is_revoked k then err revoked else ok (write m a (apply_to patch k), apply_to patch k)
    ]
  ]
