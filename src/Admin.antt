-- ===== src/Admin.antt =====
-- internal/admin/admin.go: the handlers of the admin API, with the envelopes of internal/api and the
-- switch of internal/killswitch. A request comes with its body decoded: encoding/json, and what an
-- absent field is, are parameters. An operation of the key store returns its result and the store.
pub mod Checks
pub mod Handlers
pub mod Bounds
pub mod Created
pub mod Errors
pub mod InMemory
pub mod Refused
pub mod Stored
pub mod Patched
mod Tests
use rein.Base.{
  ℕ, ◌+◌, ◌/◌, ◌%◌, ◌≡◌, Bool, true, false, not, ◌&&◌, ◌||◌, leb, ltb, ◌==◌, List, [], ◌∷◌, ◌++◌,
  Option, none, some, if◌then◌else◌, ℤ, pos, Text, bytes, text_eq, cut_prefix, length,
}
use rein.Base.Try.{Try, done, failed, ◌>>=◌}
use rein.Cipher.{Random}
use rein.Keys.{VirtualKey, KeyPatch, token_prefix}

-- keyView: no token and no upstream key.
pub record KeyView (F : Type 0) : Type 0 where
  pub id : Text
  pub name : Text
  pub upstream : Text
  pub daily_budget_usd : F
  pub month_budget_usd : F
  pub rps_limit : ℤ
  pub rpm_limit : ℤ
  pub max_concurrent : ℤ
  pub upstream_timeout_seconds : ℤ
  pub upstream_base_url : Text
  pub created_at : ℕ
  pub revoked_at : Option ℕ
  pub expires_at : Option ℕ

-- What a response says: a line of text, the envelope of `api.WriteError`, or JSON.
pub data Body (F : Type 0) : Type 0 where
  line : Text → Body F
  envelope : Text → Text → Body F
  frozen_state : Bool → Body F
  key : KeyView F → Body F
  created_key : KeyView F → Text → Body F
  key_list : List (KeyView F) → Body F

pub record Response (F : Type 0) : Type 0 where
  pub status : ℕ
  pub body : Body F

pub record CreateBody (F : Type 0) : Type 0 where
  pub name : Text
  pub upstream : Text
  pub upstream_key : Text
  pub daily_budget_usd : F
  pub month_budget_usd : F
  pub rps_limit : ℤ
  pub rpm_limit : ℤ
  pub max_concurrent : ℤ
  pub upstream_timeout_seconds : ℤ
  pub upstream_base_url : Text
  pub expires_at : Text

-- The probes say whether an immutable field is in the body and not null; `expires_at` is the raw
-- value, empty if the field is absent.
pub record UpdateBody (F : Type 0) : Type 0 where
  pub name : Option Text
  pub daily_budget_usd : Option F
  pub month_budget_usd : Option F
  pub rps_limit : Option ℤ
  pub rpm_limit : Option ℤ
  pub max_concurrent : Option ℤ
  pub upstream_timeout_seconds : Option ℤ
  pub upstream_base_url : Option Text
  pub expires_at : Text
  pub id : Bool
  pub token : Bool
  pub upstream : Bool
  pub upstream_key : Bool
  pub created_at : Bool
  pub revoked_at : Bool

-- The errors of a store that the handlers tell apart.
pub data Fault : Type 0 where
  not_found revoked other_fault : Fault

-- keys.Store, as far as the handlers call it.
pub record KeyStore (S : Type 0) (F : Type 0) : Type 0 where
  pub create : S → VirtualKey F → Try Fault Unit × S
  pub get_by_id : S → Text → Try Fault (VirtualKey F)
  pub list_keys : S → Try Fault (List (VirtualKey F))
  pub revoke : S → Text → ℕ → Try Fault Unit × S
  pub update : S → Text → KeyPatch F → Try Fault (VirtualKey F) × S

abbrev pub id_prefix : Text
id_prefix = bytes "key_"

abbrev pub hex_char : ℕ → ℕ
hex_char d = if ltb d 10 then b'0' + d else 87 + d

-- hex.EncodeToString
unfoldable pub encode_hex : Text → Text
encode_hex [] = []
encode_hex (b ∷ s) = hex_char (b / 16) ∷ hex_char (b % 16) ∷ encode_hex s

unfoldable pub random_hex : Random → ℕ → Option Text
unfolding encode_hex
random_hex rand n = elim (rand n) [ none ↦ none | some b ↦ some (encode_hex b) ]

abbrev pub prefixed : Text → Option Text → Option Text
prefixed p none = none
prefixed p (some s) = some (p ++ s)

-- GenerateID
unfoldable pub generate_id : Random → Option Text
unfolding random_hex
generate_id rand = prefixed id_prefix (random_hex rand 8)

-- GenerateToken
unfoldable pub generate_token : Random → Option Text
unfolding random_hex
generate_token rand = prefixed token_prefix (random_hex rand 32)

unfoldable pub all_hex : Text → Bool
all_hex [] = true
all_hex (c ∷ s) = ((leb b'a' c && leb c b'f') || (leb b'0' c && leb c b'9')) && all_hex s

-- ValidID: `^key_[a-f0-9]{16}$`
unfoldable pub valid_id : Text → Bool
unfolding all_hex
valid_id s = elim (cut_prefix s id_prefix) [
  | none ↦ false
  | some rest ↦ all_hex rest && length rest == 16
]

module _ {F : Type 0} where
  unfoldable pub view_of : VirtualKey F → KeyView F
  view_of k = record {
    id = k.id;
    name = k.name;
    upstream = k.upstream;
    daily_budget_usd = k.daily_budget_usd;
    month_budget_usd = k.month_budget_usd;
    rps_limit = k.rps_limit;
    rpm_limit = k.rpm_limit;
    max_concurrent = k.max_concurrent;
    upstream_timeout_seconds = k.upstream_timeout_seconds;
    upstream_base_url = k.upstream_base_url;
    created_at = k.created_at;
    revoked_at = k.revoked_at;
    expires_at = k.expires_at;
  }

  -- http.Error
  abbrev pub refuse : ℕ → Text → Response F
  refuse status text = record { status = status; body = line text }

  -- api.WriteError
  abbrev pub write_error : ℕ → Text → Text → Response F
  write_error status code message = record { status = status; body = envelope code message }

  -- api.WriteJSON
  abbrev pub write_json : ℕ → Body F → Response F
  write_json status body = record { status = status; body = body }

  abbrev pub internal_error : Response F
  internal_error = refuse 500 (bytes "internal error")

  abbrev pub bad_request : Text → Response F
  bad_request text = refuse 400 text

  abbrev pub guard : Bool → Response F → Try (Response F) Unit
  guard bad r = if bad then failed r else done tt

  abbrev pub refuse_as : {A : Type 0} → Response F → Option A → Try (Response F) A
  refuse_as r none = failed r
  refuse_as r (some a) = done a
