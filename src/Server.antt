-- ===== src/Server.antt =====
-- cmd/rein/main.go: the choice of the stores by the database URL, the readiness probe, the counter of
-- connections and the end of the drain. The process itself is not modelled.

pub mod Stores
pub mod Connections
mod Tests
use rein.Base.{
  ℕ, ◌+◌, ◌≡◌, Bool, true, false, not, ◌||◌, ◌==◌, List, [], ◌∷◌, Option, none, some, if◌then◌else◌,
  ℤ, pos, negsuc, ◌+ℤ◌, Text, bytes, text_eq, trim_space, cut_prefix,
}
use rein.Base.Try.{Try, done, failed, ◌>>=◌, ◌>>◌, or_fail}
use rein.Sql.{Faults}
use rein.KeysDb.Schema.{SchemaError, new_sqlite}
use rein.MeterDb.{MeterDbError}
use rein.MeterDb
use rein.Cipher.{Cipher, CipherError, Base64, Aead, decode_hex_key, new_aes_gcm}

pub data OpenError : Type 0 where
  bad_scheme no_encryption_key : OpenError
  bad_encryption_key no_cipher : CipherError → OpenError
  no_keystore : SchemaError → OpenError
  no_meter : MeterDbError → OpenError

-- A store in memory, or over the SQLite file at a path.
pub data Store : Type 0 where
  in_memory : Store
  at_path : Text → Store

-- The file that the key store is opened on: the calls that fail, those of each migration, and the
-- columns of its table.
pub record SqliteFile : Type 0 where
  pub fails : Faults
  pub migration : ℕ → Faults
  pub columns : List Text

abbrev pub is_memory : Text → Bool
is_memory trimmed =
    text_eq trimmed [] || text_eq trimmed (bytes "memory") || text_eq trimmed (bytes "memory:")

abbrev pub or_open_error : {E : Type 0} {A : Type 0} → (E → OpenError) → Try E A → Try OpenError A
or_open_error f (done a) = done a
or_open_error f (failed e) = failed (f e)

-- openSpendMeter, with the calls of its own handle that fail.
unfoldable pub open_spend_meter : Faults → Text → Try OpenError Store
open_spend_meter fails db_url = if is_memory (trim_space db_url) then done in_memory else do
  path ← or_fail bad_scheme (cut_prefix (trim_space db_url) (bytes "sqlite:"))
  or_open_error no_meter (MeterDb.new_sqlite fails path)
  done (at_path path)

unfoldable pub keystore_cipher : Base64 → (Text → Option Aead) → Text → Try OpenError Cipher
keystore_cipher b64 gcm hex = if text_eq (trim_space hex) [] then failed no_encryption_key else do
  raw ← or_open_error bad_encryption_key (decode_hex_key hex)
  or_open_error no_cipher (new_aes_gcm b64 gcm raw)

abbrev pub opened_at :
    Text
    → Cipher
    → Try SchemaError Unit × List Text
    → Try OpenError (Store × Option Cipher) × List Text
opened_at path c (done _, names) = (done (at_path path, some c), names)
opened_at path c (failed e, names) = (failed (no_keystore e), names)

-- What follows the scheme in openKeystore, and the columns that it leaves.
unfoldable pub open_sqlite_keystore :
    Base64
    → (Text → Option Aead)
    → SqliteFile
    → Text
    → Text
    → Try OpenError (Store × Option Cipher) × List Text
unfolding keystore_cipher
open_sqlite_keystore b64 gcm file hex path = elim (keystore_cipher b64 gcm hex) [
  | failed e ↦ (failed e, file.columns)
  | done c ↦ opened_at path c (new_sqlite file.fails file.migration path (some c) file.columns)
]

unfoldable pub open_keystore :
    Base64
    → (Text → Option Aead)
    → SqliteFile
    → Text
    → Text
    → Try OpenError (Store × Option Cipher) × List Text
unfolding open_sqlite_keystore
open_keystore b64 gcm file db_url hex =
    if is_memory (trim_space db_url)
    then (done (in_memory, none), file.columns)
    else elim (cut_prefix (trim_space db_url) (bytes "sqlite:")) [
      | none ↦ (failed bad_scheme, file.columns)
      | some path ↦ open_sqlite_keystore b64 gcm file hex path
    ]

-- The status of readyzHandler and the word of its body.
unfoldable pub readyz : Bool → ℕ × Text
readyz draining = if draining then (503, bytes "draining") else (200, bytes "ready")

pub data ConnState : Type 0 where
  state_new state_active state_idle state_closed state_hijacked : ConnState

-- `active` is the set of connections that are known to be active. A call of `observe` is one step:
-- net/http makes the calls for one connection one after the other.
pub record Tracker : Type 0 where
  pub active : List ℕ
  pub count : ℤ

abbrev pub new_tracker : Tracker
new_tracker = record { active = []; count = pos 0 }

unfoldable pub member : ℕ → List ℕ → Bool
member c [] = false
member c (d ∷ ds) = if d == c then true else member c ds

unfoldable pub remove : ℕ → List ℕ → List ℕ
remove c [] = []
remove c (d ∷ ds) = if d == c then ds else d ∷ remove c ds

abbrev pub leave : Tracker → ℕ → Tracker
leave t c =
    if member c t.active
    then record { active = remove c t.active; count = t.count +ℤ negsuc 0 }
    else t

unfoldable pub observe : Tracker → ℕ → ConnState → Tracker
unfolding member remove
observe t c state_active =
    if member c t.active then t else record { active = c ∷ t.active; count = t.count +ℤ pos 1 }
observe t c state_idle = leave t c
observe t c state_closed = leave t c
observe t c state_hijacked = leave t c
observe t c state_new = t

-- inflight
abbrev pub inflight : Tracker → ℤ
inflight t = t.count
