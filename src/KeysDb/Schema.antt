-- ===== src/KeysDb/Schema.antt =====
-- internal/keys/sqlite.go: `NewSQLite` and its forward migrations. The state is the list of the columns
-- of `virtual_keys`, as `PRAGMA table_info` gives it; the schema has been applied before.
use rein.Base.{
  ℕ, ◌+◌, Bool, true, false, not, ◌&&◌, ◌||◌, leb, ltb, ◌==◌, List, [], ◌∷◌, ◌++◌, Option, none,
  some, if◌then◌else◌, Text, bytes, text_eq, trim_space, length,
}
use rein.Base.Try.{Try, done, failed}
use rein.Sql.{DbCall, Faults, opened, pinged, queried, iterated, executed, scanned}
use rein.Cipher.{Cipher}

pub data SchemaError : Type 0 where
  path_missing no_cipher invalid_table : SchemaError
  database : DbCall → SchemaError

abbrev pub is_lower : ℕ → Bool
is_lower c = leb b'a' c && leb c b'z'

abbrev pub is_ident : ℕ → Bool
is_ident c = is_lower c || (leb b'0' c && leb c b'9') || c == b'_'

unfoldable pub all_ident : Text → Bool
all_ident [] = true
all_ident (c ∷ s) = if is_ident c then all_ident s else false

-- validBareIdent
unfoldable pub valid_bare_ident : Text → Bool
unfolding all_ident
valid_bare_ident [] = false
valid_bare_ident (c ∷ s) = if ltb 64 (length (c ∷ s)) then false else is_lower c && all_ident s

unfoldable pub scan_columns : Faults → ℕ → Text → List Text → Try SchemaError Bool
scan_columns fails i column [] = if fails iterated then failed (database iterated) else done false
scan_columns fails i column (name ∷ names) =
    let rest = scan_columns fails (i + 1) column names in
    if fails (scanned i)
    then failed (database (scanned i))
    else if text_eq name column
    then done true
    else rest

-- sqliteColumnExists
unfoldable pub column_exists : Faults → Text → Text → List Text → Try SchemaError Bool
unfolding valid_bare_ident scan_columns
column_exists fails table column names =
    if not (valid_bare_ident table)
    then failed invalid_table
    else if fails queried
    then failed (database queried)
    else scan_columns fails 0 column names

abbrev pub virtual_keys : Text
virtual_keys = bytes "virtual_keys"

-- `ALTER TABLE … ADD COLUMN …` where the column is not there.
abbrev pub add_missing :
    Faults → Text → List Text → Try SchemaError Bool → Try SchemaError Unit × List Text
add_missing fails column names (failed e) = (failed e, names)
add_missing fails column names (done true) = (done tt, names)
add_missing fails column names (done false) =
    if fails (executed 0)
    then (failed (database (executed 0)), names)
    else (done tt, names ++ column ∷ [])

unfoldable pub add_column : Faults → Text → List Text → Try SchemaError Unit × List Text
unfolding column_exists
add_column fails column names =
    add_missing fails column names (column_exists fails virtual_keys column names)

abbrev pub go_on :
    Try SchemaError Unit × List Text
    → (List Text → Try SchemaError Unit × List Text)
    → Try SchemaError Unit × List Text
go_on (failed e, names) k = (failed e, names)
go_on (done _, names) k = k names

unfoldable pub add_columns :
    (ℕ → Faults) → ℕ → List Text → List Text → Try SchemaError Unit × List Text
unfolding add_column
add_columns fails i [] names = (done tt, names)
add_columns fails i (c ∷ cs) names =
    go_on (add_column (fails i) c names) (add_columns fails (i + 1) cs)

-- The columns that the migrations add, in their order.
abbrev pub migrated : List Text
migrated =
    bytes "upstream_base_url"
    ∷ bytes "rps_limit"
    ∷ bytes "rpm_limit"
    ∷ bytes "max_concurrent"
    ∷ bytes "upstream_timeout_seconds"
    ∷ bytes "expires_at"
    ∷ []

-- applySQLiteMigrations
unfoldable pub apply_migrations : (ℕ → Faults) → List Text → Try SchemaError Unit × List Text
unfolding add_columns
apply_migrations fails names = add_columns fails 0 migrated names

-- NewSQLite, on a file whose table has these columns.
unfoldable pub new_sqlite :
    Faults → (ℕ → Faults) → Text → Option Cipher → List Text → Try SchemaError Unit × List Text
unfolding apply_migrations
new_sqlite fails migration path none names =
    (failed (if text_eq (trim_space path) [] then path_missing else no_cipher), names)
new_sqlite fails migration path (some c) names =
    if text_eq (trim_space path) []
    then (failed path_missing, names)
    else if fails opened
    then (failed (database opened), names)
    else if fails pinged
    then (failed (database pinged), names)
    else if fails (executed 0)
    then (failed (database (executed 0)), names)
    else apply_migrations migration names
