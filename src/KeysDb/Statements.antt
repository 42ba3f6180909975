-- ===== src/KeysDb/Statements.antt =====
-- The table `virtual_keys`, and the statements on it.
use rein.Base.{
  ℕ, Bool, false, not, ◌&&◌, ◌||◌, List, [], ◌∷◌, ◌++◌, Option, none, some, if◌then◌else◌, is_some,
  ℤ, Text, text_eq,
}
use rein.Base.Try.{Try, done, failed, ◌>>=◌, or_fail}
use rein.Sql.{DbCall}
use rein.Cipher.{CipherError}
use rein.Rfc3339.{Rfc3339, text_le}
use rein.Keys.{VirtualKey, upstream_openai, upstream_anthropic}

pub data StoreError : Type 0 where
  not_found revoked nil_key fields_missing unsupported_upstream duplicate : StoreError
  bad_created_at bad_revoked_at bad_expires_at : StoreError
  not_encrypted not_decrypted : CipherError → StoreError
  database : DbCall → StoreError

-- A row, whose `upstream_key` is encrypted and whose instants are texts.
pub record Row (F : Type 0) : Type 0 where
  pub id : Text
  pub token : Text
  pub name : Text
  pub upstream : Text
  pub upstream_key : Text
  pub daily_budget_usd : F
  pub month_budget_usd : F
  pub upstream_base_url : Text
  pub rps_limit : ℤ
  pub rpm_limit : ℤ
  pub max_concurrent : ℤ
  pub upstream_timeout_seconds : ℤ
  pub created_at : Text
  pub revoked_at : Option Text
  pub expires_at : Option Text

abbrev pub Table : Type 0 → Type 0
Table F = List (Row F)

abbrev pub or_error :
    {A : Type 0} → (CipherError → StoreError) → Try CipherError A → Try StoreError A
or_error f (done a) = done a
or_error f (failed e) = failed (f e)

abbrev pub map_option : {A : Type 0} {B : Type 0} → (A → B) → Option A → Option B
map_option f none = none
map_option f (some a) = some (f a)

-- A column that may be NULL.
abbrev pub parse_column : Rfc3339 → StoreError → Option Text → Try StoreError (Option ℕ)
parse_column clock e none = done none
parse_column clock e (some s) = or_fail e (clock.parse s) >>= λ t. done (some t)

module _ {F : Type 0} where
  abbrev pub has_id : Text → Row F → Bool
  has_id id r = text_eq r.id id

  abbrev pub has_token : Text → Row F → Bool
  has_token token r = text_eq r.token token

  -- `WHERE id = ? AND revoked_at IS NULL`
  abbrev pub is_active : Text → Row F → Bool
  is_active id r = text_eq r.id id && not (is_some r.revoked_at)

  -- The row that a SELECT with one row as its answer finds.
  unfoldable pub select : (Row F → Bool) → Table F → Option (Row F)
  select test [] = none
  select test (r ∷ rs) = if test r then some r else select test rs

  -- The INSERT: `id` is the primary key and `token` is unique.
  unfoldable pub insert_row : Row F → Table F → Try StoreError (Table F)
  unfolding select
  insert_row r t =
      if is_some (select (has_id r.id) t) || is_some (select (has_token r.token) t)
      then failed duplicate
      else done (t ++ r ∷ [])

  -- The checks of Create.
  unfoldable pub invalid_key : VirtualKey F → Option StoreError
  invalid_key k =
      if text_eq k.id [] || text_eq k.token []
      then some fields_missing
      else if not (text_eq k.upstream upstream_openai)
          && not (text_eq k.upstream upstream_anthropic)
      then some unsupported_upstream
      else none

  -- `ORDER BY … ASC` on a column.
  unfoldable pub insert_sorted : (Row F → Text) → Row F → Table F → Table F
  insert_sorted column r [] = r ∷ []
  insert_sorted column r (q ∷ qs) =
      if text_le (column r) (column q) then r ∷ q ∷ qs else q ∷ insert_sorted column r qs

  unfoldable pub order_by : (Row F → Text) → Table F → Table F
  unfolding insert_sorted
  order_by column [] = []
  order_by column (r ∷ rs) = insert_sorted column r (order_by column rs)

  -- `expires_at IS NOT NULL AND expires_at <= ? AND revoked_at IS NULL`
  unfoldable pub is_expiring : Text → Row F → Bool
  is_expiring as_of r =
      (elim r.expires_at [ none ↦ false | some e ↦ text_le e as_of ]) && not (is_some r.revoked_at)

  abbrev pub expiry_column : Row F → Text
  expiry_column r = elim r.expires_at [ none ↦ [] | some e ↦ e ]

  abbrev pub forget : Try StoreError (VirtualKey F) → Try StoreError Unit
  forget (done k) = done tt
  forget (failed e) = failed e

  abbrev pub stamp_row : Text → Row F → Row F
  stamp_row at r = record r { revoked_at = some at }
