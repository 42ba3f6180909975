-- ===== src/KeysDb.antt =====
-- internal/keys/sqlite.go: the key store over the table `virtual_keys`. An operation takes the
-- calls of the database that fail, and returns its result and the table that it leaves.
pub mod Statements
pub mod Expiring
pub mod Schema
pub mod Migrated
pub mod Lookup
pub mod Scan
pub mod Agree
pub mod Refinement
pub mod Updated
pub mod Together
mod Tests
use rein.Base.{
  ℕ, ◌+◌, ◌≡◌, Bool, true, false, not, ◌&&◌, ◌||◌, ◌==◌, List, [], ◌∷◌, ◌++◌, Option, none, some,
  if◌then◌else◌, is_some, ℤ, Text, bytes, text_eq,
}
use rein.Base.Try.{Try, done, failed, ◌>>=◌, or_fail}
use rein.Sql.{
  DbCall, Faults, queried, iterated, counted, executed, scanned, update_where, affected, where_rows,
}
use rein.Cipher.{Random, Cipher, CipherError}
use rein.Rfc3339.{Rfc3339, format, text_le}
use rein.Keys.{VirtualKey, KeyPatch, is_revoked, apply_to, upstream_openai, upstream_anthropic}
pub use rein.KeysDb.Statements.{
  StoreError, not_found, revoked, nil_key, fields_missing, unsupported_upstream, duplicate,
  bad_created_at, bad_revoked_at, bad_expires_at, not_encrypted, not_decrypted, database, Row,
  Table, or_error, map_option, parse_column, has_id, has_token, is_active, expiry_column, forget,
  stamp_row,
}
unfoldable pub use rein.KeysDb.Statements.{
  select, insert_row, invalid_key, insert_sorted, order_by, is_expiring,
}

module _ {F : Type 0} where
  module _ (cipher : Cipher) (clock : Rfc3339) where
    unfoldable pub scan_key : Row F → Try StoreError (VirtualKey F)
    scan_key r = do
      plain ← or_error not_decrypted (cipher.decrypt r.upstream_key)
      created ← or_fail bad_created_at (clock.parse r.created_at)
      ended ← parse_column clock bad_revoked_at r.revoked_at
      expiry ← parse_column clock bad_expires_at r.expires_at
      done (record {
        id = r.id;
        token = r.token;
        name = r.name;
        upstream = r.upstream;
        upstream_key = plain;
        daily_budget_usd = r.daily_budget_usd;
        month_budget_usd = r.month_budget_usd;
        upstream_base_url = r.upstream_base_url;
        rps_limit = r.rps_limit;
        rpm_limit = r.rpm_limit;
        max_concurrent = r.max_concurrent;
        upstream_timeout_seconds = r.upstream_timeout_seconds;
        created_at = created;
        revoked_at = ended;
        expires_at = expiry;
      })

    -- The row that Create inserts. `revoked_at` is not among its columns.
    unfoldable pub row_of : VirtualKey F → Text → Row F
    row_of k enc = record {
      id = k.id;
      token = k.token;
      name = k.name;
      upstream = k.upstream;
      upstream_key = enc;
      daily_budget_usd = k.daily_budget_usd;
      month_budget_usd = k.month_budget_usd;
      upstream_base_url = k.upstream_base_url;
      rps_limit = k.rps_limit;
      rpm_limit = k.rpm_limit;
      max_concurrent = k.max_concurrent;
      upstream_timeout_seconds = k.upstream_timeout_seconds;
      created_at = format clock k.created_at;
      revoked_at = none;
      expires_at = map_option (format clock) k.expires_at;
    }

    -- The columns that Update writes.
    abbrev pub rewrite : VirtualKey F → Row F → Row F
    rewrite k r = record r {
      name = k.name;
      daily_budget_usd = k.daily_budget_usd;
      month_budget_usd = k.month_budget_usd;
      upstream_base_url = k.upstream_base_url;
      rps_limit = k.rps_limit;
      rpm_limit = k.rpm_limit;
      max_concurrent = k.max_concurrent;
      upstream_timeout_seconds = k.upstream_timeout_seconds;
      expires_at = map_option (format clock) k.expires_at;
    }

    module _ (fails : Faults) where
      unfoldable pub create_valid : Random → VirtualKey F → Table F → Try StoreError (Table F)
      unfolding row_of insert_row
      create_valid rand k t = do
        enc ← or_error not_encrypted (cipher.encrypt rand k.upstream_key)
        if fails (executed 0) then failed (database (executed 0)) else insert_row (row_of k enc) t

      unfoldable pub create : Random → Option (VirtualKey F) → Table F → Try StoreError (Table F)
      unfolding create_valid invalid_key
      create rand none t = failed nil_key
      create rand (some k) t = elim (invalid_key k) [
        | some e ↦ failed e
        | none ↦ create_valid rand k t
      ]

      unfoldable pub query_one : (Row F → Bool) → Table F → Try StoreError (VirtualKey F)
      unfolding scan_key select
      query_one test t =
          if fails queried
          then failed (database queried)
          else (or_fail not_found (select test t) >>= scan_key)

      unfoldable pub get_by_token : Table F → Text → Try StoreError (VirtualKey F)
      unfolding query_one
      get_by_token t token = query_one (has_token token) t

      unfoldable pub get_by_id : Table F → Text → Try StoreError (VirtualKey F)
      unfolding query_one
      get_by_id t id = query_one (has_id id) t

      unfoldable pub scan_all : ℕ → Table F → Try StoreError (List (VirtualKey F))
      unfolding scan_key
      scan_all i [] = if fails iterated then failed (database iterated) else done []
      scan_all i (r ∷ rs) =
          let next = scan_key r >>= λ k. scan_all (i + 1) rs >>= λ ks. done (k ∷ ks) in
          if fails (scanned i) then failed (database (scanned i)) else next

      unfoldable pub query_all : Table F → Try StoreError (List (VirtualKey F))
      unfolding scan_all
      query_all t = if fails queried then failed (database queried) else scan_all 0 t

      unfoldable pub list_keys : Table F → Try StoreError (List (VirtualKey F))
      unfolding query_all order_by
      list_keys t = query_all (order_by (λ r. r.created_at) t)

      unfoldable pub list_expiring : Table F → ℕ → Try StoreError (List (VirtualKey F))
      unfolding query_all order_by where_rows is_expiring
      list_expiring t as_of =
          query_all (order_by expiry_column (where_rows (is_expiring (format clock as_of)) t))

      -- `UPDATE virtual_keys SET revoked_at = ? WHERE id = ? AND revoked_at IS NULL`, and what its
      -- count says. Revoke calls it with the time of the clock, RevokeAt with its argument.
      unfoldable pub mark_revoked : Table F → Text → Text → Try StoreError Unit × Table F
      unfolding update_where affected get_by_id
      mark_revoked t id at =
          let t' = update_where (is_active id) (stamp_row at) t in
          if fails (executed 0)
          then (failed (database (executed 0)), t)
          else if fails counted
          then (failed (database counted), t')
          else if affected (is_active id) t == 0
          then (forget (get_by_id t' id), t')
          else (done tt, t')

      unfoldable pub revoke : Table F → Text → ℕ → Try StoreError Unit × Table F
      unfolding mark_revoked
      revoke t id now = mark_revoked t id (format clock now)

      unfoldable pub revoke_at : Table F → Text → ℕ → Try StoreError Unit × Table F
      unfolding mark_revoked
      revoke_at t id at = mark_revoked t id (format clock at)

      unfoldable pub write_row :
          Table F → Text → VirtualKey F → Try StoreError (VirtualKey F) × Table F
      unfolding update_where affected
      write_row t id k =
          let t' = update_where (is_active id) (rewrite k) t in
          if fails (executed 0)
          then (failed (database (executed 0)), t)
          else if fails counted
          then (failed (database counted), t')
          else if affected (is_active id) t == 0
          then (failed revoked, t')
          else (done k, t')

      -- Update reads and writes in two statements: `meanwhile` is what other connections do between.
      unfoldable pub update :
          (Table F → Table F)
          → Table F
          → Text
          → KeyPatch F
          → Try StoreError (VirtualKey F) × Table F
      unfolding get_by_id write_row
      update meanwhile t id patch = elim (get_by_id t id) [
        | failed e ↦ (failed e, t)
        | done k ↦
            if is_revoked k
            then (failed revoked, t)
            else write_row (meanwhile t) id (apply_to patch k)
      ]
