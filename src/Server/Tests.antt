-- ===== src/Server/Tests.antt =====
-- The stores of one database URL, and the counter after two connections.
use rein.Base.{
  ℕ, ◌≡◌, refl, false, List, [], ◌∷◌, some, is_some, Text, bytes, text_eq, pos, length, trim_space,
  cut_prefix, drop,
}
use rein.Base.Try.{done}
use rein.Cipher.{decode_hex_key, decode_hex, hex_digit, new_aes_gcm}
use rein.Cipher.Toy.{first_cipher, toy_base64, toy_gcm}
use rein.Sql.{no_faults}
use rein.KeysDb.Schema.{
  migrated, new_sqlite, apply_migrations, add_columns, add_column, column_exists, scan_columns,
  valid_bare_ident,
}
use rein.Server.{
  SqliteFile, keystore_cipher, at_path, open_sqlite_keystore, open_keystore, state_new,
  state_active, state_closed, member, new_tracker, inflight,
}
use rein.Server.Stores.{Follows, is_sealed, open_spend_meter-open_keystore}
use rein.Server.Connections.{Event, Nodup, observe_all, is_active, inflight-observe_all}

abbrev hex_key : Text
hex_key = bytes "0100000000000000000000000000000000000000000000000000000000000000"

abbrev file : SqliteFile
file = record { fails = no_faults; migration = λ i. no_faults; columns = migrated }

opened :
    open_keystore toy_base64 toy_gcm file (bytes "sqlite:rein.db") hex_key
    ≡ (done (at_path (bytes "rein.db"), some first_cipher), migrated)
unfolding open_keystore open_sqlite_keystore keystore_cipher decode_hex_key decode_hex hex_digit
    new_aes_gcm text_eq trim_space cut_prefix drop bytes new_sqlite apply_migrations add_columns
    add_column column_exists scan_columns valid_bare_ident
opened = refl

open_spend_meter-open_keystore_example :
    Follows no_faults (bytes "sqlite:rein.db") (at_path (bytes "rein.db"))
    × (is_some (some first_cipher) ≡ is_sealed (at_path (bytes "rein.db")))
open_spend_meter-open_keystore_example =
    open_spend_meter-open_keystore toy_base64 toy_gcm file no_faults (bytes "sqlite:rein.db")
      hex_key (at_path (bytes "rein.db")) (some first_cipher) migrated opened

abbrev events : List Event
events =
    (1, state_new)
    ∷ (1, state_active)
    ∷ (2, state_active)
    ∷ (1, state_active)
    ∷ (2, state_closed)
    ∷ []

inflight-observe_all_example :
    (l : List ℕ) × (inflight (observe_all new_tracker events) ≡ pos (length l))
    × Nodup l
    × ((c : ℕ) → member c l ≡ is_active c false events)
inflight-observe_all_example = inflight-observe_all events
