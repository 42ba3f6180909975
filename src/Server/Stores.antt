-- ===== src/Server/Stores.antt =====
-- The key store, the spend meter and the readiness probe agree.
use rein.Base.{
  ℕ, ◌≡◌, ◌↔◌, ◌⊎◌, refl, sym, ap, ◌∙◌, Bool, true, false, [], List, Option, none, some, Text,
  bytes, text_eq, trim_space, cut_prefix, is_some, arith, inl, inr, Bool-cases, Option-cases,
}
use rein.Base.Try.{Try, done, failed, done_inj, Try-cases}
use rein.Cipher.{Cipher, Base64, Aead}
use rein.Sql.{Faults, DbCall, opened, pinged, executed}
use rein.KeysDb.Schema.{SchemaError, new_sqlite}
use rein.MeterDb
use mathlib.Core.Path.{subst}
use rein.Server.{
  Store, in_memory, at_path, is_memory, SqliteFile, no_meter, open_spend_meter, keystore_cipher,
  opened_at, open_sqlite_keystore, open_keystore, readyz,
}
use rein.Proxy.{check_draining}

-- A store on disk has a cipher, one in memory has none.
abbrev pub is_sealed : Store → Bool
is_sealed in_memory = false
is_sealed (at_path path) = true

-- The table of the key store is opened at a path that is not blank.
new_sqlite_named :
    (fails : Faults) (migration : ℕ → Faults) (path : Text) (c : Cipher) (names names' : List Text)
    {x : Unit {0}}
    → new_sqlite fails migration path (some c) names ≡ (done x, names')
    → text_eq (trim_space path) [] ≡ false
unfolding new_sqlite
new_sqlite_named fails migration path c names names' e =
    elim (Bool-cases (text_eq (trim_space path) [])) [
      | inl blank ↦ absurd (ground arith)
      | inr named ↦ named
    ]

-- At such a path only a failing call stops the meter.
meter_opens :
    (fails : Faults) (path : Text)
    → text_eq (trim_space path) [] ≡ false
    → (MeterDb.new_sqlite fails path ≡ done tt)
      ⊎ ((call : DbCall) × (MeterDb.new_sqlite fails path ≡ failed (MeterDb.database call))
          × (fails call ≡ true))
unfolding MeterDb.new_sqlite
meter_opens fails path named = elim (Bool-cases (fails opened)) [
  | inl bad ↦ inr (opened, rw (named, bad) refl, bad)
  | inr handle ↦ elim (Bool-cases (fails pinged)) [
    | inl bad ↦ inr (pinged, rw (named, handle, bad) refl, bad)
    | inr alive ↦ elim (Bool-cases (fails (executed 0))) [
      | inl bad ↦ inr (executed 0, rw (named, handle, alive, bad) refl, bad)
      | inr schema ↦ inl (rw (named, handle, alive, schema) refl)
    ]
  ]
]

opened_at_done :
    (path : Text) (cipher : Cipher) (p : Try SchemaError Unit × List Text) (s : Store)
    (c : Option Cipher) (names : List Text)
    → opened_at path cipher p ≡ (done (s, c), names)
    → (x : Unit {0}) × (p ≡ (done x, names)) × (at_path path ≡ s) × (some cipher ≡ c)
opened_at_done path cipher (failed e, ns) s c names h = absurd (ground arith)
opened_at_done path cipher (done x, ns) s c names h =
    let same : ◌≡◌ {A = Store × Option Cipher} (at_path path, some cipher) (s, c) =
      done_inj (ap (λ q. q.0) h) in
    (
      x,
      ap (λ n. (done x, n)) (ap (λ q. q.1) h),
      ap (λ (q : Store × Option Cipher). q.0) same,
      ap (λ (q : Store × Option Cipher). q.1) same,
    )

-- The meter opens on the same store, or one of its calls fails.
abbrev pub Follows : Faults → Text → Store → Type 0
Follows fails db_url s =
    (open_spend_meter fails db_url ≡ done s)
    ⊎ ((call : DbCall) × (open_spend_meter fails db_url ≡ failed (no_meter (MeterDb.database call)))
        × (fails call ≡ true))

follows :
    (fails : Faults) (db_url path : Text)
    → is_memory (trim_space db_url) ≡ false
    → cut_prefix (trim_space db_url) (bytes "sqlite:") ≡ some path
    → text_eq (trim_space path) [] ≡ false
    → Follows fails db_url (at_path path)
unfolding open_spend_meter
follows fails db_url path disk cut named = elim (meter_opens fails path named) [
  | inl open_ ↦ inl (rw (disk, cut, open_) refl)
  | inr (call, broken, fault) ↦ inr (call, rw (disk, cut, broken) refl, fault)
]

module _ (b64 : Base64) (gcm : Text → Option Aead) (file : SqliteFile) (fails : Faults) where
  open_sqlite_keystore_done :
      (hex path : Text) (s : Store) (c : Option Cipher) (names : List Text)
      → open_sqlite_keystore b64 gcm file hex path ≡ (done (s, c), names)
      → (text_eq (trim_space path) [] ≡ false) × (at_path path ≡ s) × (is_some c ≡ true)
  unfolding open_sqlite_keystore
  open_sqlite_keystore_done hex path s c names e = elim (Try-cases (keystore_cipher b64 gcm hex)) [
    | inr (x, refused) ↦ absurd (ground arith)
    | inl (cipher, made) ↦
        let (x, opens, at, sealed) =
          opened_at_done path cipher _ s c names (rw (made, open_sqlite_keystore) at e) in
        (
          new_sqlite_named file.fails file.migration path cipher file.columns names opens,
          at,
          sym (ap is_some sealed),
        )
  ]

  -- Where the key store opens, the spend meter opens on the same store, in memory or at the same
  -- path, unless a call of its own handle fails, and then it says which; and the key store has a
  -- cipher exactly if it is on disk.
  pub open_spend_meter-open_keystore :
      (db_url hex : Text) (s : Store) (c : Option Cipher) (names : List Text)
      → open_keystore b64 gcm file db_url hex ≡ (done (s, c), names)
      → Follows fails db_url s × (is_some c ≡ is_sealed s)
  unfolding open_keystore open_spend_meter
  open_spend_meter-open_keystore db_url hex s c names e =
      elim (Bool-cases (is_memory (trim_space db_url))) [
        | inl memory ↦
            let same : ◌≡◌ {A = Store × Option Cipher} (in_memory, none) (s, c) =
              done_inj (ap (λ q. q.0) (rw memory at e)) in
            (
              inl (rw memory (ap (λ (p : Store × Option Cipher). done p.0) same)),
              sym (ap (λ (p : Store × Option Cipher). is_some p.1) same)
                  ∙ ap (λ (p : Store × Option Cipher). is_sealed p.0) same,
            )
        | inr disk ↦ elim (Option-cases (cut_prefix (trim_space db_url) (bytes "sqlite:"))) [
          | inl other ↦ absurd (ground arith)
          | inr (path, cut) ↦
              let (named, at, sealed) =
                open_sqlite_keystore_done hex path s c names (rw (disk, cut) at e) in
              (
                subst (Follows fails db_url) at (follows fails db_url path disk cut named),
                sealed ∙ ap is_sealed at,
              )
        ]
      ]

-- The probe says `ready` exactly while the gate does not refuse for the drain.
pub readyz-check_draining :
    (draining : Bool) → ((readyz draining).0 ≡ 200) ↔ (check_draining draining ≡ none)
unfolding readyz check_draining
readyz-check_draining true = (λ h. absurd (ground arith), λ h. absurd (ground arith))
readyz-check_draining false = (λ h. refl, λ h. refl)
