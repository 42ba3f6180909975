-- ===== src/KeysDb/Migrated.antt =====
-- The columns of the table after the migrations.
use rein.Base.{
  ℕ, ◌+◌, ◌≡◌, refl, ap, Bool, true, false, List, [], ◌∷◌, ◌++◌, if◌then◌else◌, Text, bytes,
  text_eq, text_eq_iff, All, arith, inl, inr, Bool-cases,
}
use rein.Base.Try.{Try, done, failed}
use rein.Sql.{Faults, no_faults, executed}
use rein.KeysDb.Schema.{
  SchemaError, scan_columns, valid_bare_ident, column_exists, virtual_keys, add_missing, add_column,
  go_on, add_columns, migrated, apply_migrations,
}

unfoldable pub contains : Text → List Text → Bool
contains c [] = false
contains c (n ∷ ns) = if text_eq n c then true else contains c ns

contains-append :
    (c d : Text) (ns : List Text) → contains c ns ≡ true → contains c (ns ++ d ∷ []) ≡ true
unfolding contains
contains-append c d [] h = absurd (ground arith)
contains-append c d (n ∷ ns) h = ground (arith, contains-append c d ns)

contains-append_self : (c : Text) (ns : List Text) → contains c (ns ++ c ∷ []) ≡ true
unfolding contains
contains-append_self c [] = rw ((text_eq_iff c c).1 refl) refl
contains-append_self c (n ∷ ns) = ground (arith, contains-append_self c ns)

scan_columns-contains :
    (fails : Faults) (i : ℕ) (c : Text) (ns : List Text) (b : Bool)
    → scan_columns fails i c ns ≡ done b
    → contains c ns ≡ b
unfolding scan_columns contains
scan_columns-contains fails i c [] b e = ground arith
scan_columns-contains fails i c (n ∷ ns) b e =
    ground (arith, scan_columns-contains fails (i + 1) c ns b)

scan_columns-no_faults :
    (i : ℕ) (c : Text) (ns : List Text) → scan_columns no_faults i c ns ≡ done (contains c ns)
unfolding scan_columns contains
scan_columns-no_faults i c [] = refl
scan_columns-no_faults i c (n ∷ ns) = ground (arith, scan_columns-no_faults (i + 1) c ns)

virtual_keys_valid : valid_bare_ident virtual_keys ≡ true
unfolding valid_bare_ident bytes
virtual_keys_valid = refl

column_exists-contains :
    (fails : Faults) (c : Text) (ns : List Text) (b : Bool)
    → column_exists fails virtual_keys c ns ≡ done b
    → contains c ns ≡ b
unfolding column_exists
column_exists-contains fails c ns b e =
    scan_columns-contains fails 0 c ns b (ground (arith, virtual_keys_valid))

-- A column that is added is there, and no column goes.
Grows : List Text → List Text → Type 0
Grows ns ns' = (c : Text) → contains c ns ≡ true → contains c ns' ≡ true

add_missing-Grows :
    (fails : Faults) (c : Text) (ns ns' : List Text) (o : Try SchemaError Bool) {x : Unit {0}}
    → ((b : Bool) → o ≡ done b → contains c ns ≡ b)
    → add_missing fails c ns o ≡ (done x, ns')
    → (contains c ns' ≡ true) × Grows ns ns'
unfolding Grows
add_missing-Grows fails c ns ns' (failed e) there h = absurd (ground arith)
add_missing-Grows fails c ns ns' (done true) there h =
    let same : ns ≡ ns' = ap (λ p. p.1) h in rw (← same) (there true refl, λ d k. k)
add_missing-Grows fails c ns ns' (done false) there h = elim (Bool-cases (fails (executed 0))) [
  | inl bad ↦ absurd (ground arith)
  | inr good ↦
      let same : ns ++ c ∷ [] ≡ ns' = ap (λ p. p.1) (rw good at h) in
      rw (← same) (contains-append_self c ns, λ d k. contains-append d c ns k)
]

-- A column that is there is not added again.
add_column_there :
    (c : Text) (ns : List Text) → contains c ns ≡ true → add_column no_faults c ns ≡ (done tt, ns)
unfolding add_column column_exists
add_column_there c ns h =
    rw (virtual_keys_valid, column_exists, scan_columns-no_faults 0 c ns, h) refl

add_columns_there :
    (i : ℕ) (cs ns : List Text)
    → All (λ c. contains c ns ≡ true) cs
    → add_columns (λ j. no_faults) i cs ns ≡ (done tt, ns)
unfolding add_columns
add_columns_there i [] ns h = refl
add_columns_there i (c ∷ cs) ns (here, later) =
    rw (add_column_there c ns here) (add_columns_there (i + 1) cs ns later)

go_on_done :
    (p : Try SchemaError Unit × List Text) (k : List Text → Try SchemaError Unit × List Text)
    (ns : List Text) {x : Unit {0}}
    → go_on p k ≡ (done x, ns)
    → (y : Unit {0}) × (p.0 ≡ done y) × (k p.1 ≡ (done x, ns))
go_on_done (failed e, names) k ns h = absurd (ground arith)
go_on_done (done y, names) k ns h = (y, refl, h)

add_columns_done :
    (fails : ℕ → Faults) (i : ℕ) (cs ns ns' : List Text) {x : Unit {0}}
    → add_columns fails i cs ns ≡ (done x, ns')
    → All (λ c. contains c ns' ≡ true) cs × Grows ns ns'
unfolding add_columns add_column Grows
add_columns_done fails i [] ns ns' h =
    let same : ns ≡ ns' = ap (λ p. p.1) h in (tt, λ c k. rw (← same) k)
add_columns_done fails i (c ∷ cs) ns ns' h =
    let (y, added, rest) = go_on_done (add_column (fails i) c ns) _ ns' h in
    let (here, grows) =
      add_missing-Grows (fails i) c ns (add_column (fails i) c ns).1
        (column_exists (fails i) virtual_keys c ns)
        (λ b e. column_exists-contains (fails i) c ns b e)
        (ap (λ t. (t, (add_column (fails i) c ns).1)) added) in
    let (all, more) = add_columns_done fails (i + 1) cs (add_column (fails i) c ns).1 ns' rest in
    ((more c here, all), λ d k. more d (grows d k))

-- Migrations that succeed, on any columns, leave every column that they know in the table and drop
-- none; and when they run again, no call failing, they succeed and change nothing.
pub apply_migrations_twice :
    (fails : ℕ → Faults) (ns ns' : List Text) {x : Unit {0}}
    → apply_migrations fails ns ≡ (done x, ns')
    → All (λ c. contains c ns' ≡ true) migrated
      × ((c : Text) → contains c ns ≡ true → contains c ns' ≡ true)
      × (apply_migrations (λ i. no_faults) ns' ≡ (done tt, ns'))
unfolding apply_migrations Grows
apply_migrations_twice fails ns ns' h =
    let (all, grows) = add_columns_done fails 0 migrated ns ns' h in
    (all, grows, add_columns_there 0 migrated ns' all)
