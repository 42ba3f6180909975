-- ===== src/Admin/InMemory.antt =====
-- The in-memory key store as the store of the admin API.
use rein.Base.{ℕ, ◌≡◌, refl, List, [], ◌∷◌, none, some, Dict, get_elem?, arith, ◌⊎◌, inl, inr}
use rein.Base.Try.{Try, done, failed}
use rein.Keys.{VirtualKey, KeyPatch, Memory, KeyError, Result, ok, err, or_not_found, read}
use rein.Keys
use rein.Keys.{store_key}
use rein.Admin.{Fault, not_found, revoked, other_fault, KeyStore}

pub ok_inj : {A : Type 0} {a b : A} → ok a ≡ ok b → a ≡ b
ok_inj e = ground arith

pub Result-cases :
    {A : Type 0} (r : Result A) → ((a : A) × (r ≡ ok a)) ⊎ ((e : KeyError) × (r ≡ err e))
Result-cases (ok a) = inl (a, refl)
Result-cases (err e) = inr (e, refl)

abbrev pub fault_of : KeyError → Fault
fault_of Keys.not_found = not_found
fault_of Keys.revoked = revoked
fault_of _ = other_fault

module _ {F : Type 0} where
  abbrev pub found : Result (VirtualKey F) → Try Fault (VirtualKey F)
  found (ok k) = done k
  found (err e) = failed (fault_of e)

  abbrev pub changed : Memory F → Result (Memory F) → Try Fault Unit × Memory F
  changed m (ok n) = (done tt, n)
  changed m (err e) = (failed (fault_of e), m)

  abbrev pub patched :
      Memory F → Result (Memory F × VirtualKey F) → Try Fault (VirtualKey F) × Memory F
  patched m (ok (n, k)) = (done k, n)
  patched m (err e) = (failed (fault_of e), m)

  -- List copies the keys that the map of ids leads to; a map of Go has no order, and this is one.
  unfoldable pub entries : Memory F → Dict ℕ → List (VirtualKey F)
  entries m [] = []
  entries m ((id, a) ∷ rest) = elim (get_elem? m.cells a) [
    | none ↦ entries m rest
    | some k ↦ k ∷ entries m rest
  ]

  abbrev pub memory_store : KeyStore (Memory F) F
  memory_store = record {
    create = λ m k. changed m (Keys.create m (some k));
    get_by_id = λ m id. found (Keys.get_by_id m id);
    list_keys = λ m. done (entries m m.by_id);
    revoke = λ m id now. changed m (Keys.revoke m id now);
    update = λ m id p. patched m (Keys.update m id p);
  }
