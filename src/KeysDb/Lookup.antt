-- ===== src/KeysDb/Lookup.antt =====
-- What a lookup finds after each operation, when no call of the database fails.
use rein.Base.{
  ◌≡◌, refl, ap, Bool, true, [], ◌∷◌, ◌++◌, none, some, if◌then◌else◌, or_else, arith, inl, inr,
  Bool-cases,
}
use rein.Sql.{update_where, affected}
use rein.KeysDb.{Row, Table, map_option, select}

module _ {F : Type 0} where
  -- A test that the update does not touch finds the row it found, updated.
  pub select-update_where :
      (test which : Row F → Bool) (f : Row F → Row F)
      → ((r : Row F) → test (f r) ≡ test r)
      → (t : Table F)
      → select test (update_where which f t)
        ≡ map_option (λ r. if which r then f r else r) (select test t)
  unfolding select update_where
  select-update_where test which f keeps [] = refl
  select-update_where test which f keeps (r ∷ rs) = elim (Bool-cases (test r)) [
    | inl found ↦ elim (Bool-cases (which r)) [
      | inl hit ↦ rw (hit, keeps r, found) (rw hit refl)
      | inr miss ↦ rw (miss, found) (rw miss refl)
    ]
    | inr passed ↦ elim (Bool-cases (which r)) [
      | inl hit ↦ rw (hit, keeps r, passed) (select-update_where test which f keeps rs)
      | inr miss ↦ rw (miss, passed) (select-update_where test which f keeps rs)
    ]
  ]

  pub select-append :
      (test : Row F → Bool) (t : Table F) (r : Row F)
      → select test (t ++ r ∷ []) ≡ or_else (select test t) (if test r then some r else none)
  unfolding select
  select-append test [] r = refl
  select-append test (q ∷ t) r = elim (Bool-cases (test q)) [
    | inl found ↦ rw found refl
    | inr passed ↦ rw passed (select-append test t r)
  ]

  pub select_holds :
      (test : Row F → Bool) (t : Table F) (r : Row F) → select test t ≡ some r → test r ≡ true
  unfolding select
  select_holds test [] r e = absurd (ground arith)
  select_holds test (q ∷ t) r e = elim (Bool-cases (test q)) [
    | inl found ↦ let same : q ≡ r = ground arith in rw (← same) found
    | inr passed ↦ select_holds test t r (rw passed at e)
  ]

  -- An update that finds no row changes none.
  pub affected_none :
      (which : Row F → Bool) (f : Row F → Row F) (t : Table F)
      → affected which t ≡ 0
      → update_where which f t ≡ t
  unfolding affected update_where
  affected_none which f [] e = refl
  affected_none which f (r ∷ rs) e = elim (Bool-cases (which r)) [
    | inl hit ↦ absurd (ground arith)
    | inr miss ↦ rw miss (ap (λ t. r ∷ t) (affected_none which f rs (ground arith)))
  ]
