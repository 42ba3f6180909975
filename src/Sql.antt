-- ===== src/Sql.antt =====
-- database/sql and SQLite as the code uses them: which calls of one operation fail is an input, and
-- a transaction that is not committed changes nothing.
use rein.Base.{ℕ, ◌+◌, Bool, false, List, [], ◌∷◌, if◌then◌else◌}
use rein.Base.Try.{Try, done, failed}

-- The calls of an operation: `executed n` is its n-th statement and `scanned n` the scan of its
-- n-th row.
pub data DbCall : Type 0 where
  opened pinged queried iterated begun prepared read_back counted committed : DbCall
  executed scanned : ℕ → DbCall

-- The calls that fail.
abbrev pub Faults : Type 0
Faults = DbCall → Bool

abbrev pub no_faults : Faults
no_faults _ = false

-- A transaction: what its statements leave is stored if they all succeed and the commit does too.
abbrev pub transaction : {E : Type 0} {T : Type 0} → T → Try E T → Try E Unit × T
transaction t (done t') = (done tt, t')
transaction t (failed e) = (failed e, t)

module _ {R : Type 0} where
  -- `UPDATE … SET … WHERE …`
  unfoldable pub update_where : (R → Bool) → (R → R) → List R → List R
  update_where test f [] = []
  update_where test f (r ∷ rs) = (if test r then f r else r) ∷ update_where test f rs

  -- RowsAffected
  unfoldable pub affected : (R → Bool) → List R → ℕ
  affected test [] = 0
  affected test (r ∷ rs) = (if test r then 1 else 0) + affected test rs

  -- The rows that a SELECT finds.
  unfoldable pub where_rows : (R → Bool) → List R → List R
  where_rows test [] = []
  where_rows test (r ∷ rs) = if test r then r ∷ where_rows test rs else where_rows test rs
