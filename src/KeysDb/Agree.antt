-- ===== src/KeysDb/Agree.antt =====
-- The table and the in-memory store under one column: what one of them has, the other has too.
use rein.Base.{
  ℕ, ◌≡◌, refl, ap, ◌∙◌, Bool, [], ◌∷◌, ◌++◌, none, some, if◌then◌else◌, is_some, Text, Dict,
  lookup, insert, lookup-insert, length, text_eq, text_eq_iff, inl, inr, Bool-cases,
}
use rein.Sql.{update_where}
use rein.Cipher.{Cipher}
use rein.Rfc3339.{Rfc3339}
use rein.Keys.{VirtualKey, Memory, store_key}
use rein.Keys.Store.{PointsTo, store_key-PointsTo, store_key-PointsTo_new}
use rein.KeysDb.{Row, Table, select}
use rein.KeysDb.Lookup.{select-update_where, select-append}
use rein.KeysDb.Scan.{Reads}

-- The column, the field of the key and the map of the in-memory store.
pub record Column (F : Type 0) : Type 0 where
  pub col : Row F → Text
  pub field : VirtualKey F → Text
  pub index : Memory F → Dict ℕ
  pub entry :
      {m : Memory F} {a : ℕ} {k : VirtualKey F}
      → PointsTo m a k
      → lookup (field k) (index m) ≡ some a
  pub stored :
      (m : Memory F) (k : VirtualKey F)
      → index (store_key m k) ≡ insert (field k) (length m.cells) (index m)

module _ {F : Type 0} (cipher : Cipher) (clock : Rfc3339) (c : Column F) where
  pub data Under (t : Table F) (m : Memory F) (x : Text) : Type 0 where
    absent : select (λ r. text_eq (c.col r) x) t ≡ none → lookup x (c.index m) ≡ none → Under t m x
    present :
        (r : Row F) (k : VirtualKey F) (a : ℕ)
        → select (λ r. text_eq (c.col r) x) t ≡ some r
        → Reads cipher clock r k
        → PointsTo m a k
        → c.field k ≡ x
        → Under t m x

  -- An UPDATE of some rows, and a change of the keys that these rows say.
  pub update_where-Under :
      (t : Table F) (m n : Memory F) (x : Text) (which : Row F → Bool) (g : Row F → Row F)
      (f : VirtualKey F → VirtualKey F)
      → ((r : Row F) → c.col (g r) ≡ c.col r)
      → ((k : VirtualKey F) → c.field (f k) ≡ c.field k)
      → c.index n ≡ c.index m
      → ((a : ℕ) (k : VirtualKey F) → PointsTo m a k → PointsTo n a (f k))
      → ((r : Row F) (k : VirtualKey F) (a : ℕ)
          → PointsTo m a k
          → Reads cipher clock r k
          → Reads cipher clock (if which r then g r else r) (f k))
      → Under t m x
      → Under (update_where which g t) n x
  update_where-Under t m n x which g f same_col same_field same_index moves reads
        (absent gone missing) =
      absent
        (select-update_where (λ r. text_eq (c.col r) x) which g
            (λ r. ap (λ s. text_eq s x) (same_col r)) t
          ∙ rw gone refl)
        (rw same_index missing)
  update_where-Under t m n x which g f same_col same_field same_index moves reads
        (present r k a found read p named) =
      present (if which r then g r else r) (f k) a
        (select-update_where (λ r. text_eq (c.col r) x) which g
            (λ r. ap (λ s. text_eq s x) (same_col r)) t
          ∙ rw found refl)
        (reads r k a p read) (moves a k p) (same_field k ∙ named)

  -- One more row, and one more key, under an id and a token that are free.
  pub store_key-Under :
      (t : Table F) (m : Memory F) (x : Text) (row : Row F) (k : VirtualKey F)
      → lookup k.id m.by_id ≡ none
      → lookup k.token m.by_token ≡ none
      → lookup (c.field k) (c.index m) ≡ none
      → c.col row ≡ c.field k
      → Reads cipher clock row k
      → Under t m x
      → Under (t ++ row ∷ []) (store_key m k) x
  store_key-Under t m x row k new_id new_token new_field same read (absent gone missing) =
      elim (Bool-cases (text_eq (c.field k) x)) [
        | inl own ↦
            present row k (length m.cells)
              (select-append (λ r. text_eq (c.col r) x) t row ∙ rw (gone, same, own) refl) read
              (store_key-PointsTo_new m k new_id new_token) ((text_eq_iff _ _).0 own)
        | inr other ↦
            absent (select-append (λ r. text_eq (c.col r) x) t row ∙ rw (gone, same, other) refl) (
              rw (c.stored m k, lookup-insert (c.field k) x (length m.cells) (c.index m), other)
                missing)
      ]
  store_key-Under t m x row k new_id new_token new_field same read
        (present r j a found reads p named) =
      present r j a (select-append (λ q. text_eq (c.col q) x) t row ∙ rw found refl) reads
        (store_key-PointsTo m k new_id new_token a j p) named

  -- A row is there exactly if the map has an entry.
  pub select-lookup :
      (t : Table F) (m : Memory F) (x : Text)
      → Under t m x
      → is_some (select (λ r. text_eq (c.col r) x) t) ≡ is_some (lookup x (c.index m))
  select-lookup t m x (absent gone missing) = rw (gone, missing) refl
  select-lookup t m x (present r k a found read p named) =
      let entry : lookup x (c.index m) ≡ some a = rw (← named) (c.entry p) in rw (found, entry) refl
