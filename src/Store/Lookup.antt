-- ===== src/Store/Lookup.antt =====
-- Finding a row of `jobs` by its id after an insert and after an update.
use mathlib.Core.Option
use vibls_assignment.Common.{
  String, ◌≡◌, refl, ◌≢◌, true, false, Option, some, List, [], ◌∷◌, ◌++◌, arith, ◌==◌, eq_iff,
  eq_refl, if◌then◌else◌, find_first, any,
}
use vibls_assignment.Store.Rows.{JobRow}
use vibls_assignment.Store.Jobs.{update_where}

-- The row that `WHERE id = …` finds.
abbrev pub row_of : String → List JobRow → Option JobRow
row_of id = find_first (λ r. r.id == id)

pub row_of-append :
    (id : String) (rows : List JobRow) (row : JobRow)
    → any (λ r. r.id == id) rows ≡ false
    → row.id ≡ id
    → row_of id (rows ++ row ∷ []) ≡ some row
row_of-append id [] row h e = rw (e, eq_refl id)
row_of-append id (r ∷ rows) row h e = ground (arith, row_of-append id rows row)

pub row_of-append_other :
    (id : String) (rows : List JobRow) (row : JobRow)
    → row.id ≢ id
    → row_of id (rows ++ row ∷ []) ≡ row_of id rows
row_of-append_other id [] row e = ground (arith, eq_iff row.id id)
row_of-append_other id (r ∷ rows) row e = ground (arith, row_of-append_other id rows row)

-- The updated row is the old one with the new status, and every other row is as it was.
pub row_of-update :
    (id j : String) (change : JobRow → JobRow) (rows : List JobRow)
    → ((r : JobRow) → (change r).id ≡ r.id)
    → row_of j (update_where (λ r. r.id == id) change rows)
      ≡ (if id == j then Option.map change (row_of j rows) else row_of j rows)
row_of-update id j change [] keeps = ground (arith, eq_iff id j)
row_of-update id j change (r ∷ rows) keeps =
    ground
      (arith, eq_iff id j, eq_iff r.id id, eq_iff r.id j, keeps r, row_of-update id j change rows)

pub any-row_of :
    (id : String) (rows : List JobRow) {row : JobRow}
    → row_of id rows ≡ some row
    → any (λ r. r.id == id) rows ≡ true
any-row_of id [] h = cc
any-row_of id (r ∷ rows) {row} h = ground (arith, any-row_of id rows {row = row})

pub row_of-id :
    (id : String) (rows : List JobRow) {row : JobRow} → row_of id rows ≡ some row → row.id ≡ id
row_of-id id [] h = cc
row_of-id id (r ∷ rows) {row} h = ground (arith, eq_iff r.id id, row_of-id id rows {row = row})

pub any-update :
    (id j : String) (change : JobRow → JobRow) (rows : List JobRow)
    → ((r : JobRow) → (change r).id ≡ r.id)
    → any (λ r. r.id == j) (update_where (λ r. r.id == id) change rows) ≡ any (λ r. r.id == j) rows
any-update id j change [] keeps = refl
any-update id j change (r ∷ rows) keeps = ground (arith, keeps r, any-update id j change rows)
