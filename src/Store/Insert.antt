-- ===== src/Store/Insert.antt =====
-- When a new row keeps the unique indexes of `jobs`.
use vibls_assignment.Common.{
  String, ◌≡◌, refl, ap, ◌∙◌, inl, inr, Bool, true, false, not, ◌&&◌, ◌||◌, none, some, List, [],
  ◌∷◌, ◌++◌, arith, ◌==◌, eq_refl, Bool-cases, find_first, any,
}
use vibls_assignment.Store.Rows.{JobRow, IdempotencyKey, is_active, clashes, jobs_unique}
use vibls_assignment.Store.Jobs.{is_deployment_of}

pub jobs_unique-append :
    (rows : List JobRow) (row : JobRow)
    → jobs_unique (rows ++ row ∷ []) ≡ (jobs_unique rows && not (any (λ r. clashes r row) rows))
unfolding jobs_unique
jobs_unique-append [] row = refl
jobs_unique-append (r ∷ rows) row =
    ground (arith, jobs_unique-append rows row, any-append (clashes r) rows row)
  where
    any-append :
        (test : JobRow → Bool) (rows : List JobRow) (row : JobRow)
        → any test (rows ++ row ∷ []) ≡ (any test rows || test row)
    any-append test [] row = ground arith
    any-append test (r ∷ rows) row = ground (arith, any-append test rows row)

pub or-eq-false : (a b : Bool) → (a || b) ≡ false → (a ≡ false) × (b ≡ false)
or-eq-false a b h = ground arith

find_first-none :
    (test : JobRow → Bool) (r : JobRow) (rows : List JobRow)
    → find_first test (r ∷ rows) ≡ none
    → (test r ≡ false) × (find_first test rows ≡ none)
find_first-none test r rows h = elim (Bool-cases (test r)) [
  | inl hit ↦ ground arith
  | inr miss ↦ (miss, ground arith)
]

no_clash_test :
    (i u b n a new : Bool)
    → i ≡ false
    → (u && b && n && a) ≡ false
    → (i || a && new && (u && b && n)) ≡ false
no_clash_test i u b n true new h k = ground arith
no_clash_test i u b n false new h k = ground arith

clash_test :
    (i u b n a new : Bool)
    → new ≡ true
    → (u && b && n && a) ≡ true
    → (i || a && new && (u && b && n)) ≡ true
clash_test i u b n a new h k = ground arith

-- A row with a new id, for a target that has no active row, clashes with none.
no_clash :
    (rows : List JobRow) (row : JobRow)
    → any (λ r. r.id == row.id) rows ≡ false
    → find_first (is_deployment_of row.repo_url row.branch row.target_namespace) rows ≡ none
    → any (λ r. clashes r row) rows ≡ false
no_clash [] row new free = refl
no_clash (r ∷ rows) row new free =
    let (other, others) = or-eq-false (r.id == row.id) (any (λ s. s.id == row.id) rows) new in
    let (idle, idles) =
      find_first-none (is_deployment_of row.repo_url row.branch row.target_namespace) r rows free in
    rw
      (no_clash_test (r.id == row.id) (r.repo_url == row.repo_url) (r.branch == row.branch)
        (r.target_namespace == row.target_namespace) (is_active r.status) (is_active row.status)
        other idle)
      (no_clash rows row others idles)

pub insert_unique :
    (rows : List JobRow) (row : JobRow)
    → jobs_unique rows ≡ true
    → any (λ r. r.id == row.id) rows ≡ false
    → find_first (is_deployment_of row.repo_url row.branch row.target_namespace) rows ≡ none
    → jobs_unique (rows ++ row ∷ []) ≡ true
insert_unique rows row u new free =
    jobs_unique-append rows row ∙ rw (u, no_clash rows row new free) refl

or_true : (a : Bool) → (a || true) ≡ true
or_true a = ground arith

-- An active row for a target that has one already clashes with it.
clash_found :
    (rows : List JobRow) (row : JobRow) {r : JobRow}
    → is_active row.status ≡ true
    → find_first (is_deployment_of row.repo_url row.branch row.target_namespace) rows ≡ some r
    → any (λ s. clashes s row) rows ≡ true
clash_found [] row active found = cc
clash_found (s ∷ rows) row {r} active found =
    let test = is_deployment_of row.repo_url row.branch row.target_namespace in
    elim (Bool-cases (test s)) [
      | inl hit ↦
          rw
            (clash_test (s.id == row.id) (s.repo_url == row.repo_url) (s.branch == row.branch)
              (s.target_namespace == row.target_namespace) (is_active s.status)
              (is_active row.status) active hit)
            refl
      | inr miss ↦
          ap (λ (b : Bool). clashes s row || b)
            (clash_found rows row {r = r} active (rw (miss, find_first) at found))
          ∙ or_true (clashes s row)
    ]

pub insert_clash :
    (rows : List JobRow) (row : JobRow) {r : JobRow}
    → is_active row.status ≡ true
    → find_first (is_deployment_of row.repo_url row.branch row.target_namespace) rows ≡ some r
    → jobs_unique (rows ++ row ∷ []) ≡ false
insert_clash rows row {r} active found =
    jobs_unique-append rows row ∙ ground (arith, clash_found rows row {r = r} active found)

pub any-append_last :
    (rows : List JobRow) (row : JobRow) → any (λ r. r.id == row.id) (rows ++ row ∷ []) ≡ true
any-append_last [] row = rw (eq_refl row.id) refl
any-append_last (r ∷ rows) row = ground (arith, any-append_last rows row)

pub find_key-append :
    (hash : String) (keys : List IdempotencyKey) (key : IdempotencyKey)
    → find_first (λ k. k.hash == hash) keys ≡ none
    → key.hash ≡ hash
    → find_first (λ k. k.hash == hash) (keys ++ key ∷ []) ≡ some key
find_key-append hash [] key free e = rw (e, eq_refl hash) refl
find_key-append hash (k ∷ keys) key free e = ground (arith, find_key-append hash keys key)

pub any_key-none :
    (hash : String) (keys : List IdempotencyKey)
    → find_first (λ k. k.hash == hash) keys ≡ none
    → any (λ k. k.hash == hash) keys ≡ false
any_key-none hash [] free = refl
any_key-none hash (k ∷ keys) free = ground (arith, any_key-none hash keys)
