-- ===== src/Store/Active.antt =====
-- The unique index over active deployments, and what GetActiveDeployment makes of it.
use mathlib.Core.List.{Memᴰ}
use vibls_assignment.Common.{
  String, ◌≡◌, refl, sym, ap, ◌∙◌, inl, inr, Bool, true, false, some, List, [], ◌∷◌, arith, eq_iff,
  Bool-cases, find_first, any,
}
use vibls_assignment.Store.Rows.{JobRow, Tables, ok, clashes, jobs_unique, calm}
use vibls_assignment.Store.Jobs.{is_deployment_of, get_active_deployment}

clashes-sym : (r s : JobRow) → clashes r s ≡ clashes s r
clashes-sym r s = ground (
  arith,
  eq_iff r.id s.id,
  eq_iff s.id r.id,
  eq_iff r.repo_url s.repo_url,
  eq_iff s.repo_url r.repo_url,
  eq_iff r.branch s.branch,
  eq_iff s.branch r.branch,
  eq_iff r.target_namespace s.target_namespace,
  eq_iff s.target_namespace r.target_namespace,
)

any-Memᴰ :
    (test : JobRow → Bool) (rows : List JobRow) {r : JobRow}
    → Memᴰ r rows
    → any test rows ≡ false
    → test r ≡ false
any-Memᴰ test [] m h = elim m [ ]
any-Memᴰ test (s ∷ rows) (Memᴰ.head e) h = rw e (ground arith)
any-Memᴰ test (s ∷ rows) (Memᴰ.tail m) h = any-Memᴰ test rows m (ground arith)

-- In a table that keeps its unique indexes, two rows that clash are one row.
pub clashes-eq :
    (rows : List JobRow) {r s : JobRow}
    → jobs_unique rows ≡ true
    → Memᴰ r rows
    → Memᴰ s rows
    → clashes r s ≡ true
    → r ≡ s
unfolding jobs_unique
clashes-eq [] u m n c = elim m [ ]
clashes-eq (x ∷ rows) u (Memᴰ.head e) (Memᴰ.head f) c = e ∙ sym f
clashes-eq (x ∷ rows) {r} {s} u (Memᴰ.head e) (Memᴰ.tail m) c =
    let apart = any-Memᴰ (clashes x) rows m (ground arith) in cc (ap (λ k. clashes k s) e, apart)
clashes-eq (x ∷ rows) {r} {s} u (Memᴰ.tail m) (Memᴰ.head f) c =
    let apart = any-Memᴰ (clashes x) rows m (ground arith) in
    cc (ap (λ k. clashes k r) f, clashes-sym r s, apart)
clashes-eq (x ∷ rows) u (Memᴰ.tail m) (Memᴰ.tail n) c = clashes-eq rows (ground arith) m n c

pub find_first-Memᴰ :
    (test : JobRow → Bool) (rows : List JobRow) {r : JobRow}
    → find_first test rows ≡ some r
    → Memᴰ r rows × (test r ≡ true)
find_first-Memᴰ test [] h = cc
find_first-Memᴰ test (s ∷ rows) {r} h = elim (Bool-cases (test s)) [
  | inl hit ↦ let same : s ≡ r = ground arith in (Memᴰ.head (sym same), rw (← same) hit)
  | inr miss ↦
      let (m, passed) = find_first-Memᴰ test rows {r = r} (ground arith) in (Memᴰ.tail m, passed)
]

find_first-some :
    (test : JobRow → Bool) (rows : List JobRow) {r : JobRow}
    → Memᴰ r rows
    → test r ≡ true
    → (s : JobRow) × (find_first test rows ≡ some s)
find_first-some test [] m h = elim m [ ]
find_first-some test (s ∷ rows) (Memᴰ.head e) h =
    let hit : test s ≡ true = rw (← e) h in (s, rw hit)
find_first-some test (s ∷ rows) (Memᴰ.tail n) h =
    let (t, found) = find_first-some test rows n h in
    elim (Bool-cases (test s)) [ inl hit ↦ (s, ground arith) | inr miss ↦ (t, ground arith) ]

pub clashes_of_deployment :
    (repo_url branch namespace : String) (r s : JobRow)
    → is_deployment_of repo_url branch namespace r ≡ true
    → is_deployment_of repo_url branch namespace s ≡ true
    → clashes r s ≡ true
clashes_of_deployment repo_url branch namespace r s hr hs = ground (
  arith,
  eq_iff r.repo_url repo_url,
  eq_iff s.repo_url repo_url,
  eq_iff r.repo_url s.repo_url,
  eq_iff r.branch branch,
  eq_iff s.branch branch,
  eq_iff r.branch s.branch,
  eq_iff r.target_namespace namespace,
  eq_iff s.target_namespace namespace,
  eq_iff r.target_namespace s.target_namespace,
)

-- In a table that keeps its unique indexes, and calm, GetActiveDeployment finds the queued or
-- running job of a target, whichever row it is: there is no other.
pub get_active_deployment_complete :
    (repo_url branch namespace : String) (t : Tables) (r : JobRow)
    → jobs_unique t.jobs ≡ true
    → Memᴰ r t.jobs
    → is_deployment_of repo_url branch namespace r ≡ true
    → get_active_deployment repo_url branch namespace (calm t) ≡ (ok (r.id, r.status), calm t)
unfolding get_active_deployment
get_active_deployment_complete repo_url branch namespace t r u m h =
    let test = is_deployment_of repo_url branch namespace in
    let (s, found) = find_first-some test t.jobs m h in
    let (n, passed) = find_first-Memᴰ test t.jobs found in
    let same =
      clashes-eq t.jobs u n m (clashes_of_deployment repo_url branch namespace s r passed h) in
    rw (found, same) refl
