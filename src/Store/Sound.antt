-- ===== src/Store/Sound.antt =====
-- What the statements of internal/models/db.go keep true of the tables, in the words of the columns:
-- the indexes and references of internal/migrations/files/ as statements about rows.
use mathlib.Core.List.{Memᴰ}
use vibls_assignment.Common.{
  String, ◌≡◌, ◌≢◌, refl, inl, inr, true, false, List, [], ◌∷◌, arith, ◌==◌, eq_iff, Bool-cases,
  any, All,
}
use vibls_assignment.Store.Rows.{
  JobRow, Tables, Platform, is_active, same_target, clashes, jobs_unique,
}
use vibls_assignment.Store.Hashes.{DistinctHashes}
use vibls_assignment.Store.Invariant.{has_job, Reach, empty, Reach-Inv}

-- A queued or running job.
pub data Active (r : JobRow) : Type 0 where
  queued : r.status ≡ "QUEUED" → Active r
  running : r.status ≡ "RUNNING" → Active r

-- Two rows have different ids, and if both are queued or running they differ in the repository, the
-- branch or the namespace.
pub record Apart (r s : JobRow) : Type 0 where
  pub ids : r.id ≢ s.id
  pub targets :
      Active r
      → Active s
      → ¬ (
          (r.repo_url ≡ s.repo_url)
          × (r.branch ≡ s.branch)
          × (r.target_namespace ≡ s.target_namespace))

abbrev pub AllApart : List JobRow → Type 0
AllApart [] = Unit
AllApart (r ∷ rs) = All (Apart r) rs × AllApart rs

-- Some job of the table has the id.
abbrev pub Known : List JobRow → String → Type 0
Known rows id = (r : JobRow) × Memᴰ r rows × (r.id ≡ id)

pub record Sound (t : Tables) : Type 0 where
  pub apart : AllApart t.jobs
  pub hashes : DistinctHashes t.keys
  pub keys_known : All (λ k. Known t.jobs k.job_id) t.keys
  pub events_known : All (λ e. Known t.jobs e.job_id) t.events

is_active-Active : (r : JobRow) → Active r → is_active r.status ≡ true
is_active-Active r (queued e) = ground (arith, eq_iff r.status "QUEUED", e)
is_active-Active r (running e) = ground (arith, eq_iff r.status "RUNNING", e)

same_target-true :
    (r s : JobRow)
    → r.repo_url ≡ s.repo_url
    → r.branch ≡ s.branch
    → r.target_namespace ≡ s.target_namespace
    → same_target r s ≡ true
same_target-true r s e f g = ground (
  arith,
  eq_iff r.repo_url s.repo_url,
  eq_iff r.branch s.branch,
  eq_iff r.target_namespace s.target_namespace,
  e,
  f,
  g,
)

clashes-Apart : (r s : JobRow) → clashes r s ≡ false → Apart r s
clashes-Apart r s h = record {
  ids = λ e. ground (arith, eq_iff r.id s.id, e, h);
  targets = λ a b (e, f, g).
      ground (arith, h, is_active-Active r a, is_active-Active s b, same_target-true r s e f g);
}

any-Apart : (r : JobRow) (rows : List JobRow) → any (clashes r) rows ≡ false → All (Apart r) rows
any-Apart r [] h = tt
any-Apart r (s ∷ rows) h = elim (Bool-cases (clashes r s)) [
  | inl clash ↦ ground (arith, clash, h)
  | inr apart ↦ (clashes-Apart r s apart, any-Apart r rows (ground (arith, h)))
]

jobs_unique-AllApart : (rows : List JobRow) → jobs_unique rows ≡ true → AllApart rows
unfolding jobs_unique
jobs_unique-AllApart [] h = tt
jobs_unique-AllApart (r ∷ rows) h =
    (any-Apart r rows (ground (arith, h)), jobs_unique-AllApart rows (ground (arith, h)))

has_job-Known : (rows : List JobRow) (id : String) → has_job rows id ≡ true → Known rows id
has_job-Known [] id h = cc
has_job-Known (r ∷ rows) id h = elim (Bool-cases (r.id == id)) [
  | inl hit ↦ (r, Memᴰ.head refl, ground (arith, eq_iff r.id id, hit))
  | inr miss ↦
      let (s, m, e) = has_job-Known rows id (ground (arith, miss, h)) in (s, Memᴰ.tail m, e)
]

linked-Known :
    {A : Type 0} (id_of : A → String) (rows : List JobRow) (xs : List A)
    → All (λ a. has_job rows (id_of a) ≡ true) xs
    → All (λ a. Known rows (id_of a)) xs
linked-Known id_of rows [] h = tt
linked-Known id_of rows (a ∷ xs) h =
    (has_job-Known rows (id_of a) h.0, linked-Known id_of rows xs h.1)

-- After any sequence of statements from the empty database, no two jobs have one id, no two queued
-- or running jobs have one repository, branch and namespace, no two idempotency keys have one hash,
-- and every key and every audit event names a job of the table.
pub Reach-Sound : (p : Platform) {t : Tables} → Reach p empty t → Sound t
Reach-Sound p {t} r =
    let v = Reach-Inv p r in
    record {
      apart = jobs_unique-AllApart t.jobs v.unique;
      hashes = v.hashes;
      keys_known = linked-Known (λ k. k.job_id) t.jobs t.keys v.keys_linked;
      events_known = linked-Known (λ e. e.job_id) t.jobs t.events v.events_linked;
    }
