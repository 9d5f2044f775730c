-- ===== src/Store/Runnable.antt =====
-- When UpdateJobStatus cannot fail: the job exists, no other job of its target is active, and
-- nobody else acts.
use vibls_assignment.Common.{
  String, ◌≡◌, refl, sym, ap, ◌∙◌, inl, inr, Bool, true, false, ◌&&◌, ◌||◌, some, List, [], ◌∷◌,
  arith, ◌==◌, eq_iff, if◌then◌else◌, Bool-cases, any, All,
}
use vibls_assignment.Job.{JobStatus, PipelineStage}
use vibls_assignment.Store.Rows.{
  JobRow, Tables, Platform, ok, is_active, same_target, clashes, jobs_unique, calm,
}
use vibls_assignment.Store.Jobs.{with_status, update_where, update_job_status}
use vibls_assignment.Store.Lookup.{row_of, any-row_of}
use vibls_assignment.Store.Update.{updated, update_job_status-calm, update_job_status-with_status}

abbrev pub running : JobRow → JobRow
running r = record r { status = "RUNNING" }

-- A job that may be worked on: it has a row, and if that were RUNNING the unique indexes would
-- hold. That is so for a queued or running job, and for one that has ended and whose target is
-- free.
pub record Runs (p : Platform) (id : String) (t : Tables) : Type 0 where
  pub valid : p.is_uuid id ≡ true
  pub unique : jobs_unique t.jobs ≡ true
  pub row : JobRow
  pub found : row_of id t.jobs ≡ some row
  pub alone : jobs_unique (update_where (λ r. r.id == id) running t.jobs) ≡ true

-- A change that keeps the id and the target of a row, and makes no row active that was not.
abbrev IsMild : JobRow → JobRow → Type 0
IsMild r r' =
    (r'.id ≡ r.id)
    × (r'.repo_url ≡ r.repo_url)
    × (r'.branch ≡ r.branch)
    × (r'.target_namespace ≡ r.target_namespace)
    × ((is_active r'.status ≡ true) → is_active r.status ≡ true)

mild_test :
    (c t a b a' b' : Bool)
    → (a' ≡ true → a ≡ true)
    → (b' ≡ true → b ≡ true)
    → (c || a && b && t) ≡ false
    → (c || a' && b' && t) ≡ false
mild_test c t a b true true ha hb h = ground (arith, ha refl, hb refl)
mild_test c t a b true false ha hb h = ground arith
mild_test c t a b false b' ha hb h = ground arith

clashes-IsMild :
    (r r' s s' : JobRow) → IsMild r r' → IsMild s s' → clashes r s ≡ false → clashes r' s' ≡ false
clashes-IsMild r r' s s' m n h =
    rw (m.0, m.1, m.2, m.3, n.0, n.1, n.2, n.3)
      (mild_test (r.id == s.id) (same_target r s) (is_active r.status) (is_active s.status)
        (is_active r'.status) (is_active s'.status) m.4 n.4 h)

IsMild-refl : (r : JobRow) → IsMild r r
IsMild-refl r = (refl, refl, refl, refl, λ h. h)

or-eq-false : (a b : Bool) → (a || b) ≡ false → (a ≡ false) × (b ≡ false)
or-eq-false a b h = ground arith

module _ (id : String) (change : JobRow → JobRow) where
  -- The rows with the id are changed mildly.
  abbrev Mild : List JobRow → Type 0
  Mild = All (λ r. (r.id == id) ≡ true → IsMild r (change r))

  abbrev one : JobRow → JobRow
  one r = if r.id == id then change r else r

  one-IsMild : (r : JobRow) → ((r.id == id) ≡ true → IsMild r (change r)) → IsMild r (one r)
  one-IsMild r h = elim (Bool-cases (r.id == id)) [
    | inl hit ↦ rw hit (h hit)
    | inr miss ↦ rw miss (IsMild-refl r)
  ]

  any-clashes-update :
      (r r' : JobRow) (rows : List JobRow)
      → IsMild r r'
      → Mild rows
      → any (clashes r) rows ≡ false
      → any (clashes r') (update_where (λ s. s.id == id) change rows) ≡ false
  any-clashes-update r r' [] m ms h = refl
  any-clashes-update r r' (s ∷ rows) m ms h =
      let (first, rest) = or-eq-false (clashes r s) (any (clashes r) rows) h in
      rw (clashes-IsMild r r' s (one s) m (one-IsMild s ms.0) first)
        (any-clashes-update r r' rows m ms.1 rest)

  pub jobs_unique-update :
      (rows : List JobRow)
      → Mild rows
      → jobs_unique rows ≡ true
      → jobs_unique (update_where (λ s. s.id == id) change rows) ≡ true
  unfolding jobs_unique
  jobs_unique-update [] ms h = refl
  jobs_unique-update (r ∷ rows) ms h =
      let apart : any (clashes r) rows ≡ false = ground arith in
      let rest : jobs_unique rows ≡ true = ground arith in
      rw (any-clashes-update r (one r) rows (one-IsMild r ms.0) ms.1 apart)
        (jobs_unique-update rows ms.1 rest)

no_other_row :
    (id : String) (r : JobRow) (rows : List JobRow)
    → (r.id == id) ≡ true
    → any (clashes r) rows ≡ false
    → All (λ s. (s.id == id) ≡ true → is_active s.status ≡ true) rows
no_other_row id r [] hit h = tt
no_other_row id r (s ∷ rows) hit h =
    let (first, rest) = or-eq-false (clashes r s) (any (clashes r) rows) h in
    (
      λ also. ground (arith, eq_iff r.id id, eq_iff s.id id, eq_iff r.id s.id, also),
      no_other_row id r rows hit rest,
    )

-- The rows with the id of an active row are that row.
active_rows :
    (id : String) (rows : List JobRow) {row : JobRow}
    → jobs_unique rows ≡ true
    → row_of id rows ≡ some row
    → is_active row.status ≡ true
    → All (λ r. (r.id == id) ≡ true → is_active r.status ≡ true) rows
unfolding jobs_unique
active_rows id [] u found active = tt
active_rows id (r ∷ rows) {row} u found active = elim (Bool-cases (r.id == id)) [
  | inl hit ↦
      let same : r ≡ row = ground arith in
      (λ _. rw same active, no_other_row id r rows hit (ground arith))
  | inr miss ↦ (λ hit. cc, active_rows id rows {row = row} (ground arith) (ground arith) active)
]

-- Two changes of the row with an id, one after the other.
update-update :
    (id : String) (f g : JobRow → JobRow) (rows : List JobRow)
    → ((r : JobRow) → (g r).id ≡ r.id)
    → update_where (λ r. r.id == id) f (update_where (λ r. r.id == id) g rows)
      ≡ update_where (λ r. r.id == id) (λ r. f (g r)) rows
update-update id f g [] keeps = refl
update-update id f g (r ∷ rows) keeps = elim (Bool-cases (r.id == id)) [
  | inl hit ↦ rw (hit, keeps r, hit, update-update id f g rows keeps) refl
  | inr miss ↦ rw (miss, miss, update-update id f g rows keeps) refl
]

-- Making the row with an id RUNNING and then changing something else is mild.
running-Mild :
    (id : String) (change : JobRow → JobRow) (rows : List JobRow)
    → ((r : JobRow) → IsMild (running r) (change (running r)))
    → Mild id change (update_where (λ r. r.id == id) running rows)
running-Mild id change [] mild = tt
running-Mild id change (r ∷ rows) mild = elim (Bool-cases (r.id == id)) [
  | inl hit ↦ rw hit ((λ _. mild r), running-Mild id change rows mild)
  | inr miss ↦ rw miss ((λ hit. cc), running-Mild id change rows mild)
]

-- The row of a job that could run may be changed mildly, and the indexes hold.
jobs_unique-alone :
    (id : String) (change : JobRow → JobRow) (rows : List JobRow)
    → jobs_unique (update_where (λ r. r.id == id) running rows) ≡ true
    → ((r : JobRow) → IsMild (running r) (change (running r)))
    → jobs_unique (update_where (λ r. r.id == id) (λ r. change (running r)) rows) ≡ true
jobs_unique-alone id change rows alone mild =
    ap jobs_unique (sym (update-update id change running rows (λ r. refl)))
    ∙ jobs_unique-update id change (update_where (λ r. r.id == id) running rows)
        (running-Mild id change rows mild) alone

-- A queued or running job of a table that keeps its indexes may be worked on.
pub Runs_of_active :
    (p : Platform) (id : String) (t : Tables) (row : JobRow)
    → p.is_uuid id ≡ true
    → jobs_unique t.jobs ≡ true
    → row_of id t.jobs ≡ some row
    → is_active row.status ≡ true
    → Runs p id t
Runs_of_active p id t row valid unique found active = record {
  valid = valid;
  unique = unique;
  row = row;
  found = found;
  alone =
      jobs_unique-update id running t.jobs
        (to_running t.jobs (active_rows id t.jobs unique found active)) unique;
}
  where
    to_running :
        (rows : List JobRow)
        → All (λ s. (s.id == id) ≡ true → is_active s.status ≡ true) rows
        → Mild id running rows
    to_running [] h = tt
    to_running (s ∷ rows) h = ((λ hit. (refl, refl, refl, refl, λ _. h.0 hit)), to_running rows h.1)

module _ (p : Platform) (id : String) (status : JobStatus) (stage : PipelineStage)
    (message : String) (t : Tables) (r : Runs p id t) where
  still_unique :
      jobs_unique (update_where (λ s. s.id == id) (with_status status stage message t.now) t.jobs)
      ≡ true
  still_unique =
      jobs_unique-alone id (with_status status stage message t.now) t.jobs r.alone
        (λ s. (refl, refl, refl, refl, λ _. refl))

  -- Then the update succeeds, and writes the row and the audit event.
  pub update_job_status-Runs :
      update_job_status p id status stage message (calm t)
      ≡ (ok tt, calm (updated p id status stage message t))
  update_job_status-Runs =
      update_job_status-calm p id status stage message t r.valid
      ∙ rw (any-row_of id t.jobs r.found, still_unique) refl

  -- The job may be worked on further.
  pub updated-Runs : Runs p id (updated p id status stage message t)
  updated-Runs = record {
    valid = r.valid;
    unique = still_unique;
    row = with_status status stage message t.now r.row;
    found =
        (update_job_status-with_status p id status stage message t r.row _ r.found
          update_job_status-Runs).0;
    alone =
        ap jobs_unique
          (update-update id running (with_status status stage message t.now) t.jobs (λ s. refl))
        ∙ jobs_unique-alone id (λ s. running (with_status status stage message t.now s)) t.jobs
            r.alone (λ s. (refl, refl, refl, refl, λ _. refl));
  }
