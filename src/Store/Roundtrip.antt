-- ===== src/Store/Roundtrip.antt =====
-- CreateJob followed by GetJob.
use vibls_assignment.Common.{
  ℕ, suc, String, ◌≡◌, refl, ap, ◌∙◌, inl, inr, true, false, Option, none, some, [], ◌∷◌, ◌++◌,
  arith, ◌==◌, Option-cases, any,
}
use vibls_assignment.Job.{ResourceOverrides, Job}
use vibls_assignment.Store.Rows.{jobs_unique, JobRow, Tables, Platform, Result, ok, World, calm}
use vibls_assignment.Store.Jobs.{
  marshal_column, unmarshal_column, new_row, stored, insert_job, create_job, as_stored, scan_job,
  select_job, get_job,
}
use vibls_assignment.Store.Lookup.{row_of, row_of-append}

-- What the code relies on for a job: identifiers are accepted as identifiers, and the overrides of
-- this job come back from the column as they went in.
pub record Stores (p : Platform) (job : Job) : Type 0 where
  pub valid : (n : ℕ) → p.is_uuid (p.uuid n) ≡ true
  pub back :
      (o : ResourceOverrides)
      → job.resource_overrides ≡ some o
      → (s : String) × (p.marshal_overrides o ≡ some s)
        × (p.unmarshal_overrides (p.jsonb s) ≡ some o)

-- The overrides' column of a stored job.
pub overrides_column :
    (p : Platform) (job : Job)
    → Stores p job
    → (c : Option String) × (marshal_column p.marshal_overrides job.resource_overrides ≡ some c)
      × (unmarshal_column p.unmarshal_overrides (stored p c) ≡ ok job.resource_overrides)
overrides_column p job s = elim (Option-cases job.resource_overrides) [
  | inl nil ↦ (none, ground (arith, nil), ground (arith, nil))
  | inr (o, given) ↦
      let (text, out, in_again) = s.back o given in
      (some text, ground (arith, given, out), ground (arith, given, in_again))
]

-- The tables after an insert.
abbrev pub inserted : Platform → Job → Option String → Tables → Tables
inserted p job c t = record t {
  jobs = t.jobs ++ new_row p job (stored p c) none t ∷ [];
  serial = suc t.serial;
}

pub create_job-inserted :
    (p : Platform) (job : Job) (t : Tables) (c : Option String) (id : String) (w : World)
    → marshal_column p.marshal_overrides job.resource_overrides ≡ some c
    → job.stage_timestamps ≡ none
    → create_job p job (calm t) ≡ (ok id, w)
    → (id ≡ p.uuid t.serial) × (w ≡ calm (inserted p job c t))
unfolding create_job insert_job
create_job-inserted p job t c id w overrides times h = ground (arith, overrides, times)

-- What is inserted keeps the unique indexes.
pub create_job_unique :
    (p : Platform) (job : Job) (t : Tables) (c : Option String) (id : String) (w : World)
    → marshal_column p.marshal_overrides job.resource_overrides ≡ some c
    → job.stage_timestamps ≡ none
    → create_job p job (calm t) ≡ (ok id, w)
    → jobs_unique (inserted p job c t).jobs ≡ true
unfolding create_job insert_job
create_job_unique p job t c id w overrides times h = ground (arith, overrides, times, h)

pub get_job-row_of :
    (p : Platform) (id : String) (t : Tables) (row : JobRow)
    → p.is_uuid id ≡ true
    → row_of id t.jobs ≡ some row
    → get_job p id (calm t) ≡ (scan_job p row, calm t)
unfolding get_job select_job
get_job-row_of p id t row valid found = ground (arith, valid, found)

pub scan_job-new_row :
    (p : Platform) (job : Job) (t : Tables) (c : Option String)
    → unmarshal_column p.unmarshal_overrides (stored p c) ≡ ok job.resource_overrides
    → job.stage_timestamps ≡ none
    → scan_job p (new_row p job (stored p c) none t) ≡ ok (as_stored (p.uuid t.serial) job)
unfolding scan_job
scan_job-new_row p job t c back times = ground (arith, back, times)

-- A job without stage timestamps that was inserted into calm tables is read back under the
-- identifier that CreateJob returned, if that identifier is new: its two instants cut to whole
-- microseconds, and all else as it was.
pub get_job-create_job :
    (p : Platform) (job : Job) (t : Tables) (id : String) (w : World)
    → Stores p job
    → job.stage_timestamps ≡ none
    → any (λ r. r.id == p.uuid t.serial) t.jobs ≡ false
    → create_job p job (calm t) ≡ (ok id, w)
    → get_job p id w ≡ (ok (as_stored id job), w)
get_job-create_job p job t id w s times new h =
    let (c, out, back) = overrides_column p job s in
    let (same, after_insert) = create_job-inserted p job t c id w out times h in
    let row = new_row p job (stored p c) none t in
    rw (same, after_insert)
      (get_job-row_of p row.id (inserted p job c t) row (s.valid t.serial)
          (row_of-append row.id t.jobs row new refl)
        ∙ ap (λ (r : Result Job). (r, calm (inserted p job c t)))
            (scan_job-new_row p job t c back times))
