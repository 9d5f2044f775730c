-- ===== src/Store/Update.antt =====
-- UpdateJobStatus on every branch, in an environment that is calm.
use vibls_assignment.Common.{
  suc, String, ◌≡◌, refl, ◌∙◌, ◌≢◌, true, none, some, [], ◌∷◌, ◌++◌, arith, ◌==◌, eq_iff, eq_refl,
  if◌then◌else◌, any,
}
use vibls_assignment.Job.{JobStatus, PipelineStage}
use vibls_assignment.Store.Rows.{
  JobRow, EventRow, Tables, Platform, no_rows, unique_violation, ok, err, World, jobs_unique, calm,
}
use vibls_assignment.Store.Jobs.{with_status, update_where, update_job_status}
use vibls_assignment.Store.Lookup.{row_of, row_of-update, any-update}

-- The audit event that the update writes.
abbrev pub audit : Platform → String → JobStatus → PipelineStage → String → Tables → EventRow
audit p id status stage message t = record {
  id = p.uuid t.serial;
  job_id = id;
  from_stage = none;
  to_stage = some stage;
  status = status;
  message = some message;
  metadata = none;
  created_at = t.now;
}

-- The tables after a successful update.
abbrev pub updated : Platform → String → JobStatus → PipelineStage → String → Tables → Tables
updated p id status stage message t = record t {
  jobs = update_where (λ r. r.id == id) (with_status status stage message t.now) t.jobs;
  events = t.events ++ audit p id status stage message t ∷ [];
  serial = suc t.serial;
}

module _ (p : Platform) (id : String) (status : JobStatus) (stage : PipelineStage)
    (message : String) (t : Tables) where
  -- Calm and with a valid id: the update succeeds exactly when the job exists and the new status
  -- breaks no unique index; it then writes the row and one audit event, and else it writes nothing.
  pub update_job_status-calm :
      p.is_uuid id ≡ true
      → update_job_status p id status stage message (calm t) ≡ (
          if any (λ r. r.id == id) t.jobs
          then (if jobs_unique
                (update_where (λ r. r.id == id) (with_status status stage message t.now) t.jobs)
              then (ok tt, calm (updated p id status stage message t))
              else (err unique_violation, calm t))
          else (err no_rows, calm t))
  unfolding update_job_status
  update_job_status-calm valid =
      ground (arith, any-update id id (with_status status stage message t.now) t.jobs (λ r. refl))

  update_job_status-updated :
      (w : World)
      → update_job_status p id status stage message (calm t) ≡ (ok tt, w)
      → w.tables ≡ updated p id status stage message t
  unfolding update_job_status
  update_job_status-updated w h =
      ground (arith, any-update id id (with_status status stage message t.now) t.jobs (λ r. refl))

  pub update_job_status-with_status :
      (row : JobRow) (w : World)
      → row_of id t.jobs ≡ some row
      → update_job_status p id status stage message (calm t) ≡ (ok tt, w)
      → (row_of id w.tables.jobs ≡ some (with_status status stage message t.now row))
        × ((j : String) → j ≢ id → row_of j w.tables.jobs ≡ row_of j t.jobs)
        × (w.tables.keys ≡ t.keys)
        × (w.tables.events ≡ t.events ++ audit p id status stage message t ∷ [])
  update_job_status-with_status row w found h =
      let change = with_status status stage message t.now in
      rw (update_job_status-updated w h) (
        row_of-update id id change t.jobs (λ r. refl) ∙ rw (eq_refl id, found) refl,
        λ j other.
            row_of-update id j change t.jobs (λ r. refl) ∙ ground (arith, eq_iff id j, other),
        refl,
        refl,
      )

  -- After an update that succeeds in a calm environment the job's row has the given status, stage
  -- and message, whatever its earlier status was and also if the message is empty, and the time of
  -- the update; its other columns, every other job and all idempotency keys are as before, and one
  -- audit event was added at the end.
  pub update_job_status-row_of :
      (row : JobRow) (w : World)
      → row_of id t.jobs ≡ some row
      → update_job_status p id status stage message (calm t) ≡ (ok tt, w)
      → ((row' : JobRow) × (row_of id w.tables.jobs ≡ some row')
          × (row'.status ≡ status)
          × (row'.current_stage ≡ some stage)
          × (row'.error_message ≡ some message)
          × (row'.updated_at ≡ t.now)
          × (record row' {
            status = row.status;
            current_stage = row.current_stage;
            error_message = row.error_message;
            updated_at = row.updated_at;
          }
              ≡ row))
        × ((j : String) → j ≢ id → row_of j w.tables.jobs ≡ row_of j t.jobs)
        × (w.tables.keys ≡ t.keys)
        × (w.tables.events ≡ t.events ++ audit p id status stage message t ∷ [])
  update_job_status-row_of row w found h =
      let (written, others, keys, events) = update_job_status-with_status row w found h in
      (
        (with_status status stage message t.now row, written, refl, refl, refl, refl, refl),
        others,
        keys,
        events,
      )
