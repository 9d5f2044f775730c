-- ===== src/Api/Reading.antt =====
-- What GET /api/v1/jobs and GET /api/v1/jobs/{id} of internal/api/handlers.go answer.
use vibls_assignment.Common.{
  ◌≤◌, ◌≡◌, refl, sym, ◌∙◌, ◌≢◌, inl, inr, true, false, some, arith, eq_iff, length, All,
}
use vibls_assignment.Job.{status_queued, Time}
use vibls_assignment.Store.Rows.{Tables, Platform, World, Result-cases}
use vibls_assignment.Store.Jobs.{as_stored}
use vibls_assignment.Store.Lookup.{row_of-append}
use vibls_assignment.Store.Listing.{ListJobsResult, effective_limit, list_jobs}
use vibls_assignment.Store.Pages.{matches_job, IsNewestFirst, list_jobs_sound}
use vibls_assignment.Store.Roundtrip.{Stores, overrides_column, get_job-row_of, scan_job-new_row}
use vibls_assignment.Queue.Tasks.{TaskQueue, next_refusal}
use vibls_assignment.Api.Http.{CreateJobRequest, created_body, listing_body, job_body}
use vibls_assignment.Api.Create.{Codec, job_of, create_checked}
use vibls_assignment.Api.Created.{IsNew, row_for, tables_with, at, create_checked-created}
use vibls_assignment.Api.Read.{ListQuery, options_of, handle_list_jobs, handle_get_job}

-- In any environment, an answer 200 to a list request holds no more jobs than the limit, which is
-- 20 unless the request gives a positive number, each of them has the status and the namespace of
-- the request, if it gives them, and none is newer than one before it.
pub handle_list_jobs_sound :
    (p : Platform) (q : ListQuery) (w : World) (found : ListJobsResult)
    → (handle_list_jobs p q w).0 ≡ record { code = 200; body = listing_body found }
    → (length found.jobs ≤ effective_limit (options_of q).limit)
      × All (λ j. matches_job (options_of q) j ≡ true) found.jobs
      × IsNewestFirst found.jobs
unfolding handle_list_jobs
handle_list_jobs_sound p q w found h =
    list_jobs_sound p (options_of q) w found (elim (Result-cases (list_jobs p (options_of q) w).0) [
      | inl (r, answered) ↦ ground (arith, h, answered)
      | inr (e, failed) ↦ ground (arith, h, failed)
    ])

-- Calm, for a request without a cached key, for a target with no queued or running job, and a queue
-- that accepts the task: the new job's id is answered, and a request for that id is then
-- answered 200 with the job as it was requested, QUEUED, its instants cut to whole microseconds.
pub handle_get_job-created :
    (p : Platform) (c : Codec) (req : CreateJobRequest) (now : Time) (t : Tables) (q : TaskQueue)
    (n : IsNew p c req t)
    → Stores p (job_of req now)
    → p.uuid t.serial ≢ ""
    → next_refusal q.refusals ≡ false
    → let (first, s) = create_checked p c req now (at t q) in
      (first ≡ record { code = 201; body = created_body (p.uuid t.serial) status_queued })
      × ((handle_get_job p (p.uuid t.serial) s.world).0
          ≡ record { code = 200; body = job_body (as_stored (p.uuid t.serial) (job_of req now)) })
unfolding handle_get_job
handle_get_job-created p c req now t q n s given accepts =
    let (column, out, back) = overrides_column p (job_of req now) s in
    let row = row_for p c req now t n in
    let read =
      get_job-row_of p (p.uuid t.serial) (tables_with p c req now t n) row (s.valid t.serial)
        (row_of-append (p.uuid t.serial) t.jobs row n.fresh refl) in
    let same : some n.column ≡ some column = sym n.marshalled ∙ out in
    let scanned =
      scan_job-new_row p (job_of req now) t n.column (ground (arith, same, back)) refl in
    rw (create_checked-created p c req now t q n accepts)
      (refl, ground (arith, read, scanned, given, eq_iff (p.uuid t.serial) ""))
