-- ===== src/System/Deployment.antt =====
-- A deployment from its request to its end, as a client sees it: POST /api/v1/jobs of
-- internal/api/handlers.go, the delivery of the task to the handler of cmd/worker/main.go, and
-- GET /api/v1/jobs/{id}.
use vibls_assignment.Common.{
  String, ◌≡◌, refl, sym, ap, ◌∙◌, ◌≢◌, false, Option, some, [], ◌∷◌, ◌++◌, arith, eq_iff,
}
use vibls_assignment.Job.{JobStatus, status_queued, Time, Job}
use vibls_assignment.Store.Rows.{JobRow, Tables, Platform, Result, ok, calm}
use vibls_assignment.Store.Jobs.{as_stored, scan_job, get_job}
use vibls_assignment.Store.Lookup.{row_of, row_of-append}
use vibls_assignment.Store.Insert.{insert_unique}
use vibls_assignment.Store.Roundtrip.{Stores, overrides_column, get_job-row_of, scan_job-new_row}
use vibls_assignment.Store.Runnable.{Runs, Runs_of_active}
use vibls_assignment.Queue.Tasks.{TaskQueue, next_refusal, deploy_task}
use vibls_assignment.Api.Http.{Response, CreateJobRequest, created_body, job_body}
use vibls_assignment.Api.Create.{Codec, job_of, create_checked}
use vibls_assignment.Api.Created.{IsNew, row_for, tables_with, at, create_checked-created}
use vibls_assignment.Api.Read.{handle_get_job}
use vibls_assignment.Worker.Pipeline.{Stages, Outcome, execute}
use vibls_assignment.Worker.Plan.{plan_of}
use vibls_assignment.Worker.Outcomes.{
  Finished, first_problem, history, final_status, final_stage, final_message, final_error,
}
use vibls_assignment.Worker.Execute.{execute-Finished}
use vibls_assignment.Worker.Deploy.{handled, handle_deploy_job}
use vibls_assignment.Worker.Again.{written, scan_job-written}

module _ (p : Platform) (c : Codec) (env : String → String) (f : Stages) (req : CreateJobRequest)
    (now : Time) (t : Tables) (n : IsNew p c req t) (stores : Stores p (job_of req now)) where
  abbrev id : String
  id = p.uuid t.serial

  abbrev job : Job
  job = as_stored id (job_of req now)

  abbrev start : Tables
  start = tables_with p c req now t n

  found : row_of id start.jobs ≡ some (row_for p c req now t n)
  found = row_of-append id t.jobs (row_for p c req now t n) n.fresh refl

  scanned : scan_job p (row_for p c req now t n) ≡ ok job
  scanned =
      let (column, out, back) = overrides_column p (job_of req now) stores in
      let same : some n.column ≡ some column = sym n.marshalled ∙ out in
      scan_job-new_row p (job_of req now) t n.column (ground (arith, same, back)) refl

  loaded : get_job p id (calm start) ≡ (ok job, calm start)
  loaded =
      get_job-row_of p id start (row_for p c req now t n) (stores.valid t.serial) found
      ∙ ap (λ (r : Result Job). (r, calm start)) scanned

  start-Runs : Runs p id start
  start-Runs =
      let row = row_for p c req now t n in
      Runs_of_active p id start row (stores.valid t.serial)
        (insert_unique t.jobs row n.unique n.fresh n.idle) found refl

  abbrev ended : Outcome
  ended = execute p env f job (record { world = calm start; calls = [] })

  ended-Finished :
      Finished id start
        (first_problem f (plan_of env job) [])
        (history f (plan_of env job) [])
        ended
  ended-Finished = execute-Finished p env f job start start-Runs

  delivered :
      (decode : String → Option String)
      → decode n.payload ≡ some id
      → handle_deploy_job p env f decode n.payload (record { world = calm start; calls = [] })
        ≡ (handled ended.0, ended.1)
  unfolding handle_deploy_job
  delivered decode decoded = ground (arith, decoded, loaded)

  -- The job as it is read at the end.
  abbrev final_job : JobRow → Job
  final_job row =
      let v = first_problem f (plan_of env job) [] in
      written job row (final_stage v) (final_message v)

  read_at_end :
      id ≢ ""
      → (handle_get_job p id ended.1.world).0
        ≡ record { code = 200; body = job_body (final_job ended-Finished.row) }
  unfolding handle_get_job
  read_at_end given =
      let e = ended-Finished in
      let read = get_job-row_of p id e.tables e.row (stores.valid t.serial) e.found in
      let final =
        scan_job-written p (row_for p c req now t n) e.row job _ _ scanned
          (e.kept (row_for p c req now t n) found) e.stage e.message in
      rw e.settled (ground (arith, read, final, given, eq_iff id ""))

  -- Calm: a request without a cached key for a target with no queued or running job, and a queue
  -- that accepts the task. The client is answered 201 with the new job's id and the job's task is
  -- queued; once the worker has run that task, a request for the id is answered with the job as it
  -- was requested (its instant of creation cut to whole microseconds), COMPLETED at HEALTH_CHECKING without a message if no stage had a problem, and
  -- else FAILED at the first stage that had one, with its message; the handler returns an error
  -- exactly in the second case. That holds if identifiers are not empty and the job's overrides and
  -- its task's payload come back as they were stored.
  pub deployment_from_request_to_end :
      (decode : String → Option String) (q : TaskQueue)
      → id ≢ ""
      → next_refusal q.refusals ≡ false
      → decode n.payload ≡ some id
      → let v = first_problem f (plan_of env job) [] in
        let (first, s) = create_checked p c req now (at t q) in
        let (answer, r) =
          handle_deploy_job p env f decode n.payload (record { world = s.world; calls = [] }) in
        (first ≡ record { code = 201; body = created_body id status_queued })
        × (s.queue.tasks ≡ q.tasks ++ deploy_task id n.payload ∷ [])
        × (answer ≡ handled (final_error v))
        × (at_end : Time) × ((handle_get_job p id r.world).0 ≡ record {
          code = 200;
          body = job_body (record job {
            status = final_status v;
            current_stage = final_stage v;
            error_message = final_message v;
            updated_at = at_end;
          });
        })
  deployment_from_request_to_end decode q given accepts decoded =
      let e = ended-Finished in
      rw (create_checked-created p c req now t q n accepts, delivered decode decoded)
        (
          refl,
          refl,
          ap handled e.error,
          e.row.updated_at,
          read_at_end given ∙ ap (λ (s : JobStatus). answer_with s) e.status,
        )
    where
      answer_with : JobStatus → Response
      answer_with s = record {
        code = 200;
        body = job_body (record (final_job ended-Finished.row) { status = s });
      }
