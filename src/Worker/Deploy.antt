-- ===== src/Worker/Deploy.antt =====
-- The deploy handler of cmd/worker/main.go: a task's job is loaded and taken through the pipeline.
use vibls_assignment.Common.{
  String, ◌≡◌, refl, sym, true, false, Option, none, some, [], arith, ◌==◌, any,
}
use vibls_assignment.Job.{Job}
use vibls_assignment.Store.Rows.{
  Tables, Platform, DbError, ok, err, World, is_active, jobs_unique, calm,
}
use vibls_assignment.Store.Jobs.{as_stored, new_row, stored, create_job, get_job}
use vibls_assignment.Store.Lookup.{row_of-append}
use vibls_assignment.Store.Roundtrip.{
  create_job_unique, create_job-inserted, inserted, Stores, overrides_column, get_job-create_job,
}
use vibls_assignment.Store.Runnable.{Runs, Runs_of_active}
use vibls_assignment.Worker.Pipeline.{Stages, ExecuteError, Run, execute}
use vibls_assignment.Worker.Plan.{plan_of}
use vibls_assignment.Worker.Outcomes.{first_problem, history, Finished}
use vibls_assignment.Worker.Execute.{execute-Finished}
use mathlib.Core.Path.{subst₂}

-- What the handler returns: a payload that cannot be decoded, a job that cannot be loaded, or what
-- Execute returns. asynq runs the task again on an error.
pub data HandlerError : Type 0 where
  bad_payload : HandlerError
  not_loaded : String → DbError → HandlerError
  pipeline_error : ExecuteError → HandlerError

abbrev pub handled : Option ExecuteError → Option HandlerError
handled none = none
handled (some e) = some (pipeline_error e)

-- `decode` is json.Unmarshal of the payload.
unfoldable pub handle_deploy_job :
    Platform
    → (String → String)
    → Stages
    → (String → Option String)
    → String
    → Run
    → Option HandlerError × Run
handle_deploy_job p env f decode payload s = elim (decode payload) [
  | none ↦ (some bad_payload, s)
  | some job_id ↦
      let (loaded, w) = get_job p job_id s.world in
      elim loaded [
        | err e ↦ (some (not_loaded job_id e), record s { world = w })
        | ok job ↦
            let (result, s') = execute p env f job (record s { world = w }) in (handled result, s')
      ]
]

created-Runs :
    (p : Platform) (job : Job) (t : Tables) (c : Option String)
    → Stores p job
    → is_active job.status ≡ true
    → jobs_unique (inserted p job c t).jobs ≡ true
    → any (λ r. r.id == p.uuid t.serial) t.jobs ≡ false
    → Runs p (p.uuid t.serial) (inserted p job c t)
created-Runs p job t c s active unique new =
    let row = new_row p job (stored p c) none t in
    Runs_of_active p (p.uuid t.serial) (inserted p job c t) row (s.valid t.serial) unique
      (row_of-append (p.uuid t.serial) t.jobs row new refl) active

-- Calm: the task of a queued or running job that CreateJob inserted under a new id, and that has
-- no stage timestamps, takes that job through the pipeline. The job ends COMPLETED, and the handler
-- returns no error, exactly if no stage has a problem; else it ends FAILED at the first problem,
-- with its message.
pub handle_deploy_job-create_job :
    (p : Platform) (env : String → String) (f : Stages) (decode : String → Option String)
    (payload : String) (job : Job) (t : Tables) (id : String) (w : World)
    → Stores p job
    → job.stage_timestamps ≡ none
    → is_active job.status ≡ true
    → any (λ r. r.id == p.uuid t.serial) t.jobs ≡ false
    → create_job p job (calm t) ≡ (ok id, w)
    → decode payload ≡ some id
    → let o = execute p env f (as_stored id job) (record { world = w; calls = [] }) in
      (handle_deploy_job p env f decode payload (record { world = w; calls = [] })
        ≡ (handled o.0, o.1))
      × Finished id w.tables
          (first_problem f (plan_of env (as_stored id job)) [])
          (history f (plan_of env (as_stored id job)) [])
          o
unfolding handle_deploy_job
handle_deploy_job-create_job p env f decode payload job t id w s times active new h decoded =
    let read_back = get_job-create_job p job t id w s times new h in
    let (c, out, back) = overrides_column p job s in
    let (same, after_insert) = create_job-inserted p job t c id w out times h in
    (
      ground (arith, decoded, read_back),
      subst₂
          (λ (i : String) (v : World).
            Finished i v.tables (first_problem f (plan_of env (as_stored i job)) [])
              (history f (plan_of env (as_stored i job)) [])
              (execute p env f (as_stored i job) (record { world = v; calls = [] })))
          (sym same) (sym after_insert)
          (execute-Finished p env f (as_stored (p.uuid t.serial) job) (inserted p job c t)
            (created-Runs p job t c s active (create_job_unique p job t c id w out times h) new)),
    )
