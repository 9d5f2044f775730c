-- ===== src/Worker/Outcomes.antt =====
-- What a run of Execute of internal/worker/orchestrator.go is to leave behind: the outcome of the
-- first stage that stops it, as a function of the stages' answers alone.
use vibls_assignment.Common.{
  String, ◌≡◌, ◌==◌, true, ◌≢◌, Option, none, some, List, [], ◌∷◌, ◌++◌, map,
}
use vibls_assignment.Job.{
  JobStatus, status_running, status_completed, status_failed, PipelineStage, stage_health_checking,
}
use vibls_assignment.Store.Rows.{JobRow, EventRow, Tables, calm, jobs_unique}
use vibls_assignment.Store.Jobs.{update_where}
use vibls_assignment.Store.Lookup.{row_of}
use vibls_assignment.Store.Runnable.{running}
use vibls_assignment.Worker.Pipeline.{Call, Stages, ExecuteError, stage_failed, Outcome}
use vibls_assignment.Worker.Plan.{PlanStep, problem}

module _ (f : Stages) where
  -- The first step whose stage stops the pipeline, with its message.
  abbrev pub first_problem : List PlanStep → List Call → Option (PipelineStage × String)
  first_problem [] calls = none
  first_problem (x ∷ xs) calls = elim (problem f x.kind calls x.call) [
    | some message ↦ some (x.stage, message)
    | none ↦ first_problem xs (calls ++ x.call ∷ [])
  ]

  -- The audit trail: every step that is entered, and the end.
  abbrev pub history : List PlanStep → List Call → List (PipelineStage × JobStatus × String)
  history [] calls = (stage_health_checking, status_completed, "") ∷ []
  history (x ∷ xs) calls = (x.stage, status_running, "") ∷ elim (problem f x.kind calls x.call) [
    | some message ↦ (x.stage, status_failed, message) ∷ []
    | none ↦ history xs (calls ++ x.call ∷ [])
  ]

abbrev pub final_error : Option (PipelineStage × String) → Option ExecuteError
final_error none = none
final_error (some (stage, message)) = some (stage_failed stage message)

abbrev pub final_status : Option (PipelineStage × String) → JobStatus
final_status none = status_completed
final_status (some _) = status_failed

abbrev pub final_stage : Option (PipelineStage × String) → PipelineStage
final_stage none = stage_health_checking
final_stage (some (stage, message)) = stage

abbrev pub final_message : Option (PipelineStage × String) → String
final_message none = ""
final_message (some (stage, message)) = message

-- What an audit event says of a job.
abbrev pub entry : EventRow → String × Option PipelineStage × JobStatus × Option String
entry e = (e.job_id, e.to_stage, e.status, e.message)

abbrev pub entry_of :
    String
    → (PipelineStage × JobStatus × String)
    → String × Option PipelineStage × JobStatus × Option String
entry_of id (stage, status, message) = (id, some stage, status, some message)

-- Two rows of one job: the columns that UpdateJobStatus never writes are equal.
pub record SameJob (r r' : JobRow) : Type 0 where
  pub id : r'.id ≡ r.id
  pub repo_url : r'.repo_url ≡ r.repo_url
  pub branch : r'.branch ≡ r.branch
  pub build_context : r'.build_context ≡ r.build_context
  pub dockerfile_path : r'.dockerfile_path ≡ r.dockerfile_path
  pub target_namespace : r'.target_namespace ≡ r.target_namespace
  pub overrides : r'.resource_overrides ≡ r.resource_overrides
  pub timestamps : r'.stage_timestamps ≡ r.stage_timestamps
  pub created_at : r'.created_at ≡ r.created_at

pub record Finished (id : String) (t : Tables) (v : Option (PipelineStage × String))
    (trail : List (PipelineStage × JobStatus × String)) (o : Outcome) : Type 0 where
  pub tables : Tables
  pub row : JobRow
  pub error : o.0 ≡ final_error v
  pub settled : o.1.world ≡ calm tables
  pub found : row_of id tables.jobs ≡ some row
  pub status : row.status ≡ final_status v
  pub stage : row.current_stage ≡ some (final_stage v)
  pub message : row.error_message ≡ some (final_message v)
  pub kept : (r : JobRow) → row_of id t.jobs ≡ some r → SameJob r row
  pub unique : jobs_unique tables.jobs ≡ true
  pub alone : jobs_unique (update_where (λ r. r.id == id) running tables.jobs) ≡ true
  pub others : (j : String) → j ≢ id → row_of j tables.jobs ≡ row_of j t.jobs
  pub keys : tables.keys ≡ t.keys
  pub audited : map entry tables.events ≡ map entry t.events ++ map (entry_of id) trail
