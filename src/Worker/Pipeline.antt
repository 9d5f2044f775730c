-- ===== src/Worker/Pipeline.antt =====
-- internal/worker/orchestrator.go. The seven stages are functions that the orchestrator is given;
-- what they do outside the database is seen in the calls that were made, and what they answer may
-- depend on all calls made before.
use vibls_assignment.Common.{
  ℕ, String, Bool, true, false, Option, none, some, List, [], ◌∷◌, ◌++◌, ◌==◌, if◌then◌else◌,
}
use vibls_assignment.Common.Text.{cat, decimal}
use vibls_assignment.Job.{
  JobStatus, status_running, status_completed, status_failed, PipelineStage, stage_cloning,
  stage_building, stage_pushing, stage_manifest_generating, stage_verifying, stage_applying,
  stage_health_checking, ResourceOverrides, Job,
}
use vibls_assignment.Store.Rows.{Platform, DbError, ok, err, World}
use vibls_assignment.Store.Jobs.{update_job_status}

-- A call of a stage, with its arguments.
pub data Call : Type 0 where
  clone_call : (job_id repo_url branch workspace : String) → Call
  build_call : (job_id build_context dockerfile tag workspace : String) → Call
  push_call : (tag : String) → Call
  manifest_call :
      (job_id namespace image : String) (overrides : Option ResourceOverrides) (workspace : String)
      → Call
  verify_call : (manifest_dir image_tag : String) → Call
  apply_call : (namespace manifest_dir : String) → Call
  health_call : (namespace : String) → Call

-- verification.VerificationResult, as far as the orchestrator reads it.
pub record VerificationResult : Type 0 where
  pub summary : String
  pub overall_pass : Bool

pub record DeploymentHealth : Type 0 where
  pub ready : Bool
  pub pods_ready : ℕ
  pub pods_total : ℕ
  pub service_up : Bool
  pub details : String

pub data Checked : Type 0 where
  verdict : VerificationResult → Checked
  check_error : String → Checked

-- The stages: each sees the calls made before and its own. A text is the stage's error.
pub record Stages : Type 0 where
  pub run : List Call → Call → Option String
  pub verify : List Call → Call → Checked
  pub health : List Call → Call → DeploymentHealth

-- The errors that Execute returns: a status that could not be written, or a stage that failed.
pub data ExecuteError : Type 0 where
  update_failed : (status : JobStatus) (stage : PipelineStage) → DbError → ExecuteError
  stage_failed : (stage : PipelineStage) (message : String) → ExecuteError

pub record Run : Type 0 where
  pub world : World
  pub calls : List Call

abbrev pub Outcome : Type 0
Outcome = Option ExecuteError × Run

-- os.Getenv gives "" for a variable that is not set.
abbrev pub get_env : (String → String) → String → String → String
get_env env key default_val = if env key == "" then default_val else env key

abbrev pub bool_text : Bool → String
bool_text true = "true"
bool_text false = "false"

abbrev pub called : Call → Run → Run
called c s = record s { calls = s.calls ++ c ∷ [] }

abbrev pub health_message : DeploymentHealth → String
health_message h = cat "health check failed: " (
    cat (decimal h.pods_ready) (
      cat "/"
        (cat (decimal h.pods_total) (cat " pods ready, service up=" (bool_text h.service_up)))))

-- filepath.Join, for parts that are not empty and hold no ".", ".." or double slash.
abbrev pub join : String → String → String
join a b = cat a (cat "/" b)

module _ (p : Platform) where
  -- UpdateJobStatus, and how Execute goes on if it succeeds.
  abbrev pub set_then : String → JobStatus → PipelineStage → (Run → Outcome) → Run → Outcome
  set_then id status stage k s =
      let (r, w) = update_job_status p id status stage "" s.world in
      elim r [
        | err e ↦ (some (update_failed status stage e), record s { world = w })
        | ok u ↦ k (record s { world = w })
      ]

  -- A stage has failed: the status is set to FAILED, and an error of that is dropped.
  abbrev pub fail : String → PipelineStage → String → Run → Outcome
  fail id stage message s = (
    some (stage_failed stage message),
    record s { world = (update_job_status p id status_failed stage message s.world).1 },
  )

  -- How Execute goes on when a stage has answered with an error or nil.
  abbrev pub answered : String → PipelineStage → (Run → Outcome) → Option String → Run → Outcome
  answered id stage k (some message) s = fail id stage message s
  answered id stage k none s = k s

  -- A stage that answers with an error or nil.
  abbrev pub attempt : Stages → String → PipelineStage → Call → (Run → Outcome) → Run → Outcome
  attempt f id stage c k s = answered id stage k (f.run s.calls c) (called c s)

  module _ (f : Stages) (job : Job) (image_tag workspace manifest_dir : String) where
    -- Stages 5 to 7, the ones that do more than run.
    unfoldable pub verify_stage : (Run → Outcome) → Run → Outcome
    verify_stage k = set_then job.id status_running stage_verifying λ s.
        let c = verify_call manifest_dir image_tag in
        elim (f.verify s.calls c) [
          | check_error message ↦ fail job.id stage_verifying message (called c s)
          | verdict v ↦
              if v.overall_pass
              then k (called c s)
              else fail job.id stage_verifying (cat "verification failed: " v.summary) (called c s)
        ]

    unfoldable pub health_stage : (Run → Outcome) → Run → Outcome
    health_stage k = set_then job.id status_running stage_health_checking λ s.
        let c = health_call job.target_namespace in
        let h = f.health s.calls c in
        if h.ready
        then k (called c s)
        else fail job.id stage_health_checking (health_message h) (called c s)

    -- A stage of the plain kind, behind its status.
    unfoldable pub plain_stage : PipelineStage → Call → (Run → Outcome) → Run → Outcome
    plain_stage stage c k = set_then job.id status_running stage (attempt f job.id stage c k)

    unfoldable pub stages : Run → Outcome
    stages = plain_stage stage_cloning (clone_call job.id job.repository_url job.branch workspace) (
        plain_stage stage_building
          (build_call job.id job.build_context job.dockerfile_path image_tag workspace)
          (plain_stage stage_pushing (push_call image_tag) (
            plain_stage stage_manifest_generating
              (manifest_call job.id job.target_namespace image_tag job.resource_overrides workspace)
              (verify_stage (
                plain_stage stage_applying (apply_call job.target_namespace manifest_dir) (
                  health_stage
                    (set_then job.id status_completed stage_health_checking λ s. (none, s))))))))

  unfoldable pub execute : (String → String) → Stages → Job → Run → Outcome
  unfolding stages
  execute env f job s =
      let registry = get_env env "CONTAINER_REGISTRY" "registry:5000" in
      let workspace = cat "/tmp/workspaces/" job.id in
      let manifest_dir = join (join workspace "manifests") job.id in
      let image_tag = cat registry (cat "/" (cat job.target_namespace (cat ":" job.id))) in
      stages f job image_tag workspace manifest_dir s
