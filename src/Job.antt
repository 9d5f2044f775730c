-- ===== src/Job.antt =====
-- The data model: internal/models/job.go and internal/models/event.go. `JobStatus` and
-- `PipelineStage` are Go string types, and the code converts texts of clients and of the database
-- to them unchecked, so they are texts here, with the source's constants.
pub mod Transitions
use vibls_assignment.Common.{
  ℕ, String, ◌==◌, Bool, true, false, ◌||◌, Option, none, some, List, [], ◌∷◌, if◌then◌else◌,
}

abbrev pub JobStatus : Type 0
JobStatus = String

abbrev pub status_queued : JobStatus
status_queued = "QUEUED"

abbrev pub status_running : JobStatus
status_running = "RUNNING"

abbrev pub status_completed : JobStatus
status_completed = "COMPLETED"

abbrev pub status_failed : JobStatus
status_failed = "FAILED"

abbrev pub PipelineStage : Type 0
PipelineStage = String

abbrev pub stage_cloning : PipelineStage
stage_cloning = "CLONING"

abbrev pub stage_building : PipelineStage
stage_building = "BUILDING"

abbrev pub stage_pushing : PipelineStage
stage_pushing = "PUSHING"

abbrev pub stage_manifest_generating : PipelineStage
stage_manifest_generating = "MANIFEST_GENERATING"

abbrev pub stage_verifying : PipelineStage
stage_verifying = "VERIFYING"

abbrev pub stage_applying : PipelineStage
stage_applying = "APPLYING"

abbrev pub stage_health_checking : PipelineStage
stage_health_checking = "HEALTH_CHECKING"

-- A float64 by its 64 bits. What is computed with it is a parameter of the modules that do so.
abbrev pub Float64 : Type 0
Float64 = ℕ

-- A Go int: `negsuc n` is -(n + 1).
pub data ℤ : Type 0 where
  pos : ℕ → ℤ
  negsuc : ℕ → ℤ

-- A nil pointer is `none`.
pub record ResourceOverrides : Type 0 where
  pub cpu_cores : Option Float64
  pub memory_mb : Option ℤ
  pub replicas : Option ℤ

-- Instants and durations are numbers of nanoseconds, as in Go's time.Duration.
abbrev pub Time : Type 0
Time = ℕ

pub record Job : Type 0 where
  pub id : String
  pub repository_url : String
  pub branch : String
  pub build_context : String
  pub dockerfile_path : String
  pub target_namespace : String
  pub status : JobStatus
  pub current_stage : PipelineStage
  pub resource_overrides : Option ResourceOverrides
  pub stage_timestamps : Option (List (PipelineStage × Time))
  pub error_message : String
  pub created_at : Time
  pub updated_at : Time

pub record JobEvent : Type 0 where
  pub id : String
  pub job_id : String
  pub from_stage : Option PipelineStage
  pub to_stage : Option PipelineStage
  pub status : JobStatus
  pub message : String
  pub metadata : Option String
  pub created_at : Time

-- The Go map, as an association list.
abbrev pub valid_transitions : List (PipelineStage × PipelineStage)
valid_transitions =
    (stage_cloning, stage_building)
    ∷ (stage_building, stage_pushing)
    ∷ (stage_pushing, stage_manifest_generating)
    ∷ (stage_manifest_generating, stage_verifying)
    ∷ (stage_verifying, stage_applying)
    ∷ (stage_applying, stage_health_checking)
    ∷ []

abbrev pub next_stage : PipelineStage → List (PipelineStage × PipelineStage) → Option PipelineStage
next_stage current [] = none
next_stage current ((from, to) ∷ more) =
    if from == current then some to else next_stage current more

abbrev equals : Option PipelineStage → PipelineStage → Bool
equals none next = false
equals (some expected) next = expected == next

unfoldable pub valid_transition : PipelineStage → PipelineStage → Bool
valid_transition current next = equals (next_stage current valid_transitions) next

unfoldable pub is_terminal : JobStatus → Bool
is_terminal status = status == status_completed || status == status_failed
