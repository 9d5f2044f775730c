-- ===== src/Worker/Plan.antt =====
-- The pipeline as a loop over seven steps, and what it is to do: an independent description of
-- Execute of internal/worker/orchestrator.go, which is written without a loop.
use vibls_assignment.Common.{
  String, ◌≡◌, inl, inr, Option, none, some, List, [], ◌∷◌, if◌then◌else◌, Option-cases,
}
use vibls_assignment.Common.Text.{cat}
use vibls_assignment.Job.{
  JobStatus, status_running, status_completed, PipelineStage, stage_cloning, stage_building,
  stage_pushing, stage_manifest_generating, stage_verifying, stage_applying, stage_health_checking,
  Job,
}
use vibls_assignment.Store.Rows.{Platform, DbError, ok, err}
use vibls_assignment.Store.Jobs.{update_job_status}
use vibls_assignment.Worker.Pipeline.{
  answered, Call, clone_call, build_call, push_call, manifest_call, verify_call, apply_call,
  health_call, Checked, verdict, check_error, Stages, update_failed, Run, Outcome, get_env,
  set_then, fail, called, health_message, join,
}

pub data Kind : Type 0 where
  plain verifying checking : Kind

pub record PlanStep : Type 0 where
  pub kind : Kind
  pub stage : PipelineStage
  pub call : Call

-- The message with which a step stops the pipeline, if it does.
abbrev pub verdict_message : Checked → Option String
verdict_message (check_error message) = some message
verdict_message (verdict v) =
    if v.overall_pass then none else some (cat "verification failed: " v.summary)

abbrev pub problem : Stages → Kind → List Call → Call → Option String
problem f plain calls c = f.run calls c
problem f verifying calls c = verdict_message (f.verify calls c)
problem f checking calls c =
    let h = f.health calls c in if h.ready then none else some (health_message h)

-- The seven steps, in order.
abbrev pub plan : Job → (image_tag workspace manifest_dir : String) → List PlanStep
plan job image_tag workspace manifest_dir =
    record {
      kind = plain;
      stage = stage_cloning;
      call = clone_call job.id job.repository_url job.branch workspace;
    }
    ∷ record {
      kind = plain;
      stage = stage_building;
      call = build_call job.id job.build_context job.dockerfile_path image_tag workspace;
    }
    ∷ record { kind = plain; stage = stage_pushing; call = push_call image_tag }
    ∷ record {
      kind = plain;
      stage = stage_manifest_generating;
      call = manifest_call job.id job.target_namespace image_tag job.resource_overrides workspace;
    }
    ∷ record {
      kind = verifying;
      stage = stage_verifying;
      call = verify_call manifest_dir image_tag;
    }
    ∷ record {
      kind = plain;
      stage = stage_applying;
      call = apply_call job.target_namespace manifest_dir;
    }
    ∷ record {
      kind = checking;
      stage = stage_health_checking;
      call = health_call job.target_namespace;
    }
    ∷ []

module _ (p : Platform) (f : Stages) (id : String) where
  -- One step: its status, its call, and how it goes on.
  abbrev pub step_then : PlanStep → (Run → Outcome) → Run → Outcome
  step_then x k =
      set_then p id status_running x.stage
        λ s. answered p id x.stage k (problem f x.kind s.calls x.call) (called x.call s)

  unfoldable pub run_plan : List PlanStep → Run → Outcome
  run_plan [] = set_then p id status_completed stage_health_checking λ s. (none, s)
  run_plan (x ∷ xs) = step_then x (run_plan xs)

-- The two ways on from a status update, and from a stage, for any property of the outcome.
module _ {κ} (P : Outcome → Type κ) (p : Platform) (id : String) where
  pub set_then_cases :
      (status : JobStatus) (stage : PipelineStage) (k : Run → Outcome) (s : Run)
      → let w = (update_job_status p id status stage "" s.world).1 in
        ((e : DbError) → P (some (update_failed status stage e), record s { world = w }))
        → P (k (record s { world = w }))
        → P (set_then p id status stage k s)
  set_then_cases status stage k s bad good =
      let w = (update_job_status p id status stage "" s.world).1 in
      elim (update_job_status p id status stage "" s.world).0
        as (λ r. P (elim r [
          | err e ↦ (some (update_failed status stage e), record s { world = w })
          | ok u ↦ k (record s { world = w })
        ])) [ err e ↦ bad e | ok u ↦ good ]

  pub step_then_cases :
      (f : Stages) (x : PlanStep) (k : Run → Outcome) (s : Run)
      → let w = (update_job_status p id status_running x.stage "" s.world).1 in
        let s' = called x.call (record s { world = w }) in
        ((e : DbError) → P (some (update_failed status_running x.stage e), record s { world = w }))
        → ((message : String)
            → problem f x.kind s.calls x.call ≡ some message
            → P (fail p id x.stage message s'))
        → (problem f x.kind s.calls x.call ≡ none → P (k s'))
        → P (step_then p f id x k s)
  step_then_cases f x k s bad stops goes_on =
      let w = (update_job_status p id status_running x.stage "" s.world).1 in
      set_then_cases status_running x.stage
        (λ r. answered p id x.stage k (problem f x.kind r.calls x.call) (called x.call r)) s bad
        (elim (Option-cases (problem f x.kind s.calls x.call)) [
          | inl e ↦ rw e (goes_on e)
          | inr (message, e) ↦ rw e (stops message e)
        ])

-- The plan of a job, with the tag and the directories that Execute computes.
abbrev pub plan_of : (String → String) → Job → List PlanStep
plan_of env job =
    let registry = get_env env "CONTAINER_REGISTRY" "registry:5000" in
    let workspace = cat "/tmp/workspaces/" job.id in
    plan job (cat registry (cat "/" (cat job.target_namespace (cat ":" job.id)))) workspace
      (join (join workspace "manifests") job.id)
