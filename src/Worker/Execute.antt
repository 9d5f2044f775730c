-- ===== src/Worker/Execute.antt =====
-- Execute of internal/worker/orchestrator.go as a whole.
use vibls_assignment.Common.{
  String, ◌≡◌, refl, ap, ◌∙◌, ◌⊎◌, inl, inr, true, List, [], ◌∷◌, ◌++◌, map, Option-cases,
}
use vibls_assignment.Common.Text.{cat}
use vibls_assignment.Job.{JobStatus, PipelineStage, stage_health_checking, Job, valid_transition}
use vibls_assignment.Store.Rows.{Tables, Platform, World, calm}
use vibls_assignment.Store.Runnable.{Runs}
use vibls_assignment.Worker.Pipeline.{Call, Stages, get_env, join, execute}
use vibls_assignment.Worker.Plan.{PlanStep, problem, plan_of}
use vibls_assignment.Worker.Unrolled.{stages-run_plan}
use vibls_assignment.Worker.Runs.{run_plan-Finished}
use vibls_assignment.Worker.Outcomes.{first_problem, history, entry, entry_of, Finished}

-- The same behind calls that were made before.
pub execute_from-Finished :
    (p : Platform) (env : String → String) (f : Stages) (job : Job) (t : Tables) (calls : List Call)
    → Runs p job.id t
    → Finished job.id t
        (first_problem f (plan_of env job) calls)
        (history f (plan_of env job) calls)
        (execute p env f job (record { world = calm t; calls = calls }))
unfolding execute
execute_from-Finished p env f job t calls r =
    let workspace = cat "/tmp/workspaces/" job.id in
    let registry = get_env env "CONTAINER_REGISTRY" "registry:5000" in
    let image_tag = cat registry (cat "/" (cat job.target_namespace (cat ":" job.id))) in
    let manifest_dir = join (join workspace "manifests") job.id in
    rw (stages-run_plan p f job image_tag workspace manifest_dir)
      (run_plan-Finished p job.id f (plan_of env job) t calls r)

-- Calm, for a job with a valid id whose target has no other queued or running job: Execute ends
-- as its stages answer. With no problem it returns nil and leaves the job COMPLETED at
-- HEALTH_CHECKING without a message; with a first problem at some stage it returns that stage's
-- error and leaves the job FAILED there with the message. The audit trail has the stages that
-- were entered and the end, other jobs and the idempotency keys are as before.
pub execute-Finished :
    (p : Platform) (env : String → String) (f : Stages) (job : Job) (t : Tables)
    → Runs p job.id t
    → Finished job.id t
        (first_problem f (plan_of env job) [])
        (history f (plan_of env job) [])
        (execute p env f job (record { world = calm t; calls = [] }))
execute-Finished p env f job t r = execute_from-Finished p env f job t [] r

-- Each entry of a trail stays at the stage of the one before it or makes a valid transition.
abbrev pub IsLinked : List (PipelineStage × JobStatus × String) → Type 0
IsLinked [] = Unit
IsLinked (a ∷ []) = Unit
IsLinked (a ∷ b ∷ rest) = ((a.0 ≡ b.0) ⊎ (valid_transition a.0 b.0 ≡ true)) × IsLinked (b ∷ rest)

abbrev IsChain : List PlanStep → Type 0
IsChain [] = Unit
IsChain (x ∷ []) = x.stage ≡ stage_health_checking
IsChain (x ∷ y ∷ rest) = (valid_transition x.stage y.stage ≡ true) × IsChain (y ∷ rest)

history-IsLinked :
    (f : Stages) (xs : List PlanStep) (calls : List Call)
    → IsChain xs
    → IsLinked (history f xs calls)
history-IsLinked f [] calls c = tt
history-IsLinked f (x ∷ []) calls c = elim (Option-cases (problem f x.kind calls x.call)) [
  | inl e ↦ rw e (inl c, tt)
  | inr (message, e) ↦ rw e (inl refl, tt)
]
history-IsLinked f (x ∷ y ∷ rest) calls c = elim (Option-cases (problem f x.kind calls x.call)) [
  | inl e ↦ rw e (inr c.0, history-IsLinked f (y ∷ rest) (calls ++ x.call ∷ []) c.1)
  | inr (message, e) ↦ rw e (inl refl, tt)
]

-- In a calm run of a job whose target has no other queued or running job, the audit events that
-- Execute adds form a trail in which each stage is that of the event before it or its valid
-- successor, though Execute never calls ValidTransition.
pub execute-IsLinked :
    (p : Platform) (env : String → String) (f : Stages) (job : Job) (t : Tables)
    → Runs p job.id t
    → (trail : List (PipelineStage × JobStatus × String)) × IsLinked trail
      × (map entry
            (execute p env f job (record { world = calm t; calls = [] })).1.world.tables.events
          ≡ map entry t.events ++ map (entry_of job.id) trail)
unfolding valid_transition
execute-IsLinked p env f job t r =
    let e = execute-Finished p env f job t r in
    (
      history f (plan_of env job) [],
      history-IsLinked f (plan_of env job) [] (refl, (refl, (refl, (refl, (refl, (refl, refl)))))),
      ap (λ (w : World). map entry w.tables.events) e.settled ∙ e.audited,
    )
