-- ===== src/Worker/Unrolled.antt =====
-- Execute is the loop over the plan.
use mathlib.Core.Path.{fun_ext}
use vibls_assignment.Common.{String, ◌≡◌, ap, ◌∙◌, none, arith}
use vibls_assignment.Job.{
  status_completed, PipelineStage, stage_cloning, stage_building, stage_pushing,
  stage_manifest_generating, stage_verifying, stage_applying, stage_health_checking, Job,
}
use vibls_assignment.Store.Rows.{Platform}
use vibls_assignment.Worker.Pipeline.{
  Call, clone_call, build_call, push_call, manifest_call, verify_call, apply_call, health_call,
  Stages, Run, Outcome, set_then, verify_stage, health_stage, plain_stage, stages,
}
use vibls_assignment.Worker.Plan.{verifying, checking, plan, step_then, run_plan}

module _ (p : Platform) (f : Stages) (job : Job) (image_tag workspace manifest_dir : String) where
  verify_stage-step :
      (k : Run → Outcome)
      → verify_stage p f job image_tag workspace manifest_dir k
        ≡ step_then p f job.id
            (record {
              kind = verifying;
              stage = stage_verifying;
              call = verify_call manifest_dir image_tag;
            })
            k
  unfolding verify_stage
  verify_stage-step k = fun_ext λ s. ground arith

  health_stage-step :
      (k : Run → Outcome)
      → health_stage p f job image_tag workspace manifest_dir k
        ≡ step_then p f job.id
            (record {
              kind = checking;
              stage = stage_health_checking;
              call = health_call job.target_namespace;
            })
            k
  unfolding health_stage
  health_stage-step k = fun_ext λ s. ground arith

  abbrev run_stage : PipelineStage → Call → (Run → Outcome) → Run → Outcome
  run_stage = plain_stage p f job image_tag workspace manifest_dir

  -- The four stages before the verification.
  abbrev first_four : (Run → Outcome) → Run → Outcome
  first_four k =
      run_stage stage_cloning (clone_call job.id job.repository_url job.branch workspace) (
        run_stage stage_building
          (build_call job.id job.build_context job.dockerfile_path image_tag workspace)
          (run_stage stage_pushing (push_call image_tag) (
            run_stage stage_manifest_generating
              (manifest_call job.id job.target_namespace image_tag job.resource_overrides workspace)
              k)))

  abbrev applying : (Run → Outcome) → Run → Outcome
  applying = run_stage stage_applying (apply_call job.target_namespace manifest_dir)

  abbrev verify_then : (Run → Outcome) → Run → Outcome
  verify_then = step_then p f job.id (record {
    kind = verifying;
    stage = stage_verifying;
    call = verify_call manifest_dir image_tag;
  })

  -- The unrolled code and the loop do the same to every state.
  pub stages-run_plan :
      stages p f job image_tag workspace manifest_dir
      ≡ run_plan p f job.id (plan job image_tag workspace manifest_dir)
  unfolding stages run_plan plain_stage
  stages-run_plan =
      let complete = set_then p job.id status_completed stage_health_checking λ s. (none, s) in
      ap first_four (
        verify_stage-step
          (applying (health_stage p f job image_tag workspace manifest_dir complete))
        ∙ ap (λ (k : Run → Outcome). verify_then (applying k)) (health_stage-step complete))
