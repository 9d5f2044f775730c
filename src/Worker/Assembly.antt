-- ===== src/Worker/Assembly.antt =====
-- The stages that cmd/worker/main.go hands to the orchestrator. What is outside answers each
-- stage as it likes, by the calls made before.
use vibls_assignment.Common.{String, false, Option, none, List, []}
use vibls_assignment.Common.Text.{Bytes}
use vibls_assignment.Job.{Float64, ℤ}
use vibls_assignment.Verification.Yaml.{Answer, Directory}
use vibls_assignment.Verification.Quantities.{Floats}
use vibls_assignment.Verification.Scans.{Tools}
use vibls_assignment.Verification.Resources.{ResourceDoc}
use vibls_assignment.Verification.Labels.{Documents}
use vibls_assignment.Worker.Pipeline.{
  Call, clone_call, build_call, push_call, manifest_call, verify_call, apply_call, health_call,
  Stages, Checked, check_error, DeploymentHealth,
}
use vibls_assignment.Worker.Commands.{Machine, clone_stage, build_stage, push_stage}
use vibls_assignment.Worker.Render.{Renderer, manifest_stage}
use vibls_assignment.Worker.Verify.{verify_fn}
use vibls_assignment.Worker.Apply.{Cluster, apply_stage}
use vibls_assignment.Worker.Health.{Poll, Services, health_check}

pub record Surroundings : Type 1 where
  pub machine : List Call → Machine
  pub renderer : List Call → Renderer
  pub millicores : Float64 → ℤ  -- int(cores * 1000)
  pub tools : List Call → Tools
  pub floats : Floats
  pub documents : Documents
  pub decode_resources : Bytes → Answer ResourceDoc
  pub directory : List Call → String → Directory
  pub cluster : List Call → String → Cluster  -- with the directory of manifests
  pub config_error : List Call → Option String
  pub polls : List Call → String → List Poll
  pub services : List Call → String → Services

module _ (x : Surroundings) where
  abbrev pub run_plain_stage : List Call → Call → Option String
  run_plain_stage calls (clone_call job_id repo_url branch workspace) =
      (clone_stage (x.machine calls) "" job_id repo_url branch workspace []).0
  run_plain_stage calls (build_call job_id build_context dockerfile tag workspace) =
      (build_stage (x.machine calls) job_id build_context dockerfile tag workspace []).0
  run_plain_stage calls (push_call tag) = (push_stage (x.machine calls) tag []).0
  run_plain_stage calls (manifest_call job_id namespace image overrides workspace) =
      (manifest_stage (x.renderer calls) x.millicores "" job_id namespace image overrides workspace
        []).0
  run_plain_stage calls (verify_call manifest_dir image_tag) = none
  run_plain_stage calls (apply_call namespace manifest_dir) =
      (apply_stage (x.cluster calls manifest_dir) namespace []).0
  run_plain_stage calls (health_call namespace) = none

  abbrev pub run_verification : List Call → Call → Checked
  run_verification calls (verify_call manifest_dir image_tag) =
      verify_fn (x.tools calls) x.floats x.documents x.decode_resources (x.directory calls)
        manifest_dir image_tag
  run_verification calls other = check_error ""

  abbrev pub run_health : List Call → Call → DeploymentHealth
  run_health calls (health_call namespace) =
      health_check (x.config_error calls) "2m0s" (x.polls calls namespace)
        (x.services calls namespace)
  run_health calls other = record {
    ready = false;
    pods_ready = 0;
    pods_total = 0;
    service_up = false;
    details = "";
  }

  -- NewOrchestrator with the stages of the worker. Each kind of call reaches its own stage.
  unfoldable pub assembled : Stages
  assembled = record { run = run_plain_stage; verify = run_verification; health = run_health }
