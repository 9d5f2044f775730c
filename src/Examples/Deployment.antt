-- ===== src/Examples/Deployment.antt =====
-- A deployment that completes, with all stages of the worker.
use vibls_assignment.Common.{◌≡◌, refl, ◌∙◌, none, [], ◌∷◌}
use vibls_assignment.Common.Text.{decimal}
use vibls_assignment.Job.{pos}
use vibls_assignment.Strconv.{parse_int}
use vibls_assignment.Verification.Yaml.{split_from, split_yaml_documents, collect_yaml_files}
use vibls_assignment.Verification.Score.{is_counted, tally, score_of, verdict_of}
use vibls_assignment.Verification.Quantities.{parse_cpu, parse_memory, by_suffix}
use vibls_assignment.Verification.Scans.{check_kubeconform, check_trivy_scan}
use vibls_assignment.Verification.Resources.{
  container_failures, resource_failures, check_resource_bounds,
}
use vibls_assignment.Verification.Labels.{
  run_heuristic_verification, opa_failures, check_opa_pipeline, label_failures,
}
use vibls_assignment.Worker.Plan.{plan_of}
use vibls_assignment.Worker.Outcomes.{first_problem, final_error}
use vibls_assignment.Worker.Execute.{execute-Finished}
use vibls_assignment.Worker.Commands.{Machine, clone_stage, build_stage, build_args, push_stage}
use vibls_assignment.Worker.Render.{manifest_stage, write_all}
use vibls_assignment.Worker.Manifest.{manifest_data}
use vibls_assignment.Worker.Verify.{verify_fn}
use vibls_assignment.Worker.Apply.{apply_docs, apply_entries, apply_stage, split_yaml}
use vibls_assignment.Worker.Health.{pods, health_check, wait_from, check_service_endpoint}
use vibls_assignment.Worker.Assembly.{Surroundings, assembled}
use vibls_assignment.Worker.Completed.{Deployed, execute-Deployed}
use vibls_assignment.Examples.Values.{platform, queued_job, two_jobs, unset}
use vibls_assignment.Examples.Runs.{two_jobs-Runs}
use vibls_assignment.Examples.Checks.{tools, whole_numbers, documents, decode, directory}
use vibls_assignment.Examples.Tasks.{one_service, ready_pod}
use vibls_assignment.Examples.Stages.{renderer, cluster}

abbrev machine : Machine
machine = record { reply = λ before a. record { error = none; output = "" }; trim_space = λ s. s }

abbrev surroundings : Surroundings
surroundings = record {
  machine = λ calls. machine;
  renderer = λ calls. renderer;
  millicores = λ cores. pos 500;
  tools = λ calls. tools;
  floats = whole_numbers;
  documents = documents;
  decode_resources = decode;
  directory = λ calls dir. directory;
  cluster = λ calls dir. record cluster { patch = λ before p. none };
  config_error = λ calls. none;
  polls = λ calls namespace. pods (ready_pod ∷ []) ∷ [];
  services = λ calls namespace. one_service;
}

abbrev no_problem :
    final_error (first_problem (assembled surroundings) (plan_of unset queued_job) []) ≡ none
unfolding assembled clone_stage build_stage build_args push_stage manifest_stage write_all
    manifest_data verify_fn run_heuristic_verification apply_stage apply_entries apply_docs
    split_yaml health_check wait_from check_service_endpoint is_counted tally score_of verdict_of
    split_from split_yaml_documents collect_yaml_files parse_cpu parse_memory by_suffix
    check_kubeconform check_trivy_scan label_failures opa_failures check_opa_pipeline
    container_failures resource_failures check_resource_bounds parse_int decimal
no_problem = refl

execute-Deployed_example : Deployed surroundings unset queued_job
execute-Deployed_example =
    execute-Deployed surroundings unset queued_job platform two_jobs two_jobs-Runs (
      (execute-Finished platform unset (assembled surroundings) queued_job two_jobs
        two_jobs-Runs).error
      ∙ no_problem)
