-- ===== src/Worker/Calls.antt =====
-- Which stages Execute runs, in any environment.
use mathlib.Core.List.{append-nil, append_assoc}
use vibls_assignment.Common.{
  String, ◌≡◌, refl, sym, ap, ◌∙◌, Option, none, List, [], ◌∷◌, ◌++◌, map,
}
use vibls_assignment.Common.Text.{cat}
use vibls_assignment.Job.{status_running, status_completed, stage_health_checking, Job}
use vibls_assignment.Store.Rows.{Platform, World}
use vibls_assignment.Store.Jobs.{update_job_status}
use vibls_assignment.Worker.Pipeline.{
  Call, Stages, ExecuteError, Run, Outcome, get_env, called, join, execute,
}
use vibls_assignment.Worker.Plan.{
  plan_of, set_then_cases, step_then_cases, PlanStep, plan, run_plan,
}
use vibls_assignment.Worker.Unrolled.{stages-run_plan}

-- The calls behind those made before are an initial part of a list; without an error they are all.
pub record Made (before : List Call) (todo : List PlanStep) (o : Outcome) : Type 0 where
  pub done : List PlanStep
  pub left : List PlanStep
  pub split : todo ≡ done ++ left
  pub made : o.1.calls ≡ before ++ map (λ x. x.call) done
  pub complete : o.0 ≡ none → left ≡ []

none-Made :
    (s : Run) (r : Option ExecuteError) (w : World) → Made s.calls [] (r, record s { world = w })
none-Made s r w = record {
  done = [];
  left = [];
  split = refl;
  made = sym (append-nil _);
  complete = λ _. refl;
}

module _ (p : Platform) (f : Stages) (id : String) where
  run_plan-Made : (xs : List PlanStep) (s : Run) → Made s.calls xs (run_plan p f id xs s)
  unfolding run_plan
  run_plan-Made [] s =
      set_then_cases (Made s.calls []) p id status_completed stage_health_checking (λ r. (none, r))
        s (λ e. none-Made s _ _) (none-Made s _ _)
  run_plan-Made (x ∷ xs) s =
      step_then_cases (Made s.calls (x ∷ xs)) p id f x (run_plan p f id xs) s
        (λ e. record {
          done = [];
          left = x ∷ xs;
          split = refl;
          made = sym (append-nil _);
          complete = λ h. cc;
        })
        (λ message e. record {
          done = x ∷ [];
          left = xs;
          split = refl;
          made = refl;
          complete = λ h. cc;
        })
        (λ e.
          let w = (update_job_status p id status_running x.stage "" s.world).1 in
          let rest = run_plan-Made xs (called x.call (record s { world = w })) in
          record {
            done = x ∷ rest.done;
            left = rest.left;
            split = ap (λ (r : List PlanStep). x ∷ r) rest.split;
            made = rest.made ∙ append_assoc s.calls (x.call ∷ []) _;
            complete = rest.complete;
          })

-- Whatever the database and other clients do: Execute calls the stages in the order clone, build,
-- push, manifest, verify, apply, health check, each at most once, with the job's data and with the
-- directory, the tag and the workspace that it computes; it stops behind some stage, and if it
-- returns no error it has called all seven.
pub execute-Made :
    (p : Platform) (env : String → String) (f : Stages) (job : Job) (s : Run)
    → Made s.calls (plan_of env job) (execute p env f job s)
unfolding execute
execute-Made p env f job s =
    let workspace = cat "/tmp/workspaces/" job.id in
    let registry = get_env env "CONTAINER_REGISTRY" "registry:5000" in
    let image_tag = cat registry (cat "/" (cat job.target_namespace (cat ":" job.id))) in
    let manifest_dir = join (join workspace "manifests") job.id in
    rw (stages-run_plan p f job image_tag workspace manifest_dir)
      (run_plan-Made p f job.id (plan job image_tag workspace manifest_dir) s)
