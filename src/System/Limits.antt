-- ===== src/System/Limits.antt =====
-- How many statements the worker makes at most, whatever fails.
use vibls_assignment.Common.Text.{cat}
use vibls_assignment.Common.{
  ◌+◌, ◌-◌, ◌*◌, String, not, Option, none, some, List, [], ◌∷◌, arith, ltb, length, keep,
}
use vibls_assignment.Job.{
  status_running, status_completed, status_failed, stage_health_checking, Time, Job,
}
use vibls_assignment.Store.Rows.{IdempotencyKey, Platform, ok, err, World, return}
use vibls_assignment.Store.Jobs.{get_job, update_job_status}
use vibls_assignment.Store.Listing.{list_completed_jobs, scan_jobs, order_desc, is_completed_since}
use vibls_assignment.Store.Keys.{delete_expired_idempotency_keys}
use vibls_assignment.Worker.Pipeline.{Stages, Run, called, join, get_env, execute}
use vibls_assignment.Worker.Plan.{PlanStep, run_plan, plan_of, set_then_cases, step_then_cases}
use vibls_assignment.Worker.Unrolled.{stages-run_plan}
use vibls_assignment.Worker.Deploy.{handle_deploy_job}
use vibls_assignment.Worker.Background.{Tick, analysis_tick, cleanup_tick, on_tick}
use vibls_assignment.Learning.{Floating, analyze_completed_jobs, recommend}
use vibls_assignment.Learning.Scheduler.{run_analysis, hours}
use vibls_assignment.Api.Create.{Codec}
use vibls_assignment.Api.Auth.{AuthzInput, Evaluation}
use vibls_assignment.Api.Serve.{Route, Incoming, Service, serve}
use vibls_assignment.System.Deliveries.{run_loaded, handle_decoded}
use vibls_assignment.System.Spending.{
  Spent, Spent-none, Spent-trans, Spent-at_most, Spends-statement, Spends-bind,
  update_job_status-Spends, get_job-Spends,
}
use vibls_assignment.System.Bounds.{serve-Spends}

module _ (p : Platform) where
  -- Two statements for each step, and two at the end.
  run_plan-Spends :
      (f : Stages) (id : String) (xs : List PlanStep) (s : Run)
      → Spent (2 * length xs + 2) s.world.turns (run_plan p f id xs s).1.world.turns
  unfolding run_plan
  run_plan-Spends f id [] s =
      let two =
        Spent-at_most (omega arith)
          (update_job_status-Spends p id status_completed stage_health_checking "" s.world) in
      set_then_cases (λ o. Spent (2 * 0 + 2) s.world.turns o.1.world.turns) p id status_completed
        stage_health_checking (λ r. (none, r)) s (λ e. two) two
  run_plan-Spends f id (x ∷ xs) s =
      let n = 2 * length (x ∷ xs) + 2 in
      let first = update_job_status-Spends p id status_running x.stage "" s.world in
      let w = (update_job_status p id status_running x.stage "" s.world).1 in
      step_then_cases (λ o. Spent (2 * length (x ∷ xs) + 2) s.world.turns o.1.world.turns) p id f x
        (run_plan p f id xs) s (λ e. Spent-at_most (omega arith) first)
        (λ message stops.
          Spent-at_most (omega arith)
            (Spent-trans first (update_job_status-Spends p id status_failed x.stage message w)))
        (λ fine.
          Spent-at_most (omega arith)
            (Spent-trans first (run_plan-Spends f id xs (called x.call (record s { world = w })))))

  execute-Spends :
      (env : String → String) (f : Stages) (job : Job) (s : Run)
      → Spent 16 s.world.turns (execute p env f job s).1.world.turns
  unfolding execute
  execute-Spends env f job s =
      let registry = get_env env "CONTAINER_REGISTRY" "registry:5000" in
      let workspace = cat "/tmp/workspaces/" job.id in
      let manifest_dir = join (join workspace "manifests") job.id in
      let image_tag = cat registry (cat "/" (cat job.target_namespace (cat ":" job.id))) in
      rw (stages-run_plan p f job image_tag workspace manifest_dir)
        (run_plan-Spends f job.id (plan_of env job) s)

  handle_deploy_job-Spends :
      (env : String → String) (f : Stages) (decode : String → Option String) (payload : String)
      (s : Run)
      → Spent 17 s.world.turns (handle_deploy_job p env f decode payload s).1.world.turns
  unfolding handle_deploy_job
  handle_deploy_job-Spends env f decode payload s =
      elim (decode payload)
        as (λ r. Spent 17 s.world.turns (handle_decoded p env f s r).1.world.turns) [
          | none ↦ Spent-none 17 s.world.turns
          | some job_id ↦
              let one = get_job-Spends p job_id s.world in
              let w = (get_job p job_id s.world).1 in
              elim (get_job p job_id s.world).0
                as (λ r. Spent 17 s.world.turns (run_loaded p env f s job_id r w).1.world.turns) [
                  | err e ↦ Spent-at_most (omega arith) one
                  | ok job ↦ Spent-trans one (execute-Spends env f job (record s { world = w }))
                ]
        ]

  on_tick-Spends :
      (fl : Floating) (tick : Tick) (w : World) → Spent 1 w.turns (on_tick fl p tick w).turns
  unfolding on_tick run_analysis analyze_completed_jobs list_completed_jobs
      delete_expired_idempotency_keys
  on_tick-Spends fl (analysis_tick now) w =
      let since = now - hours (7 * 24) in
      Spends-bind 1 0 (list_completed_jobs p since) (λ jobs. return (recommend fl jobs))
        (Spends-statement (λ t. (
          scan_jobs p
              (order_desc p.ties (λ r. r.updated_at) (keep (is_completed_since since) t.jobs)),
          t,
        )))
        (λ jobs w. Spent-none 0 w.turns) w
  on_tick-Spends fl (cleanup_tick now) w =
      let expired = λ (k : IdempotencyKey). ltb k.created_at (now - hours 24) in
      Spends-statement
        (λ t. (
          ok (length (keep expired t.keys)),
          record t { keys = keep (λ k. not (expired k)) t.keys },
        ))
        w

-- Whatever fails, whatever others do and whatever the stages answer: a request is answered after at
-- most seven statements, a task that is delivered is done after at most seventeen, and a turn of the
-- worker's loops after one.
pub statements_bounded :
    (p : Platform) (c : Codec) (engine : Option (AuthzInput → Evaluation)) (now : Time)
    (metrics_text : String) (route : Route) (i : Incoming) (s : Service) (env : String → String)
    (f : Stages) (decode : String → Option String) (payload : String) (r : Run) (fl : Floating)
    (tick : Tick) (w : World)
    → Spent 7 s.server.world.turns
        (serve p c engine now metrics_text route i s).1.server.world.turns
      × Spent 17 r.world.turns (handle_deploy_job p env f decode payload r).1.world.turns
      × Spent 1 w.turns (on_tick fl p tick w).turns
statements_bounded p c engine now metrics_text route i s env f decode payload r fl tick w = (
  serve-Spends p c engine now metrics_text route i s,
  handle_deploy_job-Spends p env f decode payload r,
  on_tick-Spends p fl tick w,
)
