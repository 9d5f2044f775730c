-- ===== src/System/Deliveries.antt =====
-- The worker (cmd/worker/main.go) among statements of others: a task that is delivered, and what
-- the tickers fire.
use vibls_assignment.Store.Listing.{list_completed_jobs}
use vibls_assignment.Common.Text.{cat}
use vibls_assignment.Common.{◌-◌, ◌*◌, String, Option, none, some, List, [], ◌∷◌}
use vibls_assignment.Job.{
  status_running, status_completed, status_failed, stage_health_checking, Job,
}
use vibls_assignment.Store.Rows.{Platform, Result, ok, err, World, return}
use vibls_assignment.Store.Jobs.{get_job, update_job_status}
use vibls_assignment.Worker.Pipeline.{Stages, Run, called, join, get_env, execute}
use vibls_assignment.Worker.Plan.{PlanStep, run_plan, plan_of, set_then_cases, step_then_cases}
use vibls_assignment.Worker.Unrolled.{stages-run_plan}
use vibls_assignment.Worker.Deploy.{
  HandlerError, bad_payload, not_loaded, handled, handle_deploy_job,
}
use vibls_assignment.Worker.Background.{Tick, analysis_tick, cleanup_tick, on_tick}
use vibls_assignment.Learning.{Floating, analyze_completed_jobs, recommend}
use vibls_assignment.Learning.Scheduler.{run_analysis, hours}
use vibls_assignment.System.Moves.{Tame, Moves, Moves-refl, Moves-trans, Keeps-bind}
use vibls_assignment.System.Repository.{
  get_job-Keeps, update_job_status-Keeps, list_completed_jobs-Keeps,
  delete_expired_idempotency_keys-Keeps,
}

module _ (p : Platform) where
  run_plan-Moves :
      (f : Stages) (id : String) (xs : List PlanStep) (s : Run)
      → Tame p s.world.turns
      → Moves p s.world (run_plan p f id xs s).1.world
  unfolding run_plan
  run_plan-Moves f id [] s h =
      let m = update_job_status-Keeps p id status_completed stage_health_checking "" s.world h in
      set_then_cases (λ o. Moves p s.world o.1.world) p id status_completed stage_health_checking
        (λ r. (none, r)) s (λ e. m) m
  run_plan-Moves f id (x ∷ xs) s h =
      let m = update_job_status-Keeps p id status_running x.stage "" s.world h in
      let w = (update_job_status p id status_running x.stage "" s.world).1 in
      step_then_cases (λ o. Moves p s.world o.1.world) p id f x (run_plan p f id xs) s (λ e. m)
        (λ message stops.
          Moves-trans p m (update_job_status-Keeps p id status_failed x.stage message w m.tame))
        (λ fine.
          Moves-trans p m (run_plan-Moves f id xs (called x.call (record s { world = w })) m.tame))

  execute-Moves :
      (env : String → String) (f : Stages) (job : Job) (s : Run)
      → Tame p s.world.turns
      → Moves p s.world (execute p env f job s).1.world
  unfolding execute
  execute-Moves env f job s h =
      let registry = get_env env "CONTAINER_REGISTRY" "registry:5000" in
      let workspace = cat "/tmp/workspaces/" job.id in
      let manifest_dir = join (join workspace "manifests") job.id in
      let image_tag = cat registry (cat "/" (cat job.target_namespace (cat ":" job.id))) in
      rw (stages-run_plan p f job image_tag workspace manifest_dir)
        (run_plan-Moves f job.id (plan_of env job) s h)

  -- The two parts of the handler behind the decoding and behind the loading.
  abbrev pub run_loaded :
      (String → String) → Stages → Run → String → Result Job → World → Option HandlerError × Run
  run_loaded env f s job_id loaded w = elim loaded [
    | err e ↦ (some (not_loaded job_id e), record s { world = w })
    | ok job ↦
        let (result, s') = execute p env f job (record s { world = w }) in (handled result, s')
  ]

  abbrev pub handle_decoded :
      (String → String) → Stages → Run → Option String → Option HandlerError × Run
  handle_decoded env f s decoded = elim decoded [
    | none ↦ (some bad_payload, s)
    | some job_id ↦ let (loaded, w) = get_job p job_id s.world in run_loaded env f s job_id loaded w
  ]

  pub handle_deploy_job-Moves :
      (env : String → String) (f : Stages) (decode : String → Option String) (payload : String)
      (s : Run)
      → Tame p s.world.turns
      → Moves p s.world (handle_deploy_job p env f decode payload s).1.world
  unfolding handle_deploy_job
  handle_deploy_job-Moves env f decode payload s h =
      elim (decode payload) as (λ r. Moves p s.world (handle_decoded env f s r).1.world) [
        | none ↦ Moves-refl p s.world h
        | some job_id ↦
            let m = get_job-Keeps p job_id s.world h in
            let w = (get_job p job_id s.world).1 in
            elim (get_job p job_id s.world).0
              as (λ r. Moves p s.world (run_loaded env f s job_id r w).1.world) [
                | err e ↦ m
                | ok job ↦ Moves-trans p m (execute-Moves env f job (record s { world = w }) m.tame)
              ]
      ]

  pub on_tick-Keeps :
      (fl : Floating) (tick : Tick) (w : World) → Tame p w.turns → Moves p w (on_tick fl p tick w)
  unfolding on_tick run_analysis analyze_completed_jobs
  on_tick-Keeps fl (analysis_tick now) w h =
      Keeps-bind p (list_completed_jobs p (now - hours (7 * 24)))
        (λ jobs. return (recommend fl jobs)) (list_completed_jobs-Keeps p (now - hours (7 * 24)))
        (λ jobs. Moves-refl p) w h
  on_tick-Keeps fl (cleanup_tick now) w h =
      delete_expired_idempotency_keys-Keeps p now (hours 24) w h
