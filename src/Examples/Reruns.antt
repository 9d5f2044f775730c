-- ===== src/Examples/Reruns.antt =====
-- Statements as uses of a lock, tasks that are run again, and the worker's loops.
use mathlib.Core.List.{Memᴰ}
use vibls_assignment.Common.{String, ◌≡◌, refl, Option, none, some, List, [], ◌∷◌, keep}
use vibls_assignment.Job.{Job, status_running, stage_cloning}
use vibls_assignment.Store.Rows.{JobRow, Tables, ok, unique_violation, calm}
use vibls_assignment.Store.Jobs.{insert_job, set_status, scan_job, select_job, get_job}
use vibls_assignment.Store.Invariant.{
  insert_job_step, set_status_step, here, next, empty, Reach-Inv,
}
use vibls_assignment.Store.Slot.{LockStep}
use vibls_assignment.Store.Lock.{slot, Reach-LockStep}
use vibls_assignment.Worker.Pipeline.{Call, Outcome, update_failed, execute}
use vibls_assignment.Worker.Plan.{plan_of}
use vibls_assignment.Worker.Outcomes.{first_problem, history, Finished}
use vibls_assignment.Worker.Deploy.{handled, handle_deploy_job}
use vibls_assignment.Worker.Again.{run_times, handle_deploy_job_again}
use vibls_assignment.Worker.Blocked.{execute-blocked}
use vibls_assignment.Worker.Background.{
  analysis_tick, cleanup_tick, Tick, run_ticks, outlives_all, run_ticks-calm,
}
use vibls_assignment.Examples.Values.{
  platform, job, queued_row, two_jobs, half_ready, unset, no_calls,
}
use vibls_assignment.Examples.Runs.{two_jobs-Runs}
use vibls_assignment.Examples.Tasks.{floating}

abbrev inserted_once : Tables
inserted_once = (insert_job platform job none none empty).1

abbrev completed_once : Tables
completed_once = (set_status platform "id" "COMPLETED" "HEALTH_CHECKING" "" inserted_once).1

-- A job is inserted, and then completed.
Reach-LockStep_example :
    LockStep
      (slot "https://git/app" "main" "sandbox" inserted_once)
      (slot "https://git/app" "main" "sandbox" completed_once)
Reach-LockStep_example =
    Reach-LockStep "https://git/app" "main" "sandbox" platform
      (next here (insert_job_step job none none refl)) (Reach-Inv platform here)
      (set_status_step "id" "COMPLETED" "HEALTH_CHECKING" "" refl)

abbrev queued_a : Job
queued_a = record job { id = "a"; created_at = 3; updated_at = 3 }

loaded_lem : get_job platform "a" (calm two_jobs) ≡ (ok queued_a, calm two_jobs)
unfolding get_job select_job scan_job
loaded_lem = refl

abbrev as_id : String → Option String
as_id s = some s

-- The second run, after one that failed at the health check.
handle_deploy_job_again_example :
    (t' : Tables) × (calls : List Call) × (o : Outcome) × (run_times platform unset half_ready as_id
        "a" 1
        (no_calls two_jobs)
      ≡ record { world = calm t'; calls = calls })
    × (handle_deploy_job platform unset half_ready as_id "a"
          (record { world = calm t'; calls = calls })
        ≡ (handled o.0, o.1))
    × Finished "a" t'
        (first_problem half_ready (plan_of unset queued_a) calls)
        (history half_ready (plan_of unset queued_a) calls)
        o
handle_deploy_job_again_example =
    handle_deploy_job_again platform unset half_ready as_id "a" 1 "a" queued_a two_jobs refl
      two_jobs-Runs loaded_lem

-- A failed job, and a new one for its target.
abbrev failed_row : JobRow
failed_row = record queued_row { id = "c"; status = "FAILED" }

abbrev replaced : Tables
replaced = record two_jobs { jobs = failed_row ∷ queued_row ∷ [] }

execute-blocked_example :
    execute platform unset half_ready (record job { id = "c" }) (no_calls replaced)
    ≡ (some (update_failed status_running stage_cloning unique_violation), no_calls replaced)
execute-blocked_example =
    execute-blocked platform unset half_ready (record job { id = "c" }) replaced [] failed_row
      queued_row refl refl (Memᴰ.tail (Memᴰ.head refl)) refl refl refl

abbrev ticks : List Tick
ticks = analysis_tick 9 ∷ cleanup_tick 90000000000000 ∷ []

run_ticks-calm_example :
    run_ticks floating platform ticks (calm two_jobs)
    ≡ calm (record two_jobs { keys = keep (outlives_all floating platform ticks) two_jobs.keys })
run_ticks-calm_example = run_ticks-calm floating platform ticks two_jobs
