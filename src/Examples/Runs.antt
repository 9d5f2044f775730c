-- ===== src/Examples/Runs.antt =====
-- A run of the pipeline of internal/worker/orchestrator.go whose health check fails, and the
-- statements of internal/models/db.go on two jobs.
use vibls_assignment.Common.{String, ◌≡◌, refl, ◌≢◌, none, some, List, [], ◌∷◌, ◌++◌, map}
use vibls_assignment.Job.{JobStatus, PipelineStage}
use vibls_assignment.Job.Transitions.{here}
use vibls_assignment.Store.Rows.{JobRow, ok, World, jobs_unique, calm}
use vibls_assignment.Store.Jobs.{insert_job, set_status, insert_event, update_job_status}
use vibls_assignment.Store.Lookup.{row_of}
use vibls_assignment.Store.Update.{audit, update_job_status-row_of}
use vibls_assignment.Store.Runnable.{Runs}
use vibls_assignment.Store.Invariant.{insert_job_step, Reach, here, next, empty}
use vibls_assignment.Store.Sound.{Sound, Reach-Sound}
use vibls_assignment.Worker.Pipeline.{execute}
use vibls_assignment.Worker.Plan.{plan_of}
use vibls_assignment.Worker.Outcomes.{first_problem, history, entry, entry_of, Finished}
use vibls_assignment.Worker.Execute.{execute-Finished, IsLinked, execute-IsLinked}
use vibls_assignment.Worker.Calls.{Made, execute-Made}
use vibls_assignment.Examples.Values.{
  platform, job, queued_row, two_jobs, half_ready, queued_job, unset, no_calls,
}

abbrev pub two_jobs-Runs : Runs platform "a" two_jobs
unfolding jobs_unique
two_jobs-Runs = record { valid = refl; unique = refl; row = queued_row; found = refl; alone = refl }

execute-Finished_example :
    Finished "a" two_jobs
      (first_problem half_ready (plan_of unset queued_job) [])
      (history half_ready (plan_of unset queued_job) [])
      (execute platform unset half_ready queued_job (no_calls two_jobs))
execute-Finished_example =
    execute-Finished platform unset half_ready queued_job two_jobs two_jobs-Runs

execute-IsLinked_example :
    (trail : List (PipelineStage × JobStatus × String)) × IsLinked trail
    × (map entry
          (execute platform unset half_ready queued_job (no_calls two_jobs)).1.world.tables.events
        ≡ [] ++ map (entry_of "a") trail)
execute-IsLinked_example =
    execute-IsLinked platform unset half_ready queued_job two_jobs two_jobs-Runs

execute-Made_example :
    Made []
      (plan_of unset queued_job)
      (execute platform unset half_ready queued_job (no_calls two_jobs))
execute-Made_example = execute-Made platform unset half_ready queued_job (no_calls two_jobs)

abbrev running : World
running = (update_job_status platform "a" "RUNNING" "CLONING" "" (calm two_jobs)).1

abbrev updated_ok :
    update_job_status platform "a" "RUNNING" "CLONING" "" (calm two_jobs) ≡ (ok tt, running)
unfolding update_job_status jobs_unique set_status insert_event
updated_ok = refl

update_job_status-row_of_example :
    ((row' : JobRow) × (row_of "a" running.tables.jobs ≡ some row')
      × (row'.status ≡ "RUNNING")
      × (row'.current_stage ≡ some "CLONING")
      × (row'.error_message ≡ some "")
      × (row'.updated_at ≡ 9)
      × (record row' {
        status = queued_row.status;
        current_stage = queued_row.current_stage;
        error_message = queued_row.error_message;
        updated_at = queued_row.updated_at;
      }
          ≡ queued_row))
    × ((j : String) → j ≢ "a" → row_of j running.tables.jobs ≡ row_of j two_jobs.jobs)
    × (running.tables.keys ≡ two_jobs.keys)
    × (running.tables.events ≡ [] ++ audit platform "a" "RUNNING" "CLONING" "" two_jobs ∷ [])
update_job_status-row_of_example =
    update_job_status-row_of platform "a" "RUNNING" "CLONING" "" two_jobs queued_row running refl
      updated_ok

abbrev one_insert : Reach platform empty (insert_job platform job none none empty).1
one_insert = next here (insert_job_step job none none refl)

Reach-Sound_example : Sound (insert_job platform job none none empty).1
Reach-Sound_example = Reach-Sound platform one_insert
