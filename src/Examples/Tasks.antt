-- ===== src/Examples/Tasks.antt =====
-- The worker's deploy handler, its health check and the learning analyzer, and requests that read.
use vibls_assignment.Common.{String, ◌≡◌, refl, true, false, Option, none, some, List, [], ◌∷◌}
use vibls_assignment.Common.Text.{codes}
use vibls_assignment.Job.{ℤ, pos, Job}
use vibls_assignment.Store.Rows.{ok, World, jobs_unique, calm}
use vibls_assignment.Store.Jobs.{as_stored, insert_job, create_job, scan_job}
use vibls_assignment.Store.Listing.{
  build_query, all_hold, selected, insert_desc, order_desc, scan_jobs, count_jobs, fetch_jobs,
  list_jobs,
}
use vibls_assignment.Store.Roundtrip.{Stores}
use vibls_assignment.Worker.Pipeline.{Outcome, execute}
use vibls_assignment.Worker.Plan.{plan_of}
use vibls_assignment.Worker.Outcomes.{first_problem, history, Finished}
use vibls_assignment.Worker.Deploy.{handled, handle_deploy_job, handle_deploy_job-create_job}
use vibls_assignment.Worker.Health.{Pod, Poll, list_failed, pods, Services, service}
use vibls_assignment.Learning.{Floating}
use vibls_assignment.Api.Http.{listing_body}
use vibls_assignment.Api.Read.{ListQuery, options_of, handle_list_jobs}
use vibls_assignment.Examples.Values.{platform, job, two_jobs, no_tables, half_ready, unset}
use vibls_assignment.Strconv.{parse_int}

tasks-Stores : Stores platform job
tasks-Stores = record { valid = λ n. refl; back = λ o e. cc }

abbrev stored_world : World
stored_world = (create_job platform job (calm no_tables)).1

created_lem : create_job platform job (calm no_tables) ≡ (ok "id", stored_world)
unfolding create_job insert_job jobs_unique
created_lem = refl

abbrev deployed : Outcome
deployed =
    execute platform unset half_ready (as_stored "id" job)
      (record { world = stored_world; calls = [] })

handle_deploy_job-create_job_example :
    (handle_deploy_job platform unset half_ready
        (λ s. some s)
        "id"
        (record { world = stored_world; calls = [] })
      ≡ (handled deployed.0, deployed.1))
    × Finished "id" stored_world.tables
        (first_problem half_ready (plan_of unset (as_stored "id" job)) [])
        (history half_ready (plan_of unset (as_stored "id" job)) [])
        deployed
handle_deploy_job-create_job_example =
    handle_deploy_job-create_job platform unset half_ready (λ s. some s) "id" job no_tables "id"
      stored_world tasks-Stores refl refl refl created_lem refl

abbrev pub ready_pod : Pod
ready_pod = record { running = true; conditions = ("Ready", "True") ∷ [] }

-- One failed call, then one of two pods, then both.
abbrev polls : List Poll
polls =
    list_failed
    ∷ pods (ready_pod ∷ record ready_pod { running = false } ∷ [])
    ∷ pods (ready_pod ∷ ready_pod ∷ [])
    ∷ []

abbrev no_config : Option String
no_config = none

abbrev pub one_service : Services
one_service = service "app" (some ((("10.0.0.1" ∷ []) ∷ []))) ""

abbrev pub floating : Floating
floating = record {
  Number = ℤ;
  literal = λ s. pos 0;
  of_bits = λ n. pos n;
  of_int = λ i. i;
  sum = λ a b. a;
  quotient = λ a n. a;
  whole = λ a. a;
}

abbrev failed_build : Job
failed_build = record job {
  status = "FAILED";
  current_stage = "BUILDING";
  error_message = "no space";
}

abbrev list_query : ListQuery
list_query = record { status = ""; namespace = "prod"; limit = codes "3"; offset = [] }

listed_lem :
    (handle_list_jobs platform list_query (calm two_jobs)).0
    ≡ record { code = 200; body = listing_body (record { jobs = []; total = 0 }) }
unfolding handle_list_jobs options_of parse_int list_jobs count_jobs fetch_jobs build_query selected
    order_desc insert_desc scan_jobs scan_job all_hold
listed_lem = refl
