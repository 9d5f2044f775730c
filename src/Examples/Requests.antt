-- ===== src/Examples/Requests.antt =====
-- Requests to POST /api/v1/jobs: a new one, its repetition, and a lost race.
use vibls_assignment.Store.Jobs.{as_stored}
use vibls_assignment.Common.{◌≡◌, refl, ◌≢◌, ◌↔◌, true, false, none, some, [], ◌∷◌, ◌++◌}
use vibls_assignment.Common.Text.{codes}
use vibls_assignment.Job.{status_queued, Time}
use vibls_assignment.Store.Rows.{jobs_unique}
use vibls_assignment.Queue.Tasks.{deploy_task}
use vibls_assignment.Api.Http.{raw_body, created_body, http_error, Server, job_body}
use vibls_assignment.Api.Create.{create_in_tx, create_checked}
use vibls_assignment.Api.Created.{IsNew, row_for, at}
use vibls_assignment.Api.Transaction.{Left, create_in_tx-Left, create_in_tx-race}
use vibls_assignment.Api.Replay.{create_checked_twice, refused-stuck}
use vibls_assignment.Api.Auth.{
  HttpRequest, AuthzInput, bool_value, Evaluation, results, resolve_action, resolve_role, passed,
  auth_middleware,
}
use vibls_assignment.Api.Policy.{allow}
use vibls_assignment.Api.Access.{Bears, resolve_role_iff, Evaluates, auth_middleware-passed_iff}
use vibls_assignment.Api.Read.{handle_get_job}
use vibls_assignment.Worker.Plan.{plan_of}
use vibls_assignment.Worker.Outcomes.{
  first_problem, final_status, final_stage, final_message, final_error,
}
use vibls_assignment.Worker.Deploy.{handled, handle_deploy_job}
use vibls_assignment.System.Deployment.{deployment_from_request_to_end}
use vibls_assignment.Examples.Queries.{job-Stores}
use vibls_assignment.Examples.Values.{
  platform, codec, request, job, queued_row, two_jobs, no_tables, open_queue, closed_queue,
  half_ready, unset,
}

abbrev request-IsNew : IsNew platform codec request no_tables
unfolding jobs_unique
request-IsNew = record {
  column = none;
  payload = "id";
  marshalled = refl;
  packed = refl;
  unique = refl;
  fresh = refl;
  uncached = refl;
  idle = refl;
}

create_checked_twice_example :
    let (first, s) = create_checked platform codec request 5 (at no_tables open_queue) in
    (first.code ≡ 201)
    × (create_checked platform codec request 6 s
        ≡ (record { code = 201; body = raw_body "id QUEUED" }, s))
    × (s.queue.tasks ≡ [] ++ deploy_task "id" "id" ∷ [])
    × (s.world.tables.jobs ≡ [] ++ row_for platform codec request 5 no_tables request-IsNew ∷ [])
unfolding request-IsNew
create_checked_twice_example =
    create_checked_twice platform codec request 5 6 no_tables open_queue request-IsNew refl

refused-stuck_example :
    let (first, s) = create_checked platform codec request 5 (at no_tables closed_queue) in
    (first.code ≡ 500)
    × (create_checked platform codec request 6 s
        ≡ (record { code = 201; body = raw_body "id QUEUED" }, s))
    × (s.queue.tasks ≡ [])
    × (s.world.tables.jobs ≡ [] ++ row_for platform codec request 5 no_tables request-IsNew ∷ [])
refused-stuck_example =
    refused-stuck platform codec request 5 6 no_tables closed_queue request-IsNew refl

create_in_tx-Left_example :
    Left "h" job [] two_jobs
      (create_in_tx platform codec "h" job (at two_jobs open_queue)).1.world.tables
create_in_tx-Left_example = create_in_tx-Left platform codec "h" job (at two_jobs open_queue) refl

-- Another client's job for the same target appears just before the transaction.
abbrev racing : Server
racing = record {
  world = record {
    tables = no_tables;
    turns = record { others = λ t. record t { jobs = queued_row ∷ [] }; fails = false } ∷ [];
  };
  queue = open_queue;
}

create_in_tx-race_example :
    ((create_in_tx platform codec "h" job racing).0 ≡ http_error 500 "failed to create job")
    × ((create_in_tx platform codec "h" job racing).1.world.tables
        ≡ record no_tables { jobs = queued_row ∷ [] })
    × ((create_in_tx platform codec "h" job racing).1.queue ≡ open_queue)
create_in_tx-race_example =
    create_in_tx-race platform codec "h" job racing queued_row refl refl refl

abbrev engine : AuthzInput → Evaluation
engine i = results ((bool_value (allow i.role i.action i.namespace) ∷ []) ∷ [])

abbrev engine-Evaluates : Evaluates engine
engine-Evaluates i = refl

abbrev developer_request : HttpRequest
developer_request = record {
  method = "POST";
  route_pattern = some "/api/v1/jobs";
  path = codes "/api/v1/jobs";
  namespace_param = "";
  authorization = codes "Bearer dev-token";
  body = [];
}

auth_middleware-passed_iff_example : (auth_middleware (some engine) developer_request ≡ passed) ↔ (
    (resolve_action developer_request ≢ "")
    × (resolve_role (codes "Bearer dev-token") ≢ "")
    × (allow (resolve_role (codes "Bearer dev-token")) (resolve_action developer_request) "sandbox"
        ≡ true))
auth_middleware-passed_iff_example =
    auth_middleware-passed_iff engine developer_request engine-Evaluates

resolve_role_iff_example :
    ((resolve_role (codes "dev-token") ≡ "admin") ↔ Bears (codes "dev-token") "admin-token")
    × ((resolve_role (codes "dev-token") ≡ "developer") ↔ Bears (codes "dev-token") "dev-token")
    × ((resolve_role (codes "dev-token") ≡ "viewer") ↔ Bears (codes "dev-token") "view-token")
resolve_role_iff_example = resolve_role_iff (codes "dev-token")

-- A deployment from its request to its end.
deployment_from_request_to_end_example :
    let v = first_problem half_ready (plan_of unset (as_stored "id" job)) [] in
    let (first, s) = create_checked platform codec request 5 (at no_tables open_queue) in
    let (answer, r) =
      handle_deploy_job platform unset half_ready
        (λ text. some text)
        "id"
        (record { world = s.world; calls = [] }) in
    (first ≡ record { code = 201; body = created_body "id" status_queued })
    × (s.queue.tasks ≡ [] ++ deploy_task "id" "id" ∷ [])
    × (answer ≡ handled (final_error v))
    × (at_end : Time) × ((handle_get_job platform "id" r.world).0 ≡ record {
      code = 200;
      body = job_body (record (as_stored "id" job) {
        status = final_status v;
        current_stage = final_stage v;
        error_message = final_message v;
        updated_at = at_end;
      });
    })
unfolding request-IsNew
deployment_from_request_to_end_example =
    deployment_from_request_to_end platform codec unset half_ready request 5 no_tables request-IsNew
      job-Stores (λ text. some text) open_queue (λ h. cc) refl refl
