-- ===== src/Examples/Systems.antt =====
-- A run of the whole program: a request, the delivery of its task, the same request again, and a
-- turn of the clean-up, with others between.
use vibls_assignment.Worker.Deploy.{handle_deploy_job}
use vibls_assignment.Common.{◌≡◌, refl, sym, true, false, some, List, [], ◌∷◌}
use vibls_assignment.Store.Rows.{ok, JobRow, Turn, quiet, jobs_unique}
use vibls_assignment.Store.Jobs.{
  as_stored, scan_job, set_status, insert_job, create_job_tx, get_active_deployment,
}
use vibls_assignment.Store.Keys.{get_idempotency_key, insert_key, create_idempotency_key_tx}
use vibls_assignment.Store.Invariant.{Inv, here, set_status_step}
use vibls_assignment.Store.Lock.{Locking}
use vibls_assignment.Queue.Tasks.{deploy_task, enqueue_deploy_job}
use vibls_assignment.Api.Create.{
  scope_of, idempotency_hash, create_in_tx, create_checked, handle_create_job, enqueue_created,
}
use vibls_assignment.Api.Auth.{auth_middleware, authorize, resolve_action, resolve_role}
use vibls_assignment.Api.Serve.{post_jobs, metrics_middleware, mount_routes, serve}
use vibls_assignment.Worker.Background.{on_tick, cleanup_tick}
use vibls_assignment.Store.Lookup.{row_of}
use vibls_assignment.Worker.Pipeline.{Outcome}
use vibls_assignment.Worker.Plan.{plan_of}
use vibls_assignment.Worker.Outcomes.{Finished, first_problem, history}
use vibls_assignment.Worker.Deploy.{handled}
use vibls_assignment.System.Progress.{history-progress}
use vibls_assignment.System.Moves.{one_step}
use vibls_assignment.System.Loading.{is_lost}
use vibls_assignment.System.Events.{
  Program, System, Event, request, delivery, tick, deliver, run_event, run_events,
}
use vibls_assignment.System.Consistency.{Consistent}
use vibls_assignment.System.Spending.{Spent}
use vibls_assignment.System.Limits.{statements_bounded}
use vibls_assignment.System.Events.{service_of, run_of}
use vibls_assignment.System.History.{TameEvents, history-Consistent, history-Locking, history-found}
use vibls_assignment.Examples.Values.{
  queued_row, job, platform, codec, no_tables, open_queue, half_ready, unset,
}
use vibls_assignment.Examples.Values as Values
use vibls_assignment.Examples.Tasks.{floating}
use vibls_assignment.Examples.Stages.{always, incoming}

abbrev program : Program
program = record {
  platform = platform;
  codec = record codec { decode = λ body. some Values.request };
  engine = always;
  metrics_text = "";
  env = unset;
  stage_functions = half_ready;
  decode_payload = λ s. some s;
  floating = floating;
}

abbrev start : System
start = record { tables = no_tables; queue = open_queue; requests = []; calls = [] }

-- Another process marks a job as failed, and a statement that is lost.
abbrev other_turn : Turn
other_turn = record {
  others = λ t. (set_status platform "id" "FAILED" "CLONING" "gone" t).1;
  fails = false;
}

abbrev lost_turn : Turn
lost_turn = record quiet { fails = true }

abbrev events : List Event
events =
    request post_jobs incoming 5 []
    ∷ delivery 0 (other_turn ∷ quiet ∷ lost_turn ∷ [])
    ∷ request post_jobs incoming 6 (lost_turn ∷ other_turn ∷ [])
    ∷ tick (cleanup_tick 9) []
    ∷ []

abbrev events-Tame : TameEvents program events
events-Tame = (
  tt,
  (
    (
      λ t. one_step (set_status_step "id" "FAILED" "CLONING" "gone" refl),
      (λ t. here, (λ t. here, tt)),
    ),
    (
      (λ t. here, (λ t. one_step (set_status_step "id" "FAILED" "CLONING" "gone" refl), tt)),
      (tt, tt),
    ),
  ),
)

abbrev start-Inv : Inv no_tables
unfolding jobs_unique
start-Inv = record { unique = refl; hashes = tt; keys_linked = tt; events_linked = tt }

history-Consistent_example : Consistent program (run_events program events start)
history-Consistent_example = history-Consistent program events start events-Tame start-Inv refl

history-Locking_example :
    Locking "https://git/app" "main" "sandbox" platform no_tables
      (run_events program events start).tables
history-Locking_example =
    history-Locking program events start "https://git/app" "main" "sandbox" events-Tame start-Inv

-- The queue after the first request.
abbrev posted : List Event
posted = request post_jobs incoming 5 [] ∷ []

queued_lem : (run_events program posted start).queue.tasks ≡ deploy_task "id" "id" ∷ []
unfolding run_events run_event serve metrics_middleware mount_routes auth_middleware authorize
    resolve_action resolve_role handle_create_job create_checked idempotency_hash scope_of
    get_idempotency_key get_active_deployment create_in_tx create_job_tx insert_job jobs_unique
    create_idempotency_key_tx insert_key enqueue_created enqueue_deploy_job
queued_lem = refl

history-found_example :
    is_lost
      (deliver program (deploy_task "id" "id") (lost_turn ∷ []) (run_events program posted start)).0
    ≡ false
history-found_example =
    history-found program posted start 0 (deploy_task "id" "id") (lost_turn ∷ [])
      (λ id payload h. sym h) (tt, tt) start-Inv refl (rw queued_lem refl) (λ t. here, tt)

-- Every statement is lost.
abbrev lost : List Turn
lost = lost_turn ∷ lost_turn ∷ lost_turn ∷ []

statements_bounded_example :
    Spent 7 lost
      (serve platform program.codec always 5 "" post_jobs incoming
        (service_of program start lost)).1.server.world.turns
    × Spent 17 lost
        (handle_deploy_job platform unset half_ready
          (λ s. some s)
          "id"
          (run_of program start lost)).1.world.turns
    × Spent 1 lost
        (on_tick floating platform
          (cleanup_tick 9)
          (record { tables = no_tables; turns = lost })).turns
statements_bounded_example =
    statements_bounded platform program.codec always 5 "" post_jobs incoming
      (service_of program start lost) unset half_ready (λ s. some s) "id"
      (run_of program start lost) floating (cleanup_tick 9)
      (record { tables = no_tables; turns = lost })

-- The job that the first request has left, as the worker reads it.
abbrev posted_row : JobRow
posted_row = record queued_row { id = "id"; created_at = 0; updated_at = 0 }

found_lem : row_of "id" (run_events program posted start).tables.jobs ≡ some posted_row
unfolding run_events run_event serve metrics_middleware mount_routes auth_middleware authorize
    resolve_action resolve_role handle_create_job create_checked idempotency_hash scope_of
    get_idempotency_key get_active_deployment create_in_tx create_job_tx insert_job jobs_unique
    create_idempotency_key_tx insert_key enqueue_created enqueue_deploy_job
found_lem = refl

scanned_lem : scan_job platform posted_row ≡ ok (as_stored "id" job)
unfolding scan_job
scanned_lem = refl

history-progress_example :
    let s' = run_events program posted start in
    (o : Outcome) × (deliver program (deploy_task "id" "id") [] s' ≡ (handled o.0, o.1))
    × Finished "id" s'.tables
        (first_problem half_ready (plan_of unset (as_stored "id" job)) s'.calls)
        (history half_ready (plan_of unset (as_stored "id" job)) s'.calls)
        o
history-progress_example =
    history-progress program posted start 0 "id" "id" posted_row (as_stored "id" job)
      (λ id payload h. sym h) (tt, tt) start-Inv refl (rw queued_lem refl) refl found_lem refl
      scanned_lem
