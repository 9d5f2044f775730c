-- ===== src/System/Events.antt =====
-- The program as it runs: requests at the API (cmd/api/main.go), and tasks and tickers in the
-- worker (cmd/worker/main.go), over one set of tables and one queue. Other processes make their
-- statements in the turns of each event. The queue lists the tasks it has taken, and may deliver
-- each of them any number of times.
use vibls_assignment.Common.{ℕ, String, Option, none, some, List, [], ◌∷◌, get_elem?}
use vibls_assignment.Job.{Time}
use vibls_assignment.Store.Rows.{Tables, Platform, Turn}
use vibls_assignment.Queue.Tasks.{Task, TaskQueue}
use vibls_assignment.Api.Create.{Codec}
use vibls_assignment.Api.Serve.{Route, Incoming, Labels, Service, serve}
use vibls_assignment.Api.Auth.{AuthzInput, Evaluation}
use vibls_assignment.Worker.Pipeline.{Call, Stages, Run}
use vibls_assignment.Worker.Deploy.{HandlerError, bad_payload, handle_deploy_job}
use vibls_assignment.Worker.Background.{Tick, on_tick}
use vibls_assignment.Learning.{Floating}

-- What the two processes are started with.
pub record Program : Type 1 where
  pub platform : Platform
  pub codec : Codec
  pub engine : Option (AuthzInput → Evaluation)
  pub metrics_text : String
  pub env : String → String
  pub stage_functions : Stages
  pub decode_payload : String → Option String
  pub floating : Floating

pub record System : Type 0 where
  pub tables : Tables
  pub queue : TaskQueue
  pub requests : List Labels
  pub calls : List Call

pub data Event : Type 0 where
  request : (route : Route) (i : Incoming) (now : Time) (turns : List Turn) → Event
  delivery : (index : ℕ) (turns : List Turn) → Event
  tick : (tick : Tick) (turns : List Turn) → Event

abbrev pub turns_of : Event → List Turn
turns_of (request route i now turns) = turns
turns_of (delivery index turns) = turns
turns_of (tick t turns) = turns

module _ (g : Program) where
  abbrev pub service_of : System → List Turn → Service
  service_of s turns = record {
    server = record { world = record { tables = s.tables; turns = turns }; queue = s.queue };
    requests = s.requests;
  }

  abbrev pub run_of : System → List Turn → Run
  run_of s turns = record { world = record { tables = s.tables; turns = turns }; calls = s.calls }

  -- The deploy handler on a task, in the state it finds: its answer, and what it leaves.
  unfoldable pub deliver : Task → List Turn → System → Option HandlerError × Run
  deliver task turns s = elim task.payload [
    | none ↦ (some bad_payload, run_of s turns)
    | some payload ↦
        handle_deploy_job g.platform g.env g.stage_functions g.decode_payload payload
          (run_of s turns)
  ]

  abbrev with_run : System → Run → System
  with_run s r = record s { tables = r.world.tables; calls = r.calls }

  unfoldable pub run_event : Event → System → System
  unfolding deliver
  run_event (request route i now turns) s =
      let after_it =
        (serve g.platform g.codec g.engine now g.metrics_text route i (service_of s turns)).1 in
      record s {
        tables = after_it.server.world.tables;
        queue = after_it.server.queue;
        requests = after_it.requests;
      }
  run_event (delivery index turns) s = elim (get_elem? s.queue.tasks index) [
    | none ↦ s
    | some task ↦ with_run s (deliver task turns s).1
  ]
  run_event (tick t turns) s = record s {
    tables = (on_tick g.floating g.platform t (record { tables = s.tables; turns = turns })).tables;
  }

  unfoldable pub run_events : List Event → System → System
  unfolding run_event
  run_events [] s = s
  run_events (e ∷ es) s = run_events es (run_event e s)
