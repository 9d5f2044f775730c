-- ===== src/System/Steps.antt =====
-- One event moves the tables by statements of the repository.
use vibls_assignment.Common.{
  ℕ, String, ◌≡◌, refl, inl, inr, Option, none, some, List, Option-cases, get_elem?,
}
use vibls_assignment.Store.Rows.{Turn}
use vibls_assignment.Store.Invariant.{Reach, here}
use vibls_assignment.Queue.Tasks.{Task}
use vibls_assignment.Worker.Pipeline.{Run}
use vibls_assignment.Worker.Deploy.{HandlerError, bad_payload, handle_deploy_job}
use vibls_assignment.System.Moves.{Tame, Moves, Moves-refl}
use vibls_assignment.System.Serving.{serve-Served}
use vibls_assignment.System.Deliveries.{handle_deploy_job-Moves, on_tick-Keeps}
use vibls_assignment.System.Events.{
  Program, System, Event, request, delivery, tick, turns_of, service_of, run_of, deliver, run_event,
}

module _ (g : Program) where
  deliver-Moves :
      (task : Task) (turns : List Turn) (s : System)
      → Tame g.platform turns
      → Moves g.platform (run_of g s turns).world (deliver g task turns s).1.world
  unfolding deliver
  deliver-Moves task turns s h = go task.payload
    where
      go :
          (payload : Option String)
          → Moves g.platform
              (run_of g s turns).world
              (elim payload as (λ q. Option HandlerError × Run) [
                | none ↦ (some bad_payload, run_of g s turns)
                | some text ↦
                    handle_deploy_job g.platform g.env g.stage_functions g.decode_payload text
                      (run_of g s turns)
              ]).1.world
      go none = Moves-refl g.platform (run_of g s turns).world h
      go (some text) =
          handle_deploy_job-Moves g.platform g.env g.stage_functions g.decode_payload text
            (run_of g s turns) h

  delivery_none :
      (index : ℕ) (turns : List Turn) (s : System)
      → get_elem? s.queue.tasks index ≡ none
      → run_event g (delivery index turns) s ≡ s
  unfolding run_event
  delivery_none index turns s e = rw (e, run_event) refl

  delivery_some :
      (index : ℕ) (turns : List Turn) (s : System) (task : Task)
      → get_elem? s.queue.tasks index ≡ some task
      → let r = (deliver g task turns s).1 in
        run_event g (delivery index turns) s ≡ record s { tables = r.world.tables; calls = r.calls }
  unfolding run_event
  delivery_some index turns s task e = rw (e, run_event) refl

  -- An event moves the tables by statements of the repository.
  pub run_event-Reach :
      (e : Event) (s : System)
      → Tame g.platform (turns_of e)
      → Reach g.platform s.tables (run_event g e s).tables
  unfolding run_event
  run_event-Reach (request route i now turns) s h =
      (serve-Served g.platform g.codec g.engine now g.metrics_text route i (service_of g s turns)
        h).moves.reach
  run_event-Reach (delivery index turns) s h = elim (Option-cases (get_elem? s.queue.tasks index)) [
    | inl e ↦ rw (delivery_none index turns s e) here
    | inr (task, e) ↦ rw (delivery_some index turns s task e) (deliver-Moves task turns s h).reach
  ]
  run_event-Reach (tick t turns) s h =
      (on_tick-Keeps g.platform g.floating t (record { tables = s.tables; turns = turns }) h).reach

  pub delivery-queue :
      (index : ℕ) (turns : List Turn) (s : System)
      → (run_event g (delivery index turns) s).queue.tasks ≡ s.queue.tasks
  delivery-queue index turns s = elim (Option-cases (get_elem? s.queue.tasks index)) [
    | inl e ↦ rw (delivery_none index turns s e) refl
    | inr (task, e) ↦ rw (delivery_some index turns s task e) refl
  ]
