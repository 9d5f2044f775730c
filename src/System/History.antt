-- ===== src/System/History.antt =====
-- Any run of the program: what holds after it.
use vibls_assignment.Common.{ℕ, String, ◌≡◌, false, some, List, [], ◌∷◌, get_elem?, All}
use vibls_assignment.Store.Rows.{Turn}
use vibls_assignment.Store.Invariant.{Inv, Reach, here, empty}
use vibls_assignment.Queue.Tasks.{Task, deploy_task}
use vibls_assignment.Store.Lock.{Locking, Reach-Locking}
use vibls_assignment.System.Moves.{Tame, Reach-trans}
use vibls_assignment.System.Loading.{is_lost, handle_deploy_job-found}
use vibls_assignment.System.Steps.{run_event-Reach}
use vibls_assignment.System.Consistency.{All-get_elem?, Owned, Consistent, run_event-Consistent}
use vibls_assignment.System.Events.{
  Program, System, Event, turns_of, run_of, deliver, run_event, run_events,
}

module _ (g : Program) where
  -- Others make statements of the repository only, in the turns of every event.
  abbrev pub TameEvents : List Event → Type 0
  TameEvents es = All (λ e. Tame g.platform (turns_of e)) es

  run_events-Reach :
      (es : List Event) (s : System)
      → TameEvents es
      → Reach g.platform s.tables (run_events g es s).tables
  unfolding run_events
  run_events-Reach [] s h = here
  run_events-Reach (e ∷ es) s h =
      Reach-trans (run_event-Reach g e s h.0) (run_events-Reach es (run_event g e s) h.1)

  run_events-Consistent :
      (es : List Event) (s : System)
      → TameEvents es
      → Consistent g s
      → Consistent g (run_events g es s)
  unfolding run_events
  run_events-Consistent [] s h v = v
  run_events-Consistent (e ∷ es) s h v =
      run_events-Consistent es (run_event g e s) h.1 (run_event-Consistent g e s h.0 v)

  start-Consistent : (s : System) → Inv s.tables → s.queue.tasks ≡ [] → Consistent g s
  start-Consistent s v empty = record { inv = v; owned = rw empty tt; distinct = rw empty tt }

  -- Whatever requests are served, tasks delivered (again) and ticks fired, in any order, and
  -- whatever statements, commits and calls of the queue fail: if others make statements of the
  -- repository only, then from tables in which the unique indexes and the references hold, and an
  -- empty queue, the program keeps them so, and every task in its queue is a deploy task with the
  -- payload of a job that is in the tables, no two of them with one identifier.
  pub history-Consistent :
      (es : List Event) (s : System)
      → TameEvents es
      → Inv s.tables
      → s.queue.tasks ≡ []
      → Consistent g (run_events g es s)
  history-Consistent es s h v empty = run_events-Consistent es s h (start-Consistent s v empty)

  -- Every run of the program, with the transactions, rollbacks and retries of its handlers, comes
  -- to its tables by statements each of which treats a target as a lock: if others make statements
  -- of the repository only, then from tables in which the unique indexes and the references hold,
  -- there is a sequence of statements from the first tables to the last, and each of them leaves
  -- the queued or running job of a repository, branch and namespace as it is, acquires a free
  -- target, or gives it back; none passes it from one job to another.
  pub history-Locking :
      (es : List Event) (s : System) (repo_url branch namespace : String)
      → TameEvents es
      → Inv s.tables
      → Locking repo_url branch namespace g.platform s.tables (run_events g es s).tables
  history-Locking es s repo_url branch namespace h v =
      Reach-Locking repo_url branch namespace g.platform (run_events-Reach es s h) v

  deliver-found :
      (task : Task) (turns : List Turn) (s : System)
      → ((id payload : String)
          → g.codec.marshal_payload id ≡ some payload
          → g.decode_payload payload ≡ some id)
      → Tame g.platform turns
      → Owned g s.tables.jobs task
      → is_lost (deliver g task turns s).0 ≡ false
  unfolding deliver deploy_task
  deliver-found task turns s decodes h o = rw o.made (
      handle_deploy_job-found g.platform g.env g.stage_functions g.decode_payload o.payload o.id
        (run_of g s turns) (decodes o.id o.payload o.marshalled) h o.present)

  -- After any run from an empty queue and tables in which the unique indexes and the references
  -- hold, in which others make statements of the repository only: no task that the queue delivers
  -- is refused for its payload or for want of its job, whatever fails or is done by others
  -- meanwhile, provided that the decoding of payloads gives back what was marshalled.
  pub history-found :
      (es : List Event) (s : System) (index : ℕ) (task : Task) (turns : List Turn)
      → ((id payload : String)
          → g.codec.marshal_payload id ≡ some payload
          → g.decode_payload payload ≡ some id)
      → TameEvents es
      → Inv s.tables
      → s.queue.tasks ≡ []
      → get_elem? (run_events g es s).queue.tasks index ≡ some task
      → Tame g.platform turns
      → is_lost (deliver g task turns (run_events g es s)).0 ≡ false
  history-found es s index task turns decodes h v empty e tame =
      let s' = run_events g es s in
      deliver-found task turns s' decodes tame (
        All-get_elem? (Owned g s'.tables.jobs) s'.queue.tasks index
          (history-Consistent es s h v empty).owned e)
