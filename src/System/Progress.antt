-- ===== src/System/Progress.antt =====
-- Delivering a task that a run of the program has left in the queue.
use vibls_assignment.Common.{ℕ, String, ◌≡◌, refl, sym, ap, ◌∙◌, true, some, List, [], get_elem?}
use vibls_assignment.Job.{Job}
use vibls_assignment.Store.Rows.{JobRow, ok, is_active}
use vibls_assignment.Store.Jobs.{scan_job}
use vibls_assignment.Store.Invariant.{Inv}
use vibls_assignment.Store.Lookup.{row_of}
use vibls_assignment.Store.Runnable.{Runs_of_active}
use vibls_assignment.Queue.Tasks.{Task, deploy_task}
use vibls_assignment.Worker.Pipeline.{Outcome}
use vibls_assignment.Worker.Plan.{plan_of}
use vibls_assignment.Worker.Outcomes.{Finished, first_problem, history}
use vibls_assignment.Worker.Deploy.{handled}
use vibls_assignment.Worker.Again.{one_run}
use vibls_assignment.System.Consistency.{All-get_elem?, Owned}
use vibls_assignment.System.Events.{Program, System, Event, deliver, run_events}
use vibls_assignment.System.History.{TameEvents, history-Consistent}

some-eq {ℓ} : {A : Type ℓ} {a b : A} → some a ≡ some b → a ≡ b
some-eq q = cc

module _ (g : Program) where
  -- The payload of an owned task is that of its job.
  Owned-payload :
      (rows : List JobRow) (id payload : String)
      → Owned g rows (deploy_task id payload)
      → g.codec.marshal_payload id ≡ some payload
  unfolding deploy_task
  Owned-payload rows id payload o =
      let ids : some id ≡ some o.id = ap (λ (t : Task). t.task_id) o.made in
      let payloads : some payload ≡ some o.payload = ap (λ (t : Task). t.payload) o.made in
      ap g.codec.marshal_payload (some-eq ids) ∙ o.marshalled ∙ sym payloads

  -- After any run of the program from an empty queue and tables in which the unique indexes and the
  -- references hold, in which others made statements of the repository only: if a queued task's job
  -- has a valid id, is queued or running and can be read, then delivering the task, with nothing
  -- failing and nobody else acting, takes the job through the whole pipeline from the state that it
  -- is in. It ends COMPLETED if no stage has a problem, and else FAILED at the first stage that has
  -- one. That holds if payloads are decoded to what was marshalled.
  pub history-progress :
      (es : List Event) (s : System) (index : ℕ) (id payload : String) (row : JobRow) (job : Job)
      → ((i text : String) → g.codec.marshal_payload i ≡ some text → g.decode_payload text ≡ some i)
      → TameEvents g es
      → Inv s.tables
      → s.queue.tasks ≡ []
      → get_elem? (run_events g es s).queue.tasks index ≡ some (deploy_task id payload)
      → g.platform.is_uuid id ≡ true
      → row_of id (run_events g es s).tables.jobs ≡ some row
      → is_active row.status ≡ true
      → scan_job g.platform row ≡ ok job
      → let s' = run_events g es s in
        (o : Outcome) × (deliver g (deploy_task id payload) [] s' ≡ (handled o.0, o.1))
        × Finished id s'.tables
            (first_problem g.stage_functions (plan_of g.env job) s'.calls)
            (history g.stage_functions (plan_of g.env job) s'.calls)
            o
  unfolding deliver deploy_task
  history-progress es s index id payload row job decodes tame inv empty queued valid found active
        scanned =
      let s' = run_events g es s in
      let v = history-Consistent g es s tame inv empty in
      let owned = All-get_elem? (Owned g s'.tables.jobs) s'.queue.tasks index v.owned queued in
      let decoded = decodes id payload (Owned-payload s'.tables.jobs id payload owned) in
      let runs = Runs_of_active g.platform id s'.tables row valid v.inv.unique found active in
      one_run g.platform g.env g.stage_functions g.decode_payload payload id job decoded s'.tables
        s'.calls
        (record {
          runs = runs;
          loaded = job;
          scanned = ap (scan_job g.platform) (some-eq (sym runs.found ∙ found)) ∙ scanned;
          planned = refl;
        })
