-- ===== src/System/Transaction.antt =====
-- The transaction of handleCreateJob (internal/api/handlers.go) among statements of others: what it
-- does to the tables, and the task that it leaves in the queue.
use vibls_assignment.Common.{
  String, ◌≡◌, refl, sym, ap, ◌∙◌, ◌⊎◌, inl, inr, Bool, true, false, not, ◌&&◌, Option, some, List,
  [], ◌∷◌, ◌++◌, arith, ◌==◌, Bool-cases, Option-cases, any,
}
use vibls_assignment.Job.{Job}
use vibls_assignment.Store.Rows.{
  JobRow, Tables, Platform, bad_json, Result, ok, err, World, first_turn, statement_tx, is_active,
  same_target, clashes, jobs_unique,
}
use vibls_assignment.Store.Jobs.{marshal_column, new_row, stored, insert_job, create_job_tx}
use vibls_assignment.Store.Invariant.{has_job, insert_job_step, insert_key_step, Reach}
use vibls_assignment.Store.Keys.{insert_key, create_idempotency_key_tx}
use vibls_assignment.Store.Insert.{or-eq-false, jobs_unique-append, any-append_last}
use vibls_assignment.Queue.Tasks.{deploy_task}
use vibls_assignment.Api.Http.{Server}
use vibls_assignment.Api.Create.{Codec}
use vibls_assignment.System.Moves.{Moves, Keeps, Moves-refl, Keeps-statement_tx, one_step}

-- The queue took no task, or that of one job that is new and in the tables.
pub data Enqueued (p : Platform) (c : Codec) (s s' : Server) : Type 0 where
  no_task : s'.queue.tasks ≡ s.queue.tasks → Enqueued p c s s'
  one_task :
      (id payload : String) (base : Tables)
      → s'.queue.tasks ≡ s.queue.tasks ++ deploy_task id payload ∷ []
      → c.marshal_payload id ≡ some payload
      → Reach p s.world.tables base
      → has_job base.jobs id ≡ false
      → has_job s'.world.tables.jobs id ≡ true
      → Enqueued p c s s'

pub record Served (p : Platform) (c : Codec) (s s' : Server) : Type 0 where
  pub moves : Moves p s.world s'.world
  pub enqueued : Enqueued p c s s'

-- A new row has an identifier that no other row has.
no_id :
    (rows : List JobRow) (row : JobRow)
    → any (λ r. clashes r row) rows ≡ false
    → has_job rows row.id ≡ false
no_id [] row h = refl
no_id (r ∷ rows) row h =
    let (head, tail) = or-eq-false (clashes r row) (any (λ s. clashes s row) rows) h in
    rw
      (
        (or-eq-false (r.id == row.id)
            (is_active r.status && is_active row.status && same_target r row) head).0,
        no_id rows row tail,
      )
      refl

and_not : (a b : Bool) → (a && not b) ≡ true → b ≡ false
and_not a b h = ground arith

new_id :
    (rows : List JobRow) (row : JobRow)
    → jobs_unique (rows ++ row ∷ []) ≡ true
    → has_job rows row.id ≡ false
new_id rows row h = no_id rows row (
    and_not (jobs_unique rows) (any (λ r. clashes r row) rows)
      (sym (jobs_unique-append rows row) ∙ h))

insert_job-new :
    (p : Platform) (job : Job) (overrides timestamps : Option String) (t : Tables) (id : String)
    → (insert_job p job overrides timestamps t).0 ≡ ok id
    → (has_job t.jobs id ≡ false)
      × (has_job (insert_job p job overrides timestamps t).1.jobs id ≡ true)
unfolding insert_job
insert_job-new p job overrides timestamps t id h =
    let row = new_row p job (stored p overrides) (stored p timestamps) t in
    elim (Bool-cases (jobs_unique (t.jobs ++ row ∷ []))) [
      | inl unique ↦
          let same : row.id ≡ id = ground (arith, unique) in
          rw (sym same) (new_id t.jobs row unique, rw unique (any-append_last t.jobs row))
      | inr clash ↦ ground (arith, clash)
    ]

statement_tx-eq-ok :
    {A : Type 0} (run : Tables → Result A × Tables) (w : World) (a : A)
    → (statement_tx run w).0 ≡ ok a
    → ((run w.tables).0 ≡ ok a) × ((statement_tx run w).1.tables ≡ (run w.tables).1)
statement_tx-eq-ok run w a h = elim (Bool-cases (first_turn w.turns).fails) [
  | inl failed ↦ ground (arith, failed)
  | inr works ↦ (ground (arith, works), rw works refl)
]

module _ (p : Platform) where
  pub create_job_tx-cases :
      (job : Job) (w : World)
      → (create_job_tx p job w ≡ (err bad_json, w))
        ⊎ ((o : Option String) × (ts : Option String) × (create_job_tx p job w
              ≡ statement_tx (insert_job p job o ts) w))
  unfolding create_job_tx
  create_job_tx-cases job w =
      elim (Option-cases (marshal_column p.marshal_overrides job.resource_overrides)) [
        | inl e ↦ inl (ground (arith, e))
        | inr (o, e) ↦
            elim (Option-cases (marshal_column p.marshal_timestamps job.stage_timestamps)) [
              | inl e' ↦ inl (ground (arith, e, e'))
              | inr (ts, e') ↦ inr (o, ts, ground (arith, e, e'))
            ]
      ]

  pub create_job_tx-Keeps : (job : Job) → Keeps p (create_job_tx p job)
  create_job_tx-Keeps job w h = elim (create_job_tx-cases job w) [
    | inl e ↦ rw e (Moves-refl p w h)
    | inr (o, ts, e) ↦ rw e (
        Keeps-statement_tx p (insert_job p job o ts) (λ t. one_step (insert_job_step job o ts refl))
          w h)
  ]

  pub create_job_tx-new :
      (job : Job) (w : World) (id : String)
      → (create_job_tx p job w).0 ≡ ok id
      → (has_job w.tables.jobs id ≡ false)
        × (has_job (create_job_tx p job w).1.tables.jobs id ≡ true)
  create_job_tx-new job w id h = elim (create_job_tx-cases job w) [
    | inl e ↦ ground (arith, e)
    | inr (o, ts, e) ↦
        let (found, tables) =
          statement_tx-eq-ok (insert_job p job o ts) w id
            (sym (ap (λ (r : Result String × World). r.0) e) ∙ h) in
        let (missing, present) = insert_job-new p job o ts w.tables id found in
        (missing, rw (e, tables) present)
  ]

  pub create_idempotency_key_tx-Keeps :
      (hash id response : String) → Keeps p (create_idempotency_key_tx p hash id response)
  unfolding create_idempotency_key_tx
  create_idempotency_key_tx-Keeps hash id response =
      Keeps-statement_tx p (insert_key p hash id response)
        (λ t. one_step (insert_key_step hash id response refl))
