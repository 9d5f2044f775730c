-- ===== src/Api/Created.antt =====
-- handleCreateJob of internal/api/handlers.go in a calm environment: a new job, its replay, and
-- what a refused enqueue leaves behind.
use vibls_assignment.Common.{
  suc, String, ◌≡◌, refl, ◌∙◌, true, false, Option, none, some, [], ◌∷◌, ◌++◌, arith, ◌==◌,
  find_first, any,
}
use vibls_assignment.Job.{status_queued, Time}
use vibls_assignment.Store.Rows.{JobRow, IdempotencyKey, Tables, Platform, ok, jobs_unique, calm}
use vibls_assignment.Store.Jobs.{
  marshal_column, is_deployment_of, get_active_deployment, new_row, stored, insert_job,
  create_job_tx,
}
use vibls_assignment.Store.Keys.{get_idempotency_key, create_idempotency_key_tx}
use vibls_assignment.Store.Insert.{insert_unique, any-append_last, any_key-none}
use vibls_assignment.Queue.Tasks.{
  TaskQueue, next_refusal, later_refusals, deploy_task, enqueue_deploy_job,
}
use vibls_assignment.Api.Http.{CreateJobRequest, raw_body, created_body, http_error, Server}
use vibls_assignment.Api.Create.{
  Codec, idempotency_hash, job_of, enqueue_created, create_in_tx, create_checked,
}

-- Nothing stands in the way of a new job for this request.
pub record IsNew (p : Platform) (c : Codec) (req : CreateJobRequest) (t : Tables) : Type 0 where
  pub column : Option String
  pub payload : String
  pub marshalled : marshal_column p.marshal_overrides req.resource_overrides ≡ some column
  pub packed : c.marshal_payload (p.uuid t.serial) ≡ some payload
  pub unique : jobs_unique t.jobs ≡ true
  pub fresh : any (λ r. r.id == p.uuid t.serial) t.jobs ≡ false
  pub uncached : find_first (λ k. k.hash == idempotency_hash c req) t.keys ≡ none
  pub idle :
      find_first (is_deployment_of req.repository_url req.branch req.target_namespace) t.jobs ≡ none

-- The row and the key that the request makes.
abbrev pub row_for :
    (p : Platform) (c : Codec) (req : CreateJobRequest) (now : Time) (t : Tables)
    → IsNew p c req t
    → JobRow
row_for p c req now t n = new_row p (job_of req now) (stored p n.column) none t

abbrev pub key_for : Platform → Codec → CreateJobRequest → Tables → IdempotencyKey
key_for p c req t = record {
  hash = idempotency_hash c req;
  job_id = p.uuid t.serial;
  response = p.jsonb (c.marshal_response (p.uuid t.serial) status_queued);
  created_at = t.now;
}

abbrev pub tables_with :
    (p : Platform) (c : Codec) (req : CreateJobRequest) (now : Time) (t : Tables)
    → IsNew p c req t
    → Tables
tables_with p c req now t n = record t {
  jobs = t.jobs ++ row_for p c req now t n ∷ [];
  keys = t.keys ++ key_for p c req t ∷ [];
  serial = suc t.serial;
}

abbrev pub at : Tables → TaskQueue → Server
at t q = record { world = calm t; queue = q }

module _ (p : Platform) (c : Codec) (req : CreateJobRequest) (now : Time) (t : Tables)
    (q : TaskQueue) (n : IsNew p c req t) where
  inserted_job : create_job_tx p (job_of req now) (calm t) ≡ (
    ok (p.uuid t.serial),
    calm (record t { jobs = t.jobs ++ row_for p c req now t n ∷ []; serial = suc t.serial }),
  )
  unfolding create_job_tx insert_job
  inserted_job =
      ground (
        arith,
        n.marshalled,
        insert_unique t.jobs (row_for p c req now t n) n.unique n.fresh n.idle,
      )

  inserted_key :
      create_idempotency_key_tx p
        (idempotency_hash c req)
        (p.uuid t.serial)
        (c.marshal_response (p.uuid t.serial) status_queued)
        (calm (record t { jobs = t.jobs ++ row_for p c req now t n ∷ []; serial = suc t.serial }))
      ≡ (ok tt, calm (tables_with p c req now t n))
  unfolding create_idempotency_key_tx
  inserted_key =
      rw
        (
          any_key-none (idempotency_hash c req) t.keys n.uncached,
          any-append_last t.jobs (row_for p c req now t n),
        )
        refl

  create_in_tx-IsNew :
      create_in_tx p c (idempotency_hash c req) (job_of req now) (at t q)
      ≡ enqueue_created p c (p.uuid t.serial) (at (tables_with p c req now t n) q)
  unfolding create_in_tx
  create_in_tx-IsNew = ground (arith, inserted_job, inserted_key)

  create_checked-IsNew :
      create_checked p c req now (at t q)
      ≡ enqueue_created p c (p.uuid t.serial) (at (tables_with p c req now t n) q)
  unfolding create_checked get_idempotency_key get_active_deployment
  create_checked-IsNew = rw (n.uncached, n.idle) create_in_tx-IsNew

  -- Calm, for a request without a cached key, for a target with no queued or running job, and a
  -- queue that accepts the task: the answer is 201 with the new id, one QUEUED job and its key are
  -- added, and exactly one deploy task with the job's id as its task id is enqueued.
  pub create_checked-created :
      next_refusal q.refusals ≡ false
      → create_checked p c req now (at t q) ≡ (
        record { code = 201; body = created_body (p.uuid t.serial) status_queued },
        at (tables_with p c req now t n) (record {
          tasks = q.tasks ++ deploy_task (p.uuid t.serial) n.payload ∷ [];
          refusals = later_refusals q.refusals;
        }),
      )
  unfolding enqueue_created enqueue_deploy_job
  create_checked-created accepts = create_checked-IsNew ∙ ground (arith, n.packed, accepts)

  pub create_checked-refused :
      next_refusal q.refusals ≡ true
      → create_checked p c req now (at t q) ≡ (
        http_error 500 "failed to enqueue job",
        at (tables_with p c req now t n) (record q { refusals = later_refusals q.refusals }),
      )
  unfolding enqueue_created enqueue_deploy_job
  create_checked-refused refuses = create_checked-IsNew ∙ ground (arith, n.packed, refuses)

-- A request whose key is cached is answered with the stored response, whatever the state of its job
-- and of the queue; nothing is written and nothing is enqueued.
pub create_checked-cached :
    (p : Platform) (c : Codec) (req : CreateJobRequest) (now : Time) (t : Tables) (q : TaskQueue)
    (key : IdempotencyKey)
    → find_first (λ k. k.hash == idempotency_hash c req) t.keys ≡ some key
    → create_checked p c req now (at t q)
      ≡ (record { code = 201; body = raw_body key.response }, at t q)
unfolding create_checked get_idempotency_key
create_checked-cached p c req now t q key cached = rw cached refl
