-- ===== src/Api/Replay.antt =====
-- The second of two equal requests to POST /api/v1/jobs, in a calm environment.
use vibls_assignment.Common.{◌≡◌, refl, true, false, [], ◌∷◌, ◌++◌}
use vibls_assignment.Job.{status_queued, Time}
use vibls_assignment.Store.Rows.{Tables, Platform}
use vibls_assignment.Store.Insert.{find_key-append}
use vibls_assignment.Queue.Tasks.{TaskQueue, next_refusal, deploy_task}
use vibls_assignment.Api.Http.{CreateJobRequest, raw_body, Response}
use vibls_assignment.Api.Create.{Codec, idempotency_hash, create_checked}
use vibls_assignment.Api.Created.{
  create_checked-refused, IsNew, row_for, key_for, tables_with, at, create_checked-created,
  create_checked-cached,
}

module _ (p : Platform) (c : Codec) (req : CreateJobRequest) (now later : Time) (t : Tables)
    (q : TaskQueue) (n : IsNew p c req t) where
  -- The cached response of the job that the first request made.
  abbrev pub replay : Response
  replay = record {
    code = 201;
    body = raw_body (p.jsonb (c.marshal_response (p.uuid t.serial) status_queued));
  }

  replayed :
      (q' : TaskQueue)
      → create_checked p c req later (at (tables_with p c req now t n) q')
        ≡ (replay, at (tables_with p c req now t n) q')
  replayed q' =
      create_checked-cached p c req later (tables_with p c req now t n) q' (key_for p c req t)
        (find_key-append (idempotency_hash c req) t.keys (key_for p c req t) n.uncached refl)

  -- Calm, for a request without a cached key, for a target with no queued or running job, and a
  -- queue that accepts the task: the request and its repetition create one job and one task in all.
  -- The second answer is 201 with the stored response, and leaves tables and queue as they are.
  pub create_checked_twice :
      next_refusal q.refusals ≡ false
      → let (first, s) = create_checked p c req now (at t q) in
        (first.code ≡ 201)
        × (create_checked p c req later s ≡ (replay, s))
        × (s.queue.tasks ≡ q.tasks ++ deploy_task (p.uuid t.serial) n.payload ∷ [])
        × (s.world.tables.jobs ≡ t.jobs ++ row_for p c req now t n ∷ [])
  create_checked_twice accepts =
      rw (create_checked-created p c req now t q n accepts) (refl, replayed _, refl, refl)

  -- Calm, for a request without a cached key and for a target with no queued or running job: the
  -- job is lost to the queue if the enqueue is refused. The answer is 500, but the job and its
  -- key stay, so that the client's retry is answered 201 as if the job were on its way, and no task
  -- is ever enqueued for it, also if the queue would accept one now.
  pub refused-stuck :
      next_refusal q.refusals ≡ true
      → let (first, s) = create_checked p c req now (at t q) in
        (first.code ≡ 500)
        × (create_checked p c req later s ≡ (replay, s))
        × (s.queue.tasks ≡ q.tasks)
        × (s.world.tables.jobs ≡ t.jobs ++ row_for p c req now t n ∷ [])
  refused-stuck refuses =
      rw (create_checked-refused p c req now t q n refuses) (refl, replayed _, refl, refl)
