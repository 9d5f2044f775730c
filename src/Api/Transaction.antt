-- ===== src/Api/Transaction.antt =====
-- The transaction of handleCreateJob in any environment.
use vibls_assignment.Common.{
  ◌==◌, true, drop, any, String, ◌≡◌, sym, ap, ◌∙◌, inl, inr, false, some, List, [], ◌∷◌, ◌++◌,
  arith, Bool-cases, find_first,
}
use vibls_assignment.Job.{status_queued, Job}
use vibls_assignment.Store.Rows.{
  JobRow, IdempotencyKey, Tables, Platform, DbError, Result, ok, err, Turn, World, first_turn,
  later_turns, after, Result-cases,
}
use vibls_assignment.Store.Jobs.{is_deployment_of, create_job_tx}
use vibls_assignment.Store.Keys.{get_idempotency_key, create_idempotency_key_tx}
use vibls_assignment.Queue.Tasks.{enqueue_deploy_job}
use vibls_assignment.Api.Http.{http_error, Server}
use vibls_assignment.Api.Create.{
  Codec, rollback, is_key_exists, enqueue_created, recover_conflict, create_in_tx,
}
use vibls_assignment.Api.Inserts.{
  later_four, create_job_tx-ok, create_idempotency_key_tx-ok, create_idempotency_key_tx-taken,
  create_idempotency_key_tx-turns, create_job_tx-clash,
}

-- The tables that the transaction of a job and a hash on `base` may leave, where `turns` are those
-- from its BEGIN on: as they were; if the hash was taken, as others leave them in the one turn after
-- BEGIN, both inserts and ROLLBACK, in which the stored response is read; or with one new queued job
-- for the job's target and one new key with that hash.
pub data Left (hash : String) (job : Job) (turns : List Turn) (base u : Tables) : Type 0 where
  untouched : u ≡ base → Left hash job turns base u
  others_only :
      any (λ k. k.hash == hash) base.keys ≡ true
      → u ≡ (first_turn (drop 4 turns)).others base
      → Left hash job turns base u
  added :
      (row : JobRow) (key : IdempotencyKey)
      → u.jobs ≡ base.jobs ++ row ∷ []
      → u.keys ≡ base.keys ++ key ∷ []
      → u.events ≡ base.events
      → row.status ≡ status_queued
      → row.repo_url ≡ job.repository_url
      → row.branch ≡ job.branch
      → row.target_namespace ≡ job.target_namespace
      → key.hash ≡ hash
      → key.job_id ≡ row.id
      → Left hash job turns base u

module _ (p : Platform) (c : Codec) where
  pub enqueue_created-tables :
      (id : String) (s : Server) → (enqueue_created p c id s).1.world ≡ s.world
  unfolding enqueue_created enqueue_deploy_job
  enqueue_created-tables id s = ground arith

  recover_conflict-Left :
      (hash : String) (job : Job) (e : DbError) (s : Server) (turns : List Turn)
      → s.world.turns ≡ drop 4 turns
      → (is_key_exists e ≡ true → any (λ k. k.hash == hash) s.world.tables.keys ≡ true)
      → Left hash job turns s.world.tables (recover_conflict p c hash e s).1.world.tables
  unfolding recover_conflict get_idempotency_key
  recover_conflict-Left hash job e s turns fourth taken = elim (Bool-cases (is_key_exists e)) [
    | inl race ↦ others_only (taken race) (ground (arith, race, sym fourth))
    | inr other ↦ untouched (ground (arith, other))
  ]

  module _ (hash : String) (job : Job) (s : Server) where
    abbrev pub w₁ : World
    w₁ = after s.world

    abbrev pub w₂ : World
    w₂ = (create_job_tx p job w₁).1

    abbrev pub keyed : String → Result (Unit {0}) × World
    keyed id = create_idempotency_key_tx p hash id (c.marshal_response id status_queued) w₂

    module _ (id : String) (works : (first_turn s.world.turns).fails ≡ false)
        (created : (create_job_tx p job w₁).0 ≡ ok id) where
      pub after_key_error :
          (e : DbError)
          → (keyed id).0 ≡ err e
          → create_in_tx p c hash job s
            ≡ recover_conflict p c hash e (record s { world = rollback w₁.tables (keyed id).1 })
      unfolding create_in_tx
      after_key_error e failed = ground (arith, failed)

      pub after_commit :
          (u : Unit {0})
          → (keyed id).0 ≡ ok u
          → (first_turn (keyed id).1.turns).fails ≡ false
          → create_in_tx p c hash job s
            ≡ enqueue_created p c id (record s {
              world = record {
                tables = (keyed id).1.tables;
                turns = later_turns (keyed id).1.turns;
              };
            })
      unfolding create_in_tx
      after_commit u fine commits = ground (arith, fine, commits)

      turns_after_rollback : later_turns (keyed id).1.turns ≡ drop 4 s.world.turns
      turns_after_rollback =
          let (row, jobs, keys, events, named, status, repo, branch, namespace, turns) =
            create_job_tx-ok p job w₁ id created in
          ap later_turns
            (create_idempotency_key_tx-turns p hash id (c.marshal_response id status_queued) w₂)
          ∙ ap (λ ts. later_turns (later_turns ts)) turns
          ∙ later_four s.world.turns

      taken_before :
          (e : DbError)
          → (keyed id).0 ≡ err e
          → is_key_exists e ≡ true
          → any (λ k. k.hash == hash) w₁.tables.keys ≡ true
      taken_before e failed race =
          let (row, jobs, keys, events, named, status, repo, branch, namespace, turns) =
            create_job_tx-ok p job w₁ id created in
          ap (λ ks. any (λ (k : IdempotencyKey). k.hash == hash) ks) (sym keys)
          ∙ create_idempotency_key_tx-taken p hash id (c.marshal_response id status_queued) w₂ e
              failed race

      added_both :
          (u : Unit {0})
          → job.status ≡ status_queued
          → (keyed id).0 ≡ ok u
          → Left hash job s.world.turns w₁.tables (keyed id).1.tables
      added_both u queued fine =
          let (row, jobs, keys, events, named, status, repo, branch, namespace, turns) =
            create_job_tx-ok p job w₁ id created in
          let (key, tables, owned, hashed) =
            create_idempotency_key_tx-ok p hash id (c.marshal_response id status_queued) w₂ u
              fine in
          added row key (ap (λ (t : Tables). t.jobs) tables ∙ jobs)
            (ap (λ (t : Tables). t.keys) tables
              ∙ ap (λ (ks : List IdempotencyKey). ks ++ key ∷ []) keys)
            (ap (λ (t : Tables). t.events) tables ∙ events) (status ∙ queued) repo branch namespace
            hashed (owned ∙ sym named)

  -- In any environment, for a queued job, the transaction adds the job and its key together or
  -- not at all. It leaves the tables of its begin as they were; or, only if the hash is taken in
  -- them, as others leave them in the one turn after ROLLBACK in which the stored response is read;
  -- or with exactly one more queued job, for the given target, and one more key, with the given
  -- hash, which belongs to that job.
  pub create_in_tx-Left :
      (hash : String) (job : Job) (s : Server)
      → job.status ≡ status_queued
      → Left hash job s.world.turns
          (after s.world).tables
          (create_in_tx p c hash job s).1.world.tables
  unfolding create_in_tx
  create_in_tx-Left hash job s queued = elim (Bool-cases (first_turn s.world.turns).fails) [
    | inl failed ↦ untouched (ground (arith, failed))
    | inr works ↦ elim (Result-cases (create_job_tx p job (after s.world)).0) [
      | inr (e, failed) ↦ untouched (ground (arith, works, failed))
      | inl (id, created) ↦ elim (Result-cases (keyed hash job s id).0) [
        | inr (e, failed) ↦ rw (after_key_error hash job s id works created e failed) (
            recover_conflict-Left hash job e
              (record s { world = rollback (after s.world).tables (keyed hash job s id).1 })
              s.world.turns (turns_after_rollback hash job s id works created)
              (taken_before hash job s id works created e failed))
        | inl (u, fine) ↦ elim (Bool-cases (first_turn (keyed hash job s id).1.turns).fails) [
          | inl lost ↦ untouched (ground (arith, works, created, fine, lost))
          | inr commits ↦
              rw
                (after_commit hash job s id works created u fine commits, enqueue_created-tables id)
                (added_both hash job s id works created u queued fine)
        ]
      ]
    ]
  ]

-- Two equal requests at once: if the transaction can begin and another client's job for the same
-- target is queued or running when the transaction begins, whatever the earlier checks saw, the
-- unique index refuses the insert, and the answer is 500, not the other request's response;
-- nothing is written or enqueued.
pub create_in_tx-race :
    (p : Platform) (c : Codec) (hash : String) (job : Job) (s : Server) (other : JobRow)
    → (first_turn s.world.turns).fails ≡ false
    → job.status ≡ status_queued
    → find_first
        (is_deployment_of job.repository_url job.branch job.target_namespace)
        (after s.world).tables.jobs
      ≡ some other
    → ((create_in_tx p c hash job s).0 ≡ http_error 500 "failed to create job")
      × ((create_in_tx p c hash job s).1.world.tables ≡ (after s.world).tables)
      × ((create_in_tx p c hash job s).1.queue ≡ s.queue)
unfolding create_in_tx
create_in_tx-race p c hash job s other works queued found =
    let (e, refused) = create_job_tx-clash p job (after s.world) other queued found in
    (ground (arith, refused), ground (arith, refused), ground (arith, refused))
