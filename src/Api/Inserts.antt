-- ===== src/Api/Inserts.antt =====
-- The two inserts of the transaction of handleCreateJob, in any environment.
use vibls_assignment.Common.{
  ◌==◌, true, drop, any, String, ◌≡◌, refl, inl, inr, some, List, [], ◌∷◌, ◌++◌, arith, Bool-cases,
  Option-cases, find_first,
}
use vibls_assignment.Job.{status_queued, Job}
use vibls_assignment.Store.Rows.{
  JobRow, IdempotencyKey, Platform, DbError, unavailable, unique_violation, bad_json, ok, err, Turn,
  World, first_turn, later_turns,
}
use vibls_assignment.Store.Jobs.{
  marshal_column, is_deployment_of, new_row, stored, insert_job, create_job_tx,
}
use vibls_assignment.Store.Keys.{create_idempotency_key_tx}
use vibls_assignment.Store.Insert.{insert_clash}
use vibls_assignment.Api.Create.{is_key_exists}

pub later_four :
    (turns : List Turn) → later_turns (later_turns (later_turns (later_turns turns))) ≡ drop 4 turns
later_four [] = refl
later_four (a ∷ []) = refl
later_four (a ∷ b ∷ []) = refl
later_four (a ∷ b ∷ c ∷ []) = refl
later_four (a ∷ b ∷ c ∷ d ∷ turns) = refl

pub create_job_tx-ok :
    (p : Platform) (job : Job) (w : World) (id : String)
    → (create_job_tx p job w).0 ≡ ok id
    → (row : JobRow) × ((create_job_tx p job w).1.tables.jobs ≡ w.tables.jobs ++ row ∷ [])
      × ((create_job_tx p job w).1.tables.keys ≡ w.tables.keys)
      × ((create_job_tx p job w).1.tables.events ≡ w.tables.events)
      × (row.id ≡ id)
      × (row.status ≡ job.status)
      × (row.repo_url ≡ job.repository_url)
      × (row.branch ≡ job.branch)
      × (row.target_namespace ≡ job.target_namespace)
      × ((create_job_tx p job w).1.turns ≡ later_turns w.turns)
unfolding create_job_tx insert_job
create_job_tx-ok p job w id h =
    elim (Option-cases (marshal_column p.marshal_overrides job.resource_overrides)) [
      | inl e ↦ ground (arith, e)
      | inr (o, e) ↦
          elim (Option-cases (marshal_column p.marshal_timestamps job.stage_timestamps)) [
            | inl e' ↦ ground (arith, e, e')
            | inr (ts, e') ↦ (
              new_row p job (stored p o) (stored p ts) w.tables,
              ground (arith, e, e'),
              ground (arith, e, e'),
              ground (arith, e, e'),
              ground (arith, e, e'),
              refl,
              refl,
              refl,
              refl,
              ground (arith, e, e'),
            )
          ]
    ]

pub create_idempotency_key_tx-ok :
    (p : Platform) (hash id response : String) (w : World) (u : Unit {0})
    → (create_idempotency_key_tx p hash id response w).0 ≡ ok u
    → (key : IdempotencyKey) × ((create_idempotency_key_tx p hash id response w).1.tables
        ≡ record w.tables { keys = w.tables.keys ++ key ∷ [] })
      × (key.job_id ≡ id)
      × (key.hash ≡ hash)
unfolding create_idempotency_key_tx
create_idempotency_key_tx-ok p hash id response w u h = (
  record { hash = hash; job_id = id; response = p.jsonb response; created_at = w.tables.now },
  ground arith,
  refl,
  refl,
)

-- A key that could not be inserted because of its hash, and the turn that the insert uses.
pub create_idempotency_key_tx-taken :
    (p : Platform) (hash id response : String) (w : World) (e : DbError)
    → (create_idempotency_key_tx p hash id response w).0 ≡ err e
    → is_key_exists e ≡ true
    → any (λ k. k.hash == hash) w.tables.keys ≡ true
unfolding create_idempotency_key_tx
create_idempotency_key_tx-taken p hash id response w e h race = ground arith

pub create_idempotency_key_tx-turns :
    (p : Platform) (hash id response : String) (w : World)
    → (create_idempotency_key_tx p hash id response w).1.turns ≡ later_turns w.turns
unfolding create_idempotency_key_tx
create_idempotency_key_tx-turns p hash id response w = ground arith

pub create_job_tx-clash :
    (p : Platform) (job : Job) (w : World) (other : JobRow)
    → job.status ≡ status_queued
    → find_first (is_deployment_of job.repository_url job.branch job.target_namespace) w.tables.jobs
      ≡ some other
    → (e : DbError) × ((create_job_tx p job w).0 ≡ err e)
unfolding create_job_tx insert_job
create_job_tx-clash p job w other queued found =
    elim (Option-cases (marshal_column p.marshal_overrides job.resource_overrides)) [
      | inl e ↦ (bad_json, ground (arith, e))
      | inr (o, e) ↦
          elim (Option-cases (marshal_column p.marshal_timestamps job.stage_timestamps)) [
            | inl e' ↦ (bad_json, ground (arith, e, e'))
            | inr (ts, e') ↦
                let row = new_row p job (stored p o) (stored p ts) w.tables in
                let clash = insert_clash w.tables.jobs row {r = other} (rw queued refl) found in
                elim (Bool-cases (first_turn w.turns).fails) [
                  | inl failed ↦ (unavailable, ground (arith, e, e', failed))
                  | inr works ↦ (unique_violation, ground (arith, e, e', works, clash))
                ]
          ]
    ]
