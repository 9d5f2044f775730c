-- ===== src/System/Requests.antt =====
-- The requests of internal/api among statements of others: what they do to the tables, and to the
-- queue.
use vibls_assignment.Common.{
  String, ◌≡◌, refl, inl, inr, true, false, none, some, [], ◌∷◌, ◌++◌, arith, Bool-cases,
  Option-cases,
}
use vibls_assignment.Job.{status_queued, Job}
use vibls_assignment.Store.Rows.{
  Tables, Platform, DbError, ok, err, World, first_turn, later_turns, after, Result-cases,
}
use vibls_assignment.Store.Jobs.{create_job_tx}
use vibls_assignment.Store.Invariant.{has_job, Reach}
use vibls_assignment.Queue.Tasks.{next_refusal, later_refusals, deploy_task, enqueue_deploy_job}
use vibls_assignment.Api.Http.{Server}
use vibls_assignment.Api.Create.{
  Codec, rollback, is_key_exists, enqueue_created, recover_conflict, create_in_tx,
}
use vibls_assignment.Api.Transaction.{w₁, w₂, keyed, after_key_error, after_commit}
use vibls_assignment.System.Moves.{
  Tame, Moves, Moves-refl, Moves-trans, after-Moves, later_turns-Tame, Reach-trans, Reach-has_job,
}
use vibls_assignment.System.Repository.{get_idempotency_key-Keeps}
use vibls_assignment.System.Transaction.{
  Enqueued, no_task, one_task, Served, create_job_tx-Keeps, create_job_tx-new,
  create_idempotency_key_tx-Keeps,
}

module _ (p : Platform) (c : Codec) where
  -- A handler that only moves the tables, and one whose work starts after such a move.
  pub Served-still :
      {s : Server} {w : World} → Moves p s.world w → Served p c s (record s { world = w })
  Served-still m = record { moves = m; enqueued = no_task refl }

  pub Served-later :
      {s s' : Server} {w : World}
      → Moves p s.world w
      → Served p c (record s { world = w }) s'
      → Served p c s s'
  Served-later m e = record { moves = Moves-trans p m e.moves; enqueued = later m e.enqueued }
    where
      later :
          {s s' : Server} {w : World}
          → Moves p s.world w
          → Enqueued p c (record s { world = w }) s'
          → Enqueued p c s s'
      later m (no_task same) = no_task same
      later m (one_task id payload base same marshalled reached missing present) =
          one_task id payload base same marshalled (Reach-trans m.reach reached) missing present

  recover_conflict-Served :
      (hash : String) (e : DbError) (s : Server)
      → Tame p s.world.turns
      → Served p c s (recover_conflict p c hash e s).1
  unfolding recover_conflict
  recover_conflict-Served hash e s h = elim (Bool-cases (is_key_exists e)) [
    | inl race ↦ rw race (Served-still (get_idempotency_key-Keeps p hash s.world h))
    | inr other ↦ rw other (Served-still (Moves-refl p s.world h))
  ]

  not_marshalled :
      (id : String) (s : Server) → c.marshal_payload id ≡ none → (enqueue_created p c id s).1 ≡ s
  unfolding enqueue_created
  not_marshalled id s e = ground (arith, e)

  not_taken :
      (id : String) (s : Server) (payload : String)
      → c.marshal_payload id ≡ some payload
      → next_refusal s.queue.refusals ≡ true
      → (enqueue_created p c id s).1
        ≡ record s { queue = record s.queue { refusals = later_refusals s.queue.refusals } }
  unfolding enqueue_created enqueue_deploy_job
  not_taken id s payload e refused = ground (arith, e, refused)

  enqueued_eq :
      (id : String) (s : Server) (payload : String)
      → c.marshal_payload id ≡ some payload
      → next_refusal s.queue.refusals ≡ false
      → (enqueue_created p c id s).1 ≡ record s {
        queue = record {
          tasks = s.queue.tasks ++ deploy_task id payload ∷ [];
          refusals = later_refusals s.queue.refusals;
        };
      }
  unfolding enqueue_created enqueue_deploy_job
  enqueued_eq id s payload e accepted = ground (arith, e, accepted)

  -- Behind the commit: `base` are the tables in which the job was inserted.
  enqueue_created-Served :
      (id : String) (s : Server) (w₀ : World) (base : Tables)
      → Tame p s.world.turns
      → Reach p w₀.tables base
      → Reach p base s.world.tables
      → has_job base.jobs id ≡ false
      → has_job s.world.tables.jobs id ≡ true
      → Served p c (record s { world = w₀ }) (enqueue_created p c id s).1
  unfolding enqueue_created enqueue_deploy_job
  enqueue_created-Served id s w₀ base h r r' missing present =
      let m : Moves p w₀ s.world = record { reach = Reach-trans r r'; tame = h } in
      elim (Option-cases (c.marshal_payload id)) [
        | inl e ↦ rw (not_marshalled id s e) (record { moves = m; enqueued = no_task refl })
        | inr (payload, e) ↦ elim (Bool-cases (next_refusal s.queue.refusals)) [
          | inl refused ↦
              rw (not_taken id s payload e refused) (record { moves = m; enqueued = no_task refl })
          | inr accepted ↦
              let taken = enqueued_eq id s payload e accepted in
              rw taken
                (record { moves = m; enqueued = one_task id payload base refl e r missing present })
        ]
      ]

  -- The returns of the transaction before its commit.
  module _ (hash : String) (job : Job) (s : Server) where
    pub begin_fails :
        (first_turn s.world.turns).fails ≡ true
        → (create_in_tx p c hash job s).1 ≡ record s { world = after s.world }
    unfolding create_in_tx
    begin_fails failed = ground (arith, failed)

    pub insert_fails :
        (e : DbError)
        → (first_turn s.world.turns).fails ≡ false
        → (create_job_tx p job (w₁ p c hash job s)).0 ≡ err e
        → (create_in_tx p c hash job s).1
          ≡ record s { world = rollback (after s.world).tables (w₂ p c hash job s) }
    unfolding create_in_tx
    insert_fails e works failed = ground (arith, works, failed)

    pub commit_fails :
        (id : String) (u : Unit {0})
        → (first_turn s.world.turns).fails ≡ false
        → (create_job_tx p job (after s.world)).0 ≡ ok id
        → (keyed p c hash job s id).0 ≡ ok u
        → (first_turn (keyed p c hash job s id).1.turns).fails ≡ true
        → (create_in_tx p c hash job s).1 ≡ record s {
          world = record {
            tables = (after s.world).tables;
            turns = later_turns (keyed p c hash job s id).1.turns;
          };
        }
    unfolding create_in_tx
    commit_fails id u works created fine lost = ground (arith, works, created, fine, lost)

  pub create_in_tx-Served :
      (hash : String) (job : Job) (s : Server)
      → Tame p s.world.turns
      → Served p c s (create_in_tx p c hash job s).1
  create_in_tx-Served hash job s h =
      let m = after-Moves p s.world h in
      let m₂ = create_job_tx-Keeps p job (after s.world) m.tame in
      elim (Bool-cases (first_turn s.world.turns).fails) [
        | inl failed ↦ rw (begin_fails hash job s failed) (Served-still m)
        | inr works ↦ elim (Result-cases (create_job_tx p job (after s.world)).0) [
          | inr (e, failed) ↦ rw (insert_fails hash job s e works failed) (
              Served-still (record {
                reach = m.reach;
                tame = later_turns-Tame p (w₂ p c hash job s).turns m₂.tame;
              }))
          | inl (id, created) ↦
              let m₃ =
                create_idempotency_key_tx-Keeps p hash id (c.marshal_response id status_queued)
                  (w₂ p c hash job s) m₂.tame in
              let w₃ = (keyed p c hash job s id).1 in
              elim (Result-cases (keyed p c hash job s id).0) [
                | inr (e, failed) ↦ rw (after_key_error p c hash job s id works created e failed) (
                    Served-later
                      (record { reach = m.reach; tame = later_turns-Tame p w₃.turns m₃.tame })
                      (recover_conflict-Served hash e
                        (record s { world = rollback (after s.world).tables w₃ })
                        (later_turns-Tame p w₃.turns m₃.tame)))
                | inl (u, fine) ↦ elim (Bool-cases (first_turn w₃.turns).fails) [
                  | inl lost ↦ rw (commit_fails hash job s id u works created fine lost) (
                      Served-still
                        (record { reach = m.reach; tame = later_turns-Tame p w₃.turns m₃.tame }))
                  | inr commits ↦
                      let (missing, present) = create_job_tx-new p job (after s.world) id created in
                      rw (after_commit p c hash job s id works created u fine commits) (
                        enqueue_created-Served id
                          (record s {
                            world = record { tables = w₃.tables; turns = later_turns w₃.turns };
                          })
                          s.world (after s.world).tables (later_turns-Tame p w₃.turns m₃.tame)
                          m.reach (Reach-trans m₂.reach m₃.reach) missing
                          (Reach-has_job id m₃.reach present))
                ]
              ]
        ]
      ]
