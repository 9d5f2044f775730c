-- ===== src/System/Bounds.antt =====
-- How many statements a request and a delivery make at most, whatever fails.
use vibls_assignment.Common.Text.{Bytes}
use vibls_assignment.Common.{ℕ, String, inl, inr, Option, arith, ◌==◌, Bool-cases}
use vibls_assignment.Job.{status_queued, Time, Job}
use vibls_assignment.Store.Rows.{Platform, DbError, first_turn, after, Result-cases}
use vibls_assignment.Store.Jobs.{create_job_tx}
use vibls_assignment.Api.Http.{CreateJobRequest, Response, Server}
use vibls_assignment.Api.Create.{
  Codec, idempotency_hash, job_of, rollback, is_key_exists, recover_conflict, create_in_tx,
  create_checked, handle_create_job,
}
use vibls_assignment.Api.Read.{ListQuery, options_of, handle_list_jobs, handle_get_job}
use vibls_assignment.Api.Serve.{
  Route, healthz, metrics_page, post_jobs, get_jobs, get_job_by_id, outside, Incoming, Service,
  read_only, guarded, mount_routes, serve,
}
use vibls_assignment.Api.Auth.{AuthzInput, Evaluation, Passage, rejected, passed, auth_middleware}
use vibls_assignment.Api.Transaction.{
  w₂, keyed, after_key_error, after_commit, enqueue_created-tables,
}
use vibls_assignment.System.Requests.{begin_fails, insert_fails, commit_fails}
use vibls_assignment.System.Serving.{
  handle_create_job_cases, asked, active, create_checked-cached_key, create_checked-conflict,
  create_checked-goes_on,
}
use vibls_assignment.System.Spending.{
  Spent, Spends, Spent-none, Spent-one, Spent-trans, Spent-at_most, get_job-Spends,
  get_idempotency_key-Spends, get_active_deployment-Spends, list_jobs-Spends, create_job_tx-Spends,
  create_idempotency_key_tx-Spends,
}

module _ (p : Platform) (c : Codec) where
  recover_conflict-Spends :
      (hash : String) (e : DbError) (s : Server)
      → Spent 1 s.world.turns (recover_conflict p c hash e s).1.world.turns
  unfolding recover_conflict
  recover_conflict-Spends hash e s = elim (Bool-cases (is_key_exists e)) [
    | inl race ↦ rw race (get_idempotency_key-Spends p hash s.world)
    | inr other ↦ rw other (Spent-none 1 s.world.turns)
  ]

  create_in_tx-Spends :
      (hash : String) (job : Job) (s : Server)
      → Spent 5 s.world.turns (create_in_tx p c hash job s).1.world.turns
  create_in_tx-Spends hash job s =
      let begun = Spent-one 0 s.world.turns in
      let inserted = Spent-trans begun (create_job_tx-Spends p job (after s.world)) in
      elim (Bool-cases (first_turn s.world.turns).fails) [
        | inl failed ↦ rw (begin_fails p c hash job s failed) (Spent-at_most (omega arith) begun)
        | inr works ↦ elim (Result-cases (create_job_tx p job (after s.world)).0) [
          | inr (e, failed) ↦ rw (insert_fails p c hash job s e works failed) (
              Spent-at_most (omega arith)
                (Spent-trans inserted (Spent-one 0 (w₂ p c hash job s).turns)))
          | inl (id, created) ↦
              let w₃ = (keyed p c hash job s id).1 in
              let three = Spent-trans inserted (
                create_idempotency_key_tx-Spends p hash id (c.marshal_response id status_queued)
                  (w₂ p c hash job s)) in
              let four = Spent-trans three (Spent-one 0 w₃.turns) in
              elim (Result-cases (keyed p c hash job s id).0) [
                | inr (e, failed) ↦ rw (after_key_error p c hash job s id works created e failed) (
                    Spent-trans four (
                      recover_conflict-Spends hash e
                        (record s { world = rollback (after s.world).tables w₃ })))
                | inl (u, fine) ↦ elim (Bool-cases (first_turn w₃.turns).fails) [
                  | inl lost ↦
                      rw (commit_fails p c hash job s id u works created fine lost)
                        (Spent-at_most (omega arith) four)
                  | inr commits ↦
                      rw
                        (
                          after_commit p c hash job s id works created u fine commits,
                          enqueue_created-tables p c id,
                        )
                        (Spent-at_most (omega arith) four)
                ]
              ]
        ]
      ]

  create_checked-Spends :
      (req : CreateJobRequest) (now : Time) (s : Server)
      → Spent 7 s.world.turns (create_checked p c req now s).1.world.turns
  create_checked-Spends req now s =
      let one = get_idempotency_key-Spends p (idempotency_hash c req) s.world in
      let two = Spent-trans one (
        get_active_deployment-Spends p req.repository_url req.branch req.target_namespace
          (asked p c req now s).1) in
      elim (Result-cases (asked p c req now s).0) [
        | inl (key, found) ↦
            rw (create_checked-cached_key p c req now s key found) (Spent-at_most (omega arith) one)
        | inr (e, missing) ↦ elim (Result-cases (active p c req now s).0) [
          | inl (other, found) ↦
              rw (create_checked-conflict p c req now s e other missing found)
                (Spent-at_most (omega arith) two)
          | inr (e', free) ↦ rw (create_checked-goes_on p c req now s e e' missing free) (
              Spent-trans two (
                create_in_tx-Spends (idempotency_hash c req) (job_of req now)
                  (record s { world = (active p c req now s).1 })))
        ]
      ]

  handle_create_job-Spends :
      (body : Bytes) (now : Time) (s : Server)
      → Spent 7 s.world.turns (handle_create_job p c body now s).1.world.turns
  handle_create_job-Spends body now s =
      handle_create_job_cases p c (λ (r : Server). Spent 7 s.world.turns r.world.turns) body now s
        (Spent-none 7 s.world.turns) (λ req. create_checked-Spends req now s)

  handle_list_jobs-Spends : (q : ListQuery) → Spends 2 (handle_list_jobs p q)
  unfolding handle_list_jobs
  handle_list_jobs-Spends q w = list_jobs-Spends p (options_of q) w

  handle_get_job-Spends : (id : String) → Spends 7 (handle_get_job p id)
  unfolding handle_get_job
  handle_get_job-Spends id w = elim (Bool-cases (id == "")) [
    | inl empty ↦ rw (empty, handle_get_job) (Spent-none 7 w.turns)
    | inr given ↦ rw (given, handle_get_job) (Spent-at_most (omega arith) (get_job-Spends p id w))
  ]

  guarded-Spends :
      (n : ℕ) (a : Passage) (handle : Server → Response × Server) (s : Server)
      → Spent n s.world.turns (handle s).1.world.turns
      → Spent n s.world.turns (guarded a handle s).1.world.turns
  guarded-Spends n (rejected code message) handle s h = Spent-none n s.world.turns
  guarded-Spends n passed handle s h = h

  module _ (engine : Option (AuthzInput → Evaluation)) (now : Time) (metrics_text : String) where
    mount_routes-Spends :
        (route : Route) (i : Incoming) (s : Server)
        → Spent 7 s.world.turns (mount_routes p c engine now metrics_text route i s).1.world.turns
    unfolding mount_routes
    mount_routes-Spends healthz i s = Spent-none 7 s.world.turns
    mount_routes-Spends metrics_page i s = Spent-none 7 s.world.turns
    mount_routes-Spends post_jobs i s =
        guarded-Spends 7 (auth_middleware engine i.http) (handle_create_job p c i.http.body now) s
          (handle_create_job-Spends i.http.body now s)
    mount_routes-Spends get_jobs i s =
        guarded-Spends 7 (auth_middleware engine i.http) (read_only (handle_list_jobs p i.query)) s
          (Spent-at_most (omega arith) (handle_list_jobs-Spends i.query s.world))
    mount_routes-Spends get_job_by_id i s =
        guarded-Spends 7 (auth_middleware engine i.http) (read_only (handle_get_job p i.id)) s
          (handle_get_job-Spends i.id s.world)
    mount_routes-Spends (outside response) i s = Spent-none 7 s.world.turns

    pub serve-Spends :
        (route : Route) (i : Incoming) (s : Service)
        → Spent 7 s.server.world.turns
            (serve p c engine now metrics_text route i s).1.server.world.turns
    unfolding serve
    serve-Spends route i s = mount_routes-Spends route i s.server
