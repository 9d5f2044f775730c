-- ===== src/System/Serving.antt =====
-- Every route of internal/api among statements of others.
use vibls_assignment.Common.Text.{Bytes}
use vibls_assignment.Common.{
  String, ◌≡◌, inl, inr, Option, none, some, arith, ◌==◌, if◌then◌else◌, Bool-cases, take,
}
use vibls_assignment.Job.{JobStatus, Time}
use vibls_assignment.Store.Rows.{
  IdempotencyKey, Platform, DbError, Result, ok, err, World, Result-cases,
}
use vibls_assignment.Store.Jobs.{get_active_deployment}
use vibls_assignment.Store.Invariant.{empty}
use vibls_assignment.Store.Keys.{get_idempotency_key}
use vibls_assignment.Api.Http.{CreateJobRequest, Response, http_error, Server}
use vibls_assignment.Api.Create.{
  Codec, idempotency_hash, job_of, create_in_tx, create_checked, handle_create_job,
}
use vibls_assignment.Api.Read.{ListQuery, options_of, handle_list_jobs, handle_get_job}
use vibls_assignment.Api.Serve.{
  Route, healthz, metrics_page, post_jobs, get_jobs, get_job_by_id, outside, Incoming, Service,
  read_only, guarded, mount_routes, serve,
}
use vibls_assignment.Api.Auth.{AuthzInput, Evaluation, Passage, rejected, passed, auth_middleware}
use vibls_assignment.System.Moves.{Tame, Keeps, Moves-refl, Moves-trans}
use vibls_assignment.System.Repository.{
  get_job-Keeps, list_jobs-Keeps, get_idempotency_key-Keeps, get_active_deployment-Keeps,
}
use vibls_assignment.System.Transaction.{Served}
use vibls_assignment.System.Requests.{Served-still, Served-later, create_in_tx-Served}

module _ (p : Platform) (c : Codec) where
  -- The three ways of create_checked.
  module _ (req : CreateJobRequest) (now : Time) (s : Server) where
    abbrev pub asked : Result IdempotencyKey × World
    asked = get_idempotency_key (idempotency_hash c req) s.world

    abbrev pub active : Result (String × JobStatus) × World
    active = get_active_deployment req.repository_url req.branch req.target_namespace asked.1

    pub create_checked-cached_key :
        (key : IdempotencyKey)
        → asked.0 ≡ ok key
        → (create_checked p c req now s).1 ≡ record s { world = asked.1 }
    unfolding create_checked
    create_checked-cached_key key found = ground (arith, found)

    pub create_checked-conflict :
        (e : DbError) (other : String × JobStatus)
        → asked.0 ≡ err e
        → active.0 ≡ ok other
        → (create_checked p c req now s).1 ≡ record s { world = active.1 }
    unfolding create_checked
    create_checked-conflict e other missing found = ground (arith, missing, found)

    pub create_checked-goes_on :
        (e e' : DbError)
        → asked.0 ≡ err e
        → active.0 ≡ err e'
        → create_checked p c req now s
          ≡ create_in_tx p c
              (idempotency_hash c req)
              (job_of req now)
              (record s { world = active.1 })
    unfolding create_checked
    create_checked-goes_on e e' missing free = ground (arith, missing, free)

  create_checked-Served :
      (req : CreateJobRequest) (now : Time) (s : Server)
      → Tame p s.world.turns
      → Served p c s (create_checked p c req now s).1
  create_checked-Served req now s h =
      let m = get_idempotency_key-Keeps p (idempotency_hash c req) s.world h in
      elim (Result-cases (asked req now s).0) [
        | inl (key, found) ↦ rw (create_checked-cached_key req now s key found) (Served-still p c m)
        | inr (e, missing) ↦
            let m' =
              get_active_deployment-Keeps p req.repository_url req.branch req.target_namespace
                (asked req now s).1 m.tame in
            let both = Moves-trans p m m' in
            elim (Result-cases (active req now s).0) [
              | inl (other, found) ↦
                  rw (create_checked-conflict req now s e other missing found)
                    (Served-still p c both)
              | inr (e', free) ↦ rw (create_checked-goes_on req now s e e' missing free) (
                  Served-later p c both (
                    create_in_tx-Served p c (idempotency_hash c req) (job_of req now)
                      (record s { world = (active req now s).1 }) both.tame))
            ]
      ]

  -- The ways of handle_create_job, for any property of the server that it leaves.
  pub handle_create_job_cases {κ} :
      (P : Server → Type κ) (body : Bytes) (now : Time) (s : Server)
      → P s
      → ((req : CreateJobRequest) → P (create_checked p c req now s).1)
      → P (handle_create_job p c body now s).1
  unfolding handle_create_job
  handle_create_job_cases P body now s still goes_on =
      elim (c.decode (take 1_048_576 body))
        as (λ r.
          P
            (elim r as (λ r. Response × Server) [
              | none ↦ (http_error 400 "invalid request body", s)
              | some req ↦
                  if req.repository_url == ""
                  then (http_error 400 "repository_url is required", s)
                  else (if req.target_namespace == ""
                      then (http_error 400 "target_namespace is required", s)
                      else create_checked p c req now s)
            ]).1) [
              | none ↦ still
              | some req ↦ elim (Bool-cases (req.repository_url == "")) [
                | inl empty ↦ rw empty still
                | inr given ↦ elim (Bool-cases (req.target_namespace == "")) [
                  | inl empty ↦ rw (given, empty) still
                  | inr named ↦ rw (given, named) (goes_on req)
                ]
              ]
            ]

  handle_create_job-Served :
      (body : Bytes) (now : Time) (s : Server)
      → Tame p s.world.turns
      → Served p c s (handle_create_job p c body now s).1
  handle_create_job-Served body now s h =
      handle_create_job_cases (Served p c s) body now s (Served-still p c (Moves-refl p s.world h))
        (λ req. create_checked-Served req now s h)

  handle_list_jobs-Keeps : (q : ListQuery) → Keeps p (handle_list_jobs p q)
  unfolding handle_list_jobs
  handle_list_jobs-Keeps q w h = list_jobs-Keeps p (options_of q) w h

  handle_get_job-Keeps : (id : String) → Keeps p (handle_get_job p id)
  unfolding handle_get_job
  handle_get_job-Keeps id w h = elim (Bool-cases (id == "")) [
    | inl empty ↦ rw (empty, handle_get_job) (Moves-refl p w h)
    | inr given ↦ rw (given, handle_get_job) (get_job-Keeps p id w h)
  ]

  guarded-Served :
      (a : Passage) (handle : Server → Response × Server) (s : Server)
      → Tame p s.world.turns
      → Served p c s (handle s).1
      → Served p c s (guarded a handle s).1
  guarded-Served (rejected code message) handle s h served =
      Served-still p c (Moves-refl p s.world h)
  guarded-Served passed handle s h served = served

  module _ (engine : Option (AuthzInput → Evaluation)) (now : Time) (metrics_text : String) where
    mount_routes-Served :
        (route : Route) (i : Incoming) (s : Server)
        → Tame p s.world.turns
        → Served p c s (mount_routes p c engine now metrics_text route i s).1
    unfolding mount_routes
    mount_routes-Served healthz i s h = Served-still p c (Moves-refl p s.world h)
    mount_routes-Served metrics_page i s h = Served-still p c (Moves-refl p s.world h)
    mount_routes-Served post_jobs i s h =
        guarded-Served (auth_middleware engine i.http) (handle_create_job p c i.http.body now) s h
          (handle_create_job-Served i.http.body now s h)
    mount_routes-Served get_jobs i s h =
        guarded-Served (auth_middleware engine i.http) (read_only (handle_list_jobs p i.query)) s h
          (Served-still p c (handle_list_jobs-Keeps i.query s.world h))
    mount_routes-Served get_job_by_id i s h =
        guarded-Served (auth_middleware engine i.http) (read_only (handle_get_job p i.id)) s h
          (Served-still p c (handle_get_job-Keeps i.id s.world h))
    mount_routes-Served (outside response) i s h = Served-still p c (Moves-refl p s.world h)

    -- Whatever a request asks for, whoever sends it and whatever fails or is done by others
    -- between the statements, provided others make statements of the repository only: the tables
    -- move by statements of the repository, and the queue takes no task, or exactly one deploy
    -- task, whose job's identifier is new and is in the tables.
    pub serve-Served :
        (route : Route) (i : Incoming) (s : Service)
        → Tame p s.server.world.turns
        → Served p c s.server (serve p c engine now metrics_text route i s).1.server
    unfolding serve
    serve-Served route i s h = mount_routes-Served route i s.server h
