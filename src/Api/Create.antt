-- ===== src/Api/Create.antt =====
-- handleCreateJob and idempotencyHash of internal/api/handlers.go.
use vibls_assignment.Common.{
  String, Bool, true, false, Option, none, some, ◌==◌, if◌then◌else◌, take,
}
use vibls_assignment.Common.Text.{Bytes}
use vibls_assignment.Job.{JobStatus, status_queued, ResourceOverrides, Time, Job}
use vibls_assignment.Store.Rows.{
  Tables, Platform, DbError, key_exists, ok, err, World, M, statement, statement_tx, later_turns,
}
use vibls_assignment.Store.Jobs.{get_active_deployment, create_job_tx}
use vibls_assignment.Store.Keys.{get_idempotency_key, create_idempotency_key_tx}
use vibls_assignment.Queue.Tasks.{enqueue_deploy_job}
use vibls_assignment.Api.Http.{
  CreateJobRequest, raw_body, created_body, conflict_body, Response, http_error, Server,
}

-- The fields that are hashed.
pub record Scope : Type 0 where
  pub repo : String
  pub branch : String
  pub ns : String
  pub ctx : String
  pub df_path : String
  pub over : Option ResourceOverrides
  pub ver : String

-- What the handler takes from encoding/json and crypto/sha256.
pub record Codec : Type 0 where
  pub decode : Bytes → Option CreateJobRequest  -- unknown fields are refused
  pub digest : Scope → String  -- the SHA-256 of the scope's JSON, in hexadecimal
  pub marshal_response : String → JobStatus → String
  pub marshal_payload : String → Option String

unfoldable pub scope_of : CreateJobRequest → Scope
scope_of req = record {
  repo = req.repository_url;
  branch = req.branch;
  ns = req.target_namespace;
  ctx = req.build_context;
  df_path = req.dockerfile_path;
  over = req.resource_overrides;
  ver = req.version;
}

unfoldable pub idempotency_hash : Codec → CreateJobRequest → String
unfolding scope_of
idempotency_hash c req = c.digest (scope_of req)

-- The job that a request makes; the fields that are not set have Go's zero values.
abbrev pub job_of : CreateJobRequest → Time → Job
job_of req now = record {
  id = "";
  repository_url = req.repository_url;
  branch = req.branch;
  build_context = req.build_context;
  dockerfile_path = req.dockerfile_path;
  target_namespace = req.target_namespace;
  status = status_queued;
  current_stage = "";
  resource_overrides = req.resource_overrides;
  stage_timestamps = none;
  error_message = "";
  created_at = now;
  updated_at = now;
}

-- BeginTx gives the tables to which a rollback returns.
abbrev pub begin_tx : M Tables
begin_tx = statement λ t. (ok t, t)

-- ROLLBACK is a statement too; if it fails, the connection is closed, which ends the transaction all
-- the same, and the handler does not look at its error.
abbrev pub rollback : Tables → World → World
rollback base w = record { tables = base; turns = later_turns w.turns }

-- A commit that fails leaves nothing of the transaction, and no ROLLBACK is sent after it.
abbrev pub commit : Tables → M (Unit {0})
commit base w =
    let (r, w') = statement_tx (λ t. (ok tt, t)) w in
    elim r [ ok u ↦ (ok tt, w') | err e ↦ (err e, record w' { tables = base }) ]

abbrev pub is_key_exists : DbError → Bool
is_key_exists key_exists = true
is_key_exists _ = false

module _ (p : Platform) (c : Codec) where
  -- Part 4 and 5 of the handler: the job is committed.
  unfoldable pub enqueue_created : String → Server → Response × Server
  enqueue_created id s = elim (c.marshal_payload id) [
    | none ↦ (http_error 500 "failed to enqueue job", s)
    | some payload ↦
        let (accepted, q) = enqueue_deploy_job id payload s.queue in
        if accepted
        then (record { code = 201; body = created_body id status_queued }, record s { queue = q })
        else (http_error 500 "failed to enqueue job", record s { queue = q })
  ]

  -- The answer when the key could not be inserted; the transaction is already rolled back.
  unfoldable pub recover_conflict : String → DbError → Server → Response × Server
  recover_conflict hash e s =
      if is_key_exists e
      then (let (found, w) = get_idempotency_key hash s.world in
          (
            elim found [
              | ok key ↦ record { code = 201; body = raw_body key.response }
              | err _ ↦ http_error 409 "conflict"
            ],
            record s { world = w },
          ))
      else (http_error 500 "database error", s)

  -- Part 3: the job and its key in one transaction. A return before the commit rolls back.
  unfoldable pub create_in_tx : String → Job → Server → Response × Server
  create_in_tx hash job s =
      let (begun, w₁) = begin_tx s.world in
      elim begun [
        | err _ ↦ (http_error 500 "database error", record s { world = w₁ })
        | ok base ↦
            let (created, w₂) = create_job_tx p job w₁ in
            elim created [
              | err _ ↦
                  (http_error 500 "failed to create job", record s { world = rollback base w₂ })
              | ok id ↦
                  let (keyed, w₃) =
                    create_idempotency_key_tx p hash id (c.marshal_response id status_queued) w₂ in
                  elim keyed [
                    | err e ↦ recover_conflict hash e (record s { world = rollback base w₃ })
                    | ok _ ↦
                        let (committed, w₄) = commit base w₃ in
                        elim committed [
                          | err _ ↦ (http_error 500 "database error", record s { world = w₄ })
                          | ok _ ↦ enqueue_created id (record s { world = w₄ })
                        ]
                  ]
            ]
      ]

  -- Parts 1 and 2: the cached response, and the guard against a second active deployment. Any error
  -- of either query counts as "none".
  unfoldable pub create_checked : CreateJobRequest → Time → Server → Response × Server
  create_checked req now s =
      let hash = idempotency_hash c req in
      let (cached, w₁) = get_idempotency_key hash s.world in
      elim cached [
        | ok key ↦ (record { code = 201; body = raw_body key.response }, record s { world = w₁ })
        | err _ ↦
            let (active, w₂) =
              get_active_deployment req.repository_url req.branch req.target_namespace w₁ in
            elim active [
              | ok (id, status) ↦ (
                record {
                  code = 409;
                  body = conflict_body "active deployment already exists for this target" id status;
                },
                record s { world = w₂ },
              )
              | err _ ↦ create_in_tx hash (job_of req now) (record s { world = w₂ })
            ]
      ]

  -- The whole handler: at most 1 MiB of the body is read.
  unfoldable pub handle_create_job : Bytes → Time → Server → Response × Server
  handle_create_job body now s = elim (c.decode (take 1_048_576 body)) [
    | none ↦ (http_error 400 "invalid request body", s)
    | some req ↦
        if req.repository_url == ""
        then (http_error 400 "repository_url is required", s)
        else (if req.target_namespace == ""
            then (http_error 400 "target_namespace is required", s)
            else create_checked req now s)
  ]
