-- ===== src/Store/Jobs.antt =====
-- The statements on the table `jobs` for a single job: CreateJob, CreateJobTx, GetJob,
-- GetActiveDeployment and UpdateJobStatus of internal/models/db.go.
use vibls_assignment.Common.{
  refl, ◌≡◌, suc, ◌*◌, ◌/◌, String, ◌==◌, Bool, ◌&&◌, Option, none, some, List, [], ◌∷◌, ◌++◌, any,
  find_first, if◌then◌else◌,
}
use vibls_assignment.Job.{Job, JobStatus, PipelineStage, Time}
use vibls_assignment.Store.Rows.{
  JobRow, Tables, Platform, DbError, no_rows, missing_reference, bad_uuid, bad_json, null_column,
  Result, ok, err, M, statement, statement_tx, ◌>>◌, is_active, commit_jobs,
}

-- A nil field is stored as NULL; `none` is an error of json.Marshal.
abbrev pub marshal_column : {A : Type 0} → (A → Option String) → Option A → Option (Option String)
marshal_column marshal none = some none
marshal_column marshal (some a) = elim (marshal a) [ none ↦ none | some s ↦ some (some s) ]

abbrev pub unmarshal_column : {A : Type 0} → (String → Option A) → Option String → Result (Option A)
unmarshal_column unmarshal none = ok none
unmarshal_column unmarshal (some s) = elim (unmarshal s) [
  | none ↦ err bad_json
  | some a ↦ ok (some a)
]

-- A NULL cannot be scanned into a Go string.
abbrev pub scan_text : Option String → Result String
scan_text none = err null_column
scan_text (some s) = ok s

abbrev pub and_then : {A B : Type 0} → Result A → (A → Result B) → Result B
and_then (ok a) f = f a
and_then (err e) f = err e

pub and_then-eq-ok :
    {A B : Type 0} (r : Result A) (f : A → Result B) {b : B}
    → and_then r f ≡ ok b
    → (a : A) × (r ≡ ok a) × (f a ≡ ok b)
and_then-eq-ok (ok a) f h = (a, refl, h)
and_then-eq-ok (err e) f h = cc

abbrev pub of_option : {A : Type 0} → DbError → Option A → Result A
of_option e none = err e
of_option e (some a) = ok a

-- The rows that GetActiveDeployment looks for.
abbrev pub is_deployment_of : String → String → String → JobRow → Bool
is_deployment_of repo_url branch namespace r =
    r.repo_url == repo_url
    && r.branch == branch
    && r.target_namespace == namespace
    && is_active r.status

-- The SET list, with the trigger set_jobs_updated_at. The Go argument is a string, never NULL, so
-- COALESCE($3, error_message) is that string.
abbrev pub coalesce : Option String → Option String → Option String
coalesce none old = old
coalesce (some new) old = some new

abbrev pub with_status : JobStatus → PipelineStage → String → Time → JobRow → JobRow
with_status status stage message now r = record r {
  status = status;
  current_stage = some stage;
  error_message = coalesce (some message) r.error_message;
  updated_at = now;
}

abbrev pub update_where : (JobRow → Bool) → (JobRow → JobRow) → List JobRow → List JobRow
update_where test change [] = []
update_where test change (r ∷ rs) = (if test r then change r else r) ∷ update_where test change rs

-- SELECT id, status FROM jobs WHERE … LIMIT 1; the Go code fills these two fields of the job.
unfoldable pub get_active_deployment : String → String → String → M (String × JobStatus)
get_active_deployment repo_url branch namespace = statement λ t. (
  elim (find_first (is_deployment_of repo_url branch namespace) t.jobs) [
    | none ↦ err no_rows
    | some r ↦ ok (r.id, r.status)
  ],
  t,
)

-- A column of type TIMESTAMPTZ keeps the whole microseconds of a Go instant, which has nanoseconds.
abbrev pub micro : Time → Time
micro n = n / 1000 * 1000

-- A job as its row keeps it, under the id of the row.
abbrev pub as_stored : String → Job → Job
as_stored id job = record job {
  id = id;
  created_at = micro job.created_at;
  updated_at = micro job.updated_at;
}

module _ (p : Platform) where
  open p use {uuid, is_uuid, jsonb}

  abbrev pub new_row : Job → Option String → Option String → Tables → JobRow
  new_row job overrides timestamps t = record {
    id = uuid t.serial;
    repo_url = job.repository_url;
    branch = job.branch;
    build_context = job.build_context;
    dockerfile_path = job.dockerfile_path;
    target_namespace = job.target_namespace;
    status = job.status;
    current_stage = some job.current_stage;
    resource_overrides = overrides;
    stage_timestamps = timestamps;
    error_message = some job.error_message;
    created_at = micro job.created_at;
    updated_at = micro job.updated_at;
  }

  abbrev pub stored : Option String → Option String
  stored none = none
  stored (some s) = some (jsonb s)

  -- INSERT INTO jobs (…) VALUES (…) RETURNING id
  unfoldable pub insert_job : Job → Option String → Option String → Tables → Result String × Tables
  insert_job job overrides timestamps t =
      let row = new_row job (stored overrides) (stored timestamps) t in
      commit_jobs row.id (t.jobs ++ row ∷ []) (record t { serial = suc t.serial })

  -- What CreateJob and CreateJobTx share: both columns are marshalled, then the row is inserted.
  abbrev insert_marshalled : ((Tables → Result String × Tables) → M String) → Job → M String
  insert_marshalled send job w = elim (marshal_column p.marshal_overrides job.resource_overrides) [
    | none ↦ (err bad_json, w)
    | some overrides ↦ elim (marshal_column p.marshal_timestamps job.stage_timestamps) [
      | none ↦ (err bad_json, w)
      | some timestamps ↦ send (insert_job job overrides timestamps) w
    ]
  ]

  unfoldable pub create_job : Job → M String
  create_job job = insert_marshalled statement job

  unfoldable pub create_job_tx : Job → M String
  create_job_tx job = insert_marshalled statement_tx job

  -- Scanning a row into a `Job`: first the columns, then the two JSON values.
  unfoldable pub scan_job : JobRow → Result Job
  scan_job r = and_then (scan_text r.current_stage) λ current_stage.
      and_then (scan_text r.error_message) λ error_message.
        and_then (unmarshal_column p.unmarshal_overrides r.resource_overrides) λ overrides.
          and_then (unmarshal_column p.unmarshal_timestamps r.stage_timestamps) λ timestamps.
            ok (record {
              id = r.id;
              repository_url = r.repo_url;
              branch = r.branch;
              build_context = r.build_context;
              dockerfile_path = r.dockerfile_path;
              target_namespace = r.target_namespace;
              status = r.status;
              current_stage = current_stage;
              resource_overrides = overrides;
              stage_timestamps = timestamps;
              error_message = error_message;
              created_at = r.created_at;
              updated_at = r.updated_at;
            })

  -- SELECT … FROM jobs WHERE id = $1
  unfoldable pub select_job : String → Tables → Result JobRow × Tables
  select_job id t = (
    if is_uuid id then of_option no_rows (find_first (λ r. r.id == id) t.jobs) else err bad_uuid,
    t,
  )

  unfoldable pub get_job : String → M Job
  unfolding scan_job
  get_job id w = let (r, w') = statement (select_job id) w in (and_then r scan_job, w')

  -- UPDATE jobs SET … WHERE id = $4; no row affected is pgx.ErrNoRows.
  unfoldable pub set_status :
      String → JobStatus → PipelineStage → String → Tables → Result (Unit {0}) × Tables
  set_status id status stage message t =
      if is_uuid id
      then (if any (λ r. r.id == id) t.jobs
          then commit_jobs tt
              (update_where (λ r. r.id == id) (with_status status stage message t.now) t.jobs) t
          else (err no_rows, t))
      else (err bad_uuid, t)

  -- INSERT INTO job_events; the job must exist (REFERENCES jobs(id)).
  unfoldable pub insert_event :
      String
      → Option PipelineStage
      → Option PipelineStage
      → JobStatus
      → String
      → Option String
      → Tables
      → Result (Unit {0}) × Tables
  insert_event job_id from_stage to_stage status message metadata t =
      if any (λ r. r.id == job_id) t.jobs
      then (
        ok tt,
        record t {
          events =
              t.events
              ++ record {
                id = uuid t.serial;
                job_id = job_id;
                from_stage = from_stage;
                to_stage = to_stage;
                status = status;
                message = some message;
                metadata = metadata;
                created_at = t.now;
              }
                ∷ [];
          serial = suc t.serial;
        },
      )
      else (err missing_reference, t)

  -- The audit event is best effort: its error is dropped.
  unfoldable pub update_job_status : String → JobStatus → PipelineStage → String → M (Unit {0})
  unfolding set_status insert_event
  update_job_status id status stage message = do
    statement (set_status id status stage message)
    λ w. (ok tt, (statement (insert_event id none (some stage) status message none) w).1)
