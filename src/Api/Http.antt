-- ===== src/Api/Http.antt =====
-- Requests and responses, as far as internal/api reads and writes them.
use vibls_assignment.Common.{ℕ, String, Option}
use vibls_assignment.Job.{JobStatus, ResourceOverrides, Job}
use vibls_assignment.Store.Rows.{World}
use vibls_assignment.Store.Listing.{ListJobsResult}
use vibls_assignment.Queue.Tasks.{TaskQueue}

pub record CreateJobRequest : Type 0 where
  pub repository_url : String
  pub branch : String
  pub build_context : String
  pub dockerfile_path : String
  pub target_namespace : String
  pub resource_overrides : Option ResourceOverrides
  pub version : String

pub data Body : Type 0 where
  error_body : String → Body
  raw_body : String → Body
  created_body : (id : String) (status : JobStatus) → Body
  conflict_body : (error existing_job_id : String) (existing_status : JobStatus) → Body
  listing_body : ListJobsResult → Body
  job_body : Job → Body

pub record Response : Type 0 where
  pub code : ℕ
  pub body : Body

-- http.Error with a JSON text.
abbrev pub http_error : ℕ → String → Response
http_error code message = record { code = code; body = error_body message }

-- What a handler acts on.
pub record Server : Type 0 where
  pub world : World
  pub queue : TaskQueue
