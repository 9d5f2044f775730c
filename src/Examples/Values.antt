-- ===== src/Examples/Values.antt =====
-- A small database, job and request.
use vibls_assignment.Common.{ℕ, zero, suc, String, true, false, none, some, [], ◌∷◌}
use vibls_assignment.Common.Text.{cat}
use vibls_assignment.Job.{Job}
use vibls_assignment.Store.Rows.{JobRow, Tables, Platform, calm}
use vibls_assignment.Worker.Pipeline.{verdict, Stages, Run}
use vibls_assignment.Api.Http.{CreateJobRequest}
use vibls_assignment.Api.Create.{Codec, job_of}
use vibls_assignment.Queue.Tasks.{TaskQueue}

abbrev uuid : ℕ → String
uuid zero = "id"
uuid (suc n) = cat "next-" (uuid n)

abbrev pub platform : Platform
platform = record {
  uuid = uuid;
  is_uuid = λ s. true;
  ties = λ r s. true;
  jsonb = λ s. s;
  marshal_overrides = λ o. some "{}";
  unmarshal_overrides = λ s. some (record { cpu_cores = none; memory_mb = none; replicas = none });
  marshal_timestamps = λ ts. some "[]";
  unmarshal_timestamps = λ s. some [];
}

abbrev pub codec : Codec
codec = record {
  decode = λ body. none;
  digest = λ scope. cat scope.repo (cat "@" (cat scope.branch (cat "@" scope.ns)));
  marshal_response = λ id status. cat id (cat " " status);
  marshal_payload = λ id. some id;
}

abbrev pub request : CreateJobRequest
request = record {
  repository_url = "https://git/app";
  branch = "main";
  build_context = ".";
  dockerfile_path = "Dockerfile";
  target_namespace = "sandbox";
  resource_overrides = none;
  version = "1";
}

abbrev pub job : Job
job = job_of request 5

-- The row of a queued job, and one that is done.
abbrev pub queued_row : JobRow
queued_row = record {
  id = "a";
  repo_url = "https://git/app";
  branch = "main";
  build_context = ".";
  dockerfile_path = "Dockerfile";
  target_namespace = "sandbox";
  status = "QUEUED";
  current_stage = some "";
  resource_overrides = none;
  stage_timestamps = none;
  error_message = some "";
  created_at = 3;
  updated_at = 3;
}

abbrev pub done_row : JobRow
done_row = record queued_row { id = "b"; status = "COMPLETED"; created_at = 4 }

abbrev pub two_jobs : Tables
two_jobs = record {
  jobs = queued_row ∷ done_row ∷ [];
  events = [];
  keys = record { hash = "old"; job_id = "b"; response = "b COMPLETED"; created_at = 4 } ∷ [];
  serial = 2;
  now = 9;
}

abbrev pub no_tables : Tables
no_tables = record { jobs = []; events = []; keys = []; serial = 0; now = 7 }

abbrev pub open_queue : TaskQueue
open_queue = record { tasks = []; refusals = [] }

abbrev pub closed_queue : TaskQueue
closed_queue = record { tasks = []; refusals = true ∷ [] }

-- Stages that all succeed, up to the health check: one of two pods is ready.
abbrev pub half_ready : Stages
half_ready = record {
  run = λ calls c. none;
  verify = λ calls c. verdict (record { summary = "passed"; overall_pass = true });
  health = λ calls c. record {
    ready = false;
    pods_ready = 1;
    pods_total = 2;
    service_up = true;
    details = "";
  };
}

-- The queued job, as the worker reads it.
abbrev pub queued_job : Job
queued_job = record job { id = "a" }

abbrev pub unset : String → String
unset name = ""

abbrev pub no_calls : Tables → Run
no_calls t = record { world = calm t; calls = [] }
