-- ===== src/Api/Read.antt =====
-- The handlers of internal/api/handlers.go that only read: handleListJobs and handleGetJob. A
-- parameter of the query that is not given is the empty text, as for url.Values.Get.
use vibls_assignment.Common.{zero, suc, String, Option, none, some, ◌==◌, if◌then◌else◌}
use vibls_assignment.Common.Text.{Bytes}
use vibls_assignment.Job.{ℤ, pos, negsuc, Job}
use vibls_assignment.Store.Rows.{
  Platform, no_rows, key_exists, unavailable, unique_violation, missing_reference, bad_uuid,
  bad_json, null_column, Result, ok, err, World,
}
use vibls_assignment.Store.Jobs.{get_job}
use vibls_assignment.Store.Listing.{ListJobsOptions, ListJobsResult, list_jobs}
use vibls_assignment.Api.Http.{listing_body, job_body, Response, http_error}
use vibls_assignment.Strconv.{parse_int}

pub record ListQuery : Type 0 where
  pub status : String
  pub namespace : String
  pub limit : Bytes
  pub offset : Bytes

abbrev given : String → Option String
given s = if s == "" then none else some s

-- A limit that is no positive number is left at 20.
abbrev limit_of : Option ℤ → ℤ
limit_of none = pos 20
limit_of (some (pos zero)) = pos 20
limit_of (some (pos (suc n))) = pos (suc n)
limit_of (some (negsuc n)) = pos 20

abbrev offset_of : Option ℤ → ℤ
offset_of none = pos 0
offset_of (some (pos n)) = pos n
offset_of (some (negsuc n)) = pos 0

unfoldable pub options_of : ListQuery → ListJobsOptions
options_of q = record {
  status = given q.status;
  namespace = given q.namespace;
  created_after = none;
  created_before = none;
  limit = limit_of (parse_int q.limit);
  offset = offset_of (parse_int q.offset);
}

abbrev pub listed : Result ListJobsResult → Response
listed (ok result) = record { code = 200; body = listing_body result }
listed (err e) = http_error 500 "failed to list jobs"

unfoldable pub handle_list_jobs : Platform → ListQuery → World → Response × World
unfolding options_of
handle_list_jobs p q w = let (r, w') = list_jobs p (options_of q) w in (listed r, w')

abbrev found : Result Job → Response
found (ok job) = record { code = 200; body = job_body job }
found (err no_rows) = http_error 404 "job not found"
found (err key_exists) = http_error 500 "failed to get job"
found (err unavailable) = http_error 500 "failed to get job"
found (err unique_violation) = http_error 500 "failed to get job"
found (err missing_reference) = http_error 500 "failed to get job"
found (err bad_uuid) = http_error 500 "failed to get job"
found (err bad_json) = http_error 500 "failed to get job"
found (err null_column) = http_error 500 "failed to get job"

unfoldable pub handle_get_job : Platform → String → World → Response × World
handle_get_job p id w =
    let (r, w') = get_job p id w in
    if id == "" then (http_error 400 "job id is required", w) else (found r, w')
