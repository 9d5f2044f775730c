-- ===== src/Examples/Queries.antt =====
-- Reading the database of two jobs, and deleting its old key.
use vibls_assignment.Common.{◌≤◌, ◌≡◌, refl, true, none, some, [], ◌∷◌, length, All}
use vibls_assignment.Job.{pos}
use vibls_assignment.Store.Rows.{ok, World, jobs_unique, calm}
use vibls_assignment.Store.Jobs.{as_stored, and_then, insert_job, create_job, scan_job, get_job}
use vibls_assignment.Store.Listing.{
  ListJobsOptions, ListJobsResult, build_query, all_hold, selected, insert_desc, order_desc,
  scan_jobs, count_jobs, fetch_jobs, list_jobs,
}
use vibls_assignment.Store.Paging.{page, list_jobs-calm}
use vibls_assignment.Store.Pages.{matches_job, IsNewestFirst, list_jobs_sound}
use vibls_assignment.Store.Roundtrip.{Stores, get_job-create_job}
use vibls_assignment.Examples.Values.{platform, job, two_jobs, no_tables}

-- All jobs of the namespace "sandbox", one on a page.
abbrev options : ListJobsOptions
options = record {
  status = none;
  namespace = some "sandbox";
  created_after = none;
  created_before = none;
  limit = pos 1;
  offset = pos 0;
}

list_jobs-calm_example : list_jobs platform options (calm two_jobs) ≡ (
  and_then
      (scan_jobs platform (page platform options two_jobs.jobs))
      (λ jobs. ok (record { jobs = jobs; total = 2 })),
  calm two_jobs,
)
list_jobs-calm_example = list_jobs-calm platform options two_jobs

abbrev newest : ListJobsResult
newest = record {
  jobs = record job { id = "b"; status = "COMPLETED"; created_at = 4; updated_at = 3 } ∷ [];
  total = 2;
}

abbrev newest_listed : (list_jobs platform options (calm two_jobs)).0 ≡ ok newest
unfolding list_jobs count_jobs fetch_jobs build_query selected order_desc insert_desc scan_jobs
    scan_job all_hold
newest_listed = refl

list_jobs_sound_example :
    (length newest.jobs ≤ 1)
    × All (λ j. matches_job options j ≡ true) newest.jobs
    × IsNewestFirst newest.jobs
list_jobs_sound_example = list_jobs_sound platform options (calm two_jobs) newest newest_listed

pub job-Stores : Stores platform job
job-Stores = record { valid = λ n. refl; back = λ o e. cc }

abbrev stored_world : World
stored_world = (create_job platform job (calm no_tables)).1

abbrev created : create_job platform job (calm no_tables) ≡ (ok "id", stored_world)
unfolding create_job insert_job jobs_unique
created = refl

get_job-create_job_example :
    get_job platform "id" stored_world ≡ (ok (as_stored "id" job), stored_world)
get_job-create_job_example =
    get_job-create_job platform job no_tables "id" stored_world job-Stores refl refl created
