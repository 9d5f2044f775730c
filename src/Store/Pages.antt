-- ===== src/Store/Pages.antt =====
-- A page of ListJobs in any environment: size, filters and order of the jobs in it.
use vibls_assignment.Common.{
  suc, ◌≤◌, ◌≡◌, ap, Bool, true, ◌&&◌, List, [], ◌∷◌, arith, ◌==◌, leb, length, drop, keep, All,
  length-take, All-take, All-drop,
}
use vibls_assignment.Job.{Job}
use vibls_assignment.Store.Rows.{>>=-eq-ok, JobRow, Platform, ok, World, after, ◌>>=◌, return}
use vibls_assignment.Store.Jobs.{and_then-eq-ok, scan_job}
use vibls_assignment.Store.Listing.{
  count_jobs, fetch_jobs, all_args, ListJobsOptions, ListJobsResult, build_query, effective_limit,
  effective_offset, order_desc, scan_jobs, list_jobs,
}
use vibls_assignment.Store.Order.{
  IsDesc, All-order_desc, order_desc-IsDesc, IsDesc-take, IsDesc-drop, All-keep,
}
use vibls_assignment.Store.Paging.{
  selected-matches, build_query-placeholders, admits, matches, page,
}

-- The filters, read off a job that the client gets.
abbrev pub matches_job : ListJobsOptions → Job → Bool
matches_job opts j =
    admits (λ s. j.status == s) opts.status
    && (admits (λ n. j.target_namespace == n) opts.namespace
        && (admits (λ t. leb t j.created_at) opts.created_after
            && admits (λ t. leb j.created_at t) opts.created_before))

abbrev pub IsNewestFirst : List Job → Type 0
IsNewestFirst [] = Unit
IsNewestFirst (j ∷ js) = All (λ k. k.created_at ≤ j.created_at) js × IsNewestFirst js

scan_job-fields :
    (p : Platform) (r : JobRow) (j : Job)
    → scan_job p r ≡ ok j
    → (j.status ≡ r.status)
      × (j.target_namespace ≡ r.target_namespace)
      × (j.created_at ≡ r.created_at)
unfolding scan_job
scan_job-fields p r j h = ground arith

scan_jobs-cons :
    (p : Platform) (r : JobRow) (rs : List JobRow) (js : List Job)
    → scan_jobs p (r ∷ rs) ≡ ok js
    → (j : Job) × (ks : List Job) × (scan_job p r ≡ ok j) × (scan_jobs p rs ≡ ok ks) × (js ≡ j ∷ ks)
unfolding scan_jobs
scan_jobs-cons p r rs js h =
    let (j, first, h') = and_then-eq-ok (scan_job p r) _ h in
    let (ks, rest, h'') = and_then-eq-ok (scan_jobs p rs) _ h' in (j, ks, first, rest, cc)

-- A scan keeps the number of rows, their order, and whatever holds of the fields of each.
module _ {κ} (p : Platform) (P : JobRow → Type κ) (Q : Job → Type κ)
    (carry : (r : JobRow) (j : Job) → scan_job p r ≡ ok j → P r → Q j) where
  scan_jobs-All : (rs : List JobRow) (js : List Job) → scan_jobs p rs ≡ ok js → All P rs → All Q js
  unfolding scan_jobs
  scan_jobs-All [] [] h a = tt
  scan_jobs-All [] (j ∷ js) h a = cc
  scan_jobs-All (r ∷ rs) js h a =
      let (j, ks, first, rest, same) = scan_jobs-cons p r rs js h in
      rw same (carry r j first a.0, scan_jobs-All rs ks rest a.1)

length-scan_jobs :
    (p : Platform) (rs : List JobRow) (js : List Job)
    → scan_jobs p rs ≡ ok js
    → length js ≡ length rs
unfolding scan_jobs
length-scan_jobs p [] js h = ground arith
length-scan_jobs p (r ∷ rs) js h =
    let (j, ks, first, rest, same) = scan_jobs-cons p r rs js h in
    rw same (ap suc (length-scan_jobs p rs ks rest))

scan_jobs-IsNewestFirst :
    (p : Platform) (rs : List JobRow) (js : List Job)
    → scan_jobs p rs ≡ ok js
    → IsDesc (λ r. r.created_at) rs
    → IsNewestFirst js
unfolding scan_jobs
scan_jobs-IsNewestFirst p [] [] h d = tt
scan_jobs-IsNewestFirst p [] (j ∷ js) h d = cc
scan_jobs-IsNewestFirst p (r ∷ rs) js h d =
    let (j, ks, first, rest, same) = scan_jobs-cons p r rs js h in
    let newest = (scan_job-fields p r j first).2 in
    rw same (
      scan_jobs-All p (λ s. s.created_at ≤ r.created_at) (λ k. k.created_at ≤ j.created_at)
          (λ s k scanned below. rw ((scan_job-fields p s k scanned).2, newest) below) rs ks rest
          d.0,
      scan_jobs-IsNewestFirst p rs ks rest d.1,
    )

page-jobs :
    (p : Platform) (opts : ListJobsOptions) (rows : List JobRow) (js : List Job)
    → scan_jobs p (page p opts rows) ≡ ok js
    → (length js ≤ effective_limit opts.limit)
      × All (λ j. matches_job opts j ≡ true) js
      × IsNewestFirst js
page-jobs p opts rows js h =
    let limit = effective_limit opts.limit in
    let offset = effective_offset opts.offset in
    let wanted = keep (matches opts) rows in
    let sorted = order_desc p.ties (λ r. r.created_at) wanted in
    (
      omega (arith, length-scan_jobs p _ js h, length-take {0} limit (drop offset sorted)),
      scan_jobs-All p (λ r. matches opts r ≡ true) (λ j. matches_job opts j ≡ true)
          (λ r j scanned m.
            let (status, namespace, created) = scan_job-fields p r j scanned in
            rw (status, namespace, created) m)
          _ js h
          (All-take _ limit _ (
            All-drop _ offset _
              (All-order_desc (λ r. r.created_at) p.ties _ wanted (All-keep (matches opts) rows)))),
      scan_jobs-IsNewestFirst p _ js h
          (IsDesc-take _ limit _ (IsDesc-drop _ offset _ (order_desc-IsDesc _ p.ties wanted))),
    )

fetch_jobs-page :
    (p : Platform) (opts : ListJobsOptions) (w : World) (js : List Job)
    → (fetch_jobs p (build_query opts) (all_args opts (build_query opts)) w).0 ≡ ok js
    → scan_jobs p (page p opts (after w).tables.jobs) ≡ ok js
unfolding fetch_jobs
fetch_jobs-page p opts w js h =
    let (limited, skipped) =
      build_query-placeholders opts (effective_limit opts.limit) (effective_offset opts.offset) in
    ground (arith, limited, skipped, selected-matches opts (after w).tables.jobs)

-- In any environment, a page that ListJobs returns holds no more jobs than the limit, each of them
-- meets every filter that was given, and none is newer than one before it.
pub list_jobs_sound :
    (p : Platform) (opts : ListJobsOptions) (w : World) (found : ListJobsResult)
    → (list_jobs p opts w).0 ≡ ok found
    → (length found.jobs ≤ effective_limit opts.limit)
      × All (λ j. matches_job opts j ≡ true) found.jobs
      × IsNewestFirst found.jobs
unfolding list_jobs
list_jobs_sound p opts w found h =
    let q = build_query opts in
    let fetch = fetch_jobs p q (all_args opts q) in
    let (total, counted, h') =
      >>=-eq-ok (count_jobs q)
        (λ total. fetch >>= λ jobs. return (record { jobs = jobs; total = total })) w h in
    let w' = (count_jobs q w).1 in
    let (jobs, fetched, h'') =
      >>=-eq-ok fetch (λ jobs. return (record { jobs = jobs; total = total })) w' h' in
    let sound = page-jobs p opts _ jobs (fetch_jobs-page p opts w' jobs fetched) in
    ground (arith, sound, h'')
