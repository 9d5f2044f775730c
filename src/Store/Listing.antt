-- ===== src/Store/Listing.antt =====
-- The queries of internal/models/db.go over many jobs: ListJobs, with the WHERE clause that it
-- builds from the options, and ListCompletedJobs.
use vibls_assignment.Common.{
  eqb, ltb, ℕ, zero, suc, ◌+◌, String, ◌==◌, Bool, true, false, ◌&&◌, ◌||◌, Option, none, some,
  List, [], ◌∷◌, ◌++◌, get_elem?, take, drop, keep, length, leb, if◌then◌else◌,
}
use vibls_assignment.Job.{Job, JobStatus, ℤ, pos, negsuc, Time}
use vibls_assignment.Store.Rows.{JobRow, Platform, Result, ok, M, statement, ◌>>=◌, return}
use vibls_assignment.Store.Jobs.{and_then, scan_job}

pub record ListJobsOptions : Type 0 where
  pub status : Option JobStatus
  pub namespace : Option String
  pub created_after : Option Time
  pub created_before : Option Time
  pub limit : ℤ
  pub offset : ℤ

pub record ListJobsResult : Type 0 where
  pub jobs : List Job
  pub total : ℕ

-- The conditions that are joined by AND, each with the number of its placeholder.
pub data Condition : Type 0 where
  status_is namespace_is created_from created_until : ℕ → Condition

pub data Arg : Type 0 where
  text : String → Arg
  instant : Time → Arg
  number : ℕ → Arg

-- The three variables that the code builds the query with.
pub record Query : Type 0 where
  pub conditions : List Condition
  pub args : List Arg
  pub arg_idx : ℕ

abbrev pub add_condition : {A : Type 0} → (ℕ → Condition) → (A → Arg) → Option A → Query → Query
add_condition make arg none q = q
add_condition make arg (some a) q = record {
  conditions = q.conditions ++ make q.arg_idx ∷ [];
  args = q.args ++ arg a ∷ [];
  arg_idx = suc q.arg_idx;
}

unfoldable pub build_query : ListJobsOptions → Query
build_query opts = add_condition created_until instant opts.created_before (
    add_condition created_from instant opts.created_after (
      add_condition namespace_is text opts.namespace (
        add_condition status_is text opts.status
          (record { conditions = []; args = []; arg_idx = 1 }))))

-- `if opts.Limit <= 0 { opts.Limit = 20 }`
abbrev pub effective_limit : ℤ → ℕ
effective_limit (pos zero) = 20
effective_limit (pos (suc n)) = suc n
effective_limit (negsuc n) = 20

-- `if opts.Offset < 0 { opts.Offset = 0 }`
abbrev pub effective_offset : ℤ → ℕ
effective_offset (pos n) = n
effective_offset (negsuc n) = 0

-- Placeholders count from 1. One that has no argument, or one of another type, makes the query
-- fail.
abbrev pub placeholder : List Arg → ℕ → Option Arg
placeholder args zero = none
placeholder args (suc i) = get_elem? args i

abbrev text_test : Option Arg → String → Option Bool
text_test (some (text s)) column = some (column == s)
text_test _ column = none

abbrev instant_test : Option Arg → (Time → Bool) → Option Bool
instant_test (some (instant n)) test = some (test n)
instant_test _ test = none

abbrev pub number_of : Option Arg → Option ℕ
number_of (some (number n)) = some n
number_of _ = none

abbrev pub holds : List Arg → Condition → JobRow → Option Bool
holds args (status_is i) r = text_test (placeholder args i) r.status
holds args (namespace_is i) r = text_test (placeholder args i) r.target_namespace
holds args (created_from i) r = instant_test (placeholder args i) λ n. leb n r.created_at
holds args (created_until i) r = instant_test (placeholder args i) λ n. leb r.created_at n

abbrev both : Option Bool → Option Bool → Option Bool
both (some a) (some b) = some (a && b)
both _ _ = none

unfoldable pub all_hold : List Arg → List Condition → JobRow → Option Bool
all_hold args [] r = some true
all_hold args (c ∷ cs) r = both (holds args c r) (all_hold args cs r)

abbrev pub is_true : Option Bool → Bool
is_true (some b) = b
is_true none = false

unfoldable pub selected : Query → List JobRow → List JobRow
selected q = keep λ r. is_true (all_hold q.args q.conditions r)

-- ORDER BY a column DESC. The order of rows with the same instant is the database's choice, `ties`.
unfoldable pub insert_desc :
    (JobRow → JobRow → Bool) → (JobRow → Time) → JobRow → List JobRow → List JobRow
insert_desc ties column r [] = r ∷ []
insert_desc ties column r (s ∷ rs) =
    if ltb (column s) (column r) || eqb (column s) (column r) && ties r s
    then r ∷ s ∷ rs
    else s ∷ insert_desc ties column r rs

unfoldable pub order_desc : (JobRow → JobRow → Bool) → (JobRow → Time) → List JobRow → List JobRow
unfolding insert_desc
order_desc ties column [] = []
order_desc ties column (r ∷ rs) = insert_desc ties column r (order_desc ties column rs)

-- SELECT … WHERE … ORDER BY created_at DESC LIMIT $argIdx OFFSET $(argIdx + 1)
abbrev pub data_query : Platform → Query → Option ℕ → Option ℕ → List JobRow → List JobRow
data_query p q (some limit) (some offset) rows =
    take limit (drop offset (order_desc p.ties (λ r. r.created_at) (selected q rows)))
data_query p q _ _ rows = []

unfoldable pub scan_jobs : Platform → List JobRow → Result (List Job)
scan_jobs p [] = ok []
scan_jobs p (r ∷ rs) =
    and_then (scan_job p r) λ job. and_then (scan_jobs p rs) λ jobs. ok (job ∷ jobs)

-- The two statements of ListJobs, on the query and the arguments that it has built.
unfoldable pub count_jobs : Query → M ℕ
count_jobs q = statement λ t. (ok (length (selected q t.jobs)), t)

unfoldable pub fetch_jobs : Platform → Query → List Arg → M (List Job)
fetch_jobs p q args = statement λ t. (
  scan_jobs p (
      data_query p q (number_of (placeholder args q.arg_idx))
        (number_of (placeholder args (q.arg_idx + 1))) t.jobs),
  t,
)

abbrev pub all_args : ListJobsOptions → Query → List Arg
all_args opts q =
    q.args ++ number (effective_limit opts.limit) ∷ number (effective_offset opts.offset) ∷ []

unfoldable pub list_jobs : Platform → ListJobsOptions → M ListJobsResult
unfolding count_jobs fetch_jobs
list_jobs p opts =
    let q = build_query opts in
    do
      total ← count_jobs q
      jobs ← fetch_jobs p q (all_args opts q)
      return (record { jobs = jobs; total = total })

-- WHERE status IN ('COMPLETED', 'FAILED') AND updated_at >= $1
abbrev pub is_completed_since : Time → JobRow → Bool
is_completed_since since r =
    (r.status == "COMPLETED" || r.status == "FAILED") && leb since r.updated_at

unfoldable pub list_completed_jobs : Platform → Time → M (List Job)
unfolding order_desc scan_jobs
list_completed_jobs p since = statement λ t. (
  scan_jobs p (order_desc p.ties (λ r. r.updated_at) (keep (is_completed_since since) t.jobs)),
  t,
)
