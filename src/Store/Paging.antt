-- ===== src/Store/Paging.antt =====
-- What ListJobs returns, against a direct description of the filters.
use vibls_assignment.Store.Jobs.{and_then}
use vibls_assignment.Common.{
  length, ℕ, ◌+◌, ◌≡◌, refl, ◌==◌, Bool, true, ◌&&◌, Option, none, some, List, [], ◌∷◌, ◌++◌, arith,
  take, drop, keep, leb,
}
use vibls_assignment.Store.Rows.{Tables, Platform, ok, calm, JobRow}
use vibls_assignment.Store.Listing.{
  list_jobs, scan_jobs, order_desc, ListJobsOptions, build_query, effective_limit, effective_offset,
  number, number_of, placeholder, selected, all_hold, is_true, order_desc,
}

-- The filters that a client asks for, read off the options.
abbrev pub admits : {A : Type 0} → (A → Bool) → Option A → Bool
admits test none = true
admits test (some a) = test a

abbrev pub matches : ListJobsOptions → JobRow → Bool
matches opts r =
    admits (λ s. r.status == s) opts.status
    && (admits (λ n. r.target_namespace == n) opts.namespace
        && (admits (λ t. leb t r.created_at) opts.created_after
            && admits (λ t. leb r.created_at t) opts.created_before))

-- The rows of a page.
abbrev pub page : Platform → ListJobsOptions → List JobRow → List JobRow
page p opts rows = take (effective_limit opts.limit) (
    drop (effective_offset opts.offset)
      (order_desc p.ties (λ r. r.created_at) (keep (matches opts) rows)))

build_query-matches :
    (opts : ListJobsOptions) (r : JobRow)
    → is_true (all_hold (build_query opts).args (build_query opts).conditions r) ≡ matches opts r
unfolding build_query all_hold
build_query-matches opts r = ground arith

pub build_query-placeholders :
    (opts : ListJobsOptions) (a b : ℕ)
    → (number_of (
          placeholder
            ((build_query opts).args ++ number a ∷ number b ∷ [])
            (build_query opts).arg_idx)
        ≡ some a)
      × (number_of (
            placeholder
              ((build_query opts).args ++ number a ∷ number b ∷ [])
              ((build_query opts).arg_idx + 1))
          ≡ some b)
unfolding build_query
build_query-placeholders opts a b = ground arith

pub selected-matches :
    (opts : ListJobsOptions) (rows : List JobRow)
    → selected (build_query opts) rows ≡ keep (matches opts) rows
unfolding selected
selected-matches opts [] = refl
selected-matches opts (r ∷ rows) = rw (build_query-matches opts r, selected-matches opts rows)

-- Without failures and other clients, ListJobs answers with the number of rows that meet all given
-- filters, and with those of them that the page has: newest first (those of one instant in the
-- database's order), the offset skipped, no more than the limit (20 where the given one is not
-- positive). It changes nothing.
pub list_jobs-calm :
    (p : Platform) (opts : ListJobsOptions) (t : Tables)
    → list_jobs p opts (calm t) ≡ (
      and_then
          (scan_jobs p (page p opts t.jobs))
          (λ jobs. ok (record { jobs = jobs; total = length (keep (matches opts) t.jobs) })),
      calm t,
    )
unfolding list_jobs
list_jobs-calm p opts t =
    let (limited, skipped) =
      build_query-placeholders opts (effective_limit opts.limit) (effective_offset opts.offset) in
    ground (arith, limited, skipped, selected-matches opts t.jobs)
