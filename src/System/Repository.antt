-- ===== src/System/Repository.antt =====
-- Each operation of internal/models/db.go that runs on the pool moves the tables by statements of
-- the repository.
use vibls_assignment.Common.{
  ℕ, ◌+◌, ◌-◌, String, refl, not, none, some, List, ◌==◌, ltb, length, keep, find_first,
}
use vibls_assignment.Job.{JobStatus, PipelineStage, Time}
use vibls_assignment.Store.Rows.{
  IdempotencyKey, Platform, no_rows, ok, err, statement, ◌>>=◌, return,
}
use vibls_assignment.Store.Jobs.{
  of_option, is_deployment_of, get_active_deployment, select_job, get_job, set_status, insert_event,
  update_job_status,
}
use vibls_assignment.Store.Invariant.{set_status_step, insert_event_step, delete_keys_step, here}
use vibls_assignment.Store.Keys.{get_idempotency_key, delete_expired_idempotency_keys}
use vibls_assignment.Store.Listing.{
  ListJobsOptions, Arg, Query, build_query, placeholder, number_of, selected, order_desc,
  data_query, scan_jobs, count_jobs, fetch_jobs, all_args, list_jobs, is_completed_since,
  list_completed_jobs,
}
use vibls_assignment.System.Moves.{Keeps, Keeps-statement, Keeps-bind, Moves-refl, one_step}

module _ (p : Platform) where
  pub update_job_status-Keeps :
      (id : String) (status : JobStatus) (stage : PipelineStage) (message : String)
      → Keeps p (update_job_status p id status stage message)
  unfolding update_job_status
  update_job_status-Keeps id status stage message =
      Keeps-bind p (statement (set_status p id status stage message))
        (λ u w. (ok tt, (statement (insert_event p id none (some stage) status message none) w).1))
        (Keeps-statement p (set_status p id status stage message)
          (λ t. one_step (set_status_step id status stage message refl)))
        (λ u.
          Keeps-statement p (insert_event p id none (some stage) status message none)
            (λ t. one_step (insert_event_step id none (some stage) status message none refl)))

  pub get_job-Keeps : (id : String) → Keeps p (get_job p id)
  unfolding get_job select_job
  get_job-Keeps id = Keeps-statement p (select_job p id) (λ t. here)

  pub get_idempotency_key-Keeps : (hash : String) → Keeps p (get_idempotency_key hash)
  unfolding get_idempotency_key
  get_idempotency_key-Keeps hash =
      Keeps-statement p (λ t. (of_option no_rows (find_first (λ k. k.hash == hash) t.keys), t))
        (λ t. here)

  pub get_active_deployment-Keeps :
      (repo_url branch namespace : String)
      → Keeps p (get_active_deployment repo_url branch namespace)
  unfolding get_active_deployment
  get_active_deployment-Keeps repo_url branch namespace =
      Keeps-statement p
        (λ t. (
          elim (find_first (is_deployment_of repo_url branch namespace) t.jobs) [
            | none ↦ err no_rows
            | some r ↦ ok (r.id, r.status)
          ],
          t,
        ))
        (λ t. here)

  count_jobs-Keeps : (q : Query) → Keeps p (count_jobs q)
  unfolding count_jobs
  count_jobs-Keeps q = Keeps-statement p (λ t. (ok (length (selected q t.jobs)), t)) (λ t. here)

  fetch_jobs-Keeps : (q : Query) (args : List Arg) → Keeps p (fetch_jobs p q args)
  unfolding fetch_jobs
  fetch_jobs-Keeps q args =
      Keeps-statement p
        (λ t. (
          scan_jobs p (
              data_query p q (number_of (placeholder args q.arg_idx))
                (number_of (placeholder args (q.arg_idx + 1))) t.jobs),
          t,
        ))
        (λ t. here)

  pub list_jobs-Keeps : (opts : ListJobsOptions) → Keeps p (list_jobs p opts)
  unfolding list_jobs
  list_jobs-Keeps opts =
      let q = build_query opts in
      Keeps-bind p (count_jobs q)
        (λ total. fetch_jobs p q (all_args opts q) >>= λ jobs.
          return (record { jobs = jobs; total = total }))
        (count_jobs-Keeps q)
        (λ total.
          Keeps-bind p (fetch_jobs p q (all_args opts q))
            (λ jobs. return (record { jobs = jobs; total = total }))
            (fetch_jobs-Keeps q (all_args opts q)) (λ jobs. Moves-refl p))

  pub list_completed_jobs-Keeps : (since : Time) → Keeps p (list_completed_jobs p since)
  unfolding list_completed_jobs
  list_completed_jobs-Keeps since =
      Keeps-statement p
        (λ t. (
          scan_jobs p
              (order_desc p.ties (λ r. r.updated_at) (keep (is_completed_since since) t.jobs)),
          t,
        ))
        (λ t. here)

  pub delete_expired_idempotency_keys-Keeps :
      (now : Time) (age : ℕ) → Keeps p (delete_expired_idempotency_keys now age)
  unfolding delete_expired_idempotency_keys
  delete_expired_idempotency_keys-Keeps now age =
      Keeps-statement p
        (λ t.
          let expired = λ (k : IdempotencyKey). ltb k.created_at (now - age) in
          (
            ok (length (keep expired t.keys)),
            record t { keys = keep (λ k. not (expired k)) t.keys },
          ))
        (λ t. one_step (delete_keys_step (λ k. not (ltb k.created_at (now - age))) refl))
