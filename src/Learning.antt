-- ===== src/Learning.antt =====
-- internal/learning/analyzer.go: recommendations and failure counts from the completed jobs. Go's
-- map of counts is an association list; the order in which Go ranges over it is not fixed, here
-- it is that of the first failures. Floating point numbers are a parameter.
pub mod Counts
pub mod Scheduler
use vibls_assignment.Common.{
  ℕ, zero, suc, ◌+◌, ◌-◌, ◌*◌, ◌/◌, ◌%◌, ◌^◌, ◌≤◌, ◌<◌, String, ◌≡◌, refl, sym, ap, ◌∙◌, ◌≢◌, ◌↔◌,
  ◌⊎◌, inl, inr, Bool, true, false, not, ◌&&◌, ◌||◌, Option, none, some, List, [], ◌∷◌, ◌++◌, map,
  arith, ◌==◌, eq_iff, eq_refl, ltb, leb, eqb, if◌then◌else◌, ltb→lt, lt→ltb, leb→le, le→leb,
  eqb_iff, tests, Bool-cases, Option-cases, length, get_elem?, take, drop, keep, find_first, any,
  is_empty, All, length-append, length-take, length-drop, All-append, All-take, All-drop,
}
use vibls_assignment.Job.{
  JobStatus, status_queued, status_running, status_completed, status_failed, PipelineStage,
  stage_cloning, stage_building, stage_pushing, stage_manifest_generating, stage_verifying,
  stage_applying, stage_health_checking, Float64, ℤ, pos, negsuc, ResourceOverrides, Time, Job,
  JobEvent, valid_transitions, next_stage, valid_transition, is_terminal,
}
use vibls_assignment.Store.Rows.{
  JobRow, EventRow, IdempotencyKey, Tables, Platform, DbError, no_rows, key_exists, unavailable,
  unique_violation, missing_reference, bad_uuid, bad_json, null_column, Result, ok, err, Turn,
  World, quiet, first_turn, later_turns, M, after, statement, statement_tx, ◌>>=◌, ◌>>◌, return,
  is_active, same_target, clashes, jobs_unique, commit_jobs, calm, Result-cases, >>=-eq-ok,
  statement-eq-ok,
}
use vibls_assignment.Store.Jobs.{
  marshal_column, unmarshal_column, scan_text, and_then, and_then-eq-ok, of_option,
  is_deployment_of, coalesce, with_status, update_where, get_active_deployment, new_row, stored,
  insert_job, create_job, create_job_tx, scan_job, select_job, get_job, set_status, insert_event,
  update_job_status,
}
use vibls_assignment.Store.Listing.{
  ListJobsOptions, ListJobsResult, Condition, status_is, namespace_is, created_from, created_until,
  Arg, text, instant, number, Query, add_condition, build_query, effective_limit, effective_offset,
  placeholder, number_of, holds, all_hold, is_true, selected, insert_desc, order_desc, data_query,
  scan_jobs, count_jobs, fetch_jobs, all_args, list_jobs, is_completed_since, list_completed_jobs,
}

pub record FailurePattern : Type 0 where
  pub stage : String
  pub count : ℕ
  pub example_error : String

-- The operations of float64 that the analyzer uses.
pub record Floating : Type 1 where
  pub Number : Type 0
  pub literal : String → Number
  pub of_bits : Float64 → Number
  pub of_int : ℤ → Number
  pub sum : Number → Number → Number
  pub quotient : Number → ℕ → Number
  pub whole : Number → ℤ

pub record Recommendation (fl : Floating) : Type 0 where
  pub suggested_cpu_cores : fl.Number
  pub suggested_memory_mb : ℤ
  pub failure_patterns : List FailurePattern
  pub total_jobs_analyzed : ℕ

-- m[key]++
abbrev pub increment : String → List (String × ℕ) → List (String × ℕ)
increment key [] = (key, 1) ∷ []
increment key ((k, n) ∷ more) = if k == key then (k, n + 1) ∷ more else (k, n) ∷ increment key more

-- m[key] = value
abbrev pub put : String → String → List (String × String) → List (String × String)
put key value [] = (key, value) ∷ []
put key value ((k, v) ∷ more) = if k == key then (k, value) ∷ more else (k, v) ∷ put key value more

abbrev pub error_of : String → List (String × String) → String
error_of key [] = ""
error_of key ((k, v) ∷ more) = if k == key then v else error_of key more

pub record Totals (fl : Floating) : Type 0 where
  pub total_cpu : fl.Number
  pub total_memory : fl.Number
  pub cpu_count : ℕ
  pub memory_count : ℕ
  pub stage_failures : List (String × ℕ)
  pub stage_errors : List (String × String)

abbrev pub failed_somewhere : Job → Bool
failed_somewhere j = j.status == status_failed && not (j.current_stage == "")

module _ (fl : Floating) where
  abbrev pub add_failure : Job → Totals fl → Totals fl
  add_failure j t =
      if failed_somewhere j
      then record t {
        stage_failures = increment j.current_stage t.stage_failures;
        stage_errors =
            if j.error_message == ""
            then t.stage_errors
            else put j.current_stage j.error_message t.stage_errors;
      }
      else t

  abbrev add_cpu : Option Float64 → Totals fl → Totals fl
  add_cpu none t = t
  add_cpu (some c) t = record t {
    total_cpu = fl.sum t.total_cpu (fl.of_bits c);
    cpu_count = t.cpu_count + 1;
  }

  abbrev add_memory : Option ℤ → Totals fl → Totals fl
  add_memory none t = t
  add_memory (some m) t = record t {
    total_memory = fl.sum t.total_memory (fl.of_int m);
    memory_count = t.memory_count + 1;
  }

  abbrev pub add_overrides : Option ResourceOverrides → Totals fl → Totals fl
  add_overrides none t = t
  add_overrides (some o) t = add_memory o.memory_mb (add_cpu o.cpu_cores t)

  unfoldable pub totals : List Job → Totals fl → Totals fl
  totals [] t = t
  totals (j ∷ js) t = totals js (add_overrides j.resource_overrides (add_failure j t))

  abbrev pub no_totals : Totals fl
  no_totals = record {
    total_cpu = fl.literal "0.0";
    total_memory = fl.literal "0.0";
    cpu_count = 0;
    memory_count = 0;
    stage_failures = [];
    stage_errors = [];
  }

  abbrev positive_or : ℤ → ℤ → ℤ
  positive_or default (pos zero) = default
  positive_or default (pos (suc n)) = pos (suc n)
  positive_or default (negsuc n) = default

  abbrev average_cpu : Totals fl → fl.Number
  average_cpu t =
      if ltb 0 t.cpu_count then fl.quotient t.total_cpu t.cpu_count else fl.literal "0.5"

  abbrev average_memory : Totals fl → ℤ
  average_memory t =
      if ltb 0 t.memory_count
      then positive_or (pos 256) (fl.whole (fl.quotient t.total_memory t.memory_count))
      else pos 256

  abbrev pub patterns : List (String × String) → List (String × ℕ) → List FailurePattern
  patterns errors [] = []
  patterns errors ((stage, n) ∷ more) =
      record { stage = stage; count = n; example_error = error_of stage errors }
      ∷ patterns errors more

  unfoldable pub recommend : List Job → Recommendation fl
  recommend [] = record {
    suggested_cpu_cores = fl.literal "0.5";
    suggested_memory_mb = pos 256;
    failure_patterns = [];
    total_jobs_analyzed = 0;
  }
  recommend (j ∷ js) =
      let t = totals (j ∷ js) no_totals in
      record {
        suggested_cpu_cores = average_cpu t;
        suggested_memory_mb = average_memory t;
        failure_patterns = patterns t.stage_errors t.stage_failures;
        total_jobs_analyzed = length (j ∷ js);
      }

  -- AnalyzeCompletedJobs
  unfoldable pub analyze_completed_jobs : Platform → Time → M (Recommendation fl)
  analyze_completed_jobs p since = list_completed_jobs p since >>= λ jobs. return (recommend jobs)

abbrev count_at : String → List (String × ℕ) → ℕ
count_at stage [] = 0
count_at stage ((k, n) ∷ more) = if k == stage then n else count_at stage more
