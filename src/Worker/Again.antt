-- ===== src/Worker/Again.antt =====
-- The deploy handler of cmd/worker/main.go when a task is run again: each run loads the job anew
-- and calls Execute of internal/worker/orchestrator.go.
use vibls_assignment.Common.{
  ℕ, zero, suc, String, ◌≡◌, refl, sym, ap, ◌∙◌, Option, some, List, [], arith,
}
use vibls_assignment.Job.{PipelineStage, Job}
use vibls_assignment.Store.Rows.{JobRow, Tables, Platform, Result, ok, World, calm}
use vibls_assignment.Store.Jobs.{unmarshal_column, scan_text, and_then-eq-ok, scan_job, get_job}
use mathlib.Core.Path.{subst, subst₂}
use vibls_assignment.Store.Lookup.{row_of-id}
use vibls_assignment.Store.Roundtrip.{get_job-row_of}
use vibls_assignment.Store.Runnable.{Runs}
use vibls_assignment.Worker.Pipeline.{Call, Stages, Run, Outcome, execute}
use vibls_assignment.Worker.Plan.{PlanStep, plan_of}
use vibls_assignment.Worker.Outcomes.{SameJob, Finished, first_problem, history}
use vibls_assignment.Worker.Execute.{execute_from-Finished}
use vibls_assignment.Worker.Deploy.{HandlerError, handled, handle_deploy_job}

ok-eq : {A : Type 0} {a b : A} → ok a ≡ ok b → a ≡ b
ok-eq h = cc

-- A job as it is read once its status was written.
abbrev pub written : Job → JobRow → PipelineStage → String → Job
written job row stage message = record job {
  status = row.status;
  current_stage = stage;
  error_message = message;
  updated_at = row.updated_at;
}

pub scan_job-written :
    (p : Platform) (row row' : JobRow) (job : Job) (stage message : String)
    → scan_job p row ≡ ok job
    → SameJob row row'
    → row'.current_stage ≡ some stage
    → row'.error_message ≡ some message
    → scan_job p row' ≡ ok (written job row' stage message)
unfolding scan_job
scan_job-written p row row' job stage message h same at_stage with_message =
    let (s, e, h₁) = and_then-eq-ok (scan_text row.current_stage) _ h in
    let (m, e', h₂) = and_then-eq-ok (scan_text row.error_message) _ h₁ in
    let (o, read_overrides, h₃) =
      and_then-eq-ok (unmarshal_column p.unmarshal_overrides row.resource_overrides) _ h₂ in
    let (ts, read_timestamps, h₄) =
      and_then-eq-ok (unmarshal_column p.unmarshal_timestamps row.stage_timestamps) _ h₃ in
    rw
      (
        at_stage, with_message, same.overrides, same.timestamps, read_overrides, read_timestamps,
        same.id, same.repo_url, same.branch, same.build_context, same.dockerfile_path,
        same.target_namespace, same.created_at,
      )
      (ap (λ (j : Job). ok (written j row' stage message)) (ok-eq h₄))

scan_job-id : (p : Platform) (row : JobRow) {job : Job} → scan_job p row ≡ ok job → job.id ≡ row.id
unfolding scan_job
scan_job-id p row h =
    let (s, e, h₁) = and_then-eq-ok (scan_text row.current_stage) _ h in
    let (m, e', h₂) = and_then-eq-ok (scan_text row.error_message) _ h₁ in
    let (o, e₃, h₃) =
      and_then-eq-ok (unmarshal_column p.unmarshal_overrides row.resource_overrides) _ h₂ in
    let (ts, e₄, h₄) =
      and_then-eq-ok (unmarshal_column p.unmarshal_timestamps row.stage_timestamps) _ h₃ in
    sym (ap (λ (j : Job). j.id) (ok-eq h₄))

module _ (p : Platform) (env : String → String) (f : Stages) (decode : String → Option String)
    (payload : String) where
  -- The task is run a number of times, one after the other.
  abbrev pub run_times : ℕ → Run → Run
  run_times zero s = s
  run_times (suc n) s = (handle_deploy_job p env f decode payload (run_times n s)).1

  -- A job that can be loaded and worked on, with the plan of a job.
  pub record Ready (id : String) (job : Job) (t : Tables) : Type 0 where
    pub runs : Runs p id t
    pub loaded : Job
    pub scanned : scan_job p runs.row ≡ ok loaded
    pub planned : plan_of env loaded ≡ plan_of env job

  abbrev pub Ends : String → Job → Tables → List Call → Outcome → Type 0
  Ends id job t calls o =
      Finished id t (first_problem f (plan_of env job) calls) (history f (plan_of env job) calls) o

  module _ (id : String) (job : Job) (decoded : decode payload ≡ some id) where
    pub one_run :
        (t : Tables) (calls : List Call)
        → Ready id job t
        → (o : Outcome) × (handle_deploy_job p env f decode payload
              (record { world = calm t; calls = calls })
            ≡ (handled o.0, o.1))
          × Ends id job t calls o
    unfolding handle_deploy_job
    one_run t calls r =
        let s : Run = record { world = calm t; calls = calls } in
        let read = get_job-row_of p id t r.runs.row r.runs.valid r.runs.found in
        let same_id : r.loaded.id ≡ id =
          scan_job-id p r.runs.row r.scanned ∙ row_of-id id t.jobs r.runs.found in
        let o = execute p env f r.loaded s in
        let ends : Ends r.loaded.id r.loaded t calls o =
          execute_from-Finished p env f r.loaded t calls
            (subst (λ (i : String). Runs p i t) (sym same_id) r.runs) in
        (
          o,
          ground (arith, decoded, read, r.scanned),
          subst₂
              (λ (i : String) (plan : List PlanStep).
                Finished i t (first_problem f plan calls) (history f plan calls) o)
              same_id r.planned ends,
        )

    still_loaded :
        (t : Tables) (calls : List Call) (o : Outcome)
        → Ready id job t
        → (e : Ends id job t calls o) → Ready id job e.tables
    still_loaded t calls o r e = record {
      runs = record {
        valid = r.runs.valid;
        unique = e.unique;
        row = e.row;
        found = e.found;
        alone = e.alone;
      };
      loaded = _;
      scanned =
          scan_job-written p r.runs.row e.row r.loaded _ _ r.scanned
            (e.kept r.runs.row r.runs.found) e.stage e.message;
      planned = r.planned;
    }

    after_runs :
        (n : ℕ) (t : Tables) (calls : List Call)
        → Ready id job t
        → (t' : Tables) × (calls' : List Call) × (run_times n
              (record { world = calm t; calls = calls })
            ≡ record { world = calm t'; calls = calls' })
          × Ready id job t'
    after_runs zero t calls r = (t, calls, refl, r)
    after_runs (suc n) t calls r =
        let (t', calls', reached, r') = after_runs n t calls r in
        let (o, ran, e) = one_run t' calls' r' in
        (
          e.tables,
          o.1.calls,
          ap (λ (s : Run). (handle_deploy_job p env f decode payload s).1) reached
              ∙ ap (λ (x : Option HandlerError × Run). x.1) ran
              ∙ ap (λ (w : World). record o.1 { world = w }) e.settled,
          still_loaded t' calls' o r' e,
        )

  -- Calm, for a job that can be loaded and whose target has no other queued or running job:
  -- however often its task was run before, with whatever results, one more run takes the job
  -- through the whole pipeline again, and the job ends as the stages answer in that run:
  -- COMPLETED exactly if none of them has a problem, else FAILED at the first problem, with its
  -- message.
  pub handle_deploy_job_again :
      (n : ℕ) (id : String) (job : Job) (t : Tables)
      → decode payload ≡ some id
      → Runs p id t
      → get_job p id (calm t) ≡ (ok job, calm t)
      → (t' : Tables) × (calls : List Call) × (o : Outcome) × (run_times n
            (record { world = calm t; calls = [] })
          ≡ record { world = calm t'; calls = calls })
        × (handle_deploy_job p env f decode payload (record { world = calm t'; calls = calls })
            ≡ (handled o.0, o.1))
        × Finished id t'
            (first_problem f (plan_of env job) calls)
            (history f (plan_of env job) calls)
            o
  handle_deploy_job_again n id job t decoded r loaded =
      let scanned : scan_job p r.row ≡ ok job =
        ap (λ (x : Result Job × World). x.0)
          (sym (get_job-row_of p id t r.row r.valid r.found) ∙ loaded) in
      let (t', calls, reached, r') =
        after_runs id job decoded n t []
          (record { runs = r; loaded = job; scanned = scanned; planned = refl }) in
      let (o, ran, e) = one_run id job decoded t' calls r' in (t', calls, o, reached, ran, e)
