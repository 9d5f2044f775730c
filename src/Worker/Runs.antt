-- ===== src/Worker/Runs.antt =====
-- What Execute leaves in the database when nobody else acts and no statement fails.
use mathlib.Core.List.{map-append, append_assoc}
use vibls_assignment.Common.{
  String, ◌≡◌, refl, sym, ◌∙◌, inl, inr, Option, none, some, List, [], ◌∷◌, ◌++◌, arith,
  Option-cases,
}
use vibls_assignment.Job.{
  JobStatus, status_running, status_completed, status_failed, PipelineStage, stage_health_checking,
}
use vibls_assignment.Store.Rows.{JobRow, Tables, Platform, calm}
use mathlib.Core.Path.{subst}
use vibls_assignment.Store.Jobs.{with_status}
use vibls_assignment.Store.Update.{audit, updated, update_job_status-with_status}
use vibls_assignment.Store.Runnable.{Runs, update_job_status-Runs, updated-Runs}
use vibls_assignment.Worker.Pipeline.{
  Call, Stages, stage_failed, Run, Outcome, called, set_then, fail, answered,
}
use vibls_assignment.Worker.Plan.{PlanStep, problem, run_plan}
use vibls_assignment.Worker.Outcomes.{
  first_problem, history, final_error, final_status, final_stage, final_message, entry, SameJob,
  Finished,
}

module _ (p : Platform) (id : String) where
  set_then-Runs :
      (status : JobStatus) (stage : PipelineStage) (k : Run → Outcome) (t : Tables)
      (calls : List Call)
      → Runs p id t
      → set_then p id status stage k (record { world = calm t; calls = calls })
        ≡ k (record { world = calm (updated p id status stage "" t); calls = calls })
  set_then-Runs status stage k t calls r =
      ground (arith, update_job_status-Runs p id status stage "" t r)

  fail-Runs :
      (stage : PipelineStage) (message : String) (t : Tables) (calls : List Call)
      → Runs p id t
      → fail p id stage message (record { world = calm t; calls = calls }) ≡ (
        some (stage_failed stage message),
        record { world = calm (updated p id status_failed stage message t); calls = calls },
      )
  fail-Runs stage message t calls r =
      rw (update_job_status-Runs p id status_failed stage message t r) refl

  -- The last update of a run.
  ended :
      (v : Option (PipelineStage × String)) (calls : List Call) (t : Tables)
      → Runs p id t
      → Finished id t v ((final_stage v, final_status v, final_message v) ∷ []) (
        final_error v,
        record {
          world = calm (updated p id (final_status v) (final_stage v) (final_message v) t);
          calls = calls;
        },
      )
  ended v calls t r =
      let status = final_status v in
      let stage = final_stage v in
      let message = final_message v in
      let (found, others, keys, events) =
        update_job_status-with_status p id status stage message t r.row _ r.found
          (update_job_status-Runs p id status stage message t r) in
      record {
        tables = updated p id status stage message t;
        row = with_status status stage message t.now r.row;
        error = refl;
        settled = refl;
        found = found;
        status = refl;
        stage = refl;
        message = refl;
        kept = λ r' h.
            subst (λ (k : JobRow). SameJob k (with_status status stage message t.now r.row))
              (some-eq (sym r.found ∙ h)) written;
        unique = (updated-Runs p id status stage message t r).unique;
        alone = (updated-Runs p id status stage message t r).alone;
        others = others;
        keys = keys;
        audited = map-append entry t.events (audit p id status stage message t ∷ []);
      }
    where
      some-eq : {a b : JobRow} → some a ≡ some b → a ≡ b
      some-eq h = cc

      written :
          SameJob r.row (with_status (final_status v) (final_stage v) (final_message v) t.now r.row)
      written = record {
        id = refl;
        repo_url = refl;
        branch = refl;
        build_context = refl;
        dockerfile_path = refl;
        target_namespace = refl;
        overrides = refl;
        timestamps = refl;
        created_at = refl;
      }

  -- A run that goes on behind a status update.
  later :
      (stage : PipelineStage) (v : Option (PipelineStage × String))
      (trail : List (PipelineStage × JobStatus × String)) (o : Outcome) (t : Tables)
      → Runs p id t
      → Finished id (updated p id status_running stage "" t) v trail o
      → Finished id t v ((stage, status_running, "") ∷ trail) o
  later stage v trail o t r e =
      let (_, others, _, _) =
        update_job_status-with_status p id status_running stage "" t r.row _ r.found
          (update_job_status-Runs p id status_running stage "" t r) in
      record {
        tables = e.tables;
        row = e.row;
        error = e.error;
        settled = e.settled;
        found = e.found;
        status = e.status;
        stage = e.stage;
        message = e.message;
        kept = λ k h.
            let k' = with_status status_running stage "" t.now k in
            let same = e.kept k' (
              (update_job_status-with_status p id status_running stage "" t k _ h
                (update_job_status-Runs p id status_running stage "" t r)).0) in
            record {
              id = same.id;
              repo_url = same.repo_url;
              branch = same.branch;
              build_context = same.build_context;
              dockerfile_path = same.dockerfile_path;
              target_namespace = same.target_namespace;
              overrides = same.overrides;
              timestamps = same.timestamps;
              created_at = same.created_at;
            };
        unique = e.unique;
        alone = e.alone;
        others = λ j ne. e.others j ne ∙ others j ne;
        keys = e.keys;
        audited = e.audited ∙ simp (map-append, append_assoc) refl;
      }

  pub run_plan-Finished :
      (f : Stages) (xs : List PlanStep) (t : Tables) (calls : List Call)
      → Runs p id t
      → Finished id t
          (first_problem f xs calls)
          (history f xs calls)
          (run_plan p f id xs (record { world = calm t; calls = calls }))
  unfolding run_plan
  run_plan-Finished f [] t calls r =
      rw (set_then-Runs status_completed stage_health_checking (λ s. (none, s)) t calls r)
        (ended none calls t r)
  run_plan-Finished f (x ∷ xs) t calls r =
      let t' = updated p id status_running x.stage "" t in
      let r' = updated-Runs p id status_running x.stage "" t r in
      let go = λ (s : Run).
        answered p id x.stage (run_plan p f id xs) (problem f x.kind s.calls x.call)
          (called x.call s) in
      rw (set_then-Runs status_running x.stage go t calls r)
        (elim (Option-cases (problem f x.kind calls x.call)) [
          | inl e ↦
              rw (e, first_problem)
                (later x.stage _ _ _ t r (run_plan-Finished f xs t' (calls ++ x.call ∷ []) r'))
          | inr (message, e) ↦
              rw (e, first_problem)
                (later x.stage _ _ _ t r (
                  rw (fail-Runs x.stage message t' (calls ++ x.call ∷ []) r')
                    (ended (some (x.stage, message)) _ t' r')))
        ])
