-- ===== src/Worker/Blocked.antt =====
-- Execute of internal/worker/orchestrator.go for a job whose target was taken by another job: a
-- failed job whose task is run again after a new job for its target was created.
use mathlib.Core.List.{Memᴰ}
use vibls_assignment.Common.{
  String, ◌≡◌, refl, sym, ap, ◌∙◌, inl, inr, true, false, some, List, [], ◌∷◌, arith, ◌==◌,
  Bool-cases,
}
use vibls_assignment.Job.{status_running, PipelineStage, stage_cloning, Job}
use vibls_assignment.Store.Rows.{
  JobRow, Tables, Platform, DbError, unique_violation, err, is_active, same_target, jobs_unique,
  calm,
}
use vibls_assignment.Store.Jobs.{with_status, update_where, update_job_status}
use vibls_assignment.Store.Lookup.{row_of, any-row_of}
use vibls_assignment.Store.Active.{clashes-eq, find_first-Memᴰ}
use vibls_assignment.Store.Slot.{Memᴰ-update}
use vibls_assignment.Store.Update.{update_job_status-calm}
use vibls_assignment.Worker.Pipeline.{Call, Stages, update_failed, get_env, join, execute}
use vibls_assignment.Worker.Plan.{PlanStep, run_plan}
use vibls_assignment.Worker.Unrolled.{stages-run_plan}
use vibls_assignment.Common.Text.{cat}

-- The changed row of an update.
Memᴰ-updated :
    (id : String) (change : JobRow → JobRow) (rows : List JobRow) {r : JobRow}
    → (r.id == id) ≡ true
    → Memᴰ r rows
    → Memᴰ (change r) (update_where (λ s. s.id == id) change rows)
Memᴰ-updated id change [] hit m = elim m [ ]
Memᴰ-updated id change (s ∷ rows) {r} hit (Memᴰ.head e) =
    let also : (s.id == id) ≡ true = ap (λ (k : JobRow). k.id == id) (sym e) ∙ hit in
    rw also (Memᴰ.head (ap change e))
Memᴰ-updated id change (s ∷ rows) hit (Memᴰ.tail m) = Memᴰ.tail (Memᴰ-updated id change rows hit m)

module _ (id : String) (t : Tables) (row other : JobRow) where
  -- RUNNING is refused by the unique index.
  taken :
      (stage : PipelineStage) (message : String)
      → row_of id t.jobs ≡ some row
      → Memᴰ other t.jobs
      → (other.id == id) ≡ false
      → is_active other.status ≡ true
      → same_target row other ≡ true
      → jobs_unique
          (update_where (λ s. s.id == id) (with_status status_running stage message t.now) t.jobs)
        ≡ false
  taken stage message found there elsewhere active same =
      let change = with_status status_running stage message t.now in
      let (m, hit) = find_first-Memᴰ (λ r. r.id == id) t.jobs found in
      elim (Bool-cases (jobs_unique (update_where (λ s. s.id == id) change t.jobs))) [
        | inr refused ↦ refused
        | inl unique ↦
            let one : change row ≡ other =
              clashes-eq (update_where (λ s. s.id == id) change t.jobs) unique
                (Memᴰ-updated id change t.jobs hit m)
                (Memᴰ-update id change (λ k. refl) t.jobs elsewhere there)
                (ground (arith, active, same)) in
            let also : (other.id == id) ≡ true = ap (λ (k : JobRow). k.id == id) (sym one) ∙ hit in
            cc
      ]

run_plan-blocked :
    (p : Platform) (f : Stages) (id : String) (x : PlanStep) (xs : List PlanStep) (t : Tables)
    (calls : List Call) (e : DbError)
    → update_job_status p id status_running x.stage "" (calm t) ≡ (err e, calm t)
    → run_plan p f id (x ∷ xs) (record { world = calm t; calls = calls })
      ≡ (some (update_failed status_running x.stage e), record { world = calm t; calls = calls })
unfolding run_plan
run_plan-blocked p f id x xs t calls e refused = ground (arith, refused)

-- Calm, for a job that exists but whose target (repository, branch and namespace) another queued
-- or running job holds: Execute returns the error of the first status update, calls no stage, and
-- changes nothing; the job's row is as it was.
pub execute-blocked :
    (p : Platform) (env : String → String) (f : Stages) (job : Job) (t : Tables) (calls : List Call)
    (row other : JobRow)
    → p.is_uuid job.id ≡ true
    → row_of job.id t.jobs ≡ some row
    → Memᴰ other t.jobs
    → (other.id == job.id) ≡ false
    → is_active other.status ≡ true
    → same_target row other ≡ true
    → execute p env f job (record { world = calm t; calls = calls }) ≡ (
      some (update_failed status_running stage_cloning unique_violation),
      record { world = calm t; calls = calls },
    )
unfolding execute
execute-blocked p env f job t calls row other valid found there elsewhere active same =
    let refused : update_job_status p job.id status_running stage_cloning "" (calm t)
        ≡ (err unique_violation, calm t) =
      update_job_status-calm p job.id status_running stage_cloning "" t valid
      ∙ rw
          (
            any-row_of job.id t.jobs found,
            taken job.id t row other stage_cloning "" found there elsewhere active same,
          )
          refl in
    let workspace = cat "/tmp/workspaces/" job.id in
    let registry = get_env env "CONTAINER_REGISTRY" "registry:5000" in
    let image_tag = cat registry (cat "/" (cat job.target_namespace (cat ":" job.id))) in
    let manifest_dir = join (join workspace "manifests") job.id in
    rw (stages-run_plan p f job image_tag workspace manifest_dir)
      (run_plan-blocked p f job.id _ _ t calls unique_violation refused)
