-- ===== src/Worker/Completed.antt =====
-- What a deployment has done when Execute of internal/worker/orchestrator.go returns no error,
-- with the stages that cmd/worker/main.go gives to it.
use vibls_assignment.Common.{
  ℕ, ◌*◌, ◌≤◌, ◌<◌, String, ◌≡◌, refl, sym, ap, ◌∙◌, ◌≢◌, inl, inr, Bool, true, false, Option, none,
  some, List, [], ◌∷◌, ◌++◌, map, arith, ◌==◌, eq_iff, if◌then◌else◌, Bool-cases, Option-cases,
  take,
}
use vibls_assignment.Common.Text.{codes, cat}
use vibls_assignment.Job.{PipelineStage, Job}
use vibls_assignment.Store.Rows.{Platform, Tables, calm}
use vibls_assignment.Store.Runnable.{Runs}
use vibls_assignment.Verification.Score.{counted, succeeded}
use vibls_assignment.Verification.Yaml.{answer}
use vibls_assignment.Strconv.Roundtrip.{codes-cat}
use vibls_assignment.Worker.Pipeline.{Call, Stages, execute, get_env, join}
use vibls_assignment.Worker.Plan.{PlanStep, problem, plan_of}
use vibls_assignment.Worker.Outcomes.{first_problem, final_error}
use vibls_assignment.Worker.Execute.{execute-Finished}
use vibls_assignment.Worker.Manifest.{manifest_data}
use vibls_assignment.Worker.Render.{
  File, output_dir, all_files, manifest_stage, manifest_stage-none,
}
use vibls_assignment.Worker.Verify.{verify_fn-passed_iff, checks_of}
use vibls_assignment.Worker.Apply.{applied, Entry, with_namespace, apply_stage}
use vibls_assignment.Worker.Applied.{patches_of, all_docs, apply_stage-none}
use vibls_assignment.Worker.Health.{Settles, check_service_endpoint, health_check-ready_iff}
use vibls_assignment.Worker.Assembly.{Surroundings, assembled}

module _ (x : Surroundings) where
  -- The calls that the pipeline makes before a stage.
  abbrev pub earlier : (String → String) → Job → ℕ → List Call
  earlier env job n = take n (map (λ (s : PlanStep). s.call) (plan_of env job))

  module _ (env : String → String) (job : Job) where
    abbrev workspace : String
    workspace = cat "/tmp/workspaces/" job.id

    abbrev manifest_dir : String
    manifest_dir = join (join workspace "manifests") job.id

    abbrev image_tag : String
    image_tag =
        cat (get_env env "CONTAINER_REGISTRY" "registry:5000")
          (cat "/" (cat job.target_namespace (cat ":" job.id)))

    -- What is true of a deployment that completes.
    pub record Deployed : Type 1 where
      pub templates : List Entry
      pub files : List File
      pub templates_listed : (x.renderer (earlier env job 3)).template_dir ≡ inr templates
      pub all_rendered :
          all_files
            (x.renderer (earlier env job 3))
            manifest_dir
            (manifest_data x.millicores job.id job.target_namespace image_tag
              job.resource_overrides)
            templates
          ≡ some files
      pub written :
          (manifest_stage
            (x.renderer (earlier env job 3))
            x.millicores
            ""
            job.id
            job.target_namespace
            image_tag
            job.resource_overrides
            workspace
            []).1
          ≡ files
      pub verified :
          let checks =
            checks_of
              (x.tools (earlier env job 4))
              x.floats
              x.documents
              x.decode_resources
              (x.directory (earlier env job 4))
              manifest_dir
              image_tag in
          (0 < counted checks) × (counted checks ≤ 2 * succeeded checks)
      pub entries : List Entry
      pub found : (x.cluster (earlier env job 5) manifest_dir).read_dir ≡ answer entries
      pub changed :
          let c = x.cluster (earlier env job 5) manifest_dir in
          (apply_stage c job.target_namespace []).1
          ≡ with_namespace c job.target_namespace []
            ++ map
                (λ p. applied p)
                (patches_of c job.target_namespace (all_docs c job.target_namespace entries))
      pub settled : Settles (x.polls (earlier env job 6) job.target_namespace)
      pub reachable :
          (check_service_endpoint (x.services (earlier env job 6) job.target_namespace)).0 ≡ true

    -- No step of a plan has a problem.
    abbrev AllFine : Stages → List PlanStep → List Call → Type 0
    AllFine f [] calls = Unit
    AllFine f (s ∷ ss) calls =
        (problem f s.kind calls s.call ≡ none) × AllFine f ss (calls ++ s.call ∷ [])

    first_problem-AllFine :
        (f : Stages) (ss : List PlanStep) (calls : List Call)
        → first_problem f ss calls ≡ none
        → AllFine f ss calls
    first_problem-AllFine f [] calls h = tt
    first_problem-AllFine f (s ∷ ss) calls h = elim (Option-cases (problem f s.kind calls s.call)) [
      | inl fine ↦
          (fine, first_problem-AllFine f ss (calls ++ s.call ∷ []) (rw (fine, first_problem) at h))
      | inr (message, bad) ↦ ground (arith, h, bad)
    ]

    ready_of :
        (ready : Bool) (message : String)
        → (if ready then none else some message) ≡ none
        → ready ≡ true
    ready_of true message h = refl
    ready_of false message h = cc

    final_error-none : (v : Option (PipelineStage × String)) → final_error v ≡ none → v ≡ none
    final_error-none none h = refl
    final_error-none (some (stage, message)) h = cc

    begins : codes "/tmp/workspaces/" ++ codes job.id ≢ []
    begins h = cc

    -- The stage writes to the directory that Execute hands on.
    output_dir-manifest_dir : output_dir "" workspace job.id ≡ manifest_dir
    output_dir-manifest_dir = elim (Bool-cases (workspace == "")) [
      | inr given ↦ rw given refl
      | inl unset ↦ absurd (
          begins
            (sym (codes-cat "/tmp/workspaces/" job.id) ∙ ap codes ((eq_iff workspace "").0 unset)))
    ]

    -- Calm, for a job with a valid id whose target has no other queued or running job, and with
    -- the stages of the worker: if Execute returns no error, every template was rendered and
    -- written to the directory of manifests, at least half of the counted checks of the
    -- verification passed and one was counted, all patches of the documents in that directory
    -- were applied in order, and the health check found all pods ready, in a turn of its loop that
    -- began before its deadline, and a service with an address.
    pub execute-Deployed :
        (p : Platform) (t : Tables)
        → Runs p job.id t
        → (execute p env (assembled x) job (record { world = calm t; calls = [] })).0 ≡ none
        → Deployed
    unfolding assembled
    execute-Deployed p t r returned =
        let e = execute-Finished p env (assembled x) job t r in
        let fine =
          final_error-none (first_problem (assembled x) (plan_of env job) [])
            (sym e.error ∙ returned) in
        let (cloned, (built, (pushed, (generated, (checked, (patched, (healthy, _))))))) =
          first_problem-AllFine (assembled x) (plan_of env job) [] fine in
        let made =
          manifest_stage (x.renderer (earlier env job 3)) x.millicores "" job.id
            job.target_namespace image_tag job.resource_overrides workspace [] in
        let (templates, files, directory, listed, rendered, written) =
          manifest_stage-none (x.renderer (earlier env job 3)) x.millicores "" job.id
            job.target_namespace image_tag job.resource_overrides workspace [] made.1
            (ap (λ (o : Option String). (o, made.1)) generated) in
        let (entries, found, changed) =
          apply_stage-none (x.cluster (earlier env job 5) manifest_dir) job.target_namespace []
            patched in
        let (_, in_time, reachable) =
          (health_check-ready_iff (x.config_error (earlier env job 6)) "2m0s"
              (x.polls (earlier env job 6) job.target_namespace)
              (x.services (earlier env job 6) job.target_namespace)).0
            (ready_of _ _ healthy) in
        record {
          templates = templates;
          files = files;
          templates_listed = listed;
          all_rendered =
              ap
                (λ (d : String).
                  all_files (x.renderer (earlier env job 3)) d
                    (manifest_data x.millicores job.id job.target_namespace image_tag
                      job.resource_overrides)
                    templates)
                (sym output_dir-manifest_dir)
              ∙ rendered;
          written = written;
          verified =
              (verify_fn-passed_iff (x.tools (earlier env job 4)) x.floats x.documents
                  x.decode_resources (x.directory (earlier env job 4)) manifest_dir image_tag).0
                checked;
          entries = entries;
          found = found;
          changed = changed;
          settled = in_time;
          reachable = reachable;
        }
