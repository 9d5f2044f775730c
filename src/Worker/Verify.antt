-- ===== src/Worker/Verify.antt =====
-- internal/worker/verify.go: the verification stage of the pipeline is the heuristic verification.
use vibls_assignment.Common.{◌*◌, ◌≤◌, ◌<◌, String, ◌≡◌, ◌↔◌, none, List, [], ◌∷◌, arith}
use vibls_assignment.Common.Text.{Bytes, codes}
use vibls_assignment.Worker.Pipeline.{Checked, verdict}
use vibls_assignment.Worker.Plan.{verdict_message}
use vibls_assignment.Verification.Score.{HeuristicCheck, counted, succeeded, verdict_of-passed}
use vibls_assignment.Verification.Yaml.{Answer, Directory}
use vibls_assignment.Verification.Quantities.{Floats}
use vibls_assignment.Verification.Scans.{Tools, check_kubeconform, check_trivy_scan}
use vibls_assignment.Verification.Resources.{ResourceDoc, check_resource_bounds}
use vibls_assignment.Verification.Labels.{Documents, check_opa_pipeline, run_heuristic_verification}

module _ (tools : Tools) (fl : Floats) (docs : Documents) (decode : Bytes → Answer ResourceDoc)
    (directory : String → Directory) where
  -- The four checks of one verification.
  abbrev pub checks_of : String → String → List HeuristicCheck
  checks_of manifest_dir image_tag =
      check_kubeconform tools (directory manifest_dir)
      ∷ check_opa_pipeline tools docs (directory manifest_dir)
      ∷ check_trivy_scan tools (codes image_tag)
      ∷ check_resource_bounds tools fl docs.base decode (directory manifest_dir)
      ∷ []

  -- NewVerifyStage; there is no AI verdict.
  unfoldable pub verify_fn : String → String → Checked
  verify_fn manifest_dir image_tag =
      let heuristic =
        run_heuristic_verification tools fl docs decode (directory manifest_dir)
          (codes image_tag) in
      verdict (record { summary = heuristic.summary; overall_pass = heuristic.passed })

  -- The verification stage lets the pipeline go on exactly if one of the four checks is counted and
  -- at least half of the counted checks passed.
  pub verify_fn-passed_iff :
      (manifest_dir image_tag : String)
      → (verdict_message (verify_fn manifest_dir image_tag) ≡ none) ↔ (
          (0 < counted (checks_of manifest_dir image_tag))
          × (counted (checks_of manifest_dir image_tag)
              ≤ 2 * succeeded (checks_of manifest_dir image_tag)))
  unfolding verify_fn run_heuristic_verification
  verify_fn-passed_iff manifest_dir image_tag =
      let (score, cap, half) = verdict_of-passed (checks_of manifest_dir image_tag) in
      ground (arith, half)
