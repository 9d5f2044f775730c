-- ===== src/Examples/Checks.antt =====
-- The heuristic checks on one manifest with one container.
use vibls_assignment.Common.{
  some, ℕ, ◌*◌, ◌/◌, ◌≤◌, ◌<◌, String, ◌≡◌, ◌↔◌, Bool, true, false, none, List, [], ◌∷◌, ◌==◌, eqb,
  if◌then◌else◌, is_empty, All,
}
use vibls_assignment.Common.Text.{Bytes, codes}
use mathlib.Core.Path.{refl}
use vibls_assignment.Job.{pos, ResourceOverrides, ℤ, negsuc}
use vibls_assignment.Strconv.{parse_int}
use vibls_assignment.Verification.Score.{
  HeuristicCheck, verdict_of, counted, succeeded, verdict_of-passed,
}
use vibls_assignment.Verification.Yaml.{Answer, answer, Directory, manifests}
use vibls_assignment.Verification.Quantities.{Floats}
use vibls_assignment.Verification.Scans.{Tools}
use vibls_assignment.Verification.Resources.{ResourceContainer, ResourceDoc}
use vibls_assignment.Verification.Governed.{FileLabelled, check_opa_pipeline-passed_iff}
use vibls_assignment.Worker.Manifest.{manifest_data, container_of, manifest_data-Within}
use vibls_assignment.Worker.Verify.{verify_fn, verify_fn-passed_iff, checks_of}
use vibls_assignment.Worker.Plan.{verdict_message}
use vibls_assignment.Verification.Labels.{check_opa_pipeline, Documents, no_fields}
use vibls_assignment.Verification.Bounds.{Within}

abbrev check : Bool → String → HeuristicCheck
check passed detail = record { name = "check"; passed = passed; detail = codes detail }

-- One of two checks passed, and a third is not counted.
abbrev three_checks : List HeuristicCheck
three_checks = check true "fine" ∷ check false "2 issues" ∷ check false "trivy not installed" ∷ []

verdict_of-passed_example :
    ((verdict_of three_checks).score ≡ (
      if eqb (counted three_checks) 0
      then 0
      else succeeded three_checks * 100 / counted three_checks))
    × ((verdict_of three_checks).score ≤ 100)
    × (((verdict_of three_checks).passed ≡ true)
        ↔ ((0 < counted three_checks) × (counted three_checks ≤ 2 * succeeded three_checks)))
verdict_of-passed_example = verdict_of-passed three_checks

abbrev pub tools : Tools
tools = record {
  installed = λ name. false;
  run = λ args. record { stdout = []; stderr = []; error = none };
  decode_trivy = λ text. answer [];
  elapsed = λ name. codes "1ms";
}

abbrev pub whole_numbers : Floats
whole_numbers = record {
  Float = ℤ;
  parse_float = parse_int;
  rounded_times = λ v k. v;
  whole = λ v. v;
}

abbrev container : ResourceContainer
container = record {
  name = codes "app";
  requests = record { cpu = codes "500m"; memory = [] };
  limits = record { cpu = codes "400m"; memory = [] };
}

abbrev pub directory : Directory
directory = record {
  glob = λ pattern. answer (if pattern == "*.yaml" then codes "d.yaml" ∷ [] else []);
  read_file = λ file. answer (codes "kind: Deployment");
  name = codes "manifests";
}

abbrev pub decode : Bytes → Answer ResourceDoc
decode text =
    answer
      (record { kind = "Deployment"; metadata_name = codes "app"; containers = container ∷ [] })

abbrev pub documents : Documents
documents = record { decode = λ text. answer no_fields; base = λ file. file; quote = λ text. text }

verify_fn-passed_iff_example :
    (verdict_message (verify_fn tools whole_numbers documents decode (λ d. directory) "m" "i")
      ≡ none)
    ↔ ((0 < counted (checks_of tools whole_numbers documents decode (λ d. directory) "m" "i"))
        × (counted (checks_of tools whole_numbers documents decode (λ d. directory) "m" "i")
            ≤ 2
              * succeeded
                  (checks_of tools whole_numbers documents decode (λ d. directory) "m" "i")))
verify_fn-passed_iff_example =
    verify_fn-passed_iff tools whole_numbers documents decode (λ d. directory) "m" "i"

check_opa_pipeline-passed_iff_example :
    ((check_opa_pipeline tools documents directory).passed ≡ true) ↔ (
      (is_empty (manifests directory) ≡ false)
      × All (λ f. FileLabelled documents (directory.read_file f)) (manifests directory))
check_opa_pipeline-passed_iff_example = check_opa_pipeline-passed_iff tools documents directory

abbrev times : ℤ → ℕ → ℤ
times (pos n) k = pos (n * k)
times (negsuc n) k = negsuc n

-- Numbers without a fraction.
abbrev pub whole_bytes : Floats
whole_bytes = record whole_numbers { rounded_times = times }

abbrev one_cpu : ResourceOverrides
one_cpu = record { cpu_cores = some 1; memory_mb = none; replicas = some (pos 2) }

parsed_low : parse_int (codes "128") ≡ some (pos 128)
unfolding parse_int
parsed_low = refl

parsed_high : parse_int (codes "256") ≡ some (pos 256)
unfolding parse_int
parsed_high = refl

manifest_data-Within_example :
    Within whole_bytes
      (container_of (manifest_data (λ c. pos 250) "id" "sandbox" "image" (some one_cpu)))
manifest_data-Within_example =
    manifest_data-Within whole_bytes (λ c. pos 250) "id" "sandbox" "image" (some one_cpu) (pos 128)
      (pos 256) parsed_low parsed_high refl refl
