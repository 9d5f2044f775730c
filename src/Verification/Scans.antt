-- ===== src/Verification/Scans.antt =====
-- The checks of internal/verification/heuristic.go that run a tool: checkKubeconform and
-- checkTrivyScan. The tools, the JSON decoder and the clock are parameters.
use vibls_assignment.Common.{
  ℕ, zero, suc, ◌+◌, String, Bool, true, false, not, Option, none, some, List, [], ◌∷◌, ◌++◌,
  if◌then◌else◌, length, is_empty,
}
use vibls_assignment.Common.Text.{Bytes, codes, decimal}
use vibls_assignment.Verification.Score.{HeuristicCheck}
use vibls_assignment.Verification.Yaml.{Answer, answer, refusal, Directory, manifests, none_found}
use vibls_assignment.Strconv.{trim_space}

pub record TrivyVuln : Type 0 where
  pub vulnerability_id : String
  pub severity : String

-- A run of a tool: what it wrote and the error that os/exec reports, if any.
pub record ToolRun : Type 0 where
  pub stdout : Bytes
  pub stderr : Bytes
  pub error : Option Bytes

pub record Tools : Type 1 where
  pub installed : String → Bool
  pub run : List Bytes → ToolRun
  pub decode_trivy : Bytes → Answer (List (List TrivyVuln))
  pub elapsed : String → Bytes

abbrev pub failed_check : String → Bytes → HeuristicCheck
failed_check name detail = record { name = name; passed = false; detail = detail }

abbrev pub passed_check : String → Bytes → HeuristicCheck
passed_check name detail = record { name = name; passed = true; detail = detail }

abbrev pub took : Tools → String → Bytes
took tools name = codes " (" ++ tools.elapsed name ++ codes ")"

abbrev conformed : Tools → Bytes → Option Bytes → HeuristicCheck
conformed tools output none =
    passed_check "kubeconform"
      (codes "all manifests validated successfully" ++ took tools "kubeconform")
conformed tools output (some e) =
    failed_check "kubeconform"
      (codes "validation failed: " ++ trim_space (if is_empty output then e else output))

-- CombinedOutput: both streams.
unfoldable pub check_kubeconform : Tools → Directory → HeuristicCheck
check_kubeconform tools dir =
    let files = manifests dir in
    let done = tools.run (codes "kubeconform" ∷ files) in
    if not (tools.installed "kubeconform")
    then failed_check "kubeconform" (codes "kubeconform not installed, skipping")
    else (if is_empty files
        then failed_check "kubeconform" (none_found dir)
        else conformed tools (done.stdout ++ done.stderr) done.error)

abbrev total_vulns : List (List TrivyVuln) → ℕ
total_vulns [] = 0
total_vulns (result ∷ more) = length result + total_vulns more

abbrev counted_vulns : Tools → ℕ → HeuristicCheck
counted_vulns tools zero =
    passed_check "trivy_scan"
      (codes "no critical or high vulnerabilities found" ++ took tools "trivy_scan")
counted_vulns tools (suc n) = failed_check "trivy_scan" (
    codes "found "
    ++ codes (decimal (suc n))
    ++ codes " critical/high vulnerabilities"
    ++ took tools "trivy_scan")

abbrev decoded : Tools → Answer (List (List TrivyVuln)) → HeuristicCheck
decoded tools (answer results) = counted_vulns tools (total_vulns results)
decoded tools (refusal e) = failed_check "trivy_scan" (codes "failed to parse Trivy output: " ++ e)

abbrev or_else : Bytes → Bytes → Bytes
or_else s e = if is_empty s then e else s

abbrev scanned : Tools → ToolRun → Option Bytes → HeuristicCheck
scanned tools done none = decoded tools (tools.decode_trivy done.stdout)
scanned tools done (some e) =
    failed_check "trivy_scan" (codes "scan failed: " ++ or_else (trim_space done.stderr) e)

abbrev trivy_args : Bytes → List Bytes
trivy_args image =
    codes "trivy"
    ∷ codes "image"
    ∷ codes "--severity=CRITICAL,HIGH"
    ∷ codes "--no-progress"
    ∷ codes "--format=json"
    ∷ image
    ∷ []

unfoldable pub check_trivy_scan : Tools → Bytes → HeuristicCheck
check_trivy_scan tools image =
    let done = tools.run (trivy_args image) in
    if is_empty image
    then failed_check "trivy_scan" (codes "no image tag provided, skipping")
    else (if not (tools.installed "trivy")
        then failed_check "trivy_scan" (codes "trivy not installed (optional dependency)")
        else scanned tools done done.error)
