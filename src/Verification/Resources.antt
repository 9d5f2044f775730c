-- ===== src/Verification/Resources.antt =====
-- checkResourceBounds of internal/verification/heuristic.go: no container requests more than its
-- limit. The YAML decoder is a parameter; it answers the partial document that the code declares.
use vibls_assignment.Common.{
  String, Bool, true, false, not, ◌&&◌, ◌||◌, Option, none, some, List, [], ◌∷◌, ◌++◌, ◌==◌,
  if◌then◌else◌, length, is_empty,
}
use vibls_assignment.Common.Text.{Bytes, codes, decimal}
use vibls_assignment.Verification.Score.{HeuristicCheck}
use vibls_assignment.Verification.Yaml.{
  Answer, answer, refusal, split_yaml_documents, Directory, manifests, none_found,
}
use vibls_assignment.Verification.Quantities.{Floats, parse_cpu, parse_memory}
use vibls_assignment.Verification.Scans.{Tools, failed_check, passed_check, took}
use vibls_assignment.Job.{ℤ}
use vibls_assignment.Strconv.{int_gt}

pub record ResourceValues : Type 0 where
  pub cpu : Bytes
  pub memory : Bytes

pub record ResourceContainer : Type 0 where
  pub name : Bytes
  pub requests : ResourceValues
  pub limits : ResourceValues

-- resourceDoc, with the containers of spec.template.spec.
pub record ResourceDoc : Type 0 where
  pub kind : String
  pub metadata_name : Bytes
  pub containers : List ResourceContainer

-- Both values are given and can be read, and the request is the larger one.
abbrev pub exceeds : (Bytes → Option ℤ) → Bytes → Bytes → Bool
exceeds parse request limit =
    not (is_empty request) && (not (is_empty limit) && larger (parse request) (parse limit))
  where
    larger : Option ℤ → Option ℤ → Bool
    larger none l = false
    larger (some r) none = false
    larger (some r) (some l) = int_gt r l

abbrev violation : String → Bytes → ResourceContainer → Bytes → Bytes → Bytes
violation what doc_name c request limit =
    doc_name
    ++ codes "/"
    ++ c.name
    ++ codes ": "
    ++ codes what
    ++ codes " request ("
    ++ request
    ++ codes ") exceeds limit ("
    ++ limit
    ++ codes ")"

abbrev one_if : Bool → Bytes → List Bytes
one_if true e = e ∷ []
one_if false e = []

abbrev pub no_values : ResourceContainer → Bool
no_values c =
    is_empty c.requests.cpu
    && (is_empty c.requests.memory && (is_empty c.limits.cpu && is_empty c.limits.memory))

unfoldable pub container_failures : Floats → Bytes → ResourceContainer → List Bytes
container_failures fl doc_name c =
    if no_values c
    then []
    else one_if (exceeds (parse_cpu fl) c.requests.cpu c.limits.cpu)
        (violation "cpu" doc_name c c.requests.cpu c.limits.cpu)
      ++ one_if (exceeds (parse_memory fl) c.requests.memory c.limits.memory)
          (violation "memory" doc_name c c.requests.memory c.limits.memory)

abbrev pub concat_map : {A : Type 0} → (A → List Bytes) → List A → List Bytes
concat_map f [] = []
concat_map f (a ∷ rest) = f a ++ concat_map f rest

-- A document of no kind is taken for a workload if it has a name.
abbrev pub is_workload : ResourceDoc → Bool
is_workload d =
    (d.kind == "" && not (is_empty d.metadata_name))
    || (d.kind == "Deployment" || (d.kind == "StatefulSet" || d.kind == "DaemonSet"))

abbrev pub doc_failures : Floats → Answer ResourceDoc → List Bytes
doc_failures fl (refusal e) = []
doc_failures fl (answer d) =
    if is_workload d then concat_map (container_failures fl d.metadata_name) d.containers else []

abbrev pub file_failures :
    Floats → (Bytes → Bytes) → (Bytes → Answer ResourceDoc) → Bytes → Answer Bytes → List Bytes
file_failures fl base decode file (refusal e) =
    (codes "cannot read " ++ base file ++ codes ": " ++ e) ∷ []
file_failures fl base decode file (answer data_bytes) =
    concat_map (λ d. doc_failures fl (decode d)) (split_yaml_documents data_bytes)

-- strings.Join
abbrev pub join_texts : Bytes → List Bytes → Bytes
join_texts sep [] = []
join_texts sep (s ∷ []) = s
join_texts sep (s ∷ t ∷ more) = s ++ sep ++ join_texts sep (t ∷ more)

-- All violations, file by file; `base` is filepath.Base.
unfoldable pub resource_failures :
    Floats → (Bytes → Bytes) → (Bytes → Answer ResourceDoc) → Directory → List Bytes
unfolding container_failures
resource_failures fl base decode dir =
    concat_map (λ f. file_failures fl base decode f (dir.read_file f)) (manifests dir)

abbrev pub reported : Tools → List Bytes → HeuristicCheck
reported tools [] =
    passed_check "resource_bounds"
      (codes "all resource bounds are valid" ++ took tools "resource_bounds")
reported tools (e ∷ es) = failed_check "resource_bounds" (
    codes (decimal (length (e ∷ es)))
    ++ codes " resource bound violations: "
    ++ join_texts (codes "; ") (e ∷ es)
    ++ took tools "resource_bounds")

unfoldable pub check_resource_bounds :
    Tools → Floats → (Bytes → Bytes) → (Bytes → Answer ResourceDoc) → Directory → HeuristicCheck
check_resource_bounds tools fl base decode dir =
    if is_empty (manifests dir)
    then failed_check "resource_bounds" (none_found dir)
    else reported tools (resource_failures fl base decode dir)
