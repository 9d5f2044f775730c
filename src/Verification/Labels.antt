-- ===== src/Verification/Labels.antt =====
-- checkOPAPipeline of internal/verification/heuristic.go, which looks for two labels in each
-- document, and RunHeuristicVerification, which runs the four checks. The YAML decoder and Go's %q
-- are parameters.
use vibls_assignment.Common.{
  ℕ, ◌+◌, String, Option, none, some, List, [], ◌∷◌, ◌++◌, ◌==◌, if◌then◌else◌, length, is_empty,
}
use vibls_assignment.Common.Text.{Bytes, codes, decimal, bytes_eq}
use vibls_assignment.Verification.Score.{HeuristicCheck, HeuristicVerdict, verdict_of}
use vibls_assignment.Verification.Yaml.{
  Answer, answer, refusal, split_yaml_documents, Directory, manifests, none_found,
}
use vibls_assignment.Verification.Quantities.{Floats}
use vibls_assignment.Verification.Scans.{
  Tools, failed_check, passed_check, took, check_kubeconform, check_trivy_scan,
}
use vibls_assignment.Verification.Resources.{
  ResourceDoc, concat_map, join_texts, check_resource_bounds,
}

-- What yaml.Unmarshal makes of a document, as far as the check tells it apart.
mutual
  pub data Yaml : Type 0 where
    scalar_text : Bytes → Yaml
    mapping : Fields → Yaml
    other_yaml : Yaml

  pub data Fields : Type 0 where
    no_fields : Fields
    field : String → Yaml → Fields → Fields

abbrev pub lookup : String → Fields → Option Yaml
lookup key no_fields = none
lookup key (field k v more) = if k == key then some v else lookup key more

-- doc[key].(map[string]interface{})
abbrev pub submapping : Option Yaml → Option (Fields)
submapping none = none
submapping (some (scalar_text s)) = none
submapping (some (mapping m)) = some m
submapping (some other_yaml) = none

-- val.(string), "" if it is none.
abbrev pub text_value : Yaml → Bytes
text_value (scalar_text s) = s
text_value (mapping m) = []
text_value other_yaml = []

-- The decoder for map[string]interface{} and the printers that the details use.
pub record Documents : Type 1 where
  pub decode : Bytes → Answer (Fields)
  pub base : Bytes → Bytes
  pub quote : Bytes → Bytes

abbrev at_doc : Documents → Bytes → ℕ → Bytes → Bytes
at_doc docs file i message =
    docs.base file ++ codes " doc " ++ codes (decimal i) ++ codes ": " ++ message

abbrev expected : Documents → Bytes → ℕ → String → String → Bytes → List Bytes
expected docs file i key value got =
    at_doc docs file i (
      codes "label "
      ++ docs.quote (codes key)
      ++ codes " expected "
      ++ docs.quote (codes value)
      ++ codes ", got "
      ++ docs.quote got)
    ∷ []

-- One required label; no value means any.
unfoldable pub label_failures : Documents → Bytes → ℕ → String → String → Option Yaml → List Bytes
label_failures docs file i key value none =
    at_doc docs file i (codes "missing label " ++ docs.quote (codes key)) ∷ []
label_failures docs file i key value (some v) =
    if value == ""
    then []
    else (if bytes_eq (text_value v) (codes value)
        then []
        else expected docs file i key value (text_value v))

abbrev pub labels_failures : Documents → Bytes → ℕ → Option (Fields) → List Bytes
labels_failures docs file i none = at_doc docs file i (codes "missing metadata.labels") ∷ []
labels_failures docs file i (some labels) =
    label_failures docs file i "app" "" (lookup "app" labels)
    ++ label_failures docs file i "managed-by" "deploy-api" (lookup "managed-by" labels)

abbrev pub metadata_failures : Documents → Bytes → ℕ → Option (Fields) → List Bytes
metadata_failures docs file i none = at_doc docs file i (codes "missing metadata section") ∷ []
metadata_failures docs file i (some metadata) =
    labels_failures docs file i (submapping (lookup "labels" metadata))

abbrev pub document_failures : Documents → Bytes → ℕ → Answer (Fields) → List Bytes
document_failures docs file i (refusal e) = at_doc docs file i (codes "cannot parse: " ++ e) ∷ []
document_failures docs file i (answer no_fields) = []
document_failures docs file i (answer (field k v more)) =
    metadata_failures docs file i (submapping (lookup "metadata" (field k v more)))

abbrev pub documents_failures : Documents → Bytes → ℕ → List Bytes → List Bytes
documents_failures docs file i [] = []
documents_failures docs file i (d ∷ ds) =
    document_failures docs file i (docs.decode d) ++ documents_failures docs file (i + 1) ds

abbrev pub file_label_failures : Documents → Bytes → Answer Bytes → List Bytes
file_label_failures docs file (refusal e) =
    (codes "cannot read " ++ docs.base file ++ codes ": " ++ e) ∷ []
file_label_failures docs file (answer text) =
    documents_failures docs file 0 (split_yaml_documents text)

unfoldable pub opa_failures : Documents → Directory → List Bytes
unfolding label_failures
opa_failures docs dir =
    concat_map (λ f. file_label_failures docs f (dir.read_file f)) (manifests dir)

abbrev pub opa_report : Tools → List Bytes → HeuristicCheck
opa_report tools [] =
    passed_check "opa_pipeline"
      (codes "all manifests have required labels" ++ took tools "opa_pipeline")
opa_report tools (e ∷ es) = failed_check "opa_pipeline" (
    codes (decimal (length (e ∷ es)))
    ++ codes " label issues found: "
    ++ join_texts (codes "; ") (e ∷ es)
    ++ took tools "opa_pipeline")

unfoldable pub check_opa_pipeline : Tools → Documents → Directory → HeuristicCheck
check_opa_pipeline tools docs dir =
    if is_empty (manifests dir)
    then failed_check "opa_pipeline" (none_found dir)
    else opa_report tools (opa_failures docs dir)

unfoldable pub run_heuristic_verification :
    Tools → Floats → Documents → (Bytes → Answer ResourceDoc) → Directory → Bytes → HeuristicVerdict
run_heuristic_verification tools fl docs decode dir image = verdict_of (
    check_kubeconform tools dir
    ∷ check_opa_pipeline tools docs dir
    ∷ check_trivy_scan tools image
    ∷ check_resource_bounds tools fl docs.base decode dir
    ∷ [])
