-- ===== src/Verification/Governed.antt =====
-- What a passed checkOPAPipeline of internal/verification/heuristic.go guarantees.
use vibls_assignment.Common.{
  ℕ, ◌+◌, ◌≡◌, refl, ◌≢◌, ◌↔◌, inl, inr, true, false, Option, none, some, List, [], ◌∷◌, arith,
  Bool-cases, is_empty, All,
}
use vibls_assignment.Common.Text.{Bytes, codes, bytes_eq_iff}
use vibls_assignment.Verification.Yaml.{
  Answer, answer, refusal, split_yaml_documents, Directory, manifests,
}
use vibls_assignment.Verification.Scans.{Tools}
use vibls_assignment.Verification.Labels.{
  no_fields, field, Yaml, Fields, lookup, submapping, text_value, Documents, label_failures,
  labels_failures, metadata_failures, document_failures, documents_failures, file_label_failures,
  opa_failures, opa_report, check_opa_pipeline,
}
use vibls_assignment.Verification.Bounds.{append-none, concat_map-none}

-- Both labels are there, and the second has its value.
abbrev pub Labelled : Fields → Type 0
Labelled labels =
    (lookup "app" labels ≢ none)
    × ((v : Yaml) × (lookup "managed-by" labels ≡ some v) × (text_value v ≡ codes "deploy-api"))

abbrev pub MetadataLabelled : Option Fields → Type 0
MetadataLabelled none = ⊥
MetadataLabelled (some labels) = Labelled labels

abbrev pub DocumentLabelled : Option Fields → Type 0
DocumentLabelled none = ⊥
DocumentLabelled (some metadata) = MetadataLabelled (submapping (lookup "labels" metadata))

-- An empty document needs no labels; one that cannot be decoded is a failure.
abbrev pub AnswerLabelled : Answer Fields → Type 0
AnswerLabelled (refusal e) = ⊥
AnswerLabelled (answer no_fields) = Unit
AnswerLabelled (answer (field k v more)) =
    DocumentLabelled (submapping (lookup "metadata" (field k v more)))

abbrev pub FileLabelled : Documents → Answer Bytes → Type 0
FileLabelled docs (refusal e) = ⊥
FileLabelled docs (answer text) =
    All (λ d. AnswerLabelled (docs.decode d)) (split_yaml_documents text)

app-none :
    (docs : Documents) (file : Bytes) (i : ℕ) (v : Option Yaml)
    → (label_failures docs file i "app" "" v ≡ []) ↔ (v ≢ none)
unfolding label_failures
app-none docs file i none = (λ h. cc, λ h. absurd (h refl))
app-none docs file i (some v) = (λ h e. cc, λ h. refl)

managed_by-none :
    (docs : Documents) (file : Bytes) (i : ℕ) (v : Option Yaml)
    → (label_failures docs file i "managed-by" "deploy-api" v ≡ [])
      ↔ ((w : Yaml) × (v ≡ some w) × (text_value w ≡ codes "deploy-api"))
unfolding label_failures
managed_by-none docs file i none = (λ h. cc, λ (w, e, same). cc)
managed_by-none docs file i (some v) =
    let equal = bytes_eq_iff (text_value v) (codes "deploy-api") in
    (
      λ h. (v, refl, equal.0 (ground (arith, h))),
      λ (w, e, same). (let passed = equal.1 (cc (e, same)) in ground (arith, passed)),
    )

labels_failures-none :
    (docs : Documents) (file : Bytes) (i : ℕ) (labels : Option Fields)
    → (labels_failures docs file i labels ≡ []) ↔ MetadataLabelled labels
labels_failures-none docs file i none = (λ h. cc, λ h. absurd h)
labels_failures-none docs file i (some labels) =
    let app = app-none docs file i (lookup "app" labels) in
    let managed = managed_by-none docs file i (lookup "managed-by" labels) in
    let both =
      append-none (label_failures docs file i "app" "" (lookup "app" labels))
        (label_failures docs file i "managed-by" "deploy-api" (lookup "managed-by" labels)) in
    (λ h. (app.0 (both.0 h).0, managed.0 (both.0 h).1), λ (a, m). both.1 (app.1 a, managed.1 m))

document_failures-none :
    (docs : Documents) (file : Bytes) (i : ℕ) (d : Answer Fields)
    → (document_failures docs file i d ≡ []) ↔ AnswerLabelled d
document_failures-none docs file i (refusal e) = (λ h. cc, λ h. absurd h)
document_failures-none docs file i (answer no_fields) = (λ h. tt, λ h. refl)
document_failures-none docs file i (answer (field k v more)) =
    metadata (submapping (lookup "metadata" (field k v more)))
  where
    metadata : (m : Option Fields) → (metadata_failures docs file i m ≡ []) ↔ DocumentLabelled m
    metadata none = (λ h. cc, λ h. absurd h)
    metadata (some m) = labels_failures-none docs file i (submapping (lookup "labels" m))

documents_failures-none :
    (docs : Documents) (file : Bytes) (i : ℕ) (ds : List Bytes)
    → (documents_failures docs file i ds ≡ []) ↔ All (λ d. AnswerLabelled (docs.decode d)) ds
documents_failures-none docs file i [] = (λ h. tt, λ h. refl)
documents_failures-none docs file i (d ∷ ds) =
    let one = document_failures-none docs file i (docs.decode d) in
    let rest = documents_failures-none docs file (i + 1) ds in
    let both =
      append-none (document_failures docs file i (docs.decode d))
        (documents_failures docs file (i + 1) ds) in
    (λ h. (one.0 (both.0 h).0, rest.0 (both.0 h).1), λ (a, b). both.1 (one.1 a, rest.1 b))

file_label_failures-none :
    (docs : Documents) (file : Bytes) (read : Answer Bytes)
    → (file_label_failures docs file read ≡ []) ↔ FileLabelled docs read
file_label_failures-none docs file (refusal e) = (λ h. cc, λ h. absurd h)
file_label_failures-none docs file (answer text) =
    documents_failures-none docs file 0 (split_yaml_documents text)

opa_report-passed_iff :
    (tools : Tools) (failures : List Bytes)
    → ((opa_report tools failures).passed ≡ true) ↔ (failures ≡ [])
opa_report-passed_iff tools [] = (λ h. refl, λ h. refl)
opa_report-passed_iff tools (e ∷ es) = (λ h. cc, λ h. cc)

-- The check of labels passes exactly if a manifest is found, every manifest can be read, and each
-- of their documents can be decoded and is empty or has the label "app" and the label
-- "managed-by" with the text "deploy-api".
pub check_opa_pipeline-passed_iff :
    (tools : Tools) (docs : Documents) (dir : Directory)
    → ((check_opa_pipeline tools docs dir).passed ≡ true) ↔ (
        (is_empty (manifests dir) ≡ false)
        × All (λ f. FileLabelled docs (dir.read_file f)) (manifests dir))
unfolding check_opa_pipeline opa_failures
check_opa_pipeline-passed_iff tools docs dir =
    let all =
      concat_map-none (λ f. file_label_failures docs f (dir.read_file f))
        (λ f. FileLabelled docs (dir.read_file f))
        (λ f. file_label_failures-none docs f (dir.read_file f)) (manifests dir) in
    elim (Bool-cases (is_empty (manifests dir))) [
      | inl none_there ↦ ground (arith, none_there)
      | inr some_there ↦
          let report = opa_report-passed_iff tools (opa_failures docs dir) in
          ground (arith, some_there, report, all)
    ]
