-- ===== src/Verification/Yaml.antt =====
-- Reading manifests in internal/verification/heuristic.go: collectYAMLFiles and
-- splitYAMLDocuments, and what the checks use of the machine they run on.
use vibls_assignment.Common.{
  ℕ, zero, suc, ◌-◌, String, true, false, not, List, [], ◌∷◌, ◌++◌, map, if◌then◌else◌, length,
  keep, is_empty,
}
use vibls_assignment.Common.Text.{Bytes, codes, has_prefix}
use vibls_assignment.Strconv.{trim_space}
use mathlib.Core.List.{reverse}

-- What a call outside the program answers: a value or the text of an error.
pub data Answer : Type 0 → Type 1 where
  answer : {A : Type 0} → A → Answer A
  refusal : {A : Type 0} → Bytes → Answer A

-- bytes.Split at a separator, from a place of which `skip` more bytes belong to one; `piece` is the
-- present piece, last byte first.
unfoldable pub split_from : Bytes → ℕ → Bytes → Bytes → List Bytes
split_from sep skip piece [] = reverse piece ∷ []
split_from sep (suc skip) piece (c ∷ s) = split_from sep skip piece s
split_from sep zero piece (c ∷ s) = elim (has_prefix (c ∷ s) sep) [
  | true ↦ reverse piece ∷ split_from sep (length sep - 1) [] s
  | false ↦ split_from sep zero (c ∷ piece) s
]

abbrev pub separator : Bytes
separator = 10 ∷ codes "---" ++ 10 ∷ []

unfoldable pub split_yaml_documents : Bytes → List Bytes
unfolding split_from
split_yaml_documents data_bytes =
    let docs =
      keep (λ d. not (is_empty d)) (map trim_space (split_from separator 0 [] data_bytes)) in
    if is_empty docs then trim_space data_bytes ∷ [] else docs

-- The files of a directory that match a pattern (filepath.Glob), or an error.
pub record Directory : Type 1 where
  pub glob : String → Answer (List Bytes)
  pub read_file : Bytes → Answer Bytes
  pub name : Bytes

abbrev more_files : List Bytes → Answer (List Bytes) → Answer (List Bytes)
more_files files (answer more) = answer (files ++ more)
more_files files (refusal e) = refusal e

abbrev then_yml : Directory → Answer (List Bytes) → Answer (List Bytes)
then_yml dir (answer files) = more_files files (dir.glob "*.yml")
then_yml dir (refusal e) = refusal e

unfoldable pub collect_yaml_files : Directory → Answer (List Bytes)
collect_yaml_files dir = then_yml dir (dir.glob "*.yaml")

-- The manifests, if they can be listed and there is one; all checks of manifests fail otherwise.
abbrev some_files : Answer (List Bytes) → List Bytes
some_files (answer files) = files
some_files (refusal e) = []

abbrev pub manifests : Directory → List Bytes
manifests dir = some_files (collect_yaml_files dir)

abbrev pub none_found : Directory → Bytes
none_found dir = codes "no manifest files found in " ++ dir.name
