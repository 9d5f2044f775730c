-- ===== src/Worker/Apply.antt =====
-- internal/worker/apply.go: the documents of the manifests are applied one by one. The clients of
-- Kubernetes, the decoder of objects and the file system are outside.
use vibls_assignment.Common.{
  String, Bool, not, ◌&&◌, ◌||◌, Option, none, some, List, [], ◌∷◌, ◌++◌, map, ◌==◌, if◌then◌else◌,
  keep, is_empty,
}
use vibls_assignment.Common.Text.{Bytes, codes, cat, has_suffix}
use vibls_assignment.Verification.Yaml.{separator, Answer, answer, refusal, split_from}
use vibls_assignment.Strconv.{trim_space}

-- What the decoder makes of a document: an object of some kind, with its name and its namespace
-- as the document has them ("" if it has none), and whether obj.MarshalJSON works.
pub record Object : Type 0 where
  pub kind : Option String  -- `none` is a nil gvk
  pub api_version : String  -- the group and the version
  pub name : String
  pub namespace : String
  pub json : String
  pub marshal_error : Option String

-- A server-side apply by the field manager "deploy-api"; no namespace for a resource of the
-- cluster.
pub record Patch : Type 0 where
  pub kind : String
  pub api_version : String
  pub name : String
  pub namespace : Option String
  pub body : String

-- What changes in the cluster.
pub data Change : Type 0 where
  created : (namespace : String) → Change
  applied : Patch → Change

pub record Entry : Type 0 where
  pub name : Bytes
  pub is_dir : Bool

-- What RESTMapping says of a kind: unknown, or whether its resources live in a namespace.
pub data Mapping : Type 0 where
  unknown_kind : Mapping
  namespaced : Mapping
  cluster_wide : Mapping

pub record Cluster : Type 1 where
  pub setup_error : Option String  -- the configuration or a client cannot be made
  pub has_clientset : Bool  -- kubernetes.NewForConfig works
  pub has_namespace : Bool  -- the namespace is found
  pub can_create : Bool  -- the namespace can be created
  pub read_dir : Answer (List Entry)
  pub read_error : Bytes → String  -- read manifest dir …: the error
  pub read_file : Bytes → Option Bytes
  pub decode : Bytes → Option Object
  pub mapping : (api_version kind : String) → Mapping
  pub patch : List Change → Patch → Option String  -- the error, given what was applied before

abbrev pub Applied : Type 0
Applied = Option String × List Change

-- filepath.Ext is ".yaml" or ".yml": the last dot of a name in a directory begins the extension.
abbrev pub is_manifest : Entry → Bool
is_manifest e =
    not e.is_dir && (has_suffix e.name (codes ".yaml") || has_suffix e.name (codes ".yml"))

unfoldable pub split_yaml : Bytes → List Bytes
unfolding split_from
split_yaml data_bytes =
    let docs =
      keep (λ d. not (is_empty d)) (map trim_space (split_from separator 0 [] data_bytes)) in
    if is_empty docs then trim_space data_bytes ∷ [] else docs

abbrev pub go_on : (List Change → Applied) → Applied → Applied
go_on k (some e, before) = (some e, before)
go_on k (none, before) = k before

abbrev pub docs_of : Option Bytes → List Bytes
docs_of none = []
docs_of (some text) = split_yaml text

module _ (c : Cluster) (namespace : String) where
  abbrev target_of : Object → String
  target_of o = if o.namespace == "" then namespace else o.namespace

  abbrev patch_to : Option String → String → Object → Patch
  patch_to target kind o = record {
    kind = kind;
    api_version = o.api_version;
    name = o.name;
    namespace = target;
    body = o.json;
  }

  abbrev patch_of : String → Object → Mapping → Option Patch
  patch_of kind o unknown_kind = none
  patch_of kind o namespaced = some (patch_to (some (target_of o)) kind o)
  patch_of kind o cluster_wide = some (patch_to none kind o)

  -- The patch that an object asks for, if its document is not skipped.
  abbrev pub wanted : Option Object → Option (Object × Patch)
  wanted none = none
  wanted (some o) = elim o.kind [
    | none ↦ none
    | some kind ↦
        if o.name == "" then none else elim (patch_of kind o (c.mapping o.api_version kind)) [
          | none ↦ none
          | some p ↦ some (o, p)
        ]
  ]

  abbrev of_patch : String → Patch → String → String
  of_patch verb p e = cat verb (cat p.kind (cat "/" (cat p.name (cat ": " e))))

  -- One document: skipped, refused with an error, or applied.
  abbrev pub apply_one : Option (Object × Patch) → List Change → Applied
  apply_one none before = (none, before)
  apply_one (some (o, p)) before = elim o.marshal_error [
    | some e ↦ (some (of_patch "marshal " p e), before)
    | none ↦ elim (c.patch before p) [
      | some e ↦ (some (of_patch "apply " p e), before)
      | none ↦ (none, before ++ applied p ∷ [])
    ]
  ]

  unfoldable pub apply_docs : List Bytes → List Change → Applied
  apply_docs [] before = (none, before)
  apply_docs (d ∷ ds) before = go_on (apply_docs ds) (apply_one (wanted (c.decode d)) before)

  unfoldable pub apply_entries : List Entry → List Change → Applied
  apply_entries [] before = (none, before)
  apply_entries (e ∷ es) before =
      if is_manifest e
      then go_on (apply_entries es) (apply_docs (docs_of (c.read_file e.name)) before)
      else apply_entries es before

  -- The namespace is created if it is not found; an error of that is only logged.
  abbrev pub with_namespace : List Change → List Change
  with_namespace before =
      if c.has_clientset && (not c.has_namespace && c.can_create)
      then before ++ created namespace ∷ []
      else before

  -- The function that NewApplyStage returns.
  unfoldable pub apply_stage : List Change → Applied
  unfolding apply_entries
  apply_stage before = elim c.setup_error [
    | some e ↦ (some e, before)
    | none ↦ elim c.read_dir [
      | refusal e ↦ (some (c.read_error e), with_namespace before)
      | answer entries ↦ apply_entries entries (with_namespace before)
    ]
  ]
