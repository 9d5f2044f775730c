-- ===== src/Worker/Commands.antt =====
-- internal/worker/clone.go, build.go and push.go: the stages that run git and docker. The file
-- system, git and docker are outside; a stage answers with the text of its error or nil, and with
-- the calls that it made.
use vibls_assignment.Common.{
  ℕ, String, Bool, true, Option, none, some, List, [], ◌∷◌, ◌++◌, ◌==◌, if◌then◌else◌,
}
use vibls_assignment.Common.Text.{cat}

-- What a stage asks of its surroundings.
pub data Action : Type 0 where
  remove_all : (path : String) → Action
  make_dir : (path : String) → Action
  plain_clone :
      (workspace url : String) (depth : ℕ) (single_branch : Bool) (reference_name : Option String)
      → Action
  docker : (args : List String) (workdir : String) → Action
  read_templates : Action
  write_file : (path content : String) → Action

-- The answer to an action, given those made before: an error's text, and what a command wrote.
pub record Reply : Type 0 where
  pub error : Option String
  pub output : String

-- The surroundings; `trim_space` is strings.TrimSpace on a text.
pub record Machine : Type 0 where
  pub reply : List Action → Action → Reply
  pub trim_space : String → String

abbrev pub StageRun : Type 0
StageRun = Option String × List Action

-- One action after those made before; an error ends the stage with a prefix.
abbrev pub act_then : Machine → String → Action → (List Action → StageRun) → List Action → StageRun
act_then m prefix a k before = elim (m.reply before a).error [
  | some e ↦ (some (cat prefix e), before ++ a ∷ [])
  | none ↦ k (before ++ a ∷ [])
]

abbrev pub done : List Action → StageRun
done actions = (none, actions)

abbrev or_join : String → String → String → String
or_join base job_id workspace = if workspace == "" then cat base (cat "/" job_id) else workspace

abbrev branch_reference : String → Option String
branch_reference branch = if branch == "" then none else some (cat "refs/heads/" branch)

-- NewCloneStage(workspaceBase).
unfoldable pub clone_stage :
    Machine → (workspace_base job_id repo_url branch workspace : String) → List Action → StageRun
clone_stage m workspace_base job_id repo_url branch workspace =
    let base = if workspace_base == "" then "/tmp/deploy-api/workspaces" else workspace_base in
    let dir = or_join base job_id workspace in
    act_then m "clean workspace: " (remove_all dir) (
      act_then m "create workspace: " (make_dir dir)
        (act_then m "git clone: " (plain_clone dir repo_url 1 true (branch_reference branch)) done))

abbrev flag : String → String → List String
flag name value = if value == "" then [] else name ∷ value ∷ []

unfoldable pub build_args : (build_ctx dockerfile tag : String) → List String
build_args build_ctx dockerfile tag =
    ("build" ∷ []) ++ flag "-f" dockerfile ++ flag "-t" tag ++ build_ctx ∷ []

-- `failed: e`, and the command's output on a line of its own.
abbrev docker_then : Machine → String → Action → List Action → StageRun
docker_then m prefix a before =
    let r = m.reply before a in
    elim r.error [
      | some e ↦
          (some (cat prefix (cat e (cat "\noutput: " (m.trim_space r.output)))), before ++ a ∷ [])
      | none ↦ done (before ++ a ∷ [])
    ]

unfoldable pub build_stage :
    Machine → (job_id build_ctx dockerfile tag workspace : String) → List Action → StageRun
build_stage m job_id build_ctx dockerfile tag workspace =
    docker_then m "docker build failed: " (docker (build_args build_ctx dockerfile tag) workspace)

unfoldable pub push_stage : Machine → (tag : String) → List Action → StageRun
push_stage m tag before =
    if tag == ""
    then (some "tag is required for docker push", before)
    else docker_then m "docker push failed: " (docker ("push" ∷ tag ∷ []) "") before
