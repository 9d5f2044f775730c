-- ===== src/Api/Auth.antt =====
-- internal/api/middleware.go and internal/api/abac.go: who may do what.
use vibls_assignment.Common.{
  ◌⊎◌, inl, inr, ◌⊎◌, ℕ, String, Bool, true, false, ◌&&◌, Option, none, some, List, [], ◌∷◌, ◌==◌,
  leb, if◌then◌else◌, is_empty,
}
use vibls_assignment.Common.Text.{
  cat, Bytes, codes, bytes_eq, trim_prefix, contains, has_suffix, count_byte,
}

pub record HttpRequest : Type 0 where
  pub method : String
  pub route_pattern : Option String  -- chi's pattern, if there is a route context
  pub path : Bytes
  pub namespace_param : String  -- "" if it is not given
  pub authorization : Bytes  -- "" if the header is not given
  pub body : Bytes

pub record AuthzInput : Type 0 where
  pub role : String
  pub action : String
  pub namespace : String

-- The values that an evaluation of the policy can have, as far as the code looks at them.
pub data RegoValue : Type 0 where
  bool_value : Bool → RegoValue
  other_value : RegoValue

-- What the OPA engine answers: an error, or results with their expressions' values.
pub data Evaluation : Type 0 where
  eval_error : Evaluation
  results : List (List RegoValue) → Evaluation

pub data Decision : Type 0 where
  allowed : Bool → Decision
  authorize_error : Decision

abbrev first_value : List RegoValue → Decision
first_value [] = allowed false
first_value (bool_value b ∷ more) = allowed b
first_value (other_value ∷ more) = allowed false

abbrev first_result : List (List RegoValue) → Decision
first_result [] = allowed false
first_result (expressions ∷ more) = first_value expressions

unfoldable pub authorize : (AuthzInput → Evaluation) → AuthzInput → Decision
authorize eval input = elim (eval input) [
  | eval_error ↦ authorize_error
  | results r ↦ first_result r
]

-- The compiled policy.
pub record RegoEngine : Type 0 where
  pub partial : AuthzInput → Evaluation

-- `prepare` is rego.New and PrepareForEval on the policy: its error, or the query.
unfoldable pub new_rego_engine :
    (Bytes → String ⊎ (AuthzInput → Evaluation)) → Bytes → String ⊎ RegoEngine
new_rego_engine prepare policy_data = elim (prepare policy_data) [
  | inl e ↦ inl (cat "failed to prepare rego query: " e)
  | inr query ↦ inr (record { partial = query })
]

abbrev action_of_path : String → Bytes → String
action_of_path method path =
    if method == "POST" && has_suffix path (codes "/jobs")
    then "create_job"
    else (if method == "GET" && has_suffix path (codes "/jobs")
        then "list_jobs"
        else (if method == "GET" && (leb 4 (count_byte b'/' path) && contains path (codes "/jobs/"))
            then "view_job"
            else ""))

unfoldable pub resolve_action : HttpRequest → String
resolve_action r =
    let fallback = action_of_path r.method r.path in
    elim r.route_pattern [
      | none ↦ fallback
      | some pattern ↦
          if r.method == "POST" && pattern == "/api/v1/jobs"
          then "create_job"
          else (if r.method == "GET" && pattern == "/api/v1/jobs"
              then "list_jobs"
              else (if r.method == "GET" && pattern == "/api/v1/jobs/{id}"
                  then "view_job"
                  else fallback))
    ]

unfoldable pub resolve_role : Bytes → String
resolve_role auth =
    let token = trim_prefix auth (codes "Bearer ") in
    if is_empty auth
    then ""
    else (if bytes_eq token (codes "admin-token")
        then "admin"
        else (if bytes_eq token (codes "dev-token")
            then "developer"
            else (if bytes_eq token (codes "view-token") then "viewer" else "")))

-- What the middleware does with a request: it answers itself, or passes the request on.
pub data Passage : Type 0 where
  rejected : (code : ℕ) (message : String) → Passage
  passed : Passage

abbrev pub namespace_of : HttpRequest → String
namespace_of r = if r.namespace_param == "" then "sandbox" else r.namespace_param

abbrev judge : Decision → Passage
judge authorize_error = rejected 500 "authorization failed"
judge (allowed false) = rejected 403 "forbidden"
judge (allowed true) = passed

-- `none` is a nil engine.
unfoldable pub auth_middleware : Option (AuthzInput → Evaluation) → HttpRequest → Passage
unfolding authorize
auth_middleware engine r =
    let action = resolve_action r in
    let role = resolve_role r.authorization in
    if action == ""
    then rejected 400 "unknown action"
    else (if role == "" then rejected 401 "unauthorized" else elim engine [
      | none ↦ rejected 500 "authorization misconfigured"
      | some eval ↦
          judge
            (authorize eval (record { role = role; action = action; namespace = namespace_of r }))
    ])
