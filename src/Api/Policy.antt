-- ===== src/Api/Policy.antt =====
-- policies/abac/authz.rego: the policy that the API loads.
use vibls_assignment.Common.{
  String, Bool, false, ◌&&◌, ◌||◌, Option, none, some, List, [], ◌∷◌, ◌==◌, if◌then◌else◌, any,
}

pub record RoleInfo : Type 0 where
  pub actions : List String
  pub namespaces : List String

unfoldable pub roles : String → Option RoleInfo
roles role =
    if role == "admin"
    then some (record {
      actions = "create_job" ∷ "list_jobs" ∷ "view_job" ∷ "delete_job" ∷ [];
      namespaces = "*" ∷ [];
    })
    else (if role == "developer"
        then some (record {
          actions = "create_job" ∷ "list_jobs" ∷ "view_job" ∷ [];
          namespaces = "sandbox" ∷ "staging" ∷ [];
        })
        else (if role == "viewer"
            then some (record { actions = "list_jobs" ∷ "view_job" ∷ []; namespaces = "*" ∷ [] })
            else none))

unfoldable pub namespace_allowed : String → List String → Bool
namespace_allowed target allowed = any (λ n. n == "*") allowed || any (λ n. target == n) allowed

unfoldable pub allow : String → String → String → Bool
unfolding roles namespace_allowed
allow role action namespace = elim (roles role) [
  | none ↦ false
  | some info ↦ any (λ a. action == a) info.actions && namespace_allowed namespace info.namespaces
]
