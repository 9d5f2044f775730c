-- ===== src/Api/Access.antt =====
-- Who gets through the middleware of internal/api/middleware.go.
use vibls_assignment.Common.{
  String, ◌≡◌, refl, ap, ◌∙◌, ◌≢◌, ◌↔◌, ◌⊎◌, inl, inr, Bool, true, false, some, [], ◌∷◌, ◌++◌,
  arith, eq_iff, if◌then◌else◌, Option-cases, is_empty,
}
use vibls_assignment.Common.Text.{
  Bytes, codes, bytes_eq, strip_prefix, trim_prefix, bytes_eq_iff, strip_prefix-eq,
}
use vibls_assignment.Api.Auth.{
  HttpRequest, AuthzInput, bool_value, Evaluation, results, resolve_action, resolve_role, passed,
  namespace_of, auth_middleware,
}
use vibls_assignment.Api.Policy.{allow}

-- A token authenticates with or without the word "Bearer ".
abbrev pub Bears : Bytes → String → Type 0
Bears auth token = (auth ≡ codes "Bearer " ++ codes token) ⊎ (auth ≡ codes token)

trim_prefix-cases :
    (prefix auth token : Bytes)
    → trim_prefix auth prefix ≡ token
    → (auth ≡ prefix ++ token) ⊎ (auth ≡ token)
trim_prefix-cases prefix auth token h = elim (Option-cases (strip_prefix prefix auth)) [
  | inl none_off ↦ inr (ground arith)
  | inr (rest, off) ↦
      let same : rest ≡ token = ground arith in
      inl (strip_prefix-eq prefix auth rest off ∙ ap (λ (b : Bytes). prefix ++ b) same)
]

abbrev chosen : Bool → Bool → Bool → Bool → String
chosen none_given admin developer viewer =
    if none_given
    then ""
    else (if admin
        then "admin"
        else (if developer then "developer" else (if viewer then "viewer" else "")))

chosen-reads :
    (e a d v : Bool)
    → (chosen e a d v ≡ "admin" → a ≡ true)
      × (chosen e a d v ≡ "developer" → d ≡ true)
      × (chosen e a d v ≡ "viewer" → v ≡ true)
chosen-reads true a d v = (λ h. cc, λ h. cc, λ h. cc)
chosen-reads false true d v = (λ h. refl, λ h. cc, λ h. cc)
chosen-reads false false true v = (λ h. cc, λ h. refl, λ h. cc)
chosen-reads false false false true = (λ h. cc, λ h. cc, λ h. refl)
chosen-reads false false false false = (λ h. cc, λ h. cc, λ h. cc)

token_of_role :
    (auth : Bytes)
    → (resolve_role auth ≡ "admin" → trim_prefix auth (codes "Bearer ") ≡ codes "admin-token")
      × (resolve_role auth ≡ "developer" → trim_prefix auth (codes "Bearer ") ≡ codes "dev-token")
      × (resolve_role auth ≡ "viewer" → trim_prefix auth (codes "Bearer ") ≡ codes "view-token")
unfolding resolve_role
token_of_role auth =
    let token = trim_prefix auth (codes "Bearer ") in
    let admin = bytes_eq token (codes "admin-token") in
    let developer = bytes_eq token (codes "dev-token") in
    let viewer = bytes_eq token (codes "view-token") in
    let (a, d, v) = chosen-reads (is_empty auth) admin developer viewer in
    (
      λ h. (bytes_eq_iff token (codes "admin-token")).0 (a h),
      λ h. (bytes_eq_iff token (codes "dev-token")).0 (d h),
      λ h. (bytes_eq_iff token (codes "view-token")).0 (v h),
    )

-- The role is "admin", "developer" or "viewer" exactly for the header of its token, with or without
-- "Bearer " before it.
pub resolve_role_iff :
    (auth : Bytes)
    → ((resolve_role auth ≡ "admin") ↔ Bears auth "admin-token")
      × ((resolve_role auth ≡ "developer") ↔ Bears auth "dev-token")
      × ((resolve_role auth ≡ "viewer") ↔ Bears auth "view-token")
unfolding resolve_role
resolve_role_iff auth =
    let (admin, developer, viewer) = token_of_role auth in
    (
      (λ h. trim_prefix-cases (codes "Bearer ") auth _ (admin h), bears_admin),
      (λ h. trim_prefix-cases (codes "Bearer ") auth _ (developer h), bears_developer),
      (λ h. trim_prefix-cases (codes "Bearer ") auth _ (viewer h), bears_viewer),
    )
  where
    bears_admin : Bears auth "admin-token" → resolve_role auth ≡ "admin"
    bears_admin (inl e) = ap resolve_role e
    bears_admin (inr e) = ap resolve_role e

    bears_developer : Bears auth "dev-token" → resolve_role auth ≡ "developer"
    bears_developer (inl e) = ap resolve_role e
    bears_developer (inr e) = ap resolve_role e

    bears_viewer : Bears auth "view-token" → resolve_role auth ≡ "viewer"
    bears_viewer (inl e) = ap resolve_role e
    bears_viewer (inr e) = ap resolve_role e

-- The engine evaluates the policy of policies/abac/authz.rego.
abbrev pub Evaluates : (AuthzInput → Evaluation) → Type 0
Evaluates eval =
    (i : AuthzInput) → eval i ≡ results ((bool_value (allow i.role i.action i.namespace) ∷ []) ∷ [])

-- With an engine that evaluates the policy, a request gets through exactly if its action and its
-- role are known and the policy allows the role that action in the namespace of the query (by
-- default "sandbox").
pub auth_middleware-passed_iff :
    (eval : AuthzInput → Evaluation) (r : HttpRequest)
    → Evaluates eval
    → (auth_middleware (some eval) r ≡ passed) ↔ (
        (resolve_action r ≢ "")
        × (resolve_role r.authorization ≢ "")
        × (allow (resolve_role r.authorization) (resolve_action r) (namespace_of r) ≡ true))
unfolding auth_middleware
auth_middleware-passed_iff eval r policy =
    let role = resolve_role r.authorization in
    let action = resolve_action r in
    let verdict = policy (record { role = role; action = action; namespace = namespace_of r }) in
    (
      λ h. (
        λ e. ground (arith, h, eq_iff action ""),
        λ e. ground (arith, h, eq_iff role ""),
        ground (arith, h, verdict),
      ),
      λ h. ground (arith, h.0, h.1, h.2, verdict, eq_iff action "", eq_iff role ""),
    )
