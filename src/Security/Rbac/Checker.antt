-- ===== src/Security/Rbac/Checker.antt =====
-- internal/security/rbac/checker.go: the permissions that a user has in a workspace.
use Prim.Native.String.{◌++◌ as text_append}
use aloqa_codex.Common.{ℕ, String, Bool, not, List, [], ◌∷◌, if◌then◌else◌, Option, none, some}
use aloqa_codex.Common.Equality.{string_eq}
use aloqa_codex.Domain.{WorkspaceRole, WorkspaceMember, WorkspaceRoleDefinition, role_eqb}
use aloqa_codex.Cerrors.{
  GoError, wrap, Result, ok, ◌>>=◌, guard, map_err, is_not_found, new_forbidden, new_internal,
}
use aloqa_codex.Security.Rbac.Parse.{Permission}
use aloqa_codex.Security.Rbac.Roles.{
  RoleDefinition, role_has, default_workspace_role, role_definition_from_entity, merge,
}

-- The repositories that a `PermissionChecker` holds; `roles` may be nil. `uuid_text` is the UUID
-- package's formatting, which only error texts show.
pub record PermissionChecker : Type 0 where
  pub get_member : ℕ → ℕ → Result WorkspaceMember
  pub list_assigned_definitions : Option (ℕ → ℕ → Result (List WorkspaceRoleDefinition))
  pub uuid_text : ℕ → String

abbrev member_error : GoError → GoError
member_error e =
    if is_not_found e
    then new_forbidden "user is not a workspace member"
    else new_internal "failed to verify workspace membership" e

abbrev overlay_error : String → GoError → GoError
overlay_error id e =
    new_internal "failed to resolve workspace permissions" (wrap (text_append "role " id) e)

-- The loop of `Resolve`: a definition over another base role is passed over.
unfoldable pub resolve_overlays :
    (ℕ → String)
    → WorkspaceRole
    → List WorkspaceRoleDefinition
    → RoleDefinition
    → Result RoleDefinition
unfolding role_definition_from_entity merge
resolve_overlays uuid_text role [] effective = ok effective
resolve_overlays uuid_text role (d ∷ ds) effective =
    let rest = resolve_overlays uuid_text role ds in
    if not (role_eqb d.base_role role)
    then rest effective
    else (map_err (overlay_error (uuid_text d.id)) (role_definition_from_entity d) >>= λ overlay.
        rest (merge effective (overlay ∷ [])))

unfoldable pub resolve : PermissionChecker → ℕ → ℕ → Result RoleDefinition
unfolding resolve_overlays default_workspace_role
resolve c workspace_id user_id = do
  member ← map_err member_error (c.get_member workspace_id user_id)
  let effective = default_workspace_role member.role
  elim c.list_assigned_definitions [
    | none ↦ ok effective
    | some list ↦
        map_err (new_internal "failed to load assigned workspace roles") (list workspace_id user_id)
        >>= λ definitions. resolve_overlays c.uuid_text member.role definitions effective
  ]

unfoldable pub has_permission : PermissionChecker → ℕ → ℕ → Permission → Result Bool
unfolding resolve role_has
has_permission c workspace_id user_id permission = do
  role ← resolve c workspace_id user_id
  ok (role_has role permission)

unfoldable pub require : PermissionChecker → ℕ → ℕ → Permission → Result (Unit {0})
unfolding has_permission
require c workspace_id user_id permission = do
  allowed ← has_permission c workspace_id user_id permission
  guard allowed (new_forbidden "workspace role does not have required permission")
