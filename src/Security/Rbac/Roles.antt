-- ===== src/Security/Rbac/Roles.antt =====
-- internal/security/rbac/rbac.go: role definitions, the default roles, and `Merge`.
use Prim.Native.String.{◌++◌ as text_append}
use aloqa_codex.Common.{String, Bool, true, false, List, [], ◌∷◌, if◌then◌else◌, Option, none, some}
use aloqa_codex.Common.Equality.{string_eq}
use aloqa_codex.Common.GoMap.{GoMap, keys, get, set}
use aloqa_codex.Domain.{
  WorkspaceRole, owner, admin, member, guest, other_role, WorkspaceRoleDefinition,
}
use aloqa_codex.Cerrors.{plain, Result, ok, err, ◌>>=◌}
use aloqa_codex.Security.Rbac.Parse.{
  Permission, parse_permission, admin_permissions, member_read, channel_create, message_send,
  call_start, recording_read, file_upload, file_download, ai_use, directory_read_shared,
  direct_message_shared, workspace_manage, white_label_manage,
}

pub record RoleDefinition : Type 0 where
  pub name : String
  pub base_role : WorkspaceRole
  pub permissions : GoMap Permission Bool

abbrev or_false : Option Bool → Bool
or_false none = false
or_false (some b) = b

-- `m[permission]` of a map into `bool`.
unfoldable pub holds : GoMap Permission Bool → Permission → Bool
unfolding get
holds m p = or_false (get p m)

-- `RoleDefinition.Has`
unfoldable pub role_has : RoleDefinition → Permission → Bool
role_has r p = holds r.permissions p

-- `for _, p := range ps { permissions[p] = true }`
unfoldable pub grant_all : List Permission → GoMap Permission Bool → GoMap Permission Bool
unfolding set
grant_all [] m = m
grant_all (p ∷ ps) m = grant_all ps (set p true m)

abbrev pub every_member : GoMap Permission Bool
every_member =
    (member_read, true)
    ∷ (channel_create, true)
    ∷ (message_send, true)
    ∷ (call_start, true)
    ∷ (recording_read, true)
    ∷ (file_upload, true)
    ∷ (file_download, true)
    ∷ (ai_use, true)
    ∷ (directory_read_shared, true)
    ∷ (direct_message_shared, true)
    ∷ []

abbrev pub every_guest : GoMap Permission Bool
every_guest =
    (member_read, true)
    ∷ (message_send, true)
    ∷ (call_start, true)
    ∷ (recording_read, true)
    ∷ (file_upload, true)
    ∷ (file_download, true)
    ∷ []

unfoldable pub default_workspace_permissions : WorkspaceRole → GoMap Permission Bool
unfolding grant_all set
default_workspace_permissions owner =
    set white_label_manage true
      (set workspace_manage true (grant_all admin_permissions every_member))
default_workspace_permissions admin = grant_all admin_permissions every_member
default_workspace_permissions member = every_member
default_workspace_permissions guest = every_guest
default_workspace_permissions (other_role _) = []

abbrev pub role_text : WorkspaceRole → String
role_text owner = "owner"
role_text admin = "admin"
role_text member = "member"
role_text guest = "guest"
role_text (other_role s) = s

unfoldable pub default_workspace_role : WorkspaceRole → RoleDefinition
default_workspace_role role = record {
  name = role_text role;
  base_role = role;
  permissions = default_workspace_permissions role;
}

-- `Has`
unfoldable pub has : WorkspaceRole → Permission → Bool
has role p = role_has (default_workspace_role role) p

-- The loop of `RoleDefinitionFromEntity`.
unfoldable pub parse_stored : List String → GoMap Permission Bool → Result (GoMap Permission Bool)
unfolding set
parse_stored [] permissions = ok permissions
parse_stored (raw ∷ rest) permissions = elim (parse_permission raw) [
  | none ↦ err (plain (text_append "invalid permission in stored role definition: " raw))
  | some permission ↦ parse_stored rest (set permission true permissions)
]

unfoldable pub role_definition_from_entity : WorkspaceRoleDefinition → Result RoleDefinition
unfolding parse_stored
role_definition_from_entity role = do
  permissions ← parse_stored role.permissions []
  ok (record { name = role.name; base_role = role.base_role; permissions = permissions })

abbrev pub set_found : Permission → Option Bool → GoMap Permission Bool → GoMap Permission Bool
set_found p none merged = merged
set_found p (some allowed) merged = set p allowed merged

-- `for permission, allowed := range base.Permissions { merged.Permissions[permission] = allowed }`
unfoldable pub copy_entries :
    List Permission → GoMap Permission Bool → GoMap Permission Bool → GoMap Permission Bool
unfolding set get
copy_entries [] from merged = merged
copy_entries (p ∷ ps) from merged = copy_entries ps from (set_found p (get p from) merged)

-- The loop over one overlay: only what it allows is written.
unfoldable pub overlay_entries :
    List Permission → GoMap Permission Bool → GoMap Permission Bool → GoMap Permission Bool
unfolding set holds
overlay_entries [] overlay merged = merged
overlay_entries (p ∷ ps) overlay merged =
    overlay_entries ps overlay (if holds overlay p then set p true merged else merged)

unfoldable pub overlay_all : List RoleDefinition → GoMap Permission Bool → GoMap Permission Bool
unfolding overlay_entries
overlay_all [] merged = merged
overlay_all (o ∷ os) merged =
    overlay_all os (overlay_entries (keys o.permissions) o.permissions merged)

unfoldable pub merge : RoleDefinition → List RoleDefinition → RoleDefinition
unfolding overlay_all copy_entries
merge base overlays = record {
  name = base.name;
  base_role = base.base_role;
  permissions = overlay_all overlays (copy_entries (keys base.permissions) base.permissions []);
}
