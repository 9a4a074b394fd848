-- ===== src/Collaboration/Policy.antt =====
-- internal/domain/entity/workspace_collaboration.go, and `validatePolicy` of
-- internal/service/collaboration/service.go. A time is a number, and a Go string type with named
-- constants is a data type with one constructor more for every other text.
use aloqa_codex.Common.{ℕ, String, Bool, true, false, not, ◌&&◌, ◌||◌, List, [], ◌∷◌, Option}
use aloqa_codex.Domain.{WorkspaceRole, role_eqb}
use aloqa_codex.Cerrors.{Result, guard, ◌>>◌, new_invalid_input}

pub data WorkspaceConnectionStatus : Type 0 where
  pending active paused revoked : WorkspaceConnectionStatus
  other_status : String → WorkspaceConnectionStatus

-- `unset_visibility` and `unset_policy` are the empty text.
pub data WorkspaceDirectoryVisibility : Type 0 where
  visibility_none visibility_basic visibility_directory unset_visibility :
      WorkspaceDirectoryVisibility
  other_visibility : String → WorkspaceDirectoryVisibility

pub data WorkspaceContactPolicy : Type 0 where
  contact_none contact_role_based contact_mutual_allow contact_open unset_policy :
      WorkspaceContactPolicy
  other_policy : String → WorkspaceContactPolicy

pub record WorkspaceConnectionPolicy : Type 0 where
  pub directory_visibility : WorkspaceDirectoryVisibility
  pub contact_policy : WorkspaceContactPolicy
  pub allowed_source_roles : List WorkspaceRole
  pub allowed_target_roles : List WorkspaceRole
  pub shared_channels : Bool
  pub shared_calls : Bool
  pub expires_at : Option ℕ

pub record WorkspaceConnection : Type 0 where
  pub id : ℕ
  pub source_workspace_id : ℕ
  pub target_workspace_id : ℕ
  pub status : WorkspaceConnectionStatus
  pub policy : WorkspaceConnectionPolicy
  pub created_by : ℕ
  pub approved_by : Option ℕ
  pub created_at : ℕ
  pub updated_at : ℕ

unfoldable pub can_view_directory : WorkspaceConnectionPolicy → Bool
can_view_directory p = elim p.directory_visibility [
  | visibility_basic ↦ true
  | visibility_directory ↦ true
  | _ ↦ false
]

unfoldable pub role_allowed : WorkspaceRole → List WorkspaceRole → Bool
role_allowed role [] = false
role_allowed role (candidate ∷ rest) = role_eqb role candidate || role_allowed role rest

unfoldable pub can_contact : WorkspaceConnectionPolicy → WorkspaceRole → WorkspaceRole → Bool
unfolding role_allowed
can_contact p source_role target_role = elim p.contact_policy [
  | contact_open ↦ true
  | contact_role_based ↦
      role_allowed source_role p.allowed_source_roles
      && role_allowed target_role p.allowed_target_roles
  | _ ↦ false
]

abbrev visibility_known : WorkspaceDirectoryVisibility → Bool
visibility_known (other_visibility _) = false
visibility_known _ = true

abbrev policy_known : WorkspaceContactPolicy → Bool
policy_known (other_policy _) = false
policy_known _ = true

abbrev is_role_based : WorkspaceContactPolicy → Bool
is_role_based contact_role_based = true
is_role_based _ = false

abbrev has_roles : List WorkspaceRole → Bool
has_roles [] = false
has_roles (_ ∷ _) = true

unfoldable pub validate_policy : WorkspaceConnectionPolicy → Result (Unit {0})
validate_policy p = do
  guard (visibility_known p.directory_visibility) (new_invalid_input "invalid directory visibility")
  guard (policy_known p.contact_policy) (new_invalid_input "invalid contact policy")
  guard
      (not (is_role_based p.contact_policy)
        || has_roles p.allowed_source_roles && has_roles p.allowed_target_roles)
      (new_invalid_input "role-based contact policy requires source and target roles")
