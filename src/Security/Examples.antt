-- ===== src/Security/Examples.antt =====
-- The permission checks of internal/security on concrete data: a workspace 1 with the member 7, whom an
-- assigned role lets invite, and the guest 9.
use Prim.Native.String.{String}
use aloqa_codex.Common.{
  ℕ, true, false, List, [], ◌∷◌, some, ◌≡◌, ◌≢◌, ◌&&◌, ◌||◌, refl, any, nat_eqb, if◌then◌else◌, map,
}
use aloqa_codex.Common.Equality.{contains, string_eq, Distinct}
use aloqa_codex.Common.Text.{trim_space, IsSorted}
use aloqa_codex.Domain.{GuestAccessGrant, WorkspaceMember, WorkspaceRoleDefinition, admin, member}
use aloqa_codex.Cerrors.{Result, ok, err, new_not_found}
use aloqa_codex.Security.Rbac.Parse.{
  normalize_permission_strings, parse_permission, all_permissions, member_invite, message_send,
}
use aloqa_codex.Security.Rbac.Roles.{
  RoleDefinition, role_has, default_workspace_role, default_workspace_permissions, holds, has,
  role_definition_from_entity, merge,
}
use aloqa_codex.Security.Rbac.Normal.{AllValid, normalize_permission_strings_sound}
use aloqa_codex.Security.Rbac.Merging.{role_has-merge}
use aloqa_codex.Security.Rbac.Checker.{PermissionChecker, require}
use aloqa_codex.Security.Rbac.Granted.{Granted, by_assignment, require_sound, require_complete}
use aloqa_codex.Security.Guests.{
  has_channel_access, has_workspace_access, has_channel_access_workspace,
}

abbrev alice : WorkspaceMember
alice = record { id = 1; workspace_id = 1; user_id = 7; role = member }

abbrev inviter : WorkspaceRoleDefinition
inviter = record {
  id = 3;
  workspace_id = 1;
  name = "inviter";
  base_role = member;
  permissions = " member.invite " ∷ "ai.use" ∷ [];
  system = false;
}

-- An assigned role over another base role is passed over.
abbrev foreign : WorkspaceRoleDefinition
foreign = record {
  id = 4;
  workspace_id = 1;
  name = "foreign";
  base_role = admin;
  permissions = "no such permission" ∷ "workspace.manage" ∷ [];
  system = false;
}

abbrev find_alice : ℕ → ℕ → Result WorkspaceMember
find_alice w u =
    if nat_eqb w 1 && nat_eqb u 7
    then ok alice
    else err (new_not_found "workspace member not found")

abbrev assigned : ℕ → ℕ → Result (List WorkspaceRoleDefinition)
assigned w u = ok (foreign ∷ inviter ∷ [])

abbrev checker : PermissionChecker
checker = record {
  get_member = find_alice;
  list_assigned_definitions = some assigned;
  uuid_text = λ n. "id";
}

alice_invites : require checker 1 7 member_invite ≡ ok tt
unfolding require parse_permission default_workspace_permissions
alice_invites = refl

stranger_refused : require checker 1 8 member_invite ≢ ok tt
unfolding require parse_permission default_workspace_permissions
stranger_refused h = cc

require_sound_example : Granted checker 1 7 member_invite
require_sound_example = require_sound checker 1 7 member_invite alice_invites

alice-Granted : Granted checker 1 7 member_invite
unfolding has role_has default_workspace_role default_workspace_permissions trim_space
    all_permissions holds
alice-Granted =
    by_assignment alice assigned (foreign ∷ inviter ∷ []) refl refl refl
      (tt, ((refl, (refl, tt)), tt)) refl

require_complete_example : require checker 1 7 member_invite ≡ ok tt
require_complete_example = require_complete checker 1 7 member_invite alice-Granted

normalized :
    normalize_permission_strings (" ai.use" ∷ "ai.use" ∷ "call.start " ∷ [])
    ≡ ok ("ai.use" ∷ "call.start" ∷ [])
unfolding normalize_permission_strings parse_permission
normalized = refl

normalize_permission_strings_sound_example :
    AllValid (" ai.use" ∷ "ai.use" ∷ "call.start " ∷ [])
    × IsSorted ("ai.use" ∷ "call.start" ∷ [])
    × Distinct {A = String} ("ai.use" ∷ "call.start" ∷ [])
    × ((p : String)
        → contains p ("ai.use" ∷ "call.start" ∷ [])
          ≡ contains p (map trim_space (" ai.use" ∷ "ai.use" ∷ "call.start " ∷ [])))
normalize_permission_strings_sound_example =
    normalize_permission_strings_sound (" ai.use" ∷ "ai.use" ∷ "call.start " ∷ [])
      ("ai.use" ∷ "call.start" ∷ []) normalized

valid_texts : AllValid (" ai.use" ∷ "call.start " ∷ [])
unfolding trim_space all_permissions
valid_texts = (refl, (refl, tt))

abbrev overlay : RoleDefinition
overlay = record {
  name = "inviter";
  base_role = member;
  permissions = (member_invite, true) ∷ (message_send, false) ∷ [];
}

-- The overlay's entry `false` takes nothing away.
role_has-merge_example :
    role_has (merge (default_workspace_role member) (overlay ∷ [])) message_send ≡ (
      role_has (default_workspace_role member) message_send
      || any (λ o. role_has o message_send) (overlay ∷ []))
role_has-merge_example = role_has-merge (default_workspace_role member) (overlay ∷ []) message_send

merged_run : role_has (merge (default_workspace_role member) (overlay ∷ [])) message_send ≡ true
unfolding merge role_has default_workspace_role default_workspace_permissions
merged_run = refl

abbrev inviter_role : RoleDefinition
inviter_role = record {
  name = "inviter";
  base_role = member;
  permissions = ("member.invite", true) ∷ ("ai.use", true) ∷ [];
}

inviter_read : role_definition_from_entity inviter ≡ ok inviter_role
unfolding role_definition_from_entity parse_permission
inviter_read = refl

abbrev guest_grants : ℕ → ℕ → ℕ → Result (List GuestAccessGrant)
guest_grants user workspace now = ok (
    record {
      id = 1;
      invite_id = 2;
      workspace_id = 1;
      user_id = 9;
      channel_ids = 5 ∷ 6 ∷ [];
      expires_at = 100;
    }
    ∷ [])

guest_reaches : has_channel_access (some guest_grants) 1 6 9 50 ≡ ok true
unfolding has_channel_access
guest_reaches = refl

has_channel_access_workspace_example : has_workspace_access (some guest_grants) 1 9 50 ≡ ok true
has_channel_access_workspace_example =
    has_channel_access_workspace (some guest_grants) 1 6 9 50 guest_reaches
