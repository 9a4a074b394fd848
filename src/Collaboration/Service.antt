-- ===== src/Collaboration/Service.antt =====
-- internal/service/collaboration/service.go: who may connect workspaces, and who may use a
-- connection. The clock and the new id are arguments.
use aloqa_codex.Common.{ℕ, Bool, true, false, not, Option, none, some, nat_eqb, ltb}
use aloqa_codex.Domain.{WorkspaceMember}
use aloqa_codex.Cerrors.{
  Result, ok, err, ◌>>=◌, ◌>>◌, guard, map_err, new_forbidden, new_invalid_input, new_not_found,
  new_conflict, new_internal,
}
use aloqa_codex.Security.Rbac.Parse.{Permission, collaboration_manage}
use aloqa_codex.Security.Rbac.Roles.{has}
use aloqa_codex.Security.Rbac.Checker.{PermissionChecker, require}
use aloqa_codex.Collaboration.Policy.{
  WorkspaceConnection, WorkspaceConnectionPolicy, WorkspaceConnectionStatus, pending, active,
  can_contact, validate_policy,
}
use aloqa_codex.Collaboration.Store.{
  Store, create_connection, get_connection, update_connection_status,
}

-- The service's fields but the connection table, which the operations take and return.
pub record Service : Type 0 where
  pub get_member : ℕ → ℕ → Result WorkspaceMember
  pub permissions : Option PermissionChecker

unfoldable pub require_permission : Service → ℕ → ℕ → Permission → Result (Unit {0})
unfolding require has
require_permission s workspace_id user_id permission = elim s.permissions [
  | some c ↦ require c workspace_id user_id permission
  | none ↦
      map_err (λ _. new_forbidden "user is not a workspace member")
        (s.get_member workspace_id user_id)
      >>= λ member.
          guard (has member.role permission)
            (new_forbidden "workspace role does not have required permission")
]

abbrev pub new_connection : ℕ → ℕ → ℕ → ℕ → WorkspaceConnectionPolicy → ℕ → WorkspaceConnection
new_connection id source target actor policy now = record {
  id = id;
  source_workspace_id = source;
  target_workspace_id = target;
  status = pending;
  policy = policy;
  created_by = actor;
  approved_by = none;
  created_at = now;
  updated_at = now;
}

abbrev pub created :
    Store × Result (Unit {0}) → WorkspaceConnection → Store × Result WorkspaceConnection
created (db, ok _) c = (db, ok c)
created (db, err e) c = (db, err (new_internal "failed to create workspace connection" e))

abbrev pub request_checks : Service → ℕ → ℕ → ℕ → WorkspaceConnectionPolicy → Result (Unit {0})
request_checks s source target actor policy = do
  guard (not (nat_eqb source target)) (new_invalid_input "cannot connect a workspace to itself")
  require_permission s source actor collaboration_manage
  validate_policy policy

unfoldable pub request_connection :
    Service
    → Store
    → ℕ
    → ℕ
    → ℕ
    → WorkspaceConnectionPolicy
    → ℕ
    → ℕ
    → Store × Result WorkspaceConnection
unfolding require_permission validate_policy create_connection
request_connection s db source target actor policy id now =
    elim (request_checks s source target actor policy) [
      | err e ↦ (db, err e)
      | ok _ ↦
          let c = new_connection id source target actor policy now in
          created (create_connection db c) c
    ]

abbrev pub is_pending : WorkspaceConnectionStatus → Bool
is_pending pending = true
is_pending _ = false

abbrev pub is_active : WorkspaceConnectionStatus → Bool
is_active active = true
is_active _ = false

abbrev pub approve_checks : Service → Store → ℕ → ℕ → ℕ → Result WorkspaceConnection
approve_checks s db source target actor = do
  require_permission s target actor collaboration_manage
  c ←
      map_err (λ _. new_not_found "workspace connection not found")
        (get_connection db source target)
  guard (is_pending c.status) (new_conflict "workspace connection is not pending")
  ok c

unfoldable pub approve_connection : Service → Store → ℕ → ℕ → ℕ → ℕ → Store × Result (Unit {0})
unfolding require_permission get_connection update_connection_status
approve_connection s db source target actor now = elim (approve_checks s db source target actor) [
  | err e ↦ (db, err e)
  | ok c ↦ update_connection_status db c.id active (some actor) now
]

-- `ExpiresAt != nil && !ExpiresAt.After(now)` is an expired connection.
abbrev pub is_unexpired : Option ℕ → ℕ → Bool
is_unexpired none now = true
is_unexpired (some t) now = ltb now t

unfoldable pub active_connection : Store → ℕ → ℕ → ℕ → Result WorkspaceConnection
unfolding get_connection
active_connection db source target now = do
  c ←
      map_err (λ _. new_forbidden "workspace connection is not active")
        (get_connection db source target)
  guard (is_active c.status) (new_forbidden "workspace connection is not active")
  guard (is_unexpired c.policy.expires_at now) (new_forbidden "workspace connection has expired")
  ok c

unfoldable pub authorize_contact : Service → WorkspaceConnection → ℕ → ℕ → ℕ → ℕ → Result (Unit {0})
unfolding can_contact
authorize_contact s c source target source_user target_user = do
  source_member ←
      map_err (λ _. new_forbidden "source user is not a workspace member")
        (s.get_member source source_user)
  target_member ←
      map_err (λ _. new_forbidden "target user is not a workspace member")
        (s.get_member target target_user)
  guard (can_contact c.policy source_member.role target_member.role)
      (new_forbidden "cross-workspace contact is not permitted by policy")

unfoldable pub can_contact_users : Service → Store → ℕ → ℕ → ℕ → ℕ → ℕ → Result (Unit {0})
unfolding active_connection authorize_contact
can_contact_users s db now source target source_user target_user = do
  c ← active_connection db source target now
  authorize_contact s c source target source_user target_user

unfoldable pub can_share_channel : Service → Store → ℕ → ℕ → ℕ → ℕ → ℕ → Result (Unit {0})
unfolding active_connection authorize_contact
can_share_channel s db now source target source_user target_user = do
  c ← active_connection db source target now
  guard c.policy.shared_channels
      (new_forbidden "workspace connection does not allow shared channels")
  authorize_contact s c source target source_user target_user

unfoldable pub can_share_call : Service → Store → ℕ → ℕ → ℕ → ℕ → ℕ → Result (Unit {0})
unfolding active_connection authorize_contact
can_share_call s db now source target source_user target_user = do
  c ← active_connection db source target now
  guard c.policy.shared_calls (new_forbidden "workspace connection does not allow shared calls")
  authorize_contact s c source target source_user target_user
