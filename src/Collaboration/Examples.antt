-- ===== src/Collaboration/Examples.antt =====
-- The collaboration service on concrete data: workspace 1 asks workspace 2 for a connection, an admin of
-- workspace 2 approves it, and two members share a call.
use aloqa_codex.Common.{ℕ, true, [], ◌∷◌, none, ◌≡◌, ◌≢◌, ◌&&◌, refl, nat_eqb, if◌then◌else◌, All}
use aloqa_codex.Domain.{admin}
use aloqa_codex.Cerrors.{ok}
use aloqa_codex.Security.Rbac.Parse.{collaboration_manage}
use aloqa_codex.Security.Rbac.Roles.{
  has, holds, role_has, default_workspace_role, default_workspace_permissions,
}
use aloqa_codex.Collaboration.Policy.{
  WorkspaceConnection, WorkspaceConnectionPolicy, pending, visibility_basic, contact_role_based,
  validate_policy,
}
use aloqa_codex.Collaboration.Store.{Store, get_connection}
use aloqa_codex.Collaboration.Service.{
  Service, require_permission, request_connection, approve_connection, can_share_call,
  can_share_channel, new_connection,
}
use aloqa_codex.Collaboration.Sharing.{Shared, can_share_call_sound, can_share_channel_sound}
use aloqa_codex.Collaboration.Agreement.{Calls, requests, approves, IsAgreed, Calls-IsAgreed}
use aloqa_codex.Collaboration.Lifecycle.{
  approved, request_connection_sound, approve_connection_sound,
}

abbrev policy : WorkspaceConnectionPolicy
policy = record {
  directory_visibility = visibility_basic;
  contact_policy = contact_role_based;
  allowed_source_roles = admin ∷ [];
  allowed_target_roles = admin ∷ [];
  shared_channels = true;
  shared_calls = true;
  expires_at = none;
}

abbrev service : Service
service = record {
  get_member = λ w u. ok (record { id = u; workspace_id = w; user_id = u; role = admin });
  permissions = none;
}

abbrev empty : Store
empty = record { fault = none; connections = [] }

abbrev asked : WorkspaceConnection
asked = new_connection 11 1 2 7 policy 30

abbrev with_request : Store
with_request = record { fault = none; connections = asked ∷ [] }

abbrev with_approval : Store
with_approval = record { fault = none; connections = approved 9 40 asked ∷ [] }

requested : request_connection service empty 1 2 7 policy 11 30 ≡ (with_request, ok asked)
unfolding request_connection has role_has default_workspace_role default_workspace_permissions holds
requested = refl

request_connection_sound_example :
    ◌≢◌ {A = ℕ} 1 2
    × (require_permission service 1 7 collaboration_manage ≡ ok tt)
    × (validate_policy policy ≡ ok tt)
    × (asked ≡ new_connection 11 1 2 7 policy 30)
    × (get_connection with_request 1 2 ≡ ok asked)
    × ((a b : ℕ)
        → get_connection with_request a b
          ≡ (if nat_eqb 1 a && nat_eqb 2 b then ok asked else get_connection empty a b))
request_connection_sound_example =
    request_connection_sound service empty with_request 1 2 7 policy 11 30 asked requested

approved_run : approve_connection service with_request 1 2 9 40 ≡ (with_approval, ok tt)
unfolding approve_connection has role_has default_workspace_role default_workspace_permissions holds
approved_run = refl

approve_connection_sound_example :
    (c : WorkspaceConnection) × (require_permission service 2 9 collaboration_manage ≡ ok tt)
    × (get_connection with_request 1 2 ≡ ok c)
    × (c.status ≡ pending)
    × ((a b : ℕ)
        → get_connection with_approval a b ≡ (
            if nat_eqb 1 a && nat_eqb 2 b
            then ok (approved 9 40 c)
            else get_connection with_request a b))
approve_connection_sound_example =
    approve_connection_sound service with_request with_approval 1 2 9 40 (refl, tt) approved_run

call_shared : can_share_call service with_approval 50 1 2 7 9 ≡ ok tt
unfolding can_share_call
call_shared = refl

can_share_call_sound_example : Shared (λ p. p.shared_calls) service with_approval 50 1 2 7 9
can_share_call_sound_example = can_share_call_sound service with_approval 50 1 2 7 9 call_shared

channel_shared : can_share_channel service with_approval 50 1 2 7 9 ≡ ok tt
unfolding can_share_channel
channel_shared = refl

can_share_channel_sound_example : Shared (λ p. p.shared_channels) service with_approval 50 1 2 7 9
can_share_channel_sound_example =
    can_share_channel_sound service with_approval 50 1 2 7 9 channel_shared

-- A second request for the same pair is refused by the table.
abbrev twice : Store
twice =
    (request_connection service (request_connection service empty 1 2 7 policy 11 30).0 1 2 7 policy
      12 35).0

refused : twice ≡ with_request
unfolding request_connection has role_has default_workspace_role default_workspace_permissions holds
refused = refl

abbrev agreed : Store
agreed = (approve_connection service twice 1 2 9 40).0

Calls-IsAgreed_example : All (IsAgreed (service ∷ service ∷ service ∷ [])) agreed.connections
Calls-IsAgreed_example = Calls-IsAgreed (service ∷ service ∷ service ∷ []) agreed (
    approves (service ∷ service ∷ []) service twice 1 2 9 40 (
      requests (service ∷ []) service (request_connection service empty 1 2 7 policy 11 30).0 1 2 7
        policy 12 35 (requests [] service empty 1 2 7 policy 11 30 (Calls.empty none))))
