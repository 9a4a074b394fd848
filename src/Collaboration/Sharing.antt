-- ===== src/Collaboration/Sharing.antt =====
-- Who may share a channel or a call across workspaces, by internal/service/collaboration/service.go.
use aloqa_codex.Common.{ℕ, Bool, true, List, [], ◌∷◌, ◌≡◌, inl, inr, refl, arith, any}
use aloqa_codex.Domain.{WorkspaceMember, WorkspaceRole, role_eqb}
use aloqa_codex.Cerrors.{ok, Result-cases}
use aloqa_codex.Collaboration.Policy.{
  WorkspaceConnection, WorkspaceConnectionPolicy, WorkspaceContactPolicy, active, can_contact,
  role_allowed, contact_open, contact_role_based,
}
use aloqa_codex.Collaboration.Store.{Store, get_connection}
use aloqa_codex.Collaboration.Service.{
  Service, is_unexpired, active_connection, authorize_contact, can_share_channel, can_share_call,
}

role_allowed-any :
    (role : WorkspaceRole) (roles : List WorkspaceRole)
    → role_allowed role roles ≡ any (role_eqb role) roles
unfolding role_allowed
role_allowed-any role [] = refl
role_allowed-any role (r ∷ rs) = ground (arith, role_allowed-any role rs)

-- The policy lets two roles be in contact: it is open, or lists each role on its side.
pub data MayContact (p : WorkspaceConnectionPolicy) (s t : WorkspaceRole) : Type 0 where
  by_open : p.contact_policy ≡ contact_open → MayContact p s t
  by_roles :
      p.contact_policy ≡ contact_role_based
      → any (role_eqb s) p.allowed_source_roles ≡ true
      → any (role_eqb t) p.allowed_target_roles ≡ true
      → MayContact p s t

can_contact_sound :
    (p : WorkspaceConnectionPolicy) (s t : WorkspaceRole)
    → can_contact p s t ≡ true
    → MayContact p s t
unfolding can_contact
can_contact_sound p s t h = go p.contact_policy refl
  where
    go : (k : WorkspaceContactPolicy) → p.contact_policy ≡ k → MayContact p s t
    go contact_open e = by_open e
    go contact_role_based e =
        by_roles e (ground (arith, role_allowed-any s p.allowed_source_roles))
          (ground (arith, role_allowed-any t p.allowed_target_roles))
    go _ e = absurd (ground arith)

-- What sharing wants: an active, unexpired connection that shares what `flag` names, whose policy
-- lets the roles of the two users, each a member of its workspace, be in contact.
pub record Shared (flag : WorkspaceConnectionPolicy → Bool) (s : Service) (db : Store)
    (now source target source_user target_user : ℕ) : Type 0 where
  pub connection : WorkspaceConnection
  pub source_member : WorkspaceMember
  pub target_member : WorkspaceMember
  pub found : get_connection db source target ≡ ok connection
  pub is_live : connection.status ≡ active
  pub unexpired : is_unexpired connection.policy.expires_at now ≡ true
  pub flagged : flag connection.policy ≡ true
  pub from_source : s.get_member source source_user ≡ ok source_member
  pub from_target : s.get_member target target_user ≡ ok target_member
  pub contact : MayContact connection.policy source_member.role target_member.role

active_connection_sound :
    (db : Store) (source target now : ℕ) (c : WorkspaceConnection)
    → active_connection db source target now ≡ ok c
    → (get_connection db source target ≡ ok c)
      × (c.status ≡ active)
      × (is_unexpired c.policy.expires_at now ≡ true)
unfolding active_connection
active_connection_sound db source target now c h = (ground arith, ground arith, ground arith)

authorize_contact_sound :
    (s : Service) (c : WorkspaceConnection) (source target source_user target_user : ℕ)
    → authorize_contact s c source target source_user target_user ≡ ok tt
    → (m : WorkspaceMember) × (n : WorkspaceMember) × (s.get_member source source_user ≡ ok m)
      × (s.get_member target target_user ≡ ok n)
      × (can_contact c.policy m.role n.role ≡ true)
unfolding authorize_contact
authorize_contact_sound s c source target source_user target_user h =
    elim (Result-cases (s.get_member source source_user)) [
      | inr (e, failed) ↦ absurd (cc (rw (failed, authorize_contact) at h))
      | inl (m, found) ↦ elim (Result-cases (s.get_member target target_user)) [
        | inr (e, failed) ↦ absurd (ground arith)
        | inl (n, found') ↦ (m, n, found, found', ground arith)
      ]
    ]

shared :
    (flag : WorkspaceConnectionPolicy → Bool) (s : Service) (db : Store) (c : WorkspaceConnection)
    (now source target source_user target_user : ℕ)
    → active_connection db source target now ≡ ok c
    → flag c.policy ≡ true
    → authorize_contact s c source target source_user target_user ≡ ok tt
    → Shared flag s db now source target source_user target_user
shared flag s db c now source target source_user target_user live flagged contact =
    let (found, is_live, unexpired) = active_connection_sound db source target now c live in
    let (m, n, from_source, from_target, may) =
      authorize_contact_sound s c source target source_user target_user contact in
    record {
      connection = c;
      source_member = m;
      target_member = n;
      found = found;
      is_live = is_live;
      unexpired = unexpired;
      flagged = flagged;
      from_source = from_source;
      from_target = from_target;
      contact = can_contact_sound c.policy m.role n.role may;
    }

-- `CanShareChannel` agrees only over an active, unexpired connection that shares channels, between a
-- member of each workspace whose roles its policy lets be in contact.
pub can_share_channel_sound :
    (s : Service) (db : Store) (now source target source_user target_user : ℕ)
    → can_share_channel s db now source target source_user target_user ≡ ok tt
    → Shared (λ p. p.shared_channels) s db now source target source_user target_user
unfolding can_share_channel
can_share_channel_sound s db now source target source_user target_user h =
    elim (Result-cases (active_connection db source target now)) [
      | inr (e, failed) ↦ absurd (cc (rw (failed, can_share_channel) at h))
      | inl (c, live) ↦
          shared (λ p. p.shared_channels) s db c now source target source_user target_user live
            (ground arith) (ground arith)
    ]

-- `CanShareCall` agrees only over an active, unexpired connection that shares calls, between a member of
-- each workspace whose roles its policy lets be in contact.
pub can_share_call_sound :
    (s : Service) (db : Store) (now source target source_user target_user : ℕ)
    → can_share_call s db now source target source_user target_user ≡ ok tt
    → Shared (λ p. p.shared_calls) s db now source target source_user target_user
unfolding can_share_call
can_share_call_sound s db now source target source_user target_user h =
    elim (Result-cases (active_connection db source target now)) [
      | inr (e, failed) ↦ absurd (cc (rw (failed, can_share_call) at h))
      | inl (c, live) ↦
          shared (λ p. p.shared_calls) s db c now source target source_user target_user live
            (ground arith) (ground arith)
    ]
