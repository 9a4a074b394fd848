-- ===== src/Security/Access.antt =====
-- internal/security/accesspolicy/checker.go: who may see or take part in a channel. The checker's
-- collaborators are the fields of a record, and one that may be nil is an `Option`.
pub mod Listing
pub mod Truncation
pub mod Decisions
pub mod Admission
pub mod Workspace
use aloqa_codex.Common.{
  ℕ, Bool, true, false, not, ◌&&◌, ◌||◌, Option, none, some, ◌≡◌, refl, arith, if◌then◌else◌,
}
use aloqa_codex.Domain.{
  Channel, ChannelMember, ChannelType, public, private, dm, group_dm, meeting, other_type,
  WorkspaceMember,
}
use aloqa_codex.Cerrors.{
  GoError, Result, ok, err, ◌>>=◌, ◌>>◌, guard, map_err, is_not_found, is_forbidden, new_forbidden,
  new_not_found, new_internal,
}
use aloqa_codex.Security.Collab.{Decision}

pub data Subject : Type 0 where
  member guest collaborator : Subject

pub data Capability : Type 0 where
  view participate : Capability

pub record ChannelDecision : Type 0 where
  pub subject : Subject
  pub channel : Channel
  pub workspace_member : Option WorkspaceMember
  pub channel_member : Option ChannelMember

pub record GuestAccess : Type 0 where
  pub has_workspace_access : ℕ → ℕ → Result Bool
  pub has_channel_access : ℕ → ℕ → ℕ → Result Bool

pub record Checker : Type 0 where
  pub get_workspace_member : Option (ℕ → ℕ → Result WorkspaceMember)
  pub get_channel : ℕ → Result Channel
  pub get_channel_member : ℕ → ℕ → Result ChannelMember
  pub guests : Option GuestAccess
  pub collab : Option (ℕ → ℕ → Result Decision)

abbrev member_error : GoError → GoError
member_error e =
    if is_not_found e
    then new_forbidden "user is not a workspace member"
    else new_internal "failed to verify workspace membership" e

unfoldable pub workspace_member : Checker → ℕ → ℕ → Result WorkspaceMember
workspace_member c workspace_id user_id = elim c.get_workspace_member [
  | none ↦ err (new_forbidden "workspace access is not configured")
  | some get ↦ map_err member_error (get workspace_id user_id)
]

abbrev no_workspace_access : GoError
no_workspace_access = new_forbidden "user does not have access to this workspace"

abbrev guest_subject : Bool → Result Subject
guest_subject allowed = if allowed then ok guest else err no_workspace_access

-- `WorkspaceAccess`; a nil checker is `none`.
unfoldable pub workspace_access : Option Checker → ℕ → ℕ → Result Subject
unfolding workspace_member
workspace_access none workspace_id user_id =
    err (new_forbidden "workspace access is not configured")
workspace_access (some c) workspace_id user_id = elim (workspace_member c workspace_id user_id) [
  | ok _ ↦ ok member
  | err e ↦ if not (is_forbidden e) then err e else elim c.guests [
    | none ↦ err no_workspace_access
    | some g ↦ g.has_workspace_access workspace_id user_id >>= guest_subject
  ]
]

unfoldable pub authorize_collaboration : Checker → ℕ → ℕ → Result Bool
authorize_collaboration c channel_id user_id = elim c.collab [
  | none ↦ ok true
  | some authorize ↦
      authorize channel_id user_id >>= λ d. ok (if not d.managed then true else d.allowed)
]

-- A missing channel member is `nil`, any other failure is an error.
unfoldable pub channel_member_or_nil : Checker → ℕ → ℕ → Result (Option ChannelMember)
channel_member_or_nil c channel_id user_id = elim (c.get_channel_member channel_id user_id) [
  | ok m ↦ ok (some m)
  | err e ↦
      if is_not_found e then ok none else err (new_internal "failed to verify channel membership" e)
]

abbrev pub is_shared_type : ChannelType → Bool
is_shared_type dm = true
is_shared_type group_dm = true
is_shared_type _ = false

abbrev no_channel_access : GoError
no_channel_access = new_forbidden "you do not have access to this channel"

abbrev require_collaboration : Checker → ℕ → ℕ → Result (Unit {0})
require_collaboration c channel_id user_id = do
  allowed ← authorize_collaboration c channel_id user_id
  guard allowed (new_forbidden "you do not have access to this collaboration channel")

-- The `switch` of `channelDecisionForWorkspaceMember`: what a workspace member needs.
unfoldable pub member_gate :
    Checker → ChannelType → ℕ → ℕ → Capability → Option ChannelMember → Result (Unit {0})
unfolding authorize_collaboration
member_gate c public channel_id user_id participate none =
    err (new_forbidden "user is not a member of this channel")
member_gate c public channel_id user_id capability channel_member = ok tt
member_gate c (other_type t) channel_id user_id capability channel_member =
    err (new_forbidden "unsupported channel type")
member_gate c kind channel_id user_id capability none = err no_channel_access
member_gate c kind channel_id user_id capability (some m) =
    if is_shared_type kind then require_collaboration c channel_id user_id else ok tt

abbrev pub decision :
    Subject → Channel → Option WorkspaceMember → Option ChannelMember → ChannelDecision
decision subject channel workspace_member channel_member = record {
  subject = subject;
  channel = channel;
  workspace_member = workspace_member;
  channel_member = channel_member;
}

unfoldable pub channel_decision_for_workspace_member :
    Checker → Channel → WorkspaceMember → ℕ → Capability → Result ChannelDecision
unfolding channel_member_or_nil member_gate
channel_decision_for_workspace_member c ch m user_id capability = do
  channel_member ← channel_member_or_nil c ch.id user_id
  member_gate c ch.kind ch.id user_id capability channel_member
  ok (decision member ch (some m) channel_member)

abbrev collaborator_error : GoError → GoError
collaborator_error e =
    if is_not_found e
    then no_channel_access
    else new_internal "failed to verify channel membership" e

unfoldable pub channel_decision_for_collaborator : Checker → Channel → ℕ → Result ChannelDecision
unfolding authorize_collaboration
channel_decision_for_collaborator c ch user_id = do
  guard (is_shared_type ch.kind) no_channel_access
  m ← map_err collaborator_error (c.get_channel_member ch.id user_id)
  require_collaboration c ch.id user_id
  ok (decision collaborator ch none (some m))

abbrev channel_error : GoError → GoError
channel_error e =
    if is_not_found e
    then new_not_found "channel not found"
    else new_internal "failed to get channel" e

-- The part of `Channel` for a user who is no workspace member.
unfoldable pub outsider_decision : Checker → Channel → ℕ → Result ChannelDecision
unfolding channel_decision_for_collaborator
outsider_decision c ch user_id = elim c.guests [
  | none ↦ channel_decision_for_collaborator c ch user_id
  | some g ↦ g.has_channel_access ch.workspace_id ch.id user_id >>= λ allowed.
      if allowed
      then ok (decision guest ch none none)
      else channel_decision_for_collaborator c ch user_id
]

-- `Channel`
unfoldable pub channel_access : Option Checker → ℕ → ℕ → Capability → Result ChannelDecision
unfolding workspace_member channel_decision_for_workspace_member outsider_decision
channel_access none channel_id user_id capability =
    err (new_forbidden "channel access is not configured")
channel_access (some c) channel_id user_id capability = do
  ch ← map_err channel_error (c.get_channel channel_id)
  guard (not ch.archived) (new_forbidden "channel is archived")
  elim (workspace_member c ch.workspace_id user_id) [
    | ok m ↦ channel_decision_for_workspace_member c ch m user_id capability
    | err e ↦ if not (is_forbidden e) then err e else outsider_decision c ch user_id
  ]
