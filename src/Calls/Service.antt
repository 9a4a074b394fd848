-- ===== src/Calls/Service.antt =====
-- internal/service/call/service.go: the service's collaborators, who has access to a call, and the
-- events that it publishes.
use aloqa_codex.Common.{ℕ, Bool, true, false, not, Option, none, some, if◌then◌else◌, nat_eqb}
use aloqa_codex.Common.Int.{ℤ}
use aloqa_codex.Domain.{Channel, ChannelMember, ChannelType, public, WorkspaceMember}
use aloqa_codex.Cerrors.{
  GoError, Result, ok, err, ◌>>=◌, ◌>>◌, guard, map_err, is_not_found, new_forbidden, new_not_found,
  new_internal, new_unavailable,
}
use aloqa_codex.Security.Collab.{Decision}
use aloqa_codex.Security.Access.{GuestAccess, is_shared_type}
use aloqa_codex.Calls.Types.{Call, CallParticipant, is_moderator}
use aloqa_codex.Calls.Store.{
  Db, Action, get_call, Event, EventType, Payload, of_call, of_participant,
}
use aloqa_codex.Calls.Participants.{get_participant}
use aloqa_codex.Calls.Actions.{lift, do_publish, enqueue_realtime_tx}

-- The limits of `MediaConfig` that the operations read.
pub record MediaConfig : Type 0 where
  pub max_presenters_per_call : ℤ
  pub max_viewers_per_call : ℤ
  pub max_screen_shares_per_call : ℤ
  pub default_webinar_presenters : ℤ

pub record MediaCallPolicy : Type 0 where
  pub max_participants : ℤ
  pub max_presenters : ℤ
  pub max_viewers : ℤ

-- `MediaControlPlane`, as far as calls use it. A placement is the id of its node.
pub record MediaControlPlane : Type 0 where
  pub ensure_placement : Call → Result (Option ℕ)
  pub policy_for_call : Call → MediaCallPolicy
  pub is_local_node : ℕ → Bool

-- Which repositories a transaction's scope has.
pub record TxScope : Type 0 where
  pub has_calls : Bool
  pub has_channels : Bool
  pub has_realtime : Bool

pub record Service : Type 0 where
  pub get_member : ℕ → ℕ → Result WorkspaceMember
  pub get_channel : ℕ → Result Channel
  pub get_channel_member : ℕ → ℕ → Result ChannelMember
  pub guests : Option GuestAccess
  pub collab : Option (ℕ → ℕ → Result Decision)
  pub control : Option MediaControlPlane
  pub tx : Option TxScope
  pub has_sfu : Bool
  pub media : MediaConfig

-- ---- events

abbrev channel_or_nil : Option ℕ → ℕ
channel_or_nil none = 0
channel_or_nil (some id) = id

abbrev event_for : EventType → Call → ℕ → Payload → Event
event_for kind call user_id payload = record {
  kind = kind;
  workspace_id = call.workspace_id;
  channel_id = channel_or_nil call.channel_id;
  user_id = user_id;
  payload = payload;
}

abbrev pub call_event : EventType → Call → ℕ → Event
call_event kind call user_id = event_for kind call user_id (of_call call)

abbrev pub participant_event : EventType → Call → CallParticipant → Event
participant_event kind call p = event_for kind call p.user_id (of_participant call.id p)

abbrev pub publish_call_event : EventType → Call → ℕ → Action (Unit {0})
publish_call_event kind call user_id = do_publish (call_event kind call user_id)

abbrev pub publish_participant_event : EventType → Call → CallParticipant → Action (Unit {0})
publish_participant_event kind call p = do_publish (participant_event kind call p)

-- `publishBreakoutEvent`
abbrev pub publish_breakout_event : EventType → Call → Payload → Action (Unit {0})
publish_breakout_event kind call payload = do_publish (event_for kind call call.created_by payload)

abbrev pub enqueue_call_event_tx : TxScope → EventType → Call → ℕ → Action (Unit {0})
enqueue_call_event_tx scope kind call user_id =
    enqueue_realtime_tx scope.has_realtime (call_event kind call user_id)

abbrev pub enqueue_participant_event_tx :
    TxScope → EventType → Call → CallParticipant → Action (Unit {0})
enqueue_participant_event_tx scope kind call p =
    enqueue_realtime_tx scope.has_realtime (participant_event kind call p)

-- What `s.tx` chooses between.
unfoldable pub by_tx : {A : Type 0} → Option TxScope → Action A → (TxScope → Action A) → Action A
by_tx none direct in_tx = direct
by_tx (some scope) direct in_tx = in_tx scope

abbrev pub requires_calls : TxScope → Action (Unit {0})
requires_calls scope =
    lift (guard scope.has_calls (new_unavailable "call transaction scope is not configured"))

abbrev pub requires_channels : TxScope → Action (Unit {0})
requires_channels scope =
    lift (guard scope.has_channels (new_unavailable "channel transaction scope is not configured"))

-- ---- access

abbrev member_error : GoError → GoError
member_error e =
    if is_not_found e
    then new_forbidden "user is not a member of this workspace"
    else new_internal "failed to verify workspace membership" e

unfoldable pub require_workspace_member : Service → ℕ → ℕ → Result (Unit {0})
require_workspace_member s workspace_id user_id =
    map_err member_error (s.get_member workspace_id user_id) >>= λ _. ok tt

abbrev no_workspace : GoError
no_workspace = new_forbidden "user does not have access to this workspace"

unfoldable pub can_access_workspace_content : Service → ℕ → ℕ → Result (Unit {0})
unfolding require_workspace_member
can_access_workspace_content s workspace_id user_id =
    elim (require_workspace_member s workspace_id user_id) [
      | ok _ ↦ ok tt
      | err _ ↦ elim s.guests [
        | none ↦ err no_workspace
        | some g ↦
            g.has_workspace_access workspace_id user_id >>= λ allowed. guard allowed no_workspace
      ]
    ]

unfoldable pub ensure_collaboration_channel_access : Service → Channel → ℕ → Result Bool
ensure_collaboration_channel_access s ch user_id =
    if not (is_shared_type ch.kind) then ok true else elim s.collab [
      | none ↦ ok true
      | some authorize_call ↦
          authorize_call ch.id user_id >>= λ d. ok (if not d.managed then true else d.allowed)
    ]

abbrev is_public : ChannelType → Bool
is_public public = true
is_public _ = false

abbrev no_channel : GoError
no_channel = new_forbidden "you do not have access to this channel"

abbrev channel_member_error : GoError → GoError
channel_member_error e =
    if is_not_found e then no_channel else new_internal "failed to check channel membership" e

-- What a workspace member needs for a channel.
abbrev member_access : Service → Channel → ℕ → Result (Unit {0})
member_access s ch user_id =
    if is_public ch.kind
    then ok tt
    else map_err channel_member_error (s.get_channel_member ch.id user_id) >>= λ _.
        ensure_collaboration_channel_access s ch user_id >>= λ allowed.
        guard allowed (new_forbidden "you do not have access to this collaboration channel")

-- What a direct message asks of a user who is no workspace member.
abbrev shared_access : Service → Channel → ℕ → Result (Unit {0})
shared_access s ch user_id =
    if is_shared_type ch.kind
    then (map_err channel_member_error (s.get_channel_member ch.id user_id) >>= λ _.
        ensure_collaboration_channel_access s ch user_id >>= λ allowed. guard allowed no_channel)
    else err no_channel

unfoldable pub require_channel_access : Service → Channel → ℕ → Result (Unit {0})
unfolding require_workspace_member ensure_collaboration_channel_access
require_channel_access s ch user_id = elim (require_workspace_member s ch.workspace_id user_id) [
  | ok _ ↦ member_access s ch user_id
  | err _ ↦ elim s.guests [
    | none ↦ shared_access s ch user_id
    | some g ↦ g.has_channel_access ch.workspace_id ch.id user_id >>= λ allowed.
        if allowed then ok tt else shared_access s ch user_id
  ]
]

abbrev pub wrap_call_error : GoError → GoError
wrap_call_error e =
    if is_not_found e then new_not_found "call not found" else new_internal "failed to get call" e

unfoldable pub get_call_for_workspace : Db → ℕ → ℕ → Result Call
get_call_for_workspace db workspace_id call_id = do
  call ← map_err wrap_call_error (get_call db call_id)
  guard (nat_eqb call.workspace_id workspace_id) (new_not_found "call not found")
  ok call

-- The access that the call's channel asks for, or its workspace where it has none.
unfoldable pub call_gate : Service → Call → ℕ → Result (Unit {0})
unfolding require_channel_access can_access_workspace_content
call_gate s call user_id = elim call.channel_id [
  | none ↦ can_access_workspace_content s call.workspace_id user_id
  | some id ↦ map_err (new_internal "failed to get channel") (s.get_channel id) >>= λ ch.
      require_channel_access s ch user_id
]

unfoldable pub require_call_access : Service → Db → ℕ → ℕ → ℕ → Result Call
unfolding get_call_for_workspace call_gate
require_call_access s db workspace_id call_id user_id = do
  call ← get_call_for_workspace db workspace_id call_id
  call_gate s call user_id
  ok call

abbrev pub moderator_error : GoError → GoError
moderator_error e =
    if is_not_found e
    then new_forbidden "user is not a participant in this call"
    else new_internal "failed to verify participant role" e

-- `requireHostOrCoHost` of breakout.go
unfoldable pub require_host_or_co_host : Db → ℕ → ℕ → Result (Unit {0})
require_host_or_co_host db call_id user_id = do
  p ← map_err moderator_error (get_participant db call_id user_id)
  guard (is_moderator p.role) (new_forbidden "only host or co-host can perform this action")
