-- ===== src/Calls/Starting.antt =====
-- `StartCall` of internal/service/call/service.go. New ids and the time are arguments; what
-- is only written to the log is left out.
use Prim.Native.String.{◌++◌}
use aloqa_codex.Common.{
  ℕ, String, Bool, true, false, ◌&&◌, ◌∷◌, Option, none, some, if◌then◌else◌, nat_eqb,
}
use aloqa_codex.Common.Int.{ℤ, pos, pos_part, ltb_ℤ}
use aloqa_codex.Domain.{Channel, ChannelMember}
use aloqa_codex.Domain
use aloqa_codex.Cerrors.{
  GoError, Result, ok, err, ◌>>=◌, ◌>>◌, guard, map_err, is_not_found, is_forbidden, new_not_found,
  new_internal, new_conflict,
}
use aloqa_codex.Calls.Types.{
  Call, CallType, CallSettings, ringing, CallParticipant, ParticipantStatus, connected, CallRole,
  host, unset,
}
use aloqa_codex.Calls.Store.{
  Action, create_call, exec, create_channel_st, add_member_st, call_started, create_room, main_room,
}
use aloqa_codex.Calls.Participants.{add_participant, add_participant_if_capacity}
use aloqa_codex.Calls.Actions.{◌⨾◌, done, reading, with_error, within_tx, either, calls_sfu}
use aloqa_codex.Calls.Service.{
  Service, TxScope, by_tx, publish_call_event, enqueue_call_event_tx, requires_calls,
  requires_channels, require_workspace_member, require_channel_access,
}
use aloqa_codex.Calls.Capacity.{
  validate_call_settings, effective_participant_cap, infer_call_access_mode,
}

-- ---- channels, as far as a call creates one

-- `Channels().Create` and `AddMember`, whose rows have new ids.
unfoldable pub create_channel : Channel → Action (Unit {0})
create_channel ch db =
    exec db create_channel_st ch.id "postgres: create channel"
      (record db { channels = ch ∷ db.channels }, ok tt)

unfoldable pub add_member : ChannelMember → Action (Unit {0})
add_member m db =
    exec db add_member_st m.id "postgres: add channel member"
      (record db { channel_members = m ∷ db.channel_members }, ok tt)

-- ---- adding a participant

abbrev capacity_error : GoError → GoError
capacity_error e =
    if is_forbidden e then new_conflict "call has reached maximum participant capacity" else e

unfoldable pub add_participant_with_optional_capacity : CallParticipant → ℤ → Action (Unit {0})
add_participant_with_optional_capacity p capacity =
    either (ltb_ℤ (pos 0) capacity)
      (with_error capacity_error (add_participant_if_capacity p (pos_part capacity)))
      (add_participant p)

-- ---- StartCall

-- The ids that `id.New` gives: of the call, its meeting channel, the host's row and the channel member.
pub record NewIds : Type 0 where
  pub call : ℕ
  pub channel : ℕ
  pub participant : ℕ
  pub member : ℕ

abbrev channel_lookup_error : GoError → GoError
channel_lookup_error e =
    if is_not_found e
    then new_not_found "channel not found"
    else new_internal "failed to get channel" e

abbrev start_channel_check : Service → ℕ → ℕ → Option ℕ → Result (Unit {0})
start_channel_check s workspace_id user_id none = ok tt
start_channel_check s workspace_id user_id (some id) = do
  ch ← map_err channel_lookup_error (s.get_channel id)
  guard (nat_eqb ch.workspace_id workspace_id) (new_not_found "channel not found")
  require_channel_access s ch user_id

unfoldable pub start_checks :
    Service → ℕ → ℕ → CallType → Option ℕ → CallSettings → Result (Unit {0})
start_checks s workspace_id user_id kind channel_id settings = do
  validate_call_settings kind settings
  require_workspace_member s workspace_id user_id
  start_channel_check s workspace_id user_id channel_id

abbrev pub new_call : NewIds → ℕ → ℕ → CallType → String → Option ℕ → CallSettings → ℕ → Call
new_call ids workspace_id user_id kind title channel_id settings now = record {
  id = ids.call;
  workspace_id = workspace_id;
  channel_id = channel_id;
  meeting_channel_id = some ids.channel;
  kind = kind;
  access_mode = infer_call_access_mode kind channel_id;
  status = ringing;
  title = title;
  created_by = user_id;
  settings = settings;
  started_at = some now;
  ended_at = none;
  created_at = now;
}

-- A participant row before `AddParticipant` fills in the principal.
abbrev pub new_participant : ℕ → ℕ → ℕ → CallRole → ParticipantStatus → Bool → ℕ → CallParticipant
new_participant id call_id user_id role status audio_muted now = record {
  id = id;
  call_id = call_id;
  principal_type = unset;
  user_id = user_id;
  guest_session_id = none;
  breakout_room_id = none;
  role = role;
  status = status;
  audio_muted = audio_muted;
  video_muted = false;
  screen_sharing = false;
  joined_at = some now;
}

abbrev host_row : NewIds → ℕ → ℕ → CallParticipant
host_row ids user_id now = new_participant ids.participant ids.call user_id host connected false now

-- The hidden channel of the call. `uuid_text` is `UUID.String`.
abbrev meeting_channel : (ℕ → String) → NewIds → ℕ → ℕ → Channel
meeting_channel uuid_text ids workspace_id user_id = record {
  id = ids.channel;
  workspace_id = workspace_id;
  name = "meeting-" ++ uuid_text ids.call;
  topic = "Hidden meeting chat thread";
  kind = Domain.meeting;
  created_by = user_id;
  archived = false;
}

abbrev meeting_member : NewIds → ℕ → ChannelMember
meeting_member ids user_id = record { id = ids.member; channel_id = ids.channel; user_id = user_id }

abbrev start_tx : TxScope → Channel → ChannelMember → Call → CallParticipant → ℤ → Action (Unit {0})
start_tx scope ch m call p capacity =
    requires_calls scope
    ⨾ requires_channels scope
    ⨾ create_channel ch
    ⨾ add_member m
    ⨾ create_call call
    ⨾ add_participant_with_optional_capacity p capacity
    ⨾ enqueue_call_event_tx scope call_started call call.created_by

abbrev start_direct : Channel → ChannelMember → Call → CallParticipant → Action (Unit {0})
start_direct ch m call p =
    with_error (new_internal "failed to create meeting chat") (create_channel ch)
    ⨾ with_error (new_internal "failed to create meeting chat") (add_member m)
    ⨾ with_error (new_internal "failed to create call") (create_call call)
    ⨾ with_error (new_internal "failed to add host participant") (add_participant p)
    ⨾ publish_call_event call_started call call.created_by

-- `shouldServePlacementLocally` on what `ensureMediaPlacement` returned; its error is only logged.
abbrev served_locally : Service → Call → Bool
served_locally s call = elim s.control [
  | none ↦ true
  | some control ↦ elim (control.ensure_placement call) [
    | err _ ↦ true
    | ok none ↦ true
    | ok (some node) ↦ control.is_local_node node
  ]
]

abbrev open_media_room : Service → Call → Action (Unit {0})
open_media_room s call =
    either (s.has_sfu && served_locally s call) (calls_sfu (create_room (main_room call.id)))
      (done tt)

abbrev start_writes : Service → Channel → ChannelMember → Call → CallParticipant → Action (Unit {0})
start_writes s ch m call p = by_tx s.tx (start_direct ch m call p) λ scope.
    with_error (new_internal "failed to create call")
      (within_tx (start_tx scope ch m call p (effective_participant_cap s call)))

unfoldable pub start_call :
    (ℕ → String)
    → Service
    → NewIds
    → ℕ
    → ℕ
    → ℕ
    → CallType
    → String
    → Option ℕ
    → CallSettings
    → Action Call
start_call uuid_text s ids now workspace_id user_id kind title channel_id settings =
    let call = new_call ids workspace_id user_id kind title channel_id settings now in
    reading (λ _. start_checks s workspace_id user_id kind channel_id settings)
      λ _.
        start_writes s (meeting_channel uuid_text ids workspace_id user_id)
          (meeting_member ids user_id) call (host_row ids user_id now)
        ⨾ open_media_room s call
        ⨾ done call
