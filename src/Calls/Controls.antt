-- ===== src/Calls/Controls.antt =====
-- What a host or co-host does to another participant and to the call, in internal/service/call/service.go.
use aloqa_codex.Common.{ℕ, Bool, true, false, not, ◌&&◌, ◌||◌, Option, if◌then◌else◌, nat_eqb}
use aloqa_codex.Cerrors.{
  GoError, Result, ok, err, ◌>>=◌, ◌>>◌, guard, map_err, is_not_found, new_forbidden, new_internal,
  new_invalid_input,
}
use aloqa_codex.Calls.Types.{
  Call, CallType, CallSettings, CallParticipant, disconnected, CallRole, viewer, other_call_role,
  is_ended, is_webinar, is_host, is_co_host, is_moderator, is_viewer,
}
use aloqa_codex.Calls.Store.{
  Db, Action, update_settings, call_updated, participant_left, participant_updated,
}
use aloqa_codex.Calls.Participants.{
  get_participant, update_participant_role, remove_participant_by_id,
}
use aloqa_codex.Calls.Actions.{◌⨾◌, done, reading, with_error, either}
use aloqa_codex.Calls.Service.{
  Service, publish_call_event, publish_participant_event, require_call_access,
  require_host_or_co_host,
}
use aloqa_codex.Calls.Targets.{ParticipantTarget, get_participant_by_target}
use aloqa_codex.Calls.Capacity.{validate_call_settings}
use aloqa_codex.Calls.Hosting.{
  target_error, is_on, is_off, is_given, patched, MediaPatch, overlaid, writes_media,
}

-- ---- what a host or co-host does to another participant

abbrev actor_error : GoError → GoError
actor_error e =
    if is_not_found e
    then new_forbidden "actor is not a participant"
    else new_internal "failed to get actor participant" e

abbrev target_of : Db → ℕ → ParticipantTarget → Result CallParticipant
target_of db call_id target =
    map_err (λ e. target_error (new_internal "failed to get target participant" e) e)
      (get_participant_by_target db call_id target)

unfoldable pub validate_assignable_role : CallType → CallRole → Result (Unit {0})
validate_assignable_role kind (other_call_role _) = err (new_invalid_input "invalid call role")
validate_assignable_role kind viewer =
    guard (is_webinar kind)
      (new_invalid_input "viewer role is only valid for webinars and selector calls")
validate_assignable_role kind role = ok tt

unfoldable pub role_checks :
    Service
    → Db
    → ℕ
    → ℕ
    → ℕ
    → ParticipantTarget
    → CallRole
    → Result (Call × CallParticipant × CallParticipant)
role_checks s db workspace_id call_id actor_id target role = do
  call ← require_call_access s db workspace_id call_id actor_id
  guard (not (is_ended call.status)) (new_forbidden "call has already ended")
  validate_assignable_role call.kind role
  actor ← map_err actor_error (get_participant db call_id actor_id)
  guard (is_moderator actor.role)
      (new_forbidden "only host or co-host can change participant roles")
  p ← target_of db call_id target
  guard (not (is_host p.role && not (nat_eqb p.id actor.id)))
      (new_forbidden "host role cannot be changed by another participant")
  guard (not (is_co_host actor.role && is_moderator role))
      (new_forbidden "co-hosts cannot assign host or co-host roles")
  guard (not (nat_eqb actor.id p.id && is_host actor.role && not (is_host role)))
      (new_forbidden "host cannot demote themselves")
  ok (call, actor, p)

abbrev muted_viewer : CallParticipant → CallParticipant
muted_viewer p = record p { audio_muted = true; video_muted = true; screen_sharing = false }

abbrev pub after_role : Call → CallParticipant → Action (Unit {0})
after_role call p =
    either (is_viewer p.role)
      (with_error (new_internal "failed to disable viewer media") (writes_media (muted_viewer p))
        ⨾ publish_participant_event participant_updated call (muted_viewer p))
      (publish_participant_event participant_updated call p)

unfoldable pub change_role : Service → ℕ → ℕ → ℕ → ParticipantTarget → CallRole → Action (Unit {0})
change_role s workspace_id call_id actor_id target role =
    reading (λ db. role_checks s db workspace_id call_id actor_id target role)
      λ (call, actor, p).
        with_error (new_internal "failed to update participant role")
          (update_participant_role p.id role)
        ⨾ after_role call (record p { role = role })

unfoldable pub mute_checks :
    Service → Db → ℕ → ℕ → ℕ → ParticipantTarget → MediaPatch → Result (Call × CallParticipant)
mute_checks s db workspace_id call_id actor_id target m = do
  call ← require_call_access s db workspace_id call_id actor_id
  guard (not (is_ended call.status)) (new_forbidden "call has already ended")
  actor ← map_err actor_error (get_participant db call_id actor_id)
  guard (is_moderator actor.role) (new_forbidden "only host or co-host can mute participants")
  guard (is_given m.audio_muted || is_given m.video_muted || is_given m.screen_sharing)
      (new_invalid_input "at least one media control is required")
  guard (not (is_off m.audio_muted))
      (new_invalid_input "host controls cannot force-unmute participant audio")
  guard (not (is_off m.video_muted))
      (new_invalid_input "host controls cannot force-unmute participant video")
  guard (not (is_on m.screen_sharing))
      (new_invalid_input "host controls cannot start participant screen sharing")
  p ← target_of db call_id target
  ok (call, p)

unfoldable pub mute_participant :
    Service → ℕ → ℕ → ℕ → ParticipantTarget → MediaPatch → Action (Unit {0})
mute_participant s workspace_id call_id actor_id target m =
    reading (λ db. mute_checks s db workspace_id call_id actor_id target m)
      λ (call, p).
        with_error (new_internal "failed to update participant media") (writes_media (overlaid m p))
        ⨾ publish_participant_event participant_updated call (overlaid m p)

unfoldable pub remove_checks :
    Service → Db → ℕ → ℕ → ℕ → ParticipantTarget → Result (Call × CallParticipant)
remove_checks s db workspace_id call_id actor_id target = do
  call ← require_call_access s db workspace_id call_id actor_id
  guard (not (is_ended call.status)) (new_forbidden "call has already ended")
  actor ← map_err actor_error (get_participant db call_id actor_id)
  guard (is_moderator actor.role) (new_forbidden "only host or co-host can remove participants")
  p ← target_of db call_id target
  guard (not (nat_eqb p.id actor.id)) (new_forbidden "use leave call to remove yourself")
  guard (not (is_host p.role)) (new_forbidden "host cannot be removed")
  guard (not (is_co_host actor.role && is_co_host p.role))
      (new_forbidden "co-hosts cannot remove other co-hosts")
  ok (call, p)

unfoldable pub remove_participant : Service → ℕ → ℕ → ℕ → ParticipantTarget → Action (Unit {0})
remove_participant s workspace_id call_id actor_id target =
    reading (λ db. remove_checks s db workspace_id call_id actor_id target)
      λ (call, p).
        with_error (new_internal "failed to remove participant") (remove_participant_by_id p.id)
        ⨾ publish_participant_event participant_left call (record p { status = disconnected })

-- ---- settings

pub record SettingsPatch : Type 0 where
  pub locked : Option Bool
  pub waiting_room : Option Bool
  pub mute_on_join : Option Bool
  pub screen_sharing : Option Bool
  pub chat : Option Bool
  pub breakout_rooms : Option Bool

abbrev pub next_settings : SettingsPatch → CallSettings → CallSettings
next_settings patch old = record old {
  locked = patched patch.locked old.locked;
  waiting_room = patched patch.waiting_room old.waiting_room;
  mute_on_join = patched patch.mute_on_join old.mute_on_join;
  screen_sharing = patched patch.screen_sharing old.screen_sharing;
  chat = patched patch.chat old.chat;
  breakout_rooms = patched patch.breakout_rooms old.breakout_rooms;
}

unfoldable pub settings_checks : Service → Db → ℕ → ℕ → ℕ → SettingsPatch → Result Call
settings_checks s db workspace_id call_id actor_id patch = do
  call ← require_call_access s db workspace_id call_id actor_id
  guard (not (is_ended call.status)) (new_forbidden "call has already ended")
  require_host_or_co_host db call_id actor_id
  validate_call_settings call.kind (next_settings patch call.settings)
  ok (record call { settings = next_settings patch call.settings })

unfoldable pub change_settings : Service → ℕ → ℕ → ℕ → SettingsPatch → Action Call
change_settings s workspace_id call_id actor_id patch =
    reading (λ db. settings_checks s db workspace_id call_id actor_id patch)
      λ call.
        with_error (new_internal "failed to update call settings")
          (update_settings call_id call.settings)
        ⨾ publish_call_event call_updated call actor_id
        ⨾ done call
