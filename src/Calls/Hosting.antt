-- ===== src/Calls/Hosting.antt =====
-- The waiting room of a call, and what a participant does to its own media, in internal/service/call/service.go.
use aloqa_codex.Common.{
  ℕ, Bool, true, false, not, ◌&&◌, ◌||◌, List, [], ◌∷◌, Option, none, some, if◌then◌else◌, nat_eqb,
}
use aloqa_codex.Common.Int.{ℤ, pos, leb_ℤ}
use aloqa_codex.Cerrors.{
  GoError, find_app_error, Result, ok, ◌>>=◌, ◌>>◌, guard, map_err, is_not_found, new_forbidden,
  new_not_found, new_internal, new_conflict,
}
use aloqa_codex.Calls.Types.{
  Call, active, CallParticipant, connected, disconnected, is_ended, is_ringing, is_waiting,
  is_connected, is_viewer,
}
use aloqa_codex.Calls.Store.{
  Db, Action, update_status, rows_where, participant_updated, waiting_room_admitted,
  waiting_room_rejected,
}
use aloqa_codex.Calls.Participants.{
  get_participant, list_participants, update_participant_status, update_participant_media,
  remove_participant_by_id, count_where,
}
use aloqa_codex.Calls.Actions.{◌⨾◌, done, reading, with_error, either, recovering}
use aloqa_codex.Calls.Service.{
  Service, publish_participant_event, require_call_access, require_host_or_co_host,
}
use aloqa_codex.Calls.Targets.{ParticipantTarget, get_participant_by_target}

-- ---- the waiting room

abbrev target_error_as : GoError → Option GoError → GoError
target_error_as fallback none = fallback
target_error_as fallback (some e) =
    if is_not_found e then new_not_found "participant not found" else e

-- What a target that is not found, or cannot be read, is reported as.
abbrev pub target_error : GoError → GoError → GoError
target_error fallback e = target_error_as fallback (find_app_error e)

unfoldable pub waiting_checks :
    Service → Db → ℕ → ℕ → ℕ → ParticipantTarget → Result (Call × CallParticipant)
waiting_checks s db workspace_id call_id user_id target = do
  call ← require_call_access s db workspace_id call_id user_id
  require_host_or_co_host db call_id user_id
  p ←
      map_err (λ e. target_error (new_internal "failed to get participant" e) e)
        (get_participant_by_target db call_id target)
  guard (is_waiting p.status) (new_conflict "participant is not in the waiting room")
  ok (call, p)

abbrev pub activate : Call → Action (Unit {0})
activate call =
    either (is_ringing call.status)
      (with_error (new_internal "failed to activate call") (update_status call.id active)) (done tt)

unfoldable pub admit_participant : Service → ℕ → ℕ → ℕ → ParticipantTarget → Action (Unit {0})
admit_participant s workspace_id call_id user_id target =
    reading (λ db. waiting_checks s db workspace_id call_id user_id target)
      λ (call, p).
        with_error (new_internal "failed to admit participant")
          (update_participant_status p.id connected)
        ⨾ publish_participant_event waiting_room_admitted call (record p { status = connected })
        ⨾ activate call

unfoldable pub list_for_moderator : Service → Db → ℕ → ℕ → ℕ → Result (Call × List CallParticipant)
list_for_moderator s db workspace_id call_id user_id = do
  call ← require_call_access s db workspace_id call_id user_id
  require_host_or_co_host db call_id user_id
  ps ← map_err (new_internal "failed to list participants") (list_participants db call_id)
  ok (call, ps)

-- One round of `AdmitAll`: an error is logged, and the loop goes on.
abbrev pub admit_one : Call → CallParticipant → Action (Unit {0})
admit_one call p =
    either (is_waiting p.status)
      (recovering (update_participant_status p.id connected)
        (publish_participant_event waiting_room_admitted call (record p { status = connected }))
        (done tt))
      (done tt)

unfoldable pub admit_each : Call → List CallParticipant → Action (Unit {0})
admit_each call [] = done tt
admit_each call (p ∷ ps) = admit_one call p ⨾ admit_each call ps

unfoldable pub admit_all : Service → ℕ → ℕ → ℕ → Action (Unit {0})
admit_all s workspace_id call_id user_id =
    reading (λ db. list_for_moderator s db workspace_id call_id user_id)
      λ (call, ps). admit_each call ps ⨾ activate call

unfoldable pub reject_participant : Service → ℕ → ℕ → ℕ → ParticipantTarget → Action (Unit {0})
reject_participant s workspace_id call_id user_id target =
    reading (λ db. waiting_checks s db workspace_id call_id user_id target)
      λ (call, p).
        with_error (new_internal "failed to reject participant") (remove_participant_by_id p.id)
        ⨾ publish_participant_event waiting_room_rejected call (record p { status = disconnected })

unfoldable pub list_waiting : Service → Db → ℕ → ℕ → ℕ → Result (List CallParticipant)
unfolding list_for_moderator rows_where
list_waiting s db workspace_id call_id user_id =
    list_for_moderator s db workspace_id call_id user_id >>= λ (call, ps).
    ok (rows_where (λ p. is_waiting p.status) ps)

-- ---- media

abbrev pub is_on : Option Bool → Bool
is_on (some true) = true
is_on _ = false

abbrev pub is_off : Option Bool → Bool
is_off (some false) = true
is_off _ = false

abbrev pub is_given : Option Bool → Bool
is_given none = false
is_given (some _) = true

-- A nil pointer leaves the value as it is.
abbrev pub patched : Option Bool → Bool → Bool
patched none old = old
patched (some new) old = new

pub record MediaPatch : Type 0 where
  pub audio_muted : Option Bool
  pub video_muted : Option Bool
  pub screen_sharing : Option Bool

abbrev pub overlaid : MediaPatch → CallParticipant → CallParticipant
overlaid m p = record p {
  audio_muted = patched m.audio_muted p.audio_muted;
  video_muted = patched m.video_muted p.video_muted;
  screen_sharing = patched m.screen_sharing p.screen_sharing;
}

abbrev pub screen_share_limit : Service → ℤ
screen_share_limit s =
    let limit = s.media.max_screen_shares_per_call in if leb_ℤ limit (pos 0) then pos 1 else limit

abbrev pub is_other_share : ℕ → CallParticipant → Bool
is_other_share id p = not (nat_eqb p.id id) && p.screen_sharing && is_connected p.status

unfoldable pub check_screen_share_capacity : Service → Db → ℕ → ℕ → Result (Unit {0})
unfolding list_participants rows_where
check_screen_share_capacity s db call_id current =
    map_err (new_internal "failed to check screen share capacity") (list_participants db call_id)
    >>= λ ps.
        guard (not (leb_ℤ (screen_share_limit s) (pos (count_where (is_other_share current) ps))))
          (new_conflict "screen share limit reached for this call")

abbrev own_row_error : GoError → GoError
own_row_error e =
    if is_not_found e
    then new_not_found "participant not found in this call"
    else new_internal "failed to get participant" e

abbrev is_publishing : CallParticipant → Bool
is_publishing p = not p.audio_muted || not p.video_muted || p.screen_sharing

abbrev pub share_check : Service → Db → ℕ → MediaPatch → CallParticipant → Result (Unit {0})
share_check s db call_id m p =
    if is_on m.screen_sharing && not p.screen_sharing
    then check_screen_share_capacity s db call_id p.id
    else ok tt

unfoldable pub media_checks :
    Service → Db → ℕ → ℕ → ℕ → MediaPatch → Result (Call × CallParticipant)
media_checks s db workspace_id call_id user_id m = do
  call ← require_call_access s db workspace_id call_id user_id
  guard (not (is_ended call.status)) (new_forbidden "call has already ended")
  guard (not (is_on m.screen_sharing && not call.settings.screen_sharing))
      (new_forbidden "screen sharing is disabled for this call")
  p ← map_err own_row_error (get_participant db call_id user_id)
  guard (not (is_viewer p.role && is_publishing (overlaid m p)))
      (new_forbidden "viewers cannot publish media")
  share_check s db call_id m p
  ok (call, p)

abbrev pub writes_media : CallParticipant → Action (Unit {0})
writes_media p = update_participant_media p.id p.audio_muted p.video_muted p.screen_sharing

unfoldable pub update_media : Service → ℕ → ℕ → ℕ → MediaPatch → Action (Unit {0})
update_media s workspace_id call_id user_id m =
    reading (λ db. media_checks s db workspace_id call_id user_id m)
      λ (call, p).
        with_error (new_internal "failed to update media state") (writes_media (overlaid m p))
        ⨾ publish_participant_event participant_updated call (overlaid m p)
