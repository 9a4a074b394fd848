-- ===== src/Calls/Leaving.antt =====
-- `LeaveCall`, `EndCall` and the reads of internal/service/call/service.go.
use aloqa_codex.Common.{ℕ, Bool, true, false, not, ◌&&◌, List, [], ◌∷◌, any, if◌then◌else◌, nat_eqb}
use aloqa_codex.Cerrors.{
  GoError, Result, ok, ◌>>=◌, ◌>>◌, guard, map_err, is_not_found, new_forbidden, new_not_found,
  new_internal, new_conflict,
}
use aloqa_codex.Calls.Types.{
  Call, ended, CallParticipant, disconnected, BreakoutRoom, is_ended, is_present, is_moderator,
  is_room_active, ParticipantStatus,
}
use aloqa_codex.Calls.Store.{
  Db, Action, end, list_active_by_workspace, call_ended, participant_left, close_room, main_room,
  breakout_room,
}
use aloqa_codex.Calls.Participants.{
  get_participant, get_guest_participant, list_participants, update_participant_status,
}
use aloqa_codex.Calls.Rooms.{list_by_call, close_all_by_call}
use aloqa_codex.Calls.Actions.{
  ◌⨾◌, bind, done, reading, inspecting, logged, with_error, within_tx, either, recovering,
  calls_sfu,
}
use aloqa_codex.Calls.Service.{
  Service, TxScope, by_tx, publish_call_event, publish_participant_event, enqueue_call_event_tx,
  enqueue_participant_event_tx, requires_calls, require_workspace_member, get_call_for_workspace,
  require_call_access,
}

-- ---- what happens to the media when a call ends

abbrev pub close_sfu_room : ℕ → BreakoutRoom → Action (Unit {0})
close_sfu_room call_id r =
    either (is_room_active r.status) (calls_sfu (close_room (breakout_room call_id r.id))) (done tt)

unfoldable pub close_sfu_rooms : ℕ → List BreakoutRoom → Action (Unit {0})
close_sfu_rooms call_id [] = done tt
close_sfu_rooms call_id (r ∷ rs) = close_sfu_room call_id r ⨾ close_sfu_rooms call_id rs

-- `closeAllBreakoutSFURooms`: errors are only logged.
unfoldable pub close_all_breakout_sfu_rooms : ℕ → ℕ → Action (Unit {0})
close_all_breakout_sfu_rooms call_id now = logged (
    reading (λ db. list_by_call db call_id)
      λ rooms. close_sfu_rooms call_id rooms ⨾ close_all_by_call call_id now)

abbrev pub closes_media : ℕ → ℕ → Action (Unit {0})
closes_media call_id now =
    close_all_breakout_sfu_rooms call_id now ⨾ calls_sfu (close_room (main_room call_id))

-- ---- LeaveCall

abbrev leaver_error : GoError → GoError
leaver_error e =
    if is_not_found e
    then new_not_found "participant not found in this call"
    else new_internal "failed to get participant" e

unfoldable pub leave_checks : Service → Db → ℕ → ℕ → ℕ → Result (Call × CallParticipant)
leave_checks s db workspace_id call_id user_id = do
  call ← require_call_access s db workspace_id call_id user_id
  p ← map_err leaver_error (get_participant db call_id user_id)
  ok (call, p)

abbrev pub gone : CallParticipant → CallParticipant
gone p = record p { status = disconnected }

abbrev pub ended_call : Call → Call
ended_call call = record call { status = ended }

-- Whether another participant is still there. Within a transaction the loop passes over the leaver's row.
abbrev pub has_other : ℕ → List CallParticipant → Bool
has_other id ps = any (λ p. not (nat_eqb p.id id) && is_present p.status) ps

abbrev has_connected : List CallParticipant → Bool
has_connected ps = any (λ p. is_present p.status) ps

-- Whether the call has ended on its own is what the steps return.
abbrev pub end_in_tx : TxScope → Call → ℕ → ℕ → Action Bool
end_in_tx scope call user_id now =
    end call.id now ⨾ enqueue_call_event_tx scope call_ended (ended_call call) user_id ⨾ done true

abbrev pub leave_tx : TxScope → Call → CallParticipant → ℕ → ℕ → Action Bool
leave_tx scope call p user_id now =
    requires_calls scope
    ⨾ update_participant_status p.id disconnected
    ⨾ enqueue_participant_event_tx scope participant_left call (gone p)
    ⨾ reading (λ db. list_participants db call.id)
        λ ps.
          either (not (has_other p.id ps) && not (is_ended call.status))
            (end_in_tx scope call user_id now) (done false)

abbrev end_directly : Call → ℕ → ℕ → Action Bool
end_directly call user_id now =
    recovering (end call.id now)
      (publish_call_event call_ended (ended_call call) user_id ⨾ done true) (done false)

-- A failure to list the participants is only logged: the leave itself has succeeded.
abbrev leave_direct : Call → CallParticipant → ℕ → ℕ → Action Bool
leave_direct call p user_id now =
    with_error (new_internal "failed to update participant status")
      (update_participant_status p.id disconnected)
    ⨾ publish_participant_event participant_left call (gone p)
    ⨾ inspecting (λ db. list_participants db call.id) (done false)
        λ ps.
          either (not (has_connected ps) && not (is_ended call.status))
            (end_directly call user_id now) (done false)

unfoldable pub leave_writes : Service → Call → CallParticipant → ℕ → ℕ → Action Bool
leave_writes s call p user_id now = by_tx s.tx (leave_direct call p user_id now) λ scope.
    with_error (new_internal "failed to update participant status")
      (within_tx (leave_tx scope call p user_id now))

unfoldable pub leave_call : Service → ℕ → ℕ → ℕ → ℕ → Action (Unit {0})
leave_call s now workspace_id call_id user_id =
    reading (λ db. leave_checks s db workspace_id call_id user_id)
      λ (call, p).
        bind (leave_writes s call p user_id now)
          λ auto_ended. either auto_ended (closes_media call_id now) (done tt)

-- ---- EndCall

abbrev ender_error : GoError → GoError
ender_error e =
    if is_not_found e
    then new_forbidden "user is not a participant in this call"
    else new_internal "failed to get participant" e

unfoldable pub end_checks : Service → Db → ℕ → ℕ → ℕ → Result Call
end_checks s db workspace_id call_id user_id = do
  call ← require_call_access s db workspace_id call_id user_id
  guard (not (is_ended call.status)) (new_conflict "call has already ended")
  p ← map_err ender_error (get_participant db call_id user_id)
  guard (is_moderator p.role) (new_forbidden "only host or co-host can end a call")
  ok call

unfoldable pub end_writes : Service → Call → ℕ → ℕ → Action (Unit {0})
end_writes s call user_id now =
    by_tx s.tx
      (with_error (new_internal "failed to end call") (end call.id now)
        ⨾ publish_call_event call_ended (ended_call call) user_id)
      λ scope. with_error (new_internal "failed to end call") (
        within_tx (
          requires_calls scope
          ⨾ end call.id now
          ⨾ enqueue_call_event_tx scope call_ended (ended_call call) user_id))

unfoldable pub end_call : Service → ℕ → ℕ → ℕ → ℕ → Action (Unit {0})
end_call s now workspace_id call_id user_id =
    reading (λ db. end_checks s db workspace_id call_id user_id)
      λ call. end_writes s call user_id now ⨾ closes_media call_id now

-- ---- reads

abbrev guest_row_error : GoError → GoError
guest_row_error e =
    if is_not_found e
    then new_forbidden "meeting guest is not a participant in this call"
    else new_internal "failed to verify meeting guest participant" e

abbrev is_disconnected : ParticipantStatus → Bool
is_disconnected disconnected = true
is_disconnected _ = false

unfoldable pub require_guest_call_access : Db → ℕ → ℕ → ℕ → Result (Call × CallParticipant)
unfolding get_call_for_workspace get_guest_participant
require_guest_call_access db workspace_id call_id session = do
  call ← get_call_for_workspace db workspace_id call_id
  p ← map_err guest_row_error (get_guest_participant db call_id session)
  guard (not (is_disconnected p.status))
      (new_forbidden "meeting guest is no longer connected to this call")
  ok (call, p)

unfoldable pub list_active_calls : Service → Db → ℕ → ℕ → Result (List Call)
unfolding require_workspace_member list_active_by_workspace
list_active_calls s db workspace_id user_id = do
  require_workspace_member s workspace_id user_id
  map_err (new_internal "failed to list active calls") (list_active_by_workspace db workspace_id)

unfoldable pub get_participants : Service → Db → ℕ → ℕ → ℕ → Result (List CallParticipant)
unfolding require_call_access list_participants
get_participants s db workspace_id call_id user_id =
    require_call_access s db workspace_id call_id user_id >>= λ _.
    map_err (new_internal "failed to list participants") (list_participants db call_id)

unfoldable pub get_participants_for_guest : Db → ℕ → ℕ → ℕ → Result (List CallParticipant)
unfolding require_guest_call_access list_participants
get_participants_for_guest db workspace_id call_id session =
    require_guest_call_access db workspace_id call_id session >>= λ _.
    map_err (new_internal "failed to list participants") (list_participants db call_id)
