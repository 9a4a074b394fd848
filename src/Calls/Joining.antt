-- ===== src/Calls/Joining.antt =====
-- `JoinCall` of internal/service/call/service.go. The new id and the time are arguments; what is only written to
-- the log is left out.
use aloqa_codex.Common.{ℕ, Bool, true, false, not, List, Option, none, some, if◌then◌else◌}
use aloqa_codex.Common.Int.{ℤ, pos, leb_ℤ, ltb_ℤ}
use aloqa_codex.Cerrors.{
  GoError, as_app_error, Code, Result, ok, err, ◌>>=◌, ◌>>◌, guard, map_err, is_not_found,
  is_forbidden, new_forbidden, new_internal, new_conflict,
}
use aloqa_codex.Calls.Types.{
  Call, active, CallParticipant, waiting, connected, participant, viewer, is_ended, is_ringing,
  is_webinar, is_waiting, is_present,
}
use aloqa_codex.Calls.Store.{Db, Action, update_status, participant_joined, waiting_room_joined}
use aloqa_codex.Calls.Participants.{
  add_participant, get_participant, list_participants, update_participant_status,
  normalize_participant_principal, count_where,
}
use aloqa_codex.Calls.Actions.{◌⨾◌, done, reading, logged, with_error, within_tx, either}
use aloqa_codex.Calls.Service.{
  Service, TxScope, by_tx, publish_participant_event, enqueue_participant_event_tx, requires_calls,
  require_call_access,
}
use aloqa_codex.Calls.Capacity.{effective_participant_cap}
use aloqa_codex.Calls.Starting.{add_participant_with_optional_capacity, new_participant}

-- ---- JoinCall

abbrev existing_or_nil : Result CallParticipant → Result (Option CallParticipant)
existing_or_nil (ok p) = ok (some p)
existing_or_nil (err e) =
    if is_not_found e then ok none else err (new_internal "failed to check existing participant" e)

-- The call, and the participant's row if the user has one.
unfoldable pub join_checks : Service → Db → ℕ → ℕ → ℕ → Result (Call × Option CallParticipant)
join_checks s db workspace_id call_id user_id = do
  call ← require_call_access s db workspace_id call_id user_id
  guard (not (is_ended call.status)) (new_forbidden "call has already ended")
  existing ← existing_or_nil (get_participant db call_id user_id)
  ok (call, existing)

abbrev rejoin_tx : TxScope → Call → CallParticipant → Action (Unit {0})
rejoin_tx scope call p =
    requires_calls scope
    ⨾ update_participant_status p.id connected
    ⨾ enqueue_participant_event_tx scope participant_joined call (record p { status = connected })

abbrev rejoin_writes : Service → Call → CallParticipant → Action (Unit {0})
rejoin_writes s call p = with_error (new_internal "failed to update participant status") (
    by_tx s.tx (update_participant_status p.id connected)
      λ scope. within_tx (rejoin_tx scope call p))

abbrev publish_rejoin : Service → Call → CallParticipant → Action (Unit {0})
publish_rejoin s call p =
    by_tx s.tx (publish_participant_event participant_joined call p) λ _. done tt

-- The branch of a user who has a row: it is connected again, whatever its status was.
unfoldable pub rejoin : Service → Call → CallParticipant → ℕ → Action CallParticipant
rejoin s call p now =
    let back = record p { status = connected; joined_at = some now } in
    rejoin_writes s call p ⨾ publish_rejoin s call back ⨾ done back

abbrev capacity_count : List CallParticipant → ℕ
capacity_count ps = count_where (λ p. is_present p.status) ps

abbrev capacity_check : Db → Call → ℤ → Result (Unit {0})
capacity_check db call capacity =
    if ltb_ℤ (pos 0) capacity
    then (map_err (new_internal "failed to check call capacity") (list_participants db call.id)
        >>= λ ps.
            guard (not (leb_ℤ capacity (pos (capacity_count ps))))
              (new_conflict "call has reached maximum participant capacity"))
    else ok tt

unfoldable pub admission_checks : Service → Db → Call → Result (Unit {0})
admission_checks s db call = do
  guard (not call.settings.locked) (new_forbidden "call is locked")
  capacity_check db call (effective_participant_cap s call)

abbrev pub joining_row : Call → ℕ → ℕ → ℕ → CallParticipant
joining_row call id user_id now =
    new_participant id call.id user_id (if is_webinar call.kind then viewer else participant)
      (if call.settings.waiting_room then waiting else connected) call.settings.mute_on_join now

abbrev activated : Call → Call
activated call = record call { status = if is_ringing call.status then active else call.status }

-- `AddParticipant` has filled in the row that the events show.
abbrev shown : CallParticipant → CallParticipant
shown p = normalize_participant_principal p

abbrev pub activates : Call → Action (Unit {0})
activates call = either (is_ringing call.status) (update_status call.id active) (done tt)

abbrev pub join_tx : TxScope → Call → CallParticipant → Action (Unit {0})
join_tx scope call p =
    requires_calls scope
    ⨾ add_participant p
    ⨾ either (is_waiting p.status)
        (enqueue_participant_event_tx scope waiting_room_joined call (shown p))
        (activates call
          ⨾ enqueue_participant_event_tx scope participant_joined (activated call) (shown p))

abbrev is_conflict : GoError → Bool
is_conflict e = elim (as_app_error e) [ some Code.conflict ↦ true | _ ↦ false ]

abbrev pub join_tx_error : GoError → GoError
join_tx_error e = if is_conflict e then e else new_internal "failed to add participant" e

abbrev pub join_direct_error : GoError → GoError
join_direct_error e =
    if is_forbidden e
    then new_conflict "call has reached maximum participant capacity"
    else new_internal "failed to add participant" e

abbrev pub join_direct : Call → CallParticipant → ℤ → Action (Unit {0})
join_direct call p capacity =
    with_error join_direct_error (add_participant_with_optional_capacity p capacity)
    ⨾ either (is_waiting p.status) (publish_participant_event waiting_room_joined call (shown p))
        (logged (activates call) ⨾ publish_participant_event participant_joined call (shown p))

unfoldable pub join_writes : Service → Call → CallParticipant → Action (Unit {0})
join_writes s call p =
    by_tx s.tx (join_direct call p (effective_participant_cap s call))
      λ scope. with_error join_tx_error (within_tx (join_tx scope call p))

-- The branch of a user who has no row.
unfoldable pub join_new : Service → Call → ℕ → ℕ → ℕ → Action CallParticipant
join_new s call id now user_id =
    let p = joining_row call id user_id now in
    reading (λ db. admission_checks s db call) λ _. join_writes s call p ⨾ done (shown p)

abbrev pub join_or_rejoin :
    Service → Call → Option CallParticipant → ℕ → ℕ → ℕ → Action CallParticipant
join_or_rejoin s call (some p) id now user_id = rejoin s call p now
join_or_rejoin s call none id now user_id = join_new s call id now user_id

unfoldable pub join_call : Service → ℕ → ℕ → ℕ → ℕ → ℕ → Action CallParticipant
join_call s id now workspace_id call_id user_id =
    reading (λ db. join_checks s db workspace_id call_id user_id)
      λ (call, existing). join_or_rejoin s call existing id now user_id
