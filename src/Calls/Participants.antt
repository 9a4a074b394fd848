-- ===== src/Calls/Participants.antt =====
-- internal/repository/postgres/call.go: the table of participants, with its keys and its check.
use aloqa_codex.Common.{
  ℕ, String, Bool, true, false, not, ◌&&◌, ◌||◌, List, ◌∷◌, Option, none, some, any, if◌then◌else◌,
  nat_eqb, ltb, length,
}
use aloqa_codex.Cerrors.{
  GoError, plain, app, Code, wrap, Result, ok, err, new_not_found, new_forbidden,
}
use aloqa_codex.Calls.Types.{
  CallRole, CallParticipant, ParticipantStatus, PrincipalType, unset, user_principal,
  guest_principal, is_present,
}
use aloqa_codex.Calls.Store.{
  Statement, add_participant_st, get_participant_st, get_guest_participant_st, list_participants_st,
  update_participant_status_st, update_participant_role_st, update_participant_media_st,
  remove_participant_st, Db, Action, query, exec, find_where, rows_where, update_where,
  delete_where, found, is_call,
}

-- ---- participants

abbrev pub is_guest_row : PrincipalType → Bool
is_guest_row guest_principal = true
is_guest_row _ = false

abbrev is_user_row : PrincipalType → Bool
is_user_row user_principal = true
is_user_row _ = false

abbrev is_some : Option ℕ → Bool
is_some none = false
is_some (some _) = true

abbrev principal_or : PrincipalType → Option ℕ → PrincipalType
principal_or unset session = if is_some session then guest_principal else user_principal
principal_or given session = given

unfoldable pub normalize_participant_principal : CallParticipant → CallParticipant
normalize_participant_principal p =
    let kind = principal_or p.principal_type p.guest_session_id in
    record p { principal_type = kind; user_id = if is_guest_row kind then 0 else p.user_id }

-- The row that is written: the session's column is set only for a guest. The room's column is null.
abbrev pub participant_row : CallParticipant → CallParticipant
participant_row p = record p {
  guest_session_id = if is_guest_row p.principal_type then p.guest_session_id else none;
  breakout_room_id = none;
}

-- `call_participants_principal_check` of migrations/026_meeting_guests_and_threads.sql.
abbrev pub has_principal : CallParticipant → Bool
has_principal p =
    (is_user_row p.principal_type && not (nat_eqb p.user_id 0))
    || (is_guest_row p.principal_type && is_some p.guest_session_id)

abbrev same_session : Option ℕ → Option ℕ → Bool
same_session (some a) (some b) = nat_eqb a b
same_session _ _ = false

abbrev pub is_participant : ℕ → CallParticipant → Bool
is_participant id p = nat_eqb p.id id

abbrev pub is_user_in : ℕ → ℕ → CallParticipant → Bool
is_user_in call_id user_id p =
    nat_eqb p.call_id call_id && nat_eqb p.user_id user_id && is_user_row p.principal_type

abbrev pub is_guest_in : ℕ → Option ℕ → CallParticipant → Bool
is_guest_in call_id session p =
    nat_eqb p.call_id call_id
    && same_session p.guest_session_id session
    && is_guest_row p.principal_type

-- The primary key and the unique indexes of the table, in the same migration.
abbrev pub clashes : CallParticipant → CallParticipant → Bool
clashes p q =
    is_participant p.id q
    || (is_user_row p.principal_type && is_user_in p.call_id p.user_id q)
    || (is_guest_row p.principal_type && is_guest_in p.call_id p.guest_session_id q)

abbrev pub insert_participant : String → CallParticipant → Action (Unit {0})
insert_participant message p db =
    if not (any (is_call p.call_id) db.calls) || not (has_principal p)
    then (db, err (wrap message (plain "constraint violation")))
    else if any (clashes p) db.participants
    then (db, err (app Code.already_exists "participant already in call"))
    else (record db { participants = p ∷ db.participants }, ok tt)

unfoldable pub add_participant : CallParticipant → Action (Unit {0})
unfolding normalize_participant_principal
add_participant p db =
    let message : String = "postgres: add call participant" in
    exec db add_participant_st p.id message
      (insert_participant message (participant_row (normalize_participant_principal p)) db)

abbrev pub count_where : (CallParticipant → Bool) → List CallParticipant → ℕ
count_where f ps = length (rows_where f ps)

abbrev pub is_present_in : ℕ → CallParticipant → Bool
is_present_in call_id p = nat_eqb p.call_id call_id && is_present p.status

unfoldable pub add_participant_if_capacity : CallParticipant → ℕ → Action (Unit {0})
unfolding normalize_participant_principal rows_where
add_participant_if_capacity p capacity db =
    let message : String = "postgres: add participant with capacity check" in
    exec db add_participant_st p.id message (
      if ltb (count_where (is_present_in p.call_id) db.participants) capacity
      then insert_participant message (participant_row (normalize_participant_principal p)) db
      else (db, err (new_forbidden "call has reached maximum participant capacity")))

abbrev pub no_participant : GoError
no_participant = new_not_found "call participant not found"

unfoldable pub get_participant : Db → ℕ → ℕ → Result CallParticipant
unfolding find_where
get_participant db call_id user_id =
    query db get_participant_st user_id "postgres: get call participant"
      (found no_participant (find_where (is_user_in call_id user_id) db.participants))

unfoldable pub get_guest_participant : Db → ℕ → ℕ → Result CallParticipant
unfolding find_where
get_guest_participant db call_id session =
    query db get_guest_participant_st session "postgres: get guest call participant"
      (found no_participant (find_where (is_guest_in call_id (some session)) db.participants))

abbrev pub is_in : ℕ → CallParticipant → Bool
is_in call_id p = nat_eqb p.call_id call_id

unfoldable pub list_participants : Db → ℕ → Result (List CallParticipant)
unfolding rows_where
list_participants db call_id =
    query db list_participants_st call_id "postgres: list call participants"
      (ok (rows_where (is_in call_id) db.participants))

-- `UPDATE call_participants SET … WHERE id = $1`
abbrev pub update_participant :
    Statement → String → ℕ → (CallParticipant → CallParticipant) → Action (Unit {0})
update_participant st message id change db = exec db st id message (
    if any (is_participant id) db.participants
    then (
      record db { participants = update_where (is_participant id) change db.participants },
      ok tt,
    )
    else (db, err no_participant))

unfoldable pub update_participant_status : ℕ → ParticipantStatus → Action (Unit {0})
unfolding update_where
update_participant_status id status =
    update_participant update_participant_status_st "postgres: update participant status" id
      (λ p. record p { status = status })

unfoldable pub update_participant_role : ℕ → CallRole → Action (Unit {0})
unfolding update_where
update_participant_role id role =
    update_participant update_participant_role_st "postgres: update participant role" id
      (λ p. record p { role = role })

unfoldable pub update_participant_media : ℕ → Bool → Bool → Bool → Action (Unit {0})
unfolding update_where
update_participant_media id audio_muted video_muted screen_sharing =
    update_participant update_participant_media_st "postgres: update participant media" id (λ p.
      record p {
        audio_muted = audio_muted;
        video_muted = video_muted;
        screen_sharing = screen_sharing;
      })

unfoldable pub remove_participant_by_id : ℕ → Action (Unit {0})
unfolding delete_where
remove_participant_by_id id db =
    exec db remove_participant_st id "postgres: remove call participant by id" (
      if any (is_participant id) db.participants
      then (record db { participants = delete_where (is_participant id) db.participants }, ok tt)
      else (db, err no_participant))
