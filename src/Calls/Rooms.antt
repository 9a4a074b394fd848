-- ===== src/Calls/Rooms.antt =====
-- internal/repository/postgres/breakout_room.go: the table of breakout rooms, and the column of the
-- participants that names the room that they are in.
use aloqa_codex.Common.{
  ℕ, Bool, false, not, ◌&&◌, List, ◌∷◌, Option, none, some, any, if◌then◌else◌, nat_eqb,
}
use aloqa_codex.Cerrors.{wrap, Result, ok, err, new_not_found}
use aloqa_codex.Calls.Types.{BreakoutRoom, room_closed, CallParticipant, is_present, is_room_active}
use aloqa_codex.Calls.Store.{
  Db, Action, query, exec, unique_violation, find_where, rows_where, update_where, found,
  create_room_st, get_room_st, list_rooms_st, close_room_st, close_rooms_st, assign_st, unassign_st,
  unassign_room_st, list_room_participants_st,
}
use aloqa_codex.Calls.Participants.{is_guest_row}

abbrev pub is_room : ℕ → BreakoutRoom → Bool
is_room id r = nat_eqb r.id id

unfoldable pub create_breakout_room : BreakoutRoom → Action (Unit {0})
create_breakout_room r db = exec db create_room_st r.id "postgres: create breakout room" (
    if any (is_room r.id) db.rooms
    then (db, err (wrap "postgres: create breakout room" unique_violation))
    else (record db { rooms = r ∷ db.rooms }, ok tt))

unfoldable pub get_breakout_room : Db → ℕ → Result BreakoutRoom
unfolding find_where
get_breakout_room db id =
    query db get_room_st id "postgres: get breakout room"
      (found (new_not_found "breakout room not found") (find_where (is_room id) db.rooms))

abbrev is_room_of : ℕ → BreakoutRoom → Bool
is_room_of call_id r = nat_eqb r.call_id call_id

unfoldable pub list_by_call : Db → ℕ → Result (List BreakoutRoom)
unfolding rows_where
list_by_call db call_id =
    query db list_rooms_st call_id "postgres: list breakout rooms"
      (ok (rows_where (is_room_of call_id) db.rooms))

abbrev closed_room : ℕ → BreakoutRoom → BreakoutRoom
closed_room now r = record r { status = room_closed; closed_at = some now }

abbrev is_open_room : ℕ → BreakoutRoom → Bool
is_open_room id r = is_room id r && is_room_active r.status

unfoldable pub close_breakout_room : ℕ → ℕ → Action (Unit {0})
unfolding update_where
close_breakout_room id now db = exec db close_room_st id "postgres: close breakout room" (
    if any (is_open_room id) db.rooms
    then (record db { rooms = update_where (is_open_room id) (closed_room now) db.rooms }, ok tt)
    else (db, err (new_not_found "breakout room not found or already closed")))

abbrev is_open_room_of : ℕ → BreakoutRoom → Bool
is_open_room_of call_id r = is_room_of call_id r && is_room_active r.status

unfoldable pub close_all_by_call : ℕ → ℕ → Action (Unit {0})
unfolding update_where
close_all_by_call call_id now db =
    exec db close_rooms_st call_id "postgres: close all breakout rooms" (
      record db { rooms = update_where (is_open_room_of call_id) (closed_room now) db.rooms },
      ok tt,
    )

-- `user_id = $2` on the column, which is null in a guest's row.
abbrev pub is_member_row : ℕ → ℕ → CallParticipant → Bool
is_member_row call_id user_id p =
    nat_eqb p.call_id call_id && nat_eqb p.user_id user_id && not (is_guest_row p.principal_type)

abbrev pub is_present_row : ℕ → ℕ → CallParticipant → Bool
is_present_row call_id user_id p = is_member_row call_id user_id p && is_present p.status

unfoldable pub assign_participant : ℕ → ℕ → ℕ → Action (Unit {0})
unfolding update_where
assign_participant call_id user_id room_id db =
    exec db assign_st user_id "postgres: assign participant to breakout room" (
      if any (is_present_row call_id user_id) db.participants
      then (
        record db {
          participants =
              update_where (is_present_row call_id user_id)
                (λ p. record p { breakout_room_id = some room_id }) db.participants;
        },
        ok tt,
      )
      else (db, err (new_not_found "active participant not found in call")))

unfoldable pub unassign_participant : ℕ → ℕ → Action (Unit {0})
unfolding update_where
unassign_participant call_id user_id db =
    exec db unassign_st user_id "postgres: unassign participant from breakout room" (
      if any (is_member_row call_id user_id) db.participants
      then (
        record db {
          participants =
              update_where (is_member_row call_id user_id)
                (λ p. record p { breakout_room_id = none }) db.participants;
        },
        ok tt,
      )
      else (db, err (new_not_found "participant not found in call")))

abbrev pub is_id : ℕ → Option ℕ → Bool
is_id id none = false
is_id id (some other) = nat_eqb other id

abbrev is_in_room : ℕ → CallParticipant → Bool
is_in_room room_id p = is_id room_id p.breakout_room_id

unfoldable pub unassign_all_by_room : ℕ → Action (Unit {0})
unfolding update_where
unassign_all_by_room room_id db =
    exec db unassign_room_st room_id "postgres: unassign all participants from breakout room" (
      record db {
        participants =
            update_where (is_in_room room_id) (λ p. record p { breakout_room_id = none })
              db.participants;
      },
      ok tt,
    )

unfoldable pub list_room_participants : Db → ℕ → Result (List CallParticipant)
unfolding rows_where
list_room_participants db room_id =
    query db list_room_participants_st room_id "postgres: list breakout room participants"
      (ok (rows_where (λ p. is_in_room room_id p && is_present p.status) db.participants))
