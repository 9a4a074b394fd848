-- ===== src/Calls/Breakout.antt =====
-- internal/service/call/breakout.go: breakout rooms, and who is in which.
use aloqa_codex.Common.{
  ℕ, suc, String, Bool, true, false, not, List, [], ◌∷◌, ◌++◌, Option, none, some, if◌then◌else◌,
  nat_eqb,
}
use aloqa_codex.Common.Equality.{◌==◌, string_eq}
use aloqa_codex.Cerrors.{
  GoError, Result, ok, err, ◌>>=◌, ◌>>◌, guard, map_err, is_not_found, new_forbidden, new_not_found,
  new_internal, new_conflict, new_invalid_input,
}
use aloqa_codex.Calls.Types.{
  Call, CallParticipant, BreakoutRoom, room_active, is_active_call, is_connected, is_room_active,
}
use aloqa_codex.Calls.Store.{
  Db, Action, get_call, of_room, of_move, of_rooms, of_message, breakout_room_created,
  breakout_room_closed, breakout_rooms_all_closed, breakout_participant_moved, breakout_broadcast,
  create_room, close_room, remove_peer, RoomId, main_room, breakout_room,
}
use aloqa_codex.Calls.Participants.{get_participant}
use aloqa_codex.Calls.Rooms.{
  create_breakout_room, get_breakout_room, list_by_call, close_breakout_room, close_all_by_call,
  assign_participant, unassign_participant, unassign_all_by_room, list_room_participants,
}
use aloqa_codex.Calls.Actions.{◌⨾◌, done, lift, reading, logged, with_error, either, calls_sfu}
use aloqa_codex.Calls.Service.{
  Service, publish_breakout_event, wrap_call_error, require_host_or_co_host,
}

pub record CreateBreakoutRoomInput : Type 0 where
  pub name : String
  pub time_limit : Option ℕ

abbrev the_call : Db → ℕ → Result Call
the_call db call_id = map_err wrap_call_error (get_call db call_id)

-- A call of the SFU, where one is configured.
abbrev with_sfu : Service → Action (Unit {0}) → Action (Unit {0})
with_sfu s step = either s.has_sfu step (done tt)

-- ---- creating

abbrev is_empty {ℓ} : {A : Type ℓ} → List A → Bool
is_empty [] = true
is_empty (_ ∷ _) = false

unfoldable pub create_checks : Db → ℕ → ℕ → List CreateBreakoutRoomInput → Result Call
create_checks db call_id user_id inputs = do
  call ← the_call db call_id
  guard (is_active_call call.status)
      (new_forbidden "breakout rooms can only be created in an active call")
  guard call.settings.breakout_rooms (new_forbidden "breakout rooms are not enabled for this call")
  require_host_or_co_host db call_id user_id
  guard (not (is_empty inputs)) (new_invalid_input "at least one breakout room is required")
  ok call

abbrev new_room : ℕ → ℕ → ℕ → CreateBreakoutRoomInput → ℕ → BreakoutRoom
new_room id call_id user_id input now = record {
  id = id;
  call_id = call_id;
  name = input.name;
  created_by = user_id;
  time_limit = input.time_limit;
  status = room_active;
  created_at = now;
  closed_at = none;
}

abbrev create_one : Service → Call → BreakoutRoom → Action (Unit {0})
create_one s call r =
    lift (guard (not (r.name == "")) (new_invalid_input "breakout room name is required"))
    ⨾ with_error (new_internal "failed to create breakout room") (create_breakout_room r)
    ⨾ with_sfu s (calls_sfu (create_room (breakout_room call.id r.id)))
    ⨾ publish_breakout_event breakout_room_created call (of_room r)

-- The loop: the rooms made before an error stay. `new_id` is what the i-th call of `id.New` gives.
unfoldable pub create_rooms :
    Service
    → (ℕ → ℕ)
    → Call
    → ℕ
    → ℕ
    → List CreateBreakoutRoomInput
    → List BreakoutRoom
    → Action (List BreakoutRoom)
create_rooms s new_id call user_id now [] rooms = done rooms
create_rooms s new_id call user_id now (input ∷ inputs) rooms =
    let r = new_room (new_id 0) call.id user_id input now in
    create_one s call r
    ⨾ create_rooms s (λ i. new_id (suc i)) call user_id now inputs (rooms ++ r ∷ [])

unfoldable pub create_breakout_rooms :
    Service → (ℕ → ℕ) → ℕ → ℕ → ℕ → List CreateBreakoutRoomInput → Action (List BreakoutRoom)
create_breakout_rooms s new_id now call_id user_id inputs =
    reading (λ db. create_checks db call_id user_id inputs)
      λ call. create_rooms s new_id call user_id now inputs []

unfoldable pub list_breakout_rooms : Db → ℕ → Result (List BreakoutRoom)
unfolding get_call list_by_call
list_breakout_rooms db call_id = the_call db call_id >>= λ _.
    map_err (new_internal "failed to list breakout rooms") (list_by_call db call_id)

-- ---- moving

abbrev room_error : GoError → GoError
room_error e =
    if is_not_found e
    then new_not_found "breakout room not found"
    else new_internal "failed to get breakout room" e

abbrev mover_error : GoError → GoError
mover_error e =
    if is_not_found e
    then new_forbidden "user is not a participant in this call"
    else new_internal "failed to get participant" e

unfoldable pub room_of_call : Db → ℕ → ℕ → Result BreakoutRoom
unfolding get_breakout_room
room_of_call db call_id room_id = do
  r ← map_err room_error (get_breakout_room db room_id)
  guard (nat_eqb r.call_id call_id) (new_forbidden "breakout room does not belong to this call")
  ok r

unfoldable pub move_checks : Db → ℕ → ℕ → ℕ → Result (Call × CallParticipant)
move_checks db call_id user_id room_id = do
  call ← the_call db call_id
  guard (is_active_call call.status) (new_forbidden "call is not active")
  r ← room_of_call db call_id room_id
  guard (is_room_active r.status) (new_forbidden "breakout room is closed")
  p ← map_err mover_error (get_participant db call_id user_id)
  guard (is_connected p.status) (new_forbidden "participant is not connected")
  ok (call, p)

abbrev room_of : ℕ → Option ℕ → RoomId
room_of call_id none = main_room call_id
room_of call_id (some id) = breakout_room call_id id

-- `RemovePeer` on a room that the SFU does not have does nothing there.
unfoldable pub join_breakout_room : Service → ℕ → ℕ → ℕ → Action (Unit {0})
join_breakout_room s call_id user_id room_id =
    reading (λ db. move_checks db call_id user_id room_id)
      λ (call, p).
        with_sfu s (calls_sfu (remove_peer (room_of call_id p.breakout_room_id) user_id))
        ⨾ with_error (new_internal "failed to join breakout room")
            (assign_participant call_id user_id room_id)
        ⨾ publish_breakout_event breakout_participant_moved call (of_move user_id (some room_id))

abbrev room_or_conflict : Option ℕ → Result ℕ
room_or_conflict none = err (new_conflict "participant is already in the main room")
room_or_conflict (some id) = ok id

unfoldable pub return_checks : Db → ℕ → ℕ → Result (Call × ℕ)
return_checks db call_id user_id = do
  call ← the_call db call_id
  p ← map_err mover_error (get_participant db call_id user_id)
  room_id ← room_or_conflict p.breakout_room_id
  ok (call, room_id)

unfoldable pub return_to_main_room : Service → ℕ → ℕ → Action (Unit {0})
return_to_main_room s call_id user_id =
    reading (λ db. return_checks db call_id user_id)
      λ (call, room_id).
        with_sfu s (calls_sfu (remove_peer (breakout_room call_id room_id) user_id))
        ⨾ with_error (new_internal "failed to return to main room")
            (unassign_participant call_id user_id)
        ⨾ publish_breakout_event breakout_participant_moved call (of_move user_id none)

-- ---- closing

unfoldable pub close_checks : Db → ℕ → ℕ → ℕ → Result (Call × BreakoutRoom)
close_checks db call_id user_id room_id = do
  call ← the_call db call_id
  require_host_or_co_host db call_id user_id
  r ← room_of_call db call_id room_id
  guard (is_room_active r.status) (new_conflict "breakout room is already closed")
  ok (call, r)

-- `CloseBreakoutRoom`
unfoldable pub close_room_of_call : Service → ℕ → ℕ → ℕ → ℕ → Action (Unit {0})
close_room_of_call s now call_id user_id room_id =
    reading (λ db. close_checks db call_id user_id room_id)
      λ (call, r).
        logged (unassign_all_by_room room_id)
        ⨾ with_sfu s (calls_sfu (close_room (breakout_room call_id room_id)))
        ⨾ with_error (new_internal "failed to close breakout room")
            (close_breakout_room room_id now)
        ⨾ publish_breakout_event breakout_room_closed call (of_room r)

unfoldable pub close_all_checks : Db → ℕ → ℕ → Result (Call × List BreakoutRoom)
close_all_checks db call_id user_id = do
  call ← the_call db call_id
  require_host_or_co_host db call_id user_id
  rooms ← map_err (new_internal "failed to list breakout rooms") (list_by_call db call_id)
  ok (call, rooms)

abbrev pub empty_one : Service → ℕ → BreakoutRoom → Action (Unit {0})
empty_one s call_id r =
    either (is_room_active r.status)
      (logged (unassign_all_by_room r.id)
        ⨾ with_sfu s (calls_sfu (close_room (breakout_room call_id r.id))))
      (done tt)

unfoldable pub empty_rooms : Service → ℕ → List BreakoutRoom → Action (Unit {0})
empty_rooms s call_id [] = done tt
empty_rooms s call_id (r ∷ rs) = empty_one s call_id r ⨾ empty_rooms s call_id rs

unfoldable pub close_all_breakout_rooms : Service → ℕ → ℕ → ℕ → Action (Unit {0})
close_all_breakout_rooms s now call_id user_id =
    reading (λ db. close_all_checks db call_id user_id)
      λ (call, rooms).
        empty_rooms s call_id rooms
        ⨾ with_error (new_internal "failed to close all breakout rooms")
            (close_all_by_call call_id now)
        ⨾ publish_breakout_event breakout_rooms_all_closed call of_rooms

-- ---- announcements and reads

unfoldable pub broadcast_checks : Db → ℕ → ℕ → String → Result Call
broadcast_checks db call_id user_id message = do
  call ← the_call db call_id
  require_host_or_co_host db call_id user_id
  guard (not (message == "")) (new_invalid_input "message is required")
  ok call

unfoldable pub broadcast_to_breakout_rooms : ℕ → ℕ → String → Action (Unit {0})
broadcast_to_breakout_rooms call_id user_id message =
    reading (λ db. broadcast_checks db call_id user_id message)
      λ call. publish_breakout_event breakout_broadcast call (of_message user_id message)

unfoldable pub list_breakout_room_participants : Db → ℕ → ℕ → Result (List CallParticipant)
unfolding room_of_call list_room_participants
list_breakout_room_participants db call_id room_id = room_of_call db call_id room_id >>= λ _.
    map_err (new_internal "failed to list participants") (list_room_participants db room_id)
