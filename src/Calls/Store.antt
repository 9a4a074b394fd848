-- ===== src/Calls/Store.antt =====
-- internal/repository/postgres/call.go: the tables, with the statements on calls, and what the service does
-- besides: `events` are those that it publishes, `outbox` has the rows of `realtime_events` that a transaction
-- enqueues, and `sfu_calls` its calls of the SFU. `fault` says which statement the database refuses, by the row that it is about.
-- A table lists the row that was added last first.
use aloqa_codex.Common.{
  ℕ, String, Bool, not, ◌&&◌, List, [], ◌∷◌, Option, none, some, any, if◌then◌else◌, nat_eqb,
}
use aloqa_codex.Domain.{Channel, ChannelMember}
use aloqa_codex.Cerrors.{GoError, plain, wrap, Result, ok, err, new_not_found}
use aloqa_codex.Calls.Types.{
  Call, CallSettings, CallStatus, ended, CallParticipant, BreakoutRoom, is_ended,
}

-- A statement that the database may refuse.
pub data Statement : Type 0 where
  create_call_st get_call_st list_active_st update_settings_st update_status_st end_st : Statement
  add_participant_st get_participant_st get_guest_participant_st list_participants_st : Statement
  update_participant_status_st update_participant_role_st : Statement
  update_participant_media_st remove_participant_st : Statement
  create_channel_st add_member_st enqueue_st begin_st commit_st : Statement
  create_room_st get_room_st list_rooms_st close_room_st close_rooms_st assign_st : Statement
  unassign_st unassign_room_st list_room_participants_st : Statement

pub data EventType : Type 0 where
  call_started call_ended call_updated : EventType
  participant_joined participant_left participant_updated : EventType
  waiting_room_joined waiting_room_admitted waiting_room_rejected : EventType
  breakout_room_created breakout_room_closed breakout_rooms_all_closed : EventType
  breakout_participant_moved breakout_broadcast : EventType

pub data Payload : Type 0 where
  of_call : Call → Payload
  of_participant : ℕ → CallParticipant → Payload
  of_room : BreakoutRoom → Payload
  of_move : ℕ → Option ℕ → Payload
  of_rooms : Payload
  of_message : ℕ → String → Payload

pub record Event : Type 0 where
  pub kind : EventType
  pub workspace_id : ℕ
  pub channel_id : ℕ
  pub user_id : ℕ
  pub payload : Payload

-- The SFU's room of a call, and that of a breakout room.
pub data RoomId : Type 0 where
  main_room : ℕ → RoomId
  breakout_room : ℕ → ℕ → RoomId

pub data SfuCall : Type 0 where
  create_room close_room : RoomId → SfuCall
  remove_peer : RoomId → ℕ → SfuCall

pub record Db : Type 0 where
  pub calls : List Call
  pub participants : List CallParticipant
  pub rooms : List BreakoutRoom
  pub channels : List Channel
  pub channel_members : List ChannelMember
  pub events : List Event
  pub outbox : List Event
  pub sfu_calls : List SfuCall
  pub fault : Statement → ℕ → Option GoError

-- What changes the state and returns a value or an error.
abbrev pub Action : Type 0 → Type 0
Action A = Db → Db × Result A

abbrev pub query {ℓ} : {A : Type ℓ} → Db → Statement → ℕ → String → Result A → Result A
query db st id message result = elim (db.fault st id) [
  | some e ↦ err (wrap message e)
  | none ↦ result
]

abbrev pub exec : Db → Statement → ℕ → String → Db × Result (Unit {0}) → Db × Result (Unit {0})
exec db st id message outcome = elim (db.fault st id) [
  | some e ↦ (db, err (wrap message e))
  | none ↦ outcome
]

abbrev pub unique_violation : GoError
unique_violation = plain "23505"

-- ---- `SELECT`, `UPDATE` and `DELETE` on the rows of a table

module _ {ℓ} {A : Type ℓ} where
  unfoldable pub find_where : (A → Bool) → List A → Option A
  find_where p [] = none
  find_where p (x ∷ xs) = if p x then some x else find_where p xs

  unfoldable pub rows_where : (A → Bool) → List A → List A
  rows_where p [] = []
  rows_where p (x ∷ xs) = let rest = rows_where p xs in if p x then x ∷ rest else rest

  unfoldable pub update_where : (A → Bool) → (A → A) → List A → List A
  update_where p f [] = []
  update_where p f (x ∷ xs) = (if p x then f x else x) ∷ update_where p f xs

  unfoldable pub delete_where : (A → Bool) → List A → List A
  delete_where p [] = []
  delete_where p (x ∷ xs) = let rest = delete_where p xs in if p x then rest else x ∷ rest

  abbrev pub found : GoError → Option A → Result A
  found missing none = err missing
  found missing (some x) = ok x

-- ---- calls

abbrev pub is_call : ℕ → Call → Bool
is_call id c = nat_eqb c.id id

unfoldable pub create_call : Call → Action (Unit {0})
create_call c db = exec db create_call_st c.id "postgres: create call" (
    if any (is_call c.id) db.calls
    then (db, err (wrap "postgres: create call" unique_violation))
    else (record db { calls = c ∷ db.calls }, ok tt))

abbrev pub no_call : GoError
no_call = new_not_found "call not found"

unfoldable pub get_call : Db → ℕ → Result Call
unfolding find_where
get_call db id =
    query db get_call_st id "postgres: get call by id"
      (found no_call (find_where (is_call id) db.calls))

abbrev is_open_in : ℕ → Call → Bool
is_open_in workspace_id c = nat_eqb c.workspace_id workspace_id && not (is_ended c.status)

unfoldable pub list_active_by_workspace : Db → ℕ → Result (List Call)
unfolding rows_where
list_active_by_workspace db workspace_id =
    query db list_active_st workspace_id "postgres: list active calls"
      (ok (rows_where (is_open_in workspace_id) db.calls))

-- `UPDATE calls SET … WHERE id = $1`
abbrev pub update_call : Statement → String → ℕ → (Call → Call) → Action (Unit {0})
update_call st message id change db = exec db st id message (
    if any (is_call id) db.calls
    then (record db { calls = update_where (is_call id) change db.calls }, ok tt)
    else (db, err no_call))

unfoldable pub update_settings : ℕ → CallSettings → Action (Unit {0})
unfolding update_where
update_settings id settings =
    update_call update_settings_st "postgres: update call settings" id
      (λ c. record c { settings = settings })

unfoldable pub update_status : ℕ → CallStatus → Action (Unit {0})
unfolding update_where
update_status id status =
    update_call update_status_st "postgres: update call status" id
      (λ c. record c { status = status })

unfoldable pub end : ℕ → ℕ → Action (Unit {0})
unfolding update_where
end id now =
    update_call end_st "postgres: end call" id
      (λ c. record c { status = ended; ended_at = some now })
