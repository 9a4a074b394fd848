-- ===== src/Calls/Keepers.antt =====
-- The operations of internal/service/call whose every statement keeps what it must from any state.
use aloqa_codex.Common.{ℕ, suc, String, List, [], ◌∷◌, Option}
use aloqa_codex.Common.Int.{ℤ}
use aloqa_codex.Calls.Types.{Call, CallType, CallSettings, CallParticipant, BreakoutRoom}
use aloqa_codex.Calls.Store.{Db}
use aloqa_codex.Calls.Service.{Service}
use aloqa_codex.Calls.Starting.{NewIds, start_call, add_participant_with_optional_capacity}
use aloqa_codex.Calls.Joining.{rejoin}
use aloqa_codex.Calls.Hosting.{MediaPatch, update_media}
use aloqa_codex.Calls.Controls.{SettingsPatch, change_settings, mute_participant}
use aloqa_codex.Calls.Targets.{ParticipantTarget}
use aloqa_codex.Calls.Leaving.{
  close_sfu_room, close_sfu_rooms, close_all_breakout_sfu_rooms, leave_writes, leave_call,
  end_writes, end_call,
}
use aloqa_codex.Calls.Breakout.{
  CreateBreakoutRoomInput, create_rooms, create_breakout_rooms, join_breakout_room,
  return_to_main_room, close_room_of_call, empty_one, empty_rooms, close_all_breakout_rooms,
  broadcast_to_breakout_rooms,
}
use aloqa_codex.Calls.Kept.{Cause, opening, closing, Kept}
use aloqa_codex.Calls.Keeping.{Keeps, Keeps-since, Keeps-done, Keeps-bind, keeps_rules}
use aloqa_codex.Calls.RowWrites.{kept_writes}

pub ruleset keepers = (keeps_rules, Keeps-since, kept_writes)

module _ (start : Db) where
  pub add_participant_with_optional_capacity-Keeps :
      {k : Cause} (p : CallParticipant) (capacity : ℤ)
      → Keeps (Kept k start) (add_participant_with_optional_capacity p capacity)
  unfolding add_participant_with_optional_capacity
  add_participant_with_optional_capacity-Keeps p capacity = search keepers depth 24

  pub start_call-Keeps :
      (uuid_text : ℕ → String) (s : Service) (ids : NewIds) (now w u : ℕ) (kind : CallType)
      (title : String) (channel_id : Option ℕ) (settings : CallSettings)
      → Keeps
          (Kept opening start)
          (start_call uuid_text s ids now w u kind title channel_id settings)
  unfolding start_call
  start_call-Keeps uuid_text s ids now w u kind title channel_id settings =
      search (keepers, add_participant_with_optional_capacity-Keeps) depth 24

  pub rejoin-Keeps :
      {k : Cause} (s : Service) (call : Call) (p : CallParticipant) (now : ℕ)
      → Keeps (Kept k start) (rejoin s call p now)
  unfolding rejoin
  rejoin-Keeps s call p now = search keepers depth 24

  pub change_settings-Keeps :
      {k : Cause} (s : Service) (w c u : ℕ) (patch : SettingsPatch)
      → Keeps (Kept k start) (change_settings s w c u patch)
  unfolding change_settings
  change_settings-Keeps s w c u patch = search keepers depth 24

  pub update_media-Keeps :
      {k : Cause} (s : Service) (w c u : ℕ) (m : MediaPatch)
      → Keeps (Kept k start) (update_media s w c u m)
  unfolding update_media
  update_media-Keeps s w c u m = search keepers depth 24

  pub mute_participant-Keeps :
      {k : Cause} (s : Service) (w c u : ℕ) (target : ParticipantTarget) (m : MediaPatch)
      → Keeps (Kept k start) (mute_participant s w c u target m)
  unfolding mute_participant
  mute_participant-Keeps s w c u target m = search keepers depth 24

  -- ---- leaving and ending

  pub close_sfu_rooms-Keeps :
      {k : Cause} (call_id : ℕ) (rooms : List BreakoutRoom)
      → Keeps (Kept k start) (close_sfu_rooms call_id rooms)
  unfolding close_sfu_rooms
  close_sfu_rooms-Keeps call_id [] = Keeps-done tt
  close_sfu_rooms-Keeps call_id (r ∷ rs) =
      Keeps-bind (close_sfu_room call_id r) _ (search keepers depth 24)
        (λ _. close_sfu_rooms-Keeps call_id rs)

  pub close_all_breakout_sfu_rooms-Keeps :
      {k : Cause} (call_id now : ℕ)
      → Keeps (Kept k start) (close_all_breakout_sfu_rooms call_id now)
  unfolding close_all_breakout_sfu_rooms
  close_all_breakout_sfu_rooms-Keeps call_id now = search (keepers, close_sfu_rooms-Keeps) depth 24

  pub leave_writes-Keeps :
      (s : Service) (call : Call) (p : CallParticipant) (u now : ℕ)
      → Keeps (Kept closing start) (leave_writes s call p u now)
  unfolding leave_writes
  leave_writes-Keeps s call p u now = search keepers depth 24

  pub leave_call-Keeps :
      (s : Service) (now w c u : ℕ) → Keeps (Kept closing start) (leave_call s now w c u)
  unfolding leave_call
  leave_call-Keeps s now w c u =
      search (keepers, leave_writes-Keeps, close_all_breakout_sfu_rooms-Keeps) depth 24

  pub end_writes-Keeps :
      (s : Service) (call : Call) (u now : ℕ) → Keeps (Kept closing start) (end_writes s call u now)
  unfolding end_writes
  end_writes-Keeps s call u now = search keepers depth 24

  pub end_call-Keeps :
      (s : Service) (now w c u : ℕ) → Keeps (Kept closing start) (end_call s now w c u)
  unfolding end_call
  end_call-Keeps s now w c u =
      search (keepers, end_writes-Keeps, close_all_breakout_sfu_rooms-Keeps) depth 24

  -- ---- breakout rooms

  create_rooms-Keeps :
      {k : Cause} (s : Service) (new_id : ℕ → ℕ) (call : Call) (u now : ℕ)
      (inputs : List CreateBreakoutRoomInput) (rooms : List BreakoutRoom)
      → Keeps (Kept k start) (create_rooms s new_id call u now inputs rooms)
  unfolding create_rooms
  create_rooms-Keeps s new_id call u now [] rooms = Keeps-done rooms
  create_rooms-Keeps {k = k} s new_id call u now (input ∷ inputs) rooms =
      search (keepers, create_rooms-Keeps {k = k} s (λ i. new_id (suc i)) call u now inputs) depth
        24

  empty_rooms-Keeps :
      {k : Cause} (s : Service) (call_id : ℕ) (rooms : List BreakoutRoom)
      → Keeps (Kept k start) (empty_rooms s call_id rooms)
  unfolding empty_rooms
  empty_rooms-Keeps s call_id [] = Keeps-done tt
  empty_rooms-Keeps s call_id (r ∷ rs) =
      Keeps-bind (empty_one s call_id r) _ (search keepers depth 24)
        (λ _. empty_rooms-Keeps s call_id rs)

  pub create_breakout_rooms-Keeps :
      {k : Cause} (s : Service) (new_id : ℕ → ℕ) (now c u : ℕ)
      (inputs : List CreateBreakoutRoomInput)
      → Keeps (Kept k start) (create_breakout_rooms s new_id now c u inputs)
  unfolding create_breakout_rooms
  create_breakout_rooms-Keeps s new_id now c u inputs =
      search (keepers, create_rooms-Keeps) depth 24

  pub join_breakout_room-Keeps :
      {k : Cause} (s : Service) (c u r : ℕ) → Keeps (Kept k start) (join_breakout_room s c u r)
  unfolding join_breakout_room
  join_breakout_room-Keeps s c u r = search keepers depth 24

  pub return_to_main_room-Keeps :
      {k : Cause} (s : Service) (c u : ℕ) → Keeps (Kept k start) (return_to_main_room s c u)
  unfolding return_to_main_room
  return_to_main_room-Keeps s c u = search keepers depth 24

  pub close_room_of_call-Keeps :
      {k : Cause} (s : Service) (now c u r : ℕ)
      → Keeps (Kept k start) (close_room_of_call s now c u r)
  unfolding close_room_of_call
  close_room_of_call-Keeps s now c u r = search keepers depth 24

  pub close_all_breakout_rooms-Keeps :
      {k : Cause} (s : Service) (now c u : ℕ)
      → Keeps (Kept k start) (close_all_breakout_rooms s now c u)
  unfolding close_all_breakout_rooms
  close_all_breakout_rooms-Keeps s now c u = search (keepers, empty_rooms-Keeps) depth 24

  pub broadcast_to_breakout_rooms-Keeps :
      {k : Cause} (c u : ℕ) (message : String)
      → Keeps (Kept k start) (broadcast_to_breakout_rooms c u message)
  unfolding broadcast_to_breakout_rooms
  broadcast_to_breakout_rooms-Keeps c u message = search keepers depth 24
