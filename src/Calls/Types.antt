-- ===== src/Calls/Types.antt =====
-- internal/domain/entity/call.go: calls, their participants and their breakout rooms. A status column
-- holds only the values that its CHECK constraint allows; types and roles also come from clients, so
-- they have a constructor for every other text.
use aloqa_codex.Common.{ℕ, String, Bool, true, false, ◌||◌, Option}
use aloqa_codex.Common.Int.{ℤ}

pub data CallType : Type 0 where
  one_to_one group meeting webinar selector : CallType
  other_call_type : String → CallType

pub data CallStatus : Type 0 where
  ringing active ended : CallStatus

pub data CallAccessMode : Type 0 where
  by_dm by_channel by_link by_webinar : CallAccessMode

pub data CallRole : Type 0 where
  host co_host presenter participant viewer : CallRole
  other_call_role : String → CallRole

pub data ParticipantStatus : Type 0 where
  invited waiting joining connected disconnected : ParticipantStatus

-- `unset` is the empty text.
pub data PrincipalType : Type 0 where
  unset user_principal guest_principal : PrincipalType
  other_principal : String → PrincipalType

pub record CallSettings : Type 0 where
  pub waiting_room : Bool
  pub mute_on_join : Bool
  pub recording : Bool
  pub screen_sharing : Bool
  pub chat : Bool
  pub breakout_rooms : Bool
  pub locked : Bool
  pub max_participants : ℤ
  pub e2ee : Bool
  pub watermark : Bool

pub record Call : Type 0 where
  pub id : ℕ
  pub workspace_id : ℕ
  pub channel_id : Option ℕ
  pub meeting_channel_id : Option ℕ
  pub kind : CallType  -- `Type`
  pub access_mode : CallAccessMode
  pub status : CallStatus
  pub title : String
  pub created_by : ℕ
  pub settings : CallSettings
  pub started_at : Option ℕ
  pub ended_at : Option ℕ
  pub created_at : ℕ

-- Without the display name, which no operation here reads, and the time of leaving, which none sets.
pub record CallParticipant : Type 0 where
  pub id : ℕ
  pub call_id : ℕ
  pub principal_type : PrincipalType
  pub user_id : ℕ
  pub guest_session_id : Option ℕ
  pub breakout_room_id : Option ℕ
  pub role : CallRole
  pub status : ParticipantStatus
  pub audio_muted : Bool
  pub video_muted : Bool
  pub screen_sharing : Bool
  pub joined_at : Option ℕ

pub data BreakoutRoomStatus : Type 0 where
  room_active room_closed : BreakoutRoomStatus

pub record BreakoutRoom : Type 0 where
  pub id : ℕ
  pub call_id : ℕ
  pub name : String
  pub created_by : ℕ
  pub time_limit : Option ℕ
  pub status : BreakoutRoomStatus
  pub created_at : ℕ
  pub closed_at : Option ℕ

abbrev pub is_ended : CallStatus → Bool
is_ended ended = true
is_ended _ = false

abbrev pub is_ringing : CallStatus → Bool
is_ringing ringing = true
is_ringing _ = false

abbrev pub is_active_call : CallStatus → Bool
is_active_call active = true
is_active_call _ = false

abbrev pub is_waiting : ParticipantStatus → Bool
is_waiting waiting = true
is_waiting _ = false

abbrev pub is_connected : ParticipantStatus → Bool
is_connected connected = true
is_connected _ = false

-- `status IN ('joining', 'connected')`
abbrev pub is_present : ParticipantStatus → Bool
is_present joining = true
is_present connected = true
is_present _ = false

abbrev pub is_host : CallRole → Bool
is_host host = true
is_host _ = false

abbrev pub is_co_host : CallRole → Bool
is_co_host co_host = true
is_co_host _ = false

abbrev pub is_moderator : CallRole → Bool
is_moderator r = is_host r || is_co_host r

abbrev pub is_viewer : CallRole → Bool
is_viewer viewer = true
is_viewer _ = false

abbrev pub is_webinar : CallType → Bool
is_webinar webinar = true
is_webinar selector = true
is_webinar _ = false

abbrev pub is_room_active : BreakoutRoomStatus → Bool
is_room_active room_active = true
is_room_active _ = false
