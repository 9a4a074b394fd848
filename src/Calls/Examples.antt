-- ===== src/Calls/Examples.antt =====
-- A meeting of workspace 1 on concrete data: the user 7 is its host, and the user 8 is in the waiting room.
use aloqa_codex.Common.{ℕ, true, false, [], ◌∷◌, none, some, ◌≡◌, ◌⊎◌, refl, arith}
use aloqa_codex.Common.Int.{pos, ◌≤ℤ◌}
use aloqa_codex.Domain
use aloqa_codex.Domain.{WorkspaceMember}
use aloqa_codex.Cerrors.{GoError, ok, err, new_not_found, new_forbidden}
use aloqa_codex.Calls.Types.{
  Call, meeting, active, ended, by_link, CallSettings, CallParticipant, user_principal, host,
  participant, connected, waiting,
}
use aloqa_codex.Calls.Store.{Db, find_where, rows_where, get_call, end}
use aloqa_codex.Calls.Participants.{
  is_user_in, get_participant, add_participant, list_participants, update_participant_status,
  normalize_participant_principal, update_participant_media,
}
use aloqa_codex.Calls.Actions.{
  reading, bind, done, with_error, within_tx, lift, either, logged, do_publish, enqueue_realtime_tx,
  calls_sfu,
}
use aloqa_codex.Calls.Service.{
  Service, TxScope, by_tx, require_call_access, get_call_for_workspace, call_gate,
  can_access_workspace_content,
}
use aloqa_codex.Calls.Targets.{ParticipantTarget, get_participant_by_target}
use aloqa_codex.Calls.Capacity.{effective_participant_cap}
use aloqa_codex.Calls.Joining.{join_call, join_checks, join_new, admission_checks, join_writes}
use aloqa_codex.Calls.Leaving.{
  leave_call, leave_checks, leave_writes, end_call, end_checks, end_writes,
  close_all_breakout_sfu_rooms, close_sfu_rooms,
}
use aloqa_codex.Calls.Rooms.{list_by_call, close_all_by_call}
use aloqa_codex.Calls.Rows.{Keyed}
use aloqa_codex.Calls.Kept.{status_of, row_key, KeepsHosts}
use aloqa_codex.Calls.Runs.{Run, here, next, joins, ends, Run-KeepsHosts}
use aloqa_codex.Calls.Ending.{Ended, end_call_sound}
use aloqa_codex.Calls.Departure.{Left, leave_call_sound}
use aloqa_codex.Calls.Entering.{join_call_readmits}
use aloqa_codex.Calls.Hosting.{
  MediaPatch, media_checks, check_screen_share_capacity, screen_share_limit, update_media,
}
use aloqa_codex.Calls.Controls.{mute_checks, mute_participant}
use aloqa_codex.Calls.Alike.{Alike, without_tx, leaving-Alike}
use aloqa_codex.Calls.Muting.{Muted, mute_participant_sound}
use aloqa_codex.Calls.Sharing.{shares, update_media_bounded}
use aloqa_codex.Calls.Newcomers.{Joined, join_call_bounded}

abbrev settings : CallSettings
settings = record {
  waiting_room = true;
  mute_on_join = true;
  recording = false;
  screen_sharing = true;
  chat = true;
  breakout_rooms = true;
  locked = false;
  max_participants = pos 2;
  e2ee = false;
  watermark = false;
}

abbrev standup : Call
standup = record {
  id = 1;
  workspace_id = 1;
  channel_id = none;
  meeting_channel_id = some 50;
  kind = meeting;
  access_mode = by_link;
  status = active;
  title = "standup";
  created_by = 7;
  settings = settings;
  started_at = some 100;
  ended_at = none;
  created_at = 100;
}

abbrev row : ℕ → ℕ → CallParticipant
row id user_id = record {
  id = id;
  call_id = 1;
  principal_type = user_principal;
  user_id = user_id;
  guest_session_id = none;
  breakout_room_id = none;
  role = participant;
  status = waiting;
  audio_muted = false;
  video_muted = false;
  screen_sharing = false;
  joined_at = some 100;
}

abbrev ann : CallParticipant
ann = record (row 10 7) { role = host; status = connected }

abbrev bob : CallParticipant
bob = row 11 8

abbrev lobby : Db
lobby = record {
  calls = standup ∷ [];
  participants = bob ∷ ann ∷ [];
  rooms = [];
  channels = [];
  channel_members = [];
  events = [];
  outbox = [];
  sfu_calls = [];
  fault = λ st id. none;
}

abbrev scope : TxScope
scope = record { has_calls = true; has_channels = true; has_realtime = true }

abbrev service : Service
service = record {
  get_member = λ w u. ok (record { id = u; workspace_id = w; user_id = u; role = Domain.member });
  get_channel = λ id. err (new_not_found "channel not found");
  get_channel_member = λ id u. err (new_not_found "channel member not found");
  guests = none;
  collab = none;
  control = none;
  tx = some scope;
  has_sfu = true;
  media = record {
    max_presenters_per_call = pos 10;
    max_viewers_per_call = pos 100;
    max_screen_shares_per_call = pos 1;
    default_webinar_presenters = pos 5;
  };
}

bob_access : require_call_access service lobby 1 1 8 ≡ ok standup
unfolding require_call_access get_call_for_workspace call_gate get_call can_access_workspace_content
bob_access = refl

bob_found : find_where (is_user_in 1 8) lobby.participants ≡ some bob
unfolding find_where
bob_found = refl

-- The user 8 leaves the waiting room by joining once more.
join_call_readmits_example :
    ((join_call service 12 120 1 1 8 lobby).1
      ≡ ok (record bob { status = connected; joined_at = some 120 }))
    × (find_where (is_user_in 1 8) (join_call service 12 120 1 1 8 lobby).0.participants
        ≡ some (record bob { status = connected }))
join_call_readmits_example =
    join_call_readmits service 12 120 1 1 8 lobby standup bob refl (λ st i. refl) bob_access refl
      bob_found

abbrev cat : CallParticipant
cat = record (row 12 9) { audio_muted = true; joined_at = some 120 }

cat_waits : (join_call service 12 120 1 1 9 lobby).1 ≡ ok cat
unfolding join_call join_checks require_call_access get_call_for_workspace call_gate get_call
    can_access_workspace_content get_participant join_new admission_checks join_writes reading bind
    done by_tx with_error within_tx lift either add_participant enqueue_realtime_tx
    list_participants effective_participant_cap normalize_participant_principal
cat_waits = refl

cat_absent : find_where (is_user_in 1 9) lobby.participants ≡ none
unfolding find_where
cat_absent = refl

join_call_bounded_example :
    Joined service 12 120 1 1 9 cat lobby (join_call service 12 120 1 1 9 lobby).0
join_call_bounded_example = join_call_bounded service 12 120 1 1 9 lobby cat cat_absent cat_waits

end_call_sound_example :
    (((end_call service 130 1 1 7 lobby).1 ≡ ok tt)
      × Ended service 1 1 7 lobby (end_call service 130 1 1 7 lobby).0)
    ⊎ ((e : GoError) × (end_call service 130 1 1 7 lobby ≡ (lobby, err e)))
end_call_sound_example = end_call_sound service 130 1 1 7 lobby

-- The host ends the call, and the user in the waiting room cannot.
ann_ends : (end_call service 130 1 1 7 lobby).1 ≡ ok tt
unfolding end_call end_checks require_call_access get_call_for_workspace call_gate get_call
    can_access_workspace_content get_participant end_writes reading bind done by_tx with_error
    within_tx lift end enqueue_realtime_tx close_all_breakout_sfu_rooms logged calls_sfu
ann_ends = refl

bob_fails :
    (end_call service 130 1 1 8 lobby).1 ≡ err (new_forbidden "only host or co-host can end a call")
unfolding end_call end_checks require_call_access get_call_for_workspace call_gate get_call
    can_access_workspace_content get_participant reading
bob_fails = refl

leave_call_sound_example :
    (((leave_call service 130 1 1 7 lobby).1 ≡ ok tt)
      × Left service 1 1 7 lobby (leave_call service 130 1 1 7 lobby).0)
    ⊎ ((e : GoError) × (leave_call service 130 1 1 7 lobby ≡ (lobby, err e)))
leave_call_sound_example = leave_call_sound service scope 130 1 1 7 lobby refl

-- The call ends with its host, though the user 8 waits.
ann_leaves : status_of 1 (leave_call service 130 1 1 7 lobby).0.calls ≡ some ended
unfolding leave_call leave_checks require_call_access get_call_for_workspace call_gate get_call
    can_access_workspace_content get_participant leave_writes reading bind done by_tx with_error
    within_tx lift either update_participant_status list_participants end enqueue_realtime_tx
    close_all_breakout_sfu_rooms logged calls_sfu status_of list_by_call close_sfu_rooms
    close_all_by_call
ann_leaves = refl

leaving-Alike_example :
    Alike lobby
      (leave_call (without_tx service) 130 1 1 7 lobby)
      (leave_call service 130 1 1 7 lobby)
    × Alike lobby (end_call (without_tx service) 130 1 1 7 lobby) (end_call service 130 1 1 7 lobby)
leaving-Alike_example = leaving-Alike service scope 130 1 1 7 lobby refl refl refl (λ st i. refl)

-- ---- media

lobby-Keyed : Keyed row_key lobby.participants
lobby-Keyed = (refl, (refl, tt))

abbrev silence : MediaPatch
silence = record { audio_muted = some true; video_muted = none; screen_sharing = none }

abbrev to_bob : ParticipantTarget
to_bob = record { principal_type = user_principal; user_id = 8; guest_session_id = 0 }

mute_participant_sound_example :
    (((mute_participant service 1 1 7 to_bob silence lobby).1 ≡ ok tt)
      × Muted service 1 1 7 to_bob silence lobby
          (mute_participant service 1 1 7 to_bob silence lobby).0)
    ⊎ ((e : GoError) × (mute_participant service 1 1 7 to_bob silence lobby ≡ (lobby, err e)))
mute_participant_sound_example = mute_participant_sound service 1 1 7 to_bob silence lobby

bob_silenced :
    (mute_participant service 1 1 7 to_bob silence lobby).0.participants
    ≡ (record bob { audio_muted = true } ∷ ann ∷ [])
unfolding mute_participant mute_checks require_call_access get_call_for_workspace call_gate get_call
    can_access_workspace_content get_participant get_participant_by_target reading bind with_error
    update_participant_media do_publish
bob_silenced = refl

abbrev share : MediaPatch
share = record { audio_muted = none; video_muted = none; screen_sharing = some true }

no_shares : pos (shares 1 lobby.participants) ≤ℤ screen_share_limit service
unfolding rows_where
no_shares = omega arith

update_media_bounded_example :
    pos (shares 1 (update_media service 1 1 7 share lobby).0.participants)
    ≤ℤ screen_share_limit service
update_media_bounded_example = update_media_bounded service 1 1 7 share lobby lobby-Keyed no_shares

ann_shares : shares 1 (update_media service 1 1 7 share lobby).0.participants ≡ 1
unfolding update_media media_checks require_call_access get_call_for_workspace call_gate get_call
    can_access_workspace_content get_participant reading bind with_error update_participant_media
    check_screen_share_capacity list_participants do_publish rows_where
ann_shares = refl

-- ---- a run

abbrev joined : Db
joined = (join_call service 12 120 1 1 8 lobby).0

abbrev after : Db
after = (end_call service 130 1 1 7 joined).0

evening : Run lobby after
evening = next (next here (joins lobby service 12 120 1 1 8)) (ends joined service 130 1 1 7)

Run-KeepsHosts_example :
    Keyed row_key after.participants × KeepsHosts lobby.participants after.participants
Run-KeepsHosts_example = Run-KeepsHosts evening lobby-Keyed
