-- ===== src/Calls/Capacity.antt =====
-- How many participants a call takes, in internal/service/call/service.go: its settings and its policy.
use aloqa_codex.Common.{ℕ, Option, none, some, if◌then◌else◌}
use aloqa_codex.Common.Int.{ℤ, pos, leb_ℤ, ltb_ℤ}
use aloqa_codex.Cerrors.{Result, err, guard, new_invalid_input}
use aloqa_codex.Calls.Types.{
  Call, CallType, one_to_one, group, meeting, webinar, selector, other_call_type, CallSettings,
  CallAccessMode, by_dm, by_channel, by_link, by_webinar, is_webinar,
}
use aloqa_codex.Calls.Service.{MediaConfig, MediaCallPolicy, Service}

-- ---- capacity

unfoldable pub validate_call_settings : CallType → CallSettings → Result (Unit {0})
validate_call_settings (other_call_type _) settings = err (new_invalid_input "invalid call type")
validate_call_settings kind settings =
    guard (leb_ℤ (pos 0) settings.max_participants)
      (new_invalid_input "max_participants cannot be negative")

abbrev default_participants : MediaConfig → CallType → ℤ
default_participants m one_to_one = pos 2
default_participants m group = pos 32
default_participants m meeting = pos 500
default_participants m webinar = m.max_viewers_per_call
default_participants m selector = m.max_viewers_per_call
default_participants m _ = pos 500

unfoldable pub call_policy : Service → Call → MediaCallPolicy
call_policy s call = elim s.control [
  | some control ↦ control.policy_for_call call
  | none ↦
      let wanted = call.settings.max_participants in
      let max = if leb_ℤ wanted (pos 0) then default_participants s.media call.kind else wanted in
      if is_webinar call.kind
      then record {
        max_participants = max;
        max_presenters = s.media.default_webinar_presenters;
        max_viewers = max;
      }
      else record {
        max_participants = max;
        max_presenters = s.media.max_presenters_per_call;
        max_viewers = s.media.max_viewers_per_call;
      }
]

unfoldable pub effective_participant_cap : Service → Call → ℤ
unfolding call_policy
effective_participant_cap s call =
    let policy = call_policy s call in
    if ltb_ℤ (pos 0) policy.max_participants
    then policy.max_participants
    else call.settings.max_participants

unfoldable pub infer_call_access_mode : CallType → Option ℕ → CallAccessMode
infer_call_access_mode one_to_one channel = by_dm
infer_call_access_mode group channel = by_dm
infer_call_access_mode webinar channel = by_webinar
infer_call_access_mode selector channel = by_webinar
infer_call_access_mode kind (some _) = by_channel
infer_call_access_mode kind none = by_link
