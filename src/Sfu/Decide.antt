-- ===== src/Sfu/Decide.antt =====
-- `AdaptiveController` of internal/media/sfu/adaptive.go: the decision with hysteresis, and forgetting a
-- user or a stream.
use Prim.Native.String
use Prim.Native.String.{String}
use text.Mathlib.Text.{starts_with}
use aloqa_codex.Common.{
  ℕ, suc, Bool, true, false, not, ◌&&◌, ◌||◌, List, [], ◌∷◌, ◌++◌, Option, none, some,
  if◌then◌else◌, ltb,
}
use aloqa_codex.Common.Equality.{◌==◌, string_eq}
use aloqa_codex.Common.GoMap.{GoMap, get, set}
use aloqa_codex.Common.Int.{ℤ, pos, ◌-ℤ◌, ltb_ℤ}
use aloqa_codex.Sfu.Quality.{QualityLayer, quality_medium, quality_low, quality_rank, clamp_quality}
use aloqa_codex.Sfu.Floats.{Floats}
use aloqa_codex.Sfu.Adaptive.{
  NetworkGrade, AdaptiveOptions, NetworkSample, AdaptiveState, with_defaults, update_state,
}
use aloqa_codex.Sfu.Rating.{RawDecision, raw_decision}
use aloqa_codex.Sfu.Signals.{
  is_device_constrained, cap_for_device, video_degrade_mode, target_audio_buffer_ms,
  target_video_buffer_ms, lip_sync_window_ms, is_critical,
}

pub record AdaptiveDecision : Type 0 where
  pub user_id : String
  pub stream_id : String
  pub previous_quality : QualityLayer
  pub target_quality : QualityLayer
  pub network_grade : NetworkGrade
  pub changed : Bool
  pub hold : Bool
  pub audio_priority : Bool
  pub video_suspended : Bool
  pub sync_mode : String
  pub video_degrade_mode : String
  pub max_video_bitrate_kbps : ℤ
  pub max_video_fps : ℤ
  pub target_audio_buffer_ms : ℕ
  pub target_video_buffer_ms : ℕ
  pub lip_sync_window_ms : ℕ
  pub estimated_bandwidth_kbps : ℤ
  pub stability_score : ℤ
  pub reasons : List String
  pub decided_at : ℤ

pub record AdaptiveController (F : Type 0) : Type 0 where
  pub options : AdaptiveOptions F
  pub state : GoMap String (AdaptiveState F)

-- The layer that a subscriber is to have, if it is held, and the reasons.
pub record Choice : Type 0 where
  pub target : QualityLayer
  pub hold : Bool
  pub reasons : List String

abbrev pub sample_key : String → String → String
sample_key user stream = Prim.Native.String.◌++◌ (Prim.Native.String.◌++◌ user ":") stream

abbrev pub time_or : ℤ → Option ℤ → ℤ
time_or d none = d
time_or d (some t) = t

abbrev pub current_or_medium : QualityLayer → QualityLayer
current_or_medium current = if current == "" then quality_medium else current

-- `strings.HasSuffix`
unfoldable pub has_suffix : String → String → Bool
has_suffix String.[] t = t == ""
has_suffix (String.◌∷◌ c s) t = String.◌∷◌ c s == t || has_suffix s t

module _ {F : Type 0} where
  -- The counters of `Decide`, for a wanted layer.
  unfoldable pub count_samples : QualityLayer → QualityLayer → AdaptiveState F → AdaptiveState F
  count_samples target current st =
      if ltb (quality_rank current) (quality_rank target)
      then record st { consecutive_good = suc st.consecutive_good; consecutive_poor = 0 }
      else if ltb (quality_rank target) (quality_rank current)
      then record st { consecutive_poor = suc st.consecutive_poor; consecutive_good = 0 }
      else record st { consecutive_good = 0; consecutive_poor = 0 }

  -- The hysteresis of `Decide`.
  unfoldable pub hold_back :
      AdaptiveOptions F
      → AdaptiveState F
      → ℤ
      → QualityLayer
      → QualityLayer
      → NetworkGrade
      → Bool
      → List String
      → Choice
  hold_back o st now target current grade immediate reasons =
      if ltb (quality_rank current) (quality_rank target)
      then if ltb_ℤ (pos st.consecutive_good) o.good_samples_for_upgrade
          || ltb_ℤ (now -ℤ st.last_switch_at) o.min_upswitch_interval
        then record {
          target = current;
          hold = true;
          reasons = reasons ++ "hysteresis: waiting for stable network before upgrading" ∷ [];
        }
        else record { target = target; hold = false; reasons = reasons }
      else if ltb (quality_rank target) (quality_rank current)
          && not (is_critical grade)
          && not immediate
      then if ltb_ℤ (pos st.consecutive_poor) o.poor_samples_for_downgrade
          || ltb_ℤ (now -ℤ st.last_switch_at) o.min_downswitch_interval
        then record {
          target = current;
          hold = true;
          reasons = reasons ++ "hysteresis: avoiding short-lived downswitch" ∷ [];
        }
        else record { target = target; hold = false; reasons = reasons }
      else record { target = target; hold = false; reasons = reasons }

  abbrev pub state_or : AdaptiveState F → Option (AdaptiveState F) → AdaptiveState F
  state_or d none = d
  state_or d (some st) = st

  -- Whether a downswitch is not held back.
  abbrev pub is_immediate : RawDecision → NetworkSample F → Bool
  is_immediate raw s =
      raw.audio_priority || raw.suspend || is_device_constrained s.device_class s.low_power_mode

  -- The layer that `Decide` would choose without hysteresis, and the reasons so far.
  unfoldable pub wanted :
      RawDecision → NetworkSample F → List QualityLayer → QualityLayer × List String
  unfolding clamp_quality cap_for_device
  wanted raw s available =
      let capped =
        cap_for_device (clamp_quality raw.quality available) s.device_class s.low_power_mode
          raw.reasons in
      if raw.suspend then (clamp_quality quality_low available, capped.1) else capped

  -- The state behind a choice.
  unfoldable pub switched : AdaptiveState F → ℤ → QualityLayer → QualityLayer → AdaptiveState F
  switched st now current target =
      if not (target == current)
      then record st { last_switch_at = now; last_quality = target }
      else st

  -- The entries whose key does not pass a test: deletions in a `range` over the map.
  unfoldable pub drop_keys :
      (String → Bool) → GoMap String (AdaptiveState F) → GoMap String (AdaptiveState F)
  drop_keys p [] = []
  drop_keys p ((k, st) ∷ m) = let rest = drop_keys p m in if p k then rest else (k, st) ∷ rest

  unfoldable pub forget_user : String → AdaptiveController F → AdaptiveController F
  unfolding drop_keys
  forget_user user c =
      let prefix = Prim.Native.String.◌++◌ user ":" in
      record c { state = drop_keys (λ key. starts_with key prefix) c.state }

  unfoldable pub forget_stream : String → AdaptiveController F → AdaptiveController F
  unfolding drop_keys has_suffix
  forget_stream stream c =
      let suffix = Prim.Native.String.◌++◌ ":" stream in
      record c { state = drop_keys (λ key. has_suffix key suffix) c.state }

module _ {F : Type 0} (fl : Floats F) where
  unfoldable pub new_adaptive_controller : AdaptiveOptions F → AdaptiveController F
  unfolding with_defaults
  new_adaptive_controller o = record { options = with_defaults fl o; state = [] }

  abbrev pub fresh_state : QualityLayer → ℤ → AdaptiveState F
  fresh_state current now = record {
    initialized = false;
    bandwidth_kbps = fl.of_int (pos 0);
    loss_pct = fl.of_int (pos 0);
    rtt_ms = fl.of_int (pos 0);
    jitter_ms = fl.of_int (pos 0);
    audio_loss_pct = fl.of_int (pos 0);
    audio_jitter_ms = fl.of_int (pos 0);
    fps = fl.of_int (pos 0);
    dropped_frames_pct = fl.of_int (pos 0);
    decode_time_ms = fl.of_int (pos 0);
    last_quality = current;
    last_switch_at = now;
    consecutive_good = 0;
    consecutive_poor = 0;
  }

  -- The state that `Decide` reads: the entry of the sample's key, after the sample.
  abbrev pub sampled : AdaptiveController F → NetworkSample F → QualityLayer → ℤ → AdaptiveState F
  sampled c s current now =
      update_state fl c.options
        (state_or (fresh_state current now) (get (sample_key s.user_id s.stream_id) c.state)) s

  -- `Decide`, where the clock shows `clock`.
  unfoldable pub decide :
      AdaptiveController F
      → ℤ
      → NetworkSample F
      → QualityLayer
      → List QualityLayer
      → AdaptiveController F × AdaptiveDecision
  unfolding update_state raw_decision wanted count_samples hold_back switched video_degrade_mode
      target_audio_buffer_ms target_video_buffer_ms lip_sync_window_ms set
  decide c clock s given available =
      let now = time_or clock s.timestamp in
      let current = current_or_medium given in
      let st = sampled c s current now in
      let raw = raw_decision fl c.options st s in
      let want = wanted raw s available in
      let counted = count_samples want.0 current st in
      let choice =
        hold_back c.options counted now want.0 current raw.grade (is_immediate raw s) want.1 in
      let after = switched counted now current choice.target in
      (
        record c { state = set (sample_key s.user_id s.stream_id) after c.state },
        record {
          user_id = s.user_id;
          stream_id = s.stream_id;
          previous_quality = current;
          target_quality = choice.target;
          network_grade = raw.grade;
          changed = not (choice.target == current);
          hold = choice.hold;
          audio_priority = raw.audio_priority;
          video_suspended = raw.suspend;
          sync_mode = "audio_clock_master";
          video_degrade_mode = video_degrade_mode choice.target s raw.audio_priority raw.suspend;
          max_video_bitrate_kbps = raw.max_bitrate;
          max_video_fps = raw.max_fps;
          target_audio_buffer_ms = target_audio_buffer_ms raw.grade raw.audio_priority;
          target_video_buffer_ms = target_video_buffer_ms raw.grade raw.audio_priority raw.suspend;
          lip_sync_window_ms = lip_sync_window_ms raw.grade raw.audio_priority;
          estimated_bandwidth_kbps = fl.rounded st.bandwidth_kbps;
          stability_score = raw.score;
          reasons = choice.reasons;
          decided_at = now;
        },
      )
