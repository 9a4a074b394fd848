-- ===== src/Sfu/Adaptive.antt =====
-- The options, the samples and the state of a subscriber's stream of internal/media/sfu/adaptive.go.
use Prim.Native.String.{String}
use aloqa_codex.Common.{ℕ, Bool, true, not, ◌||◌, Option, if◌then◌else◌}
use aloqa_codex.Common.Int.{ℤ, pos, leb_ℤ, ltb_ℤ}
use aloqa_codex.Common.Equality.{string_eq}
use aloqa_codex.Sfu.Quality.{QualityLayer}
use aloqa_codex.Sfu.Floats.{Floats}

pub data NetworkGrade : Type 0 where
  excellent : NetworkGrade
  good : NetworkGrade
  fair : NetworkGrade
  poor : NetworkGrade
  critical : NetworkGrade

pub record AdaptiveOptions (F : Type 0) : Type 0 where
  pub low_layer_min_kbps : ℤ
  pub medium_layer_min_kbps : ℤ
  pub high_layer_min_kbps : ℤ
  pub critical_layer_kbps : ℤ
  pub min_upswitch_interval : ℤ
  pub min_downswitch_interval : ℤ
  pub good_samples_for_upgrade : ℤ
  pub poor_samples_for_downgrade : ℤ
  pub ewma_alpha : F

-- A time is a number of nanoseconds; `none` is the zero time.
pub record NetworkSample (F : Type 0) : Type 0 where
  pub user_id : String
  pub stream_id : String
  pub available_bitrate_kbps : ℤ
  pub observed_bitrate_kbps : ℤ
  pub packet_loss_pct : F
  pub round_trip_time_ms : ℤ
  pub jitter_ms : F
  pub audio_packet_loss_pct : F
  pub audio_jitter_ms : F
  pub frames_per_second : F
  pub dropped_frames_pct : F
  pub decode_time_ms : F
  pub freeze_count_delta : ℤ
  pub nack_count_delta : ℤ
  pub pli_count_delta : ℤ
  pub device_class : String
  pub low_power_mode : Bool
  pub screen_share : Bool
  pub timestamp : Option ℤ

-- `adaptiveState`
pub record AdaptiveState (F : Type 0) : Type 0 where
  pub initialized : Bool
  pub bandwidth_kbps : F
  pub loss_pct : F
  pub rtt_ms : F
  pub jitter_ms : F
  pub audio_loss_pct : F
  pub audio_jitter_ms : F
  pub fps : F
  pub dropped_frames_pct : F
  pub decode_time_ms : F
  pub last_quality : QualityLayer
  pub last_switch_at : ℤ
  pub consecutive_good : ℕ
  pub consecutive_poor : ℕ

abbrev pub positive_or : ℤ → ℤ → ℤ
positive_or d n = if leb_ℤ n (pos 0) then d else n

module _ {F : Type 0} (fl : Floats F) where
  abbrev pub num : ℕ → F
  num n = fl.of_int (pos n)

  -- `AdaptiveOptions.withDefaults`
  unfoldable pub with_defaults : AdaptiveOptions F → AdaptiveOptions F
  with_defaults o = record {
    low_layer_min_kbps = positive_or (pos 180) o.low_layer_min_kbps;
    medium_layer_min_kbps = positive_or (pos 650) o.medium_layer_min_kbps;
    high_layer_min_kbps = positive_or (pos 1600) o.high_layer_min_kbps;
    critical_layer_kbps = positive_or (pos 120) o.critical_layer_kbps;
    min_upswitch_interval = positive_or (pos 8_000_000_000) o.min_upswitch_interval;
    min_downswitch_interval = positive_or (pos 1_500_000_000) o.min_downswitch_interval;
    good_samples_for_upgrade = positive_or (pos 3) o.good_samples_for_upgrade;
    poor_samples_for_downgrade = positive_or (pos 1) o.poor_samples_for_downgrade;
    ewma_alpha =
        if fl.le o.ewma_alpha (num 0) || fl.lt (num 1) o.ewma_alpha
        then fl.ratio 35 100
        else o.ewma_alpha;
  }

  unfoldable pub ewma : F → F → F → F
  ewma prev next alpha = fl.add (fl.mul prev (fl.sub (num 1) alpha)) (fl.mul next alpha)

  -- The bitrate that a sample reports.
  abbrev bitrate : NetworkSample F → ℤ
  bitrate s = positive_or s.observed_bitrate_kbps s.available_bitrate_kbps

  -- `updateState`
  unfoldable pub update_state :
      AdaptiveOptions F → AdaptiveState F → NetworkSample F → AdaptiveState F
  unfolding ewma
  update_state o st s =
      let bw = bitrate s in
      let alpha = o.ewma_alpha in
      if not st.initialized
      then record {
        initialized = true;
        bandwidth_kbps = fl.of_int bw;
        loss_pct = s.packet_loss_pct;
        rtt_ms = fl.of_int s.round_trip_time_ms;
        jitter_ms = s.jitter_ms;
        audio_loss_pct = s.audio_packet_loss_pct;
        audio_jitter_ms = s.audio_jitter_ms;
        fps = s.frames_per_second;
        dropped_frames_pct = s.dropped_frames_pct;
        decode_time_ms = s.decode_time_ms;
        last_quality = st.last_quality;
        last_switch_at = st.last_switch_at;
        consecutive_good = st.consecutive_good;
        consecutive_poor = st.consecutive_poor;
      }
      else record {
        initialized = st.initialized;
        bandwidth_kbps =
            if ltb_ℤ (pos 0) bw
            then ewma st.bandwidth_kbps (fl.of_int bw) alpha
            else st.bandwidth_kbps;
        loss_pct = ewma st.loss_pct s.packet_loss_pct alpha;
        rtt_ms =
            if ltb_ℤ (pos 0) s.round_trip_time_ms
            then ewma st.rtt_ms (fl.of_int s.round_trip_time_ms) alpha
            else st.rtt_ms;
        jitter_ms = ewma st.jitter_ms s.jitter_ms alpha;
        audio_loss_pct = ewma st.audio_loss_pct s.audio_packet_loss_pct alpha;
        audio_jitter_ms = ewma st.audio_jitter_ms s.audio_jitter_ms alpha;
        fps =
            if fl.lt (num 0) s.frames_per_second
            then ewma st.fps s.frames_per_second alpha
            else st.fps;
        dropped_frames_pct = ewma st.dropped_frames_pct s.dropped_frames_pct alpha;
        decode_time_ms = ewma st.decode_time_ms s.decode_time_ms alpha;
        last_quality = st.last_quality;
        last_switch_at = st.last_switch_at;
        consecutive_good = st.consecutive_good;
        consecutive_poor = st.consecutive_poor;
      }
