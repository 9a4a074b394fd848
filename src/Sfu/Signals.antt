-- ===== src/Sfu/Signals.antt =====
-- The device's cap, and what internal/media/sfu/adaptive.go tells a client beside the layer.
use Prim.Native.Char.{code}
use Prim.Native.String.{String}
use aloqa_codex.Common.{
  ℕ, ◌+◌, Bool, true, false, ◌&&◌, ◌||◌, List, [], ◌∷◌, ◌++◌, if◌then◌else◌, leb, nat_eqb,
}
use aloqa_codex.Common.Equality.{◌==◌, string_eq}
use aloqa_codex.Sfu.Quality.{QualityLayer, quality_medium, quality_low, min_quality}
use aloqa_codex.Sfu.Adaptive.{NetworkGrade, excellent, good, fair, poor, critical, NetworkSample}

-- `strings.ToLower(s) == t` for a `t` of lower-case ASCII letters without i and k, to which no
-- letter outside of ASCII is lowered.
unfoldable pub lowers_to : String → String → Bool
lowers_to String.[] String.[] = true
lowers_to String.[] (String.◌∷◌ d t) = false
lowers_to (String.◌∷◌ c s) String.[] = false
lowers_to (String.◌∷◌ c s) (String.◌∷◌ d t) =
    (nat_eqb (code c) (code d)
      || (leb 65 (code c) && leb (code c) 90 && nat_eqb (code c + 32) (code d)))
    && lowers_to s t

-- `isDeviceConstrained`
unfoldable pub is_device_constrained : String → Bool → Bool
unfolding lowers_to
is_device_constrained device low_power =
    lowers_to device "legacy" || lowers_to device "low" || low_power

-- `capForDevice`; the reasons are the second part.
unfoldable pub cap_for_device :
    QualityLayer → String → Bool → List String → QualityLayer × List String
unfolding lowers_to min_quality
cap_for_device q device low_power reasons =
    if lowers_to device "legacy"
    then (min_quality q quality_low, reasons ++ "legacy device cap" ∷ [])
    else if lowers_to device "low" || low_power
    then (min_quality q quality_medium, reasons ++ "low device or power mode cap" ∷ [])
    else (q, reasons)

module _ {F : Type 0} where
  -- `videoDegradeMode`
  unfoldable pub video_degrade_mode : QualityLayer → NetworkSample F → Bool → Bool → String
  video_degrade_mode q s audio_priority suspend =
      if suspend
      then "suspend_video_until_audio_recovers"
      else if audio_priority
      then "audio_first_resolution_and_fps"
      else if s.screen_share
      then "preserve_resolution_lower_fps"
      else if q == quality_low || q == quality_medium
      then "reduce_resolution_first"
      else "maintain_quality"

-- `targetAudioBufferMs`
unfoldable pub target_audio_buffer_ms : NetworkGrade → Bool → ℕ
target_audio_buffer_ms grade true = 90
target_audio_buffer_ms critical false = 110
target_audio_buffer_ms poor false = 80
target_audio_buffer_ms fair false = 60
target_audio_buffer_ms good false = 40
target_audio_buffer_ms excellent false = 40

abbrev video_buffer_of_grade : NetworkGrade → ℕ
video_buffer_of_grade critical = 180
video_buffer_of_grade poor = 140
video_buffer_of_grade fair = 100
video_buffer_of_grade good = 60
video_buffer_of_grade excellent = 60

-- `targetVideoBufferMs`
unfoldable pub target_video_buffer_ms : NetworkGrade → Bool → Bool → ℕ
target_video_buffer_ms grade audio_priority suspend =
    if suspend then 0 else if audio_priority then 150 else video_buffer_of_grade grade

-- `lipSyncWindowMs`
unfoldable pub lip_sync_window_ms : NetworkGrade → Bool → ℕ
lip_sync_window_ms grade true = 120
lip_sync_window_ms critical false = 120
lip_sync_window_ms poor false = 100
lip_sync_window_ms fair false = 80
lip_sync_window_ms good false = 80
lip_sync_window_ms excellent false = 80

abbrev pub is_critical : NetworkGrade → Bool
is_critical critical = true
is_critical poor = false
is_critical fair = false
is_critical good = false
is_critical excellent = false
