-- ===== src/Sfu/Rating.antt =====
-- The decision before hysteresis, `rawDecision` of internal/media/sfu/adaptive.go.
use Prim.Native.String.{String}
use aloqa_codex.Common.{ℕ, Bool, ◌&&◌, ◌||◌, List, [], ◌∷◌, ◌++◌, if◌then◌else◌}
use aloqa_codex.Common.Int.{ℤ, pos, ◌+ℤ◌, ◌-ℤ◌, ◌*ℤ◌, leb_ℤ, ltb_ℤ}
use aloqa_codex.Common.Equality.{◌==◌, string_eq}
use aloqa_codex.Sfu.Quality.{
  QualityLayer, quality_high, quality_medium, quality_low, min_quality, downgrade_quality,
}
use aloqa_codex.Sfu.Floats.{Floats}
use aloqa_codex.Sfu.Adaptive.{
  NetworkGrade, excellent, good, fair, poor, critical, AdaptiveOptions, NetworkSample,
  AdaptiveState, num,
}

-- `minInt`
unfoldable pub min_int : ℤ → ℤ → ℤ
min_int a b = if ltb_ℤ a b then a else b

-- `gradeFromScore`
unfoldable pub grade_from_score : ℤ → NetworkGrade
grade_from_score score =
    if leb_ℤ (pos 90) score
    then excellent
    else if leb_ℤ (pos 75) score
    then good
    else if leb_ℤ (pos 55) score
    then fair
    else if leb_ℤ (pos 30) score
    then poor
    else critical

module _ {F : Type 0} where
  -- `maxBitrateForQuality`
  unfoldable pub max_bitrate_for_quality : QualityLayer → AdaptiveOptions F → ℤ
  unfolding ◌-ℤ◌ ◌*ℤ◌
  max_bitrate_for_quality q o =
      if q == quality_low
      then o.medium_layer_min_kbps -ℤ pos 1
      else if q == quality_medium
      then o.high_layer_min_kbps -ℤ pos 1
      else o.high_layer_min_kbps *ℤ pos 2

-- `maxFPSForQuality`
unfoldable pub max_fps_for_quality : QualityLayer → ℤ
max_fps_for_quality q =
    if q == quality_low then pos 15 else if q == quality_medium then pos 24 else pos 30

-- The results of `rawDecision`.
pub record RawDecision : Type 0 where
  pub quality : QualityLayer
  pub grade : NetworkGrade
  pub score : ℤ
  pub audio_priority : Bool
  pub suspend : Bool
  pub max_bitrate : ℤ
  pub max_fps : ℤ
  pub reasons : List String

module _ {F : Type 0} (fl : Floats F) where
  -- The penalty of a float64 above a threshold: `int(math.Max(0, x-t) / d)` and the like are written
  -- out in `score_of`.
  abbrev over : F → ℕ → F
  over x t = fl.max (num fl 0) (fl.sub x (num fl t))

  abbrev pub floor_0 : ℤ → ℤ
  floor_0 n = if ltb_ℤ n (pos 0) then pos 0 else n

  -- The score of `rawDecision`.
  unfoldable pub score_of : AdaptiveState F → NetworkSample F → ℤ
  unfolding ◌+ℤ◌ ◌-ℤ◌ ◌*ℤ◌ min_int
  score_of st s =
      let a = pos 100 -ℤ fl.truncated (fl.mul st.loss_pct (num fl 4)) in
      let b = a -ℤ fl.truncated (fl.div (over st.rtt_ms 120) (num fl 8)) in
      let c = b -ℤ fl.truncated (fl.div (over st.jitter_ms 20) (num fl 2)) in
      let d = c -ℤ fl.truncated (fl.mul st.dropped_frames_pct (num fl 2)) in
      let e = d -ℤ fl.truncated (fl.mul (over st.decode_time_ms 24) (num fl 2)) in
      let f =
        if ltb_ℤ (pos 0) s.freeze_count_delta
        then e -ℤ (pos 15 +ℤ s.freeze_count_delta *ℤ pos 4)
        else e in
      let g = if ltb_ℤ (pos 0) s.pli_count_delta then f -ℤ s.pli_count_delta *ℤ pos 3 else f in
      floor_0
        (if ltb_ℤ (pos 0) s.nack_count_delta then g -ℤ min_int s.nack_count_delta (pos 30) else g)

  -- The layer, the grade and the reasons that the steps of `rawDecision` change in turn.
  abbrev pub Draft : Type 0
  Draft = QualityLayer × NetworkGrade × List String

  -- The switch on the estimated bandwidth.
  unfoldable pub by_bandwidth : AdaptiveOptions F → ℤ → NetworkGrade → List String → Draft
  by_bandwidth o bw grade reasons =
      if ltb_ℤ (pos 0) bw && ltb_ℤ bw o.critical_layer_kbps
      then (quality_low, critical, reasons ++ "bandwidth below critical video floor" ∷ [])
      else if ltb_ℤ (pos 0) bw && ltb_ℤ bw o.medium_layer_min_kbps
      then (quality_low, grade, reasons ++ "bandwidth supports low layer only" ∷ [])
      else if ltb_ℤ (pos 0) bw && ltb_ℤ bw o.high_layer_min_kbps
      then (quality_medium, grade, reasons ++ "bandwidth supports medium layer" ∷ [])
      else (quality_high, grade, reasons ++ "bandwidth supports high layer" ∷ [])

  abbrev pub exceeds : AdaptiveState F → ℕ → ℕ → ℕ → Bool
  exceeds st loss rtt jitter =
      fl.le (num fl loss) st.loss_pct
      || fl.le (num fl rtt) st.rtt_ms
      || fl.le (num fl jitter) st.jitter_ms

  -- The transport's health.
  unfoldable pub by_transport : AdaptiveState F → Draft → Draft
  by_transport st (quality, grade, reasons) =
      if exceeds st 12 700 120
      then (min_quality quality quality_low, critical, reasons ++ "critical transport health" ∷ [])
      else if exceeds st 5 400 70
      then (min_quality quality quality_low, grade, reasons ++ "poor transport health" ∷ [])
      else if exceeds st 2 220 40
      then (min_quality quality quality_medium, grade, reasons ++ "moderate transport health" ∷ [])
      else (quality, grade, reasons)

  -- The decoder's load.
  unfoldable pub by_device : AdaptiveState F → NetworkSample F → Draft → Draft
  by_device st s (quality, grade, reasons) =
      if fl.le (num fl 12) st.dropped_frames_pct
        || fl.le (num fl 45) st.decode_time_ms
        || leb_ℤ (pos 2) s.freeze_count_delta
      then (downgrade_quality quality, grade, reasons ++ "device decode pressure" ∷ [])
      else (quality, grade, reasons)

  -- What follows the three steps in `rawDecision`.
  unfoldable pub finish_raw :
      AdaptiveOptions F → AdaptiveState F → ℤ → ℤ → Bool → Draft → RawDecision
  finish_raw o st score bw audio_priority (drafted, grade, reasons) =
      let quality = if audio_priority then min_quality drafted quality_low else drafted in
      let suspend =
        (ltb_ℤ (pos 0) bw && ltb_ℤ bw o.critical_layer_kbps)
        || fl.le (num fl 10) st.audio_loss_pct
        || fl.le (num fl 120) st.audio_jitter_ms in
      let max_bitrate = max_bitrate_for_quality quality o in
      let max_fps = max_fps_for_quality quality in
      record {
        quality = quality;
        grade = grade;
        score = score;
        audio_priority = audio_priority;
        suspend = suspend;
        max_bitrate =
            if audio_priority || suspend
            then min_int max_bitrate (max_bitrate_for_quality quality_low o)
            else max_bitrate;
        max_fps = if audio_priority || suspend then min_int max_fps (pos 12) else max_fps;
        reasons =
            if suspend
            then reasons ++ "video suspend recommended until audio recovers" ∷ []
            else reasons;
      }

  -- `rawDecision`
  unfoldable pub raw_decision : AdaptiveOptions F → AdaptiveState F → NetworkSample F → RawDecision
  unfolding score_of by_bandwidth by_transport by_device finish_raw grade_from_score
  raw_decision o st s =
      let score = score_of st s in
      let audio_priority =
        fl.le (num fl 4) st.audio_loss_pct || fl.le (num fl 55) st.audio_jitter_ms in
      let reasons =
        if audio_priority then "audio priority: preserving speech intelligibility" ∷ [] else [] in
      let bw = fl.rounded st.bandwidth_kbps in
      finish_raw o st score bw audio_priority
        (by_device st s (by_transport st (by_bandwidth o bw (grade_from_score score) reasons)))
