-- ===== src/Sfu/Raw.antt =====
-- Which layer `rawDecision` of internal/media/sfu/adaptive.go asks for.
use aloqa_codex.Common.{
  String, ◌≡◌, ◌≤◌, inl, inr, ◌∙◌, Bool, true, false, ◌||◌, List, Bool-cases, arith,
}
use aloqa_codex.Common.Equality.{string_eq}
use aloqa_codex.Common.Int.{ℤ, pos, ◌≤ℤ◌, ltb_ℤ}
use aloqa_codex.Sfu.Quality.{QualityLayer, quality_medium, quality_low, quality_rank}
use aloqa_codex.Sfu.Layers.{rank-min_left, rank-min_right, rank-downgrade, rank_low, rank_medium}
use aloqa_codex.Sfu.Floats.{Floats}
use aloqa_codex.Sfu.Adaptive.{NetworkGrade, critical, AdaptiveOptions, NetworkSample, AdaptiveState}
use aloqa_codex.Sfu.Rating.{
  RawDecision, exceeds, Draft, by_bandwidth, by_transport, by_device, finish_raw, raw_decision,
  min_int, max_bitrate_for_quality, score_of, grade_from_score,
}

-- ---- the decision before hysteresis

module _ {F : Type 0} (fl : Floats F) where
  rank-by_transport :
      (st : AdaptiveState F) (q : QualityLayer) (g : NetworkGrade) (reasons : List String)
      → quality_rank (by_transport fl st (q, g, reasons)).0 ≤ quality_rank q
  unfolding by_transport
  rank-by_transport st q g reasons =
      ground (arith, rank-min_left q quality_low, rank-min_left q quality_medium)

  rank-by_device :
      (st : AdaptiveState F) (s : NetworkSample F) (q : QualityLayer) (g : NetworkGrade)
      (reasons : List String)
      → quality_rank (by_device fl st s (q, g, reasons)).0 ≤ quality_rank q
  unfolding by_device
  rank-by_device st s q g reasons = ground (arith, rank-downgrade q)

  rank-finish_raw :
      (o : AdaptiveOptions F) (st : AdaptiveState F) (score bw : ℤ) (audio : Bool)
      (q : QualityLayer) (g : NetworkGrade) (reasons : List String)
      → (quality_rank (finish_raw fl o st score bw audio (q, g, reasons)).quality ≤ quality_rank q)
        × (audio ≡ true
            → quality_rank (finish_raw fl o st score bw audio (q, g, reasons)).quality ≤ 1)
  unfolding finish_raw
  rank-finish_raw o st score bw true q g reasons =
      (rank-min_left q quality_low, λ h. ground (arith, rank-min_right q quality_low, rank_low))
  rank-finish_raw o st score bw false q g reasons = (ground arith, λ h. ground arith)

  by_transport_lem :
      (st : AdaptiveState F) (q : QualityLayer) (g : NetworkGrade) (reasons : List String)
      → (exceeds fl st 5 400 70 ≡ true → quality_rank (by_transport fl st (q, g, reasons)).0 ≤ 1)
        × (exceeds fl st 2 220 40 ≡ true → quality_rank (by_transport fl st (q, g, reasons)).0 ≤ 2)
        × (exceeds fl st 12 700 120 ≡ true → (by_transport fl st (q, g, reasons)).1 ≡ critical)
        × (g ≡ critical → (by_transport fl st (q, g, reasons)).1 ≡ critical)
  unfolding by_transport
  by_transport_lem st q g reasons = (
    λ h. ground (arith, h, rank-min_right q quality_low, rank_low),
    λ h. ground (
      arith,
      h,
      rank-min_right q quality_low,
      rank-min_right q quality_medium,
      rank_low,
      rank_medium,
    ),
    λ h. ground (arith, h),
    λ h. ground (arith, h),
  )

  by_bandwidth_lem :
      (o : AdaptiveOptions F) (bw : ℤ) (g : NetworkGrade) (reasons : List String)
      → (pos 1 ≤ℤ bw
          → ltb_ℤ bw o.medium_layer_min_kbps ≡ true
          → quality_rank (by_bandwidth fl o bw g reasons).0 ≤ 1)
        × (pos 1 ≤ℤ bw
            → ltb_ℤ bw o.high_layer_min_kbps ≡ true
            → quality_rank (by_bandwidth fl o bw g reasons).0 ≤ 2)
        × (pos 1 ≤ℤ bw
            → ltb_ℤ bw o.critical_layer_kbps ≡ true
            → (by_bandwidth fl o bw g reasons).1 ≡ critical)
  unfolding by_bandwidth
  by_bandwidth_lem o bw g reasons = (
    λ a h. ground (arith, a, h, rank_low, rank_medium),
    λ a h. ground (arith, a, h, rank_low, rank_medium),
    λ a h. ground (arith, a, h),
  )

  grade-by_device :
      (st : AdaptiveState F) (s : NetworkSample F) (d : Draft fl) → (by_device fl st s d).1 ≡ d.1
  unfolding by_device
  grade-by_device st s (q, g, reasons) = ground arith

  min_int_right : (a b : ℤ) → min_int a b ≤ℤ b
  unfolding min_int
  min_int_right a b = elim (Bool-cases (ltb_ℤ a b)) [
    | inl e ↦ rw e (ground (arith, e))
    | inr e ↦ rw e (ground arith)
  ]

  finish_raw_caps :
      (o : AdaptiveOptions F) (st : AdaptiveState F) (score bw : ℤ) (audio : Bool) (d : Draft fl)
      → (finish_raw fl o st score bw audio d).audio_priority
          || (finish_raw fl o st score bw audio d).suspend
        ≡ true
      → ((finish_raw fl o st score bw audio d).max_fps ≤ℤ pos 12)
        × ((finish_raw fl o st score bw audio d).max_bitrate
            ≤ℤ max_bitrate_for_quality quality_low o)
  unfolding finish_raw
  finish_raw_caps o st score bw audio (q, g, reasons) h =
      rw h (min_int_right _ (pos 12), min_int_right _ (max_bitrate_for_quality quality_low o))

  -- What `rawDecision` promises of a decision `r` for a state: `bw` is the estimated bandwidth.
  pub record IsSafe (o : AdaptiveOptions F) (st : AdaptiveState F) (bw : ℤ) (r : RawDecision)
      : Type 0 where
    pub audio_first : r.audio_priority ≡ true → quality_rank r.quality ≤ 1
    pub low_bandwidth :
        pos 1 ≤ℤ bw → ltb_ℤ bw o.medium_layer_min_kbps ≡ true → quality_rank r.quality ≤ 1
    pub medium_bandwidth :
        pos 1 ≤ℤ bw → ltb_ℤ bw o.high_layer_min_kbps ≡ true → quality_rank r.quality ≤ 2
    pub poor_transport : exceeds fl st 5 400 70 ≡ true → quality_rank r.quality ≤ 1
    pub moderate_transport : exceeds fl st 2 220 40 ≡ true → quality_rank r.quality ≤ 2
    pub critical_transport : exceeds fl st 12 700 120 ≡ true → r.grade ≡ critical
    pub critical_bandwidth :
        pos 1 ≤ℤ bw → ltb_ℤ bw o.critical_layer_kbps ≡ true → r.grade ≡ critical
    pub caps :
        r.audio_priority || r.suspend ≡ true
        → (r.max_fps ≤ℤ pos 12) × (r.max_bitrate ≤ℤ max_bitrate_for_quality quality_low o)

  chain-IsSafe :
      (o : AdaptiveOptions F) (st : AdaptiveState F) (s : NetworkSample F) (score bw : ℤ)
      (audio : Bool) (g : NetworkGrade) (reasons : List String)
      → IsSafe o st bw (
          finish_raw fl o st score bw audio
            (by_device fl st s (by_transport fl st (by_bandwidth fl o bw g reasons))))
  unfolding finish_raw
  chain-IsSafe o st s score bw audio g reasons =
      let a = by_bandwidth fl o bw g reasons in
      let b = by_transport fl st a in
      let c = by_device fl st s b in
      let ab = rank-by_transport st a.0 a.1 a.2 in
      let bc = rank-by_device st s b.0 b.1 b.2 in
      let cd = rank-finish_raw o st score bw audio c.0 c.1 c.2 in
      let bl = by_bandwidth_lem o bw g reasons in
      let tl = by_transport_lem st a.0 a.1 a.2 in
      record {
        audio_first = λ h. cd.1 h;
        low_bandwidth = λ h k. ground (arith, ab, bc, cd.0, bl.0 h k);
        medium_bandwidth = λ h k. ground (arith, ab, bc, cd.0, bl.1 h k);
        poor_transport = λ h. ground (arith, bc, cd.0, tl.0 h);
        moderate_transport = λ h. ground (arith, bc, cd.0, tl.1 h);
        critical_transport = λ h. grade-by_device st s b ∙ tl.2 h;
        critical_bandwidth = λ h k. grade-by_device st s b ∙ tl.3 (bl.2 h k);
        caps = finish_raw_caps o st score bw audio c;
      }

  -- `rawDecision` asks for the low layer when audio has priority, when the bandwidth is known and below
  -- that of the medium layer, and when the loss, the delay or the jitter is poor; for no more than the
  -- medium layer when the bandwidth is below that of the high layer or the transport's health is
  -- moderate. Its grade is critical at a bandwidth below the critical one and at critical health. When
  -- audio has priority or video is to be suspended, at most 12 frames a second and no more than the low
  -- layer's bitrate are allowed.
  pub raw_decision_sound :
      (o : AdaptiveOptions F) (st : AdaptiveState F) (s : NetworkSample F)
      → IsSafe o st (fl.rounded st.bandwidth_kbps) (raw_decision fl o st s)
  unfolding raw_decision
  raw_decision_sound o st s =
      chain-IsSafe o st s (score_of fl st s) (fl.rounded st.bandwidth_kbps) _
        (grade_from_score (score_of fl st s)) _
