-- ===== src/Sfu/Hysteresis.antt =====
-- When `Decide` of internal/media/sfu/adaptive.go changes a subscriber's layer.
use aloqa_codex.Common.{
  ℕ, String, ◌≡◌, ◌<◌, inl, inr, refl, Bool, true, false, not, ◌&&◌, ◌||◌, List, Bool-cases, ltb,
  lt→ltb, arith,
}
use aloqa_codex.Common.Equality.{string_eq}
use aloqa_codex.Common.Int.{ℤ, pos, ◌-ℤ◌, ◌≤ℤ◌, ltb_ℤ}
use aloqa_codex.Sfu.Quality.{QualityLayer, quality_rank}
use aloqa_codex.Sfu.Floats.{Floats}
use aloqa_codex.Sfu.Adaptive.{NetworkGrade, AdaptiveOptions, NetworkSample, AdaptiveState}
use aloqa_codex.Sfu.Rating.{RawDecision, raw_decision}
use aloqa_codex.Sfu.Decide.{
  AdaptiveController, AdaptiveDecision, hold_back, count_samples, decide, sampled, time_or,
  current_or_medium, is_immediate, wanted,
}
use aloqa_codex.Sfu.Signals.{is_critical}

past : (a b c d : ℤ) → ltb_ℤ a b || ltb_ℤ c d ≡ false → (b ≤ℤ a) × (d ≤ℤ c)
past a b c d h = ground arith

urgent_or :
    {A : Type 0}
    → (down crit immediate : Bool) → down ≡ true
    → crit || immediate ≡ false
    → down && not crit && not immediate ≡ false
    → A
urgent_or true true i h u p = ground arith
urgent_or true false true h u p = ground arith
urgent_or true false false h u p = ground arith
urgent_or false c i h u p = ground arith

module _ {F : Type 0} where
  -- What the hysteresis allows, after `ups` samples in a row for a better layer or `downs` for a worse one, and
  -- with the last switch at the time `since`.
  pub record IsHeldBack (o : AdaptiveOptions F) (ups downs : ℕ) (since now : ℤ)
      (target current : QualityLayer) (urgent : Bool) (result : QualityLayer) (hold : Bool)
      : Type 0 where
    pub held : hold ≡ true → result ≡ current
    pub free : hold ≡ false → result ≡ target
    pub upgrade :
        quality_rank current < quality_rank result
        → (o.good_samples_for_upgrade ≤ℤ pos ups) × (o.min_upswitch_interval ≤ℤ now -ℤ since)
    pub downgrade :
        quality_rank result < quality_rank current
        → urgent ≡ false
        → (o.poor_samples_for_downgrade ≤ℤ pos downs) × (o.min_downswitch_interval ≤ℤ now -ℤ since)

  kept :
      (o : AdaptiveOptions F) (ups downs : ℕ) (since now : ℤ) (target current : QualityLayer)
      (urgent : Bool)
      → IsHeldBack o ups downs since now target current urgent current true
  kept o ups downs since now target current urgent = record {
    held = λ h. refl;
    free = λ h. ground arith;
    upgrade = λ h. ground (arith, h);
    downgrade = λ h u. ground (arith, h);
  }

  hold_back_sound :
      (o : AdaptiveOptions F) (st : AdaptiveState F) (now : ℤ) (target current : QualityLayer)
      (grade : NetworkGrade) (immediate : Bool) (reasons : List String)
      → IsHeldBack o st.consecutive_good st.consecutive_poor st.last_switch_at now target current
          (is_critical grade || immediate)
          (hold_back o st now target current grade immediate reasons).target
          (hold_back o st now target current grade immediate reasons).hold
  unfolding hold_back
  hold_back_sound o st now target current grade immediate reasons =
      elim (Bool-cases (ltb (quality_rank current) (quality_rank target))) [
        | inl up ↦
            elim (Bool-cases (
              ltb_ℤ (pos st.consecutive_good) o.good_samples_for_upgrade
              || ltb_ℤ (now -ℤ st.last_switch_at) o.min_upswitch_interval)) [
                | inl wait ↦
                    rw (up, wait) (kept o _ _ _ now target current (is_critical grade || immediate))
                | inr wait ↦
                    rw (up, wait)
                      record {
                        held = λ h. ground arith;
                        free = λ h. refl;
                        upgrade = λ h.
                            past (pos st.consecutive_good) o.good_samples_for_upgrade
                              (now -ℤ st.last_switch_at) o.min_upswitch_interval wait;
                        downgrade = λ h u. ground (arith, h, up);
                      }
              ]
        | inr up ↦
            elim (Bool-cases (
              ltb (quality_rank target) (quality_rank current)
              && not (is_critical grade)
              && not immediate)) [
                | inl down ↦
                    elim (Bool-cases (
                      ltb_ℤ (pos st.consecutive_poor) o.poor_samples_for_downgrade
                      || ltb_ℤ (now -ℤ st.last_switch_at) o.min_downswitch_interval)) [
                        | inl wait ↦
                            rw (up, down, wait)
                              (kept o _ _ _ now target current (is_critical grade || immediate))
                        | inr wait ↦
                            rw (up, down, wait)
                              record {
                                held = λ h. ground arith;
                                free = λ h. refl;
                                upgrade = λ h. ground (arith, h, up);
                                downgrade = λ h u.
                                    past (pos st.consecutive_poor) o.poor_samples_for_downgrade
                                      (now -ℤ st.last_switch_at) o.min_downswitch_interval wait;
                              }
                      ]
                | inr down ↦
                    rw (up, down)
                      record {
                        held = λ h. ground arith;
                        free = λ h. refl;
                        upgrade = λ h. ground (arith, h, up);
                        downgrade = λ h u.
                            urgent_or (ltb (quality_rank target) (quality_rank current))
                              (is_critical grade) immediate
                              (lt→ltb (quality_rank target) (quality_rank current) h) u down;
                      }
              ]
      ]

module _ {F : Type 0} (fl : Floats F) (c : AdaptiveController F) (clock : ℤ) (s : NetworkSample F)
    (given : QualityLayer) (available : List QualityLayer) where
  -- The parts of a run of `Decide`: the time, the layer, the state behind the sample, the decision
  -- before hysteresis and the layer it asks for.
  abbrev pub now : ℤ
  now = time_or clock s.timestamp

  abbrev pub current : QualityLayer
  current = current_or_medium given

  abbrev pub st : AdaptiveState F
  st = sampled fl c s (current_or_medium given) (time_or clock s.timestamp)

  abbrev pub raw : RawDecision
  raw = raw_decision fl c.options st s

  abbrev pub want : QualityLayer
  want = (wanted raw s available).0

  abbrev pub decision : AdaptiveDecision
  decision = (decide fl c clock s given available).1

  -- `Decide` keeps the subscriber's layer when it holds, and else chooses the layer that the network,
  -- the layers at hand and the device ask for. It goes up only when at least GoodSamplesForUpgrade
  -- samples are counted for a better layer, this one included, and MinUpswitchInterval has passed since
  -- the time kept of the last switch. It goes down only when PoorSamplesForDowngrade samples are counted
  -- for a worse layer and MinDownswitchInterval has passed, unless the grade is critical, audio
  -- has priority, video is suspended or the device is constrained.
  pub decide_sound :
      IsHeldBack c.options
        (count_samples want current st).consecutive_good
        (count_samples want current st).consecutive_poor
        (count_samples want current st).last_switch_at
        now
        want
        current
        (is_critical raw.grade || is_immediate raw s)
        decision.target_quality
        decision.hold
  unfolding decide
  decide_sound =
      hold_back_sound c.options (count_samples want current st) now want current raw.grade
        (is_immediate raw s) (wanted raw s available).1
