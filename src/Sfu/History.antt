-- ===== src/Sfu/History.antt =====
-- What `AdaptiveController` of internal/media/sfu/adaptive.go remembers of a stream: the counters and the time of
-- the last switch are those of the decisions on the stream since it was first seen, or last forgotten.
use Prim.Native.String
use Prim.Native.String.{String}
use text.Mathlib.Text.{starts_with}
use aloqa_codex.Common.{
  ℕ, suc, ◌≡◌, inl, inr, refl, sym, subst, Bool, true, false, not, ◌||◌, List, [], ◌∷◌, Option,
  none, some, Bool-cases, if◌then◌else◌, ltb, arith, ◌∙◌,
}
use aloqa_codex.Common.Equality.{◌==◌, string_eq}
use aloqa_codex.Common.GoMap.{get, get-set}
use aloqa_codex.Common.Int.{ℤ}
use aloqa_codex.Sfu.Quality.{QualityLayer, quality_rank}
use aloqa_codex.Sfu.Floats.{Floats}
use aloqa_codex.Sfu.Adaptive.{AdaptiveOptions, NetworkSample, AdaptiveState, update_state}
use aloqa_codex.Sfu.Decide.{
  AdaptiveController, count_samples, switched, sample_key, decide, forget_user, forget_stream,
  new_adaptive_controller, has_suffix, state_or, fresh_state, is_immediate, time_or,
  current_or_medium,
}
use aloqa_codex.Sfu.Signals.{is_critical}
use aloqa_codex.Sfu.Hysteresis.{IsHeldBack, decide_sound, st, raw, want, decision}
use aloqa_codex.Sfu.Streams.{Run, started, decided, user_forgotten, stream_forgotten, get-drop_keys}

-- A decision on a stream: when, for a subscriber on which layer, which layer was asked for, and which was chosen.
pub record Past : Type 0 where
  pub at : ℤ
  pub current : QualityLayer
  pub wanted : QualityLayer
  pub chosen : QualityLayer

-- Of decisions, the last one first: how many in a row asked for a better layer, or for a worse one.
abbrev pub up_run : List Past → ℕ
up_run [] = 0
up_run (d ∷ h) =
    let rest = up_run h in
    if ltb (quality_rank d.current) (quality_rank d.wanted) then suc rest else 0

abbrev pub down_run : List Past → ℕ
down_run [] = 0
down_run (d ∷ h) =
    let rest = down_run h in
    if ltb (quality_rank d.wanted) (quality_rank d.current) then suc rest else 0

-- When the layer last changed, or else when the first decision was made; the time given where there is none.
abbrev pub last_switch : ℤ → List Past → ℤ
last_switch first [] = first
last_switch first (d ∷ h) =
    let rest = last_switch d.at h in if not (d.chosen == d.current) then d.at else rest

-- A state that is kept for a stream with these decisions; none is kept where there are none.
abbrev pub Remembers : {F : Type 0} → Option (AdaptiveState F) → List Past → Type 0
Remembers none h = h ≡ []
Remembers (some kept) h =
    (kept.consecutive_good ≡ up_run h)
    × (kept.consecutive_poor ≡ down_run h)
    × ((t : ℤ) → kept.last_switch_at ≡ last_switch t h)

held_by :
    {F : Type 0} {o : AdaptiveOptions F} {ups downs ups' downs' : ℕ} {since since' now' : ℤ}
    {target current result : QualityLayer} {urgent hold : Bool}
    → ups ≡ ups'
    → downs ≡ downs'
    → since ≡ since'
    → IsHeldBack o ups downs since now' target current urgent result hold
    → IsHeldBack o ups' downs' since' now' target current urgent result hold
held_by a b c held = rw (sym a, sym b, sym c) held

module _ {F : Type 0} (fl : Floats F) where
  -- Averaging the measurements leaves the counters and the time of the last switch alone.
  update_state_counters :
      (o : AdaptiveOptions F) (st : AdaptiveState F) (s : NetworkSample F)
      → ((update_state fl o st s).consecutive_good ≡ st.consecutive_good)
        × ((update_state fl o st s).consecutive_poor ≡ st.consecutive_poor)
        × ((update_state fl o st s).last_switch_at ≡ st.last_switch_at)
  unfolding update_state
  update_state_counters o st s = elim (Bool-cases st.initialized) [
    | inl e ↦ rw e (refl, refl, refl)
    | inr e ↦ rw e (refl, refl, refl)
  ]

  Counts : AdaptiveState F → ℤ → List Past → Type 0
  Counts st now h =
      (st.consecutive_good ≡ up_run h)
      × (st.consecutive_poor ≡ down_run h)
      × (st.last_switch_at ≡ last_switch now h)

  state_or-Counts :
      (entry : Option (AdaptiveState F)) (current : QualityLayer) (now : ℤ) (h : List Past)
      → Remembers entry h
      → Counts (state_or (fresh_state fl current now) entry) now h
  unfolding Counts
  state_or-Counts none current now h empty = rw empty (refl, refl, refl)
  state_or-Counts (some _) current now h (good, poor, last) = (good, poor, last now)

  count_samples_lem :
      (st : AdaptiveState F) (d : Past) (h : List Past)
      → Counts st d.at h
      → ((count_samples d.wanted d.current st).consecutive_good ≡ up_run (d ∷ h))
        × ((count_samples d.wanted d.current st).consecutive_poor ≡ down_run (d ∷ h))
        × ((count_samples d.wanted d.current st).last_switch_at ≡ last_switch d.at h)
  unfolding Counts count_samples
  count_samples_lem st d h (good, poor, last) =
      (ground (arith, good), ground (arith, poor), ground (arith, last))

  switched-Remembers :
      (st : AdaptiveState F) (d : Past) (h : List Past)
      → Counts st d.at h
      → Remembers
          (some (switched (count_samples d.wanted d.current st) d.at d.current d.chosen))
          (d ∷ h)
  unfolding Counts switched count_samples
  switched-Remembers st d h (good, poor, last) =
      (ground (arith, good), ground (arith, poor), λ t. ground (arith, last))

  -- ---- the decisions of a run

  module _ (c : AdaptiveController F) (clock : ℤ) (s : NetworkSample F) (given : QualityLayer)
      (available : List QualityLayer) where
    -- The decision that a call of `Decide` makes.
    abbrev pub this : Past
    this = record {
      at = time_or clock s.timestamp;
      current = current_or_medium given;
      wanted = want fl c clock s given available;
      chosen = (decision fl c clock s given available).target_quality;
    }

    -- The state that the call leaves behind.
    abbrev left_behind : AdaptiveState F
    left_behind =
        switched
          (count_samples (want fl c clock s given available) (current_or_medium given)
            (st fl c clock s given available))
          (time_or clock s.timestamp) (current_or_medium given)
          (decision fl c clock s given available).target_quality

    st-Counts :
        (h : List Past)
        → Remembers (get (sample_key s.user_id s.stream_id) c.state) h
        → Counts (st fl c clock s given available) (time_or clock s.timestamp) h
    unfolding Counts
    st-Counts h kept =
        let entry = get (sample_key s.user_id s.stream_id) c.state in
        let at = time_or clock s.timestamp in
        let current = current_or_medium given in
        let (good, poor, last) = state_or-Counts entry current at h kept in
        let (good', poor', last') =
          update_state_counters c.options (state_or (fresh_state fl current at) entry) s in
        (good' ∙ good, poor' ∙ poor, last' ∙ last)

  -- The decisions on the stream of a key in a run, the last one first, since it was last forgotten.
  abbrev pub past : {c : AdaptiveController F} → Run fl c → String → List Past
  past (started o) key = []
  past (decided c clock s given available run) key =
      let rest = past run key in
      if sample_key s.user_id s.stream_id == key
      then this c clock s given available ∷ rest
      else rest
  past (user_forgotten c user run) key =
      let rest = past run key in
      if starts_with key (Prim.Native.String.◌++◌ user ":") then [] else rest
  past (stream_forgotten c stream run) key =
      let rest = past run key in
      if has_suffix key (Prim.Native.String.◌++◌ ":" stream) then [] else rest

  forgets :
      (drop : Bool) (entry : Option (AdaptiveState F)) (h : List Past)
      → Remembers entry h
      → Remembers (if drop then none else entry) (if drop then [] else h)
  forgets true entry h kept = refl
  forgets false entry h kept = kept

  Run-Remembers :
      {c : AdaptiveController F} (run : Run fl c) (key : String)
      → Remembers (get key c.state) (past run key)
  unfolding new_adaptive_controller decide forget_user forget_stream get
  Run-Remembers (started o) key = refl
  Run-Remembers (decided c clock s given available run) key =
      let own = sample_key s.user_id s.stream_id in
      elim (Bool-cases (own == key)) [
        | inl hit ↦
            rw (get-set own key _ c.state, hit)
              (subst
                (λ k.
                  Remembers (some (left_behind c clock s given available))
                    (this c clock s given available ∷ past run k))
                ((string_eq.eqb_iff own key).0 hit)
                (switched-Remembers (st fl c clock s given available)
                  (this c clock s given available) (past run own)
                  (st-Counts c clock s given available (past run own) (Run-Remembers run own))))
        | inr miss ↦ rw (get-set own key _ c.state, miss) (Run-Remembers run key)
      ]
  Run-Remembers (user_forgotten c user run) key =
      rw (get-drop_keys _ key c.state) (forgets _ _ _ (Run-Remembers run key))
  Run-Remembers (stream_forgotten c stream run) key =
      rw (get-drop_keys _ key c.state) (forgets _ _ _ (Run-Remembers run key))

  -- Every decision on a stream, after any calls of `Decide`, `ForgetUser` and `ForgetStream` on a new controller:
  -- `Decide` keeps the subscriber's layer when it holds, and else chooses the layer that the network, the layers
  -- at hand and the device ask for. It goes up only when the last GoodSamplesForUpgrade decisions on the stream,
  -- this one included, all asked for a better layer than the subscriber had, and MinUpswitchInterval has passed
  -- since the stream's layer last changed, or since it was first seen. It goes down only when the last
  -- PoorSamplesForDowngrade decisions all asked for a worse layer and MinDownswitchInterval has passed, unless
  -- the grade is critical, audio has priority, video is suspended or the device is constrained.
  pub Run-decide :
      {c : AdaptiveController F} (run : Run fl c) (clock : ℤ) (s : NetworkSample F)
      (given : QualityLayer) (available : List QualityLayer)
      → IsHeldBack c.options
          (up_run (this c clock s given available ∷ past run (sample_key s.user_id s.stream_id)))
          (down_run (this c clock s given available ∷ past run (sample_key s.user_id s.stream_id)))
          (last_switch (time_or clock s.timestamp) (past run (sample_key s.user_id s.stream_id)))
          (time_or clock s.timestamp)
          (want fl c clock s given available)
          (current_or_medium given)
          (is_critical (raw fl c clock s given available).grade
            || is_immediate (raw fl c clock s given available) s)
          (decision fl c clock s given available).target_quality
          (decision fl c clock s given available).hold
  Run-decide {c = c} run clock s given available =
      let h = past run (sample_key s.user_id s.stream_id) in
      let d = this c clock s given available in
      let (good, poor, last) = count_samples_lem (st fl c clock s given available) d h (
        st-Counts c clock s given available h
          (Run-Remembers run (sample_key s.user_id s.stream_id))) in
      held_by good poor last (decide_sound fl c clock s given available)
