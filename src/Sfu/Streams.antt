-- ===== src/Sfu/Streams.antt =====
-- The runs of `AdaptiveController` of internal/media/sfu/adaptive.go: the layers that the track has, the
-- counters of each stream, and what is forgotten.
use Prim.Native.String
use Prim.Native.String.{String}
use text.Mathlib.Text.{starts_with}
use text.Mathlib.TextPositions.{starts_with_of_prefix}
use aloqa_codex.Common.{
  ◌≡◌, ◌⊎◌, inl, inr, refl, sym, subst, Bool, true, false, List, [], ◌∷◌, none, some, Bool-cases,
  if◌then◌else◌, All, arith,
}
use aloqa_codex.Common.Equality.{◌==◌, string_eq, contains}
use aloqa_codex.Common.GoMap.{GoMap, get, All-set, All-get}
use aloqa_codex.Common.Int.{ℤ}
use aloqa_codex.Sfu.Quality.{QualityLayer, quality_low, clamp_quality}
use aloqa_codex.Sfu.Floats.{Floats}
use aloqa_codex.Sfu.Adaptive.{AdaptiveOptions, NetworkSample, AdaptiveState}
use aloqa_codex.Sfu.Rating.{RawDecision}
use aloqa_codex.Sfu.Layers.{clamp_quality-contains}
use aloqa_codex.Sfu.Decide.{
  AdaptiveController, wanted, count_samples, switched, sample_key, decide, drop_keys, forget_user,
  forget_stream, new_adaptive_controller, current_or_medium, time_or, sampled,
}
use aloqa_codex.Sfu.Signals.{is_device_constrained, cap_for_device}
use aloqa_codex.Sfu.Hysteresis.{decide_sound, current, want, decision}

uncapped :
    (q : QualityLayer) (device : String) (low_power : Bool) (reasons : List String)
    → is_device_constrained device low_power ≡ false
    → (cap_for_device q device low_power reasons).0 ≡ q
unfolding is_device_constrained cap_for_device
uncapped q device low_power reasons h = ground (arith, h)

module _ {F : Type 0} (raw : RawDecision) (s : NetworkSample F)
    (available : List QualityLayer) where
  wanted_suspended :
      raw.suspend ≡ true → (wanted raw s available).0 ≡ clamp_quality quality_low available
  unfolding wanted
  wanted_suspended e = rw e refl

  wanted_running :
      raw.suspend ≡ false
      → is_device_constrained s.device_class s.low_power_mode ≡ false
      → (wanted raw s available).0 ≡ clamp_quality raw.quality available
  unfolding wanted
  wanted_running e h =
      rw e (
        uncapped (clamp_quality raw.quality available) s.device_class s.low_power_mode raw.reasons
          h)

wanted-contains :
    {F : Type 0}
    → (raw : RawDecision) (s : NetworkSample F) (a : QualityLayer) (rest : List QualityLayer)
    → is_device_constrained s.device_class s.low_power_mode ≡ false
    → contains (wanted raw s (a ∷ rest)).0 (a ∷ rest) ≡ true
wanted-contains raw s a rest h = elim (Bool-cases raw.suspend) [
  | inl e ↦
      subst (λ q. contains q (a ∷ rest) ≡ true) (sym (wanted_suspended raw s (a ∷ rest) e))
        (clamp_quality-contains quality_low a rest)
  | inr e ↦
      subst (λ q. contains q (a ∷ rest) ≡ true) (sym (wanted_running raw s (a ∷ rest) e h))
        (clamp_quality-contains raw.quality a rest)
]

-- For a device that is not constrained and a subscriber whose layer the track has, `Decide` chooses a
-- layer that the track has.
pub decide-contains :
    {F : Type 0}
    → (fl : Floats F) (c : AdaptiveController F) (clock : ℤ) (s : NetworkSample F)
      (given : QualityLayer) (available : List QualityLayer)
    → is_device_constrained s.device_class s.low_power_mode ≡ false
    → contains (current fl c clock s given available) available ≡ true
    → contains (decision fl c clock s given available).target_quality available ≡ true
decide-contains fl c clock s given [] h k = ground (arith, k)
decide-contains fl c clock s given (a ∷ rest) h k =
    let sound = decide_sound fl c clock s given (a ∷ rest) in
    let target = (decision fl c clock s given (a ∷ rest)).target_quality in
    elim (Bool-cases (decision fl c clock s given (a ∷ rest)).hold) [
      | inl e ↦ subst (λ q. contains q (a ∷ rest) ≡ true) (sym (sound.held e)) k
      | inr e ↦
          subst (λ q. contains q (a ∷ rest) ≡ true) (sym (sound.free e))
            (wanted-contains _ s a rest h)
    ]

-- ---- the counters

module _ {F : Type 0} where
  abbrev pub IsCounted : AdaptiveState F → Type 0
  IsCounted st = (st.consecutive_good ≡ 0) ⊎ (st.consecutive_poor ≡ 0)

  abbrev EntryCounted : String × AdaptiveState F → Type 0
  EntryCounted (k, st) = IsCounted st

  switched-IsCounted :
      (target current result : QualityLayer) (st : AdaptiveState F) (now : ℤ)
      → IsCounted (switched (count_samples target current st) now current result)
  unfolding switched count_samples
  switched-IsCounted target current result st now = ground arith

  -- The controllers that the calls lead to.
  pub data Run (fl : Floats F) : AdaptiveController F → Type 0 where
    started : (o : AdaptiveOptions F) → Run fl (new_adaptive_controller fl o)
    decided :
        (c : AdaptiveController F) (clock : ℤ) (s : NetworkSample F) (given : QualityLayer)
        (available : List QualityLayer)
        → Run fl c
        → Run fl (decide fl c clock s given available).0
    user_forgotten :
        (c : AdaptiveController F) (user : String) → Run fl c → Run fl (forget_user user c)
    stream_forgotten :
        (c : AdaptiveController F) (stream : String) → Run fl c → Run fl (forget_stream stream c)

  All-drop_keys :
      (P : String × AdaptiveState F → Type 0) (p : String → Bool)
      (m : GoMap String (AdaptiveState F))
      → All P m
      → All P (drop_keys p m)
  unfolding drop_keys
  All-drop_keys P p [] h = h
  All-drop_keys P p ((k, st) ∷ m) h = elim (Bool-cases (p k)) [
    | inl e ↦ rw e (All-drop_keys P p m h.1)
    | inr e ↦ rw e (h.0, All-drop_keys P p m h.1)
  ]

  counted : (fl : Floats F) (c : AdaptiveController F) → Run fl c → All EntryCounted c.state
  unfolding new_adaptive_controller decide forget_user forget_stream
  counted fl c (started o) = tt
  counted fl c (decided b clock s given available run) =
      All-set EntryCounted (sample_key s.user_id s.stream_id) _ b.state
        (switched-IsCounted (want fl b clock s given available) (current_or_medium given) _
          (sampled fl b s (current_or_medium given) (time_or clock s.timestamp))
          (time_or clock s.timestamp))
        (counted fl b run)
  counted fl c (user_forgotten b user run) = All-drop_keys EntryCounted _ b.state (counted fl b run)
  counted fl c (stream_forgotten b stream run) =
      All-drop_keys EntryCounted _ b.state (counted fl b run)

  -- After any calls of `Decide`, `ForgetUser` and `ForgetStream` on a new controller, no stream counts
  -- good samples and poor samples at once.
  pub Run-IsCounted :
      (fl : Floats F) (c : AdaptiveController F)
      → Run fl c
      → (key : String) (st : AdaptiveState F) → get key c.state ≡ some st
      → IsCounted st
  Run-IsCounted fl c run key st g = All-get EntryCounted key st c.state (counted fl c run) g

  pub get-drop_keys :
      (p : String → Bool) (key : String) (m : GoMap String (AdaptiveState F))
      → get key (drop_keys p m) ≡ (if p key then none else get key m)
  unfolding get drop_keys
  get-drop_keys p key [] = ground arith
  get-drop_keys p key ((k, st) ∷ m) = elim (Bool-cases (p k)) [
    | inl e ↦ elim (Bool-cases (k == key)) [
      | inl hit ↦
          let pk = subst (λ x. p x ≡ true) ((string_eq.eqb_iff k key).0 hit) e in
          rw (e, pk) (rw pk at (get-drop_keys p key m))
      | inr miss ↦ rw (e, miss, get) (get-drop_keys p key m)
    ]
    | inr e ↦ elim (Bool-cases (k == key)) [
      | inl hit ↦
          let pk = subst (λ x. p x ≡ false) ((string_eq.eqb_iff k key).0 hit) e in
          rw (e, pk, hit, get) refl
      | inr miss ↦ rw (e, miss, get) (get-drop_keys p key m)
    ]
  ]

starts_with_own : (a b : String) → starts_with (Prim.Native.String.◌++◌ a b) a ≡ true
starts_with_own a b = starts_with_of_prefix a (Prim.Native.String.◌++◌ a b) (b, refl)

dropped :
    {F : Type 0}
    → (p : String → Bool) (key : String) (m : GoMap String (AdaptiveState F)) → p key ≡ true
    → get key (drop_keys p m) ≡ none
dropped p key m h = rw h at (get-drop_keys p key m)

-- `ForgetUser` removes every stream of the user: of the keys, exactly those that begin with the user's id
-- and a colon are gone, and every other key has the state it had.
pub get-forget_user :
    {F : Type 0}
    → (user stream key : String) (c : AdaptiveController F)
    → (get (sample_key user stream) (forget_user user c).state ≡ none)
      × (get key (forget_user user c).state
          ≡ (if starts_with key (Prim.Native.String.◌++◌ user ":") then none else get key c.state))
unfolding forget_user
get-forget_user user stream key c =
    let prefix = Prim.Native.String.◌++◌ user ":" in
    (
      dropped (λ k. starts_with k prefix) (sample_key user stream) c.state
          (starts_with_own prefix stream),
      get-drop_keys (λ k. starts_with k prefix) key c.state,
    )
