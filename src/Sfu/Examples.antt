-- ===== src/Sfu/Examples.antt =====
-- The adaptive controller of internal/media/sfu/adaptive.go on concrete data, with hundredths of an integer
-- for float64.
use Prim.Native.String
use Prim.Native.String.{String}
use text.Mathlib.Text.{starts_with}
use aloqa_codex.Common.{
  ℕ, suc, ◌*◌, ◌/◌, true, false, List, [], ◌∷◌, none, some, ◌≡◌, refl, if◌then◌else◌,
}
use aloqa_codex.Common.Equality.{contains, string_eq}
use aloqa_codex.Common.GoMap.{get}
use aloqa_codex.Common.Int.{ℤ, pos, negsuc, ◌+ℤ◌, ◌-ℤ◌, ◌*ℤ◌, leb_ℤ, ltb_ℤ}
use aloqa_codex.Sfu.Floats.{Floats}
use aloqa_codex.Sfu.Adaptive.{AdaptiveOptions, NetworkSample, AdaptiveState}
use aloqa_codex.Sfu.Rating.{raw_decision}
use aloqa_codex.Sfu.Decide.{
  AdaptiveController, new_adaptive_controller, decide, forget_user, sample_key,
}
use aloqa_codex.Sfu.Signals.{is_device_constrained}
use aloqa_codex.Sfu.Raw.{IsSafe, raw_decision_sound}
use aloqa_codex.Sfu.Hysteresis.{IsHeldBack, st, decision}
use aloqa_codex.Sfu.History.{Run-decide}
use aloqa_codex.Sfu.Streams.{
  decide-contains, Run, started, decided, IsCounted, Run-IsCounted, get-forget_user,
}

abbrev divided : ℤ → ℕ → ℤ
divided (pos n) d = pos (n / d)
divided (negsuc n) d = pos 0 -ℤ pos (suc n / d)

abbrev magnitude : ℤ → ℕ
magnitude (pos n) = n
magnitude (negsuc n) = suc n

abbrev hundredths : Floats ℤ
hundredths = record {
  of_int = λ n. n *ℤ pos 100;
  ratio = λ a b. pos (a * 100 / b);
  add = λ a b. a +ℤ b;
  sub = λ a b. a -ℤ b;
  mul = λ a b. divided (a *ℤ b) 100;
  div = λ a b. divided (a *ℤ pos 100) (magnitude b);
  max = λ a b. if leb_ℤ a b then b else a;
  le = λ a b. leb_ℤ a b;
  lt = λ a b. ltb_ℤ a b;
  truncated = λ a. divided a 100;
  rounded = λ a. divided (a +ℤ pos 50) 100;
}

abbrev no_options : AdaptiveOptions ℤ
no_options = record {
  low_layer_min_kbps = pos 0;
  medium_layer_min_kbps = pos 0;
  high_layer_min_kbps = pos 0;
  critical_layer_kbps = pos 0;
  min_upswitch_interval = pos 0;
  min_downswitch_interval = pos 0;
  good_samples_for_upgrade = pos 0;
  poor_samples_for_downgrade = pos 0;
  ewma_alpha = pos 0;
}

-- A sample of a healthy network but for its bandwidth.
abbrev sample : ℕ → NetworkSample ℤ
sample kbps = record {
  user_id = "u";
  stream_id = "s";
  available_bitrate_kbps = pos kbps;
  observed_bitrate_kbps = pos 0;
  packet_loss_pct = pos 0;
  round_trip_time_ms = pos 30;
  jitter_ms = pos 0;
  audio_packet_loss_pct = pos 0;
  audio_jitter_ms = pos 0;
  frames_per_second = pos 3000;
  dropped_frames_pct = pos 0;
  decode_time_ms = pos 0;
  freeze_count_delta = pos 0;
  nack_count_delta = pos 0;
  pli_count_delta = pos 0;
  device_class = "High";
  low_power_mode = false;
  screen_share = false;
  timestamp = some (pos 9_000_000_000);
}

abbrev controller : AdaptiveController ℤ
controller = new_adaptive_controller hundredths no_options

abbrev layers : List String
layers = "f" ∷ "h" ∷ "q" ∷ []

-- One sample of much bandwidth does not raise the layer; one of too little lowers it at once.
good_held : (decision hundredths controller (pos 0) (sample 5000) "h" layers).target_quality ≡ "h"
unfolding decide new_adaptive_controller raw_decision get
good_held = refl

critical_lowers :
    (decision hundredths controller (pos 0) (sample 100) "h" layers).target_quality ≡ "q"
unfolding decide new_adaptive_controller raw_decision get
critical_lowers = refl

unconstrained : is_device_constrained "High" false ≡ false
unfolding is_device_constrained
unconstrained = refl

decide-contains_example :
    contains (decision hundredths controller (pos 0) (sample 100) "h" layers).target_quality layers
    ≡ true
decide-contains_example =
    decide-contains hundredths controller (pos 0) (sample 100) "h" layers unconstrained refl

abbrev sampled_state : AdaptiveState ℤ
sampled_state = st hundredths controller (pos 0) (sample 100) "h" layers

raw_decision_sound_example :
    IsSafe hundredths no_options sampled_state
      (hundredths.rounded sampled_state.bandwidth_kbps)
      (raw_decision hundredths no_options sampled_state (sample 100))
raw_decision_sound_example = raw_decision_sound hundredths no_options sampled_state (sample 100)

-- ---- a controller after one decision

abbrev after : AdaptiveController ℤ
after = (decide hundredths controller (pos 0) (sample 5000) "h" layers).0

abbrev kept_state : AdaptiveState ℤ
kept_state = record {
  initialized = true;
  bandwidth_kbps = pos 500_000;
  loss_pct = pos 0;
  rtt_ms = pos 3000;
  jitter_ms = pos 0;
  audio_loss_pct = pos 0;
  audio_jitter_ms = pos 0;
  fps = pos 3000;
  dropped_frames_pct = pos 0;
  decode_time_ms = pos 0;
  last_quality = "h";
  last_switch_at = pos 9_000_000_000;
  consecutive_good = 1;
  consecutive_poor = 0;
}

kept : get "u:s" after.state ≡ some kept_state
unfolding decide new_adaptive_controller raw_decision get
kept = refl

Run-IsCounted_example : IsCounted kept_state
Run-IsCounted_example =
    Run-IsCounted hundredths after
      (decided controller (pos 0) (sample 5000) "h" layers (started no_options)) "u:s" kept_state
      kept

abbrev first_run : Run hundredths after
first_run = decided controller (pos 0) (sample 5000) "h" layers (started no_options)

-- The second good sample in a row, with no time passed.
Run-decide_example :
    IsHeldBack after.options 2 0 (pos 9_000_000_000) (pos 9_000_000_000) "f" "h" false "h" true
unfolding decide new_adaptive_controller raw_decision get is_device_constrained
Run-decide_example = Run-decide hundredths first_run (pos 0) (sample 5000) "h" layers

get-forget_user_example :
    (get (sample_key "u" "s") (forget_user "u" after).state ≡ none)
    × (get "v:s" (forget_user "u" after).state ≡ (
        if starts_with "v:s" (Prim.Native.String.◌++◌ "u" ":")
        then none
        else get "v:s" after.state))
get-forget_user_example = get-forget_user "u" "s" "v:s" after
