-- ===== src/Sfu/Runs.antt =====
-- A simulcast track of internal/media/sfu/simulcast.go on concrete data: two layers, a sink, and two calls of
-- `Close`.
use aloqa_codex.Common.{ℕ, String, true, false, [], ◌∷◌, some, ◌≡◌, refl}
use aloqa_codex.Common.Equality.{contains, nat_eq, string_eq}
use aloqa_codex.Common.GoMap.{keys}
use aloqa_codex.Cerrors.{ok, err}
use aloqa_codex.Sfu.Simulcast.{
  SimulcastTrack, new_simulcast_track, add_layer, add_injected_layer, add_sink, close, closed_pipe,
  best_available_layer, dones,
}
use aloqa_codex.Sfu.Closing.{
  adds, injects, sinks, closes, Reach, here, next, IsSound, Reach-new_simulcast_track,
  best_available_layer-contains,
}

abbrev track_0 : SimulcastTrack
track_0 = new_simulcast_track "camera" "u"

abbrev track_1 : SimulcastTrack
track_1 = (add_layer "f" (ok 100) 1 "t" "camera" "video/VP8" track_0).0

abbrev track_2 : SimulcastTrack
track_2 = (add_injected_layer "q" (ok 101) 2 "t" "video/VP8" track_1).0

abbrev track_3 : SimulcastTrack
track_3 = (add_sink "q" (some 9) track_2).0

abbrev track_5 : SimulcastTrack
track_5 = close (close track_3)

no_channel_yet : contains {A = ℕ} 1 (dones track_0.layers) ≡ false
unfolding new_simulcast_track
no_channel_yet = refl

second_channel : contains {A = ℕ} 2 (dones track_1.layers) ≡ false
unfolding new_simulcast_track add_layer
second_channel = refl

run_5 : Reach track_0 track_5
run_5 =
    next
      (next
        (next
          (next (next here (adds "f" (ok 100) 1 "t" "camera" "video/VP8" no_channel_yet))
            (injects "q" (ok 101) 2 "t" "video/VP8" second_channel))
          (sinks "q" (some 9)))
        closes)
      closes

Reach-new_simulcast_track_example : IsSound track_5
Reach-new_simulcast_track_example = Reach-new_simulcast_track "camera" "u" track_5 run_5

closed_run : track_5.closed_channels ≡ 1 ∷ 2 ∷ []
unfolding new_simulcast_track add_layer add_injected_layer add_sink close
closed_run = refl

-- A closed track takes no layer.
late_layer : add_layer "h" (ok 102) 3 "t" "camera" "video/VP8" track_5 ≡ (track_5, err closed_pipe)
unfolding new_simulcast_track add_layer add_injected_layer add_sink close
late_layer = refl

two_layers : keys track_3.layers ≡ "f" ∷ "q" ∷ []
unfolding new_simulcast_track add_layer add_injected_layer add_sink
two_layers = refl

best_available_layer-contains_example :
    contains {A = String} (best_available_layer "h" track_3) (keys track_3.layers) ≡ true
best_available_layer-contains_example =
    best_available_layer-contains "h" "f" ("q" ∷ []) track_3 two_layers
