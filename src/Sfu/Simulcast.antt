-- ===== src/Sfu/Simulcast.antt =====
-- `SimulcastTrack` of internal/media/sfu/simulcast.go: the layers of a video source, who receives which, and
-- the sinks that record it. A channel, a local track and a sink are numbers, and Pion's calls are arguments.
use aloqa_codex.Common.{
  ℕ, String, Bool, true, false, List, [], ◌∷◌, ◌++◌, Option, none, some, if◌then◌else◌,
}
use aloqa_codex.Common.Equality.{string_eq}
use aloqa_codex.Common.GoMap.{GoMap, keys, get, set, delete}
use aloqa_codex.Cerrors.{GoError, plain, Result, ok, err}
use aloqa_codex.Sfu.Quality.{QualityLayer, quality_high, layer_priority, first_of}

pub record ObservedTrack : Type 0 where
  pub track_id : String
  pub stream_id : String
  pub source_peer : String
  pub mime_type : String
  pub layer : String

-- `simulcastLayer`; `done` is the channel that ends its forwarding.
pub record SimulcastLayer : Type 0 where
  pub local_track : ℕ
  pub sinks : List ℕ
  pub done : ℕ
  pub observed : ObservedTrack

-- `SimulcastTrack`, and what it has closed so far.
pub record SimulcastTrack : Type 0 where
  pub stream_id : String
  pub source_peer : String
  pub layers : GoMap QualityLayer SimulcastLayer
  pub subscribers : GoMap String QualityLayer
  pub closed : Bool
  pub closed_channels : List ℕ
  pub closed_sinks : List ℕ

unfoldable pub new_simulcast_track : String → String → SimulcastTrack
new_simulcast_track stream_id source_peer = record {
  stream_id = stream_id;
  source_peer = source_peer;
  layers = [];
  subscribers = [];
  closed = false;
  closed_channels = [];
  closed_sinks = [];
}

abbrev pub closed_pipe : GoError
closed_pipe = plain "io: read/write on closed pipe"

abbrev pub new_layer : QualityLayer → ℕ → ℕ → String → String → String → String → SimulcastLayer
new_layer quality local_track done track_id stream_id source_peer mime_type = record {
  local_track = local_track;
  sinks = [];
  done = done;
  observed = record {
    track_id = track_id;
    stream_id = stream_id;
    source_peer = source_peer;
    mime_type = mime_type;
    layer = quality;
  };
}

-- `AddLayer`: the local track that Pion made, the new channel, and what the remote track says of itself.
unfoldable pub add_layer :
    QualityLayer
    → Result ℕ
    → ℕ
    → String
    → String
    → String
    → SimulcastTrack
    → SimulcastTrack × Result (Unit {0})
unfolding set
add_layer quality (err e) done track_id stream_id mime_type st = (st, err e)
add_layer quality (ok local_track) done track_id stream_id mime_type st =
    if st.closed then (st, err closed_pipe) else (
      record st {
        layers =
            set quality
              (new_layer quality local_track done track_id stream_id st.source_peer mime_type)
              st.layers;
      },
      ok tt,
    )

-- `AddInjectedLayer`: a layer that is there already stays.
unfoldable pub add_injected_layer :
    QualityLayer
    → Result ℕ
    → ℕ
    → String
    → String
    → SimulcastTrack
    → SimulcastTrack × Result (Unit {0})
unfolding get set
add_injected_layer quality (err e) done track_id mime_type st = (st, err e)
add_injected_layer quality (ok local_track) done track_id mime_type st =
    if st.closed then (st, err closed_pipe) else elim (get quality st.layers) [
      | some layer ↦ (st, ok tt)
      | none ↦ (
        record st {
          layers =
              set quality
                (new_layer quality local_track done track_id st.stream_id st.source_peer mime_type)
                st.layers;
        },
        ok tt,
      )
    ]

abbrev is_some : Option SimulcastLayer → Bool
is_some none = false
is_some (some layer) = true

unfoldable pub has_layer : QualityLayer → SimulcastTrack → Bool
unfolding get
has_layer quality st = is_some (get quality st.layers)

abbrev pub any_layer : List QualityLayer → QualityLayer
any_layer [] = quality_high
any_layer (q ∷ qs) = q

abbrev pub best_or_any : Option QualityLayer → List QualityLayer → QualityLayer
best_or_any (some q) layers = q
best_or_any none layers = any_layer layers

-- `BestAvailableLayer`; the keys of the map stand in the order of its `range`.
unfoldable pub best_available_layer : QualityLayer → SimulcastTrack → QualityLayer
unfolding first_of layer_priority
best_available_layer preferred st =
    best_or_any (first_of (layer_priority preferred) (keys st.layers)) (keys st.layers)

unfoldable pub set_subscriber_layer : String → QualityLayer → SimulcastTrack → SimulcastTrack
unfolding set
set_subscriber_layer user quality st = record st { subscribers = set user quality st.subscribers }

unfoldable pub subscriber_layer : String → SimulcastTrack → Option QualityLayer
unfolding get
subscriber_layer user st = get user st.subscribers

unfoldable pub remove_subscriber : String → SimulcastTrack → SimulcastTrack
unfolding delete
remove_subscriber user st = record st { subscribers = delete user st.subscribers }

-- `AddSink`; no sink is nil.
unfoldable pub add_sink :
    QualityLayer → Option ℕ → SimulcastTrack → SimulcastTrack × Result (Unit {0})
unfolding get set
add_sink quality none st = (st, ok tt)
add_sink quality (some sink) st = elim (get quality st.layers) [
  | none ↦ (st, err closed_pipe)
  | some layer ↦ (
    record st {
      layers = set quality (record layer { sinks = layer.sinks ++ sink ∷ [] }) st.layers;
    },
    ok tt,
  )
]

abbrev pub available_layers : SimulcastTrack → List QualityLayer
available_layers st = keys st.layers

abbrev pub dones : GoMap QualityLayer SimulcastLayer → List ℕ
dones [] = []
dones ((q, layer) ∷ m) = layer.done ∷ dones m

abbrev pub all_sinks : GoMap QualityLayer SimulcastLayer → List ℕ
all_sinks [] = []
all_sinks ((q, layer) ∷ m) = layer.sinks ++ all_sinks m

-- `Close`
unfoldable pub close : SimulcastTrack → SimulcastTrack
close st = if st.closed then st else record st {
  closed = true;
  closed_channels = dones st.layers ++ st.closed_channels;
  closed_sinks = all_sinks st.layers ++ st.closed_sinks;
}
