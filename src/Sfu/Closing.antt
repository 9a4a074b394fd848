-- ===== src/Sfu/Closing.antt =====
-- What `SimulcastTrack` of internal/media/sfu/simulcast.go closes, and the layer it offers.
use aloqa_codex.Common.{
  ℕ, String, ◌≡◌, inl, inr, refl, ap, sym, subst, ◌∙◌, Bool, true, false, List, [], ◌∷◌, ◌++◌,
  Option, none, some, if◌then◌else◌, Bool-cases, nat_eqb_iff, arith,
}
use aloqa_codex.Common.Equality.{◌==◌, nat_eq, string_eq, contains, Distinct}
use aloqa_codex.Common.GoMap.{GoMap, keys, get, set}
use aloqa_codex.Cerrors.{Result, ok, err}
use aloqa_codex.Sfu.Quality.{QualityLayer, first_of, layer_priority}
use aloqa_codex.Sfu.Layers.{first_of-contains}
use aloqa_codex.Sfu.Simulcast.{
  SimulcastLayer, SimulcastTrack, new_simulcast_track, add_layer, add_injected_layer,
  best_available_layer, best_or_any, set_subscriber_layer, remove_subscriber, add_sink, close,
  dones, all_sinks, new_layer,
}

best_or_any-contains :
    (o : Option QualityLayer) (q : QualityLayer) (qs : List QualityLayer)
    → ((p : QualityLayer) → o ≡ some p → contains p (q ∷ qs) ≡ true)
    → contains (best_or_any o (q ∷ qs)) (q ∷ qs) ≡ true
best_or_any-contains none q qs h = ground (arith, string_eq.eqb_iff q q)
best_or_any-contains (some p) q qs h = h p refl

-- `BestAvailableLayer` offers a layer that the track has, whenever the track has a layer.
pub best_available_layer-contains :
    (preferred q : QualityLayer) (qs : List QualityLayer) (st : SimulcastTrack)
    → keys st.layers ≡ q ∷ qs
    → contains (best_available_layer preferred st) (keys st.layers) ≡ true
unfolding best_available_layer
best_available_layer-contains preferred q qs st h =
    subst (λ ks. contains (best_or_any (first_of (layer_priority preferred) ks) ks) ks ≡ true)
      (sym h)
      (best_or_any-contains (first_of (layer_priority preferred) (q ∷ qs)) q qs
        (λ p e. first_of-contains (layer_priority preferred) (q ∷ qs) p e))

-- ---- the channels of the layers

contains-dones-set :
    (d : ℕ) (q : QualityLayer) (layer : SimulcastLayer) (m : GoMap QualityLayer SimulcastLayer)
    → contains d (dones m) ≡ false
    → (d == layer.done) ≡ false
    → contains d (dones (set q layer m)) ≡ false
unfolding set
contains-dones-set d q layer [] h k = ground (arith, h, k)
contains-dones-set d q layer ((p, l) ∷ m) h k = ground (arith, h, k, contains-dones-set d q layer m)

dones-set-Distinct :
    (q : QualityLayer) (layer : SimulcastLayer) (m : GoMap QualityLayer SimulcastLayer)
    → contains layer.done (dones m) ≡ false
    → Distinct (dones m)
    → Distinct (dones (set q layer m))
unfolding set
dones-set-Distinct q layer [] h d = (refl, tt)
dones-set-Distinct q layer ((p, l) ∷ m) h (first, rest) = elim (Bool-cases (p == q)) [
  | inl e ↦ rw e (ground (arith, h), rest)
  | inr e ↦ rw e (
    contains-dones-set l.done q layer m first
        (ground (arith, h, nat_eqb_iff l.done layer.done, nat_eqb_iff layer.done l.done)),
    dones-set-Distinct q layer m (ground (arith, h)) rest,
  )
]

dones-set-same :
    (q : QualityLayer) (layer layer' : SimulcastLayer) (m : GoMap QualityLayer SimulcastLayer)
    → get q m ≡ some layer
    → layer'.done ≡ layer.done
    → dones (set q layer' m) ≡ dones m
unfolding get set
dones-set-same q layer layer' [] h k = absurd (cc)
dones-set-same q layer layer' ((p, l) ∷ m) h k = elim (Bool-cases (p == q)) [
  | inl e ↦ ground (arith, e, h, k)
  | inr e ↦ rw e (ap (λ ds. l.done ∷ ds) (dones-set-same q layer layer' m (rw (e, get) at h) k))
]

-- ---- runs

-- The channel of a new layer is none of those that the track has.
pub data Step (st : SimulcastTrack) : SimulcastTrack → Type 0 where
  adds :
      (quality : QualityLayer) (local_track : Result ℕ) (done : ℕ)
      (track_id stream_id mime_type : String)
      → contains done (dones st.layers) ≡ false
      → Step st (add_layer quality local_track done track_id stream_id mime_type st).0
  injects :
      (quality : QualityLayer) (local_track : Result ℕ) (done : ℕ) (track_id mime_type : String)
      → contains done (dones st.layers) ≡ false
      → Step st (add_injected_layer quality local_track done track_id mime_type st).0
  assigns :
      (user : String) (quality : QualityLayer) → Step st (set_subscriber_layer user quality st)
  leaves : (user : String) → Step st (remove_subscriber user st)
  sinks : (quality : QualityLayer) (sink : Option ℕ) → Step st (add_sink quality sink st).0
  closes : Step st (close st)

pub data Reach (st : SimulcastTrack) : SimulcastTrack → Type 0 where
  here : Reach st st
  next : {st' st'' : SimulcastTrack} → Reach st st' → Step st' st'' → Reach st st''

-- The channels of the layers are distinct; they are what was closed once the track is closed, and
-- nothing was closed before.
pub record IsSound (st : SimulcastTrack) : Type 0 where
  pub distinct : Distinct (dones st.layers)
  pub closed_once : st.closed_channels ≡ (if st.closed then dones st.layers else [])

append_nil : (xs : List ℕ) → xs ++ [] ≡ xs
append_nil [] = refl
append_nil (x ∷ xs) = ap (λ ys. x ∷ ys) (append_nil xs)

if-IsSound :
    (b : Bool) (x y : SimulcastTrack × Result (Unit {0}))
    → (b ≡ true → IsSound x.0)
    → (b ≡ false → IsSound y.0)
    → IsSound (if b then x else y).0
if-IsSound true x y f g = f refl
if-IsSound false x y f g = g refl

elim-IsSound :
    (o : Option SimulcastLayer) (x : SimulcastTrack × Result (Unit {0}))
    (y : SimulcastLayer → SimulcastTrack × Result (Unit {0}))
    → IsSound x.0
    → ((layer : SimulcastLayer) → o ≡ some layer → IsSound (y layer).0)
    → IsSound
        (elim o as (λ (q : Option SimulcastLayer). SimulcastTrack × Result (Unit {0})) [
          | none ↦ x
          | some layer ↦ y layer
        ]).0
elim-IsSound none x y f g = f
elim-IsSound (some layer) x y f g = g layer refl

-- A new layer on a track that is not closed.
added-IsSound :
    (quality : QualityLayer) (layer : SimulcastLayer) (st : SimulcastTrack)
    → contains layer.done (dones st.layers) ≡ false
    → st.closed ≡ false
    → IsSound st
    → IsSound (record st { layers = set quality layer st.layers })
added-IsSound quality layer st f e s = record {
  distinct = dones-set-Distinct quality layer st.layers f s.distinct;
  closed_once = ground (arith, e, s.closed_once);
}

sunk-IsSound :
    (quality : QualityLayer) (layer : SimulcastLayer) (sink : ℕ) (st : SimulcastTrack)
    → get quality st.layers ≡ some layer
    → IsSound st
    → IsSound (record st {
      layers = set quality (record layer { sinks = layer.sinks ++ sink ∷ [] }) st.layers;
    })
sunk-IsSound quality layer sink st g s =
    let same =
      dones-set-same quality layer (record layer { sinks = layer.sinks ++ sink ∷ [] }) st.layers g
        refl in
    record {
      distinct = subst (λ ds. Distinct ds) (sym same) s.distinct;
      closed_once = s.closed_once ∙ ap (λ ds. if st.closed then ds else []) (sym same);
    }

close-IsSound : (st : SimulcastTrack) → IsSound st → IsSound (close st)
unfolding close
close-IsSound st s = closing st.closed refl
  where
    closing :
        (b : Bool)
        → st.closed ≡ b
        → IsSound (
            if b then st else record st {
              closed = true;
              closed_channels = dones st.layers ++ st.closed_channels;
              closed_sinks = all_sinks st.layers ++ st.closed_sinks;
            })
    closing true e = s
    closing false e = record {
      distinct = s.distinct;
      closed_once =
          ap (λ cs. dones st.layers ++ cs) (ground (arith, e, s.closed_once))
          ∙ append_nil (dones st.layers);
    }

Step-IsSound : {st st' : SimulcastTrack} → Step st st' → IsSound st → IsSound st'
unfolding add_layer add_injected_layer set_subscriber_layer remove_subscriber add_sink
Step-IsSound {st} (adds quality (err e) done track_id stream_id mime_type f) s = s
Step-IsSound {st} (adds quality (ok local_track) done track_id stream_id mime_type f) s =
    if-IsSound st.closed _ _ (λ e. s)
      (λ e.
        added-IsSound quality
          (new_layer quality local_track done track_id stream_id st.source_peer mime_type) st f e s)
Step-IsSound {st} (injects quality (err e) done track_id mime_type f) s = s
Step-IsSound {st} (injects quality (ok local_track) done track_id mime_type f) s =
    if-IsSound st.closed _ _ (λ e. s)
      (λ e.
        elim-IsSound (get quality st.layers) _ _
          (added-IsSound quality
            (new_layer quality local_track done track_id st.stream_id st.source_peer mime_type) st f
            e s)
          (λ layer g. s))
Step-IsSound {st} (assigns user quality) s = record {
  distinct = s.distinct;
  closed_once = s.closed_once;
}
Step-IsSound {st} (leaves user) s = record { distinct = s.distinct; closed_once = s.closed_once }
Step-IsSound {st} (sinks quality none) s = s
Step-IsSound {st} (sinks quality (some sink)) s =
    elim-IsSound (get quality st.layers) _ _ s (λ layer g. sunk-IsSound quality layer sink st g s)
Step-IsSound {st} closes s = close-IsSound st s

Reach-IsSound : {st st' : SimulcastTrack} → Reach st st' → IsSound st → IsSound st'
Reach-IsSound here s = s
Reach-IsSound (next r step) s = Step-IsSound step (Reach-IsSound r s)

-- In every state that a new track reaches, whatever the order of the calls, the layers have different
-- `done` channels; once the track is closed, these are the channels that were closed, each once, and
-- before that none was.
pub Reach-new_simulcast_track :
    (stream_id source_peer : String) (st : SimulcastTrack)
    → Reach (new_simulcast_track stream_id source_peer) st
    → IsSound st
unfolding new_simulcast_track
Reach-new_simulcast_track stream_id source_peer st r =
    Reach-IsSound r (record { distinct = tt; closed_once = refl })
