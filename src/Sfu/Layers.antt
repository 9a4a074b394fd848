-- ===== src/Sfu/Layers.antt =====
-- The order of the layers, and which layer `clampQuality` of internal/media/sfu/adaptive.go chooses.
use aloqa_codex.Common.{
  ◌≡◌, ◌≤◌, inl, inr, refl, sym, subst, true, List, [], ◌∷◌, Option, none, some, Bool-cases, leb,
  arith,
}
use aloqa_codex.Common.Equality.{◌==◌, string_eq, contains}
use aloqa_codex.Sfu.Quality.{
  QualityLayer, quality_high, quality_medium, quality_low, quality_rank, min_quality,
  downgrade_quality, first_of, layer_priority, or_else, clamp_quality,
}

-- ---- the order of the layers

pub rank-min_left : (a b : QualityLayer) → quality_rank (min_quality a b) ≤ quality_rank a
unfolding min_quality
rank-min_left a b = elim (Bool-cases (leb (quality_rank a) (quality_rank b))) [
  | inl e ↦ rw e (ground arith)
  | inr e ↦ rw e (ground (arith, e))
]

pub rank-min_right : (a b : QualityLayer) → quality_rank (min_quality a b) ≤ quality_rank b
unfolding min_quality
rank-min_right a b = elim (Bool-cases (leb (quality_rank a) (quality_rank b))) [
  | inl e ↦ rw e (ground (arith, e))
  | inr e ↦ rw e (ground arith)
]

rank-positive : (q : QualityLayer) → 1 ≤ quality_rank q
unfolding quality_rank
rank-positive q = ground arith

high_case : quality_rank quality_medium ≤ quality_rank quality_high
unfolding quality_rank
high_case = ground arith

pub rank_low : quality_rank quality_low ≡ 1
unfolding quality_rank
rank_low = refl

pub rank_medium : quality_rank quality_medium ≡ 2
unfolding quality_rank
rank_medium = refl

low_least : (q : QualityLayer) → quality_rank quality_low ≤ quality_rank q
low_least q = ground (arith, rank_low, rank-positive q)

pub rank-downgrade : (q : QualityLayer) → quality_rank (downgrade_quality q) ≤ quality_rank q
unfolding downgrade_quality
rank-downgrade q = elim (Bool-cases (q == quality_high)) [
  | inl e ↦ rw e (
      subst (λ x. quality_rank quality_medium ≤ quality_rank x)
        (sym ((string_eq.eqb_iff q quality_high).0 e)) high_case)
  | inr e ↦ elim (Bool-cases (q == quality_medium)) [
    | inl f ↦ rw (e, f) (low_least q)
    | inr f ↦ rw (e, f) (low_least q)
  ]
]

-- ---- the layers at hand

pub first_of-contains :
    (qs available : List QualityLayer)
    → (q : QualityLayer) → first_of qs available ≡ some q
    → contains q available ≡ true
unfolding first_of
first_of-contains [] available q h = ground arith
first_of-contains (p ∷ qs) available q h = elim (Bool-cases (contains p available)) [
  | inl e ↦ subst (λ x. contains x available ≡ true) (ground (arith, e, h)) e
  | inr e ↦ first_of-contains qs available q (ground (arith, e, h))
]

or_else-contains :
    (a : QualityLayer) (rest : List QualityLayer) (o : Option QualityLayer)
    → ((q : QualityLayer) → o ≡ some q → contains q (a ∷ rest) ≡ true)
    → contains (or_else a o) (a ∷ rest) ≡ true
or_else-contains a rest none h = ground (arith, string_eq.eqb_iff a a)
or_else-contains a rest (some q) h = h q refl

-- When a track has a layer, `clampQuality` chooses one that the track has.
pub clamp_quality-contains :
    (q a : QualityLayer) (rest : List QualityLayer)
    → contains (clamp_quality q (a ∷ rest)) (a ∷ rest) ≡ true
unfolding clamp_quality
clamp_quality-contains q a rest =
    or_else-contains a rest (first_of (layer_priority q) (a ∷ rest))
      (λ p h. first_of-contains (layer_priority q) (a ∷ rest) p h)
