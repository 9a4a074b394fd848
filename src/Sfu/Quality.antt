-- ===== src/Sfu/Quality.antt =====
-- The quality layers of internal/media/sfu/simulcast.go and the operations of
-- internal/media/sfu/adaptive.go on them. A `QualityLayer` is a text, as in the source.
use aloqa_codex.Common.{ℕ, String, List, [], ◌∷◌, Option, none, some, if◌then◌else◌, leb}
use aloqa_codex.Common.Equality.{◌==◌, string_eq, contains}

abbrev pub QualityLayer : Type 0
QualityLayer = String

abbrev pub quality_high : QualityLayer
quality_high = "f"

abbrev pub quality_medium : QualityLayer
quality_medium = "h"

abbrev pub quality_low : QualityLayer
quality_low = "q"

-- `QualityLayerFromRID`
unfoldable pub quality_layer_from_rid : String → QualityLayer
quality_layer_from_rid rid =
    if rid == "q" then quality_low else if rid == "h" then quality_medium else quality_high

-- `layerPriority`
unfoldable pub layer_priority : QualityLayer → List QualityLayer
layer_priority preferred =
    if preferred == quality_high
    then quality_high ∷ quality_medium ∷ quality_low ∷ []
    else if preferred == quality_medium
    then quality_medium ∷ quality_low ∷ quality_high ∷ []
    else if preferred == quality_low
    then quality_low ∷ quality_medium ∷ quality_high ∷ []
    else quality_high ∷ quality_medium ∷ quality_low ∷ []

-- `qualityRank`
unfoldable pub quality_rank : QualityLayer → ℕ
quality_rank q =
    if q == quality_low
    then 1
    else if q == quality_medium
    then 2
    else if q == quality_high
    then 3
    else 3

-- `minQuality`
unfoldable pub min_quality : QualityLayer → QualityLayer → QualityLayer
unfolding quality_rank
min_quality a b = if leb (quality_rank a) (quality_rank b) then a else b

-- `downgradeQuality`
unfoldable pub downgrade_quality : QualityLayer → QualityLayer
downgrade_quality q =
    if q == quality_high
    then quality_medium
    else if q == quality_medium
    then quality_low
    else quality_low

-- The first layer of a list that is among those at hand.
unfoldable pub first_of : List QualityLayer → List QualityLayer → Option QualityLayer
first_of [] available = none
first_of (q ∷ qs) available = if contains q available then some q else first_of qs available

abbrev pub or_else : QualityLayer → Option QualityLayer → QualityLayer
or_else d none = d
or_else d (some q) = q

-- `clampQuality`
unfoldable pub clamp_quality : QualityLayer → List QualityLayer → QualityLayer
unfolding first_of layer_priority
clamp_quality q [] = q
clamp_quality q (a ∷ rest) = or_else a (first_of (layer_priority q) (a ∷ rest))
