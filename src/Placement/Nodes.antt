-- ===== src/Placement/Nodes.antt =====
-- `selectNode` of internal/service/mediaops/service.go and its filters. A load score is an abstract float64
-- with the comparisons that the sort uses, and the checksum of a call's id is an argument, a uint32.
use aloqa_codex.Common.{
  ℕ, zero, suc, ◌%◌, String, Bool, true, false, not, ◌&&◌, List, [], ◌∷◌, Option, none, some,
  if◌then◌else◌, length,
}
use aloqa_codex.Common.Equality.{◌==◌, string_eq}
use aloqa_codex.Common.Int.{ℤ, pos, leb_ℤ, ltb_ℤ}
use aloqa_codex.Common.Text.{trim_space, string_leb}
use aloqa_codex.Cerrors.{Result, ok, err, plain, new_unavailable}

pub data MediaNodeStatus : Type 0 where
  active draining overloaded unknown : MediaNodeStatus
  other_node_status : String → MediaNodeStatus

pub data MediaOverflowPolicy : Type 0 where
  reject regional_move webinar_edge : MediaOverflowPolicy
  other_overflow : String → MediaOverflowPolicy

-- The fields that the choice reads.
pub record MediaNodeSnapshot (L : Type 0) : Type 0 where
  pub node_id : String
  pub region : String
  pub status : MediaNodeStatus
  pub max_rooms : ℤ
  pub rooms : ℤ
  pub load_score : L

-- The comparisons `<` and `==` of load scores.
pub record Scores (L : Type 0) : Type 0 where
  pub less : L → L → Bool
  pub same : L → L → Bool

abbrev pub takes_calls : MediaNodeStatus → Bool
takes_calls draining = false
takes_calls overloaded = false
takes_calls _ = true

abbrev pub overflows : MediaOverflowPolicy → Bool
overflows regional_move = true
overflows webinar_edge = true
overflows _ = false

module _ {L : Type 0} where
  -- What `filterAvailableNodes` keeps.
  unfoldable pub is_available : MediaNodeSnapshot L → Bool
  is_available n =
      takes_calls n.status && not (ltb_ℤ (pos 0) n.max_rooms && leb_ℤ n.max_rooms n.rooms)

  unfoldable pub keep :
      (MediaNodeSnapshot L → Bool) → List (MediaNodeSnapshot L) → List (MediaNodeSnapshot L)
  keep p [] = []
  keep p (n ∷ ns) = let rest = keep p ns in if p n then n ∷ rest else rest

  unfoldable pub filter_available_nodes : List (MediaNodeSnapshot L) → List (MediaNodeSnapshot L)
  filter_available_nodes nodes = keep is_available nodes

  abbrev pub or_all :
      List (MediaNodeSnapshot L) → List (MediaNodeSnapshot L) → List (MediaNodeSnapshot L)
  or_all nodes [] = nodes
  or_all nodes (n ∷ ns) = n ∷ ns

  unfoldable pub filter_nodes_by_region :
      List (MediaNodeSnapshot L) → String → List (MediaNodeSnapshot L)
  filter_nodes_by_region nodes region =
      if trim_space region == "" then nodes else or_all nodes (keep (λ n. n.region == region) nodes)

  unfoldable pub nth : ℕ → List (MediaNodeSnapshot L) → Option (MediaNodeSnapshot L)
  nth n [] = none
  nth zero (m ∷ ms) = some m
  nth (suc n) (m ∷ ms) = nth n ms

module _ {L : Type 0} (scores : Scores L) where
  -- The comparison that `sort.Slice` is given.
  unfoldable pub node_before : MediaNodeSnapshot L → MediaNodeSnapshot L → Bool
  node_before a b =
      if scores.same a.load_score b.load_score
      then not (string_leb b.node_id a.node_id)
      else scores.less a.load_score b.load_score

  unfoldable pub insert_node :
      MediaNodeSnapshot L → List (MediaNodeSnapshot L) → List (MediaNodeSnapshot L)
  insert_node n [] = n ∷ []
  insert_node n (m ∷ ms) =
      let rest = insert_node n ms in if node_before m n then m ∷ rest else n ∷ m ∷ ms

  unfoldable pub sort_nodes : List (MediaNodeSnapshot L) → List (MediaNodeSnapshot L)
  sort_nodes [] = []
  sort_nodes (n ∷ ns) = insert_node n (sort_nodes ns)

  -- `candidates[index]`, where an index out of range is a panic.
  abbrev pub chosen : Option (MediaNodeSnapshot L) → Result (MediaNodeSnapshot L)
  chosen none = err (plain "index out of range")
  chosen (some n) = ok n

  -- The choice among the candidates, which are at hand.
  unfoldable pub pick_node : ℕ → List (MediaNodeSnapshot L) → Result (MediaNodeSnapshot L)
  pick_node checksum candidates =
      chosen (nth (checksum % length candidates) (sort_nodes candidates))

  abbrev pub pick_or_fail : ℕ → List (MediaNodeSnapshot L) → Result (MediaNodeSnapshot L)
  pick_or_fail checksum [] = err (new_unavailable "no media nodes have room capacity")
  pick_or_fail checksum (n ∷ ns) = pick_node checksum (n ∷ ns)

  -- Where no preferred node has room.
  abbrev pub spill_over :
      ℕ
      → List (MediaNodeSnapshot L)
      → MediaOverflowPolicy
      → List (MediaNodeSnapshot L)
      → Result (MediaNodeSnapshot L)
  spill_over checksum nodes policy [] =
      if overflows policy
      then pick_or_fail checksum (filter_available_nodes nodes)
      else err (new_unavailable "preferred media region is at capacity")
  spill_over checksum nodes policy (n ∷ ns) = pick_node checksum (n ∷ ns)

  -- `selectNode`, in the region of the configuration.
  unfoldable pub select_node :
      String → ℕ → List (MediaNodeSnapshot L) → MediaOverflowPolicy → Result (MediaNodeSnapshot L)
  select_node region checksum [] policy = err (new_unavailable "no media nodes are available")
  select_node region checksum (n ∷ ns) policy =
      spill_over checksum (n ∷ ns) policy
        (filter_available_nodes (filter_nodes_by_region (n ∷ ns) region))
