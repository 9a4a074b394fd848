-- ===== src/Placement/Selection.antt =====
-- Which node `selectNode` of internal/service/mediaops/service.go chooses.
use aloqa_codex.Common.{
  ℕ, ◌≡◌, inl, inr, refl, subst, String, Bool, true, false, ◌&&◌, ◌||◌, List, [], ◌∷◌, any, All,
  Bool-cases, arith,
}
use mathlib.Core.List.{Memᴰ}
use aloqa_codex.Common.Equality.{◌==◌, string_eq}
use aloqa_codex.Common.Text.{trim_space}
use aloqa_codex.Cerrors.{ok}
use aloqa_codex.Placement.Picking.{
  All-weaken, All-keep, keep_empty, pick_node_sound, pick_node_total,
}
use aloqa_codex.Placement.Nodes.{
  MediaNodeSnapshot, Scores, MediaOverflowPolicy, overflows, is_available, keep,
  filter_available_nodes, or_all, filter_nodes_by_region, pick_or_fail, spill_over, select_node,
}

module _ {L : Type 0} where
  -- Why the region of a node is acceptable in the first place: it is the configured one, none is
  -- configured, or no node stands in it.
  pub data IsPreferred (region : String) (nodes : List (MediaNodeSnapshot L))
      (n : MediaNodeSnapshot L) : Type 0 where
    in_region : (n.region == region) ≡ true → IsPreferred region nodes n
    any_region : (trim_space region == "") ≡ true → IsPreferred region nodes n
    no_region : any (λ m. m.region == region) nodes ≡ false → IsPreferred region nodes n

  All-Memᴰ : (ns : List (MediaNodeSnapshot L)) → All (λ n. Memᴰ n ns) ns
  All-Memᴰ [] = tt
  All-Memᴰ (n ∷ ns) = (
    Memᴰ.head refl,
    All-weaken (λ m. Memᴰ m ns) (λ m. Memᴰ m (n ∷ ns)) ns (λ m h. Memᴰ.tail h) (All-Memᴰ ns),
  )

  region-IsPreferred :
      (region : String) (nodes : List (MediaNodeSnapshot L))
      → All (λ n. Memᴰ n nodes × IsPreferred region nodes n) (filter_nodes_by_region nodes region)
  unfolding filter_nodes_by_region
  region-IsPreferred region nodes = elim (Bool-cases (trim_space region == "")) [
    | inl e ↦ rw e (
        All-weaken (λ n. Memᴰ n nodes) (λ n. Memᴰ n nodes × IsPreferred region nodes n) nodes
          (λ n h. (h, any_region e)) (All-Memᴰ nodes))
    | inr e ↦ rw e (kept (keep (λ n. n.region == region) nodes) refl)
  ]
    where
      kept :
          (ns : List (MediaNodeSnapshot L))
          → keep (λ n. n.region == region) nodes ≡ ns
          → All (λ n. Memᴰ n nodes × IsPreferred region nodes n) (or_all nodes ns)
      kept [] h =
          All-weaken (λ n. Memᴰ n nodes) (λ n. Memᴰ n nodes × IsPreferred region nodes n) nodes
            (λ n m. (m, no_region (keep_empty (λ n. n.region == region) nodes h))) (All-Memᴰ nodes)
      kept (x ∷ xs) h =
          All-weaken (λ n. Memᴰ n nodes × ((n.region == region) ≡ true))
            (λ n. Memᴰ n nodes × IsPreferred region nodes n) (x ∷ xs) (λ n (m, r). (m, in_region r))
            (subst (λ ys. All (λ n. Memᴰ n nodes × ((n.region == region) ≡ true)) ys) h
              (All-keep (λ n. Memᴰ n nodes) (λ n. n.region == region) nodes (All-Memᴰ nodes)))

  -- The grounds of a choice.
  pub data Placed (region : String) (nodes : List (MediaNodeSnapshot L))
      (policy : MediaOverflowPolicy) (n : MediaNodeSnapshot L) : Type 0 where
    preferred :
        Memᴰ n nodes
        → is_available n ≡ true
        → IsPreferred region nodes n
        → Placed region nodes policy n
    spilled :
        Memᴰ n nodes
        → is_available n ≡ true
        → overflows policy ≡ true
        → any is_available (filter_nodes_by_region nodes region) ≡ false
        → Placed region nodes policy n

module _ {L : Type 0} (scores : Scores L) (region : String) (checksum : ℕ)
    (policy : MediaOverflowPolicy) where
  pick_or_fail_sound :
      (P : MediaNodeSnapshot L → Type 0) (ns : List (MediaNodeSnapshot L)) (n : MediaNodeSnapshot L)
      → All P ns
      → pick_or_fail scores checksum ns ≡ ok n
      → P n
  pick_or_fail_sound P [] n h e = absurd (cc)
  pick_or_fail_sound P (m ∷ ms) n h e = pick_node_sound scores P checksum (m ∷ ms) n h e

  spill_over-Placed :
      (nodes : List (MediaNodeSnapshot L)) (n : MediaNodeSnapshot L)
      (cs : List (MediaNodeSnapshot L))
      → keep is_available (filter_nodes_by_region nodes region) ≡ cs
      → spill_over scores checksum nodes policy cs ≡ ok n
      → Placed region nodes policy n
  unfolding filter_available_nodes
  spill_over-Placed nodes n (c ∷ cs) k h =
      let P = λ (m : MediaNodeSnapshot L).
        (Memᴰ m nodes × IsPreferred region nodes m) × (is_available m ≡ true) in
      let found =
        pick_node_sound scores P checksum (c ∷ cs) n
          (subst (All P) k (
            All-keep (λ m. Memᴰ m nodes × IsPreferred region nodes m) is_available
              (filter_nodes_by_region nodes region) (region-IsPreferred region nodes)))
          h in
      preferred found.0.0 found.1 found.0.1
  spill_over-Placed nodes n [] k h = elim (Bool-cases (overflows policy)) [
    | inr e ↦ absurd (cc (rw e at h))
    | inl e ↦
        let found =
          pick_or_fail_sound (λ m. Memᴰ m nodes × (is_available m ≡ true)) (keep is_available nodes)
            n (All-keep (λ m. Memᴰ m nodes) is_available nodes (All-Memᴰ nodes)) (rw e at h) in
        spilled found.0 found.1 e (keep_empty is_available (filter_nodes_by_region nodes region) k)
  ]

  -- A node that `selectNode` chooses is one of the nodes, is neither draining nor overloaded and has room.
  -- It is in the configured region, unless no region is configured or no node stands in it, or no node
  -- that is preferred has room and the call's policy lets it overflow.
  pub select_node_sound :
      (nodes : List (MediaNodeSnapshot L)) (n : MediaNodeSnapshot L)
      → select_node scores region checksum nodes policy ≡ ok n
      → Placed region nodes policy n
  unfolding select_node filter_available_nodes
  select_node_sound [] n h = absurd (cc)
  select_node_sound (m ∷ ms) n h = spill_over-Placed (m ∷ ms) n _ refl h

  pick_or_fail_total :
      (p : MediaNodeSnapshot L → Bool) (nodes : List (MediaNodeSnapshot L))
      (ns : List (MediaNodeSnapshot L))
      → keep p nodes ≡ ns
      → any p nodes ≡ true
      → (n : MediaNodeSnapshot L) × (pick_or_fail scores checksum ns ≡ ok n)
  pick_or_fail_total p nodes [] k h = absurd (cc (h, keep_empty p nodes k))
  pick_or_fail_total p nodes (m ∷ ms) k h = pick_node_total scores checksum m ms

  spill_over_total :
      (nodes cs : List (MediaNodeSnapshot L))
      → keep is_available (filter_nodes_by_region nodes region) ≡ cs
      → any is_available (filter_nodes_by_region nodes region)
          || (overflows policy && any is_available nodes)
        ≡ true
      → (n : MediaNodeSnapshot L) × (spill_over scores checksum nodes policy cs ≡ ok n)
  unfolding filter_available_nodes
  spill_over_total nodes (c ∷ cs) k h = pick_node_total scores checksum c cs
  spill_over_total nodes [] k h = elim (Bool-cases (overflows policy)) [
    | inr e ↦
        absurd
          (ground (arith, e, h, keep_empty is_available (filter_nodes_by_region nodes region) k))
    | inl e ↦ rw e (
        pick_or_fail_total is_available nodes (keep is_available nodes) refl
          (ground (arith, e, h, keep_empty is_available (filter_nodes_by_region nodes region) k)))
  ]

  none_of_none : any (is_available {L = L}) (filter_nodes_by_region [] region) ≡ false
  unfolding filter_nodes_by_region keep
  none_of_none = ground arith

  -- `selectNode` chooses a node whenever one of the preferred nodes is available, and, where the call's
  -- policy lets it overflow, whenever one of all nodes is: no index is ever out of range.
  pub select_node_total :
      (nodes : List (MediaNodeSnapshot L))
      → any is_available (filter_nodes_by_region nodes region)
          || (overflows policy && any is_available nodes)
        ≡ true
      → (n : MediaNodeSnapshot L) × (select_node scores region checksum nodes policy ≡ ok n)
  unfolding select_node filter_available_nodes
  select_node_total [] h = absurd (ground (arith, h, none_of_none))
  select_node_total (m ∷ ms) h = spill_over_total (m ∷ ms) _ refl h
