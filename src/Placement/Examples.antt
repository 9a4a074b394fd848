-- ===== src/Placement/Examples.antt =====
-- `selectNode` of internal/service/mediaops/service.go on concrete data: three nodes of two regions, with
-- numbers for load scores.
use aloqa_codex.Common.{ℕ, String, true, ◌||◌, ◌&&◌, List, [], ◌∷◌, ◌≡◌, refl, any, ltb, nat_eqb}
use aloqa_codex.Common.Text.{trim_space}
use aloqa_codex.Common.Int.{pos}
use aloqa_codex.Cerrors.{ok}
use aloqa_codex.Placement.Nodes.{
  MediaNodeSnapshot, MediaNodeStatus, active, draining, regional_move, Scores, is_available,
  filter_nodes_by_region, select_node, overflows, nth, keep, pick_node, filter_available_nodes,
  sort_nodes, insert_node, node_before,
}
use aloqa_codex.Placement.Selection.{Placed, select_node_sound, select_node_total}

abbrev node : String → String → MediaNodeStatus → ℕ → ℕ → MediaNodeSnapshot ℕ
node id region status rooms load = record {
  node_id = id;
  region = region;
  status = status;
  max_rooms = pos 10;
  rooms = pos rooms;
  load_score = load;
}

abbrev scores : Scores ℕ
scores = record { less = λ a b. ltb a b; same = λ a b. nat_eqb a b }

abbrev nodes : List (MediaNodeSnapshot ℕ)
nodes =
    node "a" "eu" active 10 9
    ∷ node "b" "eu" draining 1 1
    ∷ node "c" "us" active 3 3
    ∷ node "d" "us" active 2 2
    ∷ []

-- Every node of the region is full or draining, so the call moves to another region.
moved : select_node scores "eu" 7 nodes regional_move ≡ ok (node "c" "us" active 3 3)
unfolding select_node filter_nodes_by_region keep is_available nth pick_node filter_available_nodes
    trim_space sort_nodes insert_node node_before
moved = refl

select_node_sound_example : Placed "eu" nodes regional_move (node "c" "us" active 3 3)
select_node_sound_example =
    select_node_sound scores "eu" 7 regional_move nodes (node "c" "us" active 3 3) moved

room_elsewhere :
    any is_available (filter_nodes_by_region nodes "eu")
      || (overflows regional_move && any is_available nodes)
    ≡ true
unfolding filter_nodes_by_region keep is_available trim_space
room_elsewhere = refl

select_node_total_example :
    (n : MediaNodeSnapshot ℕ) × (select_node scores "eu" 7 nodes regional_move ≡ ok n)
select_node_total_example = select_node_total scores "eu" 7 regional_move nodes room_elsewhere
