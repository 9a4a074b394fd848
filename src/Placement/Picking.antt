-- ===== src/Placement/Picking.antt =====
-- The filters, the sort and the pick of `selectNode` in internal/service/mediaops/service.go.
use aloqa_codex.Common.{
  ℕ, zero, suc, ◌%◌, ◌<◌, ◌≡◌, inl, inr, refl, ap, subst, ◌∙◌, Bool, true, false, ◌&&◌, List, [],
  ◌∷◌, some, length, any, All, Bool-cases, Option-cases, arith,
}
use aloqa_codex.Common.Equality.{string_eq}
use aloqa_codex.Cerrors.{ok}
use aloqa_codex.Placement.Nodes.{
  MediaNodeSnapshot, Scores, keep, nth, node_before, insert_node, sort_nodes, chosen, pick_node,
}

module _ {L : Type 0} where
  pub All-weaken :
      (P Q : MediaNodeSnapshot L → Type 0) (ns : List (MediaNodeSnapshot L))
      → ((n : MediaNodeSnapshot L) → P n → Q n)
      → All P ns
      → All Q ns
  All-weaken P Q [] f h = tt
  All-weaken P Q (n ∷ ns) f (first, rest) = (f n first, All-weaken P Q ns f rest)

  pub All-keep :
      (P : MediaNodeSnapshot L → Type 0) (p : MediaNodeSnapshot L → Bool)
      (ns : List (MediaNodeSnapshot L))
      → All P ns
      → All (λ n. P n × (p n ≡ true)) (keep p ns)
  unfolding keep
  All-keep P p [] h = tt
  All-keep P p (n ∷ ns) (first, rest) = elim (Bool-cases (p n)) [
    | inl e ↦ rw e ((first, e), All-keep P p ns rest)
    | inr e ↦ rw e (All-keep P p ns rest)
  ]

  All-nth :
      (P : MediaNodeSnapshot L → Type 0) (k : ℕ) (ns : List (MediaNodeSnapshot L))
      (n : MediaNodeSnapshot L)
      → All P ns
      → nth k ns ≡ some n
      → P n
  unfolding nth
  All-nth P k [] n h e = absurd (cc)
  All-nth P zero (m ∷ ms) n (first, rest) e = subst P (ground (arith, e)) first
  All-nth P (suc k) (m ∷ ms) n (first, rest) e = All-nth P k ms n rest e

  nth_total :
      (k : ℕ) (ns : List (MediaNodeSnapshot L))
      → k < length ns
      → (n : MediaNodeSnapshot L) × (nth k ns ≡ some n)
  unfolding nth
  nth_total k [] h = absurd (ground arith)
  nth_total zero (m ∷ ms) h = (m, refl)
  nth_total (suc k) (m ∷ ms) h = nth_total k ms (ground (arith, h))

  any-keep :
      (p q : MediaNodeSnapshot L → Bool) (ns : List (MediaNodeSnapshot L))
      → any p (keep q ns) ≡ any (λ n. p n && q n) ns
  unfolding keep
  any-keep p q [] = refl
  any-keep p q (n ∷ ns) = ground (arith, any-keep p q ns)

  pub keep_empty :
      (p : MediaNodeSnapshot L → Bool) (ns : List (MediaNodeSnapshot L))
      → keep p ns ≡ []
      → any p ns ≡ false
  unfolding keep
  keep_empty p [] h = refl
  keep_empty p (n ∷ ns) h = ground (arith, keep_empty p ns)

module _ {L : Type 0} (scores : Scores L) where
  All-insert_node :
      (P : MediaNodeSnapshot L → Type 0) (n : MediaNodeSnapshot L) (ns : List (MediaNodeSnapshot L))
      → P n
      → All P ns
      → All P (insert_node scores n ns)
  unfolding insert_node
  All-insert_node P n [] h all = (h, tt)
  All-insert_node P n (m ∷ ms) h (first, rest) = elim (Bool-cases (node_before scores m n)) [
    | inl e ↦ rw e (first, All-insert_node P n ms h rest)
    | inr e ↦ rw e (h, (first, rest))
  ]

  All-sort_nodes :
      (P : MediaNodeSnapshot L → Type 0) (ns : List (MediaNodeSnapshot L))
      → All P ns
      → All P (sort_nodes scores ns)
  unfolding sort_nodes
  All-sort_nodes P [] h = tt
  All-sort_nodes P (n ∷ ns) (first, rest) =
      All-insert_node P n (sort_nodes scores ns) first (All-sort_nodes P ns rest)

  length-insert_node :
      (n : MediaNodeSnapshot L) (ns : List (MediaNodeSnapshot L))
      → length (insert_node scores n ns) ≡ suc (length ns)
  unfolding insert_node
  length-insert_node n [] = refl
  length-insert_node n (m ∷ ms) = ground (arith, length-insert_node n ms)

  length-sort_nodes : (ns : List (MediaNodeSnapshot L)) → length (sort_nodes scores ns) ≡ length ns
  unfolding sort_nodes
  length-sort_nodes [] = refl
  length-sort_nodes (n ∷ ns) =
      length-insert_node n (sort_nodes scores ns) ∙ ap suc (length-sort_nodes ns)

  pub pick_node_sound :
      (P : MediaNodeSnapshot L → Type 0) (checksum : ℕ) (ns : List (MediaNodeSnapshot L))
      (n : MediaNodeSnapshot L)
      → All P ns
      → pick_node scores checksum ns ≡ ok n
      → P n
  unfolding pick_node
  pick_node_sound P checksum ns n h e =
      elim (Option-cases (nth (checksum % length ns) (sort_nodes scores ns))) [
        | inl q ↦ absurd (cc (rw (q, pick_node) at e))
        | inr (m, q) ↦
            All-nth P (checksum % length ns) (sort_nodes scores ns) n (All-sort_nodes P ns h)
              (ground (arith, q, e))
      ]

  pub pick_node_total :
      (checksum : ℕ) (m : MediaNodeSnapshot L) (ms : List (MediaNodeSnapshot L))
      → (n : MediaNodeSnapshot L) × (pick_node scores checksum (m ∷ ms) ≡ ok n)
  unfolding pick_node
  pick_node_total checksum m ms =
      let (n, found) =
        nth_total (checksum % length (m ∷ ms)) (sort_nodes scores (m ∷ ms))
          (ground (arith, length-sort_nodes (m ∷ ms))) in
      (n, ap (chosen scores) found)
