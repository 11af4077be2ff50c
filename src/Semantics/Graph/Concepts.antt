-- ===== src/Semantics/Graph/Concepts.antt =====
-- The concepts of a store: which memories stand in one.
use recall_select.Prelude.{
  ℕ, suc, ◌+◌, ◌≤◌, ◌<◌, ◌≡◌, ◌↔◌, inl, inr, true, some, List, [], ◌∷◌, String, Dict, lookup,
  insert, lookup-insert, length, All, Option-cases, arith,
}
use recall_select.Qdrant.Points.{Point}
use recall_select.Semantics.Components.{components}
use recall_select.Semantics.Components.Linked.{Linked}
use recall_select.Semantics.Components.Grouped.{together, components_lem}
use recall_select.Semantics.Lenses.{Edge}
use recall_select.Semantics.Graph.{index_from, position_pairs}

-- Every position of the index is below a bound.
IsBelow : ℕ → Dict ℕ → Type 0
IsBelow n index = (k : String) (i : ℕ) → lookup k index ≡ some i → i < n

module _ {F : Type 0} where
  index_from-IsBelow :
      (n i : ℕ) (points : List (Point F)) (index : Dict ℕ)
      → i + length points ≤ n
      → IsBelow n index
      → IsBelow n (index_from i points index)
  unfolding IsBelow
  index_from-IsBelow n i [] index le h = h
  index_from-IsBelow n i (p ∷ ps) index le h =
      index_from-IsBelow n (suc i) ps (insert p.id i index) (omega arith)
        (λ k j e. ground (arith, lookup-insert p.id k i index, e, h k j))

  position_pairs_below :
      (n : ℕ) (index : Dict ℕ) (edges : List (Edge F))
      → IsBelow n index
      → All (λ e. (e.0 < n) × (e.1 < n)) (position_pairs index edges)
  unfolding IsBelow
  position_pairs_below n index [] h = tt
  position_pairs_below n index (e ∷ es) h = elim (Option-cases (lookup e.source index)) [
    | inl s ↦ rw (s, position_pairs) (position_pairs_below n index es h)
    | inr (i, s) ↦ elim (Option-cases (lookup e.target index)) [
      | inl t ↦ rw (s, t, position_pairs) (position_pairs_below n index es h)
      | inr (j, t) ↦
          rw (s, t, position_pairs)
            ((h e.source i s, h e.target j t), position_pairs_below n index es h)
    ]
  ]

  -- Two points of a store stand in one group of `concept_clusters` exactly if a chain of the edges
  -- that the lenses give links them, in whatever direction; an edge counts if both its ends are
  -- among the points.
  pub same_concept_iff :
      (points : List (Point F)) (edges : List (Edge F)) (i j : ℕ)
      → i < length points
      → j < length points
      → let pairs = position_pairs (index_from 0 points []) edges in
        (together i j (components (length points) pairs) ≡ true) ↔ Linked pairs i j
  unfolding IsBelow
  same_concept_iff points edges i j hi hj =
      let n = length points in
      let index = index_from 0 points [] in
      components_lem n (position_pairs index edges) i j
        (position_pairs_below n index edges
          (index_from-IsBelow n 0 points [] (omega arith) (λ k i e. absurd (cc))))
        hi hj
