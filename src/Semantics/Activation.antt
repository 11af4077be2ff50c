-- ===== src/Semantics/Activation.antt =====
-- Retrieval by connection: `spreading_activation` and `_activate_ann` of
-- app/services/vector_semantics.py.
pub mod Hops
pub mod Reached
pub mod Answers
use mathlib.Core.Option
use recall_select.Prelude.{
  ℕ, zero, suc, Bool, true, false, not, ◌||◌, if◌then◌else◌, Option, none, some, List, [], ◌∷◌,
  ◌++◌, String, ◌==◌, Dict, lookup, insert, get_or, take, any,
}
use recall_select.Mongo.{Driver}
use recall_select.Documents.{Database, Result, ok, err, unexpected_response}
use recall_select.Collections.{get_collection}
use recall_select.Qdrant.{Client}
use recall_select.Qdrant.Points.{Value, text, Hit, Server}
use recall_select.Store.{search, neighbors, retrieve_points, is_empty}
use recall_select.Semantics.Relations.{grouped}
use recall_select.Semantics.Numbers.{Numbers, of_ℕ}
use recall_select.Sorting.{sort_reverse}
use recall_select.Semantics.Lenses.{Edge}
use recall_select.Semantics.Graph.{LensParams, Node, semantic_graph}

-- A memory that surfaces: with its text, or with its payload after a walk over neighbours.
pub record Activated (F : Type 0) : Type 0 where
  pub id : String
  pub activation : F
  pub text : Value F

pub record Surfaced (F : Type 0) : Type 0 where
  pub id : String
  pub activation : F
  pub payload : Option (Dict (Value F))

-- The activations and the next frontier.
abbrev pub Spread : Type 0 → Type 0
Spread F = Dict F × Dict F

module _ {F : Type 0} ⦃numbers : Numbers F⦄ where
  -- `weight * weights.get(layer, 1.0)`
  abbrev pub conduct_of : Dict F → Edge F → F
  conduct_of weights e = numbers.times e.weight (get_or (lookup e.layer weights) (of_ℕ 1))

  abbrev pub add_edge : F → Edge F → Dict (List (String × F)) → Dict (List (String × F))
  add_edge conduct e adjacency =
      let forward = grouped e.source (e.target, conduct) adjacency in
      if e.directed then forward else grouped e.target (e.source, conduct) forward

  -- What does not conduct is left out; a directed edge conducts forward only.
  unfoldable pub adjacency_from :
      Dict F → List (Edge F) → Dict (List (String × F)) → Dict (List (String × F))
  adjacency_from weights [] adjacency = adjacency
  adjacency_from weights (e ∷ es) adjacency =
      let conduct = conduct_of weights e in
      adjacency_from weights es
        (if numbers.at_most conduct (of_ℕ 0) then adjacency else add_edge conduct e adjacency)

  -- One conducting edge: `activation[other] += gained` and the largest gain of the next frontier.
  abbrev pub gain : String → F → Spread F → Spread F
  gain other gained (activation, next) =
      let seen = get_or (lookup other next) (of_ℕ 0) in
      (
        insert other (numbers.plus (get_or (lookup other activation) (of_ℕ 0)) gained) activation,
        insert other (if numbers.below seen gained then gained else seen) next,
      )

  unfoldable pub spread_node : (energy decay : F) → List (String × F) → Spread F → Spread F
  spread_node energy decay [] s = s
  spread_node energy decay ((other, conduct) ∷ edges) s =
      spread_node energy decay edges
        (gain other (numbers.times (numbers.times energy conduct) decay) s)

  unfoldable pub spread_frontier : F → Dict (List (String × F)) → Dict F → Spread F → Spread F
  spread_frontier decay adjacency [] s = s
  spread_frontier decay adjacency ((node, energy) ∷ frontier) s =
      spread_frontier decay adjacency frontier
        (spread_node energy decay (get_or (lookup node adjacency) []) s)

  -- The hops: the loop ends early where nothing is left to spread.
  unfoldable pub spread_hops :
      F → Dict (List (String × F)) → (hops : ℕ) → (frontier activation : Dict F) → Dict F
  spread_hops decay adjacency zero frontier activation = activation
  spread_hops decay adjacency (suc hops) frontier activation =
      let s = spread_frontier decay adjacency frontier (activation, []) in
      let rest = spread_hops decay adjacency hops s.1 s.0 in if is_empty s.1 then s.0 else rest

  -- The hits that are close enough, as the first frontier.
  abbrev pub close_hits : F → List (Hit F) → Dict F → Dict F
  close_hits min_score [] frontier = frontier
  close_hits min_score (h ∷ hits) frontier =
      close_hits min_score hits
        (if numbers.at_most min_score h.score then insert h.id h.score frontier else frontier)

  abbrev pub node_texts : List (Node F) → Dict (Value F) → Dict (Value F)
  node_texts [] texts = texts
  node_texts (n ∷ ns) texts = node_texts ns (insert n.id n.text texts)

  abbrev pub with_texts : Dict (Value F) → List (String × F) → List (Activated F)
  with_texts texts [] = []
  with_texts texts ((nid, score) ∷ ranked) =
      record { id = nid; activation = score; text = get_or (lookup nid texts) (text "") }
      ∷ with_texts texts ranked

  abbrev pub with_payloads : Dict (Dict (Value F)) → List (String × F) → List (Surfaced F)
  with_payloads payloads [] = []
  with_payloads payloads ((nid, score) ∷ ranked) =
      record { id = nid; activation = score; payload = lookup nid payloads }
      ∷ with_payloads payloads ranked

  abbrev pub ranked : ℕ → Dict F → List (String × F)
  ranked limit activation =
      take limit (sort_reverse numbers.below (λ (e : String × F). e.1) activation)

module _ {F : Type 0} ⦃qdrant : Client F⦄ ⦃numbers : Numbers F⦄ where
  -- The walk over neighbours keeps the payload of each hit as well.
  unfoldable pub ann_hits :
      (node : String) (energy min_score decay : F)
      → List (Hit F)
      → Spread F × Dict (Dict (Value F))
      → Spread F × Dict (Dict (Value F))
  ann_hits node energy min_score decay [] s = s
  ann_hits node energy min_score decay (h ∷ hits) (s, payloads) =
      ann_hits node energy min_score decay hits (
        if h.id == node || numbers.below h.score min_score then (s, payloads) else (
          gain h.id (numbers.times (numbers.times energy h.score) decay) s,
          insert h.id h.payload payloads,
        ))

  unfoldable pub ann_frontier :
      (name : String) (fanout : ℕ) (min_score decay : F)
      → Dict F
      → Server F
      → Spread F × Dict (Dict (Value F))
      → Option (Spread F × Dict (Dict (Value F)))
  ann_frontier name fanout min_score decay [] q s = some s
  ann_frontier name fanout min_score decay ((node, energy) ∷ frontier) q s =
      elim (neighbors name node fanout q) [
        | none ↦ none
        | some hits ↦
            ann_frontier name fanout min_score decay frontier q
              (ann_hits node energy min_score decay hits s)
      ]

  unfoldable pub ann_hops :
      (name : String) (fanout : ℕ) (min_score decay : F) (hops : ℕ)
      → (frontier activation : Dict F) → Dict (Dict (Value F))
      → Server F
      → Option (Dict F × Dict (Dict (Value F)))
  ann_hops name fanout min_score decay zero frontier activation payloads q =
      some (activation, payloads)
  ann_hops name fanout min_score decay (suc hops) frontier activation payloads q =
      elim (ann_frontier name fanout min_score decay frontier q ((activation, []), payloads)) [
        | none ↦ none
        | some (s, payloads') ↦
            let rest = ann_hops name fanout min_score decay hops s.1 s.0 payloads' q in
            if is_empty s.1 then some (s.0, payloads') else rest
      ]

  -- The seed is a stored memory, or a text whose nearest memories start the walk. `none` where the
  -- search for them raises.
  abbrev pub first_frontier :
      (known : Bool) (name seed : String) (embed : String → List F) (fanout : ℕ) (min_score : F)
      → Server F
      → Option (Dict F)
  first_frontier known name seed embed fanout min_score q =
      if known
      then some ((seed, of_ℕ 1) ∷ [])
      else Option.map (λ hits. close_hits min_score hits []) (search name (embed seed) fanout q)

  unfoldable pub activate_ann :
      (name seed : String) (hops limit fanout : ℕ) (min_score decay : F) (embed : String → List F)
      → Server F
      → Option (List (Surfaced F))
  activate_ann name seed hops limit fanout min_score decay embed q =
      let known = not (is_empty (retrieve_points name (seed ∷ []) q)) in
      elim (first_frontier known name seed embed fanout min_score q) [
        | none ↦ none
        | some frontier ↦
            Option.map
              (λ (r : Dict F × Dict (Dict (Value F))). with_payloads r.1 (ranked limit r.0))
              (ann_hops name fanout min_score decay hops frontier frontier [] q)
      ]

-- The two kinds of answer.
pub data Found (F : Type 0) : Type 0 where
  by_graph : List (Activated F) → Found F
  by_neighbours : List (Surfaced F) → Found F

-- `set(lenses) == {"topical"}`
abbrev pub is_topical : List String → Bool
is_topical [] = false
is_topical (l ∷ ls) = not (any (λ k. not (k == "topical")) (l ∷ ls))

module _ {F : Type 0} ⦃mongo : Driver⦄ ⦃qdrant : Client F⦄ ⦃numbers : Numbers F⦄
    (read_ts : String → Option ℕ) (normal : String → String) where
  unfoldable pub spreading_activation :
      (user_id project_id seed : String) (lenses : List String) (params : LensParams F)
      (layer_weights : Dict F) (hops limit fanout : ℕ) (min_score decay : F) (max_points : ℕ)
      (embed : String → List F)
      → ℕ
      → Database
      → Server F
      → Result (Found F)
  spreading_activation user_id project_id seed lenses params layer_weights hops limit fanout
        min_score decay max_points embed now db q =
      elim (get_collection user_id project_id db) [
        | none ↦ ok (by_graph [])
        | some c ↦
            if is_topical lenses
            then elim (activate_ann c.name seed hops limit fanout min_score decay embed q) [
              | none ↦ err unexpected_response
              | some surfaced ↦ ok (by_neighbours surfaced)
            ]
            else elim (semantic_graph read_ts normal user_id project_id lenses params max_points now
                db q) [
                  | err e ↦ err e
                  | ok g ↦
                      let known = any (λ n. n.id == seed) g.nodes in
                      elim (first_frontier known c.name seed embed fanout min_score q) [
                        | none ↦ err unexpected_response
                        | some frontier ↦
                            let activation =
                              spread_hops decay (adjacency_from layer_weights g.edges []) hops
                                frontier frontier in
                            ok (
                              by_graph
                                (with_texts (node_texts g.nodes []) (ranked limit activation)))
                      ]
                ]
      ]
