-- ===== src/Semantics/Graph.antt =====
-- The multigraph of a store and its concepts: `semantic_graph` and `concept_clusters` of
-- app/services/vector_semantics.py.
pub mod Concepts
pub mod Clusters
use recall_select.Prelude.{
  ℕ, zero, suc, ◌+◌, ◌*◌, Bool, true, false, if◌then◌else◌, Option, none, some, List, [], ◌∷◌, ◌++◌,
  String, ◌==◌, Dict, lookup, insert, get_or, length, ltb, map,
}
use recall_select.Mongo.{Driver}
use recall_select.Documents.{Database, Result, ok, err, value_error}
use recall_select.Collections.{get_collection}
use recall_select.Qdrant.{Client}
use recall_select.Qdrant.Points.{Value, text, Point, Server}
use recall_select.Store.{scroll_points}
use recall_select.Semantics.Components.{components}
use recall_select.Semantics.Numbers.{Numbers, cosine_to, centroid}
use recall_select.Sorting.{sort_reverse, largest}
use recall_select.Semantics.Lenses.{Edge, topical_lens, temporal_lens, entity_lens, declared_lens}

-- `DEFAULT_TIME_WINDOW_S`
abbrev pub default_time_window_s : ℕ
default_time_window_s = 7 * 24 * 3600

-- The keyword arguments of the lenses that have one.
pub record LensParams (F : Type 0) : Type 0 where
  pub min_score : F
  pub window_seconds : ℕ

pub record Node (F : Type 0) : Type 0 where
  pub id : String
  pub text : Value F

pub record Graph (F : Type 0) : Type 0 where
  pub nodes : List (Node F)
  pub edges : List (Edge F)

pub record Cluster (F : Type 0) : Type 0 where
  pub representative : Node F
  pub size : ℕ
  pub members : List (Node F)

abbrev pub nth {ℓ} : {A : Type ℓ} → List A → ℕ → Option A
nth [] i = none
nth (x ∷ xs) zero = some x
nth (x ∷ xs) (suc i) = nth xs i

module _ {F : Type 0} where
  abbrev pub node : Point F → Node F
  node p = record { id = p.id; text = get_or (lookup "text" p.payload) (text "") }

  -- `{str(p.id): i for i, p in enumerate(points)}`
  abbrev pub index_from : ℕ → List (Point F) → Dict ℕ → Dict ℕ
  index_from i [] index = index
  index_from i (p ∷ ps) index = index_from (suc i) ps (insert p.id i index)

  -- The positions of the ends, of the edges that have both.
  abbrev pub position_pairs : Dict ℕ → List (Edge F) → List (ℕ × ℕ)
  position_pairs index [] = []
  position_pairs index (e ∷ es) = elim (lookup e.source index) [
    | none ↦ position_pairs index es
    | some i ↦ elim (lookup e.target index) [
      | none ↦ position_pairs index es
      | some j ↦ (i, j) ∷ position_pairs index es
    ]
  ]

  -- `points[m]` of each member.
  abbrev pub picked : List (Point F) → List ℕ → List (Point F)
  picked points [] = []
  picked points (m ∷ ms) = elim (nth points m) [
    | none ↦ picked points ms
    | some p ↦ p ∷ picked points ms
  ]

module _ {F : Type 0} ⦃numbers : Numbers F⦄ where
  abbrev pub default_params : LensParams F
  default_params = record { min_score = numbers.ratio 6 10; window_seconds = default_time_window_s }

module _ {F : Type 0} ⦃numbers : Numbers F⦄ (read_ts : String → Option ℕ)
    (normal : String → String) where
  -- `LENSES`
  abbrev pub lens_named : String → LensParams F → ℕ → Option (List (Point F) → List (Edge F))
  lens_named name params now =
      if name == "topical"
      then some (topical_lens params.min_score)
      else if name == "temporal"
      then some (temporal_lens read_ts params.window_seconds)
      else if name == "entity"
      then some (entity_lens normal)
      else if name == "declared"
      then some (declared_lens now)
      else none

  -- The edges of each lens in turn; an unknown lens raises.
  unfoldable pub lens_edges :
      List String → LensParams F → ℕ → List (Point F) → Result (List (Edge F))
  lens_edges [] params now points = ok []
  lens_edges (name ∷ names) params now points = elim (lens_named name params now) [
    | none ↦ err value_error
    | some lens ↦ elim (lens_edges names params now points) [
      | err e ↦ err e
      | ok edges ↦ ok (lens points ++ edges)
    ]
  ]

module _ {F : Type 0} ⦃numbers : Numbers F⦄ where
  -- The groups that are large enough, with the member closest to the centroid.
  unfoldable pub clusters_of :
      (min_size : ℕ) → List (Point F) → List (ℕ × List ℕ) → List (Cluster F)
  clusters_of min_size points [] = []
  clusters_of min_size points ((root, ms) ∷ groups) =
      let rest = clusters_of min_size points groups in
      let members = picked points ms in
      let centre = centroid (map (λ p. p.vector) members) in
      if ltb (length ms) min_size
      then rest
      else elim (largest numbers.below (λ p. cosine_to p.vector centre) members) [
        | none ↦ rest
        | some rep ↦
            record { representative = node rep; size = length ms; members = map node members }
            ∷ rest
      ]

module _ {F : Type 0} ⦃mongo : Driver⦄ ⦃qdrant : Client F⦄ ⦃numbers : Numbers F⦄
    (read_ts : String → Option ℕ) (normal : String → String) where
  unfoldable pub semantic_graph :
      (user_id project_id : String) (lenses : List String)
      → LensParams F
      → (max_points : ℕ) → ℕ
      → Database
      → Server F
      → Result (Graph F)
  semantic_graph user_id project_id lenses params max_points now db q =
      elim (get_collection user_id project_id db) [
        | none ↦ ok (record { nodes = []; edges = [] })
        | some c ↦
            let points = scroll_points c.name (some max_points) q in
            elim (lens_edges read_ts normal lenses params now points) [
              | err e ↦ err e
              | ok edges ↦ ok (record {
                nodes = map node points;
                edges = sort_reverse numbers.below (λ e. e.weight) edges;
              })
            ]
      ]

  unfoldable pub concept_clusters :
      (user_id project_id : String) (lenses : List String)
      → LensParams F
      → (max_points min_size : ℕ) → ℕ
      → Database
      → Server F
      → Result (List (Cluster F))
  concept_clusters user_id project_id lenses params max_points min_size now db q =
      elim (get_collection user_id project_id db) [
        | none ↦ ok []
        | some c ↦
            let points = scroll_points c.name (some max_points) q in
            let index = index_from 0 points [] in
            elim (lens_edges read_ts normal lenses params now points) [
              | err e ↦ err e
              | ok edges ↦
                  let groups = components (length points) (position_pairs index edges) in
                  ok (
                    sort_reverse ltb (λ (k : Cluster F). k.size)
                      (clusters_of min_size points groups))
            ]
      ]
