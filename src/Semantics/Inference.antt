-- ===== src/Semantics/Inference.antt =====
-- `infer_relation` of app/services/vector_semantics.py: how two memories relate.
pub mod Kinds
pub mod Sources
use recall_select.Prelude.{
  ℕ, Bool, true, false, not, ◌&&◌, ◌||◌, if◌then◌else◌, Option, none, some, List, [], ◌∷◌, String,
  ◌==◌, any, map,
}
use recall_select.Mongo.{Driver}
use recall_select.Mongo.Query.{first}
use recall_select.Documents.{Database}
use recall_select.Collections.{get_collection}
use recall_select.Qdrant.{Client}
use recall_select.Qdrant.Points.{Relation, Point, Server, has_id}
use recall_select.Store.{retrieve_points, scroll_points}
use recall_select.Semantics.{point_semantics, expired}
use recall_select.Semantics.Numbers.{Numbers, of_ℕ, cosine, cosine_to, centroid}

pub data Direction : Type 0 where
  toward : (source target : String) → Direction
  subsumes : (parent child : String) → Direction

pub record Inferred (F : Type 0) : Type 0 where
  pub relation : String
  pub similarity : F
  pub direction : Option Direction
  -- Of a declared relation only.
  pub confidence : Option F
  pub source : Option String

-- A declared edge to the other memory that has not run out.
abbrev pub is_live_to : {F : Type 0} → String → ℕ → Relation F → Bool
is_live_to other now e = e.target == other && not (expired now e)

module _ {F : Type 0} ⦃numbers : Numbers F⦄ where
  abbrev pub duplicate_threshold : F
  duplicate_threshold = numbers.ratio 92 100

  abbrev pub unrelated_threshold : F
  unrelated_threshold = numbers.ratio 35 100

  abbrev pub unknown : Inferred F
  unknown = record {
    relation = "unknown";
    similarity = of_ℕ 0;
    direction = none;
    confidence = none;
    source = none;
  }

  abbrev pub geometric : String → F → Option Direction → Inferred F
  geometric relation similarity direction = record {
    relation = relation;
    similarity = similarity;
    direction = direction;
    confidence = none;
    source = some "geometry";
  }

  abbrev pub declared : (source other : String) → F → Relation F → Inferred F
  declared source other similarity e = record {
    relation = e.type;
    similarity = similarity;
    direction = if e.directed then some (toward source other) else none;
    confidence = some e.confidence;
    source = some "declared";
  }

  -- The first live declared edge from one point to the other memory.
  abbrev pub declared_to : Point F → String → ℕ → Option (Relation F)
  declared_to p other now = first (is_live_to other now) (point_semantics p).relations

  -- Related memories: the one nearer to the centroid is the more general, if the gap is clear.
  abbrev pub subsumption : (memory_a memory_b : String) → F → (gen_a gen_b : F) → Inferred F
  subsumption memory_a memory_b similarity gen_a gen_b =
      if numbers.at_most (numbers.ratio 5 100) (numbers.absolute (numbers.minus gen_a gen_b))
      then if numbers.below gen_b gen_a
        then geometric "generalizes" similarity (some (subsumes memory_a memory_b))
        else geometric "specializes" similarity (some (subsumes memory_b memory_a))
      else geometric "related" similarity none

  abbrev pub by_centroid :
      (memory_a memory_b : String) (pa pb : Point F) → F → Option (List F) → Inferred F
  by_centroid memory_a memory_b pa pb similarity none = geometric "related" similarity none
  by_centroid memory_a memory_b pa pb similarity (some c) =
      subsumption memory_a memory_b similarity (cosine pa.vector c) (cosine pb.vector c)

  unfoldable pub by_geometry :
      (memory_a memory_b : String) (pa pb : Point F) → List (Point F) → Inferred F
  by_geometry memory_a memory_b pa pb points =
      let similarity = cosine pa.vector pb.vector in
      if numbers.at_most duplicate_threshold similarity
      then geometric "duplicate" similarity none
      else if numbers.below similarity unrelated_threshold
      then geometric "unrelated" similarity none
      else by_centroid memory_a memory_b pa pb similarity
          (centroid (map (λ (p : Point F). p.vector) points))

  -- Two points that are there, and the points that the centroid is of.
  unfoldable pub relate :
      (memory_a memory_b : String) (pa pb : Point F) → List (Point F) → ℕ → Inferred F
  relate memory_a memory_b pa pb points now =
      let similarity = cosine pa.vector pb.vector in
      elim (declared_to pa memory_b now) [
        | some e ↦ declared pa.id memory_b similarity e
        | none ↦ elim (declared_to pb memory_a now) [
          | some e ↦ declared pb.id memory_a similarity e
          | none ↦ by_geometry memory_a memory_b pa pb points
        ]
      ]

module _ {F : Type 0} ⦃mongo : Driver⦄ ⦃qdrant : Client F⦄ ⦃numbers : Numbers F⦄ where
  unfoldable pub infer_relation :
      (user_id project_id memory_a memory_b : String) (max_points : ℕ)
      → ℕ
      → Database
      → Server F
      → Inferred F
  infer_relation user_id project_id memory_a memory_b max_points now db q =
      elim (get_collection user_id project_id db) [
        | none ↦ unknown
        | some c ↦
            let fetched = retrieve_points c.name (memory_a ∷ memory_b ∷ []) q in
            elim (first (has_id memory_a) fetched) [
              | none ↦ unknown
              | some pa ↦ elim (first (has_id memory_b) fetched) [
                | none ↦ unknown
                | some pb ↦
                    relate memory_a memory_b pa pb (scroll_points c.name (some max_points) q) now
              ]
            ]
      ]
