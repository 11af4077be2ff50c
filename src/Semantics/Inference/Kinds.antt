-- ===== src/Semantics/Inference/Kinds.antt =====
-- What `infer_relation` may answer for two stored memories.
use recall_select.Prelude.{
  ℕ, ◌≡◌, Bool, true, false, none, not, ◌&&◌, ◌==◌, leb, if◌then◌else◌, Option, some, List, String,
  map,
}
use recall_select.Mongo.Query.{first}
use recall_select.Qdrant.Points.{Point, Relation}
use recall_select.Semantics.{point_semantics}
use recall_select.Semantics.Numbers.{Numbers, cosine, centroid}
use recall_select.Semantics.Inference.{Direction, toward, subsumes, Inferred}

-- A declared edge to the other memory that is in force now.
abbrev pub is_live : {F : Type 0} → String → ℕ → Relation F → Bool
is_live other now e =
    e.target == other && not (elim e.valid_till [ none ↦ false | some till ↦ leb till now ])

abbrev pub live_edge : {F : Type 0} → Point F → String → ℕ → Option (Relation F)
live_edge p other now = first (is_live other now) (point_semantics p).relations

module _ {F : Type 0} ⦃numbers : Numbers F⦄ where
  -- What the vectors tell of two memories, and which of them subsumes the other.
  pub data Geometric (memory_a memory_b : String) (pa pb : Point F) (points : List (Point F))
      : String → Option Direction → Type 0 where
    same :
        numbers.at_most (numbers.ratio 92 100) (cosine pa.vector pb.vector) ≡ true
        → Geometric memory_a memory_b pa pb points "duplicate" none
    apart :
        numbers.at_most (numbers.ratio 92 100) (cosine pa.vector pb.vector) ≡ false
        → numbers.below (cosine pa.vector pb.vector) (numbers.ratio 35 100) ≡ true
        → Geometric memory_a memory_b pa pb points "unrelated" none
    no_centre :
        numbers.at_most (numbers.ratio 92 100) (cosine pa.vector pb.vector) ≡ false
        → numbers.below (cosine pa.vector pb.vector) (numbers.ratio 35 100) ≡ false
        → centroid (map (λ (p : Point F). p.vector) points) ≡ none
        → Geometric memory_a memory_b pa pb points "related" none
    alike :
        (c : List F)
        → numbers.at_most (numbers.ratio 92 100) (cosine pa.vector pb.vector) ≡ false
        → numbers.below (cosine pa.vector pb.vector) (numbers.ratio 35 100) ≡ false
        → centroid (map (λ (p : Point F). p.vector) points) ≡ some c
        → numbers.at_most
            (numbers.ratio 5 100)
            (numbers.absolute (numbers.minus (cosine pa.vector c) (cosine pb.vector c)))
          ≡ false
        → Geometric memory_a memory_b pa pb points "related" none
    first_broader :
        (c : List F)
        → numbers.at_most (numbers.ratio 92 100) (cosine pa.vector pb.vector) ≡ false
        → numbers.below (cosine pa.vector pb.vector) (numbers.ratio 35 100) ≡ false
        → centroid (map (λ (p : Point F). p.vector) points) ≡ some c
        → numbers.at_most
            (numbers.ratio 5 100)
            (numbers.absolute (numbers.minus (cosine pa.vector c) (cosine pb.vector c)))
          ≡ true
        → numbers.below (cosine pb.vector c) (cosine pa.vector c) ≡ true
        → Geometric memory_a memory_b pa pb points "generalizes" (some (subsumes memory_a memory_b))
    second_broader :
        (c : List F)
        → numbers.at_most (numbers.ratio 92 100) (cosine pa.vector pb.vector) ≡ false
        → numbers.below (cosine pa.vector pb.vector) (numbers.ratio 35 100) ≡ false
        → centroid (map (λ (p : Point F). p.vector) points) ≡ some c
        → numbers.at_most
            (numbers.ratio 5 100)
            (numbers.absolute (numbers.minus (cosine pa.vector c) (cosine pb.vector c)))
          ≡ true
        → numbers.below (cosine pb.vector c) (cosine pa.vector c) ≡ false
        → Geometric memory_a memory_b pa pb points "specializes" (some (subsumes memory_b memory_a))

  -- The answer for two stored memories: the first edge in force from the first of them to the second;
  -- where there is none, the first from the second to the first; and else what the vectors tell.
  pub data IsInferred (memory_a memory_b : String) (pa pb : Point F) (points : List (Point F))
      (now : ℕ) : Inferred F → Type 0 where
    from_first :
        (e : Relation F)
        → live_edge pa memory_b now ≡ some e
        → IsInferred memory_a memory_b pa pb points now (record {
          relation = e.type;
          similarity = cosine pa.vector pb.vector;
          direction = if e.directed then some (toward pa.id memory_b) else none;
          confidence = some e.confidence;
          source = some "declared";
        })
    from_second :
        (e : Relation F)
        → live_edge pa memory_b now ≡ none
        → live_edge pb memory_a now ≡ some e
        → IsInferred memory_a memory_b pa pb points now (record {
          relation = e.type;
          similarity = cosine pa.vector pb.vector;
          direction = if e.directed then some (toward pb.id memory_a) else none;
          confidence = some e.confidence;
          source = some "declared";
        })
    from_vectors :
        (relation : String) (direction : Option Direction)
        → live_edge pa memory_b now ≡ none
        → live_edge pb memory_a now ≡ none
        → Geometric memory_a memory_b pa pb points relation direction
        → IsInferred memory_a memory_b pa pb points now (record {
          relation = relation;
          similarity = cosine pa.vector pb.vector;
          direction = direction;
          confidence = none;
          source = some "geometry";
        })
