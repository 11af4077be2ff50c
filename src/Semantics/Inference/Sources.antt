-- ===== src/Semantics/Inference/Sources.antt =====
-- Which relation is inferred, and where it comes from.
use recall_select.Prelude.{
  ℕ, ◌≡◌, refl, ◌∙◌, true, none, Option, some, List, [], ◌∷◌, String, map, Option-cases, Bool-cases,
  inl, inr, arith, eq_refl, lookup,
}
use recall_select.Mongo.{Driver}
use recall_select.Mongo.Query.{first}
use recall_select.Documents.{CollectionRecord, Database}
use recall_select.Collections.{get_collection}
use recall_select.Qdrant.{Client, points_of, contains}
use recall_select.Qdrant.Points.{Point, Server, has_id}
use recall_select.Store.{retrieve_points, scroll_points}
use recall_select.Semantics.Numbers.{Numbers, cosine, centroid}
use recall_select.Semantics.Inference.Kinds.{
  live_edge, Geometric, same, apart, no_centre, alike, first_broader, second_broader, IsInferred,
  from_first, from_second, from_vectors,
}
use recall_select.Semantics.Inference.{Direction, subsumes, by_geometry, relate, infer_relation}

module _ {F : Type 0} ⦃numbers : Numbers F⦄ (memory_a memory_b : String) (pa pb : Point F)
    (points : List (Point F)) where
  -- The relation that the vectors give, with its direction.
  by_geometry_lem :
      (relation : String) × (direction : Option Direction) × (by_geometry memory_a memory_b pa pb
          points
        ≡ record {
          relation = relation;
          similarity = cosine pa.vector pb.vector;
          direction = direction;
          confidence = none;
          source = some "geometry";
        })
      × Geometric memory_a memory_b pa pb points relation direction
  unfolding by_geometry
  by_geometry_lem =
      let similarity = cosine pa.vector pb.vector in
      elim (Bool-cases (numbers.at_most (numbers.ratio 92 100) similarity)) [
        | inl s ↦ ("duplicate", none, rw (s, by_geometry) refl, same s)
        | inr s ↦ elim (Bool-cases (numbers.below similarity (numbers.ratio 35 100))) [
          | inl l ↦ ("unrelated", none, rw (s, l, by_geometry) refl, apart s l)
          | inr l ↦ elim (Option-cases (centroid (map (λ (p : Point F). p.vector) points))) [
            | inl e ↦ ("related", none, rw (s, l, e, by_geometry) refl, no_centre s l e)
            | inr (c, e) ↦
                let gen_a = cosine pa.vector c in
                let gen_b = cosine pb.vector c in
                elim (Bool-cases (
                  numbers.at_most (numbers.ratio 5 100)
                    (numbers.absolute (numbers.minus gen_a gen_b)))) [
                      | inr g ↦
                          ("related", none, rw (s, l, e, g, by_geometry) refl, alike c s l e g)
                      | inl g ↦ elim (Bool-cases (numbers.below gen_b gen_a)) [
                        | inl b ↦ (
                          "generalizes",
                          some (subsumes memory_a memory_b),
                          rw (s, l, e, g, b, by_geometry) refl,
                          first_broader c s l e g b,
                        )
                        | inr b ↦ (
                          "specializes",
                          some (subsumes memory_b memory_a),
                          rw (s, l, e, g, b, by_geometry) refl,
                          second_broader c s l e g b,
                        )
                      ]
                    ]
          ]
        ]
      ]

  relate-IsInferred :
      (now : ℕ)
      → IsInferred memory_a memory_b pa pb points now (relate memory_a memory_b pa pb points now)
  unfolding relate
  relate-IsInferred now = elim (Option-cases (live_edge pa memory_b now)) [
    | inr (e, t) ↦ rw (t, relate) (from_first e t)
    | inl t ↦ elim (Option-cases (live_edge pb memory_a now)) [
      | inr (e, u) ↦ rw (t, u, relate) (from_second e t u)
      | inl u ↦
          let (relation, direction, same_record, g) = by_geometry_lem in
          rw (t, u, relate, same_record) (from_vectors relation direction t u g)
    ]
  ]

module _ {F : Type 0} ⦃qdrant : Client F⦄ where
  first-retrieve_points :
      (name i : String) (ids : List String) (q : Server F)
      → contains i ids ≡ true
      → first (has_id i) (retrieve_points name ids q) ≡ first (has_id i) (points_of name q)
  unfolding retrieve_points
  first-retrieve_points name i ids q h = elim (Option-cases (lookup name q)) [
    | inl e ↦ rw (qdrant.collection_exists_law name q, e, retrieve_points) refl
    | inr (ps, e) ↦
        rw (qdrant.collection_exists_law name q, e, retrieve_points)
          (ground (arith, h, qdrant.retrieve_first name ids q i))
  ]

module _ {F : Type 0} ⦃mongo : Driver⦄ ⦃qdrant : Client F⦄ ⦃numbers : Numbers F⦄ where
  -- Of two stored memories the relation is that of the first edge in force from the first of them
  -- to the second, with that edge's confidence, and its ends unless it has no direction; where there
  -- is none, that of the first in force from the second to the first; and else it is read off the
  -- vectors: duplicates, unrelated, the broader one by its nearness to the centroid, or related. The
  -- similarity is the cosine of their vectors in each case.
  pub infer_relation_lem :
      (user_id project_id memory_a memory_b : String) (max_points now : ℕ) (db : Database)
      (q : Server F) (c : CollectionRecord) (pa pb : Point F)
      → get_collection user_id project_id db ≡ some c
      → first (has_id memory_a) (points_of c.name q) ≡ some pa
      → first (has_id memory_b) (points_of c.name q) ≡ some pb
      → IsInferred memory_a memory_b pa pb
          (scroll_points c.name (some max_points) q)
          now
          (infer_relation user_id project_id memory_a memory_b max_points now db q)
  unfolding infer_relation
  infer_relation_lem user_id project_id memory_a memory_b max_points now db q c pa pb e ea eb =
      let a₁ =
        first-retrieve_points c.name memory_a (memory_a ∷ memory_b ∷ []) q
          (ground (arith, eq_refl memory_a))
        ∙ ea in
      let b₁ =
        first-retrieve_points c.name memory_b (memory_a ∷ memory_b ∷ []) q
          (ground (arith, eq_refl memory_b))
        ∙ eb in
      rw (e, a₁, b₁, infer_relation)
        (relate-IsInferred memory_a memory_b pa pb (scroll_points c.name (some max_points) q) now)
