-- ===== src/Semantics/Graph/Clusters.antt =====
-- The concepts that `concept_clusters` returns: their order, their sizes and their members.
use mathlib.Core.List.{Memᴰ}
use mathlib.Core.Path.{subst}
use recall_select.Prelude.{
  ℕ, zero, ap, ◌∙◌, suc, ◌≤◌, ◌<◌, ◌≡◌, ◌⊎◌, inl, inr, refl, Option, some, List, [], ◌∷◌, String,
  length, map, All, IsDescendingFrom, IsDescending, ltb, Bool-cases, Option-cases, arith,
}
use recall_select.Mongo.{Driver}
use recall_select.Documents.{Database, Result, ok, err, Error}
use recall_select.Collections.{get_collection}
use recall_select.Qdrant.{Client}
use recall_select.Qdrant.Points.{Point, Server}
use recall_select.Store.{scroll_points}
use recall_select.Semantics.Components.{components}
use recall_select.Semantics.Components.Grouped.{components_inside}
use recall_select.Semantics.Numbers.{Numbers, cosine_to, centroid}
use recall_select.Sorting.Elements.{All-sort_reverse, largest_lem}
use recall_select.Sorting.{insert_descending, sort_reverse, largest}
use recall_select.Semantics.Graph.{
  LensParams, Cluster, node, nth, index_from, position_pairs, picked, lens_edges, clusters_of,
  concept_clusters,
}

module _ {A : Type 0} (key : A → ℕ) where
  insert_descending-IsDescendingFrom :
      (k : ℕ) (x : A) (xs : List A)
      → key x ≤ k
      → IsDescendingFrom key k xs
      → IsDescendingFrom key k (insert_descending ltb key x xs)
  unfolding insert_descending
  insert_descending-IsDescendingFrom k x [] le h = (le, tt)
  insert_descending-IsDescendingFrom k x (y ∷ ys) le h =
      ground (arith, insert_descending-IsDescendingFrom (key y) x ys, le, h)

  insert_descending-IsDescending :
      (x : A) (xs : List A)
      → IsDescending key xs
      → IsDescending key (insert_descending ltb key x xs)
  unfolding insert_descending
  insert_descending-IsDescending x [] h = tt
  insert_descending-IsDescending x (y ∷ ys) h =
      ground (arith, insert_descending-IsDescendingFrom (key y) x ys, h)

  sort_reverse-IsDescending : (xs : List A) → IsDescending key (sort_reverse ltb key xs)
  unfolding sort_reverse
  sort_reverse-IsDescending [] = tt
  sort_reverse-IsDescending (x ∷ xs) =
      insert_descending-IsDescending x (sort_reverse ltb key xs) (sort_reverse-IsDescending xs)

module _ {A B : Type 0} (f : A → B) where
  length-map : (xs : List A) → length (map f xs) ≡ length xs
  length-map [] = refl
  length-map (x ∷ xs) = ap suc (length-map xs)

  Mem-map : (x : A) (xs : List A) → Memᴰ x xs → Memᴰ (f x) (map f xs)
  Mem-map x [] m = elim m [ ]
  Mem-map x (y ∷ ys) (Memᴰ.head e) = Memᴰ.head (ap f e)
  Mem-map x (y ∷ ys) (Memᴰ.tail m) = Memᴰ.tail (Mem-map x ys m)

module _ {F : Type 0} ⦃numbers : Numbers F⦄ where
  nth_lt :
      (points : List (Point F)) (i : ℕ)
      → i < length points
      → (p : Point F) × (nth points i ≡ some p)
  nth_lt [] i h = absurd (omega (arith, h))
  nth_lt (p ∷ ps) zero h = (p, refl)
  nth_lt (p ∷ ps) (suc i) h = nth_lt ps i (omega (arith, h))

  length-picked :
      (points : List (Point F)) (ms : List ℕ)
      → All (λ i. i < length points) ms
      → length (picked points ms) ≡ length ms
  length-picked points [] h = refl
  length-picked points (m ∷ ms) h =
      let (p, e) = nth_lt points m h.0 in ground (arith, e, length-picked points ms h.1)

  -- Large enough, with as many members as its size says, one of which stands for it.
  abbrev pub IsConcept : (min_size : ℕ) → Cluster F → Type 0
  IsConcept min_size k =
      (min_size ≤ k.size) × (length k.members ≡ k.size) × Memᴰ k.representative k.members

  clusters_of-IsConcept :
      (min_size : ℕ) (points : List (Point F)) (groups : List (ℕ × List ℕ))
      → All (λ g. All (λ i. i < length points) g.1) groups
      → All (IsConcept min_size) (clusters_of min_size points groups)
  unfolding clusters_of
  clusters_of-IsConcept min_size points [] h = tt
  clusters_of-IsConcept min_size points ((root, ms) ∷ groups) h =
      let rest = clusters_of-IsConcept min_size points groups h.1 in
      let members = picked points ms in
      let centre = centroid (map (λ p. p.vector) members) in
      let key = λ (p : Point F). cosine_to p.vector centre in
      elim (Bool-cases (ltb (length ms) min_size)) [
        | inl t ↦ rw (t, clusters_of) rest
        | inr t ↦ elim (Option-cases (largest numbers.below key members)) [
          | inl e ↦ rw (t, e, clusters_of) rest
          | inr (rep, e) ↦
              rw (t, e, clusters_of)
                (
                  (
                    ground arith,
                    length-map node members ∙ length-picked points ms h.0,
                    Mem-map node rep members (largest_lem numbers.below key rep members e),
                  ),
                  rest,
                )
        ]
      ]

-- What `lens_edges` gives, or the error.
Edges-cases : {A : Type 0} (r : Result A) → ((a : A) × (r ≡ ok a)) ⊎ ((e : Error) × (r ≡ err e))
Edges-cases (ok a) = inl (a, refl)
Edges-cases (err e) = inr (e, refl)

module _ {F : Type 0} ⦃mongo : Driver⦄ ⦃qdrant : Client F⦄ ⦃numbers : Numbers F⦄ where
  -- The concepts are listed largest first; none is smaller than asked for, each has as many members as
  -- its size says, and the memory that stands for it is one of them.
  pub concept_clusters_lem :
      (read_ts : String → Option ℕ) (normal : String → String) (user_id project_id : String)
      (lenses : List String) (params : LensParams F) (max_points min_size now : ℕ) (db : Database)
      (q : Server F) (clusters : List (Cluster F))
      → concept_clusters read_ts normal user_id project_id lenses params max_points min_size now db
          q
        ≡ ok clusters
      → IsDescending (λ k. k.size) clusters × All (IsConcept min_size) clusters
  unfolding concept_clusters
  concept_clusters_lem read_ts normal user_id project_id lenses params max_points min_size now db q
        clusters h =
      let P : Result (List (Cluster F)) → Type 0 = λ r. elim r [
        | ok cs ↦ IsDescending (λ k. k.size) cs × All (IsConcept min_size) cs
        | err e ↦ Unit {0}
      ] in
      elim (Option-cases (get_collection user_id project_id db)) [
        | inl e ↦ subst P h (rw (e, concept_clusters) (tt, tt))
        | inr (c, e) ↦
            let points = scroll_points c.name (some max_points) q in
            elim (Edges-cases (lens_edges read_ts normal lenses params now points)) [
              | inr (x, t) ↦ subst P h (rw (e, t, concept_clusters) tt)
              | inl (edges, t) ↦
                  let groups =
                    components (length points) (position_pairs (index_from 0 points []) edges) in
                  let found = clusters_of min_size points groups in
                  subst P h (
                    rw (e, t, concept_clusters)
                      (
                        sort_reverse-IsDescending (λ (k : Cluster F). k.size) found,
                        All-sort_reverse ltb (λ (k : Cluster F). k.size) (IsConcept min_size) found
                            (clusters_of-IsConcept min_size points groups (
                              components_inside (length points)
                                (position_pairs (index_from 0 points []) edges))),
                      ))
            ]
      ]
