-- ===== src/Semantics/Activation/Answers.antt =====
-- What `spreading_activation` answers with over a graph.
use recall_select.Prelude.{
  ℕ, zero, suc, ◌≤◌, ◌<◌, ◌≡◌, ◌⊎◌, inl, inr, refl, ap, ◌∙◌, Bool, true, false, ◌||◌, Option, none,
  some, Option-cases, lookup, List, [], ◌∷◌, String, ◌==◌, Dict, take, length, count, any, ltb, All,
  All-map, take-All, length-take-le, Bool-cases, arith, eq_refl,
}
use recall_select.Mongo.{Driver}
use recall_select.Documents.{CollectionRecord, Database, ok, err, unexpected_response}
use recall_select.Collections.{get_collection}
use recall_select.Qdrant.{Client}
use recall_select.Qdrant.Points.{Value, Server}
use recall_select.Store.{search}
use recall_select.Sorting.{sort_reverse}
use recall_select.Sorting.Elements.{All-sort_reverse, count-sort_reverse}
use recall_select.Semantics.Numbers.{Numbers}
use recall_select.Semantics.Lenses.{Edge}
use recall_select.Semantics.Graph.{LensParams, Graph, semantic_graph}
use recall_select.Semantics.Activation.{
  Activated, by_graph, adjacency_from, spread_hops, with_texts, node_texts, ranked, first_frontier,
  is_topical, spreading_activation,
}
use recall_select.Semantics.Activation.Hops.{has, Walk}
use recall_select.Semantics.Activation.Reached.{links, activated_lem}

module _ {V : Type 0} where
  keys_held : (d : Dict V) → All (λ e. has e.0 d ≡ true) d
  keys_held [] = tt
  keys_held ((j, v) ∷ d) =
      (ground (arith, eq_refl j), All-map (λ e h. ground (arith, h)) d (keys_held d))

  count_of_has : (k : String) (d : Dict V) → has k d ≡ true → 1 ≤ count (λ e. e.0 == k) d
  count_of_has k [] h = absurd (cc)
  count_of_has k ((j, v) ∷ d) h = ground (arith, h, count_of_has k d)

module _ {A : Type 0} where
  any_of_count : (f : A → Bool) (xs : List A) → 1 ≤ count f xs → any f xs ≡ true
  any_of_count f [] h = absurd (omega (arith, h))
  any_of_count f (x ∷ xs) h = ground (arith, h, any_of_count f xs)

  short_take : (n : ℕ) (xs : List A) → length (take n xs) < n → take n xs ≡ xs
  short_take zero xs h = absurd (omega (arith, h))
  short_take (suc n) [] h = refl
  short_take (suc n) (x ∷ xs) h = ap (λ ys. x ∷ ys) (short_take n xs (omega (arith, h)))

module _ {F : Type 0} ⦃numbers : Numbers F⦄ where
  length-with_texts :
      (texts : Dict (Value F)) (es : List (String × F)) → length (with_texts texts es) ≡ length es
  length-with_texts texts [] = refl
  length-with_texts texts ((k, v) ∷ es) = ap suc (length-with_texts texts es)

  All-with_texts :
      (P : String → Type 0) (texts : Dict (Value F)) (es : List (String × F))
      → All (λ e. P e.0) es
      → All (λ a. P a.id) (with_texts texts es)
  All-with_texts P texts [] h = tt
  All-with_texts P texts ((k, v) ∷ es) h = (h.0, All-with_texts P texts es h.1)

  any-with_texts :
      (k : String) (texts : Dict (Value F)) (es : List (String × F))
      → any (λ a. a.id == k) (with_texts texts es) ≡ any (λ e. e.0 == k) es
  any-with_texts k texts [] = refl
  any-with_texts k texts ((j, v) ∷ es) = ap (λ b. (j == k) || b) (any-with_texts k texts es)

  -- A walk of at most so many hops leads to the memory from one of the frontier.
  abbrev pub IsConnected :
      (weights : Dict F) (edges : List (Edge F)) (hops : ℕ) (frontier : Dict F) (k : String)
      → Type 0
  IsConnected weights edges hops frontier k =
      (seed : String) × (n : ℕ) × (has seed frontier ≡ true)
      × (n ≤ hops)
      × Walk (links weights edges) n seed k

  -- The best of the activated, with their texts.
  module _ (weights : Dict F) (decay : F) (edges : List (Edge F)) (hops limit : ℕ)
      (frontier : Dict F) (texts : Dict (Value F)) where
    abbrev activated : Dict F
    activated = spread_hops decay (adjacency_from weights edges []) hops frontier frontier

    abbrev answer : List (Activated F)
    answer = with_texts texts (ranked limit activated)

    answer-le : length answer ≤ limit
    answer-le =
        let key = λ (e : String × F). e.1 in
        let sorted = sort_reverse numbers.below key activated in
        omega (arith, length-with_texts texts (take limit sorted), length-take-le limit sorted)

    answer-IsConnected : All (λ a. IsConnected weights edges hops frontier a.id) answer
    answer-IsConnected =
        let key = λ (e : String × F). e.1 in
        let P = λ (k : String). IsConnected weights edges hops frontier k in
        let sound = λ (e : String × F) (h : has e.0 activated ≡ true).
          (activated_lem weights decay edges hops frontier e.0).0 h in
        All-with_texts P texts (ranked limit activated) (
          take-All (λ e. P e.0) limit (sort_reverse numbers.below key activated)
            (All-sort_reverse numbers.below key (λ e. P e.0) activated
              (All-map sound activated (keys_held activated))))

    answer_complete :
        (k : String)
        → (any (λ a. a.id == k) answer ≡ true)
          ⊎ ((length answer ≡ limit) ⊎ ¬ IsConnected weights edges hops frontier k)
    answer_complete k =
        let key = λ (e : String × F). e.1 in
        let sorted = sort_reverse numbers.below key activated in
        let is_k = λ (e : String × F). e.0 == k in
        let sized = length-with_texts texts (take limit sorted) in
        elim (Bool-cases (has k activated)) [
          | inr h ↦ inr (
              inr (λ c.
                let reached = (activated_lem weights decay edges hops frontier k).1 c in
                ground (arith, h, reached)))
          | inl h ↦ elim (Bool-cases (ltb (length (take limit sorted)) limit)) [
            | inr full ↦ inr (inl (ground (arith, sized, length-take-le limit sorted)))
            | inl short ↦
                let whole = short_take limit sorted (ground (arith, short)) in
                let there : 1 ≤ count is_k sorted = omega (
                  arith,
                  count-sort_reverse numbers.below key is_k activated,
                  count_of_has k activated h,
                ) in
                inl (
                  any-with_texts k texts (take limit sorted)
                  ∙ ap (any is_k) whole
                  ∙ any_of_count is_k sorted there)
          ]
        ]

module _ {F : Type 0} ⦃mongo : Driver⦄ ⦃qdrant : Client F⦄ ⦃numbers : Numbers F⦄ where
  -- The walk has no start only where the seed is a text and Qdrant does not have the collection.
  first_frontier-none :
      (known : Bool) (name seed : String) (embed : String → List F) (fanout : ℕ) (min_score : F)
      (q : Server F)
      → first_frontier known name seed embed fanout min_score q ≡ none
      → (known ≡ false) × (lookup name q ≡ none)
  first_frontier-none true name seed embed fanout min_score q f = cc
  first_frontier-none false name seed embed fanout min_score q f =
      let answers = qdrant.query_answers name (embed seed) fanout q in
      elim (Option-cases (search name (embed seed) fanout q)) [
        | inl e ↦ (refl, ground (arith, e, answers))
        | inr (hits, e) ↦ absurd (ground (arith, e, f))
      ]

  -- Where the seed is no memory of the graph and Qdrant does not have the collection, the call
  -- raises. Else over a graph the answer is at most as long as asked for, and each of its memories is connected: a
  -- walk of at most so many hops along conducting edges of the graph leads to it from the seed, or
  -- from a memory close to the seed's text. A memory that is not in it is not connected, or the
  -- answer is full.
  pub spreading_activation_lem :
      (read_ts : String → Option ℕ) (normal : String → String) (user_id project_id seed : String)
      (lenses : List String) (params : LensParams F) (layer_weights : Dict F)
      (hops limit fanout : ℕ) (min_score decay : F) (max_points : ℕ) (embed : String → List F)
      (now : ℕ) (db : Database) (q : Server F) (c : CollectionRecord) (g : Graph F) (k : String)
      → get_collection user_id project_id db ≡ some c
      → is_topical lenses ≡ false
      → semantic_graph read_ts normal user_id project_id lenses params max_points now db q ≡ ok g
      → let known = any (λ n. n.id == seed) g.nodes in
        let outcome =
          spreading_activation read_ts normal user_id project_id seed lenses params layer_weights
            hops limit fanout min_score decay max_points embed now db q in
        ((known ≡ false) × (lookup c.name q ≡ none) × (outcome ≡ err unexpected_response))
        ⊎ ((frontier : Dict F) × (first_frontier known c.name seed embed fanout min_score q
              ≡ some frontier)
            × (found : List (Activated F)) × (outcome ≡ ok (by_graph found))
            × (length found ≤ limit)
            × All (λ a. IsConnected layer_weights g.edges hops frontier a.id) found
            × ((any (λ a. a.id == k) found ≡ true)
                ⊎ ((length found ≡ limit) ⊎ ¬ IsConnected layer_weights g.edges hops frontier k)))
  unfolding spreading_activation
  spreading_activation_lem read_ts normal user_id project_id seed lenses params layer_weights hops
        limit fanout min_score decay max_points embed now db q c g k e t s =
      let known = any (λ n. n.id == seed) g.nodes in
      let texts = node_texts g.nodes [] in
      elim (Option-cases (first_frontier known c.name seed embed fanout min_score q)) [
        | inl f ↦
            let (unknown, missing) =
              first_frontier-none known c.name seed embed fanout min_score q f in
            inl (unknown, missing, rw (e, t, s, f, spreading_activation) refl)
        | inr (frontier, f) ↦ inr (
          frontier,
          f,
          answer layer_weights decay g.edges hops limit frontier texts,
          rw (e, t, s, f, spreading_activation) refl,
          answer-le layer_weights decay g.edges hops limit frontier texts,
          answer-IsConnected layer_weights decay g.edges hops limit frontier texts,
          answer_complete layer_weights decay g.edges hops limit frontier texts k,
        )
      ]
