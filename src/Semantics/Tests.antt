-- ===== src/Semantics/Tests.antt =====
-- The theorems on the lenses, the graph and its walks at concrete inputs, with natural numbers in
-- place of floats.
use recall_select.Prelude.{
  ℕ, ◌≡◌, ◌≤◌, ◌↔◌, ◌+◌, ◌-◌, ◌*◌, ◌/◌, refl, Bool, true, false, Dict, lookup, none, some, Option,
  List, [], ◌∷◌, String, arith, ltb, leb, eqb, length, count, All, IsDescending, IsAscendingFrom,
  any, ◌==◌, ◌⊎◌,
}
use recall_select.Mongo.InMemory.{in_memory}
use recall_select.Qdrant.InMemory.{in_memory as qdrant_in_memory}
use recall_select.Qdrant.Points.{Point, Relation, Server, Semantics, stamp, text, semantics}
use recall_select.Documents.{ok, err, unexpected_response, CollectionRecord, Database}
use recall_select.Collections.{new_collection}
use recall_select.Billing.History.{empty_database}
use recall_select.Store.{scroll_points, scroll_pages}
use recall_select.Semantics.Numbers.{Numbers, centroid, cosine}
use recall_select.Sorting.{sort_reverse, insert_descending}
use recall_select.Semantics.Components.{
  components, group_all, grouped, find, union, union_all, at, range_from,
}
use recall_select.Semantics.Components.Ends.{find_ends}
use recall_select.Semantics.Components.Linked.{Linked}
use recall_select.Semantics.Components.Grouped.{together}
use recall_select.Semantics.Lenses.{
  Edge, edge, sort_stamped, stamped, temporal_lens, topical_lens, topical_from, declared_lens,
  declared_edges,
}
use recall_select.Semantics.Lenses.Window.{near_pairs, time, temporal_lens_lem}
use recall_select.Semantics.Graph.{
  LensParams, Cluster, Node, index_from, position_pairs, lens_edges, clusters_of, concept_clusters,
  Graph, semantic_graph,
}
use recall_select.Semantics.Graph.Concepts.{same_concept_iff}
use recall_select.Semantics.Graph.Clusters.{concept_clusters_lem, IsConcept}
use recall_select.Semantics.Activation.{Activated, by_graph, first_frontier, spreading_activation}
use recall_select.Semantics.Activation.Answers.{IsConnected, spreading_activation_lem}
use recall_select.Semantics.Inference.{infer_relation}
use recall_select.Semantics.Inference.Kinds.{IsInferred}
use recall_select.Semantics.Inference.Sources.{infer_relation_lem}

instance numbers : Numbers ℕ
numbers = record {
  plus = λ a b. a + b;
  minus = λ a b. a - b;
  times = λ a b. a * b;
  over = λ a b. a / b;
  root = λ a. a;
  absolute = λ a. a;
  below = ltb;
  at_most = leb;
  equal = eqb;
  ratio = λ a b. a / b;
}

abbrev part_of : Relation ℕ
part_of = record {
  target = "m2";
  type = "part_of";
  layer = "declared";
  directed = true;
  weight = 2;
  confidence = 1;
  valid_till = some 50;
  evidence = none;
  declared_at = 0;
}

abbrev kept_at : ℕ → List (Relation ℕ) → Semantics ℕ
kept_at t relations = record { notes = ("stored_at", stamp t) ∷ []; relations = relations }

abbrev memory_1 : Point ℕ
memory_1 = record {
  id = "m1";
  vector = 1 ∷ [];
  payload = ("text", text "tea") ∷ ("_semantics", semantics (kept_at 5 (part_of ∷ []))) ∷ [];
}

abbrev memory_2 : Point ℕ
memory_2 = record {
  id = "m2";
  vector = 1 ∷ [];
  payload = ("text", text "milk") ∷ ("_semantics", semantics (kept_at 3 [])) ∷ [];
}

abbrev memories : List (Point ℕ)
memories = memory_1 ∷ memory_2 ∷ []

abbrev shelf : CollectionRecord
shelf = new_collection "u1" "p1" 5

abbrev shelved : Database
shelved = record empty_database { collections = shelf ∷ [] }

abbrev server : Server ℕ
server = (shelf.name, memories) ∷ []

abbrev no_ts : String → Option ℕ
no_ts value = none

abbrev same_text : String → String
same_text value = value

abbrev links_1_2 : List (Edge ℕ)
links_1_2 = edge "m1" "m2" "topical" "topical" 1 ∷ []

same_concept_iff_example :
    let pairs = position_pairs (index_from 0 memories []) links_1_2 in
    (together 0 1 (components (length memories) pairs) ≡ true) ↔ Linked pairs 0 1
same_concept_iff_example = same_concept_iff memories links_1_2 0 1 (omega arith) (omega arith)

abbrev params : LensParams ℕ
params = record { min_score = 1; window_seconds = 1 }

abbrev node_1 : Node ℕ
node_1 = record { id = "m1"; text = text "tea" }

abbrev node_2 : Node ℕ
node_2 = record { id = "m2"; text = text "milk" }

abbrev clusters : List (Cluster ℕ)
clusters = record { representative = node_1; size = 2; members = node_1 ∷ node_2 ∷ [] } ∷ []

concept_clusters_lem_example :
    IsDescending (λ (k : Cluster ℕ). k.size) clusters × All (IsConcept 2) clusters
unfolding concept_clusters lens_edges sort_reverse insert_descending clusters_of centroid cosine
    numbers topical_lens topical_from components group_all grouped find union union_all
    scroll_points scroll_pages
concept_clusters_lem_example =
    concept_clusters_lem no_ts same_text "u1" "p1" ("topical" ∷ []) params 500 2 9 shelved server
      clusters refl

temporal_lens_lem_example :
    let timeline = sort_stamped (stamped no_ts memories) in
    (temporal_lens no_ts 1 memories ≡ near_pairs 1 timeline)
    × IsAscendingFrom time 0 timeline
    × (count (λ (s : ℕ × Point ℕ). true) timeline
        ≡ count (λ (s : ℕ × Point ℕ). true) (stamped no_ts memories))
temporal_lens_lem_example = temporal_lens_lem 1 no_ts memories (λ s. true)

abbrev part_of_edge : Edge ℕ
part_of_edge = record (edge "m1" "m2" "part_of" "declared" 2) {
  directed = true;
  confidence = some 1;
  valid_till = some 50;
}

abbrev graph : Graph ℕ
graph = record { nodes = node_1 ∷ node_2 ∷ []; edges = part_of_edge ∷ [] }

abbrev embed : String → List ℕ
embed content = 1 ∷ []

spreading_activation_lem_example :
    let outcome =
      (spreading_activation no_ts same_text "u1" "p1" "m1"
        ("declared" ∷ [])
        params
        []
        2
        10
        5
        1
        1
        500
        embed
        9
        shelved
        server) in
    ((◌≡◌ {A = Bool} true false)
      × (lookup shelf.name server ≡ none)
      × (outcome ≡ err unexpected_response))
    ⊎ ((frontier : Dict ℕ) × (first_frontier true shelf.name "m1" embed 5 1 server ≡ some frontier)
        × (found : List (Activated ℕ)) × (outcome ≡ ok (by_graph found))
        × (length found ≤ 10)
        × All (λ a. IsConnected [] graph.edges 2 frontier a.id) found
        × ((any (λ a. a.id == "m2") found ≡ true)
            ⊎ ((length found ≡ 10) ⊎ ¬ IsConnected [] graph.edges 2 frontier "m2")))
unfolding semantic_graph lens_edges declared_lens declared_edges sort_reverse insert_descending
    numbers scroll_points scroll_pages
spreading_activation_lem_example =
    spreading_activation_lem no_ts same_text "u1" "p1" "m1" ("declared" ∷ []) params [] 2 10 5 1 1
      500 embed 9 shelved server shelf graph "m2" refl refl refl

infer_relation_lem_example :
    IsInferred "m1" "m2" memory_1 memory_2
      (scroll_points shelf.name (some 500) server)
      9
      (infer_relation "u1" "p1" "m1" "m2" 500 9 shelved server)
infer_relation_lem_example =
    infer_relation_lem "u1" "p1" "m1" "m2" 500 9 shelved server shelf memory_1 memory_2 refl refl
      refl

find_ends_example :
    let parent = union_all 3 ((0, 1) ∷ (1, 2) ∷ []) (range_from 0 3) in
    let root = (find 3 0 parent).0 in (at parent root ≡ root) × ((find (3 + 4) 0 parent).0 ≡ root)
find_ends_example =
    find_ends 3 0 4 ((0, 1) ∷ (1, 2) ∷ [])
      ((omega arith, omega arith), ((omega arith, omega arith), tt))
