-- ===== src/Semantics/Relations.antt =====
-- The declaration and the removal of relations.
use recall_select.Prelude.{
  ℕ, ◌+◌, ◌-◌, Bool, true, not, ◌&&◌, ◌||◌, if◌then◌else◌, Option, none, some, List, [], ◌∷◌, ◌++◌,
  String, ◌==◌, Dict, lookup, insert, length, any, get_or, eqb, map,
}
use recall_select.Mongo.{Driver}
use recall_select.Mongo.Query.{filter}
use recall_select.Documents.{Database}
use recall_select.Collections.{get_collection}
use recall_select.Qdrant.{Client}
use recall_select.Qdrant.Points.{Relation, Point, Server}
use recall_select.Store.{retrieve_points, set_payload}
use recall_select.Semantics.{semantics_of, no_semantics, with_relations}

-- A relation as a client gives it: a key that is missing, or `None`, is `none`. The texts are what
-- `str` makes of the values, and an empty one counts as missing. `valid_till`, where it is there, is
-- what `_parse_ts` makes of it.
pub record Candidate (F : Type 0) : Type 0 where
  pub source : Option String
  pub target : Option String
  pub type : Option String
  pub layer : Option String
  pub directed : Option Bool
  pub weight : Option F
  pub confidence : Option F
  pub valid_till : Option (Option ℕ)
  pub evidence : Option String

pub record Selector : Type 0 where
  pub source : Option String
  pub target : Option String
  pub type : Option String

-- Why a relation is rejected.
pub data Reason : Type 0 where
  no_memory_store field_required self_relation unknown_memory : Reason
  weight_range confidence_range timestamp_format : Reason

abbrev pub given : Option String → String
given value = get_or value ""

abbrev pub named : Option String → List String
named none = []
named (some i) = i ∷ []

-- What becomes of a candidate.
pub data Verdict (F : Type 0) : Type 0 where
  accepted : String → Relation F → Verdict F
  rejected : Reason → Verdict F

-- The groups of a batch by source, in the order of their first edges: `setdefault(k, []).append(v)`.
abbrev pub grouped : {A : Type 0} → String → A → Dict (List A) → Dict (List A)
grouped k v d = insert k (get_or (lookup k d) [] ++ (v ∷ [])) d

-- The selectors of an unknown source are rejected one by one.
abbrev pub unknown_source : String → String × Option String → Selector × Reason
unknown_source source w =
    (record { source = some source; target = some w.0; type = w.1 }, unknown_memory)

module _ {F : Type 0} where
  -- The dict by (target, type): an edge takes the place of the one with its key.
  abbrev pub is_same_edge : Relation F → Relation F → Bool
  is_same_edge a b = a.target == b.target && a.type == b.type

  abbrev pub declare : Relation F → List (Relation F) → List (Relation F)
  declare e [] = e ∷ []
  declare e (k ∷ kept) = if is_same_edge e k then e ∷ kept else k ∷ declare e kept

  abbrev pub declare_all : List (Relation F) → List (Relation F) → List (Relation F)
  declare_all [] kept = kept
  declare_all (e ∷ edges) kept = declare_all edges (declare e kept)

  -- What the stored edges and the new ones make: the stored ones go through the dict too.
  abbrev pub updated : List (Relation F) → List (Relation F) → List (Relation F)
  updated stored edges = declare_all edges (declare_all stored [])

  -- The identifiers that a batch names; their order and repetition say nothing to a retrieval.
  abbrev pub endpoints : List (Candidate F) → List String
  endpoints [] = []
  endpoints (r ∷ rs) = named r.source ++ (named r.target ++ endpoints rs)

  abbrev pub is_existing : List (Point F) → String → Bool
  is_existing existing i = any (λ p. p.id == i) existing

  abbrev pub selected : List (String × Option String) → Relation F → Bool
  selected wanted e =
      any (λ w. e.target == w.0 && elim w.1 [ none ↦ true | some type ↦ e.type == type ]) wanted

-- `one` is 1.0, and `in_range` is the test `0.0 < x <= 1.0`.
module _ {F : Type 0} (one : F) (in_range : F → Bool) where
  unfoldable pub verdict : List (Point F) → ℕ → Candidate F → Verdict F
  verdict existing now r =
      let source = given r.source in
      let target = given r.target in
      let type = given r.type in
      let weight = get_or r.weight one in
      let confidence = get_or r.confidence one in
      let edge : Option ℕ → Verdict F = λ till. accepted source (record {
        target = target;
        type = type;
        layer = get_or r.layer "declared";
        directed = get_or r.directed true;
        weight = weight;
        confidence = confidence;
        valid_till = till;
        evidence = r.evidence;
        declared_at = now;
      }) in
      if source == "" || target == "" || type == ""
      then rejected field_required
      else if source == target
      then rejected self_relation
      else if not (is_existing existing source) || not (is_existing existing target)
      then rejected unknown_memory
      else if not (in_range weight)
      then rejected weight_range
      else if not (in_range confidence)
      then rejected confidence_range
      else elim r.valid_till [
        | none ↦ edge none
        | some none ↦ rejected timestamp_format
        | some (some till) ↦ edge (some till)
      ]

  -- The loop over the batch: the accepted edges by source, and the rejections.
  unfoldable pub validated :
      List (Point F)
      → ℕ
      → List (Candidate F)
      → Dict (List (Relation F))
      → Dict (List (Relation F)) × List (Candidate F × Reason)
  validated existing now [] by_source = (by_source, [])
  validated existing now (r ∷ rs) by_source = elim (verdict existing now r) [
    | accepted source edge ↦ validated existing now rs (grouped source edge by_source)
    | rejected reason ↦
        let (groups, rejections) = validated existing now rs by_source in
        (groups, (r, reason) ∷ rejections)
  ]

module _ {F : Type 0} ⦃qdrant : Client F⦄ where
  -- One source: its edges are updated, and counted whether or not the write found the point.
  unfoldable pub store_edges : String → String → List (Relation F) → Server F → Server F
  store_edges name source edges q =
      let s = get_or (semantics_of name source q) no_semantics in
      (set_payload name source (with_relations (updated s.relations edges) s) q).1

  unfoldable pub store_groups : String → Dict (List (Relation F)) → Server F → ℕ × Server F
  store_groups name [] q = (0, q)
  store_groups name ((source, edges) ∷ groups) q =
      let (n, q') = store_groups name groups (store_edges name source edges q) in
      (length edges + n, q')

  -- What is removed from one source, or `none` where there is no such memory.
  unfoldable pub remove_edges :
      String → String → List (String × Option String) → Server F → Option (ℕ × Server F)
  remove_edges name source wanted q = elim (semantics_of name source q) [
    | none ↦ none
    | some s ↦
        let left = filter (λ e. not (selected wanted e)) s.relations in
        if eqb (length left) (length s.relations)
        then some (0, q)
        else some (
          length s.relations - length left,
          (set_payload name source (with_relations left s) q).1,
        )
  ]

  unfoldable pub remove_groups :
      String
      → Dict (List (String × Option String))
      → Server F
      → (ℕ × List (Selector × Reason)) × Server F
  remove_groups name [] q = ((0, []), q)
  remove_groups name ((source, wanted) ∷ groups) q = elim (remove_edges name source wanted q) [
    | none ↦
        let ((n, rejections), q') = remove_groups name groups q in
        ((n, map (unknown_source source) wanted ++ rejections), q')
    | some (m, q₁) ↦
        let ((n, rejections), q') = remove_groups name groups q₁ in ((m + n, rejections), q')
  ]

-- The loop over the selectors: what is wanted of each source, and the rejections.
unfoldable pub sorted_selectors :
    List Selector
    → Dict (List (String × Option String))
    → Dict (List (String × Option String)) × List (Selector × Reason)
sorted_selectors [] by_source = (by_source, [])
sorted_selectors (sel ∷ sels) by_source =
    let source = given sel.source in
    let target = given sel.target in
    let type = if given sel.type == "" then none else sel.type in
    if source == "" || target == ""
    then (let (groups, rejections) = sorted_selectors sels by_source in
        (groups, (sel, field_required) ∷ rejections))
    else sorted_selectors sels (grouped source (target, type) by_source)

module _ {F : Type 0} ⦃mongo : Driver⦄ ⦃qdrant : Client F⦄ where
  unfoldable pub remove_relations :
      (user_id project_id : String)
      → List Selector
      → Database
      → Server F
      → (ℕ × List (Selector × Reason)) × Server F
  remove_relations user_id project_id selectors db q = elim (get_collection user_id project_id db) [
    | none ↦ ((0, map (λ s. (s, no_memory_store)) selectors), q)
    | some c ↦
        let (by_source, early) = sorted_selectors selectors [] in
        let ((n, late), q') = remove_groups c.name by_source q in ((n, early ++ late), q')
  ]

module _ {F : Type 0} ⦃mongo : Driver⦄ ⦃qdrant : Client F⦄ (one : F) (in_range : F → Bool) where
  -- The number stored, the rejections, and the server.
  unfoldable pub upsert_relations :
      (user_id project_id : String)
      → List (Candidate F)
      → ℕ
      → Database
      → Server F
      → (ℕ × List (Candidate F × Reason)) × Server F
  upsert_relations user_id project_id relations now db q =
      elim (get_collection user_id project_id db) [
        | none ↦ ((0, map (λ r. (r, no_memory_store)) relations), q)
        | some c ↦
            let existing = retrieve_points c.name (endpoints relations) q in
            let (by_source, rejections) = validated one in_range existing now relations [] in
            let (stored, q') = store_groups c.name by_source q in ((stored, rejections), q')
      ]
