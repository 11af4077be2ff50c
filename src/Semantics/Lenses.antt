-- ===== src/Semantics/Lenses.antt =====
-- The lenses of app/services/vector_semantics.py, which derive edges from a set of points. The
-- reading of a timestamp, `read_ts`, and the normal form of an entity, `normal`, which strips blanks
-- and lowers letters, are parameters.
pub mod Window
use recall_select.Prelude.{
  ℕ, zero, suc, ◌+◌, ◌-◌, ◌*◌, Bool, true, false, not, if◌then◌else◌, Option, none, some, List, [],
  ◌∷◌, ◌++◌, String, ◌==◌, Dict, lookup, ltb, leb, map,
}
use Prim.Native.String.{◌++◌ as ◌^◌}
use recall_select.Qdrant.Points.{Relation, Json, note, stamp, texts, json, Semantics, Point}
use recall_select.Semantics.{point_semantics, expired}
use recall_select.Semantics.Relations.{grouped}
use recall_select.Semantics.Numbers.{Numbers, cosine, of_ℕ}

pub record Edge (F : Type 0) : Type 0 where
  pub source : String
  pub target : String
  pub type : String
  pub layer : String
  pub directed : Bool
  pub weight : F
  pub evidence : Option String
  -- Of declared edges only.
  pub confidence : Option F
  pub valid_till : Option ℕ

module _ {F : Type 0} where
  -- `_edge`, with its defaults.
  abbrev pub edge : (source target type layer : String) → F → Edge F
  edge source target type layer weight = record {
    source = source;
    target = target;
    type = type;
    layer = layer;
    directed = false;
    weight = weight;
    evidence = none;
    confidence = none;
    valid_till = none;
  }

module _ {F : Type 0} ⦃numbers : Numbers F⦄ where
  unfoldable pub topical_from : F → Point F → List (Point F) → List (Edge F)
  topical_from min_score p [] = []
  topical_from min_score p (r ∷ rs) =
      let score = cosine p.vector r.vector in
      let rest = topical_from min_score p rs in
      if numbers.at_most min_score score
      then edge p.id r.id "topical" "topical" score ∷ rest
      else rest

  -- An edge for each pair of points that is close enough.
  unfoldable pub topical_lens : F → List (Point F) → List (Edge F)
  topical_lens min_score [] = []
  topical_lens min_score (p ∷ ps) = topical_from min_score p ps ++ topical_lens min_score ps

-- A text that is no timestamp, or another value, gives none.
abbrev pub stored_at : {F : Type 0} (read_ts : String → Option ℕ) → Point F → Option ℕ
stored_at read_ts p = elim (lookup "stored_at" (point_semantics p).notes) [
  | none ↦ none
  | some (stamp t) ↦ some t
  | some (note s) ↦ read_ts s
  | some (texts ts) ↦ none
  | some (json j) ↦ read_ts j
]

module _ {F : Type 0} where
  unfoldable pub stamped : (String → Option ℕ) → List (Point F) → List (ℕ × Point F)
  stamped read_ts [] = []
  stamped read_ts (p ∷ ps) = elim (stored_at read_ts p) [
    | none ↦ stamped read_ts ps
    | some t ↦ (t, p) ∷ stamped read_ts ps
  ]

  -- `sort` by the timestamps leaves points of one time in their order.
  unfoldable pub insert_stamped : ℕ × Point F → List (ℕ × Point F) → List (ℕ × Point F)
  insert_stamped (t, p) [] = (t, p) ∷ []
  insert_stamped (t, p) ((u, r) ∷ rest) =
      if ltb u t then (u, r) ∷ insert_stamped (t, p) rest else (t, p) ∷ (u, r) ∷ rest

  unfoldable pub sort_stamped : List (ℕ × Point F) → List (ℕ × Point F)
  sort_stamped [] = []
  sort_stamped (s ∷ rest) = insert_stamped s (sort_stamped rest)

module _ {F : Type 0} ⦃numbers : Numbers F⦄ where
  -- `max(1.0 - gap / window_seconds, 1e-6)`, with the gap in microseconds.
  abbrev pub closeness : (gap window : ℕ) → F
  closeness gap window =
      let w = numbers.minus (of_ℕ 1) (numbers.over (numbers.ratio gap 1_000_000) (of_ℕ window)) in
      let least = numbers.ratio 1 1_000_000 in if numbers.below w least then least else w

  abbrev pub precedes : (window : ℕ) → ℕ × Point F → ℕ × Point F → Edge F
  precedes window (t, p) (u, r) =
      record (edge p.id r.id "precedes" "temporal" (closeness (u - t) window)) { directed = true }

  -- The points that follow: the loop stops at the first one past the window, of so many seconds.
  unfoldable pub following : (window : ℕ) → ℕ × Point F → List (ℕ × Point F) → List (Edge F)
  following window s [] = []
  following window s (r ∷ rs) =
      let rest = following window s rs in
      if ltb (window * 1_000_000) (r.0 - s.0) then [] else precedes window s r ∷ rest

  unfoldable pub precedences : (window : ℕ) → List (ℕ × Point F) → List (Edge F)
  precedences window [] = []
  precedences window (s ∷ rest) = following window s rest ++ precedences window rest

  -- The window must not be 0, by which the code would divide.
  unfoldable pub temporal_lens :
      (read_ts : String → Option ℕ) (window : ℕ) → List (Point F) → List (Edge F)
  temporal_lens read_ts window points = precedences window (sort_stamped (stamped read_ts points))

  -- A list of texts; another value has no entities here.
  abbrev pub entities_of : Point F → List String
  entities_of p = elim (lookup "entities" (point_semantics p).notes) [
    | some (texts ts) ↦ ts
    | _ ↦ []
  ]

  abbrev pub mention :
      (normal : String → String)
      → Point F
      → List String
      → Dict (List (Point F))
      → Dict (List (Point F))
  mention normal p [] by_entity = by_entity
  mention normal p (e ∷ es) by_entity = mention normal p es (grouped (normal e) p by_entity)

  unfoldable pub by_entity :
      (normal : String → String) → List (Point F) → Dict (List (Point F)) → Dict (List (Point F))
  by_entity normal [] groups = groups
  by_entity normal (p ∷ ps) groups = by_entity normal ps (mention normal p (entities_of p) groups)

  abbrev pub entity_from : String → Point F → List (Point F) → List (Edge F)
  entity_from entity p [] = []
  entity_from entity p (r ∷ rs) =
      edge p.id r.id ("same_entity:" ^ entity) "entity" (of_ℕ 1) ∷ entity_from entity p rs

  abbrev pub entity_pairs : String → List (Point F) → List (Edge F)
  entity_pairs entity [] = []
  entity_pairs entity (p ∷ ps) = entity_from entity p ps ++ entity_pairs entity ps

  abbrev pub entity_edges : Dict (List (Point F)) → List (Edge F)
  entity_edges [] = []
  entity_edges ((entity, members) ∷ groups) = entity_pairs entity members ++ entity_edges groups

  unfoldable pub entity_lens : (normal : String → String) → List (Point F) → List (Edge F)
  entity_lens normal points = entity_edges (by_entity normal points [])

  -- A declared relation as an edge, with its hedges.
  abbrev pub declared_edge : String → Relation F → Edge F
  declared_edge source e = record {
    source = source;
    target = e.target;
    type = e.type;
    layer = e.layer;
    directed = e.directed;
    weight = numbers.times e.weight e.confidence;
    evidence = e.evidence;
    confidence = some e.confidence;
    valid_till = e.valid_till;
  }

  unfoldable pub declared_edges : ℕ → String → List (Relation F) → List (Edge F)
  declared_edges now source [] = []
  declared_edges now source (e ∷ es) =
      let rest = declared_edges now source es in
      if expired now e then rest else declared_edge source e ∷ rest

  unfoldable pub declared_lens : ℕ → List (Point F) → List (Edge F)
  declared_lens now [] = []
  declared_lens now (p ∷ ps) =
      declared_edges now p.id (point_semantics p).relations ++ declared_lens now ps
