-- ===== src/Semantics.antt =====
-- The part of app/services/vector_semantics.py that keeps the `_semantics` documents of the stored
-- memories: their anchors, annotations and declared relations. A timestamp is read to an instant by
-- the caller of a definition, and `none` is a text that is no ISO 8601 timestamp.
pub mod Relations
pub mod Declared
pub mod Components
pub mod Numbers
pub mod Lenses
pub mod Graph
pub mod Activation
pub mod Inference
pub mod Tests
use recall_select.Prelude.{
  ℕ, zero, suc, ◌+◌, ◌-◌, Bool, true, false, not, ◌&&◌, ◌||◌, if◌then◌else◌, Option, none, some,
  List, [], ◌∷◌, ◌++◌, String, ◌==◌, Dict, lookup, insert, length, any, is_some, get_or, eqb, leb,
  map, take,
}
use recall_select.Mongo.{Driver}
use recall_select.Mongo.Query.{filter}
use recall_select.Documents.{Database, Result, ok, err, value_error, unexpected_response}
use recall_select.Collections.{get_collection}
use recall_select.Qdrant.{Client}
use recall_select.Qdrant.Points.{
  Relation, Json, note, stamp, Semantics, Value, semantics, Point, Hit, Server, merge,
}
use recall_select.Store.{retrieve_points, set_payload, scroll_points, neighbors}

abbrev pub semantics_key : String
semantics_key = "_semantics"

abbrev pub default_max_points : ℕ
default_max_points = 500

module _ {F : Type 0} where
  abbrev pub no_semantics : Semantics F
  no_semantics = record { notes = []; relations = [] }

  -- The fragment that every memory carries from the moment it is stored.
  abbrev pub annotate_store_payload : String → ℕ → Dict (Value F)
  annotate_store_payload user_id now =
      let anchors : Semantics F = record no_semantics {
        notes = ("owner", note user_id) ∷ ("stored_at", stamp now) ∷ [];
      } in
      (semantics_key, semantics anchors) ∷ []

  -- `(payload or {}).get("_semantics") or {}`: anything but a `_semantics` document is no document.
  abbrev pub read_semantics : Option (Value F) → Semantics F
  read_semantics (some (semantics s)) = s
  read_semantics _ = no_semantics

  abbrev pub point_semantics : Point F → Semantics F
  point_semantics p = read_semantics (lookup semantics_key p.payload)

  abbrev pub first_semantics : List (Point F) → Option (Semantics F)
  first_semantics [] = none
  first_semantics (p ∷ ps) = some (point_semantics p)

  -- An edge past its `valid_till`.
  abbrev pub expired : ℕ → Relation F → Bool
  expired now e = elim e.valid_till [ none ↦ false | some till ↦ leb till now ]

  -- `current.update(annotations)`
  abbrev pub noted : Dict Json → Semantics F → Semantics F
  noted [] s = s
  noted ((k, v) ∷ more) s = noted more (record s { notes = insert k v s.notes })

  abbrev pub with_relations : List (Relation F) → Semantics F → Dict (Value F)
  with_relations edges s = (semantics_key, semantics (record s { relations = edges })) ∷ []

module _ {F : Type 0} ⦃qdrant : Client F⦄ where
  unfoldable pub semantics_of : String → String → Server F → Option (Semantics F)
  semantics_of collection point_id q =
      first_semantics (retrieve_points collection (point_id ∷ []) q)

module _ {F : Type 0} ⦃mongo : Driver⦄ ⦃qdrant : Client F⦄ where
  -- Annotations may name any key but `relations`.
  unfoldable pub annotate_memory :
      (user_id project_id memory_id : String)
      → Dict Json
      → Database
      → Server F
      → Result (Bool × Server F)
  annotate_memory user_id project_id memory_id annotations db q =
      elim (get_collection user_id project_id db) [
        | none ↦ ok (false, q)
        | some c ↦
            if is_some (lookup "relations" annotations)
            then err value_error
            else elim (semantics_of c.name memory_id q) [
              | none ↦ ok (false, q)
              | some current ↦ ok (
                  set_payload c.name memory_id
                    ((semantics_key, semantics (noted annotations current)) ∷ []) q)
            ]
      ]

-- The edges of a document that do not point at the memory.
module _ {F : Type 0} where
  abbrev pub kept : String → List (Relation F) → List (Relation F)
  kept memory_id edges = filter (λ e. not (e.target == memory_id)) edges

module _ {F : Type 0} ⦃qdrant : Client F⦄ where
  -- One step of the loop of `prune_relations_to`: the points pruned, and the server.
  unfoldable pub prune_point : String → String → Point F → Server F → ℕ × Server F
  prune_point name memory_id p q =
      let s = point_semantics p in
      let left = kept memory_id s.relations in
      if eqb (length left) (length s.relations)
      then (0, q)
      else (length s.relations - length left, (set_payload name p.id (with_relations left s) q).1)

  unfoldable pub prune_points : String → String → List (Point F) → Server F → ℕ × Server F
  prune_points name memory_id [] q = (0, q)
  prune_points name memory_id (p ∷ ps) q =
      let (n, q') = prune_point name memory_id p q in
      let (m, q'') = prune_points name memory_id ps q' in (n + m, q'')

module _ {F : Type 0} ⦃mongo : Driver⦄ ⦃qdrant : Client F⦄ where
  unfoldable pub prune_relations_to :
      (user_id project_id memory_id : String) → ℕ → Database → Server F → ℕ × Server F
  prune_relations_to user_id project_id memory_id max_points db q =
      elim (get_collection user_id project_id db) [
        | none ↦ (0, q)
        | some c ↦ prune_points c.name memory_id (scroll_points c.name (some max_points) q) q
      ]

module _ {F : Type 0} where
  -- An edge with the point that it stands on.
  abbrev pub from : String → List (Relation F) → List (String × Relation F)
  from source edges = map (λ e. (source, e)) edges

  abbrev pub incoming : String → List (Point F) → List (String × Relation F)
  incoming memory_id [] = []
  incoming memory_id (p ∷ ps) =
      filter (λ e. e.1.target == memory_id && not (p.id == memory_id))
        (from p.id (point_semantics p).relations)
      ++ incoming memory_id ps

  -- With `types=None`, every type.
  abbrev pub is_wanted : Option (List String) → String × Relation F → Bool
  is_wanted none e = true
  is_wanted (some types) e = any (λ t. t == e.1.type) types

module _ {F : Type 0} ⦃mongo : Driver⦄ ⦃qdrant : Client F⦄ where
  unfoldable pub relations_of :
      (user_id project_id memory_id : String) (types : Option (List String))
      (include_incoming include_expired : Bool)
      → ℕ
      → ℕ
      → Database
      → Server F
      → List (String × Relation F)
  relations_of user_id project_id memory_id types include_incoming include_expired max_points now db
        q =
      elim (get_collection user_id project_id db) [
        | none ↦ []
        | some c ↦ elim (semantics_of c.name memory_id q) [
          | none ↦ []
          | some s ↦
              let outgoing = from memory_id s.relations in
              let edges =
                if include_incoming
                then outgoing ++ incoming memory_id (scroll_points c.name (some max_points) q)
                else outgoing in
              let live =
                if include_expired then edges else filter (λ e. not (expired now e.1)) edges in
              filter (is_wanted types) live
        ]
      ]

-- `below` is the order of the scores.
module _ {F : Type 0} ⦃mongo : Driver⦄ ⦃qdrant : Client F⦄ (below : F → F → Bool) where
  -- The seed itself and what scores too low are dropped.
  unfoldable pub related_memories :
      (user_id project_id memory_id : String) → ℕ → F → Database → Server F → Result (List (Hit F))
  related_memories user_id project_id memory_id limit min_score db q =
      elim (get_collection user_id project_id db) [
        | none ↦ ok []
        | some c ↦ elim (neighbors c.name memory_id limit q) [
          | none ↦ err unexpected_response
          | some hits ↦
              ok
                (take limit (filter (λ h. not (h.id == memory_id || below h.score min_score)) hits))
        ]
      ]
