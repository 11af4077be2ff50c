-- ===== src/Memory.antt =====
-- app/services/memory.py: memories are stored, recalled and deleted under the month's budget. The
-- embedding model is a parameter.
pub mod Budget
pub mod Storing
pub mod Deleting
use recall_select.Prelude.{
  ℕ, Bool, true, false, Option, none, some, List, [], ◌∷◌, String, Dict, map, if◌then◌else◌,
}
use recall_select.Mongo.{Driver}
use recall_select.Documents.{CollectionRecord, Database, Result, ok, err, unexpected_response}
use recall_select.Usage.{current_period, check_call_allowed}
use recall_select.Usage
use recall_select.Collections.{get_collection, set_points_count}
use recall_select.Collections
use recall_select.Collections.Provisioning.{create_collection}
use recall_select.Qdrant.{Client}
use recall_select.Qdrant.Points.{Json, Value, text, other, Hit, Server, merge}
use recall_select.Store.{count, upsert_memory, search}
use recall_select.Store
use recall_select.Semantics.{annotate_store_payload, prune_relations_to, default_max_points}

-- What `store_memory` returns.
pub record Stored : Type 0 where
  pub id : String
  pub collection : String
  pub points_count : ℕ

module _ {F : Type 0} where
  -- The metadata, as values of a payload.
  abbrev pub as_values : Dict Json → Dict (Value F)
  as_values [] = []
  as_values ((k, v) ∷ metadata) = (k, other v) ∷ as_values metadata

  abbrev pub memory_payload : (user_id content : String) → Dict Json → ℕ → Dict (Value F)
  memory_payload user_id content metadata now =
      merge (merge (("text", text content) ∷ []) (as_values metadata))
        (annotate_store_payload user_id now)

module _ ⦃mongo : Driver⦄ where
  -- The two meters, in the order of the calls.
  abbrev pub metered : (user_id project_id : String) → ℕ → Database → Database
  metered user_id project_id now db =
      (Usage.record_call user_id 1 (current_period now) now
        (Collections.record_call user_id project_id 1 now db).1).1

module _ {F : Type 0} ⦃mongo : Driver⦄ ⦃qdrant : Client F⦄ where
  -- The writes of `store_memory` that follow the provisioning.
  unfoldable pub write_memory :
      (point_id user_id project_id : String)
      → CollectionRecord
      → List F
      → Dict (Value F)
      → ℕ
      → Database
      → Server F
      → Stored × (Database × Server F)
  write_memory point_id user_id project_id c vector payload now db q =
      let q' = upsert_memory c.name point_id vector payload q in
      let db' = metered user_id project_id now db in
      let points_count = count c.name q' in
      let db'' = (set_points_count user_id project_id points_count now db').1 in
      (record { id = point_id; collection = c.name; points_count = points_count }, (db'', q'))

  unfoldable pub store_memory :
      (embed : String → List F) (point_id user_id project_id content : String)
      → Dict Json
      → ℕ
      → Database
      → Server F
      → Result (Stored × (Database × Server F))
  store_memory embed point_id user_id project_id content metadata now db q =
      elim (check_call_allowed user_id now db) [
        | err e ↦ err e
        | ok _ ↦ elim (create_collection user_id project_id now db q) [
          | err e ↦ err e
          | ok (c, (db', q')) ↦ ok (
              write_memory point_id user_id project_id c (embed content)
                (memory_payload user_id content metadata now) now db' q')
        ]
      ]

  -- What `delete_memory` does once the call is allowed.
  unfoldable pub remove_memory :
      (user_id project_id memory_id : String)
      → CollectionRecord
      → ℕ
      → Database
      → Server F
      → Bool × (Database × Server F)
  remove_memory user_id project_id memory_id c now db q =
      let (deleted, q') = Store.delete_memory c.name memory_id q in
      let db' = metered user_id project_id now db in
      let pruned = (prune_relations_to user_id project_id memory_id default_max_points db' q').1 in
      if deleted
      then (true, ((set_points_count user_id project_id (count c.name pruned) now db').1, pruned))
      else (false, (db', q'))

  unfoldable pub delete_memory :
      (user_id project_id memory_id : String)
      → ℕ
      → Database
      → Server F
      → Result (Bool × (Database × Server F))
  delete_memory user_id project_id memory_id now db q =
      elim (get_collection user_id project_id db) [
        | none ↦ ok (false, (db, q))
        | some c ↦ elim (check_call_allowed user_id now db) [
          | err e ↦ err e
          | ok _ ↦ ok (remove_memory user_id project_id memory_id c now db q)
        ]
      ]

  unfoldable pub recall_memory :
      (embed : String → List F) (user_id project_id query : String) (limit : ℕ)
      → ℕ
      → Database
      → Server F
      → Result (List (Hit F) × Database)
  recall_memory embed user_id project_id query limit now db q =
      elim (get_collection user_id project_id db) [
        | none ↦ ok ([], db)
        | some c ↦ elim (check_call_allowed user_id now db) [
          | err e ↦ err e
          | ok _ ↦ elim (search c.name (embed query) limit q) [
            | none ↦ err unexpected_response
            | some hits ↦ ok (hits, metered user_id project_id now db)
          ]
        ]
      ]
