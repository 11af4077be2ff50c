-- ===== src/Collections/Provisioning.antt =====
-- app/services/collection_provisioning.py: a collection on both stores.
pub mod Stores
use recall_select.Prelude.{ℕ, Bool, false, Option, none, some, String}
use recall_select.Mongo.{Driver}
use recall_select.Documents.{CollectionRecord, Database, Result, ok, err}
use recall_select.Collections.{register_collection, get_collection}
use recall_select.Collections
use recall_select.Qdrant.{Client}
use recall_select.Qdrant.Points.{Server}
use recall_select.Store.{ensure_collection}
use recall_select.Store

module _ {F : Type 0} ⦃mongo : Driver⦄ ⦃qdrant : Client F⦄ where
  unfoldable pub create_collection :
      (user_id project_id : String)
      → ℕ
      → Database
      → Server F
      → Result (CollectionRecord × (Database × Server F))
  create_collection user_id project_id now db q =
      elim (register_collection user_id project_id now db) [
        | err e ↦ err e
        | ok (c, db') ↦ ok (c, (db', ensure_collection c.name q))
      ]

  -- Whether a registry record was removed, and the two stores.
  unfoldable pub destroy_collection :
      (user_id project_id : String) → Database → Server F → Bool × (Database × Server F)
  destroy_collection user_id project_id db q = elim (get_collection user_id project_id db) [
    | none ↦ (false, (db, q))
    | some c ↦
        let q' = (Store.delete_collection c.name q).1 in
        let (removed, db') = Collections.delete_collection user_id project_id db in
        (removed, (db', q'))
  ]
