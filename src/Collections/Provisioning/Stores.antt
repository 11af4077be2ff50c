-- ===== src/Collections/Provisioning/Stores.antt =====
-- The two stores stay in step.
use recall_select.Prelude.{
  ℕ, ◌≡◌, refl, true, none, some, [], String, ◌==◌, eq_iff, eq_refl, arith, lookup, if◌then◌else◌,
  Option-cases, inl, inr,
}
use recall_select.Mongo.{Driver}
use recall_select.Documents.{CollectionRecord, Database, ok}
use recall_select.Collections.{register_collection, get_collection}
use recall_select.Collections.Registry.{registered_once, register_collection-get_collection}
use recall_select.Collections.Provisioning.{create_collection}
use recall_select.Qdrant.{cosine, Client}
use recall_select.Qdrant.Points.{Server}
use recall_select.Store.{ensure_collection, vector_size}

module _ {F : Type 0} ⦃qdrant : Client F⦄ (name : String) (q : Server F) where
  exists_ensured :
      (s : Server F) → qdrant.collection_exists name s ≡ true → ensure_collection name s ≡ s
  unfolding ensure_collection
  exists_ensured s e = rw (e, ensure_collection) refl

  -- The collection is there, and keeps its points.
  pub lookup-ensure_collection :
      (other : String)
      → lookup other (ensure_collection name q) ≡ (
          if name == other
          then (elim (lookup name q) [ none ↦ some [] | some ps ↦ some ps ])
          else lookup other q)
  unfolding ensure_collection
  lookup-ensure_collection other = elim (Option-cases (lookup name q)) [
    | inl e ↦
        rw (qdrant.collection_exists_law name q, e, ensure_collection)
          (qdrant.create_collection_law name vector_size cosine q other)
    | inr (ps, e) ↦
        rw (qdrant.collection_exists_law name q, e, ensure_collection)
          (ground (arith, e, eq_iff name other))
  ]

  pub exists-ensure_collection : qdrant.collection_exists name (ensure_collection name q) ≡ true
  exists-ensure_collection = elim (Option-cases (lookup name q)) [
    | inl e ↦ ground (
      arith,
      e,
      eq_refl name,
      qdrant.collection_exists_law name (ensure_collection name q),
      lookup-ensure_collection name,
    )
    | inr (ps, e) ↦ ground (
      arith,
      e,
      eq_refl name,
      qdrant.collection_exists_law name (ensure_collection name q),
      lookup-ensure_collection name,
    )
  ]

  ensure_twice : ensure_collection name (ensure_collection name q) ≡ ensure_collection name q
  ensure_twice = exists_ensured (ensure_collection name q) exists-ensure_collection

module _ {F : Type 0} ⦃mongo : Driver⦄ ⦃qdrant : Client F⦄ (user_id project_id : String) where
  pub create_collection_parts :
      (now : ℕ) (db : Database) (q : Server F) (c : CollectionRecord) (db' : Database)
      (q' : Server F)
      → create_collection user_id project_id now db q ≡ ok (c, (db', q'))
      → (register_collection user_id project_id now db ≡ ok (c, db'))
        × (q' ≡ ensure_collection c.name q)
  unfolding create_collection
  create_collection_parts now db q c db' q' h = ground (arith, h)

  -- What provisioning returns is registered and backed by a collection of its name, and
  -- provisioning again, at whatever time, returns it and changes neither store.
  pub provisioned_once :
      (now later : ℕ) (db : Database) (q : Server F) (c : CollectionRecord) (db' : Database)
      (q' : Server F)
      → create_collection user_id project_id now db q ≡ ok (c, (db', q'))
      → (get_collection user_id project_id db' ≡ some c)
        × (qdrant.collection_exists c.name q' ≡ true)
        × (create_collection user_id project_id later db' q' ≡ ok (c, (db', q')))
  unfolding create_collection
  provisioned_once now later db q c db' q' h =
      let (reg, e) = create_collection_parts now db q c db' q' h in
      let again : ensure_collection c.name q' ≡ q' = rw e (ensure_twice c.name q) in
      (
        register_collection-get_collection user_id project_id now db c db' reg,
        rw e (exists-ensure_collection c.name q),
        rw (registered_once user_id project_id now later db c db' reg, again, create_collection)
            refl,
      )
