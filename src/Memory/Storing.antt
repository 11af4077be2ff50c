-- ===== src/Memory/Storing.antt =====
-- What a call of `store_memory` leaves in the two stores.
use mathlib.Core.Option
use mathlib.Core.Path.{subst}
use recall_select.Prelude.{
  ℕ, ◌+◌, ◌≡◌, refl, ap, ◌∙◌, some, List, [], String, Dict, eq_refl, arith, length, lookup, get_or,
  ◌⊎◌, inl, inr, Option-cases,
}
use recall_select.Mongo.{Driver, insert_one, find_one, find_one_lem, find_one_and_update_lem}
use recall_select.Mongo.Query.{first, update_first, first-update_first_self}
use recall_select.Documents.{CollectionRecord, Database, Result, ok, err, Error, collections_index}
use recall_select.Usage.{check_call_allowed, calls_this_period, current_period, record_call}
use recall_select.Collections.{
  get_collection, register_collection, registered, new_collection, is_of, called, sized,
  set_points_count,
}
use recall_select.Collections.Registry.{register_collection-get_collection}
use recall_select.Collections.Provisioning.{create_collection}
use recall_select.Collections.Provisioning.Stores.{lookup-ensure_collection}
use recall_select.Qdrant.{Client, points_of}
use recall_select.Qdrant.Points.{Json, Point, Server, has_id}
use recall_select.Store.{ensure_collection}
use recall_select.Memory.{metered, store_memory, write_memory, memory_payload, Stored}
use recall_select.Memory.Budget.{Result-cases, calls-metered, calls-of_usage}

-- What a registration answers.
Registered-cases :
    (r : Result (CollectionRecord × Database))
    → ((c : CollectionRecord) × (db : Database) × (r ≡ ok (c, db))) ⊎ ((e : Error) × (r ≡ err e))
Registered-cases (ok (c, db)) = inl (c, db, refl)
Registered-cases (err e) = inr (e, refl)

module _ {F : Type 0} ⦃qdrant : Client F⦄ (name : String) (p : Point F) (q : Server F) where
  -- A point that is inserted in a collection that has just been ensured is found in it.
  first-upsert_ensured :
      first (has_id p.id) (points_of name (qdrant.upsert name p (ensure_collection name q)))
      ≡ some (record p { vector = qdrant.as_kept p.vector })
  first-upsert_ensured =
      let law = qdrant.upsert_law name p (ensure_collection name q) name in
      let there = lookup-ensure_collection name q name in
      elim (Option-cases (lookup name q)) [
        | inl e ↦
            let now_there : lookup name (qdrant.upsert name p (ensure_collection name q))
                ≡ some (qdrant.placed_point p []) =
              ground (arith, law, there, e, eq_refl name) in
            ap (λ o. first (has_id p.id) (get_or o [])) now_there
            ∙ ground (arith, qdrant.placed_point_first p [] p.id, eq_refl p.id)
        | inr (ps, e) ↦
            let now_there : lookup name (qdrant.upsert name p (ensure_collection name q))
                ≡ some (qdrant.placed_point p ps) =
              ground (arith, law, there, e, eq_refl name) in
            ap (λ o. first (has_id p.id) (get_or o [])) now_there
            ∙ ground (arith, qdrant.placed_point_first p ps p.id, eq_refl p.id)
      ]

module _ ⦃mongo : Driver⦄ (user_id project_id : String) where
  usage-register_collection :
      (now : ℕ) (db : Database) (c : CollectionRecord) (db' : Database)
      → register_collection user_id project_id now db ≡ ok (c, db')
      → db'.usage ≡ db.usage
  unfolding register_collection
  usage-register_collection now db c db' h =
      let fresh : CollectionRecord = new_collection user_id project_id now in
      elim (Option-cases (find_one (is_of user_id project_id) db.collections)) [
        | inr (r, e) ↦
            let kept : Result (CollectionRecord × Database) = ok (r, db) in
            let h' : kept ≡ ok (c, db') = rw (← h, e, register_collection) refl in
            ground (arith, h')
        | inl e ↦
            let h' : registered fresh db (insert_one collections_index fresh db.collections)
                ≡ ok (c, db') =
              rw (← h, e, register_collection) refl in
            ground (arith, h')
      ]

  -- The record after the meter and the size are written.
  get_collection-sized :
      (now points : ℕ) (db : Database) (c : CollectionRecord)
      → get_collection user_id project_id db ≡ some c
      → get_collection user_id project_id
          (set_points_count user_id project_id points now (metered user_id project_id now db)).1
        ≡ some (sized points now (called 1 now c))
  unfolding record_call
  get_collection-sized now points db c e =
      let mine = is_of user_id project_id in
      let e₀ : first mine db.collections ≡ some c = rw (← find_one_lem mine db.collections) e in
      let once = update_first mine (called 1 now) db.collections in
      let e₁ =
        first-update_first_self mine mine (called 1 now) db.collections (λ a. refl) (λ a p. p) c
          e₀ in
      let e₂ =
        first-update_first_self mine mine (sized points now) once (λ a. refl) (λ a p. p)
          (called 1 now c) e₁ in
      ground (
        arith,
        find_one_and_update_lem mine (called 1 now) db.collections,
        find_one_and_update_lem mine (sized points now) once,
        find_one_lem mine (update_first mine (sized points now) once),
        e₂,
      )

module _ {F : Type 0} ⦃mongo : Driver⦄ ⦃qdrant : Client F⦄ (embed : String → List F)
    (point_id user_id project_id content : String) (metadata : Dict Json) (now : ℕ) (db : Database)
    (q : Server F) where
  -- The memory, as it is to be found among the points, the tallies, and what the caller is told.
  abbrev pub IsKept : Stored → Database → Server F → Type 0
  IsKept s db' q' =
      let p : Point F = record {
        id = point_id;
        vector = qdrant.as_kept (embed content);
        payload = memory_payload user_id content metadata now;
      } in
      (s.id ≡ point_id)
      × (first (has_id point_id) (points_of s.collection q') ≡ some p)
      × (s.points_count ≡ length (points_of s.collection q'))
      × (Option.map (λ c. c.points_count) (get_collection user_id project_id db')
          ≡ some s.points_count)
      × (calls_this_period user_id (current_period now) db'
          ≡ calls_this_period user_id (current_period now) db + 1)

  write_memory-IsKept :
      (c : CollectionRecord) (db₁ : Database)
      → register_collection user_id project_id now db ≡ ok (c, db₁)
      → let r =
          write_memory point_id user_id project_id c
            (embed content)
            (memory_payload user_id content metadata now)
            now
            db₁
            (ensure_collection c.name q) in
        IsKept r.0 r.1.0 r.1.1
  unfolding write_memory
  write_memory-IsKept c db₁ h =
      let p : Point F = record {
        id = point_id;
        vector = embed content;
        payload = memory_payload user_id content metadata now;
      } in
      let q' : Server F = qdrant.upsert c.name p (ensure_collection c.name q) in
      let n = qdrant.count c.name q' in
      let metered_db : Database = metered user_id project_id now db₁ in
      let final : Database = (set_points_count user_id project_id n now metered_db).1 in
      (
        refl,
        first-upsert_ensured c.name p q,
        qdrant.count_law c.name q',
        ap (Option.map (λ c. c.points_count)) (
            get_collection-sized user_id project_id now n db₁ c
              (register_collection-get_collection user_id project_id now db c db₁ h)),
        calls-of_usage user_id project_id now final metered_db refl
            ∙ calls-metered user_id project_id now db₁
            ∙ ap (λ k. k + 1)
                (calls-of_usage user_id project_id now db₁ db
                  (usage-register_collection user_id project_id now db c db₁ h)),
      )

  -- A memory that `store_memory` accepts is among the points of the collection that it names, with
  -- its payload and with what a collection under the cosine distance keeps of the embedding of its
  -- text; the count that it returns is the number of those points and what the registry then says;
  -- and the user's tally of the month is one more.
  pub store_memory-IsKept :
      (s : Stored) (db' : Database) (q' : Server F)
      → store_memory embed point_id user_id project_id content metadata now db q ≡ ok (s, (db', q'))
      → IsKept s db' q'
  unfolding store_memory create_collection
  store_memory-IsKept s db' q' h = elim (Result-cases (check_call_allowed user_id now db)) [
    | inr (x, t) ↦
        let failed : Result (Stored × (Database × Server F)) = err x in
        let h' : failed ≡ ok (s, (db', q')) = rw (← h, t, store_memory) refl in cc
    | inl t ↦ elim (Registered-cases (register_collection user_id project_id now db)) [
      | inr (x, e) ↦
          let failed : Result (Stored × (Database × Server F)) = err x in
          let h' : failed ≡ ok (s, (db', q')) =
            rw (← h, t, e, store_memory, create_collection) refl in
          cc
      | inl (c, db₁, e) ↦
          let done : Stored × (Database × Server F) =
            write_memory point_id user_id project_id c (embed content)
              (memory_payload user_id content metadata now) now db₁ (ensure_collection c.name q) in
          let result : Result (Stored × (Database × Server F)) = ok done in
          let h' : result ≡ ok (s, (db', q')) =
            rw (← h, t, e, store_memory, create_collection) refl in
          subst
            (λ (r : Result (Stored × (Database × Server F))). elim r [
              | ok a ↦ IsKept a.0 a.1.0 a.1.1
              | err x ↦ Unit {0}
            ])
            h' (write_memory-IsKept c db₁ e)
    ]
  ]
