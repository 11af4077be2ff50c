-- ===== src/Collections/Registry.antt =====
-- One record for each user and project.
use recall_select.Prelude.{
  ℕ, ◌≡◌, refl, sym, ap, ◌∙◌, true, some, String, Option-cases, inl, inr, arith, eq_refl,
}
use Prim.Native.String.{◌++◌, len, slice}
use text.Mathlib.TextLemmas.{append_cancel_left}
use text.Mathlib.TextPositions.{slice-append_left}
use recall_select.Mongo.{Driver, find_one, find_one_lem, insert_one_lem, placed_lem, placed}
use recall_select.Mongo.Query.{first-insertion_hit}
use recall_select.Documents.{CollectionRecord, Database, ok, Result, collections_index}
use recall_select.Collections.{
  is_of, new_collection, register_collection, get_collection, registered, collection_name,
}

module _ ⦃mongo : Driver⦄ (user_id project_id : String) where
  new_collection_matches :
      (now : ℕ) → is_of user_id project_id (new_collection user_id project_id now) ≡ true
  new_collection_matches now = ground (arith, eq_refl user_id, eq_refl project_id)

  -- A registered collection is the one that the query finds.
  pub register_collection-get_collection :
      (now : ℕ) (db : Database) (c : CollectionRecord) (db' : Database)
      → register_collection user_id project_id now db ≡ ok (c, db')
      → get_collection user_id project_id db' ≡ some c
  unfolding register_collection
  register_collection-get_collection now db c db' h =
      let mine = is_of user_id project_id in
      let fresh : CollectionRecord = new_collection user_id project_id now in
      elim (Option-cases (find_one mine db.collections)) [
        | inr (r, e) ↦
            let kept : Result (CollectionRecord × Database) = ok (r, db) in
            let h' : kept ≡ ok (c, db') = rw (← h, e, register_collection) refl in
            ground (arith, h', e)
        | inl e ↦
            let h' : registered fresh db
                  (mongo.insert_one CollectionRecord collections_index fresh db.collections)
                ≡ ok (c, db') =
              rw (← h, e, register_collection) refl in
            let hit =
              first-insertion_hit mine (placed_lem fresh db.collections)
                (rw (← find_one_lem mine db.collections) e) (new_collection_matches now) in
            ground (
              arith,
              h',
              insert_one_lem collections_index fresh db.collections,
              find_one_lem mine (placed fresh db.collections),
              hit,
            )
      ]

  -- A second registration, at whatever time, returns the record of the first and changes nothing.
  pub registered_once :
      (now later : ℕ) (db : Database) (c : CollectionRecord) (db' : Database)
      → register_collection user_id project_id now db ≡ ok (c, db')
      → register_collection user_id project_id later db' ≡ ok (c, db')
  unfolding register_collection
  registered_once now later db c db' h =
      rw (register_collection-get_collection now db c db' h, register_collection) refl

-- Two pairs whose users' identifiers are as long as each other have the same collection name only
-- if they are the same pair.
pub collection_name_injective :
    (u v p q : String)
    → len u ≡ len v
    → collection_name u p ≡ collection_name v q
    → (u ≡ v) × (p ≡ q)
collection_name_injective u v p q l e =
    let tails : u ++ ("_" ++ p) ≡ v ++ ("_" ++ q) =
      append_cancel_left "_" _ _ (append_cancel_left "rs" _ _ e) in
    let same : u ≡ v =
      sym (slice-append_left u ("_" ++ p))
      ∙ ap (λ t. slice t 0 (len u)) tails
      ∙ ap (λ n. slice (v ++ ("_" ++ q)) 0 n) l
      ∙ slice-append_left v ("_" ++ q) in
    (
      same,
      append_cancel_left "_" _ _
          (append_cancel_left u _ _ (tails ∙ ap (λ w. w ++ ("_" ++ q)) (sym same))),
    )
