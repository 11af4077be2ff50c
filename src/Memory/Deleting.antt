-- ===== src/Memory/Deleting.antt =====
-- What a call of `delete_memory` leaves in Qdrant.
use mathlib.Core.Path.{subst}
use recall_select.Prelude.{
  ℕ, ◌≡◌, refl, sym, ap, ◌∙◌, Bool, true, false, not, none, some, List, [], ◌∷◌, String, ◌==◌,
  eq_refl, arith, length, lookup, get_or, is_some, eqb, inl, inr, Option-cases, Bool-cases, Dict,
}
use recall_select.Mongo.{Driver, find_one_lem, find_one_and_update_lem}
use recall_select.Mongo.Query.{first, filter, update_first, first-update_first_self}
use recall_select.Documents.{CollectionRecord, Database, Result, ok, err}
use recall_select.Usage.{check_call_allowed, record_call}
use recall_select.Collections.{get_collection, is_of, called}
use recall_select.Qdrant.{Client, points_of}
use recall_select.Qdrant.Points.{Value, Point, Server, has_id, enriched}
use recall_select.Store.{set_payload, is_empty}
use recall_select.Store
use recall_select.Semantics.{prune_point, prune_points, prune_relations_to, default_max_points}
use recall_select.Semantics
use recall_select.Memory.{metered, delete_memory, remove_memory}
use recall_select.Memory.Budget.{Result-cases}

module _ {F : Type 0} (m : String) where
  first-filter-none :
      (ps : List (Point F)) → first (has_id m) (filter (λ p. not (p.id == m)) ps) ≡ none
  first-filter-none [] = refl
  first-filter-none (p ∷ ps) = ground (arith, first-filter-none ps)

  first-enriched-none :
      (i : String) (payload : Dict (Value F)) (ps : List (Point F))
      → first (has_id m) ps ≡ none
      → first (has_id m) (update_first (has_id i) (enriched payload) ps) ≡ none
  first-enriched-none i payload [] h = refl
  first-enriched-none i payload (p ∷ ps) h = ground (arith, h, first-enriched-none i payload ps)

module _ {F : Type 0} ⦃qdrant : Client F⦄ (name m : String) where
  -- The collection has no such memory.
  abbrev IsGone : Server F → Type 0
  IsGone q = first (has_id m) (points_of name q) ≡ none

  set_payload-IsGone :
      (i : String) (payload : Dict (Value F)) (q : Server F)
      → IsGone q
      → IsGone (set_payload name i payload q).1
  unfolding set_payload
  set_payload-IsGone i payload q h = elim (Bool-cases (qdrant.collection_exists name q)) [
    | inr t ↦ rw (t, set_payload) h
    | inl t ↦ elim (Bool-cases (is_empty (qdrant.retrieve name (i ∷ []) q))) [
      | inl e ↦ rw (t, e, set_payload) h
      | inr e ↦
          let law = qdrant.set_payload_law name payload i q name in
          elim (Option-cases (lookup name q)) [
            | inl l ↦
                let after : lookup name (qdrant.set_payload name payload i q) ≡ none =
                  ground (arith, law, l, eq_refl name) in
                rw (t, e, set_payload) (ap (λ o. first (has_id m) (get_or o [])) after)
            | inr (ps, l) ↦
                let after : lookup name (qdrant.set_payload name payload i q)
                    ≡ some (update_first (has_id i) (enriched payload) ps) =
                  ground (arith, law, l, eq_refl name) in
                let before : first (has_id m) ps ≡ none =
                  ap (λ o. first (has_id m) (get_or o [])) (sym l) ∙ h in
                rw (t, e, set_payload)
                  (ap (λ o. first (has_id m) (get_or o [])) after
                    ∙ first-enriched-none m i payload ps before)
          ]
    ]
  ]

  prune_point-IsGone :
      (memory_id : String) (p : Point F) (q : Server F)
      → IsGone q
      → IsGone (prune_point name memory_id p q).1
  unfolding prune_point
  prune_point-IsGone memory_id p q h =
      let s = Semantics.point_semantics p in
      let left = Semantics.kept memory_id s.relations in
      elim (Bool-cases (eqb (length left) (length s.relations))) [
        | inl t ↦ rw (t, prune_point) h
        | inr t ↦
            rw (t, prune_point) (set_payload-IsGone p.id (Semantics.with_relations left s) q h)
      ]

  prune_points-IsGone :
      (memory_id : String) (ps : List (Point F)) (q : Server F)
      → IsGone q
      → IsGone (prune_points name memory_id ps q).1
  unfolding prune_points
  prune_points-IsGone memory_id [] q h = h
  prune_points-IsGone memory_id (p ∷ ps) q h =
      prune_points-IsGone memory_id ps (prune_point name memory_id p q).1
        (prune_point-IsGone memory_id p q h)

  IsGone-of_absent : (q : Server F) → is_some (lookup name q) ≡ false → IsGone q
  IsGone-of_absent q h = elim (Option-cases (lookup name q)) [
    | inl l ↦ ap (λ o. first (has_id m) (get_or o [])) l
    | inr (ps, l) ↦ ground (arith, h, l)
  ]

  first-of_is_empty : (ps : List (Point F)) → is_empty ps ≡ true → first (has_id m) ps ≡ none
  first-of_is_empty [] h = refl
  first-of_is_empty (p ∷ ps) h = cc

  -- Deleting at the store: whether or not there was a point, there is none after.
  delete_memory-IsGone : (q : Server F) → IsGone (Store.delete_memory name m q).1
  unfolding Store.delete_memory
  delete_memory-IsGone q = elim (Bool-cases (qdrant.collection_exists name q)) [
    | inr t ↦
        rw (t, Store.delete_memory)
          (IsGone-of_absent q (sym (qdrant.collection_exists_law name q) ∙ t))
    | inl t ↦ elim (Bool-cases (is_empty (qdrant.retrieve name (m ∷ []) q))) [
      | inl e ↦
          rw (t, e, Store.delete_memory)
            (ground (
              arith,
              eq_refl m,
              qdrant.retrieve_first name (m ∷ []) q m,
              first-of_is_empty (qdrant.retrieve name (m ∷ []) q) e,
            ))
      | inr e ↦
          let law = qdrant.delete_law name m q name in
          elim (Option-cases (lookup name q)) [
            | inl l ↦
                let after : lookup name (qdrant.delete name m q) ≡ none =
                  ground (arith, law, l, eq_refl name) in
                rw (t, e, Store.delete_memory) (ap (λ o. first (has_id m) (get_or o [])) after)
            | inr (ps, l) ↦
                let after : lookup name (qdrant.delete name m q)
                    ≡ some (filter (λ p. not (p.id == m)) ps) =
                  ground (arith, law, l, eq_refl name) in
                rw (t, e, Store.delete_memory)
                  (ap (λ o. first (has_id m) (get_or o [])) after ∙ first-filter-none m ps)
          ]
    ]
  ]

module _ {F : Type 0} ⦃mongo : Driver⦄ ⦃qdrant : Client F⦄ (user_id project_id m : String)
    (c : CollectionRecord) (now : ℕ) where
  prune_relations_to-IsGone :
      (cap : ℕ) (db : Database) (q : Server F)
      → IsGone c.name m q
      → get_collection user_id project_id db ≡ some c
      → IsGone c.name m (prune_relations_to user_id project_id m cap db q).1
  unfolding prune_relations_to
  prune_relations_to-IsGone cap db q h e =
      rw (e, prune_relations_to)
        (prune_points-IsGone c.name m m (Store.scroll_points c.name (some cap) q) q h)

module _ {F : Type 0} ⦃mongo : Driver⦄ ⦃qdrant : Client F⦄ (user_id project_id m : String) (now : ℕ)
    (db : Database) (q : Server F) where
  get_collection-metered :
      (c : CollectionRecord)
      → get_collection user_id project_id db ≡ some c
      → get_collection user_id project_id (metered user_id project_id now db)
        ≡ some (called 1 now c)
  unfolding record_call
  get_collection-metered c e =
      let mine = is_of user_id project_id in
      let e₀ : first mine db.collections ≡ some c = rw (← find_one_lem mine db.collections) e in
      ground (
        arith,
        find_one_and_update_lem mine (called 1 now) db.collections,
        find_one_lem mine (update_first mine (called 1 now) db.collections),
        first-update_first_self mine mine (called 1 now) db.collections (λ a. refl) (λ a p. p) c e₀,
      )

  remove_memory-IsGone :
      (c : CollectionRecord)
      → get_collection user_id project_id db ≡ some c
      → IsGone c.name m (remove_memory user_id project_id m c now db q).1.1
  unfolding remove_memory
  remove_memory-IsGone c e =
      let left = delete_memory-IsGone c.name m q in
      let pruned =
        prune_relations_to-IsGone user_id project_id m (called 1 now c) now default_max_points
          (metered user_id project_id now db) (Store.delete_memory c.name m q).1 left
          (get_collection-metered c e) in
      elim (Bool-cases (Store.delete_memory c.name m q).0) [
        | inl t ↦ rw (t, remove_memory) pruned
        | inr t ↦ rw (t, remove_memory) left
      ]

  -- When `delete_memory` returns, whatever it returns, the user's collection for the project has no
  -- memory of that identifier.
  pub nothing_left_of_deleted :
      (c : CollectionRecord) (deleted : Bool) (db' : Database) (q' : Server F)
      → get_collection user_id project_id db ≡ some c
      → delete_memory user_id project_id m now db q ≡ ok (deleted, (db', q'))
      → first (has_id m) (points_of c.name q') ≡ none
  unfolding delete_memory
  nothing_left_of_deleted c deleted db' q' e h =
      elim (Result-cases (check_call_allowed user_id now db)) [
        | inr (x, t) ↦
            let failed : Result (Bool × (Database × Server F)) = err x in
            let h' : failed ≡ ok (deleted, (db', q')) = rw (← h, e, t, delete_memory) refl in cc
        | inl t ↦
            let result : Result (Bool × (Database × Server F)) =
              ok (remove_memory user_id project_id m c now db q) in
            let h' : result ≡ ok (deleted, (db', q')) = rw (← h, e, t, delete_memory) refl in
            subst
              (λ (r : Result (Bool × (Database × Server F))). elim r [
                | ok a ↦ IsGone c.name m a.1.1
                | err x ↦ Unit {0}
              ])
              h' (remove_memory-IsGone c e)
      ]
