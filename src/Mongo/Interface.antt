-- ===== src/Mongo/Interface.antt =====
-- The operations of a pymongo collection and their documented laws.
use mathlib.Core.Option
use recall_select.Prelude.{
  ℕ, ◌≡◌, Bool, not, eqb, take, Option, none, some, List, count, any, IsAscending, IsDescending,
  if◌then◌else◌,
}
use recall_select.Mongo.Query.{filter, first, update_first, erase_first, IsInsertion}

-- `unique d e` says that `d` and `e` agree on the `_id` or on another unique index.
pub record Driver : Type 1 where
  pub find : (D : Type 0) → (D → Bool) → List D → List D
  pub find_one : (D : Type 0) → (D → Bool) → List D → Option D
  pub sort_ascending : (D : Type 0) → (D → ℕ) → List D → List D
  pub sort_descending : (D : Type 0) → (D → ℕ) → List D → List D
  -- `cursor.limit`
  pub limit : (D : Type 0) → ℕ → List D → List D
  -- The documents after an insertion that no index refuses.
  pub placed : (D : Type 0) → D → List D → List D
  -- `none` is a DuplicateKeyError.
  pub insert_one : (D : Type 0) → (D → D → Bool) → D → List D → Option (List D)
  -- The document after an update that no unique index refuses, and the collection.
  pub find_one_and_update : (D : Type 0) → (D → Bool) → (D → D) → List D → Option D × List D
  -- With `upsert=True`: the document to insert where none matches.
  pub find_one_and_upsert : (D : Type 0) → (D → Bool) → (D → D) → D → List D → D × List D
  -- The number of documents deleted, and the collection.
  pub delete_one : (D : Type 0) → (D → Bool) → List D → ℕ × List D
  pub delete_many : (D : Type 0) → (D → Bool) → List D → ℕ × List D
  pub find_law : (D : Type 0) (f : D → Bool) (ds : List D) → find D f ds ≡ filter f ds
  pub find_one_law : (D : Type 0) (f : D → Bool) (ds : List D) → find_one D f ds ≡ first f ds
  pub sort_ascending_same :
      (D : Type 0) (key : D → ℕ) (p : D → Bool) (ds : List D)
      → count p (sort_ascending D key ds) ≡ count p ds
  pub sort_ascending_sorted :
      (D : Type 0) (key : D → ℕ) (ds : List D) → IsAscending key (sort_ascending D key ds)
  pub sort_descending_same :
      (D : Type 0) (key : D → ℕ) (p : D → Bool) (ds : List D)
      → count p (sort_descending D key ds) ≡ count p ds
  pub sort_descending_sorted :
      (D : Type 0) (key : D → ℕ) (ds : List D) → IsDescending key (sort_descending D key ds)
  -- A limit of 0 is no limit.
  pub limit_law :
      (D : Type 0) (n : ℕ) (ds : List D) → limit D n ds ≡ (if eqb n 0 then ds else take n ds)
  pub placed_law : (D : Type 0) (d : D) (ds : List D) → IsInsertion d ds (placed D d ds)
  pub insert_one_law :
      (D : Type 0) (unique : D → D → Bool) (d : D) (ds : List D)
      → insert_one D unique d ds ≡ (if any (unique d) ds then none else some (placed D d ds))
  pub find_one_and_update_law :
      (D : Type 0) (f : D → Bool) (u : D → D) (ds : List D)
      → find_one_and_update D f u ds ≡ (Option.map u (first f ds), update_first f u ds)
  pub find_one_and_upsert_law :
      (D : Type 0) (f : D → Bool) (u : D → D) (d : D) (ds : List D)
      → find_one_and_upsert D f u d ds
        ≡ elim (first f ds) [ some a ↦ (u a, update_first f u ds) | none ↦ (d, placed D d ds) ]
  pub delete_one_law :
      (D : Type 0) (f : D → Bool) (ds : List D)
      → delete_one D f ds ≡ ((if any f ds then 1 else 0), erase_first f ds)
  pub delete_many_law :
      (D : Type 0) (f : D → Bool) (ds : List D)
      → delete_many D f ds ≡ (count f ds, filter (λ d. not (f d)) ds)

-- The calls as the services write them, and their laws in the form for rewriting.
module _ ⦃mongo : Driver⦄ {D : Type 0} where
  abbrev pub find : (D → Bool) → List D → List D
  find = mongo.find D

  abbrev pub find_one : (D → Bool) → List D → Option D
  find_one = mongo.find_one D

  abbrev pub sort_ascending : (D → ℕ) → List D → List D
  sort_ascending = mongo.sort_ascending D

  abbrev pub sort_descending : (D → ℕ) → List D → List D
  sort_descending = mongo.sort_descending D

  abbrev pub limit : ℕ → List D → List D
  limit = mongo.limit D

  abbrev pub placed : D → List D → List D
  placed = mongo.placed D

  abbrev pub insert_one : (D → D → Bool) → D → List D → Option (List D)
  insert_one = mongo.insert_one D

  abbrev pub find_one_and_update : (D → Bool) → (D → D) → List D → Option D × List D
  find_one_and_update = mongo.find_one_and_update D

  abbrev pub find_one_and_upsert : (D → Bool) → (D → D) → D → List D → D × List D
  find_one_and_upsert = mongo.find_one_and_upsert D

  abbrev pub delete_one : (D → Bool) → List D → ℕ × List D
  delete_one = mongo.delete_one D

  abbrev pub delete_many : (D → Bool) → List D → ℕ × List D
  delete_many = mongo.delete_many D

  pub find_lem : (f : D → Bool) (ds : List D) → find f ds ≡ filter f ds
  find_lem = mongo.find_law D

  pub find_one_lem : (f : D → Bool) (ds : List D) → find_one f ds ≡ first f ds
  find_one_lem = mongo.find_one_law D

  pub count-sort_ascending :
      (key : D → ℕ) (p : D → Bool) (ds : List D) → count p (sort_ascending key ds) ≡ count p ds
  count-sort_ascending = mongo.sort_ascending_same D

  pub sort_ascending-IsAscending :
      (key : D → ℕ) (ds : List D) → IsAscending key (sort_ascending key ds)
  sort_ascending-IsAscending = mongo.sort_ascending_sorted D

  pub count-sort_descending :
      (key : D → ℕ) (p : D → Bool) (ds : List D) → count p (sort_descending key ds) ≡ count p ds
  count-sort_descending = mongo.sort_descending_same D

  pub sort_descending-IsDescending :
      (key : D → ℕ) (ds : List D) → IsDescending key (sort_descending key ds)
  sort_descending-IsDescending = mongo.sort_descending_sorted D

  pub limit_lem : (n : ℕ) (ds : List D) → limit n ds ≡ (if eqb n 0 then ds else take n ds)
  limit_lem = mongo.limit_law D

  pub placed_lem : (d : D) (ds : List D) → IsInsertion d ds (placed d ds)
  placed_lem = mongo.placed_law D

  pub insert_one_lem :
      (unique : D → D → Bool) (d : D) (ds : List D)
      → insert_one unique d ds ≡ (if any (unique d) ds then none else some (placed d ds))
  insert_one_lem = mongo.insert_one_law D

  pub find_one_and_update_lem :
      (f : D → Bool) (u : D → D) (ds : List D)
      → find_one_and_update f u ds ≡ (Option.map u (first f ds), update_first f u ds)
  find_one_and_update_lem = mongo.find_one_and_update_law D

  pub find_one_and_upsert_lem :
      (f : D → Bool) (u : D → D) (d : D) (ds : List D)
      → find_one_and_upsert f u d ds
        ≡ elim (first f ds) [ some a ↦ (u a, update_first f u ds) | none ↦ (d, placed d ds) ]
  find_one_and_upsert_lem = mongo.find_one_and_upsert_law D

  pub delete_one_lem :
      (f : D → Bool) (ds : List D)
      → delete_one f ds ≡ ((if any f ds then 1 else 0), erase_first f ds)
  delete_one_lem = mongo.delete_one_law D

  pub delete_many_lem :
      (f : D → Bool) (ds : List D) → delete_many f ds ≡ (count f ds, filter (λ d. not (f d)) ds)
  delete_many_lem = mongo.delete_many_law D
