-- ===== src/Store.antt =====
-- app/services/qdrant_store.py: the collection operations that the services need.
pub mod Pages
use recall_select.Prelude.{
  ℕ, zero, suc, ◌+◌, ◌≤◌, Bool, true, false, ◌||◌, if◌then◌else◌, Option, none, some, List, [], ◌∷◌,
  ◌++◌, String, Dict, take, length, leb, is_some, not, get_or,
}
use recall_select.Qdrant.{Client, Distance, cosine}
use recall_select.Qdrant.Points.{Point, Hit, Server, Value}

-- The default of `VECTOR_SIZE`.
abbrev pub vector_size : ℕ
vector_size = 768

abbrev pub page_size : ℕ
page_size = 256

abbrev pub is_empty : {A : Type 0} → List A → Bool
is_empty [] = true
is_empty (x ∷ xs) = false

-- Whether so many points reach the cap, if there is one.
abbrev pub reaches : Option ℕ → ℕ → Bool
reaches none n = false
reaches (some cap) n = leb cap n

abbrev pub capped : {A : Type 0} → Option ℕ → List A → List A
capped none xs = xs
capped (some cap) xs = take cap xs

module _ {F : Type 0} ⦃qdrant : Client F⦄ where
  -- The name, which the code returns too, is the caller's.
  unfoldable pub ensure_collection : String → Server F → Server F
  ensure_collection name q =
      if qdrant.collection_exists name q
      then q
      else qdrant.create_collection name vector_size cosine q

  unfoldable pub delete_collection : String → Server F → Bool × Server F
  delete_collection name q =
      if qdrant.collection_exists name q
      then (true, qdrant.delete_collection name q)
      else (false, q)

  abbrev pub count : String → Server F → ℕ
  count name q = qdrant.count name q

  abbrev pub upsert_memory : String → String → List F → Dict (Value F) → Server F → Server F
  upsert_memory collection point_id vector payload q =
      let p : Point F = record { id = point_id; vector = vector; payload = payload } in
      qdrant.upsert collection p q

  unfoldable pub delete_memory : String → String → Server F → Bool × Server F
  delete_memory collection point_id q =
      if not (qdrant.collection_exists collection q)
      then (false, q)
      else if is_empty (qdrant.retrieve collection (point_id ∷ []) q)
      then (false, q)
      else (true, qdrant.delete collection point_id q)

  -- `none` where the call raises.
  abbrev pub search : String → List F → ℕ → Server F → Option (List (Hit F))
  search collection vector limit q = qdrant.query collection vector limit q

  -- `none` where the call raises.
  unfoldable pub neighbors : String → String → ℕ → Server F → Option (List (Hit F))
  neighbors collection point_id limit q =
      if qdrant.collection_exists collection q
      then qdrant.query_by_id collection point_id (limit + 1) q
      else some []

  -- The loop over the pages, on fuel, with the points so far.
  unfoldable pub scroll_pages :
      (fuel : ℕ) (collection : String) (limit offset : Option ℕ)
      → List (Point F)
      → Server F
      → List (Point F)
  scroll_pages zero collection limit offset points q = points
  scroll_pages (suc fuel) collection limit offset points q =
      let (batch, next) = qdrant.scroll collection page_size offset q in
      let points' = points ++ batch in
      let rest = scroll_pages fuel collection limit next points' q in
      if not (is_some next) || reaches limit (length points') then points' else rest

  -- Each page but the last has a point, so as many pages as there are points, and one more, are
  -- enough.
  unfoldable pub scroll_points : String → Option ℕ → Server F → List (Point F)
  scroll_points collection limit q =
      if qdrant.collection_exists collection q
      then capped limit (scroll_pages (suc (qdrant.count collection q)) collection limit none [] q)
      else []

  unfoldable pub retrieve_points : String → List String → Server F → List (Point F)
  retrieve_points collection ids q =
      if qdrant.collection_exists collection q then qdrant.retrieve collection ids q else []

  unfoldable pub set_payload : String → String → Dict (Value F) → Server F → Bool × Server F
  set_payload collection point_id payload q =
      if not (qdrant.collection_exists collection q)
      then (false, q)
      else if is_empty (qdrant.retrieve collection (point_id ∷ []) q)
      then (false, q)
      else (true, qdrant.set_payload collection payload point_id q)
