-- ===== src/Qdrant/Interface.antt =====
-- The operations of the client and their documented laws.
use mathlib.Core.Option
use recall_select.Prelude.{
  ℕ, ◌+◌, ◌≤◌, ◌≡◌, Bool, not, Option, none, some, List, [], String, ◌==◌, take, drop, length, any,
  lookup, if◌then◌else◌, is_some, get_or, ltb,
}
use recall_select.Mongo.Query.{filter, first, update_first}
use recall_select.Qdrant.Points.{Value, Point, Hit, Server, has_id, enriched}

abbrev pub contains : String → List String → Bool
contains i ids = any (λ j. j == i) ids

-- A collection that is not there has no points.
abbrev pub points_of : {F : Type 0} → String → Server F → List (Point F)
points_of name q = get_or (lookup name q) []

-- Where the name is that of a collection, its points are changed, and no other collection is.
abbrev pub changed :
    {F : Type 0}
    → String
    → (List (Point F) → List (Point F))
    → Server F
    → String
    → Option (List (Point F))
changed name f q other = if name == other then Option.map f (lookup other q) else lookup other q

-- `models.Distance`
pub data Distance : Type 0 where
  cosine euclid dot manhattan : Distance

pub record Client (F : Type 0) : Type 0 where
  pub collection_exists : String → Server F → Bool
  -- The dimension of the vectors and their distance are given.
  pub create_collection : String → ℕ → Distance → Server F → Server F
  pub delete_collection : String → Server F → Server F
  -- What a collection whose distance is the cosine keeps of a vector: Qdrant normalises it when it is
  -- uploaded. Each collection of this code is of that distance.
  pub as_kept : List F → List F
  -- The points of such a collection after one is inserted or replaced.
  pub placed_point : Point F → List (Point F) → List (Point F)
  pub upsert : String → Point F → Server F → Server F
  pub delete : String → String → Server F → Server F
  pub set_payload : String → List (String × Value F) → String → Server F → Server F
  pub retrieve : String → List String → Server F → List (Point F)
  -- `none` where the client raises, since there is no such collection.
  pub query : String → List F → ℕ → Server F → Option (List (Hit F))
  -- The query by the vector of a stored point. `none` where the client raises, since there is no
  -- such point.
  pub query_by_id : String → String → ℕ → Server F → Option (List (Hit F))
  -- A page of at most so many points from an offset, and the offset of the next. An offset is the
  -- number of points before it.
  pub scroll : String → ℕ → Option ℕ → Server F → List (Point F) × Option ℕ
  pub count : String → Server F → ℕ
  pub collection_exists_law :
      (n : String) (q : Server F) → collection_exists n q ≡ is_some (lookup n q)
  pub create_collection_law :
      (n : String) (size : ℕ) (distance : Distance) (q : Server F) (m : String)
      → lookup m (create_collection n size distance q) ≡ (if n == m then some [] else lookup m q)
  pub delete_collection_law :
      (n : String) (q : Server F) (m : String)
      → lookup m (delete_collection n q) ≡ (if n == m then none else lookup m q)
  pub placed_point_first :
      (p : Point F) (ps : List (Point F)) (i : String)
      → first (has_id i) (placed_point p ps)
        ≡ (if p.id == i then some (record p { vector = as_kept p.vector }) else first (has_id i) ps)
  pub placed_point_length :
      (p : Point F) (ps : List (Point F))
      → length (placed_point p ps) ≡ (if any (has_id p.id) ps then length ps else length ps + 1)
  pub upsert_law :
      (n : String) (p : Point F) (q : Server F) (m : String)
      → lookup m (upsert n p q) ≡ changed n (placed_point p) q m
  pub delete_law :
      (n i : String) (q : Server F) (m : String)
      → lookup m (delete n i q) ≡ changed n (filter (λ p. not (p.id == i))) q m
  pub set_payload_law :
      (n : String) (payload : List (String × Value F)) (i : String) (q : Server F) (m : String)
      → lookup m (set_payload n payload i q)
        ≡ changed n (update_first (has_id i) (enriched payload)) q m
  pub retrieve_first :
      (n : String) (ids : List String) (q : Server F) (i : String)
      → first (has_id i) (retrieve n ids q)
        ≡ (if contains i ids then first (has_id i) (points_of n q) else none)
  pub retrieve_bound :
      (n : String) (ids : List String) (q : Server F) → length (retrieve n ids q) ≤ length ids
  pub query_answers :
      (n : String) (v : List F) (k : ℕ) (q : Server F)
      → is_some (query n v k q) ≡ is_some (lookup n q)
  pub query_bound :
      (n : String) (v : List F) (k : ℕ) (q : Server F) → length (get_or (query n v k q) []) ≤ k
  pub query_by_id_answers :
      (n i : String) (k : ℕ) (q : Server F)
      → is_some (query_by_id n i k q) ≡ any (has_id i) (points_of n q)
  pub query_by_id_bound :
      (n i : String) (k : ℕ) (q : Server F) → length (get_or (query_by_id n i k q) []) ≤ k
  pub scroll_law :
      (n : String) (k : ℕ) (offset : Option ℕ) (q : Server F)
      → let start = get_or offset 0 in
        scroll n k offset q ≡ (
          take k (drop start (points_of n q)),
          if ltb (start + k) (length (points_of n q)) then some (start + k) else none,
        )
  pub count_law : (n : String) (q : Server F) → count n q ≡ length (points_of n q)
