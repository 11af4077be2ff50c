-- ===== src/Qdrant/InMemory.antt =====
-- A client that keeps its points in memory: the laws of the interface can hold together.
use mathlib.Core.Option
use recall_select.Prelude.{
  ℕ, eqb, ◌+◌, ◌≤◌, ◌≡◌, refl, not, Option, none, some, List, [], ◌∷◌, String, ◌==◌, take, drop,
  length, length-take-le, any, lookup, insert, lookup-insert, Dict, dropped, lookup-dropped,
  if◌then◌else◌, is_some, get_or, ltb, arith, eq_iff, map, inl, inr, Option-cases,
}
use recall_select.Mongo.Query.{filter, first, first_matches, update_first}
use recall_select.Qdrant.Points.{Point, Hit, has_id, enriched}
use recall_select.Qdrant.Interface.{Client, contains, points_of}

abbrev pub adjusted : {V : Type 0} → String → (V → V) → Dict V → Dict V
adjusted k f [] = []
adjusted k f ((j, v) ∷ d) = if j == k then (j, f v) ∷ d else (j, v) ∷ adjusted k f d

pub lookup-adjusted :
    {V : Type 0} (k : String) (f : V → V) (d : Dict V) (m : String)
    → lookup m (adjusted k f d) ≡ (if k == m then Option.map f (lookup m d) else lookup m d)
lookup-adjusted k f [] m = ground arith
lookup-adjusted k f ((j, v) ∷ d) m =
    ground (arith, eq_iff j k, eq_iff k m, eq_iff j m, lookup-adjusted k f d m)

module _ {F : Type 0} where
  abbrev pub put : Point F → List (Point F) → List (Point F)
  put p [] = p ∷ []
  put p (r ∷ ps) = if r.id == p.id then p ∷ ps else r ∷ put p ps

  pub first-put :
      (p : Point F) (ps : List (Point F)) (i : String)
      → first (has_id i) (put p ps) ≡ (if p.id == i then some p else first (has_id i) ps)
  first-put p [] i = ground arith
  first-put p (r ∷ ps) i =
      ground (arith, eq_iff r.id p.id, eq_iff p.id i, eq_iff r.id i, first-put p ps i)

  pub length-put :
      (p : Point F) (ps : List (Point F))
      → length (put p ps) ≡ (if any (has_id p.id) ps then length ps else length ps + 1)
  length-put p [] = ground arith
  length-put p (r ∷ ps) = ground (arith, eq_iff r.id p.id, length-put p ps)

  abbrev pub found : List String → List (Point F) → List (Point F)
  found [] ps = []
  found (i ∷ ids) ps =
      let rest = found ids ps in
      if contains i ids
      then rest
      else elim (first (has_id i) ps) [ none ↦ rest | some p ↦ p ∷ rest ]

  abbrev pub hit_of : F → Point F → Hit F
  hit_of score p = record { id = p.id; score = score; payload = p.payload }

  pub first-found :
      (ids : List String) (ps : List (Point F)) (i : String)
      → first (has_id i) (found ids ps) ≡ (if contains i ids then first (has_id i) ps else none)
  first-found [] ps i = refl
  first-found (j ∷ ids) ps i = elim (Option-cases (first (has_id j) ps)) [
    | inl e ↦ ground (arith, e, eq_iff j i, first-found ids ps i)
    | inr (p, e) ↦ ground (
      arith,
      e,
      eq_iff j i,
      eq_iff p.id j,
      eq_iff p.id i,
      first_matches (has_id j) ps p e,
      first-found ids ps i,
    )
  ]

  pub length-found-le :
      (ids : List String) (ps : List (Point F)) → length (found ids ps) ≤ length ids
  length-found-le [] ps = ground arith
  length-found-le (j ∷ ids) ps = ground (arith, length-found-le ids ps)

  abbrev pub page : List (Point F) → ℕ → Option ℕ → List (Point F) × Option ℕ
  page ps k offset =
      let start = get_or offset 0 in
      (take k (drop start ps), if ltb (start + k) (length ps) then some (start + k) else none)

-- The direction of a vector of one natural number.
abbrev pub unit : List ℕ → List ℕ
unit v = map (λ (x : ℕ). if eqb x 0 then 0 else 1) v

abbrev pub normalised : Point ℕ → Point ℕ
normalised p = record p { vector = unit p.vector }

pub is_some-map : {A B : Type 0} (f : A → B) (o : Option A) → is_some (Option.map f o) ≡ is_some o
is_some-map f none = refl
is_some-map f (some a) = refl

pub length-answer-le :
    (k : ℕ) (o : Option (List (Point ℕ)))
    → length (get_or (Option.map (λ ps. take k (map (hit_of 1) ps)) o) []) ≤ k
length-answer-le k none = omega arith
length-answer-le k (some ps) = length-take-le k (map (hit_of 1) ps)

abbrev pub neighbours : String → ℕ → List (Point ℕ) → Option (List (Hit ℕ))
neighbours i k ps = if any (has_id i) ps then some (take k (map (hit_of 1) ps)) else none

pub is_some-neighbours :
    (i : String) (k : ℕ) (ps : List (Point ℕ)) → is_some (neighbours i k ps) ≡ any (has_id i) ps
is_some-neighbours i k ps = ground arith

pub length-neighbours-le :
    (i : String) (k : ℕ) (ps : List (Point ℕ)) → length (get_or (neighbours i k ps) []) ≤ k
length-neighbours-le i k ps = ground (arith, length-take-le k (map (hit_of 1) ps))

-- Every hit has the same score.
instance abbrev pub in_memory : Client ℕ
in_memory = record {
  collection_exists = λ n q. is_some (lookup n q);
  create_collection = λ n size distance q. insert n [] q;
  delete_collection = dropped;
  as_kept = unit;
  placed_point = λ p. put (normalised p);
  upsert = λ n p q. adjusted n (put (normalised p)) q;
  delete = λ n i q. adjusted n (filter (λ p. not (p.id == i))) q;
  set_payload = λ n payload i q. adjusted n (update_first (has_id i) (enriched payload)) q;
  retrieve = λ n ids q. found ids (points_of n q);
  query = λ n v k q. Option.map (λ ps. take k (map (hit_of 1) ps)) (lookup n q);
  query_by_id = λ n i k q. neighbours i k (points_of n q);
  scroll = λ n k offset q. page (points_of n q) k offset;
  count = λ n q. length (points_of n q);
  collection_exists_law = λ n q. refl;
  create_collection_law = λ n size distance q m. lookup-insert n m [] q;
  delete_collection_law = λ n q m. lookup-dropped n q m;
  placed_point_first = λ p. first-put (normalised p);
  placed_point_length = λ p. length-put (normalised p);
  upsert_law = λ n p q m. lookup-adjusted n (put (normalised p)) q m;
  delete_law = λ n i q m. lookup-adjusted n (filter (λ p. not (p.id == i))) q m;
  set_payload_law =
      λ n payload i q m. lookup-adjusted n (update_first (has_id i) (enriched payload)) q m;
  retrieve_first = λ n ids q i. first-found ids (points_of n q) i;
  retrieve_bound = λ n ids q. length-found-le ids (points_of n q);
  query_answers = λ n v k q. is_some-map (λ ps. take k (map (hit_of 1) ps)) (lookup n q);
  query_bound = λ n v k q. length-answer-le k (lookup n q);
  query_by_id_answers = λ n i k q. is_some-neighbours i k (points_of n q);
  query_by_id_bound = λ n i k q. length-neighbours-le i k (points_of n q);
  scroll_law = λ n k offset q. refl;
  count_law = λ n q. refl;
}
