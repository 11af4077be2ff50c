-- ===== src/Admin/Memories/Pages.antt =====
-- The pages of the viewer, put together.
use recall_select.Prelude.{
  ℕ, zero, suc, ◌+◌, ◌≤◌, ◌≡◌, refl, sym, ap, ◌∙◌, Bool, true, false, not, Option, none, some, List,
  [], ◌∷◌, ◌++◌, String, ◌==◌, map, take, drop, length, count, ltb, Bool-cases, Option-cases, inl,
  inr, arith, eq_iff, eq_of_==,
}
use recall_select.Mongo.{Driver}
use recall_select.Documents.{User, Project, Database}
use recall_select.Users.{get_user}
use recall_select.Projects.{get_project}
use recall_select.Collections.{collection_name}
use recall_select.Qdrant.{Client}
use recall_select.Qdrant.Points.{Json, Server}
use recall_select.Store.{scroll_points}
use recall_select.Sorting.Elements.{count-sort_reverse}
use recall_select.Admin.Memories.{
  MemoryRow, memory_row, memory_scan_limit, pos, View, all_rows, view_of, stored_key, user_memories,
}

module _ {A : Type 0} where
  take-nil : (n : ℕ) → take {A = A} n [] ≡ []
  take-nil zero = refl
  take-nil (suc n) = refl

  take-append-drop : (n m : ℕ) (xs : List A) → take n xs ++ take m (drop n xs) ≡ take (n + m) xs
  take-append-drop zero m xs = ap (λ k. take k xs) (omega arith)
  take-append-drop (suc n) m [] = take-nil m ∙ sym (take-nil (suc n + m))
  take-append-drop (suc n) m (x ∷ xs) =
      let later : suc (n + m) ≡ suc n + m = omega arith in
      ap (λ ys. x ∷ ys) (take-append-drop n m xs) ∙ ap (λ k. take k (x ∷ xs)) later

  take_all : (n : ℕ) (xs : List A) → length xs ≤ n → take n xs ≡ xs
  take_all zero [] h = refl
  take_all zero (x ∷ xs) h = absurd (omega (arith, h))
  take_all (suc n) [] h = refl
  take_all (suc n) (x ∷ xs) h = ap (λ ys. x ∷ ys) (take_all n xs (omega (arith, h)))

module _ {F : Type 0} where
  abbrev pub rows_of : Option (View F) → List (MemoryRow F)
  rows_of none = []
  rows_of (some v) = v.rows

  abbrev pub is_last : Option (View F) → Bool
  is_last none = true
  is_last (some v) = not v.has_next

module _ {F : Type 0} ⦃mongo : Driver⦄ ⦃qdrant : Client F⦄ (printed : Json → String)
    (text_below : String → String → Bool) (user_id project_id : String) (limit : ℕ) (db : Database)
    (q : Server F) where
  -- The offsets that the links to the next page lead to.
  abbrev pub offset_of : ℕ → ℕ
  offset_of zero = 0
  offset_of (suc n) = offset_of n + limit

  abbrev pub page_at : ℕ → Option (View F)
  page_at n = user_memories printed text_below user_id project_id (pos (offset_of n)) limit db q

  -- The rows of the first pages.
  abbrev pub shown : ℕ → List (MemoryRow F)
  shown zero = []
  shown (suc n) = shown n ++ rows_of (page_at n)

  -- The user and the project are there, and belong together.
  IsOwned : Type 0
  IsOwned =
      (user : User) × (project : Project) × (get_user user_id db ≡ some user)
      × (get_project project_id db ≡ some project)
      × (project.user_id ≡ user_id)

  page_at_lem :
      (user : User) (project : Project) (n : ℕ)
      → get_user user_id db ≡ some user
      → get_project project_id db ≡ some project
      → project.user_id ≡ user_id
      → page_at n
        ≡ some (view_of printed text_below user_id project_id user project (offset_of n) limit db q)
  unfolding user_memories
  page_at_lem user project n eu ep own =
      let same : (project.user_id == user_id) ≡ true = (eq_iff project.user_id user_id).1 own in
      rw (eu, ep, same, user_memories) refl

  page_at-owned : (n : ℕ) (v : View F) → page_at n ≡ some v → IsOwned
  unfolding user_memories IsOwned
  page_at-owned n v h = elim (Option-cases (get_user user_id db)) [
    | inl eu ↦ absurd (ground (arith, eu, h))
    | inr (user, eu) ↦ elim (Option-cases (get_project project_id db)) [
      | inl ep ↦ absurd (ground (arith, eu, ep, h))
      | inr (project, ep) ↦ elim (Bool-cases (project.user_id == user_id)) [
        | inl own ↦ (user, project, eu, ep, eq_of_== project.user_id user_id own)
        | inr own ↦ absurd (ground (arith, eu, ep, own, h))
      ]
    ]
  ]

  shown_lem :
      (user : User) (project : Project) (n : ℕ)
      → get_user user_id db ≡ some user
      → get_project project_id db ≡ some project
      → project.user_id ≡ user_id
      → shown n ≡ take (offset_of n) (all_rows printed text_below user_id project_id q)
  shown_lem user project zero eu ep own = refl
  shown_lem user project (suc n) eu ep own =
      let rows = all_rows printed text_below user_id project_id q in
      rw (shown_lem user project n eu ep own, page_at_lem user project n eu ep own)
        (take-append-drop (offset_of n) limit rows)

  -- The pages of the viewer up to one that has no next page show every memory that the scan of the
  -- project's collection returns, as often as the scan does; and there is a page only if the project
  -- is the user's.
  pub user_memories_lem :
      (n : ℕ) (v : View F) (f : MemoryRow F → Bool)
      → page_at n ≡ some v
      → v.has_next ≡ false
      → (count f (shown (suc n))
          ≡ count f (
              map memory_row
                (scroll_points (collection_name user_id project_id) (some memory_scan_limit) q)))
        × ((project : Project) × (get_project project_id db ≡ some project)
            × (project.user_id ≡ user_id))
  unfolding all_rows IsOwned
  user_memories_lem n v f h last =
      let (user, project, eu, ep, own) = page_at-owned n v h in
      let rows = all_rows printed text_below user_id project_id q in
      let view =
        view_of printed text_below user_id project_id user project (offset_of n) limit db q in
      let same : some view ≡ some v = sym (page_at_lem user project n eu ep own) ∙ h in
      let closed : not (ltb (offset_of n + limit) (length rows)) ≡ not v.has_next =
        ap is_last same in
      let ended : ltb (offset_of n + limit) (length rows) ≡ false = ground (arith, closed, last) in
      let whole : shown (suc n) ≡ rows =
        shown_lem user project (suc n) eu ep own
        ∙ take_all (offset_of n + limit) rows (ground (arith, ended)) in
      (
        ap (count f) whole
            ∙ count-sort_reverse text_below (stored_key printed text_below) f (
                map memory_row
                  (scroll_points (collection_name user_id project_id) (some memory_scan_limit) q)),
        (project, ep, own),
      )
