-- ===== src/Sorting.antt =====
-- `sorted` and `sort` with `reverse=True`, and `max`, by a key.
pub mod Elements
use recall_select.Prelude.{List, [], ◌∷◌, Bool, if◌then◌else◌, Option, none, some}

-- Sorting by a key, largest first, which leaves elements with equal keys in their order.
module _ {A K : Type 0} (below : K → K → Bool) (key : A → K) where
  unfoldable pub insert_descending : A → List A → List A
  insert_descending x [] = x ∷ []
  insert_descending x (y ∷ ys) =
      if below (key x) (key y) then y ∷ insert_descending x ys else x ∷ y ∷ ys

  unfoldable pub sort_reverse : List A → List A
  sort_reverse [] = []
  sort_reverse (x ∷ xs) = insert_descending x (sort_reverse xs)

  -- `max`: the first of the largest.
  abbrev pub largest_from : A → List A → A
  largest_from best [] = best
  largest_from best (x ∷ xs) = largest_from (if below (key best) (key x) then x else best) xs

  abbrev pub largest : List A → Option A
  largest [] = none
  largest (x ∷ xs) = some (largest_from x xs)
