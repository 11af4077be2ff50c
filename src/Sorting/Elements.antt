-- ===== src/Sorting/Elements.antt =====
-- The elements of a sorted list.
use mathlib.Core.List.{Memᴰ}
use mathlib.Core.Path.{subst}
use recall_select.Prelude.{
  ◌≡◌, refl, Bool, List, [], ◌∷◌, some, All, All-map, count, Bool-cases, inl, inr, arith,
}
use recall_select.Sorting.{insert_descending, sort_reverse, largest_from, largest}

module _ {A K : Type 0} (below : K → K → Bool) (key : A → K) where
  pub All-insert_descending :
      (P : A → Type 0) (x : A) (xs : List A)
      → P x
      → All P xs
      → All P (insert_descending below key x xs)
  unfolding insert_descending
  All-insert_descending P x [] p ps = (p, tt)
  All-insert_descending P x (y ∷ ys) p ps = elim (Bool-cases (below (key x) (key y))) [
    | inl e ↦ rw (e, insert_descending) (ps.0, All-insert_descending P x ys p ps.1)
    | inr e ↦ rw (e, insert_descending) (p, ps)
  ]

  insert_descending-All :
      (P : A → Type 0) (x : A) (xs : List A)
      → All P (insert_descending below key x xs)
      → P x × All P xs
  unfolding insert_descending
  insert_descending-All P x [] = λ h. h
  insert_descending-All P x (y ∷ ys) = elim (Bool-cases (below (key x) (key y))) [
    | inl e ↦
        rw (e, insert_descending)
          (λ h. let (p, ps) = insert_descending-All P x ys h.1 in (p, (h.0, ps)))
    | inr e ↦ rw (e, insert_descending) (λ h. h)
  ]

  pub sort_reverse-All :
      (P : A → Type 0) (xs : List A) → All P (sort_reverse below key xs) → All P xs
  unfolding sort_reverse
  sort_reverse-All P [] h = tt
  sort_reverse-All P (x ∷ xs) h =
      let (p, ps) = insert_descending-All P x (sort_reverse below key xs) h in
      (p, sort_reverse-All P xs ps)

  pub All-sort_reverse :
      (P : A → Type 0) (xs : List A) → All P xs → All P (sort_reverse below key xs)
  unfolding sort_reverse
  All-sort_reverse P [] h = tt
  All-sort_reverse P (x ∷ xs) h =
      All-insert_descending P x (sort_reverse below key xs) h.0 (All-sort_reverse P xs h.1)

  count-insert_descending :
      (f : A → Bool) (x : A) (xs : List A)
      → count f (insert_descending below key x xs) ≡ count f (x ∷ xs)
  unfolding insert_descending
  count-insert_descending f x [] = refl
  count-insert_descending f x (y ∷ ys) = ground (arith, count-insert_descending f x ys)

  pub count-sort_reverse :
      (f : A → Bool) (xs : List A) → count f (sort_reverse below key xs) ≡ count f xs
  unfolding sort_reverse
  count-sort_reverse f [] = refl
  count-sort_reverse f (x ∷ xs) =
      ground
        (arith, count-insert_descending f x (sort_reverse below key xs), count-sort_reverse f xs)

  -- The largest is an element.
  largest_from_lem :
      (base : List A) (best : A) (xs : List A)
      → Memᴰ best base
      → All (λ x. Memᴰ x base) xs
      → Memᴰ (largest_from below key best xs) base
  largest_from_lem base best [] m ms = m
  largest_from_lem base best (x ∷ xs) m ms = elim (Bool-cases (below (key best) (key x))) [
    | inl e ↦ rw e (largest_from_lem base x xs ms.0 ms.1)
    | inr e ↦ rw e (largest_from_lem base best xs m ms.1)
  ]

pub members : {A : Type 0} (xs : List A) → All (λ x. Memᴰ x xs) xs
members [] = tt
members (x ∷ xs) = (Memᴰ.head refl, All-map (λ y m. Memᴰ.tail m) xs (members xs))

module _ {A K : Type 0} (below : K → K → Bool) (key : A → K) where
  pub largest_lem : (x : A) (xs : List A) → largest below key xs ≡ some x → Memᴰ x xs
  largest_lem x [] h = absurd (cc)
  largest_lem x (y ∷ ys) h =
      let same : largest_from below key y ys ≡ x = cc in
      let rest = All-map (λ z m. Memᴰ.tail m) ys (members ys) in
      subst (λ z. Memᴰ z (y ∷ ys)) same
        (largest_from_lem below key (y ∷ ys) y ys (Memᴰ.head refl) rest)
