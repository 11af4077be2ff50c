-- ===== src/Mongo/InMemory.antt =====
-- A driver that keeps its documents in a list, which shows that the laws of `Driver` can be met,
-- and on which tests run.
use mathlib.Core.Option
use recall_select.Prelude.{
  ℕ, ◌+◌, ◌≤◌, ◌≡◌, refl, Bool, not, none, some, List, [], ◌∷◌, count, any, IsAscending,
  IsAscendingFrom, IsDescending, IsDescendingFrom, arith, leb, eqb, take, if◌then◌else◌,
}
use recall_select.Mongo.Interface.{Driver}
use recall_select.Mongo.Query.{filter, first, update_first, erase_first, IsInsertion, here, later}

module _ {D : Type 0} where
  abbrev pub appended : D → List D → List D
  appended d [] = d ∷ []
  appended d (x ∷ xs) = x ∷ appended d xs

  pub appended-IsInsertion : (d : D) (ds : List D) → IsInsertion d ds (appended d ds)
  appended-IsInsertion d [] = here
  appended-IsInsertion d (x ∷ xs) = later (appended-IsInsertion d xs)

  -- Insertion sort.
  abbrev pub insert_ascending : (D → ℕ) → D → List D → List D
  insert_ascending key d [] = d ∷ []
  insert_ascending key d (x ∷ xs) =
      if leb (key d) (key x) then d ∷ x ∷ xs else x ∷ insert_ascending key d xs

  abbrev pub sort_ascending : (D → ℕ) → List D → List D
  sort_ascending key [] = []
  sort_ascending key (x ∷ xs) = insert_ascending key x (sort_ascending key xs)

  abbrev pub insert_descending : (D → ℕ) → D → List D → List D
  insert_descending key d [] = d ∷ []
  insert_descending key d (x ∷ xs) =
      if leb (key x) (key d) then d ∷ x ∷ xs else x ∷ insert_descending key d xs

  abbrev pub sort_descending : (D → ℕ) → List D → List D
  sort_descending key [] = []
  sort_descending key (x ∷ xs) = insert_descending key x (sort_descending key xs)

  count-insert_ascending :
      (key : D → ℕ) (p : D → Bool) (d : D) (xs : List D)
      → count p (insert_ascending key d xs) ≡ (if p d then 1 else 0) + count p xs
  count-insert_ascending key p d [] = refl
  count-insert_ascending key p d (x ∷ xs) = ground (arith, count-insert_ascending key p d xs)

  pub count-sort_ascending :
      (key : D → ℕ) (p : D → Bool) (xs : List D) → count p (sort_ascending key xs) ≡ count p xs
  count-sort_ascending key p [] = refl
  count-sort_ascending key p (x ∷ xs) =
      omega (
        arith,
        count-sort_ascending key p xs,
        count-insert_ascending key p x (sort_ascending key xs),
      )

  insert_ascending-from :
      (key : D → ℕ) (n : ℕ) (d : D) (xs : List D)
      → n ≤ key d
      → IsAscendingFrom key n xs
      → IsAscendingFrom key n (insert_ascending key d xs)
  insert_ascending-from key n d [] h s = (h, tt)
  insert_ascending-from key n d (x ∷ xs) h s =
      ground (arith, insert_ascending-from key (key x) d xs)

  pub sort_ascending-sorted : (key : D → ℕ) (xs : List D) → IsAscending key (sort_ascending key xs)
  sort_ascending-sorted key [] = tt
  sort_ascending-sorted key (x ∷ xs) =
      insert_ascending-from key 0 x (sort_ascending key xs) (omega arith)
        (sort_ascending-sorted key xs)

  count-insert_descending :
      (key : D → ℕ) (p : D → Bool) (d : D) (xs : List D)
      → count p (insert_descending key d xs) ≡ (if p d then 1 else 0) + count p xs
  count-insert_descending key p d [] = refl
  count-insert_descending key p d (x ∷ xs) = ground (arith, count-insert_descending key p d xs)

  pub count-sort_descending :
      (key : D → ℕ) (p : D → Bool) (xs : List D) → count p (sort_descending key xs) ≡ count p xs
  count-sort_descending key p [] = refl
  count-sort_descending key p (x ∷ xs) = omega (
    arith,
    count-sort_descending key p xs,
    count-insert_descending key p x (sort_descending key xs),
  )

  insert_descending-from :
      (key : D → ℕ) (n : ℕ) (d : D) (xs : List D)
      → key d ≤ n
      → IsDescendingFrom key n xs
      → IsDescendingFrom key n (insert_descending key d xs)
  insert_descending-from key n d [] h s = (h, tt)
  insert_descending-from key n d (x ∷ xs) h s =
      ground (arith, insert_descending-from key (key x) d xs)

  insert_descending-sorted :
      (key : D → ℕ) (d : D) (xs : List D)
      → IsDescending key xs
      → IsDescending key (insert_descending key d xs)
  insert_descending-sorted key d [] s = tt
  insert_descending-sorted key d (x ∷ xs) s =
      ground (arith, insert_descending-from key (key x) d xs)

  pub sort_descending-sorted :
      (key : D → ℕ) (xs : List D) → IsDescending key (sort_descending key xs)
  sort_descending-sorted key [] = tt
  sort_descending-sorted key (x ∷ xs) =
      insert_descending-sorted key x (sort_descending key xs) (sort_descending-sorted key xs)

instance abbrev pub in_memory : Driver
in_memory = record {
  find = λ D f ds. filter f ds;
  find_one = λ D f ds. first f ds;
  sort_ascending = λ D key ds. sort_ascending key ds;
  sort_descending = λ D key ds. sort_descending key ds;
  limit = λ D n ds. if eqb n 0 then ds else take n ds;
  placed = λ D d ds. appended d ds;
  insert_one = λ D unique d ds. if any (unique d) ds then none else some (appended d ds);
  find_one_and_update = λ D f u ds. (Option.map u (first f ds), update_first f u ds);
  find_one_and_upsert = λ D f u d ds. elim (first f ds) [
    | some a ↦ (u a, update_first f u ds)
    | none ↦ (d, appended d ds)
  ];
  delete_one = λ D f ds. ((if any f ds then 1 else 0), erase_first f ds);
  delete_many = λ D f ds. (count f ds, filter (λ d. not (f d)) ds);
  find_law = λ D f ds. refl;
  find_one_law = λ D f ds. refl;
  sort_ascending_same = λ D key p ds. count-sort_ascending key p ds;
  sort_ascending_sorted = λ D key ds. sort_ascending-sorted key ds;
  sort_descending_same = λ D key p ds. count-sort_descending key p ds;
  sort_descending_sorted = λ D key ds. sort_descending-sorted key ds;
  limit_law = λ D n ds. refl;
  placed_law = λ D d ds. appended-IsInsertion d ds;
  insert_one_law = λ D unique d ds. refl;
  find_one_and_update_law = λ D f u ds. refl;
  find_one_and_upsert_law = λ D f u d ds. refl;
  delete_one_law = λ D f ds. refl;
  delete_many_law = λ D f ds. refl;
}
