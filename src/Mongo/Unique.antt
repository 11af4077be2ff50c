-- ===== src/Mongo/Unique.antt =====
-- Collections in which a text key is unique, as an `_id` is.
use recall_select.Prelude.{
  ◌≤◌, ◌≡◌, refl, Bool, true, false, some, none, List, [], ◌∷◌, String, ◌==◌, arith, eq_refl,
  eq_of_==, count, All, All-map, Bool-cases, inl, inr,
}
use recall_select.Mongo.Query.{
  first, filter, update_first, IsInsertion, count-insertion, count-update_first_same,
}
use mathlib.Core.Path.{ap, subst}

module _ {ℓ} {A : Type ℓ} where
  pub first-some-count : (f : A → Bool) (xs : List A) (a : A) → first f xs ≡ some a → 1 ≤ count f xs
  first-some-count f [] a e = cc
  first-some-count f (x ∷ xs) a e = ground (arith, first-some-count f xs a)

  -- The elements that pass a test have it and what all elements have.
  pub filter-All {κ} :
      (P : A → Type κ) (f : A → Bool) (xs : List A)
      → All P xs
      → All (λ a. (f a ≡ true) × P a) (filter f xs)
  filter-All P f [] h = tt
  filter-All P f (x ∷ xs) h = elim (Bool-cases (f x)) [
    | inl t ↦ rw t ((t, h.0), filter-All P f xs h.1)
    | inr t ↦ rw t (filter-All P f xs h.1)
  ]

  pub finer_none :
      (f g : A → Bool) (xs : List A)
      → ((b : A) → g b ≡ true → f b ≡ true)
      → count f xs ≡ 0
      → first g xs ≡ none
  finer_none f g [] h z = refl
  finer_none f g (x ∷ xs) h z = ground (arith, h x, finer_none f g xs h)

  pub filter_passes : (f : A → Bool) (xs : List A) → All (λ a. f a ≡ true) (filter f xs)
  filter_passes f [] = tt
  filter_passes f (x ∷ xs) = elim (Bool-cases (f x)) [
    | inl t ↦ rw t (t, filter_passes f xs)
    | inr t ↦ rw t (filter_passes f xs)
  ]

  -- A finer query misses, where the one document that it could find does not match.
  pub first-finer_none :
      (f g : A → Bool) (xs : List A) (a : A)
      → ((b : A) → g b ≡ true → f b ≡ true)
      → count f xs ≤ 1
      → first f xs ≡ some a
      → g a ≡ false
      → first g xs ≡ none
  first-finer_none f g [] a h u e k = cc
  first-finer_none f g (x ∷ xs) a h u e k = elim (Bool-cases (f x)) [
    | inl t ↦
        let same : x ≡ a = ground arith in
        let miss : g x ≡ false = rw same k in ground (arith, finer_none f g xs h)
    | inr t ↦ ground (arith, h x, first-finer_none f g xs a h)
  ]

  -- A finer query finds the same document, where that matches.
  pub first-finer_some :
      (f g : A → Bool) (xs : List A) (a : A)
      → ((b : A) → g b ≡ true → f b ≡ true)
      → first f xs ≡ some a
      → g a ≡ true
      → first g xs ≡ some a
  first-finer_some f g [] a h e k = cc
  first-finer_some f g (x ∷ xs) a h e k = elim (Bool-cases (f x)) [
    | inl t ↦ let same : x ≡ a = ground arith in rw (same, k) refl
    | inr t ↦ ground (arith, h x, first-finer_some f g xs a h)
  ]

  -- The document that a query finds is found again after an update of it by a finer query.
  pub first-update_first_finer :
      (f g : A → Bool) (u : A → A) (xs : List A) (a : A)
      → ((b : A) → g b ≡ true → f b ≡ true)
      → first f xs ≡ some a
      → g a ≡ true
      → f (u a) ≡ true
      → first f (update_first g u xs) ≡ some (u a)
  first-update_first_finer f g u [] a h e k l = cc
  first-update_first_finer f g u (x ∷ xs) a h e k l = elim (Bool-cases (f x)) [
    | inl t ↦ let same : x ≡ a = ground arith in rw (same, k, l) refl
    | inr t ↦ ground (arith, h x, first-update_first_finer f g u xs a h)
  ]

module _ {ℓ} {A : Type ℓ} (key : A → String) where
  abbrev pub has_key : String → A → Bool
  has_key i a = key a == i

  -- No two documents have the same key.
  abbrev pub HasUniqueKeys : List A → Type 0
  HasUniqueKeys xs = (i : String) → count (has_key i) xs ≤ 1

  -- Where keys are unique, the query for a document's key finds it.
  pub first_of_own_key :
      (xs : List A) → HasUniqueKeys xs → All (λ a. first (has_key (key a)) xs ≡ some a) xs
  first_of_own_key [] h = tt
  first_of_own_key (x ∷ xs) h = (
    rw (eq_refl (key x)),
    All-map (λ a e. ground (arith, h (key a), first-some-count (has_key (key a)) xs a e)) xs
        (first_of_own_key xs (λ i. ground (arith, h i))),
  )

  -- Keys stay unique when a document is updated and keeps its key.
  pub update_first-HasUniqueKeys :
      (f : A → Bool) (u : A → A) (xs : List A)
      → ((a : A) → key (u a) ≡ key a)
      → HasUniqueKeys xs
      → HasUniqueKeys (update_first f u xs)
  update_first-HasUniqueKeys f u xs k h i =
      rw (count-update_first_same (has_key i) f u xs (λ a. ap (λ (t : String). t == i) (k a))) (h i)

  -- Keys stay unique when a document with a new key is inserted.
  pub insertion-HasUniqueKeys :
      {d : A} {xs ys : List A}
      → IsInsertion d xs ys
      → count (has_key (key d)) xs ≡ 0
      → HasUniqueKeys xs
      → HasUniqueKeys ys
  insertion-HasUniqueKeys {d = d} {xs = xs} n z h i = elim (Bool-cases (key d == i)) [
    | inl t ↦
        let same : key d ≡ i = eq_of_== _ _ t in
        ground (arith, count-insertion (has_key i) n, subst (λ j. count (has_key j) xs ≡ 0) same z)
    | inr t ↦ ground (arith, count-insertion (has_key i) n, h i)
  ]
