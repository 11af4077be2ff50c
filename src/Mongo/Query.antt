-- ===== src/Mongo/Query.antt =====
-- What a query means on the documents of a collection, in their natural order.
use recall_select.Prelude.{
  ◌+◌, ◌≡◌, refl, Bool, true, false, Option, none, some, List, [], ◌∷◌, arith, count, All,
  if◌then◌else◌, Bool-cases, inl, inr,
}
use mathlib.Core.Path.{subst}

module _ {ℓ} {A : Type ℓ} where
  -- `find`
  abbrev pub filter : (A → Bool) → List A → List A
  filter f [] = []
  filter f (x ∷ xs) = if f x then x ∷ filter f xs else filter f xs

  -- `find_one`
  abbrev pub first : (A → Bool) → List A → Option A
  first f [] = none
  first f (x ∷ xs) = if f x then some x else first f xs

  -- The write of `find_one_and_update` and `update_one`: the first match alone changes.
  abbrev pub update_first : (A → Bool) → (A → A) → List A → List A
  update_first f u [] = []
  update_first f u (x ∷ xs) = if f x then u x ∷ xs else x ∷ update_first f u xs

  -- `delete_one`
  abbrev pub erase_first : (A → Bool) → List A → List A
  erase_first f [] = []
  erase_first f (x ∷ xs) = if f x then xs else x ∷ erase_first f xs

  -- The documents after `insert_one`: the old ones in their order, with `d` somewhere among them.
  pub data IsInsertion (d : A) : List A → List A → Type ℓ where
    here : {xs : List A} → IsInsertion d xs (d ∷ xs)
    later : {x : A} {xs ys : List A} → IsInsertion d xs ys → IsInsertion d (x ∷ xs) (x ∷ ys)

  pub count-insertion :
      (p : A → Bool) {d : A} {xs ys : List A}
      → IsInsertion d xs ys
      → count p ys ≡ (if p d then 1 else 0) + count p xs
  count-insertion p here = refl
  count-insertion p (later i) = omega (arith, count-insertion p i)

  -- A query that the new document does not match finds what it found.
  pub first-insertion_miss :
      (f : A → Bool) {d : A} {xs ys : List A}
      → IsInsertion d xs ys
      → f d ≡ false
      → first f ys ≡ first f xs
  first-insertion_miss f here h = rw h
  first-insertion_miss f (later i) h = rw (first-insertion_miss f i h)

  -- A query that only the new document matches finds it.
  pub first-insertion_hit :
      (f : A → Bool) {d : A} {xs ys : List A}
      → IsInsertion d xs ys
      → first f xs ≡ none
      → f d ≡ true
      → first f ys ≡ some d
  first-insertion_hit f here e h = rw h
  first-insertion_hit f (later {x = x} {xs = xs} i) e h = ground (arith, first-insertion_hit f i)

  pub All-insertion {κ} :
      (P : A → Type κ) {d : A} {xs ys : List A} → IsInsertion d xs ys → All P xs → P d → All P ys
  All-insertion P here h p = (p, h)
  All-insertion P (later i) h p = (h.0, All-insertion P i h.1 p)

  pub first_matches : (f : A → Bool) (xs : List A) (a : A) → first f xs ≡ some a → f a ≡ true
  first_matches f [] a e = cc
  first_matches f (x ∷ xs) a e = ground (arith, first_matches f xs a)

  pub All-first {κ} :
      (P : A → Type κ) (f : A → Bool) (xs : List A) (a : A) → All P xs → first f xs ≡ some a → P a
  All-first P f [] a h e = absurd (cc)
  All-first P f (x ∷ xs) a h e = elim (Bool-cases (f x)) [
    | inl t ↦ let same : x ≡ a = ground arith in subst P same h.0
    | inr t ↦ All-first P f xs a h.1 (rw t at e)
  ]

  pub update_first-none :
      (f : A → Bool) (u : A → A) (xs : List A) → first f xs ≡ none → update_first f u xs ≡ xs
  update_first-none f u [] e = refl
  update_first-none f u (x ∷ xs) e = ground (arith, update_first-none f u xs)

  -- A query finds the same after an update that changes none of its answers.
  pub first-update_first_same :
      (g f : A → Bool) (u : A → A) (xs : List A)
      → ((a : A) → f a ≡ true → g a ≡ false)
      → ((a : A) → f a ≡ true → g (u a) ≡ false)
      → first g (update_first f u xs) ≡ first g xs
  first-update_first_same g f u [] h k = refl
  first-update_first_same g f u (x ∷ xs) h k =
      ground (arith, h x, k x, first-update_first_same g f u xs h k)

  -- A query that matches just what the update matches finds the updated document.
  pub first-update_first_self :
      (g f : A → Bool) (u : A → A) (xs : List A)
      → ((a : A) → g a ≡ f a)
      → ((a : A) → f a ≡ true → g (u a) ≡ true)
      → (a : A) → first f xs ≡ some a
      → first g (update_first f u xs) ≡ some (u a)
  first-update_first_self g f u [] h k a e = cc
  first-update_first_self g f u (x ∷ xs) h k a e =
      ground (arith, h x, k x, first-update_first_self g f u xs h k a)

  pub count-update_first_same :
      (p f : A → Bool) (u : A → A) (xs : List A)
      → ((a : A) → p (u a) ≡ p a)
      → count p (update_first f u xs) ≡ count p xs
  count-update_first_same p f u [] h = refl
  count-update_first_same p f u (x ∷ xs) h = ground (arith, h x, count-update_first_same p f u xs h)

  pub first-none-count : (f : A → Bool) (xs : List A) → first f xs ≡ none → count f xs ≡ 0
  first-none-count f [] e = refl
  first-none-count f (x ∷ xs) e = ground (arith, first-none-count f xs)

  -- A query that matched nothing finds the updated document, if it matches that.
  pub first-update_first_new :
      (g f : A → Bool) (u : A → A) (xs : List A) (a : A)
      → first g xs ≡ none
      → first f xs ≡ some a
      → g (u a) ≡ true
      → first g (update_first f u xs) ≡ some (u a)
  first-update_first_new g f u [] a n e k = cc
  first-update_first_new g f u (x ∷ xs) a n e k = elim (Bool-cases (f x)) [
    | inl t ↦ let same : x ≡ a = ground arith in rw (t, same, k) refl
    | inr t ↦ ground (arith, first-update_first_new g f u xs a)
  ]

  -- A document that one query finds is there for another that it matches.
  pub first-ne-none :
      (g f : A → Bool) (xs : List A) (a : A)
      → first g xs ≡ some a
      → f a ≡ true
      → (b : A) × (first f xs ≡ some b)
  first-ne-none g f [] a e k = absurd (cc)
  first-ne-none g f (x ∷ xs) a e k = elim (Bool-cases (f x)) [
    | inl t ↦ (x, rw t)
    | inr t ↦ rw t (
        first-ne-none g f xs a
          (elim (Bool-cases (g x)) [
            | inl s ↦
                let same : x ≡ a = ground arith in
                let bad : f x ≡ true = rw (same, k) refl in absurd (cc)
            | inr s ↦ ground arith
          ])
          k)
  ]
