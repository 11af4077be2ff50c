-- ===== src/Mongo/Counts.antt =====
-- Counting the documents that pass a test, across the writes.
use recall_select.Prelude.{
  ℕ, ◌+◌, ◌≤◌, ◌≡◌, refl, Bool, true, false, some, List, [], ◌∷◌, arith, count, any, All,
  Bool-cases, inl, inr, if◌then◌else◌,
}
use recall_select.Mongo.Query.{first, update_first, IsInsertion, here, later}

abbrev pub one_if : Bool → ℕ
one_if b = if b then 1 else 0

module _ {ℓ} {A : Type ℓ} where
  -- An update moves one document from one side of the test to the other.
  pub count-update_first :
      (p f : A → Bool) (u : A → A) (xs : List A) (a : A)
      → first f xs ≡ some a
      → count p (update_first f u xs) + one_if (p a) ≡ count p xs + one_if (p (u a))
  count-update_first p f u [] a e = cc
  count-update_first p f u (x ∷ xs) a e = elim (Bool-cases (f x)) [
    | inl t ↦ let same : x ≡ a = ground arith in rw (t, same) (omega arith)
    | inr t ↦ rw t (omega (arith, count-update_first p f u xs a (rw t at e)))
  ]

  pub any-update_first_same :
      (p f : A → Bool) (u : A → A) (xs : List A)
      → ((a : A) → p (u a) ≡ p a)
      → any p (update_first f u xs) ≡ any p xs
  any-update_first_same p f u [] h = refl
  any-update_first_same p f u (x ∷ xs) h = ground (arith, h x, any-update_first_same p f u xs h)

  pub any-insertion :
      (p : A → Bool) {d : A} {xs ys : List A}
      → IsInsertion d xs ys
      → any p xs ≡ true
      → any p ys ≡ true
  any-insertion p (here {xs = xs}) e = ground arith
  any-insertion p (later i) e = ground (arith, any-insertion p i)

  -- Something passes the test just when the query finds it.
  pub first_of_any :
      (f : A → Bool) (xs : List A) → any f xs ≡ true → (a : A) × (first f xs ≡ some a)
  first_of_any f [] e = absurd (cc)
  first_of_any f (x ∷ xs) e = elim (Bool-cases (f x)) [
    | inl t ↦ (x, rw t refl)
    | inr t ↦ rw t (first_of_any f xs (rw t at e))
  ]

  pub any_of_first : (f : A → Bool) (xs : List A) (a : A) → first f xs ≡ some a → any f xs ≡ true
  any_of_first f [] a e = cc
  any_of_first f (x ∷ xs) a e = ground (arith, any_of_first f xs a)

  pub count-zero_of_any :
      (f g : A → Bool) (xs : List A)
      → ((a : A) → f a ≡ true → g a ≡ true)
      → any g xs ≡ false
      → count f xs ≡ 0
  count-zero_of_any f g [] h e = refl
  count-zero_of_any f g (x ∷ xs) h e = ground (arith, h x, count-zero_of_any f g xs h)

  pub All-update_first {κ} :
      (P : A → Type κ) (f : A → Bool) (u : A → A) (xs : List A)
      → ((a : A) → P a → P (u a))
      → All P xs
      → All P (update_first f u xs)
  All-update_first P f u [] k h = tt
  All-update_first P f u (x ∷ xs) k h = elim (Bool-cases (f x)) [
    | inl t ↦ rw t (k x h.0, h.1)
    | inr t ↦ rw t (h.0, All-update_first P f u xs k h.1)
  ]

  pub count_mono :
      (f g : A → Bool) (xs : List A) → ((a : A) → f a ≡ true → g a ≡ true) → count f xs ≤ count g xs
  count_mono f g [] h = omega arith
  count_mono f g (x ∷ xs) h = ground (arith, h x, count_mono f g xs h)
