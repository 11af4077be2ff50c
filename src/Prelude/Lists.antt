-- ===== src/Prelude/Lists.antt =====
-- Lists under Boolean tests, measured by native numbers.
use Prim.Native.Nat.{ℕ, zero, suc, ◌+◌, ◌≤◌}
use mathlib.Core.Path.{◌≡◌, refl}
use mathlib.Core.Bool.{Bool, true, false, not, ◌||◌}
use mathlib.Core.List.{List, [], ◌∷◌, ◌++◌}
use native.Mathlib.Omega.{arith}
use recall_select.Prelude.Tests.{if◌then◌else◌}

module _ {ℓ} {A : Type ℓ} where
  abbrev pub length : List A → ℕ
  length [] = 0
  length (x ∷ xs) = suc (length xs)

  abbrev pub take : ℕ → List A → List A
  take zero xs = []
  take (suc n) [] = []
  take (suc n) (x ∷ xs) = x ∷ take n xs

  abbrev pub drop : ℕ → List A → List A
  drop zero xs = xs
  drop (suc n) [] = []
  drop (suc n) (x ∷ xs) = drop n xs

  -- How many elements pass a test.
  abbrev pub count : (A → Bool) → List A → ℕ
  count p [] = 0
  count p (x ∷ xs) = (if p x then 1 else 0) + count p xs

  abbrev pub any : (A → Bool) → List A → Bool
  any p [] = false
  any p (x ∷ xs) = p x || any p xs

  -- Every element has the property.
  abbrev pub All {κ} : (A → Type κ) → List A → Type κ
  All P [] = Unit
  All P (x ∷ xs) = P x × All P xs

  -- The keys stand in ascending order.
  abbrev pub IsAscendingFrom : (A → ℕ) → ℕ → List A → Type 0
  IsAscendingFrom key n [] = Unit
  IsAscendingFrom key n (x ∷ xs) = (n ≤ key x) × IsAscendingFrom key (key x) xs

  abbrev pub IsAscending : (A → ℕ) → List A → Type 0
  IsAscending key xs = IsAscendingFrom key 0 xs

  abbrev pub IsDescendingFrom : (A → ℕ) → ℕ → List A → Type 0
  IsDescendingFrom key n [] = Unit
  IsDescendingFrom key n (x ∷ xs) = (key x ≤ n) × IsDescendingFrom key (key x) xs

  abbrev pub IsDescending : (A → ℕ) → List A → Type 0
  IsDescending key [] = Unit
  IsDescending key (x ∷ xs) = IsDescendingFrom key (key x) xs

  pub length-take-le : (n : ℕ) (xs : List A) → length (take n xs) ≤ n
  length-take-le zero xs = omega arith
  length-take-le (suc n) [] = omega arith
  length-take-le (suc n) (x ∷ xs) = omega (arith, length-take-le n xs)

  pub take-All {κ} : (P : A → Type κ) (n : ℕ) (xs : List A) → All P xs → All P (take n xs)
  take-All P zero xs h = tt
  take-All P (suc n) [] h = tt
  take-All P (suc n) (x ∷ xs) h = (h.0, take-All P n xs h.1)

  pub All-map {κ μ} :
      {P : A → Type κ} {Q : A → Type μ}
      → ((a : A) → P a → Q a)
      → (xs : List A) → All P xs
      → All Q xs
  All-map f [] h = tt
  All-map f (x ∷ xs) h = (f x h.0, All-map f xs h.1)

  pub count-append : (p : A → Bool) (xs ys : List A) → count p (xs ++ ys) ≡ count p xs + count p ys
  count-append p [] ys = omega arith
  count-append p (x ∷ xs) ys = omega (arith, count-append p xs ys)

  -- A Boolean property of all elements, by the count of those without it.
  pub All-of_count :
      (q : A → Bool) (xs : List A) → count (λ a. not (q a)) xs ≡ 0 → All (λ a. q a ≡ true) xs
  All-of_count q [] e = tt
  All-of_count q (x ∷ xs) e = (ground arith, All-of_count q xs (ground arith))

  pub count_of_All :
      (q : A → Bool) (xs : List A) → All (λ a. q a ≡ true) xs → count (λ a. not (q a)) xs ≡ 0
  count_of_All q [] h = refl
  count_of_All q (x ∷ xs) h = ground (arith, count_of_All q xs)

  pub take-IsAscendingFrom :
      (key : A → ℕ) (k n : ℕ) (xs : List A)
      → IsAscendingFrom key k xs
      → IsAscendingFrom key k (take n xs)
  take-IsAscendingFrom key k zero xs h = tt
  take-IsAscendingFrom key k (suc n) [] h = tt
  take-IsAscendingFrom key k (suc n) (x ∷ xs) h = (h.0, take-IsAscendingFrom key (key x) n xs h.1)
