-- ===== src/Semantics/Numbers.antt =====
-- The operations of Python's floats that the lenses use. `F` is their type; nothing is assumed of them.
use recall_select.Prelude.{ℕ, List, [], ◌∷◌, Bool, if◌then◌else◌, Option, none, some, length}

pub record Numbers (F : Type 0) : Type 0 where
  pub plus : F → F → F
  pub minus : F → F → F
  pub times : F → F → F
  pub over : F → F → F
  pub root : F → F
  pub absolute : F → F
  -- `a < b` and `a <= b`
  pub below : F → F → Bool
  pub at_most : F → F → Bool
  pub equal : F → F → Bool
  -- The float nearest to a quotient.
  pub ratio : ℕ → ℕ → F

module _ {F : Type 0} ⦃numbers : Numbers F⦄ where
  abbrev pub of_ℕ : ℕ → F
  of_ℕ n = numbers.ratio n 1

  abbrev pub sum_from : F → List F → F
  sum_from acc [] = acc
  sum_from acc (x ∷ xs) = sum_from (numbers.plus acc x) xs

  -- `zip` stops at the end of the shorter list.
  abbrev pub zip_with : (F → F → F) → List F → List F → List F
  zip_with f [] ys = []
  zip_with f (x ∷ xs) [] = []
  zip_with f (x ∷ xs) (y ∷ ys) = f x y ∷ zip_with f xs ys

  abbrev pub dot : List F → List F → F
  dot a b = sum_from (of_ℕ 0) (zip_with numbers.times a b)

  abbrev pub is_nil : List F → Bool
  is_nil [] = Bool.true
  is_nil (x ∷ xs) = Bool.false

  unfoldable pub cosine : List F → List F → F
  cosine a b =
      let na = numbers.root (dot a a) in
      let nb = numbers.root (dot b b) in
      if is_nil a
      then of_ℕ 0
      else if is_nil b
      then of_ℕ 0
      else if numbers.equal na (of_ℕ 0)
      then of_ℕ 0
      else if numbers.equal nb (of_ℕ 0)
      then of_ℕ 0
      else numbers.over (dot a b) (numbers.times na nb)

  abbrev pub non_empty : List (List F) → List (List F)
  non_empty [] = []
  non_empty (v ∷ vs) = if is_nil v then non_empty vs else v ∷ non_empty vs

  abbrev pub zeros : List F → List F
  zeros [] = []
  zeros (x ∷ xs) = of_ℕ 0 ∷ zeros xs

  abbrev pub add_all : List F → List (List F) → List F
  add_all acc [] = acc
  add_all acc (v ∷ vs) = add_all (zip_with numbers.plus acc v) vs

  abbrev pub divide_all : F → List F → List F
  divide_all n [] = []
  divide_all n (c ∷ cs) = numbers.over c n ∷ divide_all n cs

  -- The mean of vectors of one length.
  abbrev pub mean : List (List F) → Option (List F)
  mean [] = none
  mean (v ∷ vs) = some (divide_all (of_ℕ (length (v ∷ vs))) (add_all (zeros v) (v ∷ vs)))

  unfoldable pub centroid : List (List F) → Option (List F)
  centroid vectors = mean (non_empty vectors)

  -- The cosine to a centroid; without one, 0.0.
  abbrev pub cosine_to : List F → Option (List F) → F
  cosine_to v none = of_ℕ 0
  cosine_to v (some c) = cosine v c
