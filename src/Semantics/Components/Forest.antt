-- ===== src/Semantics/Components/Forest.antt =====
-- The parents as a forest, and `find` on it.
use recall_select.Prelude.{
  ℕ, zero, suc, ◌+◌, ◌≤◌, ◌<◌, ◌≡◌, ◌≢◌, inl, inr, refl, sym, ap, ◌∙◌, List, [], ◌∷◌, ◌&&◌,
  if◌then◌else◌, eqb, ltb, length, Bool-cases, arith,
}
use recall_select.Semantics.Components.{get_or, set, at, find, range_from}

get_or-set :
    (xs : List ℕ) (i j v d : ℕ)
    → get_or (set xs i v) j d ≡ (if eqb i j && ltb i (length xs) then v else get_or xs j d)
get_or-set [] i j v d = ground arith
get_or-set (x ∷ xs) zero zero v d = ground arith
get_or-set (x ∷ xs) zero (suc j) v d = ground arith
get_or-set (x ∷ xs) (suc i) zero v d = ground arith
get_or-set (x ∷ xs) (suc i) (suc j) v d = ground (arith, get_or-set xs i j v d)

get_or-past : (xs : List ℕ) (i d : ℕ) → length xs ≤ i → get_or xs i d ≡ d
get_or-past [] i d h = refl
get_or-past (x ∷ xs) zero d h = elim h [ ]
get_or-past (x ∷ xs) (suc i) d h = ground (arith, get_or-past xs i d)

-- A write at a position that is no root is read back.
at-set :
    (parent : List ℕ) (x v y : ℕ)
    → x < length parent
    → at (set parent x v) y ≡ (if eqb x y then v else at parent y)
at-set parent x v y h = ground (arith, get_or-set parent x y v y)

not_root-lt : (parent : List ℕ) (x : ℕ) → at parent x ≢ x → x < length parent
not_root-lt parent x h = ground (arith, get_or-past parent x x)

at-range_from : (a n i d : ℕ) → d ≡ a + i → get_or (range_from a n) i d ≡ d
at-range_from a zero i d h = refl
at-range_from a (suc n) zero d h = ground arith
at-range_from a (suc n) (suc i) d h = at-range_from (suc a) n i d (omega arith)

pub length-set : (xs : List ℕ) (i v : ℕ) → length (set xs i v) ≡ length xs
length-set [] i v = refl
length-set (x ∷ xs) zero v = refl
length-set (x ∷ xs) (suc i) v = ap suc (length-set xs i v)

-- `label` is constant on each tree and is its root, and `depth` falls on the way up.
pub record IsForest (parent : List ℕ) (label depth : ℕ → ℕ) : Type 0 where
  pub same : (x : ℕ) → label (at parent x) ≡ label x
  pub root : (x : ℕ) → at parent x ≡ x → label x ≡ x
  pub top : (x : ℕ) → at parent (label x) ≡ label x
  pub ground_level : (x : ℕ) → depth (label x) ≡ 0
  pub falls : (x : ℕ) → at parent x ≢ x → depth (at parent x) < depth x

pub range-IsForest : (n : ℕ) → IsForest (range_from 0 n) (λ x. x) (λ x. 0)
range-IsForest n =
    let roots = λ (x : ℕ). at-range_from 0 n x x (omega arith) in
    record {
      same = roots;
      root = λ x e. refl;
      top = roots;
      ground_level = λ x. refl;
      falls = λ x h. absurd (h (roots x));
    }

-- Hanging one tree below the root of another, whose vertices sink by one.
abbrev pub hung : (label : ℕ → ℕ) (ra rb : ℕ) → ℕ → ℕ
hung label ra rb y = if eqb (label y) ra then rb else label y

abbrev pub sunk : (label depth : ℕ → ℕ) (ra : ℕ) → ℕ → ℕ
sunk label depth ra y = if eqb (label y) ra then suc (depth y) else depth y

module _ (label depth : ℕ → ℕ) (parent : List ℕ) (f : IsForest parent label depth) where
  grandparent-lt : (x : ℕ) → at parent x ≢ x → depth (at parent (at parent x)) < depth x
  grandparent-lt x h =
      let p = at parent x in
      elim (Bool-cases (eqb (at parent p) p)) [
        | inl t ↦ let e : at parent p ≡ p = ground arith in rw e (f.falls x h)
        | inr t ↦
            let k : at parent p ≢ p = λ e. ground arith in omega (arith, f.falls x h, f.falls p k)
      ]

  -- Halving one step of a path.
  halved-IsForest :
      (x : ℕ) → at parent x ≢ x → IsForest (set parent x (at parent (at parent x))) label depth
  halved-IsForest x h =
      let p = at parent x in
      let write = λ (y : ℕ). at-set parent x (at parent p) y (not_root-lt parent x h) in
      let fall = grandparent-lt x h in
      record {
        same = λ y. ground (arith, write y, f.same y, f.same x, f.same p);
        root = λ y e. ground (arith, write y, e, f.root y, fall);
        top = λ y. ground (arith, write (label y), f.top y, h);
        ground_level = f.ground_level;
        falls = λ y k. ground (arith, write y, k, f.falls y, fall);
      }

  pub set-IsForest :
      (a b : ℕ)
      → label a ≢ label b
      → label a < length parent
      → IsForest
          (set parent (label a) (label b))
          (hung label (label a) (label b))
          (sunk label depth (label a))
  set-IsForest a b h lt =
      let ra = label a in
      let rb = label b in
      let write = λ (y : ℕ). at-set parent ra rb y lt in
      let la : label ra ≡ ra = f.root ra (f.top a) in
      let lb : label rb ≡ rb = f.root rb (f.top b) in
      record {
        same = λ y. ground (arith, write y, f.same y, la, lb, h);
        root = λ y e. ground (arith, write y, f.root y, la, lb, h, e);
        top = λ y. ground (arith, write (label y), write rb, f.top y, f.top b, la, lb, h);
        ground_level = λ y.
            ground
              (arith, la, lb, h, f.ground_level y, f.ground_level b, f.root (label y) (f.top y));
        falls = λ y k.
            ground (arith, write y, k, f.falls y, f.same y, f.top a, la, lb, h, f.ground_level b);
      }

-- `find` ends within its fuel at the root of the tree, and halves paths only.
pub find_lem :
    (label depth : ℕ → ℕ) (fuel x : ℕ) (parent : List ℕ)
    → IsForest parent label depth
    → depth x < fuel
    → ((find fuel x parent).0 ≡ label x)
      × IsForest (find fuel x parent).1 label depth
      × (length (find fuel x parent).1 ≡ length parent)
unfolding find
find_lem label depth zero x parent f h = elim h [ ]
find_lem label depth (suc fuel) x parent f h = elim (Bool-cases (eqb (at parent x) x)) [
  | inl t ↦ let e : at parent x ≡ x = ground arith in rw (t, find) (sym (f.root x e), f, refl)
  | inr t ↦
      let k : at parent x ≢ x = λ e. ground arith in
      let halved = set parent x (at parent (at parent x)) in
      let f' : IsForest halved label depth = halved-IsForest label depth parent f x k in
      let up : at halved x ≡ at parent (at parent x) =
        ground (arith, at-set parent x (at parent (at parent x)) x (not_root-lt parent x k)) in
      let rest =
        find_lem label depth fuel (at halved x) halved f'
          (rw up (omega (arith, grandparent-lt label depth parent f x k))) in
      rw (t, find)
        (
          rest.0 ∙ ap label up ∙ f.same (at parent x) ∙ f.same x,
          rest.1,
          rest.2 ∙ length-set parent x (at parent (at parent x)),
        )
]
