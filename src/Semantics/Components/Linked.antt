-- ===== src/Semantics/Components/Linked.antt =====
-- The roots after the unions, against chains of edges.
use mathlib.Core.List.{Memᴰ}
use mathlib.Core.Path.{subst}
use recall_select.Prelude.{
  ℕ, zero, suc, ◌+◌, ◌≤◌, ◌<◌, ◌≡◌, ◌≢◌, ◌↔◌, inl, inr, refl, sym, ap, ◌∙◌, List, [], ◌∷◌, eqb,
  length, All, Bool-cases, arith,
}
use recall_select.Semantics.Components.{find, union, union_all, range_from}
use recall_select.Semantics.Components.Forest.{
  IsForest, range-IsForest, find_lem, hung, sunk, set-IsForest, length-set,
}

-- The positions that edges link, in whatever direction and through whatever others.
pub data Linked (edges : List (ℕ × ℕ)) : ℕ → ℕ → Type 0 where
  here : (x : ℕ) → Linked edges x x
  edge : (a b : ℕ) → Memᴰ (a, b) edges → Linked edges a b
  back : {x y : ℕ} → Linked edges x y → Linked edges y x
  chain : {x y z : ℕ} → Linked edges x y → Linked edges y z → Linked edges x z

-- The parents of `n` positions stand for a labelling that joins only what is linked.
pub record IsJoined (n k : ℕ) (edges : List (ℕ × ℕ)) (parent : List ℕ) (label : ℕ → ℕ)
    : Type 0 where
  pub depth : ℕ → ℕ
  pub forest : IsForest parent label depth
  pub sized : length parent ≡ n
  pub inside : (x : ℕ) → x < n → label x < n
  pub shallow : (x : ℕ) → depth x ≤ k
  pub linked : (x : ℕ) → Linked edges x (label x)

pub linked_of_label :
    {n k : ℕ} {edges : List (ℕ × ℕ)} {parent : List ℕ} (label : ℕ → ℕ)
    → IsJoined n k edges parent label
    → (x y : ℕ) → label x ≡ label y
    → Linked edges x y
linked_of_label label j x y e = chain (j.linked x) (rw e (back (j.linked y)))

linked-hung :
    (edges : List (ℕ × ℕ)) (label : ℕ → ℕ) (a b : ℕ)
    → Linked edges (label a) (label b)
    → (x : ℕ) → Linked edges x (label x)
    → Linked edges x (hung label (label a) (label b) x)
linked-hung edges label a b over x l = elim (Bool-cases (eqb (label x) (label a))) [
  | inl t ↦ let e : label x ≡ label a = ground arith in rw t (chain (rw (← e) l) over)
  | inr t ↦ rw t l
]

-- One union: its ends get one label, and what had one label before has one after.
union_joins :
    (n k : ℕ) (edges : List (ℕ × ℕ)) (fuel a b : ℕ) (parent : List ℕ) (label : ℕ → ℕ)
    → a < n
    → b < n
    → k < fuel
    → Linked edges a b
    → IsJoined n k edges parent label
    → (label' : ℕ → ℕ) × IsJoined n (suc k) edges (union fuel a b parent) label'
      × (label' a ≡ label' b)
      × ((x y : ℕ) → label x ≡ label y → label' x ≡ label' y)
unfolding union
union_joins n k edges fuel a b parent label ha hb hk ab j =
    let d = j.depth in
    let (ea, fa, la) = find_lem label d fuel a parent j.forest (omega (arith, j.shallow a)) in
    let p₁ = (find fuel a parent).1 in
    let (eb, fb, lb) = find_lem label d fuel b p₁ fa (omega (arith, j.shallow b)) in
    let p₂ = (find fuel b p₁).1 in
    let sized : length p₂ ≡ n = lb ∙ la ∙ j.sized in
    elim (Bool-cases (eqb (label a) (label b))) [
      | inl t ↦ (
        label,
        record {
          depth = d;
          forest = rw (union, ea, eb, t) fb;
          sized = rw (union, ea, eb, t) sized;
          inside = j.inside;
          shallow = λ x. omega (arith, j.shallow x);
          linked = j.linked;
        },
        ground arith,
        λ x y e. e,
      )
      | inr t ↦
          let apart : label a ≢ label b = λ e. ground arith in
          let label' = hung label (label a) (label b) in
          let over : Linked edges (label a) (label b) =
            chain (back (j.linked a)) (chain ab (j.linked b)) in
          let hung_linked = λ (x : ℕ). linked-hung edges label a b over x (j.linked x) in
          (
            label',
            record {
              depth = sunk label d (label a);
              forest =
                  rw (union, ea, eb, t)
                    (set-IsForest label d p₂ fb a b apart (omega (arith, j.inside a ha, sized)));
              sized = rw (union, ea, eb, t) (length-set p₂ (label a) (label b) ∙ sized);
              inside = λ x h. ground (arith, j.inside x h, j.inside b hb);
              shallow = λ x. ground (arith, j.shallow x);
              linked = λ x. hung_linked x;
            },
            ground arith,
            λ x y e. ground (arith, e),
          )
    ]

-- What a list of edges must have to be united: ends in range, which the whole of the edges link.
abbrev pub IsWithin : ℕ → List (ℕ × ℕ) → List (ℕ × ℕ) → Type 0
IsWithin n edges es = All (λ e. (e.0 < n) × (e.1 < n) × Linked edges e.0 e.1) es

union_all_joins :
    (n : ℕ) (edges : List (ℕ × ℕ)) (fuel k : ℕ) (es : List (ℕ × ℕ)) (parent : List ℕ)
    (label : ℕ → ℕ)
    → IsWithin n edges es
    → k + length es < fuel
    → IsJoined n k edges parent label
    → (label' : ℕ → ℕ) × IsJoined n (k + length es) edges (union_all fuel es parent) label'
      × All (λ e. label' e.0 ≡ label' e.1) es
      × ((x y : ℕ) → label x ≡ label y → label' x ≡ label' y)
unfolding union_all
union_all_joins n edges fuel k [] parent label w h j =
    let e : k + 0 ≡ k = omega arith in (label, rw e j, tt, λ x y e. e)
union_all_joins n edges fuel k ((a, b) ∷ es) parent label w h j =
    let (label₁, j₁, ab, keeps₁) =
      union_joins n k edges fuel a b parent label w.0.0 w.0.1 (omega arith) w.0.2 j in
    let (label₂, j₂, all, keeps₂) =
      union_all_joins n edges fuel (suc k) es (union fuel a b parent) label₁ w.1 (omega arith) j₁ in
    let e : k + suc (length es) ≡ suc k + length es = omega arith in
    (label₂, rw e j₂, (keeps₂ a b ab, all), λ x y e. keeps₂ x y (keeps₁ x y e))

-- What links labels equal ends, equal labels along chains.
label_of_linked :
    (edges : List (ℕ × ℕ)) (label : ℕ → ℕ)
    → All (λ e. label e.0 ≡ label e.1) edges
    → {x y : ℕ} → Linked edges x y
    → label x ≡ label y
label_of_linked edges label h (here x) = refl
label_of_linked edges label h (edge a b m) = All-Memᴰ edges h m
  where
    All-Memᴰ :
        (es : List (ℕ × ℕ))
        → All (λ e. label e.0 ≡ label e.1) es
        → Memᴰ (a, b) es
        → label a ≡ label b
    All-Memᴰ [] k m = elim m [ ]
    All-Memᴰ (e ∷ es) k (Memᴰ.head same) =
        ap (λ p. label p.0) same ∙ k.0 ∙ ap (λ p. label p.1) (sym same)
    All-Memᴰ (e ∷ es) k (Memᴰ.tail m) = All-Memᴰ es k.1 m
label_of_linked edges label h (back l) = sym (label_of_linked edges label h l)
label_of_linked edges label h (chain l m) =
    label_of_linked edges label h l ∙ label_of_linked edges label h m

length-range_from : (a n : ℕ) → length (range_from a n) ≡ n
length-range_from a zero = refl
length-range_from a (suc n) = ap suc (length-range_from (suc a) n)

-- Edges with ends in range are within themselves.
within :
    (n : ℕ) (edges es : List (ℕ × ℕ))
    → All (λ e. (e.0 < n) × (e.1 < n)) es
    → ((a b : ℕ) → Memᴰ (a, b) es → Memᴰ (a, b) edges)
    → IsWithin n edges es
within n edges [] h sub = tt
within n edges ((a, b) ∷ es) h sub = (
  (h.0.0, h.0.1, edge a b (sub a b (Memᴰ.head refl))),
  within n edges es h.1 (λ c d m. sub c d (Memᴰ.tail m)),
)

-- After all the unions a labelling of the positions says exactly what is linked.
pub union_all_lem :
    (n : ℕ) (edges : List (ℕ × ℕ))
    → All (λ e. (e.0 < n) × (e.1 < n)) edges
    → (label : ℕ → ℕ) × IsJoined n
        (length edges)
        edges
        (union_all (suc (length edges)) edges (range_from 0 n))
        label
      × ((x y : ℕ) → (label x ≡ label y) ↔ Linked edges x y)
union_all_lem n edges h =
    let start : IsJoined n 0 edges (range_from 0 n) (λ x. x) = record {
      depth = λ x. 0;
      forest = range-IsForest n;
      sized = length-range_from 0 n;
      inside = λ x lt. lt;
      shallow = λ x. omega arith;
      linked = λ x. here x;
    } in
    let (label, j, all, keeps) =
      union_all_joins n edges (suc (length edges)) 0 edges (range_from 0 n) (λ x. x)
        (within n edges edges h (λ a b m. m)) (omega arith) start in
    let united = union_all (suc (length edges)) edges (range_from 0 n) in
    let e : 0 + length edges ≡ length edges = omega arith in
    (
      label,
      subst (λ k. IsJoined n k edges united label) e j,
      λ x y. (linked_of_label label j x y, label_of_linked edges label all),
    )
