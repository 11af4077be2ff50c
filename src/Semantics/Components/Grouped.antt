-- ===== src/Semantics/Components/Grouped.antt =====
-- The groups of `concept_clusters`, against chains of edges.
use mathlib.Core.Path.{subst}
use recall_select.Prelude.{
  ℕ, zero, suc, ◌+◌, ◌≤◌, ◌<◌, ◌≡◌, ◌↔◌, inl, inr, refl, sym, List, [], ◌∷◌, ◌++◌, Bool, true, ◌&&◌,
  ◌||◌, if◌then◌else◌, eqb, length, All, any, Bool-cases, arith,
}
use recall_select.Semantics.Components.{find, union_all, range_from, grouped, group_all, components}
use recall_select.Semantics.Components.Forest.{IsForest, find_lem}
use recall_select.Semantics.Components.Linked.{Linked, union_all_lem}

abbrev pub contains : ℕ → List ℕ → Bool
contains i is = any (λ j. eqb j i) is

-- Some group has both positions.
abbrev pub together : ℕ → ℕ → List (ℕ × List ℕ) → Bool
together i j groups = any (λ g. contains i g.1 && contains j g.1) groups

-- The positions of the first group of a root.
members : ℕ → List (ℕ × List ℕ) → List ℕ
members k [] = []
members k ((j, vs) ∷ groups) = if eqb j k then vs else members k groups

contains-append :
    (i : ℕ) (xs ys : List ℕ) → contains i (xs ++ ys) ≡ (contains i xs || contains i ys)
contains-append i [] ys = refl
contains-append i (x ∷ xs) ys = ground (arith, contains-append i xs ys)

members-grouped :
    (k v m : ℕ) (groups : List (ℕ × List ℕ))
    → members m (grouped k v groups)
      ≡ (if eqb k m then members m groups ++ v ∷ [] else members m groups)
unfolding members grouped
members-grouped k v m [] = ground arith
members-grouped k v m ((j, vs) ∷ groups) = ground (arith, members-grouped k v m groups)

-- A group of a root has both positions if the first one has.
together_of_members :
    (i j k : ℕ) (groups : List (ℕ × List ℕ))
    → contains i (members k groups) ≡ true
    → contains j (members k groups) ≡ true
    → together i j groups ≡ true
unfolding members
together_of_members i j k [] h h' = cc
together_of_members i j k ((r, vs) ∷ groups) h h' = elim (Bool-cases (eqb r k)) [
  | inl t ↦
      let e : contains i vs ≡ true = rw (← h, t, members) refl in
      let e' : contains j vs ≡ true = rw (← h', t, members) refl in rw (e, e') refl
  | inr t ↦
      let rest =
        together_of_members i j k groups (rw (← h, t, members) refl) (rw (← h', t, members) refl) in
      rw rest (ground arith)
]

module _ (label : ℕ → ℕ) where
  abbrev IsLabelled : List (ℕ × List ℕ) → Type 0
  IsLabelled groups = All (λ g. (i : ℕ) → contains i g.1 ≡ true → label i ≡ g.0) groups

  grouped-IsLabelled :
      (v : ℕ) (groups : List (ℕ × List ℕ))
      → IsLabelled groups
      → IsLabelled (grouped (label v) v groups)
  unfolding grouped
  grouped-IsLabelled v [] h = (λ i e. ground arith, tt)
  grouped-IsLabelled v ((j, vs) ∷ groups) h = elim (Bool-cases (eqb j (label v))) [
    | inl t ↦
        rw (t, grouped) ((λ i e. ground (arith, h.0 i, e, contains-append i vs (v ∷ [])), h.1))
    | inr t ↦ rw (t, grouped) (h.0, grouped-IsLabelled v groups h.1)
  ]

  label_of_together :
      (i j : ℕ) (groups : List (ℕ × List ℕ))
      → IsLabelled groups
      → together i j groups ≡ true
      → label i ≡ label j
  label_of_together i j [] h e = cc
  label_of_together i j ((r, vs) ∷ groups) h e =
      ground (arith, h.0 i, h.0 j, e, label_of_together i j groups h.1)

  -- What one position adds.
  grouped_keeps :
      (v m i : ℕ) (groups : List (ℕ × List ℕ))
      → contains i (members m groups) ≡ true
      → contains i (members m (grouped (label v) v groups)) ≡ true
  grouped_keeps v m i groups h = ground (
    arith,
    h,
    members-grouped (label v) v m groups,
    contains-append i (members m groups) (v ∷ []),
  )

  grouped_adds :
      (v : ℕ) (groups : List (ℕ × List ℕ))
      → contains v (members (label v) (grouped (label v) v groups)) ≡ true
  grouped_adds v groups = ground (
    arith,
    members-grouped (label v) v (label v) groups,
    contains-append v (members (label v) groups) (v ∷ []),
  )

  -- The groups are labelled, keep what they had, and have the given positions.
  abbrev IsCollected : List ℕ → List (ℕ × List ℕ) → List (ℕ × List ℕ) → Type 0
  IsCollected is groups result =
      IsLabelled result
      × ((m i : ℕ) → contains i (members m groups) ≡ true → contains i (members m result) ≡ true)
      × All (λ i. contains i (members (label i) result) ≡ true) is

  group_all_lem :
      (depth : ℕ → ℕ) (fuel : ℕ) (is : List ℕ) (parent : List ℕ) (groups : List (ℕ × List ℕ))
      → IsForest parent label depth
      → ((x : ℕ) → depth x < fuel)
      → IsLabelled groups
      → IsCollected is groups (group_all fuel is parent groups)
  unfolding group_all
  group_all_lem depth fuel [] parent groups f low h = (h, λ m i e. e, tt)
  group_all_lem depth fuel (v ∷ is) parent groups f low h =
      let (e, f', same_length) = find_lem label depth fuel v parent f (low v) in
      let parent' = (find fuel v parent).1 in
      let groups' = grouped (label v) v groups in
      let (labelled, keeps, has) =
        group_all_lem depth fuel is parent' groups' f' low (grouped-IsLabelled v groups h) in
      subst (λ r. IsCollected (v ∷ is) groups (group_all fuel is parent' (grouped r v groups)))
        (sym e)
        (
          labelled,
          λ m i k. keeps m i (grouped_keeps v m i groups k),
          (keeps (label v) v (grouped_adds v groups), has),
        )

contained-All : (P : ℕ → Type 0) (a n i : ℕ) → All P (range_from a n) → a ≤ i → i < a + n → P i
contained-All P a zero i h le lt = absurd (omega arith)
contained-All P a (suc n) i h le lt = elim (Bool-cases (eqb a i)) [
  | inl t ↦ let e : a ≡ i = ground arith in subst P e h.0
  | inr t ↦ contained-All P (suc a) n i h.1 (ground arith) (omega arith)
]

-- Two memories stand in one group exactly if a chain of edges links them, whatever their
-- directions; the ends of the edges must be among the memories.
pub components_lem :
    (n : ℕ) (edges : List (ℕ × ℕ)) (i j : ℕ)
    → All (λ e. (e.0 < n) × (e.1 < n)) edges
    → i < n
    → j < n
    → (together i j (components n edges) ≡ true) ↔ Linked edges i j
unfolding components
components_lem n edges i j h hi hj =
    let fuel = suc (length edges) in
    let (label, joined, same) = union_all_lem n edges h in
    let parent = union_all fuel edges (range_from 0 n) in
    let low : (x : ℕ) → joined.depth x < fuel = λ x. omega (arith, joined.shallow x) in
    let (labelled, keeps, has) =
      group_all_lem label joined.depth fuel (range_from 0 n) parent [] joined.forest low tt in
    let groups = group_all fuel (range_from 0 n) parent [] in
    let in_own = λ (x : ℕ) (lt : x < n).
      contained-All (λ i. contains i (members (label i) groups) ≡ true) 0 n x has (omega arith)
        (omega (arith, lt)) in
    (
      λ t. (same i j).0 (label_of_together label i j groups labelled t),
      λ l.
          let e : label i ≡ label j = (same i j).1 l in
          together_of_members i j (label i) groups (in_own i hi) (rw e (in_own j hj)),
    )

-- The groups consist of positions.
module _ (P : ℕ → Type 0) where
  All-append : (xs ys : List ℕ) → All P xs → All P ys → All P (xs ++ ys)
  All-append [] ys h k = k
  All-append (x ∷ xs) ys h k = (h.0, All-append xs ys h.1 k)

  All-grouped :
      (k v : ℕ) (groups : List (ℕ × List ℕ))
      → P v
      → All (λ g. All P g.1) groups
      → All (λ g. All P g.1) (grouped k v groups)
  unfolding grouped
  All-grouped k v [] p h = ((p, tt), tt)
  All-grouped k v ((j, vs) ∷ groups) p h = elim (Bool-cases (eqb j k)) [
    | inl e ↦ rw (e, grouped) (All-append vs (v ∷ []) h.0 (p, tt), h.1)
    | inr e ↦ rw (e, grouped) (h.0, All-grouped k v groups p h.1)
  ]

  All-group_all :
      (fuel : ℕ) (is parent : List ℕ) (groups : List (ℕ × List ℕ))
      → All P is
      → All (λ g. All P g.1) groups
      → All (λ g. All P g.1) (group_all fuel is parent groups)
  unfolding group_all
  All-group_all fuel [] parent groups h k = k
  All-group_all fuel (i ∷ is) parent groups h k =
      All-group_all fuel is (find fuel i parent).1 (grouped (find fuel i parent).0 i groups) h.1
        (All-grouped (find fuel i parent).0 i groups h.0 k)

range_from_lt : (a n b : ℕ) → a + n ≤ b → All (λ i. i < b) (range_from a n)
range_from_lt a zero b h = tt
range_from_lt a (suc n) b h = (omega (arith, h), range_from_lt (suc a) n b (omega (arith, h)))

pub components_inside :
    (n : ℕ) (edges : List (ℕ × ℕ)) → All (λ g. All (λ i. i < n) g.1) (components n edges)
unfolding components
components_inside n edges =
    let fuel = suc (length edges) in
    All-group_all (λ i. i < n) fuel (range_from 0 n) (union_all fuel edges (range_from 0 n)) []
      (range_from_lt 0 n n (omega arith)) tt
