-- ===== src/Semantics/Components.antt =====
-- The union-find of `concept_clusters` (app/services/vector_semantics.py), on the positions of the
-- points. Every index is in range there; a read out of range would be of a root. `find` goes up one
-- step in each round, and is given as much fuel as there are edges, and one more.
pub mod Forest
pub mod Linked
pub mod Ends
pub mod Grouped
use recall_select.Prelude.{ℕ, zero, suc, ◌+◌, List, [], ◌∷◌, ◌++◌, Bool, if◌then◌else◌, eqb, length}

module _ {ℓ} {A : Type ℓ} where
  abbrev pub get_or : List A → ℕ → A → A
  get_or [] i d = d
  get_or (x ∷ xs) zero d = x
  get_or (x ∷ xs) (suc i) d = get_or xs i d

  abbrev pub set : List A → ℕ → A → List A
  set [] i v = []
  set (x ∷ xs) zero v = v ∷ xs
  set (x ∷ xs) (suc i) v = x ∷ set xs i v

-- `list(range(a, a + n))`
abbrev pub range_from : ℕ → ℕ → List ℕ
range_from a zero = []
range_from a (suc n) = a ∷ range_from (suc a) n

-- `parent[x]`
abbrev pub at : List ℕ → ℕ → ℕ
at parent x = get_or parent x x

-- The root of `x`, and the parents after the path is halved.
unfoldable pub find : (fuel : ℕ) → ℕ → List ℕ → ℕ × List ℕ
find zero x parent = (x, parent)
find (suc fuel) x parent =
    let halved = set parent x (at parent (at parent x)) in
    let rest = find fuel (at halved x) halved in if eqb (at parent x) x then (x, parent) else rest

unfoldable pub union : (fuel : ℕ) → ℕ → ℕ → List ℕ → List ℕ
union fuel a b parent =
    let (ra, parent₁) = find fuel a parent in
    let (rb, parent₂) = find fuel b parent₁ in if eqb ra rb then parent₂ else set parent₂ ra rb

unfoldable pub union_all : (fuel : ℕ) → List (ℕ × ℕ) → List ℕ → List ℕ
union_all fuel [] parent = parent
union_all fuel ((a, b) ∷ edges) parent = union_all fuel edges (union fuel a b parent)

-- `groups.setdefault(k, []).append(v)`
unfoldable pub grouped : ℕ → ℕ → List (ℕ × List ℕ) → List (ℕ × List ℕ)
grouped k v [] = (k, v ∷ []) ∷ []
grouped k v ((j, vs) ∷ groups) =
    if eqb j k then (j, vs ++ v ∷ []) ∷ groups else (j, vs) ∷ grouped k v groups

-- The loop that groups the positions by their roots.
unfoldable pub group_all : (fuel : ℕ) → List ℕ → List ℕ → List (ℕ × List ℕ) → List (ℕ × List ℕ)
group_all fuel [] parent groups = groups
group_all fuel (i ∷ is) parent groups =
    let (root, parent') = find fuel i parent in group_all fuel is parent' (grouped root i groups)

-- The groups of `n` positions under the edges.
unfoldable pub components : (n : ℕ) → List (ℕ × ℕ) → List (ℕ × List ℕ)
components n edges =
    let fuel = suc (length edges) in
    let positions = range_from 0 n in group_all fuel positions (union_all fuel edges positions) []
