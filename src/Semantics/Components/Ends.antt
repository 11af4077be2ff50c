-- ===== src/Semantics/Components/Ends.antt =====
-- How long the loop of `find` runs.
use recall_select.Prelude.{ℕ, suc, ◌+◌, ◌<◌, ◌≡◌, sym, ap, ◌∙◌, List, length, All, arith}
use recall_select.Semantics.Components.{find, at, union_all, range_from}
use recall_select.Semantics.Components.Forest.{find_lem}
use recall_select.Semantics.Components.Linked.{union_all_lem}

-- After the unions of edges between `n` positions the loop of `find` ends, from every position, at a
-- root in at most as many steps as there are edges: no further fuel changes the root that it finds.
pub find_ends :
    (n x more : ℕ) (edges : List (ℕ × ℕ))
    → All (λ e. (e.0 < n) × (e.1 < n)) edges
    → let parent = union_all (suc (length edges)) edges (range_from 0 n) in
      let root = (find (suc (length edges)) x parent).0 in
      (at parent root ≡ root) × ((find (suc (length edges) + more) x parent).0 ≡ root)
find_ends n x more edges h =
    let (label, j, same) = union_all_lem n edges h in
    let parent = union_all (suc (length edges)) edges (range_from 0 n) in
    let enough =
      find_lem label j.depth (suc (length edges)) x parent j.forest (omega (arith, j.shallow x)) in
    let plenty =
      find_lem label j.depth (suc (length edges) + more) x parent j.forest
        (omega (arith, j.shallow x)) in
    (ap (at parent) enough.0 ∙ j.forest.top x ∙ sym enough.0, plenty.0 ∙ sym enough.0)
