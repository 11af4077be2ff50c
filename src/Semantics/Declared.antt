-- ===== src/Semantics/Declared.antt =====
-- The edges that a memory holds after a declaration.
use recall_select.Prelude.{
  ◌+◌, ◌≡◌, ◌≤◌, not, ◌&&◌, some, List, [], ◌∷◌, ◌++◌, eq_iff, arith, any, count, if◌then◌else◌,
}
use recall_select.Mongo.Query.{first}
use recall_select.Qdrant.Points.{Relation}
use recall_select.Semantics.Relations.{updated, declare, declare_all, is_same_edge}

module _ {F : Type 0} where
  count-declare :
      (a e : Relation F) (kept : List (Relation F))
      → count (is_same_edge a) (declare e kept) ≡ (
          if is_same_edge a e && not (any (is_same_edge e) kept)
          then count (is_same_edge a) kept + 1
          else count (is_same_edge a) kept)
  count-declare a e [] = ground arith
  count-declare a e (k ∷ kept) = ground (
    arith,
    eq_iff a.target e.target,
    eq_iff a.type e.type,
    eq_iff e.target k.target,
    eq_iff e.type k.type,
    eq_iff a.target k.target,
    eq_iff a.type k.type,
    count-declare a e kept,
  )

  declare_bound :
      (a e : Relation F) (kept : List (Relation F))
      → count (is_same_edge a) kept ≤ 1
      → count (is_same_edge a) (declare e kept) ≤ 1
  declare_bound a e [] h = ground arith
  declare_bound a e (k ∷ kept) h = ground (
    arith,
    eq_iff a.target e.target,
    eq_iff a.type e.type,
    eq_iff e.target k.target,
    eq_iff e.type k.type,
    eq_iff a.target k.target,
    eq_iff a.type k.type,
    count-declare a e kept,
    declare_bound a e kept,
  )

  declare_all_bound :
      (a : Relation F) (edges kept : List (Relation F))
      → count (is_same_edge a) kept ≤ 1
      → count (is_same_edge a) (declare_all edges kept) ≤ 1
  declare_all_bound a [] kept h = h
  declare_all_bound a (e ∷ edges) kept h =
      declare_all_bound a edges (declare e kept) (declare_bound a e kept h)

  -- Whatever edges a memory held, after a declaration it holds at most one for each target and type.
  pub one_edge_per_key :
      (stored edges : List (Relation F)) (a : Relation F)
      → count (is_same_edge a) (updated stored edges) ≤ 1
  one_edge_per_key stored edges a =
      declare_all_bound a edges (declare_all stored [])
        (declare_all_bound a stored [] (ground arith))

  first-declare :
      (a e : Relation F) (kept : List (Relation F))
      → first (is_same_edge a) (declare e kept)
        ≡ (if is_same_edge a e then some e else first (is_same_edge a) kept)
  first-declare a e [] = ground arith
  first-declare a e (k ∷ kept) = ground (
    arith,
    eq_iff a.target e.target,
    eq_iff a.type e.type,
    eq_iff e.target k.target,
    eq_iff e.type k.type,
    eq_iff a.target k.target,
    eq_iff a.type k.type,
    first-declare a e kept,
  )

  first-declare_all :
      (a e : Relation F) (edges kept : List (Relation F))
      → first (is_same_edge a) (declare_all (edges ++ (e ∷ [])) kept)
        ≡ (if is_same_edge a e then some e else first (is_same_edge a) (declare_all edges kept))
  first-declare_all a e [] kept = first-declare a e kept
  first-declare_all a e (d ∷ edges) kept = first-declare_all a e edges (declare d kept)

  -- The last edge that a declaration has for a target and a type is the one that the memory then
  -- holds for them.
  pub last_declared_holds :
      (stored edges : List (Relation F)) (a e : Relation F)
      → first (is_same_edge a) (updated stored (edges ++ (e ∷ [])))
        ≡ (if is_same_edge a e then some e else first (is_same_edge a) (updated stored edges))
  last_declared_holds stored edges a e = first-declare_all a e edges (declare_all stored [])
