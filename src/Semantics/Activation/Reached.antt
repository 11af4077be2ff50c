-- ===== src/Semantics/Activation/Reached.antt =====
-- What the conducting edges reach within the hops.
use recall_select.Prelude.{
  ℕ, suc, ◌≤◌, ◌≡◌, ◌↔◌, inl, inr, sym, ap, ◌∙◌, Bool, true, not, ◌&&◌, ◌||◌, Option, some, List,
  [], ◌∷◌, ◌++◌, String, ◌==◌, Dict, lookup, lookup-insert, get_or, any, Bool-cases, arith,
  eq_of_==,
}
use recall_select.Semantics.Relations.{grouped}
use recall_select.Semantics.Numbers.{Numbers, of_ℕ}
use recall_select.Semantics.Lenses.{Edge}
use recall_select.Semantics.Activation.{conduct_of, add_edge, adjacency_from, spread_hops}
use recall_select.Semantics.Activation.Hops.{
  has, names, conducts, Walk, stay, hop, Walk-same, Reached, key_of_next_to, begun, has-spread_hops,
}

-- The edges as the walk sees them.
module _ {F : Type 0} ⦃numbers : Numbers F⦄ (weights : Dict F) where
  -- An edge conducts if its weight and that of its layer do; forward, and backward if it is not
  -- directed.
  abbrev pub is_link : (a b : String) → Edge F → Bool
  is_link a b e =
      not (numbers.at_most (conduct_of weights e) (of_ℕ 0))
      && ((e.source == a && e.target == b) || (not e.directed && (e.target == a && e.source == b)))

  abbrev pub links : List (Edge F) → String → String → Bool
  links edges a b = any (is_link a b) edges

  names-append :
      (b o : String) (conduct : F) (edges : List (String × F))
      → names b (edges ++ (o, conduct) ∷ []) ≡ (names b edges || o == b)
  names-append b o conduct [] = ground arith
  names-append b o conduct (x ∷ edges) = ground (arith, names-append b o conduct edges)

  conducts-grouped :
      (k o : String) (conduct : F) (adjacency : Dict (List (String × F))) (a b : String)
      → conducts (grouped k (o, conduct) adjacency) a b
        ≡ (conducts adjacency a b || (k == a && o == b))
  conducts-grouped k o conduct adjacency a b =
      let before = get_or (lookup k adjacency) [] in
      let law = lookup-insert k a (before ++ (o, conduct) ∷ []) adjacency in
      elim (Bool-cases (k == a)) [
        | inl t ↦
            let same : k ≡ a = eq_of_== k a t in
            let now : lookup a (grouped k (o, conduct) adjacency)
                ≡ some (before ++ (o, conduct) ∷ []) =
              ground (arith, law, t) in
            ap (λ (l : Option (List (String × F))). names b (get_or l [])) now
            ∙ names-append b o conduct before
            ∙ rw t (ap (λ j. names b (get_or (lookup j adjacency) []) || o == b) same)
        | inr t ↦
            let now : lookup a (grouped k (o, conduct) adjacency) ≡ lookup a adjacency =
              ground (arith, law, t) in
            ap (λ (l : Option (List (String × F))). names b (get_or l [])) now ∙ rw t (ground arith)
      ]

  conducts-add_edge :
      (c : F) (e : Edge F) (adjacency : Dict (List (String × F))) (a b : String)
      → conducts (add_edge c e adjacency) a b ≡ (
          conducts adjacency a b
          || ((e.source == a && e.target == b)
              || (not e.directed && (e.target == a && e.source == b))))
  conducts-add_edge c e adjacency a b =
      let forward = conducts-grouped e.source e.target c adjacency a b in
      let both =
        conducts-grouped e.target e.source c (grouped e.source (e.target, c) adjacency) a b in
      elim (Bool-cases e.directed) [
        | inl t ↦ rw t (forward ∙ ground arith)
        | inr t ↦
            rw t (both ∙ ap (λ x. x || (e.target == a && e.source == b)) forward ∙ ground arith)
      ]

  conducts-adjacency_from :
      (edges : List (Edge F)) (adjacency : Dict (List (String × F))) (a b : String)
      → conducts (adjacency_from weights edges adjacency) a b
        ≡ (conducts adjacency a b || links edges a b)
  unfolding adjacency_from
  conducts-adjacency_from [] adjacency a b = ground arith
  conducts-adjacency_from (e ∷ es) adjacency a b =
      elim (Bool-cases (numbers.at_most (conduct_of weights e) (of_ℕ 0))) [
        | inl t ↦ rw (t, adjacency_from) (conducts-adjacency_from es adjacency a b)
        | inr t ↦
            let added = add_edge (conduct_of weights e) e adjacency in
            rw (t, adjacency_from)
              (conducts-adjacency_from es added a b
                ∙ ap (λ x. x || links es a b)
                    (conducts-add_edge (conduct_of weights e) e adjacency a b)
                ∙ ground arith)
      ]

  -- A memory is activated exactly if a walk of at most so many hops leads to it from a memory of the
  -- first frontier, along edges that conduct: those whose weight, scaled by that of their layer, is
  -- above 0, backward only if they are not directed.
  pub activated_lem :
      (decay : F) (edges : List (Edge F)) (hops : ℕ) (frontier : Dict F) (k : String)
      → (has k (spread_hops decay (adjacency_from weights edges []) hops frontier frontier) ≡ true)
        ↔ ((seed : String) × (n : ℕ) × (has seed frontier ≡ true)
            × (n ≤ hops)
            × Walk (links edges) n seed k)
  unfolding Reached
  activated_lem decay edges hops frontier k =
      let adjacency = adjacency_from weights edges [] in
      let same = λ (a b : String). conducts-adjacency_from edges [] a b in
      let lem = has-spread_hops decay adjacency k hops frontier frontier in
      (
        λ h. elim (lem.0 h) [
          | inl e ↦ (k, 0, e, omega arith, stay k)
          | inr (b, n, next, lt, walk) ↦
              let (o, start, c) = key_of_next_to decay adjacency b frontier next in
              (
                o,
                suc n,
                start,
                omega arith,
                Walk-same (conducts adjacency) (links edges) same (hop o c walk),
              )
        ],
        λ r.
            let (seed, n, e, le, walk) = r in
            lem.1 (
              begun decay adjacency k hops frontier seed n e le
                (Walk-same (links edges) (conducts adjacency) (λ x y. sym (same x y)) walk)),
      )
