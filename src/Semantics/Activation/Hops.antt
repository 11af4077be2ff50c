-- ===== src/Semantics/Activation/Hops.antt =====
-- What the hops of a walk activate, over the adjacency that they go by.
use recall_select.Prelude.{
  ℕ, zero, suc, ◌≤◌, ◌<◌, ◌≡◌, ◌⊎◌, ◌↔◌, inl, inr, refl, sym, ap, ◌∙◌, Bool, true, ◌||◌,
  if◌then◌else◌, List, [], ◌∷◌, String, ◌==◌, Dict, lookup, insert, lookup-insert, get_or, any,
  is_some, Bool-cases, arith, eq_iff, eq_refl, eq_of_==,
}
use recall_select.Store.{is_empty}
use recall_select.Semantics.Numbers.{Numbers}
use recall_select.Semantics.Activation.{Spread, gain, spread_node, spread_frontier, spread_hops}

or_left_comm : (a b c : Bool) → (a || (b || c)) ≡ ((b || a) || c)
or_left_comm a b c = ground arith

module _ {ℓ} {V : Type ℓ} where
  abbrev pub has : String → Dict V → Bool
  has k d = is_some (lookup k d)

  has-insert : (k j : String) (v : V) (d : Dict V) → has j (insert k v d) ≡ (k == j || has j d)
  has-insert k j v d = ground (arith, lookup-insert k j v d)

-- The walks of so many hops along the links.
pub data Walk (links : String → String → Bool) : ℕ → String → String → Type 0 where
  stay : (a : String) → Walk links zero a a
  hop :
      {n : ℕ} {b c : String} (a : String)
      → links a b ≡ true
      → Walk links n b c
      → Walk links (suc n) a c

pub Walk-same :
    (f g : String → String → Bool)
    → ((a b : String) → f a b ≡ g a b)
    → {n : ℕ} {a b : String} → Walk f n a b
    → Walk g n a b
Walk-same f g e (stay a) = stay a
Walk-same f g e (hop {b} a l w) = hop a (sym (e a b) ∙ l) (Walk-same f g e w)

module _ {F : Type 0} where
  -- Some of the pairs names the memory.
  abbrev pub names : String → List (String × F) → Bool
  names k edges = any (λ o. o.0 == k) edges

  abbrev pub conducts : Dict (List (String × F)) → String → String → Bool
  conducts adjacency a b = names b (get_or (lookup a adjacency) [])

module _ {F : Type 0} ⦃numbers : Numbers F⦄ (decay : F) where
  has-spread_node :
      (k : String) (energy : F) (edges : List (String × F)) (s : Spread F)
      → (has k (spread_node energy decay edges s).0 ≡ (names k edges || has k s.0))
        × (has k (spread_node energy decay edges s).1 ≡ (names k edges || has k s.1))
  unfolding spread_node
  has-spread_node k energy [] s = (refl, refl)
  has-spread_node k energy ((other, conduct) ∷ edges) s =
      let s' = gain other (numbers.times (numbers.times energy conduct) decay) s in
      let rest = has-spread_node k energy edges s' in
      (
        rest.0
            ∙ ap (λ b. names k edges || b) (has-insert other k _ s.0)
            ∙ or_left_comm (names k edges) (other == k) (has k s.0),
        rest.1
            ∙ ap (λ b. names k edges || b) (has-insert other k _ s.1)
            ∙ or_left_comm (names k edges) (other == k) (has k s.1),
      )

  module _ (adjacency : Dict (List (String × F))) where
    -- Some memory of the frontier conducts to it.
    abbrev next_to : String → Dict F → Bool
    next_to k frontier = any (λ o. conducts adjacency o.0 k) frontier

    has-spread_frontier :
        (k : String) (frontier : Dict F) (s : Spread F)
        → (has k (spread_frontier decay adjacency frontier s).0 ≡ (next_to k frontier || has k s.0))
          × (has k (spread_frontier decay adjacency frontier s).1
              ≡ (next_to k frontier || has k s.1))
    unfolding spread_frontier
    has-spread_frontier k [] s = (refl, refl)
    has-spread_frontier k ((node, energy) ∷ frontier) s =
        let edges = get_or (lookup node adjacency) [] in
        let s' = spread_node energy decay edges s in
        let first = has-spread_node k energy edges s in
        let rest = has-spread_frontier k frontier s' in
        (
          rest.0
              ∙ ap (λ b. next_to k frontier || b) first.0
              ∙ or_left_comm (next_to k frontier) (names k edges) (has k s.0),
          rest.1
              ∙ ap (λ b. next_to k frontier || b) first.1
              ∙ or_left_comm (next_to k frontier) (names k edges) (has k s.1),
        )

    -- What the hops add: memories that a walk reaches from one next to the frontier.
    unfoldable pub Reached : ℕ → Dict F → String → Type 0
    Reached hops frontier k =
        (seed : String) × (n : ℕ) × (next_to seed frontier ≡ true)
        × (n < hops)
        × Walk (conducts adjacency) n seed k

    spread_hops-nil :
        (hops : ℕ) (activation : Dict F)
        → spread_hops decay adjacency hops [] activation ≡ activation
    unfolding spread_hops spread_frontier
    spread_hops-nil zero activation = refl
    spread_hops-nil (suc hops) activation = refl

    spread_hops-suc :
        (hops : ℕ) (frontier activation : Dict F)
        → let s = spread_frontier decay adjacency frontier (activation, []) in
          spread_hops decay adjacency (suc hops) frontier activation
          ≡ spread_hops decay adjacency hops s.1 s.0
    unfolding spread_hops
    spread_hops-suc hops frontier activation =
        let s = spread_frontier decay adjacency frontier (activation, []) in stops s.0 s.1
      where
        stops :
            (act next : Dict F)
            → (if is_empty next then act else spread_hops decay adjacency hops next act)
              ≡ spread_hops decay adjacency hops next act
        stops act [] = sym (spread_hops-nil hops act)
        stops act (o ∷ next) = refl

    -- The keys of a frontier that conduct to a memory.
    pub key_of_next_to :
        (k : String) (frontier : Dict F)
        → next_to k frontier ≡ true
        → (o : String) × (has o frontier ≡ true) × (conducts adjacency o k ≡ true)
    key_of_next_to k [] h = absurd (cc)
    key_of_next_to k ((o, e) ∷ frontier) h = elim (Bool-cases (conducts adjacency o k)) [
      | inl t ↦ (o, ground (arith, eq_refl o), t)
      | inr t ↦
          let rest = key_of_next_to k frontier (rw (← h, t) refl) in
          (rest.0, ground (arith, rest.1, eq_iff o rest.0), rest.2)
    ]

    next_to_of_key :
        (o k : String) (frontier : Dict F)
        → has o frontier ≡ true
        → conducts adjacency o k ≡ true
        → next_to k frontier ≡ true
    next_to_of_key o k [] h c = cc
    next_to_of_key o k ((j, e) ∷ frontier) h c = elim (Bool-cases (j == o)) [
      | inl t ↦
          let same : j ≡ o = eq_of_== j o t in
          let cj : conducts adjacency j k ≡ true = rw same c in rw cj refl
      | inr t ↦
          let rest = next_to_of_key o k frontier (rw (← h, t) refl) c in rw rest (ground arith)
    ]

    -- What is next to the next frontier, and what the first hop adds to the activations.
    after_one :
        (k : String) (frontier activation : Dict F)
        → (has k (spread_frontier decay adjacency frontier (activation, [])).0
            ≡ (next_to k frontier || has k activation))
          × (has k (spread_frontier decay adjacency frontier (activation, [])).1
              ≡ next_to k frontier)
    after_one k frontier activation =
        let both = has-spread_frontier k frontier (activation, []) in
        (both.0, both.1 ∙ ground arith)

    pub has-spread_hops :
        (k : String) (hops : ℕ) (frontier activation : Dict F)
        → (has k (spread_hops decay adjacency hops frontier activation) ≡ true)
          ↔ ((has k activation ≡ true) ⊎ Reached hops frontier k)
    unfolding Reached spread_hops
    has-spread_hops k zero frontier activation =
        (inl, λ r. elim r [ inl h ↦ h | inr (seed, n, next, lt, walk) ↦ absurd (omega arith) ])
    has-spread_hops k (suc hops) frontier activation =
        let s = spread_frontier decay adjacency frontier (activation, []) in
        let one = λ (o : String). after_one o frontier activation in
        let ih = has-spread_hops k hops s.1 s.0 in
        let same = spread_hops-suc hops frontier activation in
        (
          λ h. elim (ih.0 (rw (← h) (ap (has k) (sym same)))) [
            | inl h₀ ↦ elim (Bool-cases (next_to k frontier)) [
              | inl t ↦ inr (k, 0, t, omega arith, stay k)
              | inr t ↦ inl (ground (arith, one k, h₀, t))
            ]
            | inr (b, n, next, lt, walk) ↦
                let (o, in_next, c) = key_of_next_to b s.1 next in
                inr (o, suc n, sym (one o).1 ∙ in_next, omega arith, hop o c walk)
          ],
          λ r. rw same (
              ih.1 (elim r [
                | inl h ↦ inl (ground (arith, one k, h))
                | inr (seed, zero, next, lt, stay _) ↦ inl (ground (arith, one k, next))
                | inr (seed, suc n, next, lt, hop {b} _ c walk) ↦
                    inr (b, n, next_to_of_key seed b s.1 ((one seed).1 ∙ next) c, omega arith, walk)
              ])),
        )

    -- A walk from the frontier is none, or starts with a hop.
    pub begun :
        (k : String) (hops : ℕ) (frontier : Dict F) (seed : String) (n : ℕ)
        → has seed frontier ≡ true
        → n ≤ hops
        → Walk (conducts adjacency) n seed k
        → (has k frontier ≡ true) ⊎ Reached hops frontier k
    unfolding Reached
    begun k hops frontier seed zero e le (stay _) = inl e
    begun k hops frontier seed (suc n) e le (hop {b} _ c walk) =
        inr (b, n, next_to_of_key seed b frontier e c, omega arith, walk)
