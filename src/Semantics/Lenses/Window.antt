-- ===== src/Semantics/Lenses/Window.antt =====
-- The early stop of the temporal lens, against every pair within the window.
use recall_select.Prelude.{
  ℕ, ◌-◌, ◌*◌, ◌≤◌, ◌<◌, ◌≡◌, refl, Bool, not, Option, List, [], ◌∷◌, ◌++◌, String, IsAscendingFrom,
  ltb, map, count, arith,
}
use recall_select.Mongo.Query.{filter}
use recall_select.Qdrant.Points.{Point}
use recall_select.Semantics.Numbers.{Numbers}
use recall_select.Semantics.Lenses.{
  Edge, precedes, following, precedences, stamped, insert_stamped, sort_stamped, temporal_lens,
}

module _ {F : Type 0} where
  abbrev pub time : ℕ × Point F → ℕ
  time s = s.0

  insert_stamped-IsAscendingFrom :
      (k : ℕ) (s : ℕ × Point F) (rest : List (ℕ × Point F))
      → k ≤ s.0
      → IsAscendingFrom time k rest
      → IsAscendingFrom time k (insert_stamped s rest)
  unfolding insert_stamped
  insert_stamped-IsAscendingFrom k (t, p) [] le h = (le, tt)
  insert_stamped-IsAscendingFrom k (t, p) ((u, r) ∷ rest) le h =
      ground (arith, insert_stamped-IsAscendingFrom u (t, p) rest, le, h)

  pub sort_stamped-IsAscendingFrom :
      (points : List (ℕ × Point F)) → IsAscendingFrom time 0 (sort_stamped points)
  unfolding sort_stamped
  sort_stamped-IsAscendingFrom [] = tt
  sort_stamped-IsAscendingFrom (s ∷ rest) =
      insert_stamped-IsAscendingFrom 0 s (sort_stamped rest) (omega arith)
        (sort_stamped-IsAscendingFrom rest)

  count-insert_stamped :
      (f : ℕ × Point F → Bool) (s : ℕ × Point F) (rest : List (ℕ × Point F))
      → count f (insert_stamped s rest) ≡ count f (s ∷ rest)
  unfolding insert_stamped
  count-insert_stamped f (t, p) [] = refl
  count-insert_stamped f (t, p) ((u, r) ∷ rest) = ground (arith, count-insert_stamped f (t, p) rest)

  pub count-sort_stamped :
      (f : ℕ × Point F → Bool) (points : List (ℕ × Point F))
      → count f (sort_stamped points) ≡ count f points
  unfolding sort_stamped
  count-sort_stamped f [] = refl
  count-sort_stamped f (s ∷ rest) =
      ground (arith, count-insert_stamped f s (sort_stamped rest), count-sort_stamped f rest)

module _ {F : Type 0} ⦃numbers : Numbers F⦄ (window : ℕ) where
  -- The reference: every later point within the window, and every pair.
  abbrev pub is_near : ℕ × Point F → ℕ × Point F → Bool
  is_near s r = not (ltb (window * 1_000_000) (r.0 - s.0))

  abbrev pub near_pairs : List (ℕ × Point F) → List (Edge F)
  near_pairs [] = []
  near_pairs (s ∷ rest) = map (precedes window s) (filter (is_near s) rest) ++ near_pairs rest

  none_near :
      (s : ℕ × Point F) (k : ℕ) (rest : List (ℕ × Point F))
      → IsAscendingFrom time k rest
      → window * 1_000_000 < k - s.0
      → filter (is_near s) rest ≡ []
  none_near s k [] h lt = refl
  none_near s k (r ∷ rest) h lt =
      ground (arith, none_near s k rest, h, lt, none_near s r.0 rest h.1)

  following_lem :
      (s : ℕ × Point F) (k : ℕ) (rest : List (ℕ × Point F))
      → IsAscendingFrom time k rest
      → following window s rest ≡ map (precedes window s) (filter (is_near s) rest)
  unfolding following
  following_lem s k [] h = refl
  following_lem s k (r ∷ rest) h =
      ground (arith, following_lem s r.0 rest h.1, none_near s r.0 rest h.1)

  precedences_lem :
      (k : ℕ) (timeline : List (ℕ × Point F))
      → IsAscendingFrom time k timeline
      → precedences window timeline ≡ near_pairs timeline
  unfolding precedences
  precedences_lem k [] h = refl
  precedences_lem k (s ∷ rest) h =
      ground (arith, following_lem s s.0 rest h.1, precedences_lem s.0 rest h.1)

  -- The temporal lens gives an edge to each pair of memories with timestamps that lie within the
  -- window, from the earlier to the later, and to no other; memories without a timestamp take no
  -- part, and every other one takes part once.
  pub temporal_lens_lem :
      (read_ts : String → Option ℕ) (points : List (Point F)) (f : ℕ × Point F → Bool)
      → let timeline = sort_stamped (stamped read_ts points) in
        (temporal_lens read_ts window points ≡ near_pairs timeline)
        × IsAscendingFrom time 0 timeline
        × (count f timeline ≡ count f (stamped read_ts points))
  unfolding temporal_lens
  temporal_lens_lem read_ts points f =
      let seen = stamped read_ts points in
      let ascending = sort_stamped-IsAscendingFrom seen in
      (precedences_lem 0 (sort_stamped seen) ascending, ascending, count-sort_stamped f seen)
