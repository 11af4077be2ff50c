-- ===== src/Store/Pages.antt =====
-- The paging loop.
use recall_select.Prelude.{
  ℕ, zero, suc, ◌+◌, ◌≤◌, ◌<◌, ◌≡◌, refl, sym, ◌∙◌, true, false, Option, none, some, List, [], ◌∷◌,
  ◌++◌, String, take, drop, length, ltb, get_or, ap, leb→le, length-take-le, Option-cases, arith,
  Bool-cases, inl, inr, lookup,
}
use recall_select.Qdrant.{Client, points_of}
use recall_select.Qdrant.Points.{Server}
use recall_select.Store.{scroll_pages, scroll_points, capped, reaches, page_size}

le_of_ltb : (a b : ℕ) → ltb a b ≡ false → b ≤ a
le_of_ltb a b h = ground arith

module _ {A : Type 0} where
  take-nil : (n : ℕ) → take {A = A} n [] ≡ []
  take-nil zero = refl
  take-nil (suc n) = refl

  take-append-drop : (a n : ℕ) (xs : List A) → take a xs ++ take n (drop a xs) ≡ take (a + n) xs
  take-append-drop zero n xs = ground arith
  take-append-drop (suc a) zero [] = ground arith
  take-append-drop (suc a) (suc n) [] = ground (arith, take-nil (suc a + suc n))
  take-append-drop (suc a) n (x ∷ xs) =
      let e : suc a + n ≡ suc (a + n) = omega arith in
      rw e (ap (λ t. x ∷ t) (take-append-drop a n xs))

  take-take_le : (a n : ℕ) (xs : List A) → a ≤ n → take a (take n xs) ≡ take a xs
  take-take_le zero n xs h = refl
  take-take_le (suc a) zero xs h = elim h [ ]
  take-take_le (suc a) (suc n) [] h = refl
  take-take_le (suc a) (suc n) (x ∷ xs) h = ground (arith, take-take_le a n xs)

  take-of_length_le : (n : ℕ) (xs : List A) → length xs ≤ n → take n xs ≡ xs
  take-of_length_le zero [] h = refl
  take-of_length_le zero (x ∷ xs) h = elim h [ ]
  take-of_length_le (suc n) [] h = refl
  take-of_length_le (suc n) (x ∷ xs) h = ground (arith, take-of_length_le n xs)

  capped-nil : (limit : Option ℕ) → capped {A = A} limit [] ≡ []
  capped-nil none = refl
  capped-nil (some zero) = refl
  capped-nil (some (suc n)) = refl

  -- What is cut off an initial segment that reaches the cap is what is cut off the whole.
  capped-take :
      (limit : Option ℕ) (n : ℕ) (xs : List A)
      → reaches limit (length (take n xs)) ≡ true
      → capped limit (take n xs) ≡ capped limit xs
  capped-take none n xs h = cc
  capped-take (some cap) n xs h =
      take-take_le cap n xs (omega (arith, leb→le cap (length (take n xs)) h, length-take-le n xs))

module _ {F : Type 0} ⦃qdrant : Client F⦄ (name : String) (q : Server F) where
  -- From the first `done` points, the loop collects the rest or reaches the cap.
  scroll_pages_lem :
      (fuel : ℕ) (limit offset : Option ℕ) (done : ℕ)
      → get_or offset 0 ≡ done
      → length (points_of name q) < done + fuel
      → capped limit (scroll_pages fuel name limit offset (take done (points_of name q)) q)
        ≡ capped limit (points_of name q)
  unfolding scroll_pages
  scroll_pages_lem zero limit offset done e h =
      ap (capped limit) (take-of_length_le done (points_of name q) (omega arith))
  scroll_pages_lem (suc fuel) limit offset done e h =
      let ps = points_of name q in
      let more = take-append-drop done page_size ps in
      elim (Bool-cases (ltb (done + page_size) (length ps))) [
        | inr last ↦
            let whole =
              take-of_length_le (done + page_size) ps
                (le_of_ltb (done + page_size) (length ps) last) in
            rw (qdrant.scroll_law name page_size offset q, e, last, more, whole, scroll_pages) refl
        | inl goes ↦ elim (Bool-cases (reaches limit (length (take (done + page_size) ps)))) [
          | inl full ↦
              rw (qdrant.scroll_law name page_size offset q, e, goes, more, full, scroll_pages)
                (capped-take limit (done + page_size) ps full)
          | inr room ↦
              rw (qdrant.scroll_law name page_size offset q, e, goes, more, room, scroll_pages)
                (scroll_pages_lem fuel limit (some (done + page_size)) (done + page_size) refl
                  (omega arith))
        ]
      ]

  -- The points of a collection, in the order of the server, up to the cap; none, if it is not there.
  pub scroll_points_lem :
      (limit : Option ℕ) → scroll_points name limit q ≡ capped limit (points_of name q)
  unfolding scroll_points
  scroll_points_lem limit = elim (Option-cases (lookup name q)) [
    | inl e ↦ rw (qdrant.collection_exists_law name q, e, scroll_points) (sym (capped-nil limit))
    | inr (ps, e) ↦
        let start =
          scroll_pages_lem (suc (qdrant.count name q)) limit none 0 refl
            (omega (arith, qdrant.count_law name q)) in
        rw (qdrant.collection_exists_law name q, e, scroll_points)
          (start ∙ ap (λ o. capped limit (get_or o [])) e)
  ]
