-- ===== src/Locale/Choice.antt =====
-- Which language a page is in.
use mathlib.Core.List.{Memᴰ}
use mathlib.Core.Path.{subst}
use recall_select.Prelude.{
  ◌≡◌, ◌⊎◌, inl, inr, refl, sym, Bool, true, false, Option, none, some, String, List, [], ◌∷◌, All,
  All-map, Bool-cases, arith,
}
use recall_select.Sorting.Elements.{
  All-insert_descending, sort_reverse-All, All-sort_reverse, members,
}
use recall_select.Sorting.{insert_descending, sort_reverse}
use recall_select.Locale.{
  Texts, is_supported, default_locale, listed, parse_accept_language, first_supported,
  negotiate_locale,
}

module _ {A K : Type 0} (below : K → K → Bool) (key : A → K) where
  -- No later key is above an earlier one.
  abbrev IsSorted : List A → Type 0
  IsSorted [] = Unit
  IsSorted (x ∷ xs) = All (λ y. below (key x) (key y) ≡ false) xs × IsSorted xs

  module _ (is_number : K → Bool)
      (asymmetric : (a b : K)
        → is_number a ≡ true
        → is_number b ≡ true
        → below a b ≡ true
        → below b a ≡ false)
      (passes : (a b c : K)
        → is_number a ≡ true
        → is_number b ≡ true
        → is_number c ≡ true
        → below a b ≡ false
        → below b c ≡ false
        → below a c ≡ false) where
    passes_on :
        (a b : K) (xs : List A)
        → is_number a ≡ true
        → is_number b ≡ true
        → All (λ x. is_number (key x) ≡ true) xs
        → below a b ≡ false
        → All (λ x. below b (key x) ≡ false) xs
        → All (λ x. below a (key x) ≡ false) xs
    passes_on a b [] na nb ns e h = tt
    passes_on a b (x ∷ xs) na nb ns e h =
        (passes a b (key x) na nb ns.0 e h.0, passes_on a b xs na nb ns.1 e h.1)

    insert_descending-IsSorted :
        (x : A) (xs : List A)
        → is_number (key x) ≡ true
        → All (λ y. is_number (key y) ≡ true) xs
        → IsSorted xs
        → IsSorted (insert_descending below key x xs)
    unfolding insert_descending
    insert_descending-IsSorted x [] n ns h = (tt, tt)
    insert_descending-IsSorted x (y ∷ ys) n ns h = elim (Bool-cases (below (key x) (key y))) [
      | inl e ↦
          rw (e, insert_descending)
            (
              All-insert_descending below key (λ z. below (key y) (key z) ≡ false) x ys
                  (asymmetric (key x) (key y) n ns.0 e) h.0,
              insert_descending-IsSorted x ys n ns.1 h.1,
            )
      | inr e ↦ rw (e, insert_descending) ((e, passes_on (key x) (key y) ys n ns.0 ns.1 e h.0), h)
    ]

    sort_reverse-IsSorted :
        (xs : List A)
        → All (λ x. is_number (key x) ≡ true) xs
        → IsSorted (sort_reverse below key xs)
    unfolding sort_reverse
    sort_reverse-IsSorted [] ns = tt
    sort_reverse-IsSorted (x ∷ xs) ns =
        insert_descending-IsSorted x (sort_reverse below key xs) ns.0
          (All-sort_reverse below key (λ y. is_number (key y) ≡ true) xs ns.1)
          (sort_reverse-IsSorted xs ns.1)

-- The default, if no language of the list is supported.
abbrev pub IsDefault : {K : Type 0} → String → List (K × String) → Type 0
IsDefault locale es = (locale ≡ default_locale) × All (λ e. is_supported e.1 ≡ false) es

-- The cookie names no supported language.
abbrev pub IsUnset : Option String → Type 0
IsUnset none = Unit
IsUnset (some cookie) = is_supported cookie ≡ false

module _ {K : Type 0} (texts : Texts K) where
  -- A supported language of a list, than which no other supported one has a higher quality.
  abbrev pub IsBest : String → List (K × String) → List (K × String) → Type 0
  IsBest locale base es =
      (w : K) × Memᴰ (w, locale) base
      × (is_supported locale ≡ true)
      × All (λ e. is_supported e.1 ≡ true → texts.below w e.0 ≡ false) es

  module _ (is_number : K → Bool)
      (asymmetric : (a b : K)
        → is_number a ≡ true
        → is_number b ≡ true
        → texts.below a b ≡ true
        → texts.below b a ≡ false)
      (passes : (a b c : K)
        → is_number a ≡ true
        → is_number b ≡ true
        → is_number c ≡ true
        → texts.below a b ≡ false
        → texts.below b c ≡ false
        → texts.below a c ≡ false) where
    not_below_itself : (a : K) → is_number a ≡ true → texts.below a a ≡ false
    not_below_itself a n = elim (Bool-cases (texts.below a a)) [
      | inl e ↦ asymmetric a a n n e
      | inr e ↦ e
    ]

    first_supported_lem :
        (base es : List (K × String))
        → All (λ e. is_number e.0 ≡ true) es
        → IsSorted texts.below (λ e. e.0) es
        → All (λ e. Memᴰ e base) es
        → IsDefault (first_supported texts es) es ⊎ IsBest (first_supported texts es) base es
    first_supported_lem base [] ns sorted ms = inl (refl, tt)
    first_supported_lem base ((w, l) ∷ es) ns sorted ms =
        let P = λ (r : String). IsDefault r ((w, l) ∷ es) ⊎ IsBest r base ((w, l) ∷ es) in
        elim (Bool-cases (is_supported l)) [
          | inl s ↦
              let here : first_supported texts ((w, l) ∷ es) ≡ l = ground (arith, s) in
              subst P (sym here) (
                inr (
                  w,
                  ms.0,
                  s,
                  ((λ u. not_below_itself w ns.0), All-map (λ e later u. later) es sorted.0),
                ))
          | inr s ↦
              let later : first_supported texts ((w, l) ∷ es) ≡ first_supported texts es =
                ground (arith, s) in
              subst P (sym later) (elim (first_supported_lem base es ns.1 sorted.1 ms.1) [
                | inl (e, all) ↦ inl (e, (s, all))
                | inr (v, m, t, all) ↦ inr (v, m, t, ((λ u. absurd (ground (arith, s, u))), all))
              ])
        ]

    by_header :
        (header : Option String)
        → All (λ e. is_number e.0 ≡ true) (listed texts header)
        → let locale = first_supported texts (parse_accept_language texts header) in
          IsDefault locale (listed texts header)
          ⊎ IsBest locale (listed texts header) (listed texts header)
    by_header header ns =
        let es = listed texts header in
        let key = λ (e : K × String). e.0 in
        let back = λ (P : K × String → Type 0). sort_reverse-All texts.below key P es in
        elim (first_supported_lem es (parse_accept_language texts header)
          (All-sort_reverse texts.below key (λ e. is_number e.0 ≡ true) es ns)
          (sort_reverse-IsSorted texts.below key is_number asymmetric passes es ns)
          (All-sort_reverse texts.below key (λ e. Memᴰ e es) es (members es))) [
            | inl (e, all) ↦ inl (e, back (λ e. is_supported e.1 ≡ false) all)
            | inr (w, m, t, all) ↦
                inr (w, m, t, back (λ e. is_supported e.1 ≡ true → texts.below w e.0 ≡ false) all)
          ]

    -- A page is in the language of the cookie, if that is supported. Else it is in a supported
    -- language that the header lists, and no other supported one there has a higher quality; or, if
    -- the header lists none, in English. This is where every quality that the header gives is a
    -- number, in the sense of a predicate on whose values `<` orders: `float` also reads "nan".
    pub negotiate_locale_lem :
        (cookie header : Option String)
        → All (λ e. is_number e.0 ≡ true) (listed texts header)
        → let locale = negotiate_locale texts cookie header in
          ((cookie ≡ some locale) × (is_supported locale ≡ true))
          ⊎ (IsUnset cookie
              × (IsDefault locale (listed texts header)
                  ⊎ IsBest locale (listed texts header) (listed texts header)))
    unfolding negotiate_locale
    negotiate_locale_lem none header ns = inr (tt, by_header header ns)
    negotiate_locale_lem (some cookie) header ns =
        let chosen = negotiate_locale texts (some cookie) header in
        let es = listed texts header in
        let P = λ (r : String).
          ((some cookie ≡ some r) × (is_supported r ≡ true))
          ⊎ (IsUnset (some cookie) × (IsDefault r es ⊎ IsBest r es es)) in
        elim (Bool-cases (is_supported cookie)) [
          | inl s ↦
              let same : chosen ≡ cookie = ground (arith, s) in subst P (sym same) (inl (refl, s))
          | inr s ↦
              let same : chosen ≡ first_supported texts (parse_accept_language texts header) =
                ground (arith, s) in
              subst P (sym same) (inr (s, by_header header ns))
        ]
