-- ===== src/Locale/Tests.antt =====
-- The choice of a language for one header, whose parts a table gives.
use recall_select.Prelude.{
  ℕ, ◌≡◌, ◌⊎◌, true, if◌then◌else◌, none, some, ◌==◌, [], ◌∷◌, ltb, leb, refl, arith,
}
use recall_select.Locale.{Texts, weighted, listed, negotiate_locale, is_supported}
use recall_select.Locale.Choice.{IsUnset, IsDefault, IsBest, negotiate_locale_lem}

-- "fr,de;q=8" with qualities in tenths.
abbrev texts : Texts ℕ
texts = record {
  split = λ separator text. if text == "fr,de;q=8" then ("fr", "de;q=8" ∷ []) else (text, []);
  strip = λ text. text;
  lower = λ text. text;
  partition = λ separator text. if text == "de;q=8" then ("de", "q=8") else (text, "");
  after = λ prefix text. if text == "q=8" then some "8" else none;
  float = λ text. some 8;
  one = 10;
  nought = 0;
  below = ltb;
}

negotiate_locale_lem_example :
    let locale = negotiate_locale texts none (some "fr,de;q=8") in
    let es = listed texts (some "fr,de;q=8") in
    ((none ≡ some locale) × (is_supported locale ≡ true))
    ⊎ (IsUnset none × (IsDefault locale es ⊎ IsBest texts locale es es))
unfolding weighted
negotiate_locale_lem_example =
    negotiate_locale_lem texts (λ w. leb w 10) (λ a b m n h. ground arith)
      (λ a b c m n o h k. ground arith) none (some "fr,de;q=8") (refl, (refl, tt))
