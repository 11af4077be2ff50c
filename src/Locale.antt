-- ===== src/Locale.antt =====
-- The choice of a page's language: app/i18n.py, and the switcher and the cookie of app/main.py. The
-- methods of Python's `str` and its `float` are parameters, and so is the type of a quality.
pub mod Choice
pub mod Tests
use recall_select.Prelude.{
  ℕ, ◌*◌, Bool, if◌then◌else◌, Option, none, some, get_or, String, ◌==◌, List, [], ◌∷◌,
}
use recall_select.Qdrant.{contains}
use recall_select.Sorting.{sort_reverse}

abbrev pub supported_locales : List String
supported_locales = "en" ∷ "ru" ∷ "uk" ∷ "de" ∷ "pl" ∷ "es" ∷ "it" ∷ []

abbrev pub default_locale : String
default_locale = "en"

unfoldable pub is_supported : String → Bool
is_supported locale = contains locale supported_locales

pub record Texts (K : Type 0) : Type 0 where
  -- `text.split(separator)`, which is never empty: the first part, and the others.
  pub split : (separator text : String) → String × List String
  pub strip : String → String
  pub lower : String → String
  -- `partition`: what is before the separator, and what is after it.
  pub partition : (separator text : String) → String × String
  -- What follows a prefix, if the text starts with it.
  pub after : (prefix text : String) → Option String
  -- none is a ValueError.
  pub float : String → Option K
  pub one : K
  pub nought : K
  -- `a < b`
  pub below : K → K → Bool

module _ {K : Type 0} (texts : Texts K) where
  abbrev pub quality : (params : String) → K
  quality params = elim (texts.after "q=" params) [
    | none ↦ texts.one
    | some number ↦ get_or (texts.float number) texts.nought
  ]

  abbrev pub primary_of : (tag : String) → String
  primary_of tag = texts.lower (texts.split "-" (texts.strip tag)).0

  -- The languages in the order of the header, with their qualities.
  unfoldable pub weighted : List String → List (K × String)
  weighted [] = []
  weighted (raw ∷ parts) =
      let part = texts.strip raw in
      let (tag, params) = texts.partition ";" part in
      let rest = weighted parts in
      if part == ""
      then rest
      else if primary_of tag == ""
      then rest
      else (quality params, primary_of tag) ∷ rest

  -- No header and an empty one list nothing.
  abbrev pub listed : Option String → List (K × String)
  listed none = []
  listed (some header) =
      if header == ""
      then []
      else let (part, parts) = texts.split "," header in weighted (part ∷ parts)

  abbrev pub parse_accept_language : Option String → List (K × String)
  parse_accept_language header = sort_reverse texts.below (λ (e : K × String). e.0) (listed header)

  abbrev pub first_supported : List (K × String) → String
  first_supported [] = default_locale
  first_supported (e ∷ es) = if is_supported e.1 then e.1 else first_supported es

  unfoldable pub negotiate_locale : (cookie_value accept_language : Option String) → String
  negotiate_locale none accept_language = first_supported (parse_accept_language accept_language)
  negotiate_locale (some cookie) accept_language =
      if is_supported cookie
      then cookie
      else first_supported (parse_accept_language accept_language)

-- What the language switcher answers with.
pub record LanguageCookie : Type 0 where
  pub url : String
  pub value : String
  pub max_age : ℕ

abbrev pub locale_cookie_max_age : ℕ
locale_cookie_max_age = 60 * 60 * 24 * 365

abbrev pub set_language : (code : String) → LanguageCookie
set_language code = record {
  url = "/";
  value = if is_supported code then code else default_locale;
  max_age = locale_cookie_max_age;
}
