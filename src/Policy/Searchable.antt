-- ===== src/Policy/Searchable.antt =====
-- src/wootpilot/text.py and the price pattern of application/policy.py. The Unicode database is a
-- parameter: decomposition, case folding and character classes come from Python's tables.
use Prim.Native.Nat.{ℕ}
use mathlib.Core.Bool.{Bool, false, ◌&&◌, ◌||◌, not}
use mathlib.Core.List.{List, [], ◌∷◌}
use wootpilot.Prelude.Tests.{◌==◌}
use wootpilot.Prelude.Lists.{filter, any}
use wootpilot.Prelude.Text.{Text, codes, collapse, contains}

pub record Unicode : Type 0 where
  pub nfkd : Text → Text  -- unicodedata.normalize("NFKD", value)
  pub combining : ℕ → Bool  -- unicodedata.combining(char) is not 0
  pub casefold : Text → Text
  pub lower : Text → Text
  pub digit : ℕ → Bool  -- \d in re
  pub word : ℕ → Bool  -- \w in re

module _ (u : Unicode) where
  unfoldable pub searchable_text : Text → Text
  searchable_text value =
      let decomposed = u.nfkd value in
      let without_accents = filter (λ c. not (u.combining c)) decomposed in
      collapse (u.casefold without_accents)

  -- [.,]
  separator : ℕ → Bool
  separator c = c == b'.' || c == b','

  -- (?:[.,]\d{3})*[.,]\d{2}\b after the first digits. A digit is a word character, so the last
  -- boundary holds at the end of the text and before a character that is none.
  match_groups : Text → Bool
  unfolding separator
  match_groups (s ∷ a ∷ b ∷ []) = separator s && u.digit a && u.digit b
  match_groups (s ∷ a ∷ b ∷ c ∷ rest) =
      separator s && u.digit a && u.digit b && (not (u.word c) || u.digit c && match_groups rest)
  match_groups _ = false

  -- \d{1,3} and what follows, at one position.
  match_price : Text → Bool
  unfolding match_groups
  match_price (a ∷ b ∷ c ∷ rest) =
      u.digit a
      && (match_groups (b ∷ c ∷ rest)
          || u.digit b && (match_groups (c ∷ rest) || u.digit c && match_groups rest))
  match_price _ = false

  -- re.search with the leading \b: `after_word` says whether the previous character is a \w.
  search_price : Bool → Text → Bool
  unfolding match_price
  search_price after_word [] = false
  search_price after_word (c ∷ rest) =
      not after_word && u.word c && match_price (c ∷ rest) || search_price (u.word c) rest

  abbrev price_markers : List Text
  price_markers =
      codes "r$"
      ∷ codes "$"
      ∷ codes "brl"
      ∷ codes "usd"
      ∷ codes "eur"
      ∷ codes "free"
      ∷ codes "grátis"
      ∷ codes "gratis"
      ∷ []

  unfoldable pub mentions_exact_price : Text → Bool
  unfolding search_price searchable_text
  mentions_exact_price text =
      let lowered = searchable_text text in
      any (contains lowered) price_markers || search_price false lowered

  -- `" ".join(text.lower().split())`, and "" for an empty text.
  unfoldable pub normalize_price_text : Text → Text
  normalize_price_text [] = []
  normalize_price_text (c ∷ text) = collapse (u.lower (c ∷ text))
