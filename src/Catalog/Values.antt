-- ===== src/Catalog/Values.antt =====
-- src/wootpilot/catalog/store_api.py and mock.py: the values that are read from a product's payload.
use Prim.Native.Nat.{ℕ}
use mathlib.Core.Bool.{Bool, true, false, ◌&&◌, not}
use mathlib.Core.Option.{Option, none, some}
use mathlib.Core.List.{List, [], ◌∷◌}
use wootpilot.Prelude.Tests.{◌==◌, if◌then◌else◌}
use wootpilot.Prelude.Lists.{all, any, length}
use wootpilot.Prelude.Text.{Text, codes, strip, contains, join}
use wootpilot.Prelude.Json.{
  Json, null, bool, int, float, str, obj, Fields, get, ◌or◌, is_hashable, is_blank, is_null,
  iterate, str_of,
}
use wootpilot.Domain.Catalog.{Money, ProductSnapshot, ProductSearchQuery}
use wootpilot.Domain.Outbound.{Result, ok, err, ◌>>=◌, Failure}
use wootpilot.Policy.Searchable.{Unicode, searchable_text}
use wootpilot.Persistence.MessageOrder.{Signed, parse_int}

-- What the standard library answers: str() of a container, str.upper, html.unescape, int() of a
-- float, the value of a decimal digit, and the Unicode tables.
pub record Library : Type 0 where
  pub repr : Json → Text
  pub upper : Text → Text
  pub unescape : Text → Text
  pub int_of_float : Json → Result Signed
  pub decimal : ℕ → Option ℕ
  pub unicode : Unicode

abbrev pub attribute_error : Failure
attribute_error = Failure.unexpected (codes "AttributeError")

abbrev pub type_error : Failure
type_error = Failure.unexpected (codes "TypeError")

-- `value.get` on a value that may be no dict
abbrev pub dict_of : Json → Result Fields
dict_of (obj fields) = ok fields
dict_of _ = err attribute_error

-- iter(value)
abbrev pub values_of : Json → Result (List Json)
values_of value = elim (iterate value) [ none ↦ err type_error | some values ↦ ok values ]

-- A field of a strict model with the type `str | None`.
abbrev pub optional_str : Json → Result (Option Text)
optional_str null = ok none
optional_str (str t) = ok (some t)
optional_str _ = err Failure.value_error

-- A tag has a character between `<` and the next `>`.
abbrev pub opens_tag : Text → Bool
opens_tag [] = false
opens_tag (c ∷ text) = not (c == b'>') && any (λ d. d == b'>') text

-- re.sub(r"<[^>]+>", "", text); `inside` says that a tag is being dropped.
unfoldable pub strip_tags : (inside : Bool) → Text → Text
unfolding any
strip_tags inside [] = []
strip_tags true (c ∷ text) = strip_tags (not (c == b'>')) text
strip_tags false (c ∷ text) = elim (c == b'<' && opens_tag text) [
  | true ↦ strip_tags true text
  | false ↦ c ∷ strip_tags false text
]

-- bool(items) and `or None` on the text
abbrev pub text_or_none : Text → Option Text
text_or_none [] = none
text_or_none (c ∷ text) = some (c ∷ text)

-- not bool(n)
abbrev pub is_zero : Signed → Bool
is_zero n = n.magnitude == 0

module _ (lib : Library) where
  abbrev pub text_of : Json → Text
  text_of value = str_of lib.repr value

  abbrev pub parsed : Option Signed → Result Signed
  parsed none = err Failure.value_error
  parsed (some n) = ok n

  -- int(value), on a value that has a hash and is neither None nor ""
  abbrev pub int_of : Json → Result Signed
  int_of (int negative n) = ok (record { negative = negative; magnitude = n })
  int_of (bool b) = ok (record { negative = false; magnitude = if b then 1 else 0 })
  int_of (float is_zero printed) = lib.int_of_float (float is_zero printed)
  int_of (str t) = parsed (parse_int lib.decimal t)
  int_of _ = err type_error

  unfoldable pub int_or_none : Json → Result (Option Signed)
  int_or_none value =
      if is_hashable value
      then (if is_blank value then ok none else int_of value >>= λ n. ok (some n))
      else err type_error

  -- Money(currency=currency, minor_units=n)
  unfoldable pub money : (currency : Text) → Signed → Result Money
  money currency n =
      if length currency == 3
      then ok (record {
        currency = lib.upper currency;
        negative = n.negative && not (is_zero n);
        minor_units = n.magnitude;
      })
      else err Failure.value_error

  unfoldable pub clean_html : Json → Option Text
  unfolding strip_tags strip
  clean_html value =
      if is_null value then none else some (strip (lib.unescape (strip_tags false (text_of value))))

  unfoldable pub taxonomy_name : Json → Text
  unfolding ◌or◌ get
  taxonomy_name (obj item) = text_of (get item (codes "name") or get item (codes "slug") or str [])
  taxonomy_name item = text_of item

  unfoldable pub all_terms_match : (terms : List Text) (haystack : Text) → Bool
  unfolding all searchable_text contains
  all_terms_match terms haystack =
      all (λ term. contains haystack (searchable_text lib.unicode term)) terms

  unfoldable pub snapshot_matches_structured_filters : ProductSnapshot → ProductSearchQuery → Bool
  unfolding all_terms_match searchable_text join
  snapshot_matches_structured_filters snapshot query =
      let joined = λ (texts : List Text). searchable_text lib.unicode (join (codes " ") texts) in
      all_terms_match query.categories (joined snapshot.categories)
      && all_terms_match query.tags (joined snapshot.tags)
      && all_terms_match query.fitment_hints (joined snapshot.fitment_hints)
