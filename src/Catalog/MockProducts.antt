-- ===== src/Catalog/MockProducts.antt =====
-- src/wootpilot/catalog/mock.py: MockCatalog over the products of its fixture file, which the parser
-- gives as a list of dicts, and what it reads from one product.
use mathlib.Core.Bool.{Bool, false, ◌&&◌, not}
use mathlib.Core.Option.{Option, none, some}
use mathlib.Core.List.{List, [], ◌∷◌, ◌++◌, map}
use wootpilot.Prelude.Tests.{if◌then◌else◌, is_some}
use wootpilot.Prelude.Lists.{filter, take}
use wootpilot.Prelude.Text.{Text, codes, join}
use wootpilot.Prelude.Json.{
  Json, null, int, str, arr, nil, items, obj, Fields, end, field, get, get_or, is_truthy, ◌or◌,
}
use wootpilot.Domain.Catalog.{Money, PriceSnapshot, ProductSearchQuery, ProductSnapshot}
use wootpilot.Domain.Outbound.{Result, ok, ◌>>=◌}
use wootpilot.Policy.Searchable.{searchable_text}
use wootpilot.Persistence.MessageOrder.{Signed}
use wootpilot.Catalog.Values.{
  Library, dict_of, values_of, optional_str, text_or_none, text_of, int_of, money, all_terms_match,
}
use wootpilot.Catalog.Products.{availability_snapshot, out_of_stock}
use wootpilot.Catalog.StoreApi.{traverse}

-- json.dumps of a value, and Money.display, which divides floats.
pub record MockCatalog : Type 0 where
  pub products : List Fields
  pub library : Library
  pub dumps : Json → Text
  pub display : Money → (minor_unit : Signed) → Text

abbrev pub values_in : Fields → List Json
values_in end = []
values_in (field k v fields) = v ∷ values_in fields

module _ (catalog : MockCatalog) where
  abbrev pub text : Json → Text
  text value = text_of catalog.library value

  abbrev pub searchable : Text → Text
  searchable t = searchable_text catalog.library.unicode t

  -- product.get(key, []) or [], as dicts
  abbrev pub taxonomy_items : (product : Fields) (key : Text) → Result (List Fields)
  taxonomy_items product key =
      values_of (get_or product key (arr nil) or arr nil) >>= λ values. traverse dict_of values

  -- (item.get("name"), item.get("slug")) of every item
  abbrev pub names_and_slugs : List Fields → List Json
  names_and_slugs [] = []
  names_and_slugs (item ∷ items) =
      get item (codes "name") ∷ get item (codes "slug") ∷ names_and_slugs items

  -- searchable_text(" ".join(str(part) for part in parts if part))
  abbrev pub joined : List Json → Text
  joined parts = searchable (join (codes " ") (map text (filter is_truthy parts)))

  unfoldable pub taxonomy_text : (product : Fields) (key : Text) → Result Text
  taxonomy_text product key =
      taxonomy_items product key >>= λ items. ok (joined (names_and_slugs items))

  -- (product.get("clientFacing") or {}).get("fitment") or {}
  abbrev pub fitment_of : (product : Fields) → Result Json
  fitment_of product = dict_of (get product (codes "clientFacing") or obj end) >>= λ client.
      ok (get client (codes "fitment") or obj end)

  unfoldable pub search_text : (product : Fields) → Result Text
  search_text product = do
    categories ← taxonomy_items product (codes "categories")
    tags ← taxonomy_items product (codes "tags")
    fitment ← fitment_of product
    ok (
        joined (
          get product (codes "name")
            ∷ get product (codes "sku")
            ∷ get product (codes "slug")
            ∷ get product (codes "descriptionText")
            ∷ get product (codes "shortDescriptionText")
            ∷ names_and_slugs categories
          ++ (names_and_slugs tags ++ str (catalog.dumps fitment) ∷ [])))

  unfoldable pub matches_structured_filters : (product : Fields) → ProductSearchQuery → Result Bool
  matches_structured_filters product query = do
    category_text ← taxonomy_text product (codes "categories")
    tag_text ← taxonomy_text product (codes "tags")
    found ← search_text product
    ok (
        all_terms_match catalog.library query.categories category_text
        && all_terms_match catalog.library query.tags tag_text
        && all_terms_match catalog.library query.fitment_hints found)

  abbrev pub hint_texts : List Json → List Text
  hint_texts [] = []
  hint_texts (str t ∷ values) = t ∷ hint_texts values
  hint_texts (arr hints ∷ values) = map text (items hints) ++ hint_texts values
  hint_texts (_ ∷ values) = hint_texts values

  abbrev pub hints_of : Json → List Text
  hints_of (obj fitment) = take 8 (hint_texts (values_in fitment))
  hints_of _ = []

  -- Money(currency=currency, minor_units=int(raw_amount)) if raw_amount else None
  unfoldable pub mock_amount : (currency : Text) (raw_amount : Json) → Result (Option Money)
  mock_amount currency raw_amount =
      if is_truthy raw_amount
      then (int_of catalog.library raw_amount >>= λ n.
          money catalog.library currency n >>= λ m. ok (some m))
      else ok none

  -- product.get("priceHtml") or (amount.display(minor_unit) if amount else None)
  abbrev pub display_of : Json → (minor_unit : Signed) → Option Money → Result (Option Text)
  display_of html minor_unit none = optional_str (html or null)
  display_of html minor_unit (some amount) =
      optional_str (html or str (catalog.display amount minor_unit))

  unfoldable pub mock_price :
      (amount : Option Money) (display_text : Option Text) → Bool → PriceSnapshot
  mock_price amount display_text is_in_stock = record {
    amount = amount;
    display_text = display_text;
    can_mention = is_some amount && is_in_stock;
    quote_required = false;
    hidden = not (is_some amount);
    stale = false;
    reason = if is_some amount then none else some (codes "catalog.price_missing");
  }

  -- [str(item.get("name")) for item in ... if item.get("name")]
  abbrev pub item_names : List Fields → List Text
  item_names fields = map text (filter is_truthy (map (λ item. get item (codes "name")) fields))

  unfoldable pub snapshot : (product : Fields) → Result ProductSnapshot
  snapshot product = do
    let in_stock = is_truthy (get product (codes "isInStock"))
    prices ← dict_of (get product (codes "prices") or obj end)
    let currency = catalog.library.upper (text (get prices (codes "currency") or str (codes "BRL")))
    minor_unit ← int_of catalog.library (get prices (codes "minorUnit") or int false 2)
    amount ← mock_amount currency (get prices (codes "price"))
    display_text ← display_of (get product (codes "priceHtml")) minor_unit amount
    categories ← taxonomy_items product (codes "categories")
    tags ← taxonomy_items product (codes "tags")
    fitment ← fitment_of product
    permalink ← optional_str (get product (codes "permalink"))
    ok (record {
      product_id = text (get product (codes "id"));
      sku = text_or_none (text (get product (codes "sku") or str []));
      name = text (get product (codes "name") or str []);
      permalink = permalink;
      categories = item_names categories;
      tags = item_names tags;
      fitment_hints = hints_of fitment;
      price = mock_price amount display_text in_stock;
      availability =
          availability_snapshot in_stock (text (get product (codes "stockAvailability") or str []));
      risk_signals = out_of_stock in_stock;
    })
