-- ===== src/Catalog/Products.antt =====
-- src/wootpilot/catalog/store_api.py: the mapping of Store API products and categories.
use mathlib.Core.Bool.{Bool, true, false, ◌&&◌, ◌||◌, not}
use mathlib.Core.Option.{Option, none, some}
use mathlib.Core.List.{List, [], ◌∷◌, map}
use wootpilot.Prelude.Tests.{if◌then◌else◌, is_some}
use wootpilot.Prelude.Lists.{filter}
use wootpilot.Prelude.Text.{Text, codes, truthy}
use wootpilot.Prelude.Json.{
  Json, bool, str, arr, nil, obj, Fields, end, get, get_or, is_truthy, ◌or◌, is_hashable, is_blank,
  is_zero_value,
}
use wootpilot.Domain.Catalog.{
  AvailabilitySnapshot, Money, PriceSnapshot, ProductCategory, ProductSnapshot,
}
use wootpilot.Domain.Outbound.{Result, ok, err, ◌>>=◌}
use wootpilot.Persistence.MessageOrder.{Signed}
use wootpilot.Catalog.Values.{
  Library, type_error, dict_of, values_of, optional_str, is_zero, text_or_none, text_of,
  int_or_none, money, clean_html, taxonomy_name,
}

-- product.get("is_purchasable", product.get("isPurchasable", True)), as a bool
abbrev pub is_purchasable : Fields → Bool
is_purchasable product =
    is_truthy
      (get_or product (codes "is_purchasable") (get_or product (codes "isPurchasable") (bool true)))

abbrev pub is_in_stock : Fields → Bool
is_in_stock product =
    is_truthy
      (get_or product (codes "is_in_stock") (get_or product (codes "isInStock") (bool false)))

abbrev pub out_of_stock : (in_stock : Bool) → List Text
out_of_stock in_stock = if in_stock then [] else codes "catalog.out_of_stock" ∷ []

-- `price_value == 0`
abbrev pub is_placeholder : Option Signed → Bool
is_placeholder none = false
is_placeholder (some n) = is_zero n

-- The price of a product, given the amount that was read; the amount is absent for no price and
-- for 0.
unfoldable pub price_snapshot :
    (price_value : Option Signed) (amount : Option Money) (display_text : Option Text)
    (purchasable in_stock : Bool)
    → PriceSnapshot
price_snapshot price_value amount display_text purchasable in_stock =
    let price_is_placeholder = is_placeholder price_value in
    record {
      amount = if price_is_placeholder then none else amount;
      display_text = display_text;
      can_mention = is_some amount && not price_is_placeholder && purchasable && in_stock;
      quote_required = price_is_placeholder;
      hidden = not (is_some amount);
      stale = false;
      reason =
          if price_is_placeholder then some (codes "catalog.quote_required_placeholder") else none;
    }

abbrev pub availability_snapshot : (in_stock : Bool) (display_text : Text) → AvailabilitySnapshot
availability_snapshot in_stock display_text = record {
  is_available = some in_stock;
  display_text = some display_text;
  can_mention = true;
  hidden_quantity = false;
  uncertain_reasons = out_of_stock in_stock;
}

module _ (lib : Library) where
  -- Money(currency=currency, minor_units=price_value) if price_value else None
  unfoldable pub amount_of : (currency : Text) → Option Signed → Result (Option Money)
  amount_of currency none = ok none
  amount_of currency (some n) =
      if is_zero n then ok none else money lib currency n >>= λ m. ok (some m)

  unfoldable pub currency_of : (prices : Fields) → Text
  currency_of prices =
      text_of lib
        (get prices (codes "currency_code") or get prices (codes "currency") or str (codes "BRL"))

  abbrev pub names : List Json → List Text
  names values = filter truthy (map (taxonomy_name lib) values)

  -- product.get(key, []), iterated
  abbrev pub taxonomy : (product : Fields) (key : Text) → Result (List Text)
  taxonomy product key = values_of (get_or product key (arr nil)) >>= λ values. ok (names values)

  unfoldable pub product_price : (product : Fields) → Result PriceSnapshot
  product_price product = do
    prices ← dict_of (get product (codes "prices") or obj end)
    price_value ← int_or_none lib (get prices (codes "price"))
    amount ← amount_of (currency_of prices) price_value
    ok (
        price_snapshot price_value amount
          (clean_html lib (get product (codes "price_html") or get product (codes "priceHtml")))
          (is_purchasable product) (is_in_stock product))

  unfoldable pub store_api_product_to_snapshot : (product : Fields) → Result ProductSnapshot
  store_api_product_to_snapshot product = do
    let in_stock = is_in_stock product
    price ← product_price product
    categories ← taxonomy product (codes "categories")
    tags ← taxonomy product (codes "tags")
    permalink ← optional_str (get product (codes "permalink"))
    ok (record {
      product_id = text_of lib (get product (codes "id"));
      sku = text_or_none (text_of lib (get product (codes "sku") or str []));
      name = text_of lib (get product (codes "name") or str []);
      permalink = permalink;
      categories = categories;
      tags = tags;
      fitment_hints = [];
      price = price;
      availability = availability_snapshot in_stock (
          text_of lib (
            get product (codes "stock_availability")
            or get product (codes "stockAvailability")
            or str []));
      risk_signals = out_of_stock in_stock;
    })

  -- The names that a category payload may carry: its slug and its parent's id.
  abbrev pub slug_of : (category : Fields) → Option Text
  slug_of category =
      let slug = get category (codes "slug") in
      if is_truthy slug then some (text_of lib slug) else none

  abbrev pub parent_of : Json → Result (Option Text)
  parent_of parent =
      if is_hashable parent
      then ok (if is_blank parent || is_zero_value parent then none else some (text_of lib parent))
      else err type_error

  unfoldable pub store_api_category_to_snapshot : (category : Fields) → Result ProductCategory
  store_api_category_to_snapshot category = do
    let category_id =
        text_of lib
          (get category (codes "id") or get category (codes "slug") or get category (codes "name"))
    parent_id ← parent_of (get category (codes "parent"))
    ok (record {
      category_id = category_id;
      name =
          text_of lib
            (get category (codes "name") or get category (codes "slug") or str category_id);
      slug = slug_of category;
      parent_id = parent_id;
    })
