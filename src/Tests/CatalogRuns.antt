-- ===== src/Tests/CatalogRuns.antt =====
-- Runs of the Store API connector on a store with one cap, and of the choice of a connector.
use Prim.Native.Nat.{◌≤◌}
use mathlib.Core.Path.{◌≡◌, refl, sym, subst, ap}
use mathlib.Core.Logic.{◌⊎◌, ◌↔◌, inl, inr}
use native.Mathlib.Omega.{arith}
use mathlib.Core.Bool.{true, false}
use mathlib.Core.Option.{none, some}
use mathlib.Core.List.{List, [], ◌∷◌}
use wootpilot.Prelude.Lists.{◌∈◌, length, any}
use wootpilot.Prelude.Text.{Text, codes, contains}
use wootpilot.Prelude.Json.{Fields, end, field, int, str, obj, bool}
use wootpilot.Domain.Catalog.{CatalogContext, ProductSearchQuery, ProductSnapshot}
use wootpilot.Policy.Rules.{or_empty, price_is_mentionable, public_price_policy_rule}
use wootpilot.Policy.Searchable.{mentions_exact_price, normalize_price_text}
use wootpilot.Support.Recording.{SearchAnswer}
use wootpilot.Catalog.Values.{snapshot_matches_structured_filters}
use wootpilot.Catalog.Products.{store_api_product_to_snapshot}
use wootpilot.Catalog.StoreApi.{search_answer, search_products}
use wootpilot.Catalog.Prices.{IsPriced, price_text, store_api_product-mentionable_iff}
use wootpilot.Catalog.Searches.{
  IsFailed, IsReadFrom, Listed, products_reply, search_answer-IsPriced,
}
use wootpilot.Catalog.Limits.{AllReadable, search_answer-IsFailed_iff, search_products-matching}
use wootpilot.Catalog.Connectors.{
  CatalogConnectorMode, CatalogSettings, Connector, ConnectorCapability, effective_capabilities,
  default_installation, or_default,
}
use wootpilot.Catalog.Capabilities.{
  IsEffective, effective_capabilities_iff, require_product_catalog-IsEffective,
}
use wootpilot.Catalog.Products.{product_price, amount_of, currency_of, price_snapshot}
use wootpilot.Prelude.Json.{◌or◌, get, str_of, get_or}
use wootpilot.Catalog.Values.{int_or_none, money, clean_html}
use wootpilot.Persistence.MessageOrder.{parse_int}
use wootpilot.Prelude.Text.{strip}
use wootpilot.Prelude.Lists.{filter}
use wootpilot.Catalog.Connectors.{require_product_catalog, mode_of}
use wootpilot.Catalog.StoreApi.{get_products, get_collection, traverse, search_context}
use wootpilot.Policy.Rules.{mentionable_prices}
use wootpilot.Catalog.StoreApi.{store_api_filter_params, list_param}
use wootpilot.Catalog.Values.{all_terms_match}
use wootpilot.Prelude.Lists.{all}
use wootpilot.Prelude.Text.{collapse}
use wootpilot.Http.{Reply, response, json}
use wootpilot.Prelude.Json.{Json, arr, items, as_dict}
use wootpilot.Domain.Outbound.{ok}
use wootpilot.Catalog.MockProducts.{MockCatalog, snapshot}
use wootpilot.Catalog.Mock.{mock_search_products}
use wootpilot.Catalog.MockSearches.{IsMatch, mock_search_products-matching}
use wootpilot.Catalog.MockProducts.{
  matches_structured_filters, taxonomy_text, search_text, mock_amount, mock_price,
}
use wootpilot.Catalog.Mock.{
  found_products, scored_products, sort_scored, score_of, words, insert_scored,
}
use wootpilot.Prelude.Text.{join}
use wootpilot.Tests.Fixtures.{ascii}
use wootpilot.Tests.Payloads.{cap_payload, library, python, store}

abbrev cap : ProductSnapshot
cap = record {
  product_id = codes "7";
  sku = none;
  name = codes "Cap";
  permalink = none;
  categories = [];
  tags = [];
  fitment_hints = [];
  price = record {
    amount = some (record { currency = codes "BRL"; negative = false; minor_units = 1000 });
    display_text = some (codes "R$ 10,00");
    can_mention = true;
    quote_required = false;
    hidden = false;
    stale = false;
    reason = none;
  };
  availability = record {
    is_available = some true;
    display_text = some [];
    can_mention = true;
    hidden_quantity = false;
    uncertain_reasons = [];
  };
  risk_signals = [];
}

abbrev cap_found : CatalogContext
cap_found = record {
  query = codes "cap";
  products = cap ∷ [];
  risk_signals = [];
  snapshot_id = none;
}

abbrev told : Text
told = codes "The cap costs R$ 10,00"

store_api_product-mentionable_iff_example :
    (price_is_mentionable cap ≡ true) ↔ IsPriced library cap_payload
unfolding store_api_product_to_snapshot product_price ◌or◌ get int_or_none parse_int strip amount_of
    money currency_of str_of get_or filter price_snapshot clean_html
store_api_product-mentionable_iff_example =
    store_api_product-mentionable_iff library cap_payload cap refl

search_answer-IsPriced_example :
    (product : Fields) × Listed store (products_reply store (codes "cap") 5 []) product
    × IsPriced library product
    × (contains
          (normalize_price_text ascii told)
          (normalize_price_text ascii (or_empty (price_text library product)))
        ≡ true)
unfolding search_answer get_products get_collection traverse store_api_product_to_snapshot
    product_price ◌or◌ get int_or_none parse_int strip amount_of money currency_of str_of get_or
    filter price_snapshot clean_html search_context public_price_policy_rule mentionable_prices
    price_is_mentionable mentions_exact_price normalize_price_text any contains collapse
search_answer-IsPriced_example =
    search_answer-IsPriced store ascii (codes "cap") told cap_found refl refl refl

abbrev payload_items : Reply → List Json
payload_items (response status (json (arr values))) = items values
payload_items _ = []

cap_readable : AllReadable store (products_reply store (codes "cap") 5 [])
unfolding store_api_product_to_snapshot product_price ◌or◌ get int_or_none parse_int strip amount_of
    money currency_of str_of get_or filter price_snapshot clean_html
cap_readable product listed =
    let among : obj product ∈ (obj cap_payload ∷ []) =
      subst (λ (l : List Json). obj product ∈ l) (sym (ap payload_items listed.answered))
        listed.among in
    elim among [
      | inl same ↦ (
        cap,
        subst (λ (p : Fields). store_api_product_to_snapshot library p ≡ ok cap)
            (sym (ap as_dict same)) refl,
      )
      | inr none_left ↦ absurd none_left
    ]

search_answer-IsFailed_iff_example :
    ((search_answer store (codes "cap") ≡ SearchAnswer.catalog_context_error)
      ↔ IsFailed store (products_reply store (codes "cap") 5 []))
    × (IsFailed store (products_reply store (codes "cap") 5 [])
        ⊎ ((context : CatalogContext) × (search_answer store (codes "cap")
              ≡ SearchAnswer.found context)))
search_answer-IsFailed_iff_example =
    search_answer-IsFailed_iff store (codes "cap") (λ name e. ground arith) cap_readable

abbrev any_cap : ProductSearchQuery
any_cap = record { query = codes "cap"; limit = 5; categories = []; tags = []; fitment_hints = [] }

search_products-matching_example :
    (length (cap ∷ []) ≤ 5)
    × ((s : ProductSnapshot)
        → s ∈ (cap ∷ [])
        → IsReadFrom store (products_reply store (codes "cap") 5 []) s
          × (snapshot_matches_structured_filters library s any_cap ≡ true))
unfolding search_products get_products get_collection traverse store_api_product_to_snapshot
    product_price ◌or◌ get int_or_none parse_int strip amount_of money currency_of str_of get_or
    filter price_snapshot clean_html store_api_filter_params list_param
    snapshot_matches_structured_filters all_terms_match all
search_products-matching_example = search_products-matching store any_cap (cap ∷ []) refl

abbrev mock_settings : CatalogSettings
mock_settings = record {
  catalog_connector_mode = CatalogConnectorMode.mock;
  woocommerce_store_api_base_url = [];
  mock_catalog_path = codes "catalog.json";
}

effective_capabilities_iff_example :
    (ConnectorCapability.refund_create
      ∈ effective_capabilities (default_installation python.repr mock_settings))
    ↔ ((true ≡ true)
        × (ConnectorCapability.refund_create ∈ (ConnectorCapability.product_catalog_read ∷ []))
        × (ConnectorCapability.refund_create ∈ (ConnectorCapability.product_catalog_read ∷ []))
        × (ConnectorCapability.refund_create ∈ (ConnectorCapability.product_catalog_read ∷ [])))
effective_capabilities_iff_example =
    effective_capabilities_iff (default_installation python.repr mock_settings)
      ConnectorCapability.refund_create λ none_named. ground arith

require_product_catalog-IsEffective_example :
    IsEffective (or_default python.repr mock_settings none) ConnectorCapability.product_catalog_read
    × ((or_default python.repr mock_settings none).connector_key ≡ codes "woocommerce")
unfolding effective_capabilities require_product_catalog mode_of ◌or◌ get
require_product_catalog-IsEffective_example =
    require_product_catalog-IsEffective python.repr mock_settings none
      (Connector.mock_catalog (codes "catalog.json")) refl

-- The cap as the fixture file has it.
abbrev fixture_cap : Fields
fixture_cap = field (codes "id") (int false 7) (
    field (codes "name") (str (codes "Cap")) (
      field (codes "prices") (obj (field (codes "price") (str (codes "1000")) end)) (
        field (codes "priceHtml") (str (codes "R$ 10,00"))
          (field (codes "isInStock") (bool true) end))))

abbrev fixture : MockCatalog
fixture = record {
  products = fixture_cap ∷ [];
  library = library;
  dumps = λ _. codes "{}";
  display = λ _ _. codes "R$ 10.00";
}

mock_search_products-matching_example :
    (length (cap ∷ []) ≤ 5)
    × ((s : ProductSnapshot)
        → s ∈ (cap ∷ [])
        → (product : Fields) × IsMatch fixture any_cap product × (snapshot fixture product ≡ ok s))
unfolding mock_search_products found_products scored_products matches_structured_filters
    taxonomy_text ◌or◌ get_or traverse search_text get all_terms_match sort_scored score_of words
    collapse join str_of snapshot insert_scored mock_amount mock_price money parse_int all filter
    contains strip
mock_search_products-matching_example =
    mock_search_products-matching fixture any_cap (cap ∷ []) refl
