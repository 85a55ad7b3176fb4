-- ===== src/Catalog/Mock.antt =====
-- src/wootpilot/catalog/mock.py: the searches and lookups of MockCatalog.
use Prim.Native.Nat.{ℕ}
use mathlib.Core.Bool.{Bool, true, false, ◌&&◌, ◌||◌, not}
use mathlib.Core.Option.{Option, none, some}
use mathlib.Core.List.{List, [], ◌∷◌, ◌++◌, map}
use wootpilot.Prelude.Tests.{ltb, ◌==◌, if◌then◌else◌}
use wootpilot.Prelude.Lists.{filter, find?, length, take}
use wootpilot.Prelude.Text.{Text, codes, truthy, str_eq, str_gt, strip, contains, is_space}
use wootpilot.Prelude.Json.{Json, str, items, Fields, get, get_or, is_truthy, ◌or◌}
use wootpilot.Domain.Catalog.{
  CatalogContext, ProductCategory, ProductSearchQuery, ProductSnapshot, RiskSignal, risk_value,
}
use wootpilot.Domain.Outbound.{Result, ok, err, ◌>>=◌, Failure}
use wootpilot.Catalog.StoreApi.{traverse, is_empty}
use wootpilot.Catalog.MockProducts.{
  MockCatalog, matches_structured_filters, search_text, searchable, snapshot, taxonomy_items, text,
}

-- text.split(), with whether the text starts inside a word
unfoldable pub words : Text → Bool × List Text
unfolding is_space
words [] = (false, [])
words (c ∷ text) = grow (words text)
  where
    grow : Bool × List Text → Bool × List Text
    grow (true, w ∷ ws) = if is_space c then (false, w ∷ ws) else (true, (c ∷ w) ∷ ws)
    grow (_, ws) = if is_space c then (false, ws) else (true, (c ∷ []) ∷ ws)

-- text.replace("-", " ")
abbrev pub dashes_to_spaces : Text → Text
dashes_to_spaces text = map (λ c. if c == b'-' then b' ' else c) text

-- A product with its score; a higher score comes first, then the smaller name.
pub record Scored : Type 0 where
  pub score : ℕ
  pub name : Text
  pub product : Fields

abbrev pub comes_before : Scored → Scored → Bool
comes_before a b = ltb b.score a.score || a.score == b.score && str_gt b.name a.name

unfoldable pub insert_scored : Scored → List Scored → List Scored
unfolding str_gt
insert_scored s [] = s ∷ []
insert_scored s (t ∷ ts) =
    let rest = insert_scored s ts in if comes_before t s then t ∷ rest else s ∷ t ∷ ts

unfoldable pub sort_scored : List Scored → List Scored
unfolding insert_scored
sort_scored [] = []
sort_scored (s ∷ ss) = insert_scored s (sort_scored ss)

module _ (catalog : MockCatalog) where
  abbrev pub terms_of : (query : Text) → List Text
  terms_of query = (words (dashes_to_spaces (searchable catalog query))).1

  -- sum(1 for term in normalized_terms if term in haystack)
  unfoldable pub score_of : (terms : List Text) (haystack : Text) → ℕ
  unfolding filter contains
  score_of terms haystack = length (filter (contains haystack) terms)

  abbrev pub kept : (terms : List Text) → Fields → (haystack : Text) → List Scored
  kept terms product haystack =
      let score = score_of terms haystack in
      let scored : Scored = record {
        score = score;
        name = text catalog (get_or product (codes "name") (str []));
        product = product;
      } in
      if not (score == 0) || is_empty terms then scored ∷ [] else []

  abbrev pub kept_if : Bool → (terms : List Text) → Fields → Result (List Scored)
  kept_if false terms product = ok []
  kept_if true terms product =
      search_text catalog product >>= λ found. ok (kept terms product found)

  unfoldable pub scored_products : ProductSearchQuery → List Fields → Result (List Scored)
  scored_products query [] = ok []
  scored_products query (product ∷ products) =
      matches_structured_filters catalog product query >>= λ matches.
      kept_if matches (terms_of query.query) product >>= λ first.
      scored_products query products >>= λ rest. ok (first ++ rest)

  -- _search_products
  unfoldable pub found_products : ProductSearchQuery → Result (List ProductSnapshot)
  found_products query = scored_products query catalog.products >>= λ scored.
      traverse (snapshot catalog) (map (λ (s : Scored). s.product) (sort_scored scored))

  unfoldable pub mock_search_products : ProductSearchQuery → Result (List ProductSnapshot)
  mock_search_products query = found_products query >>= λ found. ok (take query.limit found)

  -- search_sync. ProductSearchQuery refuses a limit outside 1 to 50.
  unfoldable pub mock_search : (query : Text) (limit : ℕ) → Result CatalogContext
  mock_search query limit =
      if ltb 0 limit && ltb limit 51
      then (found_products (record {
        query = query;
        limit = limit;
        categories = [];
        tags = [];
        fitment_hints = [];
      })
          >>= λ products. ok (record {
            query = query;
            products = products;
            risk_signals =
                if is_empty products && truthy (strip query)
                then risk_value RiskSignal.catalog_no_match ∷ []
                else [];
            snapshot_id = none;
          }))
      else err Failure.value_error

  abbrev pub snapshot_if_any : Option Fields → Result (Option ProductSnapshot)
  snapshot_if_any none = ok none
  snapshot_if_any (some product) = snapshot catalog product >>= λ s. ok (some s)

  unfoldable pub mock_get_product : (external_product_id : Text) → Result (Option ProductSnapshot)
  mock_get_product external_product_id = snapshot_if_any (
      find? (λ product. str_eq (text catalog (get product (codes "id"))) external_product_id)
        catalog.products)

  unfoldable pub mock_get_product_by_sku : (sku : Text) → Result (Option ProductSnapshot)
  mock_get_product_by_sku sku =
      let casefold = catalog.library.unicode.casefold in
      snapshot_if_any (
        find?
          (λ product.
            str_eq (casefold (text catalog (get product (codes "sku") or str []))) (casefold sku))
          catalog.products)

  -- str(item.get(key)) if item.get(key) else None
  abbrev pub text_if_any : Json → Option Text
  text_if_any value = if is_truthy value then some (text catalog value) else none

  unfoldable pub mock_category : (category : Fields) → ProductCategory
  mock_category category =
      let category_id =
        text catalog (
          get category (codes "id")
          or get category (codes "slug")
          or get category (codes "name")) in
      record {
        category_id = category_id;
        name =
            text catalog
              (get category (codes "name") or get category (codes "slug") or str category_id);
        slug = text_if_any (get category (codes "slug"));
        parent_id = text_if_any (get category (codes "parent"));
      }

  -- categories[category.category_id] = category, which keeps the place of a key
  unfoldable pub put_category : ProductCategory → List ProductCategory → List ProductCategory
  put_category c [] = c ∷ []
  put_category c (d ∷ ds) =
      let rest = put_category c ds in
      if str_eq c.category_id d.category_id then c ∷ ds else d ∷ rest

  unfoldable pub insert_category : ProductCategory → List ProductCategory → List ProductCategory
  insert_category c [] = c ∷ []
  insert_category c (d ∷ ds) =
      let rest = insert_category c ds in
      let casefold = catalog.library.unicode.casefold in
      if str_gt (casefold c.name) (casefold d.name) then d ∷ rest else c ∷ d ∷ ds

  unfoldable pub sort_categories : List ProductCategory → List ProductCategory
  sort_categories [] = []
  sort_categories (c ∷ cs) = insert_category c (sort_categories cs)

  abbrev pub put_categories : List Fields → List ProductCategory → List ProductCategory
  put_categories [] categories = categories
  put_categories (item ∷ items) categories =
      put_categories items (put_category (mock_category item) categories)

  unfoldable pub categories_of : List Fields → List ProductCategory → Result (List ProductCategory)
  categories_of [] categories = ok categories
  categories_of (product ∷ products) categories =
      taxonomy_items catalog product (codes "categories") >>= λ items.
      categories_of products (put_categories items categories)

  unfoldable pub mock_list_categories : Result (List ProductCategory)
  mock_list_categories = categories_of catalog.products [] >>= λ found. ok (sort_categories found)
