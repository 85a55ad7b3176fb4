-- ===== src/Catalog/StoreApi.antt =====
-- src/wootpilot/catalog/store_api.py: StoreApiCatalog. The transport answers each request; logging is
-- left out.
use Prim.Native.Nat.{ℕ}
use mathlib.Core.Bool.{Bool, true, false, ◌&&◌}
use mathlib.Core.Option.{Option, none, some}
use mathlib.Core.List.{List, [], ◌∷◌, ◌++◌}
use wootpilot.Prelude.Tests.{◌==◌, if◌then◌else◌}
use wootpilot.Prelude.Lists.{filter, find?, take}
use wootpilot.Prelude.Text.{Text, codes, truthy, str_eq, strip, join}
use wootpilot.Prelude.Json.{Json, str, arr, obj, items, Fields, get, ◌or◌, int_text}
use wootpilot.Http.{Body, json, undecodable, Reply, response, failed, broken}
use wootpilot.Domain.Catalog.{
  CatalogContext, ProductCategory, ProductSearchQuery, ProductSnapshot, RiskSignal, risk_value,
}
use wootpilot.Domain.Outbound.{Result, ok, err, ◌>>=◌, Failure}
use wootpilot.Support.Recording.{SearchAnswer}
use wootpilot.Catalog.Values.{Library, text_of, snapshot_matches_structured_filters}
use wootpilot.Catalog.Products.{store_api_product_to_snapshot, store_api_category_to_snapshot}

-- What a request gives: a value, HTTPStatusError with its status, another HTTPError or a ValueError,
-- which the adapter controls, or an error that it does not.
pub data Fetched (A : Type 0) : Type 0 where
  fetched : A → Fetched A
  http_status : ℕ → Fetched A
  unavailable : Fetched A
  escaped : (class_name : Text) → Fetched A

pub data Raised : Type 0 where
  catalog_context_error : Raised
  failure : Failure → Raised

pub data Read (A : Type 0) : Type 0 where
  done : A → Read A
  raised : Raised → Read A

infixl 5 ◌>=>◌
abbrev pub ◌>=>◌ : {A B : Type 0} → Read A → (A → Read B) → Read B
done a >=> f = f a
raised e >=> f = raised e

-- What a mapping outside the `try` raises goes on as it is.
abbrev pub uncontrolled : {A : Type 0} → Result A → Read A
uncontrolled (ok a) = done a
uncontrolled (err e) = raised (failure e)

pub record StoreApi : Type 0 where
  pub base_url : Text  -- without trailing slashes
  pub transport : (url : Text) → (params : List (Text × Text)) → Reply
  pub is_success : ℕ → Bool  -- raise_for_status returns
  pub library : Library

abbrev pub decoded : Body → Fetched Json
decoded (json value) = fetched value
decoded (undecodable class_name) = unavailable

-- [item for item in data if isinstance(item, dict)]
abbrev pub dicts : List Json → List Fields
dicts [] = []
dicts (obj fields ∷ values) = fields ∷ dicts values
dicts (_ ∷ values) = dicts values

-- A value of another shape raises ValueError.
abbrev pub collection_of : Fetched Json → Fetched (List Fields)
collection_of (fetched (arr values)) = fetched (dicts (items values))
collection_of (fetched _) = unavailable
collection_of (http_status status) = http_status status
collection_of unavailable = unavailable
collection_of (escaped class_name) = escaped class_name

abbrev pub object_of : Fetched Json → Fetched Fields
object_of (fetched (obj fields)) = fetched fields
object_of (fetched _) = unavailable
object_of (http_status status) = http_status status
object_of unavailable = unavailable
object_of (escaped class_name) = escaped class_name

-- except (httpx.HTTPError, ValueError): raise CatalogContextError()
abbrev pub controlled : {A : Type 0} → Fetched A → Read A
controlled (fetched a) = done a
controlled (http_status status) = raised catalog_context_error
controlled unavailable = raised catalog_context_error
controlled (escaped class_name) = raised (failure (Failure.unexpected class_name))

-- _get_product: a 404 is no product.
abbrev pub product_or_none : Fetched Fields → Read (Option Fields)
product_or_none (fetched product) = done (some product)
product_or_none (http_status status) =
    if status == 404 then done none else raised catalog_context_error
product_or_none unavailable = raised catalog_context_error
product_or_none (escaped class_name) = raised (failure (Failure.unexpected class_name))

-- `if query.categories: params[...] = ",".join(query.categories)`
unfoldable pub list_param : (key : Text) → List Text → List (Text × Text)
unfolding join
list_param key [] = []
list_param key (value ∷ values) = (key, join (codes ",") (value ∷ values)) ∷ []

unfoldable pub store_api_filter_params : ProductSearchQuery → List (Text × Text)
unfolding list_param
store_api_filter_params query =
    list_param (codes "category") query.categories ++ list_param (codes "tag") query.tags

abbrev pub cons : {B : Type 0} → Result B → Result (List B) → Result (List B)
cons first rest = first >>= λ b. rest >>= λ bs. ok (b ∷ bs)

module _ {A B : Type 0} where
  -- [f(item) for item in items], where f may raise
  unfoldable pub traverse : (A → Result B) → List A → Result (List B)
  traverse f [] = ok []
  traverse f (a ∷ rest) = cons (f a) (traverse f rest)

abbrev pub is_empty : {A : Type 0} → List A → Bool
is_empty [] = true
is_empty (_ ∷ _) = false

module _ (catalog : StoreApi) where
  abbrev pub received : Reply → Fetched Json
  received (response status body) =
      if catalog.is_success status then decoded body else http_status status
  received (failed class_name) = unavailable
  received (broken class_name) = escaped class_name

  abbrev pub products_url : Text
  products_url = catalog.base_url ++ codes "/wp-json/wc/store/v1/products"

  unfoldable pub get_collection : (url : Text) (params : List (Text × Text)) → Fetched (List Fields)
  get_collection url params = collection_of (received (catalog.transport url params))

  unfoldable pub get_object : (url : Text) (params : List (Text × Text)) → Fetched Fields
  get_object url params = object_of (received (catalog.transport url params))

  -- _get_products
  unfoldable pub get_products :
      (query : Text) (limit : ℕ) (extra : List (Text × Text)) → Fetched (List Fields)
  unfolding int_text
  get_products query limit extra =
      get_collection products_url
        ((codes "search", query) ∷ (codes "per_page", int_text false limit) ∷ extra)

  abbrev pub snapshots_of : List Fields → Read (List ProductSnapshot)
  snapshots_of products =
      uncontrolled (traverse (store_api_product_to_snapshot catalog.library) products)

  -- The risk of an empty answer to a query that is not blank.
  unfoldable pub search_context : (query : Text) → List ProductSnapshot → CatalogContext
  unfolding strip
  search_context query snapshots = record {
    query = query;
    products = snapshots;
    risk_signals =
        if truthy (strip query) && is_empty snapshots
        then risk_value RiskSignal.catalog_no_match ∷ []
        else [];
    snapshot_id = none;
  }

  unfoldable pub search : (query : Text) (limit : ℕ) → Read CatalogContext
  search query limit = controlled (get_products query limit []) >=> λ products.
      snapshots_of products >=> λ snapshots. done (search_context query snapshots)

  unfoldable pub search_products : ProductSearchQuery → Read (List ProductSnapshot)
  search_products query =
      controlled (get_products query.query query.limit (store_api_filter_params query))
      >=> λ products. snapshots_of products >=> λ snapshots. done (
          take query.limit
            (filter (λ s. snapshot_matches_structured_filters catalog.library s query) snapshots))

  abbrev pub snapshot_or_none : Option Fields → Read (Option ProductSnapshot)
  snapshot_or_none none = done none
  snapshot_or_none (some product) =
      uncontrolled (store_api_product_to_snapshot catalog.library product) >=> λ snapshot.
      done (some snapshot)

  unfoldable pub get_product : (external_product_id : Text) → Read (Option ProductSnapshot)
  get_product external_product_id =
      product_or_none (get_object (products_url ++ (codes "/" ++ external_product_id)) [])
      >=> snapshot_or_none

  abbrev pub has_sku : (sku : Text) → Fields → Bool
  has_sku sku product =
      let unicode = catalog.library.unicode in
      str_eq (unicode.casefold (text_of catalog.library (get product (codes "sku") or str [])))
        (unicode.casefold sku)

  unfoldable pub get_product_by_sku : (sku : Text) → Read (Option ProductSnapshot)
  get_product_by_sku sku = controlled (get_products [] 10 ((codes "sku", sku) ∷ [])) >=> λ products.
      snapshot_or_none (find? (has_sku sku) products)

  unfoldable pub list_categories : Read (List ProductCategory)
  list_categories =
      controlled (get_collection (products_url ++ codes "/categories") []) >=> λ categories.
      uncontrolled (traverse (store_api_category_to_snapshot catalog.library) categories)

  abbrev pub answer_of : Read CatalogContext → SearchAnswer
  answer_of (done context) = SearchAnswer.found context
  answer_of (raised catalog_context_error) = SearchAnswer.catalog_context_error
  answer_of (raised (failure e)) = SearchAnswer.raised e

  -- catalog.search(message.content), as the service of application/workflow.py calls it
  unfoldable pub search_answer : (content : Text) → SearchAnswer
  unfolding search
  search_answer content = answer_of (search content 5)
