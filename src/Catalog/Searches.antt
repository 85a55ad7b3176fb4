-- ===== src/Catalog/Searches.antt =====
-- catalog/store_api.py, application/workflow.py and policy.py: what a search of the Store API gives
-- the agent, and the prices that a reply may then tell.
use Prim.Native.Nat.{ℕ}
use mathlib.Core.Path.{◌≡◌, refl, sym, subst, ◌∙◌, ap}
use mathlib.Core.Logic.{inl, inr}
use mathlib.Core.Bool.{true, false}
use mathlib.Core.Option.{none}
use mathlib.Core.List.{List, [], ◌∷◌}
use native.Mathlib.Omega.{arith}
use wootpilot.Prelude.Tests.{Bool-cases}
use wootpilot.Prelude.Lists.{◌∈◌}
use wootpilot.Prelude.Text.{Text, codes, contains}
use wootpilot.Prelude.Json.{
  Json, null, bool, int, float, str, Items, arr, obj, items, Fields, int_text,
}
use wootpilot.Http.{Body, json, Reply, response, failed, broken}
use wootpilot.Domain.Catalog.{CatalogContext, ProductSnapshot}
use wootpilot.Domain.Outbound.{Result, ok, err, ◌>>=◌, bind_ok, ok_injective}
use wootpilot.Support.Recording.{SearchAnswer}
use wootpilot.Catalog.Products.{store_api_product_to_snapshot}
use wootpilot.Catalog.StoreApi.{
  StoreApi, Fetched, fetched, http_status, unavailable, escaped, Read, done, raised,
  catalog_context_error, failure, answer_of, collection_of, controlled, decoded, dicts,
  get_collection, get_products, products_url, received, search, search_answer, search_context,
  snapshots_of, traverse, uncontrolled, ◌>=>◌,
}
use wootpilot.Catalog.Prices.{
  IsPriced, price_text, snapshot-text, store_api_product-mentionable_iff,
}
use wootpilot.Policy.Searchable.{Unicode, mentions_exact_price, normalize_price_text}
use wootpilot.Policy.Rules.{or_empty, public_price_policy_rule}
use wootpilot.Policy.PublicText.{public_price_policy_rule-none_iff}

module _ {A B : Type 0} where
  pub traverse-mem :
      (f : A → Result B) (xs : List A) (ys : List B) (y : B)
      → traverse f xs ≡ ok ys
      → y ∈ ys
      → (x : A) × (x ∈ xs) × (f x ≡ ok y)
  unfolding traverse
  traverse-mem f [] ys y h m = absurd (subst (λ (l : List B). y ∈ l) (sym (ok_injective [] ys h)) m)
  traverse-mem f (x ∷ xs) ys y h m =
      let (b, first, h1) = bind_ok (f x) (λ b. traverse f xs >>= λ bs. ok (b ∷ bs)) ys h in
      let (bs, rest, h2) = bind_ok (traverse f xs) (λ bs. ok (b ∷ bs)) ys h1 in
      elim (subst (λ (l : List B). y ∈ l) (sym (ok_injective (b ∷ bs) ys h2)) m) [
        | inl same ↦ (x, inl refl, first ∙ ap ok (sym same))
        | inr later ↦
            let (x', among, read) = traverse-mem f xs bs y rest later in (x', inr among, read)
      ]

pub dicts-mem :
    (product : Fields) (values : List Json) → product ∈ dicts values → obj product ∈ values
dicts-mem product [] m = absurd m
dicts-mem product (obj fields ∷ values) (inl same) = inl (ap obj same)
dicts-mem product (obj fields ∷ values) (inr m) = inr (dicts-mem product values m)
dicts-mem product (null ∷ values) m = inr (dicts-mem product values m)
dicts-mem product (bool b ∷ values) m = inr (dicts-mem product values m)
dicts-mem product (int b n ∷ values) m = inr (dicts-mem product values m)
dicts-mem product (float b t ∷ values) m = inr (dicts-mem product values m)
dicts-mem product (str t ∷ values) m = inr (dicts-mem product values m)
dicts-mem product (arr vs ∷ values) m = inr (dicts-mem product values m)

-- The response of a successful request that is a list with this dict in it.
pub record Listed (catalog : StoreApi) (reply : Reply) (product : Fields) : Type 0 where
  pub status : ℕ
  pub values : Items
  pub answered : reply ≡ response status (json (arr values))
  pub succeeded : catalog.is_success status ≡ true
  pub among : obj product ∈ items values

-- A request whose answer is no list of a successful response.
abbrev pub IsFailed : StoreApi → Reply → Type 0
IsFailed catalog (response status (json (arr values))) = catalog.is_success status ≡ false
IsFailed catalog (response status body) = Unit
IsFailed catalog (failed class_name) = Unit
IsFailed catalog (broken class_name) = ⊥

module _ (catalog : StoreApi) where
  body-Listed :
      (status : ℕ) (body : Body) (products : List Fields) (product : Fields)
      → catalog.is_success status ≡ true
      → collection_of (decoded body) ≡ fetched products
      → product ∈ products
      → Listed catalog (response status body) product
  body-Listed status (json (arr values)) products product fine h m = record {
    status = status;
    values = values;
    answered = refl;
    succeeded = fine;
    among =
        dicts-mem product (items values)
          (subst (λ (l : List Fields). product ∈ l) (ground arith) m);
  }
  body-Listed status body products product fine h m = absurd (ground arith)

  reply-Listed :
      (reply : Reply) (products : List Fields) (product : Fields)
      → collection_of (received catalog reply) ≡ fetched products
      → product ∈ products
      → Listed catalog reply product
  reply-Listed (failed name) products product h m = absurd (ground arith)
  reply-Listed (broken name) products product h m = absurd (ground arith)
  reply-Listed (response status body) products product h m =
      elim (Bool-cases (catalog.is_success status)) [
        | inl fine ↦ body-Listed status body products product fine (rw fine at h) m
        | inr refused ↦ absurd (ground arith)
      ]

pub bind_done :
    {A B : Type 0} (r : Read A) (f : A → Read B) (b : B)
    → (r >=> f) ≡ done b
    → (a : A) × (r ≡ done a) × (f a ≡ done b)
bind_done (done a) f b h = (a, refl, h)
bind_done (raised e) f b h = absurd (ground arith)

pub done_injective : {A : Type 0} (a b : A) → done a ≡ done b → a ≡ b
done_injective a b h = cc

controlled-done : {A : Type 0} (r : Fetched A) (a : A) → controlled r ≡ done a → r ≡ fetched a
controlled-done (fetched x) a h = ground arith
controlled-done (http_status n) a h = absurd (ground arith)
controlled-done unavailable a h = absurd (ground arith)
controlled-done (escaped name) a h = absurd (ground arith)

uncontrolled-done : {A : Type 0} (r : Result A) (a : A) → uncontrolled r ≡ done a → r ≡ ok a
uncontrolled-done (ok x) a h = ground arith
uncontrolled-done (err e) a h = absurd (ground arith)

module _ (catalog : StoreApi) where
  -- The answer to the request for the products of a text.
  abbrev pub products_reply : (query : Text) (limit : ℕ) (extra : List (Text × Text)) → Reply
  products_reply query limit extra =
      catalog.transport (products_url catalog)
        ((codes "search", query) ∷ (codes "per_page", int_text false limit) ∷ extra)

  -- Each snapshot is read from a product of the response.
  abbrev pub IsReadFrom : Reply → ProductSnapshot → Type 0
  IsReadFrom reply s =
      (product : Fields) × Listed catalog reply product
      × (store_api_product_to_snapshot catalog.library product ≡ ok s)

  pub snapshots-read :
      (query : Text) (limit : ℕ) (extra : List (Text × Text)) (products : List Fields)
      (snapshots : List ProductSnapshot) (s : ProductSnapshot)
      → controlled (get_products catalog query limit extra) ≡ done products
      → snapshots_of catalog products ≡ done snapshots
      → s ∈ snapshots
      → IsReadFrom (products_reply query limit extra) s
  unfolding get_products get_collection
  snapshots-read query limit extra products snapshots s got mapped m =
      let (product, among, read) =
        traverse-mem (store_api_product_to_snapshot catalog.library) products snapshots s
          (uncontrolled-done _ snapshots mapped) m in
      let reply = products_reply query limit extra in
      (
        product,
        reply-Listed catalog reply products product
            (controlled-done (collection_of (received catalog reply)) products got) among,
        read,
      )

  search-read :
      (query : Text) (limit : ℕ) (context : CatalogContext) (s : ProductSnapshot)
      → search catalog query limit ≡ done context
      → s ∈ context.products
      → IsReadFrom (products_reply query limit []) s
  unfolding search search_context
  search-read query limit context s h m =
      let (products, got, h1) =
        bind_done (controlled (get_products catalog query limit []))
          (λ products. snapshots_of catalog products >=> λ snapshots.
            done (search_context catalog query snapshots))
          context h in
      let (snapshots, mapped, h2) =
        bind_done (snapshots_of catalog products)
          (λ snapshots. done (search_context catalog query snapshots)) context h1 in
      let same : context.products ≡ snapshots = ground arith in
      snapshots-read query limit [] products snapshots s got mapped
        (subst (λ (l : List ProductSnapshot). s ∈ l) same m)

  answer-found :
      (r : Read CatalogContext) (context : CatalogContext)
      → answer_of catalog r ≡ SearchAnswer.found context
      → r ≡ done context
  answer-found (done c) context h = ground arith
  answer-found (raised catalog_context_error) context h = absurd (ground arith)
  answer-found (raised (failure e)) context h = absurd (ground arith)

-- A reply that tells an exact price and passes the price policy, against what the service found in
-- the Store API, contains the price text of a product of that very answer, which has a price other
-- than 0, can be bought and is in stock.
pub search_answer-IsPriced :
    (catalog : StoreApi) (u : Unicode) (content text : Text) (context : CatalogContext)
    → search_answer catalog content ≡ SearchAnswer.found context
    → public_price_policy_rule u text context ≡ none
    → mentions_exact_price u text ≡ true
    → (product : Fields) × Listed catalog (products_reply catalog content 5 []) product
      × IsPriced catalog.library product
      × (contains
            (normalize_price_text u text)
            (normalize_price_text u (or_empty (price_text catalog.library product)))
          ≡ true)
unfolding search_answer
search_answer-IsPriced catalog u content text context h passes speaks =
    elim ((public_price_policy_rule-none_iff u text context).0 passes) [
      | inl silent ↦ absurd (ground arith)
      | inr q ↦
          let (product, listed, read) =
            search-read catalog content 5 context q.product
              (answer-found catalog (search catalog content 5) context h) q.listed in
          (
            product,
            listed,
            (store_api_product-mentionable_iff catalog.library product q.product read).0
                q.mentionable,
            subst
                (λ (t : Text).
                  contains (normalize_price_text u text) (normalize_price_text u t) ≡ true)
                (ap or_empty (snapshot-text catalog.library product q.product read)) q.quoted,
          )
    ]
