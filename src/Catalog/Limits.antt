-- ===== src/Catalog/Limits.antt =====
-- catalog/store_api.py: when a search fails, and what a structured search returns.
use Prim.Native.Nat.{ℕ, ◌≤◌}
use mathlib.Core.Path.{◌≡◌, refl, sym, subst}
use mathlib.Core.Logic.{◌≢◌, ◌⊎◌, ◌↔◌, inl, inr}
use mathlib.Core.Bool.{true, false}
use mathlib.Core.List.{List, [], ◌∷◌}
use native.Mathlib.Omega.{arith}
use wootpilot.Prelude.Tests.{Bool-cases}
use wootpilot.Prelude.Lists.{
  ◌∈◌, filter, take, length, length-take, mem_of_mem-filter, mem_of_mem-take,
}
use wootpilot.Prelude.Text.{Text}
use wootpilot.Prelude.Json.{null, bool, int, float, str, Items, arr, obj, items, Fields}
use wootpilot.Http.{Body, json, undecodable, Reply, response, failed, broken}
use wootpilot.Domain.Catalog.{CatalogContext, ProductSearchQuery, ProductSnapshot}
use wootpilot.Domain.Outbound.{Result, ok, err}
use wootpilot.Support.Recording.{SearchAnswer}
use wootpilot.Catalog.Values.{snapshot_matches_structured_filters}
use wootpilot.Catalog.StoreApi.{
  StoreApi, dicts, traverse, done, answer_of, collection_of, controlled, decoded, get_collection,
  get_products, received, search, search_answer, search_context, search_products, snapshots_of,
  store_api_filter_params, uncontrolled, ◌>=>◌,
}
use wootpilot.Catalog.Products.{store_api_product_to_snapshot}
use wootpilot.Catalog.Searches.{
  Listed, dicts-mem, IsFailed, IsReadFrom, bind_done, done_injective, products_reply,
  snapshots-read,
}

module _ (catalog : StoreApi) where
  -- An answer that a mapping gives is no controlled failure.
  mapped-answer :
      {A : Type 0} (r : Result A) (f : A → CatalogContext)
      → answer_of catalog (uncontrolled r >=> λ a. done (f a)) ≡ SearchAnswer.catalog_context_error
      → ⊥
  mapped-answer (ok a) f h = ground arith
  mapped-answer (err e) f h = ground arith

  body-IsFailed :
      (content : Text) (status : ℕ) (body : Body)
      → catalog.is_success status ≡ true
      → (answer_of catalog (
            controlled (collection_of (decoded body)) >=> λ products.
            snapshots_of catalog products >=> λ snapshots.
            done (search_context catalog content snapshots))
          ≡ SearchAnswer.catalog_context_error)
        ↔ IsFailed catalog (response status body)
  body-IsFailed content status (undecodable name) fine = (λ _. tt, λ _. refl)
  body-IsFailed content status (json (arr values)) fine =
      (λ h. absurd (mapped-answer _ (search_context catalog content) h), λ h. absurd (ground arith))
  body-IsFailed content status (json null) fine = (λ _. tt, λ _. refl)
  body-IsFailed content status (json (bool b)) fine = (λ _. tt, λ _. refl)
  body-IsFailed content status (json (int b n)) fine = (λ _. tt, λ _. refl)
  body-IsFailed content status (json (float b t)) fine = (λ _. tt, λ _. refl)
  body-IsFailed content status (json (str t)) fine = (λ _. tt, λ _. refl)
  body-IsFailed content status (json (obj fields)) fine = (λ _. tt, λ _. refl)

  refused-IsFailed :
      (status : ℕ) (body : Body)
      → catalog.is_success status ≡ false
      → IsFailed catalog (response status body)
  refused-IsFailed status (undecodable name) refused = tt
  refused-IsFailed status (json (arr values)) refused = refused
  refused-IsFailed status (json null) refused = tt
  refused-IsFailed status (json (bool b)) refused = tt
  refused-IsFailed status (json (int b n)) refused = tt
  refused-IsFailed status (json (float b t)) refused = tt
  refused-IsFailed status (json (str t)) refused = tt
  refused-IsFailed status (json (obj fields)) refused = tt

  reply-IsFailed :
      (content : Text) (reply : Reply)
      → (answer_of catalog (
            controlled (collection_of (received catalog reply)) >=> λ products.
            snapshots_of catalog products >=> λ snapshots.
            done (search_context catalog content snapshots))
          ≡ SearchAnswer.catalog_context_error)
        ↔ IsFailed catalog reply
  reply-IsFailed content (failed name) = (λ _. tt, λ _. refl)
  reply-IsFailed content (broken name) = (λ h. ground arith, λ h. absurd h)
  reply-IsFailed content (response status body) = elim (Bool-cases (catalog.is_success status)) [
    | inl fine ↦ rw fine (body-IsFailed content status body fine)
    | inr refused ↦ rw refused (λ _. refused-IsFailed status body refused, λ _. refl)
  ]

traverse_ok :
    {A B : Type 0} (f : A → Result B) (xs : List A)
    → ((x : A) → x ∈ xs → (y : B) × (f x ≡ ok y))
    → (ys : List B) × (traverse f xs ≡ ok ys)
unfolding traverse
traverse_ok f [] each = ([], refl)
traverse_ok f (x ∷ xs) each =
    let (y, first) = each x (inl refl) in
    let (ys, rest) = traverse_ok f xs (λ z m. each z (inr m)) in (y ∷ ys, rw (first, rest) refl)

-- Every product that the response lists can be mapped to a snapshot.
abbrev pub AllReadable : StoreApi → Reply → Type 0
AllReadable catalog reply =
    (product : Fields)
    → Listed catalog reply product
    → (s : ProductSnapshot) × (store_api_product_to_snapshot catalog.library product ≡ ok s)

module _ (catalog : StoreApi) (content : Text) where
  -- The rest of a search, from the answer of the store.
  abbrev answer_to : Reply → SearchAnswer
  answer_to reply = answer_of catalog (
      controlled (collection_of (received catalog reply)) >=> λ products.
      snapshots_of catalog products >=> λ snapshots.
      done (search_context catalog content snapshots))

  abbrev Answers : Reply → Type 0
  Answers reply =
      IsFailed catalog reply
      ⊎ ((context : CatalogContext) × (answer_to reply ≡ SearchAnswer.found context))

  listed-Answers :
      (status : ℕ) (values : Items)
      → catalog.is_success status ≡ true
      → AllReadable catalog (response status (json (arr values)))
      → Answers (response status (json (arr values)))
  listed-Answers status values fine readable =
      let (snapshots, mapped) =
        traverse_ok (store_api_product_to_snapshot catalog.library) (dicts (items values))
          (λ product m. readable product (record {
            status = status;
            values = values;
            answered = refl;
            succeeded = fine;
            among = dicts-mem product (items values) m;
          })) in
      inr (search_context catalog content snapshots, rw (fine, mapped) refl)

  body-Answers :
      (status : ℕ) (body : Body)
      → catalog.is_success status ≡ true
      → AllReadable catalog (response status body)
      → Answers (response status body)
  body-Answers status (undecodable name) fine readable = inl tt
  body-Answers status (json (arr values)) fine readable = listed-Answers status values fine readable
  body-Answers status (json null) fine readable = inl tt
  body-Answers status (json (bool b)) fine readable = inl tt
  body-Answers status (json (int b n)) fine readable = inl tt
  body-Answers status (json (float b t)) fine readable = inl tt
  body-Answers status (json (str t)) fine readable = inl tt
  body-Answers status (json (obj fields)) fine readable = inl tt

  reply-Answers :
      (reply : Reply)
      → ((name : Text) → reply ≢ broken name)
      → AllReadable catalog reply
      → Answers reply
  reply-Answers (failed name) sound readable = inl tt
  reply-Answers (broken name) sound readable = absurd (sound name refl)
  reply-Answers (response status body) sound readable =
      elim (Bool-cases (catalog.is_success status)) [
        | inl fine ↦ body-Answers status body fine readable
        | inr refused ↦ inl (refused-IsFailed catalog status body refused)
      ]

-- Where the request raises nothing but HTTP errors and ValueErrors, and every product of a listing
-- can be mapped, the connector reports its controlled failure, with which the service goes on without
-- products, exactly when the store cannot be reached, refuses the request, or answers no JSON list;
-- in every other case it answers a context.
pub search_answer-IsFailed_iff :
    (catalog : StoreApi) (content : Text)
    → ((name : Text) → products_reply catalog content 5 [] ≢ broken name)
    → AllReadable catalog (products_reply catalog content 5 [])
    → ((search_answer catalog content ≡ SearchAnswer.catalog_context_error)
        ↔ IsFailed catalog (products_reply catalog content 5 []))
      × (IsFailed catalog (products_reply catalog content 5 [])
          ⊎ ((context : CatalogContext) × (search_answer catalog content
                ≡ SearchAnswer.found context)))
unfolding search_answer search get_products get_collection
search_answer-IsFailed_iff catalog content sound readable =
    let reply = products_reply catalog content 5 [] in
    (reply-IsFailed catalog content reply, reply-Answers catalog content reply sound readable)

-- A structured search returns at most as many products as asked for, each read from the store's
-- answer to that very search and each with the categories, tags and fitment hints asked for.
pub search_products-matching :
    (catalog : StoreApi) (query : ProductSearchQuery) (found : List ProductSnapshot)
    → search_products catalog query ≡ done found
    → (length found ≤ query.limit)
      × ((s : ProductSnapshot)
          → s ∈ found
          → IsReadFrom catalog
              (products_reply catalog query.query query.limit (store_api_filter_params query))
              s
            × (snapshot_matches_structured_filters catalog.library s query ≡ true))
unfolding search_products
search_products-matching catalog query found h =
    let matches =
      λ (s : ProductSnapshot). snapshot_matches_structured_filters catalog.library s query in
    let extra = store_api_filter_params query in
    let (products, got, h1) =
      bind_done (controlled (get_products catalog query.query query.limit extra))
        (λ products. snapshots_of catalog products >=> λ snapshots.
          done (take query.limit (filter matches snapshots)))
        found h in
    let (snapshots, mapped, h2) =
      bind_done (snapshots_of catalog products)
        (λ snapshots. done (take query.limit (filter matches snapshots))) found h1 in
    let same : take query.limit (filter matches snapshots) ≡ found = done_injective _ found h2 in
    (
      subst (λ (l : List ProductSnapshot). length l ≤ query.limit) same
          (length-take query.limit (filter matches snapshots)),
      λ s m.
          let (listed, matching) = mem_of_mem-filter matches s snapshots (
            mem_of_mem-take query.limit s (filter matches snapshots)
              (subst (λ (l : List ProductSnapshot). s ∈ l) (sym same) m)) in
          (
            snapshots-read catalog query.query query.limit extra products snapshots s got mapped
                listed,
            matching,
          ),
    )
