-- ===== src/Catalog/MockSearches.antt =====
-- catalog/mock.py: what a structured search of the fixture returns.
use Prim.Native.Nat.{◌≤◌}
use mathlib.Core.Path.{◌≡◌, refl, sym, subst, ◌∙◌, ap}
use mathlib.Core.Logic.{◌⊎◌, inl, inr}
use mathlib.Core.Bool.{Bool, true, false, ◌||◌, not}
use mathlib.Core.List.{List, [], ◌∷◌, ◌++◌, map}
use native.Mathlib.Omega.{arith}
use wootpilot.Prelude.Tests.{◌==◌, if◌then◌else◌}
use wootpilot.Prelude.Lists.{
  ◌∈◌, filter, take, length, mem-append_cases, mem-map_cases, mem_of_mem-filter,
}
use wootpilot.Prelude.Text.{Text, codes, contains}
use wootpilot.Prelude.Json.{Fields, get_or, str}
use wootpilot.Domain.Catalog.{ProductSearchQuery, ProductSnapshot}
use wootpilot.Domain.Outbound.{ok, ◌>>=◌, bind_ok, ok_injective}
use wootpilot.Catalog.Values.{text_of}
use wootpilot.Catalog.StoreApi.{is_empty, traverse}
use wootpilot.Catalog.Searches.{traverse-mem}
use wootpilot.Prelude.Lists.{length-take, mem_of_mem-take}
use wootpilot.Catalog.MockProducts.{MockCatalog, matches_structured_filters, search_text, snapshot}
use wootpilot.Catalog.Mock.{
  Scored, found_products, insert_scored, kept, kept_if, mock_search_products, score_of,
  scored_products, sort_scored, terms_of,
}

-- The query has no terms, or one of them stands in the text of the product.
abbrev pub IsHit : MockCatalog → (query : Text) → Fields → Type 0
IsHit catalog query product =
    (terms_of catalog query ≡ [])
    ⊎ ((haystack : Text) × (search_text catalog product ≡ ok haystack)
        × (term : Text) × (term ∈ terms_of catalog query)
        × (contains haystack term ≡ true))

mem-insert_scored : (x s : Scored) (ts : List Scored) → x ∈ insert_scored s ts → x ∈ (s ∷ ts)
unfolding insert_scored
mem-insert_scored x s [] m = m
mem-insert_scored x s (t ∷ ts) m = ground (arith, mem-insert_scored x s ts)

mem-sort_scored : (x : Scored) (ss : List Scored) → x ∈ sort_scored ss → x ∈ ss
unfolding sort_scored
mem-sort_scored x [] m = m
mem-sort_scored x (s ∷ ss) m =
    ground (arith, mem-insert_scored x s (sort_scored ss) m, mem-sort_scored x ss)

mem-if_cases :
    {A : Type 0} (b : Bool) (x y : A) → y ∈ (if b then x ∷ [] else []) → (b ≡ true) × (y ≡ x)
mem-if_cases true x y (inl same) = (refl, same)
mem-if_cases true x y (inr m) = absurd m
mem-if_cases false x y m = absurd m

either : (b c : Bool) → (not b || c) ≡ true → (b ≡ false) ⊎ (c ≡ true)
either true c h = inr h
either false c h = inl refl

is_empty-nil : {A : Type 0} (xs : List A) → is_empty xs ≡ true → xs ≡ []
is_empty-nil [] h = refl
is_empty-nil (x ∷ xs) h = absurd (ground arith)

module _ (catalog : MockCatalog) where
  -- A score is the number of terms found.
  score-member :
      (haystack : Text) (terms : List Text)
      → (score_of catalog terms haystack == 0) ≡ false
      → (term : Text) × (term ∈ terms) × (contains haystack term ≡ true)
  unfolding score_of
  score-member haystack terms h = member (filter (contains haystack) terms) refl
    where
      member :
          (found : List Text)
          → filter (contains haystack) terms ≡ found
          → (term : Text) × (term ∈ terms) × (contains haystack term ≡ true)
      member [] e = absurd (ground (arith, subst (λ (l : List Text). (length l == 0) ≡ false) e h))
      member (t ∷ ts) e =
          let (among, inside) =
            mem_of_mem-filter (contains haystack) t terms
              (subst (λ (l : List Text). t ∈ l) (sym e) (inl refl)) in
          (t, among, inside)

  kept-IsHit :
      (query : Text) (product : Fields) (haystack : Text) (s : Scored)
      → search_text catalog product ≡ ok haystack
      → s ∈ kept catalog (terms_of catalog query) product haystack
      → (s.product ≡ product) × IsHit catalog query product
  kept-IsHit query product haystack s read m =
      let terms = terms_of catalog query in
      let none_found = score_of catalog terms haystack == 0 in
      let (test, same) =
        mem-if_cases (not none_found || is_empty terms)
          (record {
            score = score_of catalog terms haystack;
            name = text_of catalog.library (get_or product (codes "name") (str []));
            product = product;
          })
          s m in
      (
        ap (λ (x : Scored). x.product) same,
        elim (either none_found (is_empty terms) test) [
          | inl some_found ↦
              let (term, among, inside) = score-member haystack terms some_found in
              inr (haystack, read, term, among, inside)
          | inr no_terms ↦ inl (is_empty-nil terms no_terms)
        ],
      )

  -- The product of a result is listed, passes the filters, and is hit by the query.
  abbrev pub IsMatch : ProductSearchQuery → (product : Fields) → Type 0
  IsMatch query product =
      (product ∈ catalog.products)
      × (matches_structured_filters catalog product query ≡ ok true)
      × IsHit catalog query.query product

  kept_if-IsHit :
      (matches : Bool) (query : Text) (product : Fields) (scored : List Scored) (s : Scored)
      → kept_if catalog matches (terms_of catalog query) product ≡ ok scored
      → s ∈ scored
      → (matches ≡ true) × (s.product ≡ product) × IsHit catalog query product
  kept_if-IsHit false query product scored s h m =
      absurd (subst (λ (l : List Scored). s ∈ l) (sym (ok_injective [] scored h)) m)
  kept_if-IsHit true query product scored s h m =
      let terms = terms_of catalog query in
      let (haystack, read, h1) =
        bind_ok (search_text catalog product) (λ found. ok (kept catalog terms product found))
          scored h in
      let (same, hit) = kept-IsHit query product haystack s read (
        subst (λ (l : List Scored). s ∈ l)
          (sym (ok_injective (kept catalog terms product haystack) scored h1)) m) in
      (refl, same, hit)

  scored_products-IsMatch :
      (query : ProductSearchQuery) (products : List Fields) (scored : List Scored) (s : Scored)
      → scored_products catalog query products ≡ ok scored
      → s ∈ scored
      → (s.product ∈ products)
        × (matches_structured_filters catalog s.product query ≡ ok true)
        × IsHit catalog query.query s.product
  unfolding scored_products
  scored_products-IsMatch query [] scored s h m =
      absurd (subst (λ (l : List Scored). s ∈ l) (sym (ok_injective [] scored h)) m)
  scored_products-IsMatch query (product ∷ products) scored s h m =
      let terms = terms_of catalog query.query in
      let rest_of = scored_products catalog query products in
      let (matches, filtered, h1) =
        bind_ok (matches_structured_filters catalog product query)
          (λ matches. kept_if catalog matches terms product >>= λ first.
            rest_of >>= λ rest. ok (first ++ rest))
          scored h in
      let (first, own, h2) =
        bind_ok (kept_if catalog matches terms product)
          (λ first. rest_of >>= λ rest. ok (first ++ rest)) scored h1 in
      let (rest, later, h3) = bind_ok rest_of (λ rest. ok (first ++ rest)) scored h2 in
      let among =
        subst (λ (l : List Scored). s ∈ l) (sym (ok_injective (first ++ rest) scored h3)) m in
      elim (mem-append_cases s first rest among) [
        | inl here ↦
            let (is_match, same, hit) =
              kept_if-IsHit matches query.query product first s own here in
            let at_product = λ (p : Fields). matches_structured_filters catalog p query ≡ ok true in
            (
              inl same,
              subst at_product (sym same) (filtered ∙ ap ok is_match),
              subst (λ (p : Fields). IsHit catalog query.query p) (sym same) hit,
            )
        | inr there ↦
            let (listed, passes, hit) = scored_products-IsMatch query products rest s later there in
            (inr listed, passes, hit)
      ]

-- A structured search of the fixture that gives a result gives at most as many products as asked
-- for, each the snapshot of a product of the fixture that passes the filters of the query and, when
-- the query has terms, has one of them in its text.
pub mock_search_products-matching :
    (catalog : MockCatalog) (query : ProductSearchQuery) (found : List ProductSnapshot)
    → mock_search_products catalog query ≡ ok found
    → (length found ≤ query.limit)
      × ((s : ProductSnapshot)
          → s ∈ found
          → (product : Fields) × IsMatch catalog query product × (snapshot catalog product ≡ ok s))
unfolding mock_search_products found_products
mock_search_products-matching catalog query found h =
    let (all_found, searched, h1) =
      bind_ok (found_products catalog query) (λ found. ok (take query.limit found)) found h in
    let cut = ok_injective (take query.limit all_found) found h1 in
    let (scored, read, h2) =
      bind_ok (scored_products catalog query catalog.products)
        (λ scored.
          traverse (snapshot catalog) (map (λ (s : Scored). s.product) (sort_scored scored)))
        all_found searched in
    let products = map (λ (s : Scored). s.product) (sort_scored scored) in
    (
      subst (λ (l : List ProductSnapshot). length l ≤ query.limit) cut
          (length-take query.limit all_found),
      λ s m.
          let (product, among, shown) = traverse-mem (snapshot catalog) products all_found s h2 (
            mem_of_mem-take query.limit s all_found
              (subst (λ (l : List ProductSnapshot). s ∈ l) (sym cut) m)) in
          let (x, sorted, same) =
            mem-map_cases (λ (s : Scored). s.product) product (sort_scored scored) among in
          (
            product,
            subst (λ (p : Fields). IsMatch catalog query p) (sym same)
                (scored_products-IsMatch catalog query catalog.products scored x read
                  (mem-sort_scored x scored sorted)),
            shown,
          ),
    )
