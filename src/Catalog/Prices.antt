-- ===== src/Catalog/Prices.antt =====
-- catalog/store_api.py and application/policy.py: which prices of the Store API a reply may tell.
use mathlib.Core.Path.{◌≡◌, refl, sym, subst, ◌∙◌, ap}
use mathlib.Core.Logic.{◌↔◌, inl, inr}
use mathlib.Core.Bool.{true, false}
use mathlib.Core.Option.{Option, none, some}
use native.Mathlib.Omega.{arith}
use wootpilot.Prelude.Tests.{is_some, Option-cases}
use wootpilot.Prelude.Text.{Text, codes}
use wootpilot.Prelude.Json.{Fields, get, obj, end, ◌or◌}
use wootpilot.Domain.Messages.{truthy?}
use wootpilot.Domain.Catalog.{Money, PriceSnapshot, ProductSnapshot}
use wootpilot.Domain.Outbound.{ok, ◌>>=◌, bind_ok, ok_injective}
use wootpilot.Persistence.MessageOrder.{Signed}
use wootpilot.Policy.Rules.{price_is_mentionable}
use wootpilot.Catalog.Values.{Library, clean_html, dict_of, int_or_none, is_zero, money}
use wootpilot.Catalog.Products.{
  amount_of, currency_of, is_in_stock, is_purchasable, price_snapshot, product_price,
  store_api_product_to_snapshot,
}

-- The text of a price, as the store prints it.
abbrev pub price_text : Library → (product : Fields) → Option Text
price_text lib product =
    clean_html lib (get product (codes "price_html") or get product (codes "priceHtml"))

-- The payload of a product has a price other than 0 that the store prints, and the product can be
-- bought and is in stock.
pub record IsPriced (lib : Library) (product : Fields) : Type 0 where
  pub prices : Fields
  pub has_prices : dict_of (get product (codes "prices") or obj end) ≡ ok prices
  pub price : Signed
  pub has_price : int_or_none lib (get prices (codes "price")) ≡ ok (some price)
  pub not_zero : is_zero price ≡ false
  pub purchasable : is_purchasable product ≡ true
  pub in_stock : is_in_stock product ≡ true
  pub printed : truthy? (price_text lib product) ≡ true

module _ (lib : Library) (product : Fields) where
  -- How the price of a product was read.
  record PriceRead (price : PriceSnapshot) : Type 0 where
    prices : Fields
    value : Option Signed
    amount : Option Money
    has_prices : dict_of (get product (codes "prices") or obj end) ≡ ok prices
    has_value : int_or_none lib (get prices (codes "price")) ≡ ok value
    has_amount : amount_of lib (currency_of lib prices) value ≡ ok amount
    result :
        price_snapshot value amount
          (price_text lib product)
          (is_purchasable product)
          (is_in_stock product)
        ≡ price

  product_price-PriceRead :
      (price : PriceSnapshot) → product_price lib product ≡ ok price → PriceRead price
  unfolding product_price
  product_price-PriceRead price h =
      let (prices, has_prices, h1) =
        bind_ok (dict_of (get product (codes "prices") or obj end))
          (λ prices. int_or_none lib (get prices (codes "price")) >>= λ value.
            amount_of lib (currency_of lib prices) value >>= λ amount. ok (
              price_snapshot value amount (price_text lib product) (is_purchasable product)
                (is_in_stock product)))
          price h in
      let (value, has_value, h2) =
        bind_ok (int_or_none lib (get prices (codes "price")))
          (λ value. amount_of lib (currency_of lib prices) value >>= λ amount. ok (
            price_snapshot value amount (price_text lib product) (is_purchasable product)
              (is_in_stock product)))
          price h1 in
      let (amount, has_amount, h3) =
        bind_ok (amount_of lib (currency_of lib prices) value)
          (λ amount. ok (
            price_snapshot value amount (price_text lib product) (is_purchasable product)
              (is_in_stock product)))
          price h2 in
      record {
        prices = prices;
        value = value;
        amount = amount;
        has_prices = has_prices;
        has_value = has_value;
        has_amount = has_amount;
        result = ground arith;
      }

  -- A snapshot has the price that was read, and tells whether the product is in stock.
  snapshot-price :
      (s : ProductSnapshot)
      → store_api_product_to_snapshot lib product ≡ ok s
      → (product_price lib product ≡ ok s.price)
        × (s.availability.is_available ≡ some (is_in_stock product))
  unfolding store_api_product_to_snapshot
  snapshot-price s h = ground arith

  -- An amount is there exactly for a price other than 0.
  amount-price :
      (currency : Text) (value : Option Signed) (amount : Money)
      → amount_of lib currency value ≡ ok (some amount)
      → (n : Signed) × (value ≡ some n) × (is_zero n ≡ false)
  unfolding amount_of
  amount-price currency none amount h = absurd (ground arith)
  amount-price currency (some n) amount h = (n, refl, ground arith)

  mentionable-amount :
      (s : ProductSnapshot) (read : PriceRead s.price)
      → price_is_mentionable s ≡ true
      → (amount : Money) × (read.amount ≡ some amount)
  unfolding price_is_mentionable price_snapshot
  mentionable-amount s read h = elim (Option-cases read.amount) [
    | inl missing ↦ absurd (ground (arith, read.result))
    | inr found ↦ found
  ]

  mentionable-IsPriced :
      (s : ProductSnapshot)
      → store_api_product_to_snapshot lib product ≡ ok s
      → price_is_mentionable s ≡ true
      → IsPriced lib product
  unfolding price_is_mentionable price_snapshot
  mentionable-IsPriced s h told =
      let read = product_price-PriceRead s.price (snapshot-price s h).0 in
      let (amount, has_amount) = mentionable-amount s read told in
      let (n, has_n, not_zero) =
        amount-price (currency_of lib read.prices) read.value amount
          (read.has_amount ∙ ap ok has_amount) in
      record {
        prices = read.prices;
        has_prices = read.has_prices;
        price = n;
        has_price = read.has_value ∙ ap ok has_n;
        not_zero = not_zero;
        purchasable = ground (arith, read.result);
        in_stock = ground (arith, read.result);
        printed = ground (arith, read.result);
      }

  price-amount :
      (currency : Text) (n : Signed) (amount : Option Money)
      → amount_of lib currency (some n) ≡ ok amount
      → is_zero n ≡ false
      → is_some amount ≡ true
  unfolding amount_of money
  price-amount currency n amount h not_zero = ground arith

  IsPriced-mentionable :
      (s : ProductSnapshot)
      → store_api_product_to_snapshot lib product ≡ ok s
      → IsPriced lib product
      → price_is_mentionable s ≡ true
  unfolding price_is_mentionable price_snapshot
  IsPriced-mentionable s h p =
      let read = product_price-PriceRead s.price (snapshot-price s h).0 in
      let available = (snapshot-price s h).1 in
      let same_prices : read.prices ≡ p.prices =
        ok_injective read.prices p.prices (sym read.has_prices ∙ p.has_prices) in
      let same_value : read.value ≡ some p.price = ok_injective read.value (some p.price) (
        sym read.has_value
        ∙ ap (λ (f : Fields). int_or_none lib (get f (codes "price"))) same_prices
        ∙ p.has_price) in
      let there =
        price-amount (currency_of lib read.prices) p.price read.amount
          (subst
            (λ (v : Option Signed). amount_of lib (currency_of lib read.prices) v ≡ ok read.amount)
            same_value read.has_amount)
          p.not_zero in
      ground (arith, read.result, p.not_zero, p.purchasable, p.in_stock, p.printed)

-- The facts that policy sees of a product of the Store API let its price be told exactly where the
-- payload has a price other than 0 and a text for it, and the product can be bought and is in stock.
pub store_api_product-mentionable_iff :
    (lib : Library) (product : Fields) (s : ProductSnapshot)
    → store_api_product_to_snapshot lib product ≡ ok s
    → (price_is_mentionable s ≡ true) ↔ IsPriced lib product
store_api_product-mentionable_iff lib product s h =
    (mentionable-IsPriced lib product s h, IsPriced-mentionable lib product s h)

-- The text of a snapshot's price is the store's.
pub snapshot-text :
    (lib : Library) (product : Fields) (s : ProductSnapshot)
    → store_api_product_to_snapshot lib product ≡ ok s
    → s.price.display_text ≡ price_text lib product
unfolding price_snapshot
snapshot-text lib product s h =
    let read = product_price-PriceRead lib product s.price (snapshot-price lib product s h).0 in
    ground (arith, read.result)
