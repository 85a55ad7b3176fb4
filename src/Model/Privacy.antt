-- ===== src/Model/Privacy.antt =====
-- integrations/model.py and application/policy.py: the prompt keeps prices to itself that a reply may
-- not tell.
use mathlib.Core.Path.{◌≡◌, refl}
use mathlib.Core.Logic.{◌⊎◌, inl, inr}
use mathlib.Core.Bool.{false}
use mathlib.Core.List.{List, [], ◌∷◌, map}
use native.Mathlib.Omega.{arith}
use wootpilot.Prelude.Text.{Text}
use wootpilot.Domain.Messages.{ConversationState, NormalizedMessage}
use wootpilot.Domain.Catalog.{CatalogContext, ProductSnapshot}
use wootpilot.Policy.Rules.{price_is_mentionable}
use wootpilot.Model.Prompt.{
  CustomerLocale, catalog_products_for_prompt, price_can_be_shown_to_model, product_for_prompt,
  support_proposal_payload,
}

-- The model sees a price exactly where policy lets a reply tell it.
shown≡mentionable : (p : ProductSnapshot) → price_can_be_shown_to_model p ≡ price_is_mentionable p
unfolding price_can_be_shown_to_model price_is_mentionable
shown≡mentionable p = ground arith

-- Two products that differ at most in their prices, neither of which may be told.
pub record DifferInPrice (p q : ProductSnapshot) : Type 0 where
  pub name : p.name ≡ q.name
  pub sku : p.sku ≡ q.sku
  pub permalink : p.permalink ≡ q.permalink
  pub availability : p.availability ≡ q.availability
  pub risk_signals : p.risk_signals ≡ q.risk_signals
  pub hidden : price_is_mentionable p ≡ false
  pub hidden' : price_is_mentionable q ≡ false

abbrev pub IsSameToModel : List ProductSnapshot → List ProductSnapshot → Type 0
IsSameToModel [] [] = Unit
IsSameToModel [] (q ∷ qs) = ⊥
IsSameToModel (p ∷ ps) [] = ⊥
IsSameToModel (p ∷ ps) (q ∷ qs) = ((p ≡ q) ⊎ DifferInPrice p q) × IsSameToModel ps qs

row_hides_price :
    (p q : ProductSnapshot) → DifferInPrice p q → product_for_prompt p ≡ product_for_prompt q
unfolding product_for_prompt
row_hides_price p q d =
    rw (shown≡mentionable p, shown≡mentionable q, d.hidden, d.hidden')
      (rw (d.name, d.sku, d.permalink, d.availability, d.risk_signals) refl)

rows_hide_prices :
    (ps qs : List ProductSnapshot)
    → IsSameToModel ps qs
    → map product_for_prompt ps ≡ map product_for_prompt qs
rows_hide_prices [] [] same = refl
rows_hide_prices [] (q ∷ qs) same = absurd same
rows_hide_prices (p ∷ ps) [] same = absurd same
rows_hide_prices (p ∷ ps) (q ∷ qs) (inl e, same) = rw (e, rows_hide_prices ps qs same) refl
rows_hide_prices (p ∷ ps) (q ∷ qs) (inr d, same) =
    rw (row_hides_price p q d, rows_hide_prices ps qs same) refl

-- The prompt does not depend on a price that a reply may not tell: for catalogs that differ only in
-- such prices, the model is given the same payload.
pub support_proposal_payload-hides_prices :
    (version instruction task : Text) (message : NormalizedMessage) (state : ConversationState)
    (context context' : CatalogContext) (locale : CustomerLocale)
    → context.query ≡ context'.query
    → context.risk_signals ≡ context'.risk_signals
    → IsSameToModel context.products context'.products
    → support_proposal_payload version instruction task message state context locale
      ≡ support_proposal_payload version instruction task message state context' locale
unfolding support_proposal_payload catalog_products_for_prompt
support_proposal_payload-hides_prices version instruction task message state context context' locale
      query risks same =
    rw (query, risks, rows_hide_prices context.products context'.products same) refl
