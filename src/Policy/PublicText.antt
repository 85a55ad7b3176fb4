-- ===== src/Policy/PublicText.antt =====
-- The checks of a public text, application/policy.py: validate_proposal, public_price_policy_rule
-- and triage_message against what they are meant to say.
use Prim.Native.Nat.{ℕ}
use mathlib.Core.Path.{◌≡◌}
use mathlib.Core.Logic.{◌↔◌, ◌⊎◌, inl, inr}
use mathlib.Core.Bool.{Bool, true, false, ◌&&◌}
use mathlib.Core.Option.{none, some}
use mathlib.Core.List.{[]}
use native.Mathlib.Omega.{arith}
use wootpilot.Prelude.Tests.{Bool-cases, and_true}
use wootpilot.Prelude.Lists.{
  any, filter, ◌∈◌, any-exists, any-of_mem, any-false, mem_of_mem-filter, mem-filter_of_mem,
  mem-map, mem-map_cases,
}
use wootpilot.Prelude.Text.{Text, truthy, contains}
use wootpilot.Domain.Catalog.{CatalogContext, ProductSnapshot}
use wootpilot.Domain.Rules.{
  AutomationMode, AgentActionKind, AgentProposal, PolicyOutcome, TriageResult,
}
use wootpilot.Policy.Searchable.{
  Unicode, searchable_text, mentions_exact_price, normalize_price_text,
}
use wootpilot.Policy.Rules.{
  public_internal_reasoning_terms, or_empty, price_is_mentionable, display_text_of,
  public_internal_reasoning_rule, mentionable_prices, public_price_policy_rule, proposal_rules,
  validate_proposal,
}

-- A product of the snapshot whose price may be told, and whose price text stands in `text`.
pub record Quotes (u : Unicode) (text : Text) (context : CatalogContext) : Type 0 where
  pub product : ProductSnapshot
  pub listed : product ∈ context.products
  pub mentionable : price_is_mentionable product ≡ true
  pub named : truthy (normalize_price_text u (display_text_of product)) ≡ true
  pub quoted :
      contains (normalize_price_text u text) (normalize_price_text u (display_text_of product))
      ≡ true

module _ (u : Unicode) (text : Text) (context : CatalogContext) where
  abbrev safe_price : Text → Bool
  safe_price price = truthy price && contains (normalize_price_text u text) price

  any→Quotes : any safe_price (mentionable_prices u context) ≡ true → Quotes u text context
  unfolding mentionable_prices
  any→Quotes h =
      let (price, among, safe) = any-exists safe_price (mentionable_prices u context) h in
      let (p, kept, e) =
        mem-map_cases (λ p. normalize_price_text u (display_text_of p)) price
          (filter price_is_mentionable context.products) among in
      let (listed, ok_price) = mem_of_mem-filter price_is_mentionable p context.products kept in
      let (some_text, inside) =
        and_true (truthy price) (contains (normalize_price_text u text) price) safe in
      record {
        product = p;
        listed = listed;
        mentionable = ok_price;
        named = rw (← e) some_text;
        quoted = rw (← e) inside;
      }

  Quotes→any : Quotes u text context → any safe_price (mentionable_prices u context) ≡ true
  unfolding mentionable_prices
  Quotes→any q =
      any-of_mem safe_price (normalize_price_text u (display_text_of q.product))
        (mentionable_prices u context)
        (mem-map (λ p. normalize_price_text u (display_text_of p)) q.product
          (filter price_is_mentionable context.products)
          (mem-filter_of_mem price_is_mentionable q.product context.products q.listed
            q.mentionable))
        (rw (q.named, q.quoted))

  price_rule→ :
      public_price_policy_rule u text context ≡ none
      → (mentions_exact_price u text ≡ false) ⊎ Quotes u text context
  unfolding public_price_policy_rule
  price_rule→ h = elim (Bool-cases (mentions_exact_price u text)) [
    | inr silent ↦ inl silent
    | inl speaks ↦ elim (Bool-cases (any safe_price (mentionable_prices u context))) [
      | inl safe ↦ inr (any→Quotes safe)
      | inr unsafe ↦ ground arith
    ]
  ]

  →price_rule :
      (mentions_exact_price u text ≡ false) ⊎ Quotes u text context
      → public_price_policy_rule u text context ≡ none
  unfolding public_price_policy_rule
  →price_rule (inl silent) = rw silent
  →price_rule (inr q) = ground (arith, Quotes→any q)

-- A text passes the price policy exactly when it makes no price claim, or when it contains the
-- price text of a listed product whose price may be mentioned.
pub public_price_policy_rule-none_iff :
    (u : Unicode) (text : Text) (context : CatalogContext)
    → (public_price_policy_rule u text context ≡ none)
      ↔ ((mentions_exact_price u text ≡ false) ⊎ Quotes u text context)
public_price_policy_rule-none_iff u text context =
    (price_rule→ u text context, →price_rule u text context)

-- What a public proposal must satisfy to be sent without a person.
pub record MayPublish (u : Unicode) (proposal : AgentProposal) (triage : TriageResult)
    (context : CatalogContext) : Type 0 where
  pub no_reasoning :
      (term : Text)
      → term ∈ public_internal_reasoning_terms
      → contains (searchable_text u (or_empty proposal.public_message)) term ≡ false
  pub no_risk_signals : triage.risk_signals ≡ []
  pub no_risk_reasons : proposal.risk_reasons ≡ []
  pub price :
      (mentions_exact_price u (or_empty proposal.public_message) ≡ false)
      ⊎ Quotes u (or_empty proposal.public_message) context

module _ (u : Unicode) where
  pub reasoning_rule_none :
      (text term : Text)
      → public_internal_reasoning_rule u text ≡ none
      → term ∈ public_internal_reasoning_terms
      → contains (searchable_text u text) term ≡ false
  unfolding public_internal_reasoning_rule
  reasoning_rule_none text term h m =
      any-false (contains (searchable_text u text)) term public_internal_reasoning_terms m
        (ground arith)

  rules_empty :
      (p : AgentProposal) (triage : TriageResult) (context : CatalogContext)
      → p.action_kind ≡ AgentActionKind.public_message
      → proposal_rules u (some p) AutomationMode.public_reply triage context ≡ []
      → (public_internal_reasoning_rule u (or_empty p.public_message) ≡ none)
        × (triage.risk_signals ≡ [])
        × (p.risk_reasons ≡ [])
        × (public_price_policy_rule u (or_empty p.public_message) context ≡ none)
  unfolding proposal_rules
  rules_empty p triage context k h = ground arith

-- In public_reply mode, a public message that validation allows has no internal reasoning term, no
-- risk from triage or from the model, and no price claim but of a mentionable price.
pub validate_proposal-MayPublish :
    (u : Unicode) (p : AgentProposal) (triage : TriageResult) (context : CatalogContext) (now : ℕ)
    (id : Text)
    → p.action_kind ≡ AgentActionKind.public_message
    → (validate_proposal u (some p) AutomationMode.public_reply triage context now id).outcome
      ≡ PolicyOutcome.allow
    → MayPublish u p triage context
unfolding validate_proposal
validate_proposal-MayPublish u p triage context now id k h =
    let text = or_empty p.public_message in
    let (clean, calm, sure, priced) = rules_empty u p triage context k (ground arith) in
    record {
      no_reasoning = λ term m. reasoning_rule_none u text term clean m;
      no_risk_signals = calm;
      no_risk_reasons = sure;
      price = (public_price_policy_rule-none_iff u text context).0 priced;
    }
