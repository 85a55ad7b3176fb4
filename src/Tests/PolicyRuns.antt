-- ===== src/Tests/PolicyRuns.antt =====
-- Runs of the policy on the customer's question and the quoted reply.
use mathlib.Core.Path.{◌≡◌, refl}
use mathlib.Core.Logic.{◌⊎◌, ◌↔◌}
use mathlib.Core.Bool.{false}
use mathlib.Core.Option.{none}
use wootpilot.Prelude.Text.{codes, contains, collapse}
use wootpilot.Prelude.Lists.{any, filter}
use wootpilot.Domain.Rules.{AutomationMode, PolicyOutcome}
use wootpilot.Policy.Searchable.{searchable_text, mentions_exact_price, normalize_price_text}
use wootpilot.Policy.Rules.{
  pre_model_policy, public_internal_reasoning_rule, mentionable_prices, price_is_mentionable,
  public_price_policy_rule, proposal_rules, validate_proposal,
}
use wootpilot.Policy.Eligibility.{MayAssist, pre_model_policy-allow_iff}
use wootpilot.Policy.PublicText.{
  Quotes, MayPublish, public_price_policy_rule-none_iff, validate_proposal-MayPublish,
}
use wootpilot.Tests.Fixtures.{ascii, question, calm, caps, quoted_reply, nothing_found, reply}

pre_model_policy-allow_iff_example :
    ((pre_model_policy question calm nothing_found AutomationMode.public_reply 100
        (codes "d1")).outcome
      ≡ PolicyOutcome.allow)
    ↔ MayAssist question calm nothing_found AutomationMode.public_reply 100
pre_model_policy-allow_iff_example =
    pre_model_policy-allow_iff question calm nothing_found AutomationMode.public_reply 100
      (codes "d1")

public_price_policy_rule-none_iff_example :
    (public_price_policy_rule ascii quoted_reply caps ≡ none)
    ↔ ((mentions_exact_price ascii quoted_reply ≡ false) ⊎ Quotes ascii quoted_reply caps)
public_price_policy_rule-none_iff_example =
    public_price_policy_rule-none_iff ascii quoted_reply caps

validate_proposal-MayPublish_example : MayPublish ascii reply nothing_found caps
unfolding validate_proposal proposal_rules public_internal_reasoning_rule any contains
    searchable_text public_price_policy_rule mentions_exact_price mentionable_prices
    normalize_price_text price_is_mentionable collapse filter
validate_proposal-MayPublish_example =
    validate_proposal-MayPublish ascii reply nothing_found caps 100 (codes "d1") refl refl
