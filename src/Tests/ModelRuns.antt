-- ===== src/Tests/ModelRuns.antt =====
-- Runs of the model adapters with a provider that fails, and of the prompt on two catalogs.
use mathlib.Core.Path.{◌≡◌, refl}
use mathlib.Core.Logic.{inr}
use mathlib.Core.Bool.{true, false}
use mathlib.Core.Option.{none, some}
use mathlib.Core.List.{[], ◌∷◌}
use wootpilot.Prelude.Text.{Text, codes, str_eq}
use wootpilot.Prelude.Json.{bool, end, field, get_or}
use wootpilot.Golden.{GoldenConversationCase, run_golden_case, run_golden_case-human_active}
use native.Mathlib.Omega.{arith}
use wootpilot.Domain.Catalog.{CatalogContext, ProductSnapshot}
use wootpilot.Domain.Rules.{AgentActionKind, AutomationMode, ModelProposalResult}
use wootpilot.Domain.Outbound.{ok}
use wootpilot.Policy.Rules.{price_is_mentionable}
use wootpilot.Workflow.Graph.{WorkflowNodes, graph_input, run_graph}
use wootpilot.Workflow.Totality.{Decides}
use wootpilot.Model.Prompt.{CustomerLocale, support_proposal_payload}
use wootpilot.Model.Generators.{
  Invocation, Method, ModelProvider, OpenRouter, proposal_generator, raised, transport_error,
  value_error,
}
use wootpilot.Model.Privacy.{support_proposal_payload-hides_prices}
use wootpilot.Model.Answers.{IsOneAnswer, IsProviders, proposal_generator-Decides}
use wootpilot.Tests.Fixtures.{calm, cap_product, caps, model, question}

-- The first method gives no valid output, the second times out.
abbrev failures : Method → Invocation
failures Method.json_schema = raised (value_error (codes "ValidationError"))
failures Method.function_calling = raised (transport_error (codes "TimeoutError"))

failures-IsProviders : (method : Method) → IsProviders (failures method)
failures-IsProviders Method.json_schema = tt
failures-IsProviders Method.function_calling = tt

abbrev failing : OpenRouter
failing = record {
  openrouter_api_key = codes "k";
  import_error = none;
  invoke = λ method _ _ _. failures method;
}

abbrev failing_nodes : WorkflowNodes
failing_nodes = record model {
  propose = proposal_generator ModelProvider.openrouter CustomerLocale.en failing;
}

proposal_generator-Decides_example :
    ((result : ModelProposalResult) × (proposal_generator ModelProvider.openrouter CustomerLocale.en
          failing question calm caps
        ≡ ok result)
      × IsOneAnswer result)
    × Decides (run_graph failing_nodes (graph_input question calm caps AutomationMode.public_reply))
proposal_generator-Decides_example =
    proposal_generator-Decides failing_nodes ModelProvider.openrouter CustomerLocale.en failing
      question calm caps AutomationMode.public_reply refl failures-IsProviders

-- The cap with a hidden price, at two prices.
abbrev hidden_at : Text → ProductSnapshot
hidden_at price = record cap_product {
  price = record {
    amount = none;
    display_text = some price;
    can_mention = true;
    quote_required = false;
    hidden = true;
    stale = false;
    reason = none;
  };
}

abbrev catalog_at : Text → CatalogContext
catalog_at price = record caps { products = hidden_at price ∷ [] }

support_proposal_payload-hides_prices_example :
    support_proposal_payload
      (codes "v1")
      (codes "English")
      (codes "Reply")
      question
      calm
      (catalog_at (codes "$9.00"))
      CustomerLocale.en
    ≡ support_proposal_payload
        (codes "v1")
        (codes "English")
        (codes "Reply")
        question
        calm
        (catalog_at (codes "$8.00"))
        CustomerLocale.en
unfolding price_is_mentionable
support_proposal_payload-hides_prices_example =
    support_proposal_payload-hides_prices (codes "v1") (codes "English") (codes "Reply") question
      calm (catalog_at (codes "$9.00")) (catalog_at (codes "$8.00")) CustomerLocale.en refl refl
      (
        inr (record {
          name = refl;
          sku = refl;
          permalink = refl;
          availability = refl;
          risk_signals = refl;
          hidden = refl;
          hidden' = refl;
        }),
        tt,
      )

-- A golden case whose state marks a person as active.
abbrev golden : GoldenConversationCase
golden = record {
  id = codes "g";
  automation_mode = AutomationMode.public_reply;
  message = codes "Any cap?";
  proposal_action_kind = AgentActionKind.public_message;
  proposal_public_message = some (codes "Yes");
  proposal_private_note = none;
  proposal_risk_reasons = [];
  catalog_risk_signals = [];
  state = field (codes "human_active") (bool true) end;
}

run_golden_case-human_active_example :
    run_golden_case model 100 (record golden { state = end }) ≡ run_golden_case model 100 golden
unfolding get_or str_eq
run_golden_case-human_active_example =
    run_golden_case-human_active model 100 golden end (omega arith) refl refl
