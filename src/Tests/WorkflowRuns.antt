-- ===== src/Tests/WorkflowRuns.antt =====
-- Runs of the support graph on the customer's question.
use mathlib.Core.Path.{◌≡◌, refl, ◌∙◌}
use mathlib.Core.Logic.{◌≢◌}
use mathlib.Core.Option.{some}
use wootpilot.Prelude.Text.{codes, contains, collapse, strip, mem_text, sorted}
use wootpilot.Prelude.Lists.{any, filter}
use wootpilot.Domain.Messages.{is_customer_public_inbound}
use mathlib.Core.Bool.{false}
use mathlib.Core.List.{[], ◌∷◌}
use wootpilot.Domain.Rules.{
  AutomationMode, AgentActionKind, AgentProposal, AgentRunStatus, is_block, TriageResult,
  WorkflowDecision,
}
use wootpilot.Policy.Searchable.{searchable_text, mentions_exact_price, normalize_price_text}
use wootpilot.Policy.Rules.{
  pre_model_rules, pre_model_policy, risk_signals_of, triage_message,
  public_internal_reasoning_rule, mentionable_prices, price_is_mentionable,
  public_price_policy_rule, proposal_rules, validate_proposal,
}
use wootpilot.Domain.Outbound.{ok}
use wootpilot.Workflow.Decisions.{private_note_decision, public_message_decision}
use wootpilot.Workflow.Graph.{WorkflowState, final_workflow_decision, graph_input, run_graph}
use wootpilot.Workflow.Turn.{gate_of, check_of, checked, turn, run_graph-turn}
use wootpilot.Workflow.Totality.{Decides, run_graph-Decides}
use wootpilot.Workflow.Safety.{Approved, run_graph-Approved, run_graph_modes}
use wootpilot.Workflow.Review.{DecidesOn, run_node-hides_draft}
use wootpilot.Tests.Fixtures.{ascii, question, calm, caps, nothing_found, reply, answer, model}

run_graph-turn_example :
    run_graph model (graph_input question calm caps AutomationMode.public_reply)
    ≡ turn model question calm caps AutomationMode.public_reply
run_graph-turn_example = run_graph-turn model question calm caps AutomationMode.public_reply

run_graph-Decides_example :
    Decides (run_graph model (graph_input question calm caps AutomationMode.public_reply))
run_graph-Decides_example =
    run_graph-Decides model question calm caps AutomationMode.public_reply answer refl

abbrev nothing_triaged : TriageResult
nothing_triaged = record nothing_found { intent = codes "product_or_support" }

triage_free : triage_message ascii question ≡ nothing_triaged
unfolding triage_message risk_signals_of searchable_text filter contains collapse sorted
triage_free = refl

-- The run goes through both gates, in each mode.
gate_free :
    (mode : AutomationMode) → is_block (gate_of model question calm caps mode).outcome ≡ false
unfolding pre_model_policy pre_model_rules mem_text any is_customer_public_inbound strip
gate_free AutomationMode.observe = rw triage_free
gate_free AutomationMode.assist = rw triage_free
gate_free AutomationMode.public_reply = rw triage_free

check_free :
    (mode : AutomationMode)
    → is_block (check_of model question calm caps mode (some reply)).outcome ≡ false
unfolding validate_proposal proposal_rules searchable_text filter collapse
    public_internal_reasoning_rule any contains public_price_policy_rule mentions_exact_price
    mentionable_prices normalize_price_text price_is_mentionable
check_free AutomationMode.observe = refl
check_free AutomationMode.assist = refl
check_free AutomationMode.public_reply = rw triage_free

module _ (mode : AutomationMode) where
  abbrev pub finished : WorkflowState
  finished = checked model question calm caps mode (some reply)

  pub finishes : run_graph model (graph_input question calm caps mode) ≡ ok finished
  unfolding turn is_customer_public_inbound strip
  finishes = run_graph-turn model question calm caps mode ∙ rw (gate_free mode)

  pub decides : finished.workflow_decision ≡ some (final_workflow_decision mode (some reply))
  decides = rw (check_free mode)

run_graph-Approved_example :
    Approved model question calm caps AutomationMode.public_reply (public_message_decision reply)
unfolding final_workflow_decision public_message_decision
run_graph-Approved_example =
    run_graph-Approved model question calm caps AutomationMode.public_reply
      (finished AutomationMode.public_reply) (public_message_decision reply)
      (finishes AutomationMode.public_reply) (decides AutomationMode.public_reply) refl refl

run_graph_modes_example :
    (AutomationMode.assist ≢ AutomationMode.observe)
    × (AutomationMode.assist ≡ AutomationMode.assist
        → (private_note_decision reply).action_kind ≡ AgentActionKind.private_note)
unfolding final_workflow_decision private_note_decision
run_graph_modes_example =
    run_graph_modes model question calm caps AutomationMode.assist (finished AutomationMode.assist)
      (private_note_decision reply) (finishes AutomationMode.assist) (decides AutomationMode.assist)
      refl

-- A reply that its own model finds risky.
abbrev risky : AgentProposal
risky = record reply { risk_reasons = codes "refund" ∷ [] }

abbrev assessed : WorkflowState
assessed = record (graph_input question calm caps AutomationMode.public_reply) {
  triage_result = some nothing_found;
}

run_node-hides_draft_example :
    (d : WorkflowDecision) × (d.status ≡ AgentRunStatus.queued_action)
    × (d.action_kind ≡ AgentActionKind.private_note)
    × DecidesOn model assessed nothing_found risky d
    × DecidesOn model assessed nothing_found
        (record risky { public_message = some (codes "Sure!"); private_note = some (codes "note") })
        d
unfolding graph_input validate_proposal proposal_rules searchable_text filter collapse
    public_internal_reasoning_rule any contains public_price_policy_rule mentions_exact_price
    mentionable_prices normalize_price_text price_is_mentionable
run_node-hides_draft_example =
    run_node-hides_draft model assessed nothing_found risky (some (codes "Sure!"))
      (some (codes "note")) refl refl refl refl refl
