-- ===== src/Workflow/Turn.antt =====
-- src/wootpilot/workflow/graph.py: a run of the support graph as straight-line code, and that the graph computes it. The later
-- modules reason about `turn` and keep the scheduler shut.
use Prim.Native.Nat.{ℕ, suc}
use mathlib.Core.Path.{◌≡◌, refl}
use mathlib.Core.Logic.{inl, inr}
use mathlib.Core.Option.{Option, some}
use wootpilot.Prelude.Tests.{if◌then◌else◌, Bool-cases}
use wootpilot.Domain.Messages.{
  NormalizedMessage, ConversationState, is_customer_public_inbound, truthy?,
}
use wootpilot.Domain.Catalog.{CatalogContext}
use wootpilot.Domain.Rules.{
  AutomationMode, AgentProposal, ModelProposalResult, is_block, PolicyDecision, TriageResult,
}
use wootpilot.Domain.Outbound.{Result, ok, err, ◌>>=◌}
use wootpilot.Policy.Rules.{pre_model_policy, triage_message, validate_proposal}
use wootpilot.Workflow.Decisions.{
  non_customer_turn_decision, pre_model_policy_blocked_decision, model_proposal_failed_decision,
}
use wootpilot.Workflow.Graph.{
  Node, WorkflowState, WorkflowNodes, graph_input, final_workflow_decision, provider_error,
  blocked_decision, run_node, run_from, run_graph,
}

module _ (nodes : WorkflowNodes) (message : NormalizedMessage) (state : ConversationState)
    (context : CatalogContext) (mode : AutomationMode) where
  abbrev pub triage_of : TriageResult
  triage_of = triage_message nodes.unicode message

  abbrev pub gate_of : PolicyDecision
  gate_of =
      pre_model_policy message state triage_of mode (nodes.now Node.policy_gate)
        (nodes.new_id Node.policy_gate)

  abbrev pub check_of : Option AgentProposal → PolicyDecision
  check_of proposal =
      validate_proposal nodes.unicode proposal mode triage_of context
        (nodes.now Node.validate_outbound_action) (nodes.new_id Node.validate_outbound_action)

  abbrev pub start : WorkflowState
  start = graph_input message state context mode

  abbrev pub gated : WorkflowState
  gated = record start { triage_result = some triage_of; pre_model_policy_decision = some gate_of }

  abbrev pub proposed : Option AgentProposal → WorkflowState
  proposed proposal = record gated { agent_proposal = proposal }

  abbrev pub checked : Option AgentProposal → WorkflowState
  checked proposal = record gated {
    agent_proposal = proposal;
    post_model_policy_decision = some (check_of proposal);
    workflow_decision = some (
        if is_block (check_of proposal).outcome
        then blocked_decision nodes (proposed proposal) triage_of (check_of proposal)
        else final_workflow_decision mode proposal);
  }

  abbrev pub answered : ModelProposalResult → WorkflowState
  answered result =
      if truthy? (provider_error result)
      then record gated {
        workflow_decision = some (model_proposal_failed_decision (provider_error result));
      }
      else checked result.proposal

  -- The whole run, with no scheduler.
  unfoldable pub turn : Result WorkflowState
  turn =
      if is_customer_public_inbound message
      then if is_block gate_of.outcome
        then ok (record gated {
          workflow_decision = some (pre_model_policy_blocked_decision gate_of triage_of);
        })
        else (nodes.propose message state context >>= λ result. ok (answered result))
      else ok (record start { workflow_decision = some non_customer_turn_decision })

  abbrev triaged : WorkflowState
  triaged = record start { triage_result = some triage_of }

  abbrev blocked : WorkflowState
  blocked = record gated {
    workflow_decision = some (pre_model_policy_blocked_decision gate_of triage_of);
  }

  -- One step of the scheduler at each node, with `n` steps left after it.
  start-step :
      (n : ℕ)
      → run_from nodes (suc (suc n)) Node.should_invoke start ≡ (
          if is_customer_public_inbound message
          then run_from nodes n Node.policy_gate triaged
          else ok (record start { workflow_decision = some non_customer_turn_decision }))
  unfolding run_from run_node graph_input
  start-step n = elim (Bool-cases (is_customer_public_inbound message)) [
    | inl eligible ↦ rw eligible
    | inr other ↦ rw other
  ]

  gate-step :
      (n : ℕ)
      → run_from nodes (suc n) Node.policy_gate triaged ≡ (
          if is_block gate_of.outcome
          then ok blocked
          else run_from nodes n Node.generate_proposal gated)
  unfolding run_from run_node graph_input
  gate-step n = elim (Bool-cases (is_block gate_of.outcome)) [
    | inl block ↦ rw block
    | inr free ↦ rw free
  ]

  answer-step :
      (n : ℕ) (r : Result ModelProposalResult)
      → nodes.propose message state context ≡ r
      → run_from nodes (suc (suc n)) Node.generate_proposal gated
        ≡ (r >>= λ result. ok (answered result))
  unfolding run_from run_node graph_input
  answer-step n (err e) h = rw h
  answer-step n (ok result) h = elim (Bool-cases (truthy? (provider_error result))) [
    | inl failed ↦ rw (h, failed)
    | inr fine ↦ rw (h, fine)
  ]

  -- The compiled graph runs exactly this code: it never meets a missing triage result and stays
  -- within the recursion limit.
  pub run_graph-turn : run_graph nodes start ≡ turn
  unfolding run_graph turn
  run_graph-turn =
      rw (start-step 23)
        (rw (gate-step 22) (rw (answer-step 20 (nodes.propose message state context) refl)))
