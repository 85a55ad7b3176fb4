-- ===== src/Workflow/Graph.antt =====
-- src/wootpilot/workflow/nodes.py, graph.py and state.py: the nodes, their routes, and a run of the
-- compiled graph. LangGraph merges a node's update into the state and goes where its Command or
-- its static edge says; it gives up after `recursion_limit` steps, which it sets to 25.
use Prim.Native.Nat.{ℕ, zero, suc}
use mathlib.Core.Bool.{not}
use mathlib.Core.Option.{Option, none, some}
use mathlib.Core.List.{◌∷◌}
use wootpilot.Prelude.Tests.{if◌then◌else◌}
use wootpilot.Prelude.Text.{Text, codes}
use wootpilot.Domain.Messages.{
  NormalizedMessage, ConversationState, is_customer_public_inbound, truthy?,
}
use wootpilot.Domain.Catalog.{CatalogContext}
use wootpilot.Domain.Rules.{
  AutomationMode, is_public_message, AgentProposal, ModelProposalResult, is_block, PolicyDecision,
  TriageResult, WorkflowDecision,
}
use wootpilot.Domain.Outbound.{Result, ok, err, Failure, ◌>>=◌}
use wootpilot.Policy.Searchable.{Unicode}
use wootpilot.Policy.Rules.{pre_model_policy, triage_message as triage_text, validate_proposal}
use wootpilot.Workflow.Decisions.{
  non_customer_turn_decision, pre_model_policy_blocked_decision, model_proposal_failed_decision,
  public_reply_review_decision, post_model_policy_blocked_decision, observe_decision,
  private_note_decision, public_message_decision, missing_model_proposal_decision,
  public_reply_review_note,
}

pub data Node : Type 0 where
  should_invoke triage_message policy_gate generate_proposal : Node
  validate_outbound_action end : Node

-- A key of the TypedDict that may be absent is optional.
pub record WorkflowState : Type 0 where
  pub normalized_message : NormalizedMessage
  pub conversation_state : ConversationState
  pub catalog_context : CatalogContext
  pub automation_mode : AutomationMode
  pub triage_result : Option TriageResult
  pub agent_proposal : Option AgentProposal
  pub pre_model_policy_decision : Option PolicyDecision
  pub post_model_policy_decision : Option PolicyDecision
  pub workflow_decision : Option WorkflowDecision

-- WorkflowNodes. The model provider is outside the program: `propose` is any function, which may
-- fail. `now` and `new_id` are what the clock and the id source give the node.
pub record WorkflowNodes : Type 0 where
  pub unicode : Unicode
  pub propose : NormalizedMessage → ConversationState → CatalogContext → Result ModelProposalResult
  pub now : Node → ℕ
  pub new_id : Node → Text

-- The state that an application service prepares.
unfoldable pub graph_input :
    NormalizedMessage → ConversationState → CatalogContext → AutomationMode → WorkflowState
graph_input message state context mode = record {
  normalized_message = message;
  conversation_state = state;
  catalog_context = context;
  automation_mode = mode;
  triage_result = none;
  agent_proposal = none;
  pre_model_policy_decision = none;
  post_model_policy_decision = none;
  workflow_decision = none;
}

-- _final_workflow_decision
unfoldable pub final_workflow_decision : AutomationMode → Option AgentProposal → WorkflowDecision
final_workflow_decision AutomationMode.observe none = missing_model_proposal_decision
final_workflow_decision AutomationMode.observe (some proposal) = observe_decision proposal
final_workflow_decision _ none = missing_model_proposal_decision
final_workflow_decision AutomationMode.assist (some proposal) = private_note_decision proposal
final_workflow_decision AutomationMode.public_reply (some proposal) =
    if not (is_public_message proposal.action_kind)
    then private_note_decision proposal
    else public_message_decision proposal

-- `result.retryable_error or result.permanent_error`
abbrev pub provider_error : ModelProposalResult → Option Text
provider_error r = if truthy? r.retryable_error then r.retryable_error else r.permanent_error

module _ (nodes : WorkflowNodes) where
  run_should_invoke : WorkflowState → Result (WorkflowState × Node)
  run_should_invoke s =
      if is_customer_public_inbound s.normalized_message
      then ok (s, Node.triage_message)
      else ok (record s { workflow_decision = some non_customer_turn_decision }, Node.end)

  run_triage_message : WorkflowState → Result (WorkflowState × Node)
  run_triage_message s = ok (
    record s { triage_result = some (triage_text nodes.unicode s.normalized_message) },
    Node.policy_gate,
  )

  gate : WorkflowState → TriageResult → Result (WorkflowState × Node)
  gate s triage =
      let decision =
        pre_model_policy s.normalized_message s.conversation_state triage s.automation_mode
          (nodes.now Node.policy_gate) (nodes.new_id Node.policy_gate) in
      if is_block decision.outcome
      then ok (
        record s {
          pre_model_policy_decision = some decision;
          workflow_decision = some (pre_model_policy_blocked_decision decision triage);
        },
        Node.end,
      )
      else ok (record s { pre_model_policy_decision = some decision }, Node.generate_proposal)

  run_policy_gate : WorkflowState → Result (WorkflowState × Node)
  unfolding gate
  run_policy_gate s = elim s.triage_result [
    | none ↦ err Failure.runtime_error
    | some triage ↦ gate s triage
  ]

  accept_result : WorkflowState → ModelProposalResult → Result (WorkflowState × Node)
  accept_result s result =
      if truthy? (provider_error result)
      then ok (
        record s {
          agent_proposal = none;
          workflow_decision = some (model_proposal_failed_decision (provider_error result));
        },
        Node.end,
      )
      else ok (record s { agent_proposal = result.proposal }, Node.validate_outbound_action)

  run_generate_proposal : WorkflowState → Result (WorkflowState × Node)
  unfolding accept_result
  run_generate_proposal s = do
    result ← nodes.propose s.normalized_message s.conversation_state s.catalog_context
    accept_result s result

  -- The decision of a turn whose proposal policy blocks: a review note, or a plain block.
  unfoldable pub blocked_decision : WorkflowState → TriageResult → PolicyDecision → WorkflowDecision
  blocked_decision s triage decision =
      let note =
        public_reply_review_note s.agent_proposal s.automation_mode decision.rule_ids triage in
      elim note [
        | some (c ∷ t) ↦ public_reply_review_decision s.agent_proposal decision triage (c ∷ t)
        | _ ↦ post_model_policy_blocked_decision s.agent_proposal decision
      ]

  validate : WorkflowState → TriageResult → Result (WorkflowState × Node)
  unfolding blocked_decision
  validate s triage =
      let decision =
        validate_proposal nodes.unicode s.agent_proposal s.automation_mode triage s.catalog_context
          (nodes.now Node.validate_outbound_action) (nodes.new_id Node.validate_outbound_action) in
      let outcome =
        if is_block decision.outcome
        then blocked_decision s triage decision
        else final_workflow_decision s.automation_mode s.agent_proposal in
      ok (
        record s { post_model_policy_decision = some decision; workflow_decision = some outcome },
        Node.end,
      )

  run_validate_outbound_action : WorkflowState → Result (WorkflowState × Node)
  unfolding validate
  run_validate_outbound_action s = elim s.triage_result [
    | none ↦ err Failure.runtime_error
    | some triage ↦ validate s triage
  ]

  unfoldable pub run_node : Node → WorkflowState → Result (WorkflowState × Node)
  unfolding run_should_invoke run_triage_message run_policy_gate run_generate_proposal
      run_validate_outbound_action
  run_node Node.should_invoke s = run_should_invoke s
  run_node Node.triage_message s = run_triage_message s
  run_node Node.policy_gate s = run_policy_gate s
  run_node Node.generate_proposal s = run_generate_proposal s
  run_node Node.validate_outbound_action s = run_validate_outbound_action s
  run_node Node.end s = ok (s, Node.end)

  -- The scheduler's loop: `limit` is the number of steps that it may still make.
  unfoldable pub run_from : (limit : ℕ) → Node → WorkflowState → Result WorkflowState
  run_from limit Node.end s = ok s
  run_from zero _ s = err (Failure.unexpected (codes "GraphRecursionError"))
  run_from (suc limit) node s = run_node node s >>= λ next. run_from limit next.1 next.0

  unfoldable pub run_graph : WorkflowState → Result WorkflowState
  unfolding run_from run_node
  run_graph s = run_from 25 Node.should_invoke s
