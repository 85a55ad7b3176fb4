-- ===== src/Workflow/Outcomes.antt =====
-- src/wootpilot/workflow/nodes.py: how a run of the support graph comes to queue an action.
use mathlib.Core.Path.{◌≡◌, refl, sym, ◌∙◌, subst}
use mathlib.Core.Logic.{◌≢◌, ◌⊎◌, inl, inr}
use mathlib.Core.Bool.{true, false}
use mathlib.Core.Option.{Option, none, some}
use native.Mathlib.Omega.{arith}
use wootpilot.Prelude.Tests.{if◌then◌else◌, Bool-cases}
use wootpilot.Domain.Messages.{
  NormalizedMessage, ConversationState, is_customer_public_inbound, truthy?,
}
use wootpilot.Domain.Catalog.{CatalogContext}
use wootpilot.Domain.Rules.{
  AutomationMode, AgentProposal, AgentRunStatus, ModelProposalResult, is_block, PolicyDecision,
  WorkflowDecision,
}
use wootpilot.Domain.Outbound.{Result, ok, err}
use wootpilot.Policy.Rules.{validate_proposal, proposal_rules}
use wootpilot.Workflow.Decisions.{
  non_customer_turn_decision, pre_model_policy_blocked_decision, model_proposal_failed_decision,
  post_model_policy_blocked_decision, public_reply_review_note,
}
use wootpilot.Workflow.Graph.{
  WorkflowState, WorkflowNodes, graph_input, final_workflow_decision, provider_error,
  blocked_decision, run_graph,
}
use wootpilot.Workflow.Turn.{triage_of, gate_of, check_of, proposed, answered, turn, run_graph-turn}

module _ (nodes : WorkflowNodes) (message : NormalizedMessage) (state : ConversationState)
    (context : CatalogContext) (mode : AutomationMode) where
  abbrev pub gate : PolicyDecision
  gate = gate_of nodes message state context mode

  abbrev pub check : AgentProposal → PolicyDecision
  check p = check_of nodes message state context mode (some p)

  -- How a run comes to queue an action: the gates are passed, the model proposed `proposal`, and
  -- the checks allow it or turn it into a review.
  pub record Queues (d : WorkflowDecision) : Type 0 where
    pub proposal : AgentProposal
    pub asked :
        (result : ModelProposalResult) × (nodes.propose message state context ≡ ok result)
        × (result.proposal ≡ some proposal)
    pub eligible : is_customer_public_inbound message ≡ true
    pub allowed : is_block gate.outcome ≡ false
    pub decided :
        ((is_block (check proposal).outcome ≡ false)
          × (d ≡ final_workflow_decision mode (some proposal)))
        ⊎ ((is_block (check proposal).outcome ≡ true)
            × (d
                ≡ blocked_decision nodes
                    (proposed nodes message state context mode (some proposal))
                    (triage_of nodes message state context mode)
                    (check proposal)))

  abbrev decision_for : Option AgentProposal → WorkflowDecision
  decision_for proposal =
      let c = check_of nodes message state context mode proposal in
      if is_block c.outcome
      then blocked_decision nodes (proposed nodes message state context mode proposal)
          (triage_of nodes message state context mode) c
      else final_workflow_decision mode proposal

  missing_not_queued : (decision_for none).status ≢ AgentRunStatus.queued_action
  unfolding blocked_decision validate_proposal proposal_rules public_reply_review_note
      post_model_policy_blocked_decision
  missing_not_queued h = cc

  decision-Queues :
      is_customer_public_inbound message ≡ true
      → is_block gate.outcome ≡ false
      → (result : ModelProposalResult) → nodes.propose message state context ≡ ok result
      → (proposal : Option AgentProposal) → result.proposal ≡ proposal
      → (decision_for proposal).status ≡ AgentRunStatus.queued_action
      → Queues (decision_for proposal)
  decision-Queues e a result asked none same q = absurd (missing_not_queued q)
  decision-Queues e a result asked (some p) same q =
      elim (Bool-cases (is_block (check p).outcome)) [
        | inl block ↦ record {
          proposal = p;
          asked = (result, asked, same);
          eligible = e;
          allowed = a;
          decided = inr (block, rw block);
        }
        | inr free ↦ record {
          proposal = p;
          asked = (result, asked, same);
          eligible = e;
          allowed = a;
          decided = inl (free, rw free);
        }
      ]

  answered-Queues :
      is_customer_public_inbound message ≡ true
      → is_block gate.outcome ≡ false
      → (result : ModelProposalResult) (d : WorkflowDecision)
      → nodes.propose message state context ≡ ok result
      → (answered nodes message state context mode result).workflow_decision ≡ some d
      → d.status ≡ AgentRunStatus.queued_action
      → Queues d
  unfolding model_proposal_failed_decision
  answered-Queues e a result d asked h q = elim (Bool-cases (truthy? (provider_error result))) [
    | inl failed ↦ absurd (ground (arith, failed))
    | inr fine ↦
        let same : decision_for result.proposal ≡ d = ground (arith, fine) in
        subst (λ x. Queues x) same
          (decision-Queues e a result asked result.proposal refl (rw same q))
  ]

  turn-Queues :
      (r : Result ModelProposalResult) (s : WorkflowState) (d : WorkflowDecision)
      → nodes.propose message state context ≡ r
      → turn nodes message state context mode ≡ ok s
      → s.workflow_decision ≡ some d
      → d.status ≡ AgentRunStatus.queued_action
      → Queues d
  unfolding turn non_customer_turn_decision pre_model_policy_blocked_decision graph_input
  turn-Queues r s d p h k q = elim (Bool-cases (is_customer_public_inbound message)) [
    | inr other ↦ absurd (ground arith)
    | inl eligible ↦ elim (Bool-cases (is_block gate.outcome)) [
      | inl block ↦ absurd (ground arith)
      | inr free ↦ asked r p eligible free
    ]
  ]
    where
      asked :
          (r' : Result ModelProposalResult)
          → nodes.propose message state context ≡ r'
          → is_customer_public_inbound message ≡ true
          → is_block gate.outcome ≡ false
          → Queues d
      asked (err e) p' eligible free = absurd (ground arith)
      asked (ok result) p' eligible free =
          answered-Queues eligible free result d p' (ground arith) q

  pub run-Queues :
      (s : WorkflowState) (d : WorkflowDecision)
      → run_graph nodes (graph_input message state context mode) ≡ ok s
      → s.workflow_decision ≡ some d
      → d.status ≡ AgentRunStatus.queued_action
      → Queues d
  run-Queues s d h k q =
      turn-Queues (nodes.propose message state context) s d refl
        (sym (run_graph-turn nodes message state context mode) ∙ h) k q
