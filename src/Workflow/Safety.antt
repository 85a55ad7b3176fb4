-- ===== src/Workflow/Safety.antt =====
-- src/wootpilot/workflow/nodes.py and decisions.py: what a run of the support graph may queue in each
-- automation mode.
use mathlib.Core.Path.{◌≡◌, refl, ◌∙◌, ap}
use mathlib.Core.Logic.{◌≢◌, inl, inr}
use mathlib.Core.Bool.{false}
use mathlib.Core.Option.{some}
use mathlib.Core.List.{List, [], ◌∷◌}
use native.Mathlib.Omega.{arith}
use wootpilot.Domain.Messages.{NormalizedMessage, ConversationState}
use wootpilot.Domain.Catalog.{CatalogContext}
use wootpilot.Domain.Rules.{
  ModelProposalResult, AutomationMode, AgentActionKind, AgentProposal, AgentRunStatus, is_block,
  PolicyDecision, PolicyOutcome, TriageResult, WorkflowDecision,
}
use wootpilot.Domain.Outbound.{ok}
use wootpilot.Policy.Rules.{pre_model_policy, validate_proposal, outcome_of}
use wootpilot.Policy.Eligibility.{MayAssist, pre_model_policy-allow_iff}
use wootpilot.Policy.PublicText.{MayPublish, validate_proposal-MayPublish}
use wootpilot.Workflow.Decisions.{
  public_reply_review_decision, post_model_policy_blocked_decision, observe_decision,
  private_note_decision, public_message_decision, public_reply_review_note,
}
use wootpilot.Workflow.Graph.{
  Node, WorkflowState, WorkflowNodes, graph_input, final_workflow_decision, blocked_decision,
  run_graph,
}
use wootpilot.Workflow.Turn.{triage_of}
use wootpilot.Workflow.Outcomes.{run-Queues, gate, check}

module _ (nodes : WorkflowNodes) (message : NormalizedMessage) (state : ConversationState)
    (context : CatalogContext) where
  -- The whole of what stands behind a queued public reply.
  pub record Approved (mode : AutomationMode) (d : WorkflowDecision) : Type 0 where
    pub in_public_mode : mode ≡ AutomationMode.public_reply
    pub assisted :
        MayAssist message state
          (triage_of nodes message state context mode)
          mode
          (nodes.now Node.policy_gate)
    pub proposal : AgentProposal
    pub asked :
        (result : ModelProposalResult) × (nodes.propose message state context ≡ ok result)
        × (result.proposal ≡ some proposal)
    pub published :
        MayPublish nodes.unicode proposal (triage_of nodes message state context mode) context
    pub sends_proposal : d.content ≡ proposal.public_message

  outcome_allow :
      (rules : List _)
      → is_block (outcome_of rules) ≡ false
      → outcome_of rules ≡ PolicyOutcome.allow
  outcome_allow [] h = refl
  outcome_allow (r ∷ rs) h = cc

  gate_allow :
      (mode : AutomationMode)
      → is_block (gate nodes message state context mode).outcome ≡ false
      → (gate nodes message state context mode).outcome ≡ PolicyOutcome.allow
  unfolding pre_model_policy
  gate_allow mode h = outcome_allow _ h

  check_allow :
      (mode : AutomationMode) (p : AgentProposal)
      → is_block (check nodes message state context mode p).outcome ≡ false
      → (check nodes message state context mode p).outcome ≡ PolicyOutcome.allow
  unfolding validate_proposal
  check_allow mode p h = outcome_allow _ h

  final_public :
      (mode : AutomationMode) (p : AgentProposal)
      → (final_workflow_decision mode (some p)).action_kind ≡ AgentActionKind.public_message
      → (mode ≡ AutomationMode.public_reply)
        × (p.action_kind ≡ AgentActionKind.public_message)
        × ((final_workflow_decision mode (some p)).content ≡ p.public_message)
  unfolding final_workflow_decision observe_decision private_note_decision public_message_decision
  final_public AutomationMode.observe p h = ground arith
  final_public AutomationMode.assist p h = ground arith
  final_public AutomationMode.public_reply p h = ground arith

  blocked_not_public :
      (s : WorkflowState) (t : TriageResult) (c : PolicyDecision) (d : WorkflowDecision)
      → d ≡ blocked_decision nodes s t c
      → d.action_kind ≢ AgentActionKind.public_message
  unfolding blocked_decision public_reply_review_decision post_model_policy_blocked_decision
  blocked_not_public s t c d e h = ground arith

  publish :
      (mode : AutomationMode) (p : AgentProposal)
      → mode ≡ AutomationMode.public_reply
      → p.action_kind ≡ AgentActionKind.public_message
      → is_block (check nodes message state context mode p).outcome ≡ false
      → MayPublish nodes.unicode p (triage_of nodes message state context mode) context
  publish AutomationMode.public_reply p m kind free =
      validate_proposal-MayPublish nodes.unicode p
        (triage_of nodes message state context AutomationMode.public_reply) context
        (nodes.now Node.validate_outbound_action) (nodes.new_id Node.validate_outbound_action) kind
        (check_allow AutomationMode.public_reply p free)
  publish AutomationMode.observe p m kind free = cc
  publish AutomationMode.assist p m kind free = cc

  blocked_queued :
      (s : WorkflowState) (t : TriageResult) (c : PolicyDecision) (d : WorkflowDecision)
      → d ≡ blocked_decision nodes s t c
      → d.status ≡ AgentRunStatus.queued_action
      → (s.automation_mode ≡ AutomationMode.public_reply)
  unfolding blocked_decision post_model_policy_blocked_decision public_reply_review_note
  blocked_queued s t c d e h = ground arith

  final_modes :
      (mode : AutomationMode) (p : AgentProposal)
      → (final_workflow_decision mode (some p)).status ≡ AgentRunStatus.queued_action
      → (mode ≢ AutomationMode.observe)
        × (mode ≡ AutomationMode.assist
            → (final_workflow_decision mode (some p)).action_kind ≡ AgentActionKind.private_note)
  unfolding final_workflow_decision observe_decision private_note_decision
  final_modes AutomationMode.observe p h = absurd (ground arith)
  final_modes AutomationMode.assist p h = (λ e. cc, λ e. refl)
  final_modes AutomationMode.public_reply p h = (λ e. cc, λ e. cc)

  -- A queued review note comes from public_reply mode.
  in_public_mode_only :
      (mode : AutomationMode) (d : WorkflowDecision)
      → mode ≡ AutomationMode.public_reply
      → (mode ≢ AutomationMode.observe)
        × (mode ≡ AutomationMode.assist → d.action_kind ≡ AgentActionKind.private_note)
  in_public_mode_only AutomationMode.observe d m = cc
  in_public_mode_only AutomationMode.assist d m = cc
  in_public_mode_only AutomationMode.public_reply d m = (λ e. cc, λ e. cc)

-- A public reply is queued only in public_reply mode, for a turn that the gate lets through, with
-- the text of the proposal that the model gave for it and that may be published.
pub run_graph-Approved :
    (nodes : WorkflowNodes) (message : NormalizedMessage) (state : ConversationState)
    (context : CatalogContext) (mode : AutomationMode) (s : WorkflowState) (d : WorkflowDecision)
    → run_graph nodes (graph_input message state context mode) ≡ ok s
    → s.workflow_decision ≡ some d
    → d.status ≡ AgentRunStatus.queued_action
    → d.action_kind ≡ AgentActionKind.public_message
    → Approved nodes message state context mode d
run_graph-Approved nodes message state context mode s d h k q public =
    let queues = run-Queues nodes message state context mode s d h k q in
    let p = queues.proposal in
    elim queues.decided [
      | inr (block, e) ↦ absurd (blocked_not_public nodes message state context _ _ _ d e public)
      | inl (free, e) ↦
          let (m, kind, content) =
            final_public nodes message state context mode p (rw (← e) public) in
          record {
            in_public_mode = m;
            assisted =
                (pre_model_policy-allow_iff message state
                    (triage_of nodes message state context mode) mode (nodes.now Node.policy_gate)
                    (nodes.new_id Node.policy_gate)).0
                  (gate_allow nodes message state context mode queues.allowed);
            proposal = p;
            asked = queues.asked;
            published = publish nodes message state context mode p m kind free;
            sends_proposal = ap (λ (x : WorkflowDecision). x.content) e ∙ content;
          }
    ]

-- In observe mode no run queues an action, and in assist mode a queued action is a private note.
pub run_graph_modes :
    (nodes : WorkflowNodes) (message : NormalizedMessage) (state : ConversationState)
    (context : CatalogContext) (mode : AutomationMode) (s : WorkflowState) (d : WorkflowDecision)
    → run_graph nodes (graph_input message state context mode) ≡ ok s
    → s.workflow_decision ≡ some d
    → d.status ≡ AgentRunStatus.queued_action
    → (mode ≢ AutomationMode.observe)
      × (mode ≡ AutomationMode.assist → d.action_kind ≡ AgentActionKind.private_note)
unfolding graph_input
run_graph_modes nodes message state context mode s d h k q =
    let queues = run-Queues nodes message state context mode s d h k q in
    let p = queues.proposal in
    elim queues.decided [
      | inr (block, e) ↦
          in_public_mode_only nodes message state context mode d
            (blocked_queued nodes message state context _ _ _ d e q)
      | inl (free, e) ↦
          let (live, note) = final_modes nodes message state context mode p (rw (← e) q) in
          (live, λ assist. ap (λ (x : WorkflowDecision). x.action_kind) e ∙ note assist)
    ]
