-- ===== src/Workflow/Review.antt =====
-- src/wootpilot/workflow/nodes.py and decisions.py: the note for review in place of a blocked public
-- reply.
use mathlib.Core.Path.{◌≡◌, refl, subst, ◌∙◌, ap}
use mathlib.Core.Bool.{true}
use mathlib.Core.Option.{Option, some}
use wootpilot.Prelude.Text.{Text, join}
use wootpilot.Domain.Rules.{
  AutomationMode, AgentActionKind, AgentProposal, AgentRunStatus, is_block, PolicyDecision,
  TriageResult, WorkflowDecision,
}
use wootpilot.Domain.Outbound.{ok}
use wootpilot.Policy.Rules.{validate_proposal}
use wootpilot.Workflow.Decisions.{
  public_reply_review_decision, review_reasons, public_reply_review_note,
}
use wootpilot.Workflow.Graph.{Node, WorkflowState, WorkflowNodes, blocked_decision, run_node}

-- For one policy decision, the decision of a blocked turn.
blocked_decision-hides_draft :
    (nodes : WorkflowNodes) (s : WorkflowState) (p : AgentProposal) (triage : TriageResult)
    (decision : PolicyDecision) (draft private : Option Text)
    → s.automation_mode ≡ AutomationMode.public_reply
    → p.action_kind ≡ AgentActionKind.public_message
    → let made = blocked_decision nodes (record s { agent_proposal = some p }) triage decision in
      (made.status ≡ AgentRunStatus.queued_action)
      × (made.action_kind ≡ AgentActionKind.private_note)
      × (blocked_decision nodes
            (record s {
              agent_proposal = some (record p { public_message = draft; private_note = private });
            })
            triage
            decision
          ≡ made)
unfolding blocked_decision public_reply_review_note public_reply_review_decision review_reasons join
blocked_decision-hides_draft nodes s p triage decision draft private m k =
    (rw (m, k, blocked_decision), rw (m, k, blocked_decision), rw (m, k, blocked_decision))

module _ (nodes : WorkflowNodes) (s : WorkflowState) (triage : TriageResult) where
  abbrev pub with_proposal : AgentProposal → WorkflowState
  with_proposal p = record s { agent_proposal = some p }

  -- What policy decides of a proposal in this state.
  abbrev pub verdict : AgentProposal → PolicyDecision
  verdict p =
      validate_proposal nodes.unicode (some p) s.automation_mode triage s.catalog_context
        (nodes.now Node.validate_outbound_action) (nodes.new_id Node.validate_outbound_action)

  -- The last node of the graph decides this for a proposal.
  abbrev pub DecidesOn : AgentProposal → WorkflowDecision → Type 0
  DecidesOn p d =
      (s' : WorkflowState) × (run_node nodes Node.validate_outbound_action (with_proposal p)
        ≡ ok (s', Node.end))
      × (s'.workflow_decision ≡ some d)

  same_verdict :
      (p p' : AgentProposal) → (verdict p').rule_ids ≡ (verdict p).rule_ids → verdict p' ≡ verdict p
  unfolding validate_proposal
  same_verdict p p' h = rw h refl

  blocked-DecidesOn :
      (p : AgentProposal)
      → s.triage_result ≡ some triage
      → is_block (verdict p).outcome ≡ true
      → DecidesOn p (blocked_decision nodes (with_proposal p) triage (verdict p))
  unfolding run_node
  blocked-DecidesOn p known blocked = (
    record (with_proposal p) {
      post_model_policy_decision = some (verdict p);
      workflow_decision = some (blocked_decision nodes (with_proposal p) triage (verdict p));
    },
    rw (known, blocked) refl,
    refl,
  )

-- In public_reply mode, a public proposal that the last checks block is replaced by a private note
-- for review, and its public draft and private note show in that decision at most through the rules
-- that they break: another draft and note that break the same rules leave the same decision.
pub run_node-hides_draft :
    (nodes : WorkflowNodes) (s : WorkflowState) (triage : TriageResult) (p : AgentProposal)
    (draft private : Option Text)
    → s.automation_mode ≡ AutomationMode.public_reply
    → s.triage_result ≡ some triage
    → p.action_kind ≡ AgentActionKind.public_message
    → is_block (verdict nodes s triage p).outcome ≡ true
    → (verdict nodes s triage
        (record p { public_message = draft; private_note = private })).rule_ids
      ≡ (verdict nodes s triage p).rule_ids
    → (d : WorkflowDecision) × (d.status ≡ AgentRunStatus.queued_action)
      × (d.action_kind ≡ AgentActionKind.private_note)
      × DecidesOn nodes s triage p d
      × DecidesOn nodes s triage (record p { public_message = draft; private_note = private }) d
run_node-hides_draft nodes s triage p draft private mode known public blocked same_rules =
    let p' = record p { public_message = draft; private_note = private } in
    let same = same_verdict nodes s triage p p' same_rules in
    let (queued, noted, hidden) =
      blocked_decision-hides_draft nodes s p triage (verdict nodes s triage p) draft private mode
        public in
    let other =
      blocked-DecidesOn nodes s triage p' known
        (ap (λ (d : PolicyDecision). is_block d.outcome) same ∙ blocked) in
    let unchanged =
      ap (λ (v : PolicyDecision). blocked_decision nodes (with_proposal nodes s triage p') triage v)
        same
      ∙ hidden in
    (
      blocked_decision nodes (with_proposal nodes s triage p) triage (verdict nodes s triage p),
      queued,
      noted,
      blocked-DecidesOn nodes s triage p known blocked,
      subst (λ (d : WorkflowDecision). DecidesOn nodes s triage p' d) unchanged other,
    )
