-- ===== src/Workflow/Decisions.antt =====
-- src/wootpilot/workflow/decisions.py: how final outcomes are shaped.
use mathlib.Core.Bool.{◌&&◌}
use mathlib.Core.Option.{Option, none, some}
use mathlib.Core.List.{List, [], ◌∷◌, ◌++◌, map}
use wootpilot.Prelude.Tests.{if◌then◌else◌}
use wootpilot.Prelude.Text.{Text, codes, join, sorted, dedup}
use wootpilot.Domain.Rules.{
  AutomationMode, is_public_reply, AgentActionKind, is_public_message, AgentProposal,
  AgentRunStatus, PolicyDecision, PolicyRule, rule_value, TriageResult, WorkflowDecision,
}

unfoldable pub non_customer_turn_decision : WorkflowDecision
non_customer_turn_decision = record {
  status = AgentRunStatus.ignored;
  action_kind = AgentActionKind.no_action;
  content = none;
  summary = codes "Message is not an eligible public inbound customer turn.";
  rule_ids = PolicyRule.ingress_customer_public_inbound_required ∷ [];
  risk_reasons = [];
}

unfoldable pub pre_model_policy_blocked_decision : PolicyDecision → TriageResult → WorkflowDecision
pre_model_policy_blocked_decision decision triage = record {
  status = AgentRunStatus.blocked_by_policy;
  action_kind = AgentActionKind.no_action;
  content = none;
  summary = codes "Pre-model policy blocked the workflow.";
  rule_ids = decision.rule_ids;
  risk_reasons = triage.risk_signals;
}

-- `error or "unknown"`
abbrev error_or_unknown : Option Text → Text
error_or_unknown none = codes "unknown"
error_or_unknown (some []) = codes "unknown"
error_or_unknown (some (c ∷ t)) = c ∷ t

unfoldable pub model_proposal_failed_decision : Option Text → WorkflowDecision
model_proposal_failed_decision error = record {
  status = AgentRunStatus.failed;
  action_kind = AgentActionKind.no_action;
  content = none;
  summary = codes "Model proposal failed.";
  rule_ids = PolicyRule.model_proposal_failed ∷ [];
  risk_reasons = error_or_unknown error ∷ [];
}

-- `proposal.risk_reasons if proposal else []`
abbrev reasons_of : Option AgentProposal → List Text
reasons_of none = []
reasons_of (some p) = p.risk_reasons

unfoldable pub public_reply_review_decision :
    Option AgentProposal → PolicyDecision → TriageResult → (note : Text) → WorkflowDecision
public_reply_review_decision proposal decision triage note = record {
  status = AgentRunStatus.queued_action;
  action_kind = AgentActionKind.private_note;
  content = some note;
  summary = codes "Public reply requires human review.";
  rule_ids = decision.rule_ids;
  risk_reasons = triage.risk_signals ++ reasons_of proposal;
}

unfoldable pub post_model_policy_blocked_decision :
    Option AgentProposal → PolicyDecision → WorkflowDecision
post_model_policy_blocked_decision proposal decision = record {
  status = AgentRunStatus.blocked_by_policy;
  action_kind = AgentActionKind.no_action;
  content = none;
  summary = codes "Post-model policy blocked the proposed action.";
  rule_ids = decision.rule_ids;
  risk_reasons = reasons_of proposal;
}

unfoldable pub observe_decision : AgentProposal → WorkflowDecision
observe_decision proposal = record {
  status = AgentRunStatus.proposed;
  action_kind = AgentActionKind.no_action;
  content = none;
  summary = proposal.summary;
  rule_ids = [];
  risk_reasons = proposal.risk_reasons;
}

-- `a or b` on optional texts, with a text last.
abbrev or_text : Option Text → Text → Text
or_text none t = t
or_text (some []) t = t
or_text (some (c ∷ s)) t = c ∷ s

unfoldable pub private_note_decision : AgentProposal → WorkflowDecision
private_note_decision proposal = record {
  status = AgentRunStatus.queued_action;
  action_kind = AgentActionKind.private_note;
  content = some (or_text proposal.private_note (or_text proposal.public_message proposal.summary));
  summary = proposal.summary;
  rule_ids = [];
  risk_reasons = proposal.risk_reasons;
}

unfoldable pub public_message_decision : AgentProposal → WorkflowDecision
public_message_decision proposal = record {
  status = AgentRunStatus.queued_action;
  action_kind = AgentActionKind.public_message;
  content = proposal.public_message;
  summary = proposal.summary;
  rule_ids = [];
  risk_reasons = proposal.risk_reasons;
}

unfoldable pub missing_model_proposal_decision : WorkflowDecision
missing_model_proposal_decision = record {
  status = AgentRunStatus.failed;
  action_kind = AgentActionKind.no_action;
  content = none;
  summary = codes "No proposal was available after validation.";
  rule_ids = PolicyRule.model_no_proposal ∷ [];
  risk_reasons = [];
}

-- sorted({rules} | {signals} | {risk reasons})
unfoldable pub review_reasons : AgentProposal → List PolicyRule → TriageResult → List Text
review_reasons proposal rule_ids triage =
    sorted (dedup (map rule_value rule_ids ++ (triage.risk_signals ++ proposal.risk_reasons)))

-- The optional third line of the note.
unfoldable pub review_lines : List Text → List Text
review_lines [] = []
review_lines (r ∷ rs) = (codes "Review reasons: " ++ join (codes ", ") (r ∷ rs)) ∷ []

-- "\n".join(lines); the first line is a constant of the source.
unfoldable pub public_reply_review_note :
    Option AgentProposal → AutomationMode → List PolicyRule → TriageResult → Option Text
unfolding review_lines
public_reply_review_note none automation_mode rule_ids triage = none
public_reply_review_note (some proposal) automation_mode rule_ids triage =
    if is_public_reply automation_mode && is_public_message proposal.action_kind
    then some (
        join (10 ∷ []) (
          codes "WootPilot did not send a public reply because this turn needs human review."
          ∷ (codes "Summary: " ++ proposal.summary)
          ∷ review_lines (review_reasons proposal rule_ids triage)))
    else none
