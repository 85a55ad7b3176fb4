-- ===== src/Domain/Rules.antt =====
-- src/wootpilot/domain/models/policy.py, runtime.py, proposals.py, workflow.py and outbound.py:
-- the vocabulary of policy, of model proposals and of workflow outcomes.
use Prim.Native.Nat.{ℕ}
use mathlib.Core.Bool.{Bool, true, false}
use mathlib.Core.Option.{Option}
use mathlib.Core.List.{List}
use wootpilot.Prelude.Text.{Text, codes}

pub data AutomationMode : Type 0 where
  observe assist public_reply : AutomationMode

abbrev pub is_public_reply : AutomationMode → Bool
is_public_reply AutomationMode.public_reply = true
is_public_reply _ = false

pub data AgentActionKind : Type 0 where
  no_action public_message private_note : AgentActionKind

abbrev pub is_public_message : AgentActionKind → Bool
is_public_message AgentActionKind.public_message = true
is_public_message _ = false

abbrev pub is_private_note : AgentActionKind → Bool
is_private_note AgentActionKind.private_note = true
is_private_note _ = false

abbrev pub kind_value : AgentActionKind → Text
kind_value AgentActionKind.no_action = codes "none"
kind_value AgentActionKind.public_message = codes "public_message"
kind_value AgentActionKind.private_note = codes "private_note"

-- `review` is declared and no code of the repository returns it.
pub data PolicyOutcome : Type 0 where
  allow block review : PolicyOutcome

abbrev pub is_block : PolicyOutcome → Bool
is_block PolicyOutcome.block = true
is_block _ = false

pub data PolicyStage : Type 0 where
  pre_model post_model : PolicyStage

pub data PolicyRule : Type 0 where
  ingress_customer_public_inbound_required conversation_not_replyable : PolicyRule
  conversation_resolved conversation_wootpilot_paused conversation_human_active : PolicyRule
  conversation_assigned_to_human conversation_superseded_by_new_customer_message : PolicyRule
  conversation_safety_state_missing conversation_id_mismatch channel_not_replyable : PolicyRule
  channel_resolved channel_wootpilot_paused channel_assigned_to_human : PolicyRule
  intent_human_requested model_no_proposal model_proposal_failed : PolicyRule
  public_no_internal_reasoning public_risk_requires_review : PolicyRule
  public_proposal_risk_requires_review public_price_requires_mentionable_snapshot : PolicyRule
  mode_public_reply_not_enabled content_empty unknown_action_kind : PolicyRule

-- item.value
unfoldable pub rule_value : PolicyRule → Text
rule_value PolicyRule.ingress_customer_public_inbound_required =
    codes "ingress.customer_public_inbound_required"
rule_value PolicyRule.conversation_not_replyable = codes "conversation.not_replyable"
rule_value PolicyRule.conversation_resolved = codes "conversation.resolved"
rule_value PolicyRule.conversation_wootpilot_paused = codes "conversation.wootpilot_paused"
rule_value PolicyRule.conversation_human_active = codes "conversation.human_active"
rule_value PolicyRule.conversation_assigned_to_human = codes "conversation.assigned_to_human"
rule_value PolicyRule.conversation_superseded_by_new_customer_message =
    codes "conversation.superseded_by_new_customer_message"
rule_value PolicyRule.conversation_safety_state_missing = codes "conversation.safety_state_missing"
rule_value PolicyRule.conversation_id_mismatch = codes "conversation.id_mismatch"
rule_value PolicyRule.channel_not_replyable = codes "channel.not_replyable"
rule_value PolicyRule.channel_resolved = codes "channel.resolved"
rule_value PolicyRule.channel_wootpilot_paused = codes "channel.wootpilot_paused"
rule_value PolicyRule.channel_assigned_to_human = codes "channel.assigned_to_human"
rule_value PolicyRule.intent_human_requested = codes "intent.human_requested"
rule_value PolicyRule.model_no_proposal = codes "model.no_proposal"
rule_value PolicyRule.model_proposal_failed = codes "model.proposal_failed"
rule_value PolicyRule.public_no_internal_reasoning = codes "public.no_internal_reasoning"
rule_value PolicyRule.public_risk_requires_review = codes "public.risk_requires_review"
rule_value PolicyRule.public_proposal_risk_requires_review =
    codes "public.proposal_risk_requires_review"
rule_value PolicyRule.public_price_requires_mentionable_snapshot =
    codes "public.price_requires_mentionable_snapshot"
rule_value PolicyRule.mode_public_reply_not_enabled = codes "mode.public_reply_not_enabled"
rule_value PolicyRule.content_empty = codes "content.empty"
rule_value PolicyRule.unknown_action_kind = codes "unknown_action_kind"

pub record TriageResult : Type 0 where
  pub should_invoke : Bool
  pub intent : Text
  pub risk_signals : List Text

-- `details` repeats the inputs for the audit and is not kept.
pub record PolicyDecision : Type 0 where
  pub id : Text
  pub stage : PolicyStage
  pub outcome : PolicyOutcome
  pub rule_ids : List PolicyRule
  pub created_at : ℕ

-- `confidence` is a float that only the audit and the traces show; it is not kept.
pub record AgentProposal : Type 0 where
  pub action_kind : AgentActionKind
  pub summary : Text
  pub public_message : Option Text
  pub private_note : Option Text
  pub risk_reasons : List Text
  pub context_snapshot_ids : List Text
  pub error_code : Option Text

pub record ModelProposalResult : Type 0 where
  pub proposal : Option AgentProposal
  pub retryable_error : Option Text
  pub permanent_error : Option Text

pub data AgentRunStatus : Type 0 where
  ignored proposed blocked_by_policy queued_action : AgentRunStatus
  sent_public_message sent_private_note failed : AgentRunStatus

abbrev pub is_queued_action : AgentRunStatus → Bool
is_queued_action AgentRunStatus.queued_action = true
is_queued_action _ = false

pub record WorkflowDecision : Type 0 where
  pub status : AgentRunStatus
  pub action_kind : AgentActionKind
  pub content : Option Text
  pub summary : Text
  pub rule_ids : List PolicyRule
  pub risk_reasons : List Text
