-- ===== src/Persistence/Rows.antt =====
-- src/wootpilot/persistence/models.py: the tables. An enum column holds the enum's value, which
-- the repository writes and reads back, and is kept as the enum; the status of a conversation is
-- copied from provider payloads unchecked, and is kept as text. JSON columns that no code of the
-- service reads back (payloads, policy details, audit details, model metadata) are left out.
use Prim.Native.Nat.{ℕ}
use mathlib.Core.Bool.{Bool}
use mathlib.Core.Option.{Option}
use mathlib.Core.List.{List, []}
use wootpilot.Prelude.Text.{Text}
use wootpilot.Domain.Messages.{NormalizedMessage}
use wootpilot.Domain.Catalog.{CatalogContext}
use wootpilot.Domain.Rules.{
  AutomationMode, AgentActionKind, AgentRunStatus, PolicyOutcome, PolicyRule, PolicyStage,
  WorkflowDecision,
}
use wootpilot.Domain.Outbound.{OutboundActionStatus, SafetyContext}

pub data RawEventStatus : Type 0 where
  received processed ignored duplicate : RawEventStatus

pub data AuditEventType : Type 0 where
  channel_state_updated webhook_ignored message_ignored support_workflow_completed : AuditEventType

-- One provider, so that the unique pair (provider, provider_event_id) is the second part.
pub record RawEventRow : Type 0 where
  pub id : Text
  pub provider_event_id : Text
  pub event_type : Text
  pub payload_hash : Text
  pub status : RawEventStatus
  pub received_at : ℕ

pub record ConversationStateRow : Type 0 where
  pub id : Text
  pub tenant_id : Text
  pub channel_id : Text
  pub conversation_id : Text
  pub human_active_until : Option ℕ
  pub last_human_public_message_at : Option ℕ
  pub last_customer_message_at : Option ℕ
  pub assigned_agent_id : Option Text
  pub assigned_team_id : Option Text
  pub status : Option Text
  pub replyable : Bool
  pub paused : Bool
  pub updated_at : ℕ

pub record ContextSnapshotRow : Type 0 where
  pub id : Text
  pub tenant_id : Text
  pub conversation_id : Text
  pub snapshot : CatalogContext
  pub created_at : ℕ

pub record AgentRunRow : Type 0 where
  pub id : Text
  pub normalized_message_id : Text
  pub raw_event_id : Text
  pub automation_mode : AutomationMode
  pub status : AgentRunStatus
  pub workflow_decision : WorkflowDecision
  pub created_at : ℕ

pub record PolicyDecisionRow : Type 0 where
  pub id : Text
  pub agent_run_id : Option Text
  pub normalized_message_id : Text
  pub stage : PolicyStage
  pub outcome : PolicyOutcome
  pub rule_ids : List PolicyRule
  pub created_at : ℕ

pub record OutboundActionRow : Type 0 where
  pub id : Text
  pub agent_run_id : Text
  pub tenant_id : Text
  pub channel_id : Text
  pub conversation_id : Text
  pub source_message_id : Text
  pub action_kind : AgentActionKind
  pub content : Text
  pub safety_context : SafetyContext
  pub status : OutboundActionStatus
  pub idempotency_key : Text
  pub provider_message_id : Option Text
  pub failure_reason : Option Text
  pub attempt_count : ℕ
  pub next_attempt_at : Option ℕ
  pub error_code : Option Text
  pub created_at : ℕ
  pub updated_at : ℕ

pub record AuditRecordRow : Type 0 where
  pub id : Text
  pub raw_event_id : Option Text
  pub normalized_message_id : Option Text
  pub agent_run_id : Option Text
  pub policy_decision_id : Option Text
  pub context_snapshot_ids : List Text
  pub event_type : AuditEventType
  pub summary : Text
  pub created_at : ℕ

-- The tables as one session sees them, each in the order of insertion.
pub record Db : Type 0 where
  pub raw_events : List RawEventRow
  pub conversation_messages : List NormalizedMessage
  pub conversation_states : List ConversationStateRow
  pub context_snapshots : List ContextSnapshotRow
  pub agent_runs : List AgentRunRow
  pub policy_decisions : List PolicyDecisionRow
  pub outbound_actions : List OutboundActionRow
  pub audit_records : List AuditRecordRow

abbrev pub empty_db : Db
empty_db = record {
  raw_events = [];
  conversation_messages = [];
  conversation_states = [];
  context_snapshots = [];
  agent_runs = [];
  policy_decisions = [];
  outbound_actions = [];
  audit_records = [];
}
