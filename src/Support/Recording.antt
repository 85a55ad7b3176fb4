-- ===== src/Support/Recording.antt =====
-- src/wootpilot/application/workflow.py: RunCustomerSupportWorkflow. The catalog connector is a
-- parameter. The stored snapshot leaves out the snapshot's id. A
-- failure leaves no tables: the caller's session is rolled back.
use Prim.Native.Nat.{ℕ}
use mathlib.Core.Bool.{◌&&◌, not}
use mathlib.Core.Option.{Option, none, some}
use mathlib.Core.List.{[], ◌∷◌, ◌++◌, map}
use wootpilot.Prelude.Tests.{if◌then◌else◌}
use wootpilot.Prelude.Text.{Text, codes}
use wootpilot.Domain.Messages.{NormalizedMessage, ConversationState, truthy?}
use wootpilot.Domain.Catalog.{CatalogContext, failed_catalog}
use wootpilot.Domain.Rules.{
  AgentActionKind, is_public_reply, kind_value, PolicyDecision, rule_value, is_queued_action,
  WorkflowDecision,
}
use wootpilot.Domain.Outbound.{OutboundActionStatus, Result, ok, err, Failure, ◌>>=◌, Settings}
use wootpilot.Policy.Rules.{or_empty}
use wootpilot.Workflow.Graph.{WorkflowState, WorkflowNodes, graph_input, run_graph}
use wootpilot.Persistence.Rows.{AuditEventType, OutboundActionRow, AuditRecordRow, Db}
use wootpilot.Persistence.Repository.{
  insert_context_snapshot, insert_agent_run, insert_policy_decision, insert_audit_record,
}
use wootpilot.Persistence.Queue.{insert_outbound_action}

-- The rows that a run makes. The clock is read and an id made for each once.
pub data Made : Type 0 where
  snapshot agent_run action audit_record : Made

-- CatalogContextError is the connector's controlled failure.
pub data SearchAnswer : Type 0 where
  found : CatalogContext → SearchAnswer
  catalog_context_error : SearchAnswer
  raised : Failure → SearchAnswer

pub record SupportWorkflow : Type 0 where
  pub settings : Settings
  pub nodes : WorkflowNodes
  pub search : Text → SearchAnswer
  pub new_id : Made → Text
  pub now : Made → ℕ

-- The context of an answer to catalog.search.
abbrev pub context_of : Text → SearchAnswer → Result CatalogContext
context_of content (SearchAnswer.found context) = ok context
context_of content SearchAnswer.catalog_context_error = ok (failed_catalog content)
context_of content (SearchAnswer.raised e) = err e

-- tenant:channel:conversation:message:kind
unfoldable pub idempotency_key : NormalizedMessage → AgentActionKind → Text
idempotency_key message kind =
    message.tenant_id
    ++ (codes ":"
        ++ (message.channel_id
            ++ (codes ":"
                ++ (message.conversation_id
                    ++ (codes ":" ++ (message.message_id ++ (codes ":" ++ kind_value kind)))))))

unfoldable pub workflow_thread_id : NormalizedMessage → Text
workflow_thread_id message =
    codes "tenant:"
    ++ (message.tenant_id
        ++ (codes ":channel:"
            ++ (message.channel_id
                ++ (codes ":conversation:"
                    ++ (message.conversation_id ++ (codes ":message:" ++ message.message_id))))))

unfoldable pub catalog_snapshot_id : CatalogContext → Result Text
catalog_snapshot_id context = elim context.snapshot_id [
  | none ↦ err Failure.runtime_error
  | some id ↦ ok id
]

-- `post_policy or pre_policy`
abbrev pub terminal_policy : Option PolicyDecision → Option PolicyDecision → Option PolicyDecision
terminal_policy pre (some post) = some post
terminal_policy pre none = pre

-- `for policy in policies`, where a missing decision is left out
unfoldable pub insert_policy :
    (agent_run_id : Text) → NormalizedMessage → Option PolicyDecision → Db → Result Db
insert_policy agent_run_id message none db = ok db
insert_policy agent_run_id message (some policy) db = insert_policy_decision db (record {
  id = policy.id;
  agent_run_id = some agent_run_id;
  normalized_message_id = message.id;
  stage = policy.stage;
  outcome = policy.outcome;
  rule_ids = policy.rule_ids;
  created_at = policy.created_at;
})

module _ (env : SupportWorkflow) where
  unfoldable pub load_catalog_context : NormalizedMessage → Db → Result (CatalogContext × Db)
  load_catalog_context message db = do
    answer ← context_of message.content (env.search message.content)
    let snapshot_id = env.new_id Made.snapshot
    let context = record answer { snapshot_id = some snapshot_id }
    db ← insert_context_snapshot db (record {
      id = snapshot_id;
      tenant_id = message.tenant_id;
      conversation_id = message.conversation_id;
      snapshot = record answer { snapshot_id = none };
      created_at = env.now Made.snapshot;
    })
    ok (context, db)

  -- The row of a decision.
  unfoldable pub action_row :
      (agent_run_id : Text)
      → NormalizedMessage
      → WorkflowDecision
      → CatalogContext
      → OutboundActionRow
  action_row agent_run_id message decision context = record {
    id = env.new_id Made.action;
    agent_run_id = agent_run_id;
    tenant_id = message.tenant_id;
    channel_id = message.channel_id;
    conversation_id = message.conversation_id;
    source_message_id = message.message_id;
    action_kind = decision.action_kind;
    content = or_empty decision.content;
    safety_context = record {
      catalog_context = some context;
      workflow_rule_ids = map rule_value decision.rule_ids;
      workflow_risk_reasons = decision.risk_reasons;
    };
    status = OutboundActionStatus.queued;
    idempotency_key = idempotency_key message decision.action_kind;
    provider_message_id = none;
    failure_reason = none;
    attempt_count = 0;
    next_attempt_at = none;
    error_code = none;
    created_at = env.now Made.action;
    updated_at = env.now Made.action;
  }

  unfoldable pub queue_action :
      (agent_run_id : Text) → NormalizedMessage → WorkflowDecision → CatalogContext → Db → Db
  queue_action agent_run_id message decision context db = elim decision.action_kind [
    | AgentActionKind.no_action ↦ db
    | AgentActionKind.public_message ↦
        if not (is_public_reply env.settings.automation_mode)
        then db
        else (insert_outbound_action db (action_row agent_run_id message decision context)).1
    | AgentActionKind.private_note ↦
        (insert_outbound_action db (action_row agent_run_id message decision context)).1
  ]

  unfoldable pub queue_decision :
      (agent_run_id : Text) → NormalizedMessage → WorkflowDecision → CatalogContext → Db → Db
  queue_decision agent_run_id message decision context db =
      if is_queued_action decision.status && truthy? decision.content
      then queue_action agent_run_id message decision context db
      else db

  unfoldable pub audit_row :
      (agent_run_id snapshot_id : Text)
      → NormalizedMessage
      → WorkflowDecision
      → (terminal_policy_id : Option Text) → AuditRecordRow
  audit_row agent_run_id snapshot_id message decision terminal_policy_id = record {
    id = env.new_id Made.audit_record;
    raw_event_id = some message.raw_event_id;
    normalized_message_id = some message.id;
    agent_run_id = some agent_run_id;
    policy_decision_id = terminal_policy_id;
    context_snapshot_ids = snapshot_id ∷ [];
    event_type = AuditEventType.support_workflow_completed;
    summary = decision.summary;
    created_at = env.now Made.audit_record;
  }

  -- The records of a run that has reached a decision.
  unfoldable pub record_decision :
      NormalizedMessage
      → CatalogContext
      → WorkflowState
      → WorkflowDecision
      → Db
      → Result (WorkflowDecision × Db)
  record_decision message context result decision db = do
    let agent_run_id = env.new_id Made.agent_run
    db ← insert_agent_run db (record {
      id = agent_run_id;
      normalized_message_id = message.id;
      raw_event_id = message.raw_event_id;
      automation_mode = env.settings.automation_mode;
      status = decision.status;
      workflow_decision = decision;
      created_at = env.now Made.agent_run;
    })
    db ← insert_policy agent_run_id message result.pre_model_policy_decision db
    db ← insert_policy agent_run_id message result.post_model_policy_decision db
    let db = queue_decision agent_run_id message decision context db
    snapshot_id ← catalog_snapshot_id context
    let terminal =
        terminal_policy result.pre_model_policy_decision result.post_model_policy_decision
    db ← insert_audit_record db (
        audit_row agent_run_id snapshot_id message decision
          (elim terminal [ none ↦ none | some policy ↦ some policy.id ]))
    ok (decision, db)

  -- result["workflow_decision"]
  unfoldable pub record_result :
      NormalizedMessage → CatalogContext → WorkflowState → Db → Result (WorkflowDecision × Db)
  record_result message context result db = elim result.workflow_decision [
    | none ↦ err (Failure.unexpected (codes "KeyError"))
    | some decision ↦ record_decision message context result decision db
  ]

  unfoldable pub run : NormalizedMessage → ConversationState → Db → Result (WorkflowDecision × Db)
  run message state db = do
    loaded ← load_catalog_context message db
    result ← run_graph env.nodes (graph_input message state loaded.0 env.settings.automation_mode)
    record_result message loaded.0 result loaded.1
