-- ===== src/Ingress/Webhooks.antt =====
-- src/wootpilot/application/webhooks.py: HandleWebhookEvent. A delivery is what the translators of
-- integrations/chatwoot.py read from the payload, given the id of the stored event.
use Prim.Native.Nat.{ℕ}
use mathlib.Core.Bool.{Bool, true, false}
use mathlib.Core.Option.{Option, none, some}
use mathlib.Core.List.{[]}
use wootpilot.Prelude.Tests.{if◌then◌else◌}
use wootpilot.Prelude.Text.{Text, codes}
use wootpilot.Domain.Messages.{
  ChannelEvent, ConversationState, NormalizedMessage, is_customer_public_inbound,
}
use wootpilot.Domain.Outbound.{Result, ok, err, Failure, ◌>>=◌}
use wootpilot.Persistence.Rows.{AuditEventType, AuditRecordRow, Db, RawEventRow, RawEventStatus}
use wootpilot.Persistence.Repository.{
  flush_state, get_or_create_state, insert_audit_record, insert_message, insert_raw_event,
  row_to_state, update_raw_status,
}
use wootpilot.Support.Recording.{SupportWorkflow, run}
use wootpilot.Ingress.State.{channel_state, message_state}

-- The places that make an id or read the clock.
pub data Place : Type 0 where
  raw_event conversation_state update audit_record : Place

pub data WebhookResultStatus : Type 0 where
  processed ignored duplicate : WebhookResultStatus

pub record Delivery : Type 0 where
  pub provider_event_id : Text
  pub event_type : Text
  pub payload_hash : Text
  pub translate_message : Text → Result (Option NormalizedMessage)
  pub translate_channel_event : Text → Result (Option ChannelEvent)

pub record Webhooks : Type 0 where
  pub workflow : SupportWorkflow
  pub new_id : Place → Text
  pub now : Place → ℕ

-- What a request leaves: its answer, and the tables that are committed. A failure rolls back to the
-- last commit.
abbrev pub Handled : Type 0
Handled = Result WebhookResultStatus × Db

-- The route commits after a request that returns.
abbrev pub committed : (before : Db) → Result (WebhookResultStatus × Db) → Handled
committed before (ok (status, db)) = (ok status, db)
committed before (err e) = (err e, before)

abbrev pub continue : {A : Type 0} → (before : Db) → Result A → (A → Handled) → Handled
continue before (ok a) f = f a
continue before (err e) f = (err e, before)

module _ (env : Webhooks) where
  -- The labels and custom attributes of a payload are read here, and may have another shape.
  abbrev pub readable : Option Failure → Result (Unit {0})
  readable none = ok tt
  readable (some failure) = err failure

  -- _update_conversation_state
  unfoldable pub update_conversation_state :
      NormalizedMessage → Db → Result (ConversationState × Db)
  update_conversation_state message db = do
    found ←
        get_or_create_state db (env.new_id Place.conversation_state) message.tenant_id
          message.channel_id message.conversation_id (env.now Place.conversation_state)
    _ ← readable message.metadata.unreadable
    let row = message_state env.workflow.settings (env.now Place.update) message found.0
    state ← row_to_state row
    ok (state, flush_state found.1 row)

  -- _update_channel_state
  unfoldable pub update_channel_state : ChannelEvent → Db → Result (ConversationState × Db)
  update_channel_state event db = do
    found ←
        get_or_create_state db (env.new_id Place.conversation_state) event.tenant_id
          event.channel_id event.conversation_id (env.now Place.conversation_state)
    let row = channel_state (env.now Place.update) event found.0
    state ← row_to_state row
    ok (state, flush_state found.1 row)

  abbrev pub audit :
      (raw_event_id : Text) (normalized_message_id : Option Text)
      → AuditEventType
      → (summary : Text) → AuditRecordRow
  audit raw_event_id normalized_message_id event_type summary = record {
    id = env.new_id Place.audit_record;
    raw_event_id = some raw_event_id;
    normalized_message_id = normalized_message_id;
    agent_run_id = none;
    policy_decision_id = none;
    context_snapshot_ids = [];
    event_type = event_type;
    summary = summary;
    created_at = env.now Place.audit_record;
  }

  abbrev pub event_audit : (raw_id : Text) → AuditRecordRow
  event_audit raw_id =
      audit raw_id none AuditEventType.channel_state_updated
        (codes "Chatwoot conversation event updated safety state.")

  unfoldable pub ignore_raw_event : (raw_id : Text) → Db → Result (WebhookResultStatus × Db)
  ignore_raw_event raw_id db = do
    db ← insert_audit_record (update_raw_status db raw_id RawEventStatus.ignored) (
        audit raw_id none AuditEventType.webhook_ignored
          (codes "Chatwoot event did not translate to a customer message."))
    ok (WebhookResultStatus.ignored, db)

  unfoldable pub ignore_message :
      (raw_id : Text) → NormalizedMessage → Db → Result (WebhookResultStatus × Db)
  ignore_message raw_id message db = do
    db ← insert_audit_record (update_raw_status db raw_id RawEventStatus.ignored) (
        audit raw_id (some message.id) AuditEventType.message_ignored
          (codes "Message was stored but is not agentable."))
    ok (WebhookResultStatus.ignored, db)

  -- _handle_non_message_event, for what translate_channel_event returns
  unfoldable pub handle_channel_event :
      (raw_id : Text) → Option ChannelEvent → Db → Result (WebhookResultStatus × Db)
  unfolding ignore_raw_event update_channel_state
  handle_channel_event raw_id none db = ignore_raw_event raw_id db
  handle_channel_event raw_id (some event) db = do
    updated ← update_channel_state event db
    db ←
        insert_audit_record (update_raw_status updated.1 raw_id RawEventStatus.processed)
          (event_audit raw_id)
    ok (WebhookResultStatus.processed, db)

  -- From the commit of the ingress state on: `db` is durable whatever the workflow does.
  unfoldable pub run_workflow :
      (raw_id : Text) → NormalizedMessage → ConversationState → Db → Handled
  run_workflow raw_id message state db = committed db (
      run env.workflow message state db >>= λ done.
      ok (WebhookResultStatus.processed, update_raw_status done.1 raw_id RawEventStatus.processed))

  -- A message whose insertion and state update succeeded; `before` are the committed tables.
  unfoldable pub handle_stored :
      (before : Db) (raw_id : Text) (message : NormalizedMessage) (inserted : Bool)
      → ConversationState × Db
      → Handled
  unfolding ignore_message run_workflow
  handle_stored before raw_id message false (state, db) =
      (ok WebhookResultStatus.duplicate, update_raw_status db raw_id RawEventStatus.duplicate)
  handle_stored before raw_id message true (state, db) =
      if is_customer_public_inbound message
      then run_workflow raw_id message state db
      else committed before (ignore_message raw_id message db)

  unfoldable pub handle_message : (before : Db) (raw_id : Text) → NormalizedMessage → Db → Handled
  unfolding handle_stored update_conversation_state
  handle_message before raw_id message db = continue before (insert_message db message) λ stored.
      continue before (update_conversation_state stored.0 stored.2)
        λ updated. handle_stored before raw_id stored.0 stored.1 updated

  -- A delivery that is new, with the stored raw event's id.
  unfoldable pub handle_new : (before : Db) → Delivery → (raw_id : Text) → Db → Handled
  unfolding handle_message handle_channel_event
  handle_new before delivery raw_id db =
      continue before (delivery.translate_message raw_id) λ translated. elim translated [
        | none ↦
            continue before (delivery.translate_channel_event raw_id)
              λ event. committed before (handle_channel_event raw_id event db)
        | some message ↦ handle_message before raw_id message db
      ]

  abbrev pub raw_row : Delivery → RawEventRow
  raw_row delivery = record {
    id = env.new_id Place.raw_event;
    provider_event_id = delivery.provider_event_id;
    event_type = delivery.event_type;
    payload_hash = delivery.payload_hash;
    status = RawEventStatus.received;
    received_at = env.now Place.raw_event;
  }

  unfoldable pub handle : Delivery → Db → Handled
  unfolding handle_new
  handle delivery db = continue db (insert_raw_event db (raw_row delivery)) λ stored.
      elim stored.1 [
        | false ↦ (ok WebhookResultStatus.duplicate, stored.2)
        | true ↦ handle_new db delivery stored.0.id stored.2
      ]
