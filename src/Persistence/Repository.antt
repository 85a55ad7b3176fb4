-- ===== src/Persistence/Repository.antt =====
-- src/wootpilot/persistence/repositories.py: Repository, except the outbound queue. A method takes
-- the session's tables and returns them; IntegrityError and ValueError are results.
use Prim.Native.Nat.{ℕ}
use mathlib.Core.Bool.{Bool, true, false, ◌&&◌}
use mathlib.Core.Option.{Option, none, some}
use mathlib.Core.List.{List, [], ◌∷◌, ◌++◌, map}
use wootpilot.Prelude.Tests.{if◌then◌else◌}
use wootpilot.Prelude.Lists.{any, find?}
use wootpilot.Prelude.Text.{Text, codes, str_eq}
use wootpilot.Domain.Messages.{NormalizedMessage, ConversationState, ConversationStatus}
use wootpilot.Domain.Outbound.{Result, ok, err, Failure, ◌>>=◌}
use wootpilot.Persistence.Rows.{
  RawEventStatus, RawEventRow, ConversationStateRow, ContextSnapshotRow, AgentRunRow,
  PolicyDecisionRow, AuditRecordRow, Db,
}

-- ConversationStatus(value)
unfoldable pub status_of_text : Text → Result ConversationStatus
status_of_text t =
    if str_eq t (codes "open")
    then ok ConversationStatus.open_status
    else if str_eq t (codes "pending")
    then ok ConversationStatus.pending
    else if str_eq t (codes "resolved")
    then ok ConversationStatus.resolved
    else err Failure.value_error

-- `ConversationStatus(row.status) if row.status else None`
unfoldable pub row_status : Option Text → Result (Option ConversationStatus)
row_status none = ok none
row_status (some []) = ok none
row_status (some (c ∷ t)) = status_of_text (c ∷ t) >>= λ s. ok (some s)

unfoldable pub row_to_state : ConversationStateRow → Result ConversationState
row_to_state row = row_status row.status >>= λ s. ok (record {
  id = row.id;
  tenant_id = row.tenant_id;
  channel_id = row.channel_id;
  conversation_id = row.conversation_id;
  human_active_until = row.human_active_until;
  last_human_public_message_at = row.last_human_public_message_at;
  last_customer_message_at = row.last_customer_message_at;
  assigned_agent_id = row.assigned_agent_id;
  assigned_team_id = row.assigned_team_id;
  status = s;
  replyable = row.replyable;
  paused = row.paused;
  updated_at = row.updated_at;
})

-- The row of a unique pair, or IntegrityError where only the primary key clashes.
unfoldable pub insert_raw_event : Db → RawEventRow → Result (RawEventRow × Bool × Db)
insert_raw_event db row =
    elim (find? (λ r. str_eq row.provider_event_id r.provider_event_id) db.raw_events) [
      | some existing ↦ ok (existing, false, db)
      | none ↦
          if any (λ r. str_eq row.id r.id) db.raw_events
          then err Failure.integrity_error
          else ok (row, true, record db { raw_events = db.raw_events ++ row ∷ [] })
    ]

unfoldable pub update_raw_status : Db → Text → RawEventStatus → Db
update_raw_status db raw_event_id status = record db {
  raw_events =
      map (λ r. if str_eq raw_event_id r.id then record r { status = status } else r) db.raw_events;
}

-- The unique triple of a message.
unfoldable pub same_message : NormalizedMessage → NormalizedMessage → Bool
same_message a b =
    str_eq a.tenant_id b.tenant_id
    && str_eq a.channel_id b.channel_id
    && str_eq a.message_id b.message_id

unfoldable pub insert_message : Db → NormalizedMessage → Result (NormalizedMessage × Bool × Db)
insert_message db message = elim (find? (same_message message) db.conversation_messages) [
  | some existing ↦ ok (existing, false, db)
  | none ↦
      if any (λ m. str_eq message.id m.id) db.conversation_messages
      then err Failure.integrity_error
      else ok (
        message,
        true,
        record db { conversation_messages = db.conversation_messages ++ message ∷ [] },
      )
]

unfoldable pub is_state_of :
    (tenant_id channel_id conversation_id : Text) → ConversationStateRow → Bool
is_state_of tenant_id channel_id conversation_id row =
    str_eq tenant_id row.tenant_id
    && str_eq channel_id row.channel_id
    && str_eq conversation_id row.conversation_id

abbrev pub new_state_row :
    (id tenant_id channel_id conversation_id : Text) (now : ℕ) → ConversationStateRow
new_state_row id tenant_id channel_id conversation_id now = record {
  id = id;
  tenant_id = tenant_id;
  channel_id = channel_id;
  conversation_id = conversation_id;
  human_active_until = none;
  last_human_public_message_at = none;
  last_customer_message_at = none;
  assigned_agent_id = none;
  assigned_team_id = none;
  status = none;
  replyable = true;
  paused = false;
  updated_at = now;
}

unfoldable pub get_or_create_state :
    Db
    → (id tenant_id channel_id conversation_id : Text) (now : ℕ)
    → Result (ConversationStateRow × Db)
get_or_create_state db id tenant_id channel_id conversation_id now =
    elim (find? (is_state_of tenant_id channel_id conversation_id) db.conversation_states) [
      | some row ↦ ok (row, db)
      | none ↦
          let row = new_state_row id tenant_id channel_id conversation_id now in
          if any (λ r. str_eq id r.id) db.conversation_states
          then err Failure.integrity_error
          else ok (row, record db { conversation_states = db.conversation_states ++ row ∷ [] })
    ]

-- session.flush() after the caller has assigned to the row's attributes.
unfoldable pub flush_state : Db → ConversationStateRow → Db
flush_state db row = record db {
  conversation_states = map (λ r. if str_eq row.id r.id then row else r) db.conversation_states;
}

unfoldable pub get_conversation_state :
    Db → (tenant_id channel_id conversation_id : Text) → Result (Option ConversationState)
get_conversation_state db tenant_id channel_id conversation_id =
    elim (find? (is_state_of tenant_id channel_id conversation_id) db.conversation_states) [
      | none ↦ ok none
      | some row ↦ row_to_state row >>= λ s. ok (some s)
    ]

-- session.add(row); flush(): the primary key must be new.
unfoldable pub add_row : {A : Type 0} (key : A → Text) → A → List A → Result (List A)
add_row key row rows =
    if any (λ r. str_eq (key row) (key r)) rows
    then err Failure.integrity_error
    else ok (rows ++ row ∷ [])

unfoldable pub insert_context_snapshot : Db → ContextSnapshotRow → Result Db
insert_context_snapshot db row =
    add_row (λ (r : ContextSnapshotRow). r.id) row db.context_snapshots >>= λ rows.
    ok (record db { context_snapshots = rows })

unfoldable pub insert_agent_run : Db → AgentRunRow → Result Db
insert_agent_run db row = add_row (λ (r : AgentRunRow). r.id) row db.agent_runs >>= λ rows.
    ok (record db { agent_runs = rows })

unfoldable pub insert_policy_decision : Db → PolicyDecisionRow → Result Db
insert_policy_decision db row =
    add_row (λ (r : PolicyDecisionRow). r.id) row db.policy_decisions >>= λ rows.
    ok (record db { policy_decisions = rows })

unfoldable pub insert_audit_record : Db → AuditRecordRow → Result Db
insert_audit_record db row = add_row (λ (r : AuditRecordRow). r.id) row db.audit_records >>= λ rows.
    ok (record db { audit_records = rows })
