-- ===== src/Ingress/Events.antt =====
-- application/webhooks.py and workflow.py: what each operation does to the table of raw events.
use mathlib.Core.Path.{◌≡◌, refl}
use mathlib.Core.Bool.{Bool}
use mathlib.Core.List.{List, [], ◌∷◌, map}
use native.Mathlib.Omega.{arith}
use wootpilot.Prelude.Tests.{if◌then◌else◌}
use wootpilot.Prelude.Lists.{any}
use wootpilot.Prelude.Text.{Text, str_eq}
use wootpilot.Domain.Messages.{ChannelEvent, ConversationState, NormalizedMessage}
use wootpilot.Domain.Rules.{WorkflowDecision}
use wootpilot.Domain.Outbound.{ok}
use wootpilot.Persistence.Rows.{Db, RawEventRow, RawEventStatus}
use wootpilot.Persistence.Repository.{
  add_row, flush_state, get_or_create_state, insert_agent_run, insert_audit_record,
  insert_context_snapshot, insert_message, insert_policy_decision,
}
use wootpilot.Persistence.Queue.{insert_outbound_action}
use wootpilot.Support.Recording.{
  SupportWorkflow, catalog_snapshot_id, insert_policy, load_catalog_context, queue_action,
  queue_decision, record_decision, record_result, run,
}
use wootpilot.Ingress.Webhooks.{Webhooks, update_channel_state, update_conversation_state}

-- The event id of a delivery is stored.
abbrev pub knows : Text → List RawEventRow → Bool
knows key rows = any (λ r. str_eq key r.provider_event_id) rows

pub knows-status :
    (key id : Text) (status : RawEventStatus) (rows : List RawEventRow)
    → knows key (map (λ r. if str_eq id r.id then record r { status = status } else r) rows)
      ≡ knows key rows
unfolding any
knows-status key id status [] = refl
knows-status key id status (r ∷ rows) = ground (arith, knows-status key id status rows)

pub run-events :
    (env : SupportWorkflow) (message : NormalizedMessage) (state : ConversationState)
    (d : WorkflowDecision) (db db' : Db)
    → run env message state db ≡ ok (d, db')
    → db'.raw_events ≡ db.raw_events
unfolding run record_result record_decision insert_agent_run insert_policy insert_policy_decision
    insert_audit_record add_row queue_decision queue_action insert_outbound_action
    catalog_snapshot_id load_catalog_context insert_context_snapshot
run-events env message state d db db' h = ground arith

module _ (env : Webhooks) where
  pub state-events :
      (message : NormalizedMessage) (s : ConversationState) (db db' : Db)
      → update_conversation_state env message db ≡ ok (s, db')
      → db'.raw_events ≡ db.raw_events
  unfolding update_conversation_state get_or_create_state flush_state
  state-events message s db db' h = ground arith

  pub channel-events :
      (event : ChannelEvent) (s : ConversationState) (db db' : Db)
      → update_channel_state env event db ≡ ok (s, db')
      → db'.raw_events ≡ db.raw_events
  unfolding update_channel_state get_or_create_state flush_state
  channel-events event s db db' h = ground arith

  pub stored-events :
      (message stored : NormalizedMessage) (new : Bool) (db db' : Db)
      → insert_message db message ≡ ok (stored, new, db')
      → db'.raw_events ≡ db.raw_events
  unfolding insert_message
  stored-events message stored new db db' h = ground arith
