-- ===== src/Ingress/Quiet.antt =====
-- application/webhooks.py, handle: deliveries that start no turn of the agent.
use mathlib.Core.Path.{◌≡◌, refl, ◌∙◌, ap}
use mathlib.Core.Bool.{Bool, true, false}
use mathlib.Core.Option.{Option, none, some}
use native.Mathlib.Omega.{arith}
use wootpilot.Prelude.Text.{Text}
use wootpilot.Domain.Messages.{
  ChannelEvent, ConversationState, NormalizedMessage, is_customer_public_inbound,
}
use wootpilot.Domain.Outbound.{Result, ok, err}
use wootpilot.Persistence.Rows.{Db, RawEventRow}
use wootpilot.Persistence.Repository.{
  add_row, flush_state, get_or_create_state, insert_audit_record, insert_message, insert_raw_event,
  update_raw_status,
}
use wootpilot.Ingress.Webhooks.{
  Delivery, Handled, WebhookResultStatus, Webhooks, committed, continue, handle,
  handle_channel_event, handle_message, handle_new, handle_stored, ignore_message, ignore_raw_event,
  raw_row, update_channel_state, update_conversation_state,
}

-- No turn was recorded and nothing was queued.
pub record Quiet (before after : Db) : Type 0 where
  pub runs : after.agent_runs ≡ before.agent_runs
  pub queue : after.outbound_actions ≡ before.outbound_actions

still : (db : Db) → Quiet db db
still db = record { runs = refl; queue = refl }

and_then : (a b c : Db) → Quiet a b → Quiet b c → Quiet a c
and_then a b c q r = record { runs = r.runs ∙ q.runs; queue = r.queue ∙ q.queue }

inserted-Quiet :
    (db db' : Db) (row stored : RawEventRow) (new : Bool)
    → insert_raw_event db row ≡ ok (stored, new, db')
    → Quiet db db'
unfolding insert_raw_event
inserted-Quiet db db' row stored new h = ground arith

message-Quiet :
    (db db' : Db) (message stored : NormalizedMessage) (new : Bool)
    → insert_message db message ≡ ok (stored, new, db')
    → Quiet db db'
unfolding insert_message
message-Quiet db db' message stored new h = ground arith

-- A message that is reported as new is the one that was given.
message-new :
    (db db' : Db) (message stored : NormalizedMessage)
    → insert_message db message ≡ ok (stored, true, db')
    → stored ≡ message
unfolding insert_message
message-new db db' message stored h = ground arith

module _ (env : Webhooks) where
  state-Quiet :
      (message : NormalizedMessage) (s : ConversationState) (db db' : Db)
      → update_conversation_state env message db ≡ ok (s, db')
      → Quiet db db'
  unfolding update_conversation_state get_or_create_state flush_state
  state-Quiet message s db db' h = ground arith

  event-Quiet :
      (raw_id : Text) (event : Option ChannelEvent) (status : WebhookResultStatus) (db db' : Db)
      → handle_channel_event env raw_id event db ≡ ok (status, db')
      → Quiet db db'
  unfolding handle_channel_event update_channel_state get_or_create_state flush_state
      insert_audit_record add_row update_raw_status ignore_raw_event
  event-Quiet raw_id none status db db' h = ground arith
  event-Quiet raw_id (some event) status db db' h = ground arith

  ignored-Quiet :
      (raw_id : Text) (message : NormalizedMessage) (status : WebhookResultStatus) (db db' : Db)
      → ignore_message env raw_id message db ≡ ok (status, db')
      → Quiet db db'
  unfolding ignore_message insert_audit_record add_row update_raw_status
  ignored-Quiet raw_id message status db db' h = ground arith

  committed-Quiet :
      (before db : Db) (r : Result (WebhookResultStatus × Db))
      → ((status : WebhookResultStatus) (db' : Db) → r ≡ ok (status, db') → Quiet before db')
      → Quiet before (committed before r).1
  committed-Quiet before db (ok (status, db')) quiet = quiet status db' refl
  committed-Quiet before db (err e) quiet = still before

  continued-Quiet :
      {A : Type 0} (before : Db) (r : Result A) (f : A → Handled)
      → ((a : A) → r ≡ ok a → Quiet before (f a).1)
      → Quiet before (continue before r f).1
  continued-Quiet before (ok a) f quiet = quiet a refl
  continued-Quiet before (err e) f quiet = still before

  stored-Quiet :
      (before : Db) (raw_id : Text) (message : NormalizedMessage) (new : Bool)
      (updated : ConversationState × Db)
      → (new ≡ true → is_customer_public_inbound message ≡ false)
      → Quiet before updated.1
      → Quiet before (handle_stored env before raw_id message new updated).1
  unfolding handle_stored update_raw_status
  stored-Quiet before raw_id message false (state, db) silent quiet = record {
    runs = quiet.runs;
    queue = quiet.queue;
  }
  stored-Quiet before raw_id message true (state, db) silent quiet = rw (silent refl) (
      committed-Quiet before db (ignore_message env raw_id message db)
        λ status db' h. and_then before db db' quiet (ignored-Quiet raw_id message status db db' h))

  message_handled-Quiet :
      (before : Db) (raw_id : Text) (message : NormalizedMessage) (db : Db)
      → is_customer_public_inbound message ≡ false
      → Quiet before db
      → Quiet before (handle_message env before raw_id message db).1
  unfolding handle_message
  message_handled-Quiet before raw_id message db silent quiet =
      continued-Quiet before (insert_message db message) _ λ (stored, new, db') inserted.
        continued-Quiet before (update_conversation_state env stored db') _ λ (state, db'') updated.
          stored-Quiet before raw_id stored new (state, db'')
            (λ fresh.
              ap is_customer_public_inbound
                (message-new db db' message stored (rw fresh at inserted))
              ∙ silent)
            (and_then before db db'' quiet (
              and_then db db' db'' (message-Quiet db db' message stored new inserted)
                (state-Quiet stored state db' db'' updated)))

  -- Every message that the delivery translates to starts no turn.
  abbrev pub Silent : Delivery → Type 0
  Silent delivery =
      (raw_id : Text) (message : NormalizedMessage)
      → delivery.translate_message raw_id ≡ ok (some message)
      → is_customer_public_inbound message ≡ false

  translated-Quiet :
      (before : Db) (delivery : Delivery) (raw_id : Text) (db : Db)
      (translated : Option NormalizedMessage)
      → delivery.translate_message raw_id ≡ ok translated
      → Silent delivery
      → Quiet before db
      → Quiet before
          (elim translated as (λ _. Handled) [
            | none ↦
                continue before
                  (delivery.translate_channel_event raw_id)
                  λ event. committed before (handle_channel_event env raw_id event db)
            | some message ↦ handle_message env before raw_id message db
          ]).1
  translated-Quiet before delivery raw_id db none h silent quiet =
      continued-Quiet before (delivery.translate_channel_event raw_id) _ λ event _.
        committed-Quiet before db (handle_channel_event env raw_id event db) λ status db' done.
          and_then before db db' quiet (event-Quiet raw_id event status db db' done)
  translated-Quiet before delivery raw_id db (some message) h silent quiet =
      message_handled-Quiet before raw_id message db (silent raw_id message h) quiet

  new-Quiet :
      (before : Db) (delivery : Delivery) (raw_id : Text) (db : Db)
      → Silent delivery
      → Quiet before db
      → Quiet before (handle_new env before delivery raw_id db).1
  unfolding handle_new
  new-Quiet before delivery raw_id db silent quiet =
      continued-Quiet before (delivery.translate_message raw_id) _
        λ translated h. translated-Quiet before delivery raw_id db translated h silent quiet

  entered-Quiet :
      (db : Db) (delivery : Delivery) (stored : RawEventRow) (new : Bool) (db' : Db)
      → Silent delivery
      → Quiet db db'
      → Quiet db
          (elim new as (λ _. Handled) [
            | false ↦ (ok WebhookResultStatus.duplicate, db')
            | true ↦ handle_new env db delivery stored.id db'
          ]).1
  entered-Quiet db delivery stored false db' silent quiet = quiet
  entered-Quiet db delivery stored true db' silent quiet =
      new-Quiet db delivery stored.id db' silent quiet

  pub handle-Quiet :
      (delivery : Delivery) (db : Db) → Silent delivery → Quiet db (handle env delivery db).1
  unfolding handle
  handle-Quiet delivery db silent =
      continued-Quiet db (insert_raw_event db (raw_row env delivery)) _
        λ (stored, new, db') inserted.
          entered-Quiet db delivery stored new db' silent
            (inserted-Quiet db db' (raw_row env delivery) stored new inserted)
