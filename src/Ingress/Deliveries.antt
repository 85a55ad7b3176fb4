-- ===== src/Ingress/Deliveries.antt =====
-- application/webhooks.py, handle: repeated deliveries of one event id.
use mathlib.Core.Path.{◌≡◌, refl, ◌∙◌, ap}
use mathlib.Core.Logic.{inl, inr}
use mathlib.Core.Bool.{Bool, true, false}
use mathlib.Core.Option.{Option, none, some}
use mathlib.Core.List.{[], ◌∷◌, ◌++◌}
use native.Mathlib.Omega.{arith}
use wootpilot.Prelude.Tests.{Bool-cases, Option-cases}
use wootpilot.Prelude.Lists.{find?, any-of_mem, mem-append_right, find?-mem, any-exists, find?-none}
use wootpilot.Prelude.Text.{Text, str_eq, str_eq_refl}
use wootpilot.Domain.Messages.{
  ChannelEvent, ConversationState, NormalizedMessage, is_customer_public_inbound,
}
use wootpilot.Domain.Rules.{WorkflowDecision}
use wootpilot.Domain.Outbound.{Result, ok, err, ◌>>=◌}
use wootpilot.Persistence.Rows.{AuditRecordRow, Db, RawEventRow, RawEventStatus}
use wootpilot.Persistence.Repository.{
  add_row, insert_audit_record, insert_message, insert_raw_event, update_raw_status,
}
use wootpilot.Support.Recording.{run}
use wootpilot.Ingress.Webhooks.{
  event_audit, raw_row, Delivery, Handled, WebhookResultStatus, Webhooks, committed, handle,
  handle_channel_event, handle_message, handle_new, handle_stored, update_channel_state,
  update_conversation_state, continue,
}
use wootpilot.Ingress.Events.{
  channel-events, knows, knows-status, run-events, state-events, stored-events,
}

module _ (env : Webhooks) where
  -- When the request is answered, the event id is stored.
  Known : Text → Handled → Type 0
  Known key h = (status : WebhookResultStatus) → h.0 ≡ ok status → knows key h.1.raw_events ≡ true

  updated-knows :
      (key id : Text) (status : RawEventStatus) (db : Db)
      → knows key db.raw_events ≡ true
      → knows key (update_raw_status db id status).raw_events ≡ true
  unfolding update_raw_status
  updated-knows key id status db known = knows-status key id status db.raw_events ∙ known

  ran-Known :
      (key raw_id : Text) (message : NormalizedMessage) (state : ConversationState) (db : Db)
      (r : Result (WorkflowDecision × Db))
      → run env.workflow message state db ≡ r
      → knows key db.raw_events ≡ true
      → Known key (
          committed db (
            r >>= λ done. ok (
              WebhookResultStatus.processed,
              update_raw_status done.1 raw_id RawEventStatus.processed,
            )))
  unfolding Known
  ran-Known key raw_id message state db (err e) ran known status h = known
  ran-Known key raw_id message state db (ok (d, db')) ran known status h =
      updated-knows key raw_id RawEventStatus.processed db'
        (ap (knows key) (run-events env.workflow message state d db db' ran) ∙ known)

  ignored-Known :
      (key : Text) (before db : Db) (row : AuditRecordRow) (answer : WebhookResultStatus)
      → knows key db.raw_events ≡ true
      → Known key (committed before (insert_audit_record db row >>= λ db'. ok (answer, db')))
  unfolding Known insert_audit_record add_row
  ignored-Known key before db row answer known status h = ground arith

  stored-Known :
      (key raw_id : Text) (before : Db) (message : NormalizedMessage) (new : Bool)
      (updated : ConversationState × Db)
      → knows key updated.1.raw_events ≡ true
      → Known key (handle_stored env before raw_id message new updated)
  unfolding handle_stored Known
  stored-Known key raw_id before message false (state, db) known =
      λ status h. updated-knows key raw_id RawEventStatus.duplicate db known
  stored-Known key raw_id before message true (state, db) known =
      elim (Bool-cases (is_customer_public_inbound message)) [
        | inl agentable ↦
            rw agentable
              (ran-Known key raw_id message state db (run env.workflow message state db) refl known)
        | inr other ↦ rw other (
            ignored-Known key before (update_raw_status db raw_id RawEventStatus.ignored) _ _
              (updated-knows key raw_id RawEventStatus.ignored db known))
      ]

  updated-Known :
      (key raw_id : Text) (before : Db) (stored : NormalizedMessage) (new : Bool) (db : Db)
      (r : Result (ConversationState × Db))
      → update_conversation_state env stored db ≡ r
      → knows key db.raw_events ≡ true
      → Known key (continue before r (handle_stored env before raw_id stored new))
  unfolding Known
  updated-Known key raw_id before stored new db (err e) done known =
      λ status h. absurd (ground arith)
  updated-Known key raw_id before stored new db (ok (s, db')) done known =
      stored-Known key raw_id before stored new (s, db')
        (ap (knows key) (state-events env stored s db db' done) ∙ known)

  message-Known :
      (key raw_id : Text) (before db : Db) (message : NormalizedMessage)
      (r : Result (NormalizedMessage × Bool × Db))
      → insert_message db message ≡ r
      → knows key db.raw_events ≡ true
      → Known key (
          continue before r λ stored.
            continue before
              (update_conversation_state env stored.0 stored.2)
              λ updated. handle_stored env before raw_id stored.0 stored.1 updated)
  unfolding Known
  message-Known key raw_id before db message (err e) done known = λ status h. absurd (ground arith)
  message-Known key raw_id before db message (ok (stored, new, db')) done known =
      updated-Known key raw_id before stored new db' (update_conversation_state env stored db') refl
        (ap (knows key) (stored-events env message stored new db db' done) ∙ known)

  event-Known :
      (key raw_id : Text) (before db : Db) (event : ChannelEvent)
      (r : Result (ConversationState × Db))
      → update_channel_state env event db ≡ r
      → knows key db.raw_events ≡ true
      → Known key (
          committed before (
            r >>= λ updated.
            insert_audit_record
              (update_raw_status updated.1 raw_id RawEventStatus.processed)
              (event_audit env raw_id)
            >>= λ db'. ok (WebhookResultStatus.processed, db')))
  unfolding Known
  event-Known key raw_id before db event (err e) done known = λ status h. absurd (ground arith)
  event-Known key raw_id before db event (ok (s, db')) done known =
      ignored-Known key before (update_raw_status db' raw_id RawEventStatus.processed)
        (event_audit env raw_id) WebhookResultStatus.processed
        (updated-knows key raw_id RawEventStatus.processed db'
          (ap (knows key) (channel-events env event s db db' done) ∙ known))

  channel-Known :
      (key raw_id : Text) (before db : Db) (event : Option ChannelEvent)
      → knows key db.raw_events ≡ true
      → Known key (committed before (handle_channel_event env raw_id event db))
  unfolding handle_channel_event
  channel-Known key raw_id before db none known =
      ignored-Known key before (update_raw_status db raw_id RawEventStatus.ignored) _ _
        (updated-knows key raw_id RawEventStatus.ignored db known)
  channel-Known key raw_id before db (some event) known =
      event-Known key raw_id before db event (update_channel_state env event db) refl known

  event_answer-Known :
      (key raw_id : Text) (before db : Db) (answer : Result (Option ChannelEvent))
      → knows key db.raw_events ≡ true
      → Known key (
          continue before answer
            λ event. committed before (handle_channel_event env raw_id event db))
  unfolding Known
  event_answer-Known key raw_id before db (err e) known = λ status h. absurd (ground arith)
  event_answer-Known key raw_id before db (ok event) known =
      channel-Known key raw_id before db event known

  translated-Known :
      (key raw_id : Text) (before db : Db) (delivery : Delivery)
      (translated : Result (Option NormalizedMessage))
      → knows key db.raw_events ≡ true
      → Known key (
          continue before translated λ message. elim message [
            | none ↦
                continue before
                  (delivery.translate_channel_event raw_id)
                  λ event. committed before (handle_channel_event env raw_id event db)
            | some message ↦ handle_message env before raw_id message db
          ])
  unfolding handle_message Known
  translated-Known key raw_id before db delivery (err e) known = λ status h. absurd (ground arith)
  translated-Known key raw_id before db delivery (ok none) known =
      event_answer-Known key raw_id before db (delivery.translate_channel_event raw_id) known
  translated-Known key raw_id before db delivery (ok (some message)) known =
      message-Known key raw_id before db message (insert_message db message) refl known

  new-Known :
      (key raw_id : Text) (before db : Db) (delivery : Delivery)
      → knows key db.raw_events ≡ true
      → Known key (handle_new env before delivery raw_id db)
  unfolding handle_new
  new-Known key raw_id before db delivery known =
      translated-Known key raw_id before db delivery (delivery.translate_message raw_id) known

  inserted-knows :
      (db db' : Db) (row stored : RawEventRow) (new : Bool)
      → insert_raw_event db row ≡ ok (stored, new, db')
      → knows row.provider_event_id db'.raw_events ≡ true
  unfolding insert_raw_event
  inserted-knows db db' row stored new h =
      let known = λ (r : RawEventRow). str_eq row.provider_event_id r.provider_event_id in
      elim (Option-cases (find? known db.raw_events)) [
        | inl nothing ↦
            let added : db'.raw_events ≡ db.raw_events ++ row ∷ [] = ground arith in
            rw added (
              any-of_mem known row (db.raw_events ++ row ∷ [])
                (mem-append_right row db.raw_events (row ∷ []) (inl refl))
                (str_eq_refl row.provider_event_id))
        | inr (old, e) ↦
            let kept : db'.raw_events ≡ db.raw_events = ground arith in
            let (listed, same) = find?-mem known db.raw_events old e in
            rw kept (any-of_mem known old db.raw_events listed same)
      ]

  entered-Known :
      (delivery : Delivery) (db : Db) (r : Result (RawEventRow × Bool × Db))
      → insert_raw_event db (raw_row env delivery) ≡ r
      → Known delivery.provider_event_id (
          continue db r λ stored. elim stored.1 [
            | false ↦ (ok WebhookResultStatus.duplicate, stored.2)
            | true ↦ handle_new env db delivery stored.0.id stored.2
          ])
  unfolding Known
  entered-Known delivery db (err e) done = λ status h. absurd (ground arith)
  entered-Known delivery db (ok (stored, false, db')) done =
      λ status h. inserted-knows db db' (raw_row env delivery) stored false done
  entered-Known delivery db (ok (stored, true, db')) done =
      new-Known delivery.provider_event_id stored.id db db' delivery
        (inserted-knows db db' (raw_row env delivery) stored true done)

  handle-Known :
      (delivery : Delivery) (db : Db) → Known delivery.provider_event_id (handle env delivery db)
  unfolding handle
  handle-Known delivery db =
      entered-Known delivery db (insert_raw_event db (raw_row env delivery)) refl

-- A delivery whose event id is stored is a duplicate and changes no table.
handle_known :
    (env : Webhooks) (delivery : Delivery) (db : Db)
    → knows delivery.provider_event_id db.raw_events ≡ true
    → handle env delivery db ≡ (ok WebhookResultStatus.duplicate, db)
unfolding handle insert_raw_event
handle_known env delivery db known =
    let same = λ (r : RawEventRow). str_eq delivery.provider_event_id r.provider_event_id in
    elim (Option-cases (find? same db.raw_events)) [
      | inl nothing ↦
          let (r, listed, e) = any-exists same db.raw_events known in
          absurd (ground (arith, find?-none same db.raw_events r nothing listed))
      | inr (old, e) ↦ rw (e, insert_raw_event)
    ]

-- When a delivery has been answered, whatever the answer, each later delivery of the same event id is
-- answered as a duplicate and changes no table, whatever its payload.
pub handle-duplicate :
    (env env' : Webhooks) (delivery delivery' : Delivery) (db : Db) (status : WebhookResultStatus)
    → (handle env delivery db).0 ≡ ok status
    → delivery'.provider_event_id ≡ delivery.provider_event_id
    → handle env' delivery' (handle env delivery db).1
      ≡ (ok WebhookResultStatus.duplicate, (handle env delivery db).1)
unfolding Known
handle-duplicate env env' delivery delivery' db status answered same =
    handle_known env' delivery' (handle env delivery db).1 (
      ap (λ (k : Text). knows k (handle env delivery db).1.raw_events) same
      ∙ handle-Known env delivery db status answered)
