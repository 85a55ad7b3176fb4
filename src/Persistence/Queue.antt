-- ===== src/Persistence/Queue.antt =====
-- src/wootpilot/persistence/repositories.py: the outbound queue and the supersede query. A claim is
-- atomic, as row locks make it on Postgres and the single executor on SQLite.
use Prim.Native.Nat.{ℕ, ◌+◌, min}
use mathlib.Core.Bool.{Bool, true, false, ◌&&◌, ◌||◌, not}
use mathlib.Core.Option.{Option, none, some}
use mathlib.Core.List.{List, [], ◌∷◌, ◌++◌, map}
use wootpilot.Prelude.Tests.{ltb, leb, ◌==◌, if◌then◌else◌}
use wootpilot.Prelude.Lists.{any, filter, find?, take}
use wootpilot.Prelude.Text.{Text, str_eq, mem_text}
use wootpilot.Domain.Messages.{NormalizedMessage, is_inbound, is_public, is_customer}
use wootpilot.Domain.Rules.{is_public_message}
use wootpilot.Domain.Outbound.{
  OutboundActionStatus, is_queued, is_retryable_failure, QueuedOutboundAction,
}
use wootpilot.Persistence.Rows.{OutboundActionRow, Db}
use wootpilot.Persistence.MessageOrder.{message_id_is_after}

-- A clash of either unique column is caught, and the row is not added.
unfoldable pub insert_outbound_action : Db → OutboundActionRow → Bool × Db
insert_outbound_action db row =
    if any (λ r. str_eq row.idempotency_key r.idempotency_key || str_eq row.id r.id)
      db.outbound_actions
    then (false, db)
    else (true, record db { outbound_actions = db.outbound_actions ++ row ∷ [] })

unfoldable pub row_to_outbound_action : OutboundActionRow → QueuedOutboundAction
row_to_outbound_action row = record {
  id = row.id;
  tenant_id = row.tenant_id;
  channel_id = row.channel_id;
  conversation_id = row.conversation_id;
  source_message_id = row.source_message_id;
  action_kind = row.action_kind;
  content = row.content;
  safety_context = row.safety_context;
  status = row.status;
  attempt_count = row.attempt_count;
}

-- `created_at <= now - delay`, without the subtraction.
unfoldable pub queued_action_due : (now delay : ℕ) → OutboundActionRow → Bool
queued_action_due now delay row =
    is_queued row.status
    && (not (is_public_message row.action_kind) || leb (row.created_at + delay) now)

unfoldable pub retryable_action_due : (now : ℕ) → OutboundActionRow → Bool
retryable_action_due now row =
    is_retryable_failure row.status
    && elim row.next_attempt_at [ none ↦ false | some t ↦ leb t now ]

unfoldable pub action_due : (now delay : ℕ) → OutboundActionRow → Bool
action_due now delay row = queued_action_due now delay row || retryable_action_due now row

-- ORDER BY created_at; rows of one time keep the table's order.
unfoldable pub insert_by_created :
    OutboundActionRow → List OutboundActionRow → List OutboundActionRow
insert_by_created row [] = row ∷ []
insert_by_created row (r ∷ rs) =
    let rest = insert_by_created row rs in
    if ltb r.created_at row.created_at then r ∷ rest else row ∷ r ∷ rs

unfoldable pub order_by_created : List OutboundActionRow → List OutboundActionRow
unfolding insert_by_created
order_by_created [] = []
order_by_created (r ∷ rs) = insert_by_created r (order_by_created rs)

-- queued_outbound_actions_statement, as its result on the table
unfoldable pub due_actions : (limit now delay : ℕ) → List OutboundActionRow → List OutboundActionRow
due_actions limit now delay rows =
    take limit (order_by_created (filter (action_due now delay) rows))

abbrev pub claim_row : (claimed_at : ℕ) → OutboundActionRow → OutboundActionRow
claim_row claimed_at row = record row {
  status = OutboundActionStatus.executing;
  updated_at = claimed_at;
  next_attempt_at = none;
}

abbrev pub id_of : OutboundActionRow → Text
id_of row = row.id

unfoldable pub claim_queued_outbound_actions :
    Db → (limit now claimed_at public_reply_delay : ℕ) → List QueuedOutboundAction × Db
claim_queued_outbound_actions db limit now claimed_at public_reply_delay =
    let rows = due_actions limit now public_reply_delay db.outbound_actions in
    (
      map (λ r. row_to_outbound_action (claim_row claimed_at r)) rows,
      record db {
        outbound_actions =
            map (λ r. if mem_text r.id (map id_of rows) then claim_row claimed_at r else r)
              db.outbound_actions;
      },
    )

-- Messages of one conversation.
unfoldable pub in_conversation :
    (tenant_id channel_id conversation_id : Text) → NormalizedMessage → Bool
in_conversation tenant_id channel_id conversation_id m =
    str_eq tenant_id m.tenant_id
    && str_eq channel_id m.channel_id
    && str_eq conversation_id m.conversation_id

unfoldable pub is_customer_turn : NormalizedMessage → Bool
is_customer_turn m = is_inbound m.direction && is_public m.visibility && is_customer m.author_type

module _ (decimal : ℕ → Option ℕ) where
  -- The second query and the test of its rows: same time, another id, and the id is after.
  unfoldable pub is_after_at_same_time : (source m : NormalizedMessage) → Bool
  is_after_at_same_time source m =
      is_customer_turn m
      && m.created_at == source.created_at
      && not (str_eq m.message_id source.message_id)
      && message_id_is_after decimal m.message_id source.message_id

  unfoldable pub has_newer_customer_public_message :
      Db → (tenant_id channel_id conversation_id source_message_id : Text) → Bool
  has_newer_customer_public_message db tenant_id channel_id conversation_id source_message_id =
      let same = in_conversation tenant_id channel_id conversation_id in
      elim (find? (λ m. same m && str_eq source_message_id m.message_id) db.conversation_messages) [
        | none ↦ false
        | some source ↦
            if any (λ m. same m && (is_customer_turn m && ltb source.created_at m.created_at))
              db.conversation_messages
            then true
            else any (λ m. same m && is_after_at_same_time source m) db.conversation_messages
      ]

-- func.min over the rows that pass a test.
unfoldable pub min_over : (OutboundActionRow → Option ℕ) → List OutboundActionRow → Option ℕ
min_over f [] = none
min_over f (r ∷ rs) =
    let rest = min_over f rs in
    elim (f r) [ none ↦ rest | some t ↦ elim rest [ none ↦ some t | some u ↦ some (min t u) ] ]

abbrev pub min_option : Option ℕ → Option ℕ → Option ℕ
min_option none b = b
min_option (some a) none = some a
min_option (some a) (some b) = some (min a b)

abbrev pub private_queued_at : OutboundActionRow → Option ℕ
private_queued_at r =
    if is_queued r.status && not (is_public_message r.action_kind) then some r.created_at else none

abbrev pub public_queued_at : OutboundActionRow → Option ℕ
public_queued_at r =
    if is_queued r.status && is_public_message r.action_kind then some r.created_at else none

abbrev pub retryable_due_at : OutboundActionRow → Option ℕ
retryable_due_at r = if is_retryable_failure r.status then r.next_attempt_at else none

-- `min(due_times) if due_times else None`
unfoldable pub next_outbound_action_due_at : Db → (now public_reply_delay : ℕ) → Option ℕ
next_outbound_action_due_at db now public_reply_delay =
    let private_due : Option ℕ = elim (min_over private_queued_at db.outbound_actions) [
      | none ↦ none
      | some _ ↦ some now
    ] in
    let public_due : Option ℕ = elim (min_over public_queued_at db.outbound_actions) [
      | none ↦ none
      | some t ↦ some (t + public_reply_delay)
    ] in
    min_option private_due (min_option public_due (min_over retryable_due_at db.outbound_actions))

-- The keyword arguments of mark_outbound_action.
pub record Mark : Type 0 where
  pub status : OutboundActionStatus
  pub updated_at : ℕ
  pub provider_message_id : Option Text
  pub failure_reason : Option Text
  pub attempt_count : Option ℕ
  pub next_attempt_at : Option ℕ
  pub clear_next_attempt_at : Bool
  pub error_code : Option Text

-- `if value is not None: row.field = value`
abbrev pub given : {A : Type 0} → Option A → A → A
given none old = old
given (some new) old = new

abbrev pub given? : {A : Type 0} → Option A → Option A → Option A
given? none old = old
given? (some new) old = some new

unfoldable pub mark_row : Mark → OutboundActionRow → OutboundActionRow
mark_row mark row = record row {
  status = mark.status;
  updated_at = mark.updated_at;
  provider_message_id = given? mark.provider_message_id row.provider_message_id;
  failure_reason = given? mark.failure_reason row.failure_reason;
  attempt_count = given mark.attempt_count row.attempt_count;
  next_attempt_at =
      if mark.clear_next_attempt_at then none else given? mark.next_attempt_at row.next_attempt_at;
  error_code = given? mark.error_code row.error_code;
}

unfoldable pub mark_outbound_action : Db → (action_id : Text) → Mark → Db
mark_outbound_action db action_id mark = record db {
  outbound_actions =
      map (λ r. if str_eq action_id r.id then mark_row mark r else r) db.outbound_actions;
}
