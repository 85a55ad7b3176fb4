-- ===== src/Ingress/State.antt =====
-- src/wootpilot/application/webhooks.py: the updates of a conversation's safety state. The row is
-- flushed after its attributes are assigned, so each update is a function of the row.
use Prim.Native.Nat.{ℕ, ◌+◌}
use mathlib.Core.Bool.{Bool, false, ◌&&◌, ◌||◌}
use mathlib.Core.Option.{Option, none, some}
use mathlib.Core.List.{[]}
use wootpilot.Prelude.Tests.{if◌then◌else◌}
use wootpilot.Prelude.Text.{Text, codes, str_eq, mem_text}
use wootpilot.Domain.Messages.{
  ChannelEvent, ChannelMetadata, ConversationStatus, NormalizedMessage, is_inbound, is_customer,
  is_human_public_reply,
}
use wootpilot.Domain.Outbound.{Settings, seconds}
use wootpilot.Persistence.Rows.{ConversationStateRow}

-- ConversationStatus.value
abbrev pub status_value : ConversationStatus → Text
status_value ConversationStatus.open_status = codes "open"
status_value ConversationStatus.pending = codes "pending"
status_value ConversationStatus.resolved = codes "resolved"

-- `if metadata.get("status") is not None: ...`
unfoldable pub apply_status : Option Text → ConversationStateRow → ConversationStateRow
apply_status none row = row
apply_status (some status) row = record row {
  status = some status;
  replyable = if str_eq status (codes "resolved") then false else row.replyable;
}

-- `if key in metadata: row.key = metadata.get(key)`
abbrev pub assigned : Option (Option Text) → Option Text → Option Text
assigned none old = old
assigned (some new) old = new

unfoldable pub apply_channel_metadata :
    ChannelMetadata → ConversationStateRow → ConversationStateRow
unfolding apply_status
apply_channel_metadata metadata row =
    let updated = apply_status metadata.status (record row {
      paused =
          metadata.paused
          || mem_text (codes "wootpilot-paused") metadata.labels
          || metadata.wootpilot_paused;
    }) in
    record updated {
      assigned_agent_id = assigned metadata.assigned_agent_id updated.assigned_agent_id;
      assigned_team_id = assigned metadata.assigned_team_id updated.assigned_team_id;
    }

-- `if metadata.get("can_reply") is not None: ...`
abbrev pub apply_can_reply : Option Bool → ConversationStateRow → ConversationStateRow
apply_can_reply none row = row
apply_can_reply (some can_reply) row = record row { replyable = can_reply }

abbrev pub apply_customer_turn : NormalizedMessage → ConversationStateRow → ConversationStateRow
apply_customer_turn message row =
    if is_inbound message.direction && is_customer message.author_type
    then record row { last_customer_message_at = some message.created_at }
    else row

abbrev pub apply_human_reply :
    Settings → NormalizedMessage → ConversationStateRow → ConversationStateRow
apply_human_reply settings message row =
    if is_human_public_reply message
    then record row {
      last_human_public_message_at = some message.created_at;
      human_active_until =
          some (message.created_at + seconds settings.human_operator_active_ttl_seconds);
    }
    else row

-- _update_conversation_state, between the read of the row and the flush
unfoldable pub message_state :
    Settings → (now : ℕ) → NormalizedMessage → ConversationStateRow → ConversationStateRow
unfolding apply_channel_metadata
message_state settings now message row =
    record (apply_human_reply settings message (
      apply_customer_turn message (
        apply_can_reply message.metadata.can_reply
          (apply_channel_metadata message.metadata row)))) { updated_at = now }

-- The dict that _update_channel_state passes on.
abbrev pub event_metadata : ChannelEvent → ChannelMetadata
event_metadata event = record {
  paused = event.paused;
  labels = [];
  wootpilot_paused = false;
  status = elim event.status [ none ↦ none | some s ↦ some (status_value s) ];
  can_reply = event.replyable;
  assigned_agent_id = some event.assigned_agent_id;
  assigned_team_id = some event.assigned_team_id;
  unreadable = none;
}

-- `row.status == ConversationStatus.resolved.value`
abbrev pub has_resolved : ConversationStateRow → Bool
has_resolved row = elim row.status [ none ↦ false | some s ↦ str_eq s (codes "resolved") ]

abbrev pub apply_replyable : Option Bool → ConversationStateRow → ConversationStateRow
apply_replyable none row = row
apply_replyable (some replyable) row =
    if has_resolved row then row else record row { replyable = replyable }

-- _update_channel_state, between the read of the row and the flush
unfoldable pub channel_state :
    (now : ℕ) → ChannelEvent → ConversationStateRow → ConversationStateRow
unfolding apply_channel_metadata
channel_state now event row =
    record (apply_replyable event.replyable (apply_channel_metadata (event_metadata event) row)) {
      updated_at = now;
    }
