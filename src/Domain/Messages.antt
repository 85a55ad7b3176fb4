-- ===== src/Domain/Messages.antt =====
-- src/wootpilot/domain/models/messages.py and conversations.py: the normalized message, the channel
-- event and the conversation's safety state. A datetime is its number of microseconds since the
-- epoch, in UTC. Only the `chatwoot` part of `metadata` is read, so that is what is kept of it.
use Prim.Native.Nat.{ℕ}
use mathlib.Core.Bool.{Bool, true, false, ◌&&◌}
use mathlib.Core.Option.{Option, none, some}
use mathlib.Core.List.{List, []}
use wootpilot.Prelude.Text.{Text, truthy, strip}
use wootpilot.Domain.Outbound.{Failure}

pub data MessageDirection : Type 0 where
  inbound outbound : MessageDirection

pub data MessageVisibility : Type 0 where
  public private : MessageVisibility

pub data MessageAuthorType : Type 0 where
  customer human_agent bot : MessageAuthorType

pub data ConversationStatus : Type 0 where
  open_status pending resolved : ConversationStatus

abbrev pub is_inbound : MessageDirection → Bool
is_inbound MessageDirection.inbound = true
is_inbound MessageDirection.outbound = false

abbrev pub is_public : MessageVisibility → Bool
is_public MessageVisibility.public = true
is_public MessageVisibility.private = false

abbrev pub is_customer : MessageAuthorType → Bool
is_customer MessageAuthorType.customer = true
is_customer _ = false

abbrev pub is_human_agent : MessageAuthorType → Bool
is_human_agent MessageAuthorType.human_agent = true
is_human_agent _ = false

abbrev pub is_outbound : MessageDirection → Bool
is_outbound MessageDirection.outbound = true
is_outbound MessageDirection.inbound = false

-- `state.status is ConversationStatus.resolved`
abbrev pub is_resolved : Option ConversationStatus → Bool
is_resolved (some ConversationStatus.resolved) = true
is_resolved _ = false

pub record AttachmentMetadata : Type 0 where
  pub provider_attachment_id : Option Text
  pub content_type : Option Text
  pub file_name : Option Text
  pub url : Option Text

-- metadata["chatwoot"]. A key that may be missing and may hold None has two layers.
pub record ChannelMetadata : Type 0 where
  pub paused : Bool
  pub labels : List Text
  pub wootpilot_paused : Bool  -- bool(custom_attributes.get("wootpilot_paused"))
  pub status : Option Text
  pub can_reply : Option Bool
  pub assigned_agent_id : Option (Option Text)
  pub assigned_team_id : Option (Option Text)
  pub unreadable : Option Failure  -- what reading labels or custom_attributes raises

-- metadata.get("chatwoot", {}) where the key is missing
abbrev pub no_metadata : ChannelMetadata
no_metadata = record {
  paused = false;
  labels = [];
  wootpilot_paused = false;
  status = none;
  can_reply = none;
  assigned_agent_id = none;
  assigned_team_id = none;
  unreadable = none;
}

pub record NormalizedMessage : Type 0 where
  pub id : Text
  pub raw_event_id : Text
  pub tenant_id : Text
  pub provider_account_id : Text
  pub provider_inbox_id : Text
  pub provider_conversation_id : Text
  pub provider_message_id : Text
  pub provider_contact_id : Option Text
  pub channel_id : Text
  pub conversation_id : Text
  pub message_id : Text
  pub contact_id : Option Text
  pub direction : MessageDirection
  pub visibility : MessageVisibility
  pub author_type : MessageAuthorType
  pub content : Text
  pub attachments : List AttachmentMetadata
  pub created_at : ℕ
  pub metadata : ChannelMetadata

unfoldable pub is_customer_public_inbound : NormalizedMessage → Bool
is_customer_public_inbound m =
    is_inbound m.direction
    && is_public m.visibility
    && is_customer m.author_type
    && truthy (strip m.content)

unfoldable pub is_human_public_reply : NormalizedMessage → Bool
is_human_public_reply m =
    is_outbound m.direction && is_public m.visibility && is_human_agent m.author_type

pub record ChannelEvent : Type 0 where
  pub id : Text
  pub raw_event_id : Text
  pub event_type : Text
  pub tenant_id : Text
  pub channel_id : Text
  pub conversation_id : Text
  pub status : Option ConversationStatus
  pub replyable : Option Bool
  pub paused : Bool
  pub assigned_agent_id : Option Text
  pub assigned_team_id : Option Text
  pub created_at : ℕ

pub record ConversationState : Type 0 where
  pub id : Text
  pub tenant_id : Text
  pub channel_id : Text
  pub conversation_id : Text
  pub human_active_until : Option ℕ
  pub last_human_public_message_at : Option ℕ
  pub last_customer_message_at : Option ℕ
  pub assigned_agent_id : Option Text
  pub assigned_team_id : Option Text
  pub status : Option ConversationStatus
  pub replyable : Bool
  pub paused : Bool
  pub updated_at : ℕ

-- bool(value) for `str | None`
abbrev pub truthy? : Option Text → Bool
truthy? none = false
truthy? (some t) = truthy t
