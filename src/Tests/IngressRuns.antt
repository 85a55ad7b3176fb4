-- ===== src/Tests/IngressRuns.antt =====
-- Runs of the webhook on an agent's reply, and of the signature check on a signed request.
use mathlib.Core.Path.{◌≡◌, refl}
use mathlib.Core.Logic.{◌↔◌, inl}
use mathlib.Core.Bool.{true, false}
use mathlib.Core.Option.{none, some}
use native.Mathlib.Omega.{arith}
use wootpilot.Prelude.Text.{codes, str_eq, mem_text}
use wootpilot.Prelude.Lists.{any, find?}
use wootpilot.Domain.Messages.{
  ChannelEvent, ConversationState, ConversationStatus, is_customer_public_inbound,
  is_human_public_reply,
}
use wootpilot.Domain.Rules.{AutomationMode}
use wootpilot.Domain.Outbound.{ok}
use wootpilot.Persistence.Rows.{empty_db}
use wootpilot.Persistence.Repository.{
  add_row, flush_state, get_or_create_state, insert_audit_record, insert_message, insert_raw_event,
  row_status, row_to_state, status_of_text, update_raw_status,
}
use wootpilot.Ingress.State.{channel_state, message_state}
use wootpilot.Ingress.Webhooks.{WebhookResultStatus, handle}
use wootpilot.Ingress.Signature.{
  Authentic, SignedRequest, Verdict, verify_chatwoot_signature,
  verify_chatwoot_signature-accepted_iff,
}
use wootpilot.Ingress.Suppression.{Suppressed, channel_state-Suppressed, message_state-Suppressed}
use wootpilot.Ingress.Deliveries.{handle-duplicate}
use wootpilot.Tests.Fixtures.{calm, calm_row, decimal_of}
use wootpilot.Tests.Services.{agent_reply, live_settings, reply_delivery, webhooks}

abbrev request : SignedRequest
request = record {
  signature = some (codes "sha256=42");
  timestamp = some (codes "100");
  body = codes "{}";
}

verify_chatwoot_signature-accepted_iff_example :
    (verify_chatwoot_signature decimal_of (λ _ _. codes "42") live_settings 150000000 request
      ≡ Verdict.accepted)
    ↔ Authentic decimal_of (λ _ _. codes "42") live_settings 150000000 request
verify_chatwoot_signature-accepted_iff_example =
    verify_chatwoot_signature-accepted_iff decimal_of (λ _ _. codes "42") live_settings 150000000
      request

-- The state that the agent's reply leaves on an open conversation.
abbrev after_reply : ConversationState
after_reply = record calm {
  last_human_public_message_at = some 100;
  human_active_until = some 900000100;
  updated_at = 120;
}

message_state-Suppressed_example : Suppressed AutomationMode.public_reply after_reply 5000
unfolding is_human_public_reply row_to_state row_status status_of_text message_state str_eq mem_text
    any
message_state-Suppressed_example =
    message_state-Suppressed live_settings 120 5000 agent_reply calm_row after_reply refl
      (omega arith) refl

abbrev resolving : ChannelEvent
resolving = record {
  id = codes "v1";
  raw_event_id = codes "r1";
  event_type = codes "conversation_status_changed";
  tenant_id = codes "t";
  channel_id = codes "2";
  conversation_id = codes "9";
  status = some ConversationStatus.resolved;
  replyable = some true;
  paused = false;
  assigned_agent_id = none;
  assigned_team_id = none;
  created_at = 100;
}

abbrev after_resolving : ConversationState
after_resolving = record calm {
  status = some ConversationStatus.resolved;
  replyable = false;
  updated_at = 120;
}

channel_state-Suppressed_example : Suppressed AutomationMode.assist after_resolving 130
unfolding row_to_state row_status status_of_text channel_state str_eq mem_text any
channel_state-Suppressed_example =
    channel_state-Suppressed AutomationMode.assist 120 130 resolving calm_row after_resolving
      (inl refl) refl

handle-duplicate_example :
    handle webhooks reply_delivery (handle webhooks reply_delivery empty_db).1
    ≡ (ok WebhookResultStatus.duplicate, (handle webhooks reply_delivery empty_db).1)
unfolding handle insert_raw_event find? any insert_message get_or_create_state row_to_state
    row_status message_state is_human_public_reply is_customer_public_inbound insert_audit_record
    add_row update_raw_status flush_state
handle-duplicate_example =
    handle-duplicate webhooks webhooks reply_delivery reply_delivery empty_db
      WebhookResultStatus.ignored refl refl
