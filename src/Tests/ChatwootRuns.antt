-- ===== src/Tests/ChatwootRuns.antt =====
-- Runs of the translators and of the client on payloads and answers of Chatwoot.
use Prim.Native.Nat.{◌<◌}
use mathlib.Core.Path.{◌≡◌, refl}
use mathlib.Core.Logic.{◌⊎◌, ◌↔◌, inl}
use mathlib.Core.Bool.{true, false}
use mathlib.Core.Option.{none, some}
use mathlib.Core.List.{List, [], ◌∷◌}
use native.Mathlib.Omega.{arith}
use wootpilot.Prelude.Lists.{◌∈◌, any}
use wootpilot.Prelude.Text.{Text, codes, str_eq, mem_text}
use wootpilot.Prelude.Json.{int, obj, get, str_of, ◌or◌}
use wootpilot.Domain.Rules.{PolicyRule}
use wootpilot.Domain.Outbound.{ok, ChatwootApiError}
use wootpilot.Persistence.Rows.{empty_db}
use wootpilot.Persistence.MessageOrder.{message_id_is_after}
use wootpilot.Ingress.Quiet.{Quiet}
use wootpilot.Outbound.Checks.{ChannelSafetyState, channel_state_blocked_reason}
use wootpilot.Chatwoot.Client.{add_conversation_labels, get_conversation_safety}
use wootpilot.Chatwoot.Deliveries.{handle_body}
use wootpilot.Chatwoot.Silence.{handle_body-Quiet}
use wootpilot.Chatwoot.IntegerIds.{message_id_is_after-integers}
use wootpilot.Domain.Messages.{ChannelEvent, ConversationState, ConversationStatus}
use wootpilot.Domain.Rules.{AutomationMode}
use wootpilot.Ingress.Webhooks.{WebhookResultStatus}
use wootpilot.Ingress.Suppression.{Suppressed}
use wootpilot.Chatwoot.Client.{Request}
use wootpilot.Chatwoot.Events.{translate_channel_event}
use wootpilot.Chatwoot.Kinds.{handle_body-duplicate}
use wootpilot.Chatwoot.Suppression.{translated_event-Suppressed}
use wootpilot.Chatwoot.Closed.{conversation_safety-blocked}
use wootpilot.Chatwoot.Labels.{add_conversation_labels-mem, labels_request}
use wootpilot.Chatwoot.Responses.{conversation_safety_from_response}
use wootpilot.Chatwoot.Responses.{safety_of, safety_payload, unwrapped}
use wootpilot.Chatwoot.Events.{label_set}
use wootpilot.Chatwoot.Payload.{
  assigned_agent_id, assigned_team_id, conversation_status, status_named,
}
use wootpilot.Chatwoot.Client.{request_json}
use wootpilot.Chatwoot.Payload.{created_at}
use wootpilot.Chatwoot.Messages.{attachments}
use wootpilot.Chatwoot.Events.{
  is_conversation_event, event_conversation_id, conversation_payload, tenant_of, channel_of,
}
use wootpilot.Persistence.Repository.{row_to_state, row_status, status_of_text}
use wootpilot.Ingress.State.{channel_state}
use wootpilot.Persistence.Repository.{
  insert_raw_event, insert_message, get_or_create_state, insert_audit_record, add_row,
  update_raw_status, flush_state,
}
use wootpilot.Prelude.Lists.{find?}
use wootpilot.Chatwoot.Messages.{message_record, metadata_of, direction_of}
use wootpilot.Ingress.State.{message_state}
use wootpilot.Domain.Messages.{is_human_public_reply, is_customer_public_inbound}
use wootpilot.Chatwoot.Payload.{author_type}
use wootpilot.Prelude.Text.{contains}
use wootpilot.Tests.Fixtures.{calm, calm_row, decimal_of}
use wootpilot.Tests.Services.{claimed_reply, webhooks}
use wootpilot.Domain.Messages.{NormalizedMessage}
use wootpilot.Prelude.Json.{Fields, field}
use wootpilot.Tests.Payloads.{answering, own_post, python, resolved_conversation}

handle_body-Quiet_example :
    Quiet empty_db (handle_body python webhooks (obj own_post) none (codes "h") empty_db).1
unfolding mem_text any str_eq get str_of ◌or◌
handle_body-Quiet_example =
    handle_body-Quiet python webhooks own_post none (codes "h") empty_db (inl refl)

abbrev unavailable_error : ChatwootApiError
unavailable_error = record {
  code = codes "chatwoot_http_503";
  operation = codes "create_message";
  retryable = true;
  status_code = some 503;
}

message_id_is_after-integers_example :
    (message_id_is_after decimal_of
        (str_of python.repr (int false 10))
        (str_of python.repr (int false 9))
      ≡ true)
    ↔ (9 < 10)
message_id_is_after-integers_example =
    message_id_is_after-integers python decimal_of 10 9 λ d small. ground arith

-- The post once more, with a field that the first delivery did not have.
abbrev resent_post : Fields
resent_post = field (codes "sent_at") (int false 5) own_post

abbrev own_message : NormalizedMessage
own_message = message_record python own_post own_post (codes "r1") 100 none none []

abbrev resent_message : NormalizedMessage
resent_message = message_record python resent_post resent_post (codes "r2") 100 none none []

handle_body-duplicate_example :
    handle_body python webhooks
      (obj resent_post)
      none
      (codes "h2")
      (handle_body python webhooks (obj own_post) none (codes "h") empty_db).1
    ≡ (
      ok WebhookResultStatus.duplicate,
      (handle_body python webhooks (obj own_post) none (codes "h") empty_db).1,
    )
unfolding handle_body insert_raw_event find? any created_at assigned_agent_id assigned_team_id
    attachments insert_message get_or_create_state message_record metadata_of row_to_state
    row_status message_state is_human_public_reply direction_of author_type contains status_of_text
    is_customer_public_inbound insert_audit_record add_row update_raw_status flush_state
handle_body-duplicate_example =
    handle_body-duplicate python webhooks webhooks own_post resent_post (codes "h") (codes "h2")
      empty_db WebhookResultStatus.ignored (codes "r1") (codes "r2") own_message resent_message refl
      refl refl refl refl refl refl

abbrev resolved_event : ChannelEvent
resolved_event = record {
  id = codes "n9";
  raw_event_id = codes "r1";
  event_type = codes "conversation_status_changed";
  tenant_id = codes "default";
  channel_id = codes "chatwoot";
  conversation_id = codes "9";
  status = some ConversationStatus.resolved;
  replyable = none;
  paused = false;
  assigned_agent_id = none;
  assigned_team_id = none;
  created_at = 100;
}

abbrev after_event : ConversationState
after_event = record calm {
  status = some ConversationStatus.resolved;
  replyable = false;
  updated_at = 120;
}

translated_event-Suppressed_example : Suppressed AutomationMode.assist after_event 130
unfolding translate_channel_event is_conversation_event event_conversation_id conversation_payload
    label_set conversation_status assigned_agent_id assigned_team_id created_at tenant_of channel_of
    status_named mem_text any row_to_state row_status channel_state status_of_text
translated_event-Suppressed_example =
    translated_event-Suppressed python resolved_conversation (codes "r1") resolved_event
      AutomationMode.assist 120 130 calm_row after_event refl (inl refl) refl

abbrev resolved_state : ChannelSafetyState
resolved_state = record {
  conversation_id = codes "9";
  replyable = none;
  paused = false;
  assigned_agent_id = none;
  assigned_team_id = none;
  status = some ConversationStatus.resolved;
  labels = [];
}

conversation_safety-blocked_example :
    (rule : PolicyRule) × (channel_state_blocked_reason claimed_reply resolved_state ≡ some rule)
unfolding conversation_safety_from_response safety_of label_set ◌or◌ get safety_payload unwrapped
    assigned_agent_id assigned_team_id conversation_status mem_text status_named any
conversation_safety-blocked_example =
    conversation_safety-blocked python (codes "9") resolved_conversation resolved_state
      claimed_reply refl (inl refl)

abbrev labels_sent : List Request
labels_sent = (get_conversation_safety (answering 200 (obj resolved_conversation)) (codes "9") []).1

add_conversation_labels-mem_example :
    (merged : List Text) × ((add_conversation_labels
        (answering 200 (obj resolved_conversation))
        (codes "9")
        (codes "needs-human" ∷ [])
        []).1
      ≡ labels_request (answering 200 (obj resolved_conversation)) (codes "9") merged ∷ labels_sent)
    × ((x : Text) → (x ∈ merged) ↔ ((x ∈ []) ⊎ (x ∈ (codes "needs-human" ∷ []))))
unfolding get_conversation_safety request_json conversation_safety_from_response safety_of label_set
    ◌or◌ get safety_payload unwrapped assigned_agent_id assigned_team_id conversation_status
    mem_text status_named any
add_conversation_labels-mem_example =
    add_conversation_labels-mem (answering 200 (obj resolved_conversation)) (codes "9")
      (codes "needs-human" ∷ []) [] labels_sent resolved_state refl
