-- ===== src/Chatwoot/Suppression.antt =====
-- integrations/chatwoot.py and application/webhooks.py: conversation events that stop new turns and public replies.
use Prim.Native.Nat.{ℕ}
use mathlib.Core.Path.{◌≡◌}
use mathlib.Core.Logic.{◌⊎◌, inl, inr}
use mathlib.Core.Bool.{Bool, true}
use mathlib.Core.Option.{some}
use native.Mathlib.Omega.{arith}
use wootpilot.Prelude.Text.{Text, codes}
use wootpilot.Prelude.Json.{str, obj, end, Fields, get, is_truthy, as_dict, ◌or◌}
use wootpilot.Domain.Messages.{ChannelEvent, ConversationState}
use wootpilot.Domain.Rules.{AutomationMode}
use wootpilot.Domain.Outbound.{ok}
use wootpilot.Persistence.Rows.{ConversationStateRow}
use wootpilot.Persistence.Repository.{row_to_state}
use wootpilot.Ingress.State.{channel_state}
use wootpilot.Ingress.Suppression.{Suppressed, channel_state-Suppressed}
use wootpilot.Chatwoot.Payload.{Python, conversation_status, event_type}
use wootpilot.Chatwoot.Events.{
  built_event, conversation_payload, is_no_event, translate_channel_event,
}
use wootpilot.Chatwoot.Closed.{resolved_status}
use wootpilot.Chatwoot.Silence.{translated_of_ok}

abbrev pub is_paused_by_attribute : (conversation : Fields) → Bool
is_paused_by_attribute conversation = is_truthy (
    get (as_dict (get conversation (codes "custom_attributes") or obj end))
      (codes "wootpilot_paused"))

record Taken (py : Python) (conversation : Fields) (event : ChannelEvent) : Type 0 where
  status : conversation_status py (get conversation (codes "status")) ≡ ok event.status
  paused : is_paused_by_attribute conversation ≡ true → event.paused ≡ true

built_event-Taken :
    (py : Python) (payload : Fields) (name raw_event_id : Text) (event : ChannelEvent)
    → built_event py payload name raw_event_id ≡ ok event
    → Taken py (conversation_payload payload) event
unfolding built_event
built_event-Taken py payload name raw_event_id event h = ground arith

-- A webhook that tells that a conversation is resolved, or that its custom attributes pause it,
-- stops new turns and public replies: with the state that it leaves, whatever was stored before, at
-- every time, the gate blocks each turn in every mode, and a worker that reads this state posts
-- nothing for a queued public message. Private notes that are queued already are not meant.
pub translated_event-Suppressed :
    (py : Python) (payload : Fields) (raw_event_id : Text) (event : ChannelEvent)
    (mode : AutomationMode) (updated_at now : ℕ) (row : ConversationStateRow)
    (state : ConversationState)
    → translate_channel_event py payload raw_event_id ≡ ok (some event)
    → (get (conversation_payload payload) (codes "status") ≡ str (codes "resolved"))
      ⊎ (is_paused_by_attribute (conversation_payload payload) ≡ true)
    → row_to_state (channel_state updated_at event row) ≡ ok state
    → Suppressed mode state now
unfolding translate_channel_event
translated_event-Suppressed py payload raw_event_id event mode updated_at now row state h stops =
    let taken = built_event-Taken py payload (event_type py payload) raw_event_id event (
      translated_of_ok (is_no_event py payload)
        (built_event py payload (event_type py payload) raw_event_id) event h) in
    channel_state-Suppressed mode updated_at now event row state (elim stops [
      | inl resolved ↦ inl (
          resolved_status py (get (conversation_payload payload) (codes "status")) event.status
            resolved taken.status)
      | inr paused ↦ inr (taken.paused paused)
    ])
