-- ===== src/Chatwoot/Deliveries.antt =====
-- src/wootpilot/application/webhooks.py, handle, from the payload on: what is read from it before the
-- raw event is stored, and the translators, which run after that.
use mathlib.Core.Option.{Option}
use wootpilot.Prelude.Tests.{if◌then◌else◌}
use wootpilot.Prelude.Text.{Text, codes, truthy}
use wootpilot.Prelude.Json.{Json, obj, Fields}
use wootpilot.Domain.Outbound.{err, Failure}
use wootpilot.Persistence.Rows.{Db}
use wootpilot.Ingress.Webhooks.{Delivery, Webhooks, Handled, handle}
use wootpilot.Chatwoot.Payload.{Python, event_type, provider_event_id}
use wootpilot.Chatwoot.Messages.{translate_message}
use wootpilot.Chatwoot.Events.{translate_channel_event}

module _ (py : Python) where
  unfoldable pub delivery_of :
      (payload : Fields) (delivery_id : Option Text) (payload_hash : Text) → Delivery
  unfolding event_type provider_event_id translate_message translate_channel_event
  delivery_of payload delivery_id payload_hash = record {
    provider_event_id = provider_event_id py payload delivery_id;
    event_type = let name = event_type py payload in if truthy name then name else codes "unknown";
    payload_hash = payload_hash;
    translate_message = translate_message py payload;
    translate_channel_event = translate_channel_event py payload;
  }

  -- The handler on a parsed body. One that is no dict has no `get`: AttributeError.
  unfoldable pub handle_body :
      Webhooks → (body : Json) (delivery_id : Option Text) (payload_hash : Text) → Db → Handled
  unfolding delivery_of handle
  handle_body env (obj payload) delivery_id payload_hash db =
      handle env (delivery_of payload delivery_id payload_hash) db
  handle_body env _ delivery_id payload_hash db =
      (err (Failure.unexpected (codes "AttributeError")), db)
