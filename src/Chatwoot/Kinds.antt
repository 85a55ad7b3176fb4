-- ===== src/Chatwoot/Kinds.antt =====
-- integrations/chatwoot.py: which of the two translators takes a payload, and the key under which a
-- delivery without an id of its own is stored.
use mathlib.Core.Path.{◌≡◌, refl, sym, subst, ◌∙◌}
use mathlib.Core.Logic.{inl, inr}
use mathlib.Core.Bool.{true, false, ◌&&◌, not}
use mathlib.Core.Option.{none, some}
use mathlib.Core.List.{[], ◌∷◌, ◌++◌}
use native.Mathlib.Omega.{arith}
use wootpilot.Prelude.Tests.{Bool-cases}
use wootpilot.Prelude.Text.{Text, codes, truthy, str_eq, str_eq_iff}
use wootpilot.Prelude.Json.{obj, Fields, str_of, get, is_truthy, ◌or◌}
use wootpilot.Domain.Messages.{NormalizedMessage}
use wootpilot.Domain.Outbound.{ok}
use wootpilot.Persistence.Rows.{Db}
use wootpilot.Ingress.Webhooks.{WebhookResultStatus, Webhooks}
use wootpilot.Ingress.Deliveries.{handle-duplicate}
use wootpilot.Chatwoot.Payload.{Python, event_prefix, event_type, message_of, provider_event_id}
use wootpilot.Chatwoot.Messages.{built_message, is_no_message, message_record, translate_message}
use wootpilot.Chatwoot.Events.{is_conversation_event, is_no_event, translate_channel_event}
use wootpilot.Chatwoot.Silence.{translated_of_ok}
use wootpilot.Chatwoot.Deliveries.{delivery_of, handle_body}

-- The name of a message event is empty or message_created, which names no conversation event.
message_event-other :
    (event : Text)
    → (truthy event && not (str_eq event (codes "message_created"))) ≡ false
    → is_conversation_event event ≡ false
unfolding is_conversation_event str_eq
message_event-other [] h = refl
message_event-other (c ∷ event) h =
    let created = (str_eq_iff (c ∷ event) (codes "message_created")).0 (ground arith) in
    subst (λ (e : Text). is_conversation_event e ≡ false) (sym created) refl

-- No payload is both: what translate_message takes as a message, translate_channel_event leaves
-- alone.
pub translators-exclusive :
    (py : Python) (payload : Fields) (raw_event_id raw_event_id' : Text) (m : NormalizedMessage)
    → translate_message py payload raw_event_id ≡ ok (some m)
    → translate_channel_event py payload raw_event_id' ≡ ok none
unfolding translate_message translate_channel_event is_no_message is_no_event
translators-exclusive py payload raw_event_id raw_event_id' m h =
    elim (Bool-cases (is_no_message py payload)) [
      | inl nothing ↦ absurd (ground arith)
      | inr message ↦
          let other = message_event-other (event_type py payload) (ground arith) in rw other refl
    ]

-- The message id of a translated message is the id of its payload.
translated_id :
    (py : Python) (payload : Fields) (raw_event_id : Text) (m : NormalizedMessage)
    → translate_message py payload raw_event_id ≡ ok (some m)
    → m.message_id ≡ str_of py.repr (get (message_of payload) (codes "id"))
unfolding translate_message built_message message_record
translated_id py payload raw_event_id m h =
    let built =
      translated_of_ok (is_no_message py payload)
        (built_message py payload (message_of payload) raw_event_id) m h in
    ground arith

-- The key of a payload with a message id of its own.
key_of_id :
    (py : Python) (payload : Fields)
    → is_truthy (get (message_of payload) (codes "id")) ≡ true
    → provider_event_id py payload none
      ≡ event_prefix py payload ++ str_of py.repr (get (message_of payload) (codes "id"))
unfolding provider_event_id ◌or◌
key_of_id py payload present = rw (present, present) refl

same_key :
    (py : Python) (payload payload' : Fields)
    → event_type py payload' ≡ event_type py payload
    → is_truthy (get (message_of payload) (codes "id")) ≡ true
    → is_truthy (get (message_of payload') (codes "id")) ≡ true
    → str_of py.repr (get (message_of payload') (codes "id"))
      ≡ str_of py.repr (get (message_of payload) (codes "id"))
    → provider_event_id py payload' none ≡ provider_event_id py payload none
same_key py payload payload' event present present' id =
    rw (key_of_id py payload present, key_of_id py payload' present', event, id) refl

-- Chatwoot may send no delivery id. Once a delivery of a message is answered, each later delivery
-- that is translated to a message with the same message id, under the same event name, is answered
-- as a duplicate and changes no table, however the rest of its payload differs. The ids are those
-- that the payloads give, neither 0 nor empty.
pub handle_body-duplicate :
    (py : Python) (env env' : Webhooks) (payload payload' : Fields) (hash hash' : Text) (db : Db)
    (status : WebhookResultStatus) (raw_event_id raw_event_id' : Text) (m m' : NormalizedMessage)
    → (handle_body py env (obj payload) none hash db).0 ≡ ok status
    → translate_message py payload raw_event_id ≡ ok (some m)
    → translate_message py payload' raw_event_id' ≡ ok (some m')
    → m'.message_id ≡ m.message_id
    → event_type py payload' ≡ event_type py payload
    → is_truthy (get (message_of payload) (codes "id")) ≡ true
    → is_truthy (get (message_of payload') (codes "id")) ≡ true
    → handle_body py env'
        (obj payload')
        none
        hash'
        (handle_body py env (obj payload) none hash db).1
      ≡ (ok WebhookResultStatus.duplicate, (handle_body py env (obj payload) none hash db).1)
unfolding handle_body delivery_of
handle_body-duplicate py env env' payload payload' hash hash' db status raw_event_id raw_event_id' m
      m' answered first later same event present present' =
    handle-duplicate env env' (delivery_of py payload none hash)
      (delivery_of py payload' none hash') db status answered
      (same_key py payload payload' event present present' (
        sym (translated_id py payload' raw_event_id' m' later)
        ∙ same
        ∙ translated_id py payload raw_event_id m first))
