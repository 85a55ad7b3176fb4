-- ===== src/Chatwoot/Events.antt =====
-- src/wootpilot/integrations/chatwoot.py: translate_channel_event.
use mathlib.Core.Bool.{Bool, ◌||◌, not}
use mathlib.Core.Option.{Option, none, some}
use mathlib.Core.List.{List, map}
use wootpilot.Prelude.Tests.{if◌then◌else◌}
use wootpilot.Prelude.Text.{Text, codes, str_eq, mem_text}
use wootpilot.Prelude.Json.{
  Json, null, bool, str, Fields, get, is_truthy, ◌or◌, is_null, as_dict, iterate, str_of, arr, nil,
  obj, end,
}
use wootpilot.Domain.Messages.{ChannelEvent}
use wootpilot.Domain.Outbound.{Result, ok, err, ◌>>=◌, Failure}
use wootpilot.Chatwoot.Payload.{
  Python, type_error, event_type, assigned_agent_id, assigned_team_id, created_at,
  conversation_status,
}

-- A field of a strict model with the type `bool | None`.
abbrev pub optional_bool : Json → Result (Option Bool)
optional_bool null = ok none
optional_bool (bool b) = ok (some b)
optional_bool _ = err Failure.value_error

unfoldable pub is_conversation_event : (event : Text) → Bool
unfolding str_eq
is_conversation_event event =
    str_eq event (codes "conversation_created")
    || str_eq event (codes "conversation_updated")
    || str_eq event (codes "conversation_status_changed")

abbrev pub or_payload : (payload conversation : Fields) → Fields
or_payload payload end = payload
or_payload payload conversation = conversation

unfoldable pub conversation_payload : (payload : Fields) → Fields
unfolding get
conversation_payload payload = or_payload payload (as_dict (get payload (codes "conversation")))

module _ (py : Python) where
  -- {str(item) for item in labels}
  unfoldable pub label_set : Json → Result (List Text)
  unfolding str_of
  label_set labels = elim (iterate labels) [
    | none ↦ err type_error
    | some values ↦ ok (map (str_of py.repr) values)
  ]

  unfoldable pub tenant_of : (payload conversation : Fields) → Text
  unfolding str_of get ◌or◌
  tenant_of payload conversation =
      let account = as_dict (get conversation (codes "account") or get payload (codes "account")) in
      str_of py.repr (
        get account (codes "id")
        or get payload (codes "account_id")
        or get payload (codes "accountId")
        or str (codes "default"))

  unfoldable pub channel_of : (conversation : Fields) → Text
  unfolding str_of get ◌or◌
  channel_of conversation = str_of py.repr (
      get conversation (codes "inbox_id")
      or get conversation (codes "inboxId")
      or get (as_dict (get conversation (codes "inbox"))) (codes "id")
      or str (codes "chatwoot"))

  -- conversation.get("id") or payload.get("conversation_id")
  unfoldable pub event_conversation_id : (payload : Fields) → Json
  unfolding get ◌or◌
  event_conversation_id payload =
      get (conversation_payload payload) (codes "id") or get payload (codes "conversation_id")

  -- The event of a payload that has a conversation id.
  unfoldable pub built_event :
      (payload : Fields) (event : Text) (raw_event_id : Text) → Result ChannelEvent
  built_event payload event raw_event_id = do
    let conversation = conversation_payload payload
    let attributes = as_dict (get conversation (codes "custom_attributes") or obj end)
    labels ←
        label_set (get conversation (codes "labels") or get payload (codes "labels") or arr nil)
    status ← conversation_status py (get conversation (codes "status"))
    agent ← assigned_agent_id py conversation
    team ← assigned_team_id py conversation
    moment ←
        created_at py (get conversation (codes "updated_at") or get payload (codes "created_at"))
    replyable ← optional_bool (get conversation (codes "can_reply"))
    ok (record {
      id = py.new_id;
      raw_event_id = raw_event_id;
      event_type = event;
      tenant_id = tenant_of payload conversation;
      channel_id = channel_of conversation;
      conversation_id = str_of py.repr (event_conversation_id payload);
      status = status;
      replyable = replyable;
      paused =
          mem_text (codes "wootpilot-paused") labels
          || is_truthy (get attributes (codes "wootpilot_paused"));
      assigned_agent_id = agent;
      assigned_team_id = team;
      created_at = moment;
    })

  -- Not a conversation event, or no conversation id.
  unfoldable pub is_no_event : (payload : Fields) → Bool
  unfolding event_type get ◌or◌ str_eq
  is_no_event payload =
      not (is_conversation_event (event_type py payload)) || is_null (event_conversation_id payload)

  unfoldable pub translate_channel_event :
      (payload : Fields) (raw_event_id : Text) → Result (Option ChannelEvent)
  unfolding is_no_event built_event event_type
  translate_channel_event payload raw_event_id =
      if is_no_event payload
      then ok none
      else built_event payload (event_type py payload) raw_event_id >>= λ e. ok (some e)
