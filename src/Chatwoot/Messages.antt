-- ===== src/Chatwoot/Messages.antt =====
-- src/wootpilot/integrations/chatwoot.py: translate_message. A failure is what the translation
-- raises: a value that a strict model refuses, or a container in a set of names.
use Prim.Native.Nat.{ℕ}
use mathlib.Core.Bool.{Bool, false, ◌&&◌, ◌||◌, not}
use mathlib.Core.Option.{Option, none, some}
use mathlib.Core.List.{List, [], ◌∷◌, map}
use wootpilot.Prelude.Tests.{if◌then◌else◌}
use wootpilot.Prelude.Text.{Text, codes, truthy, str_eq, strip}
use wootpilot.Prelude.Json.{
  Json, str, Fields, end, get, is_truthy, ◌or◌, is_null, as_dict, as_list, iterate, is_dict, str_of,
  obj, arr, nil,
}
use wootpilot.Domain.Messages.{
  AttachmentMetadata, ChannelMetadata, MessageDirection, MessageVisibility, NormalizedMessage,
}
use wootpilot.Domain.Outbound.{Result, ok, ◌>>=◌, Failure}
use wootpilot.Chatwoot.Payload.{
  Python, type_error, optional_str, event_type, message_of, assigned_agent_id, assigned_team_id,
  author_type, created_at,
}

-- str(value) if value is not None else None
abbrev pub str_or_none : (repr : Json → Text) → Json → Option Text
str_or_none repr value = if is_null value then none else some (str_of repr value)

unfoldable pub direction_of : (message_type : Text) → MessageDirection
unfolding str_eq
direction_of message_type =
    if str_eq message_type (codes "incoming")
      || str_eq message_type (codes "0")
      || str_eq message_type (codes "inbound")
    then MessageDirection.inbound
    else MessageDirection.outbound

abbrev pub visibility_of : Bool → MessageVisibility
visibility_of private = if private then MessageVisibility.private else MessageVisibility.public

-- The dicts of a message payload: the message, and around it its conversation, account and inbox.
abbrev pub conversation_of : (payload message : Fields) → Fields
conversation_of payload message =
    as_dict (get message (codes "conversation") or get payload (codes "conversation"))

abbrev pub account_of : (payload message : Fields) → Fields
account_of payload message = as_dict (
    get message (codes "account")
    or get payload (codes "account")
    or get (conversation_of payload message) (codes "account"))

abbrev pub inbox_of : (payload message : Fields) → Fields
inbox_of payload message = as_dict (
    get message (codes "inbox")
    or get payload (codes "inbox")
    or get (conversation_of payload message) (codes "inbox"))

abbrev pub sender_of : (payload message : Fields) → Fields
sender_of payload message = as_dict (get message (codes "sender") or get payload (codes "sender"))

module _ (py : Python) where
  abbrev pub text_of : Json → Text
  text_of value = str_of py.repr value

  unfoldable pub attachment : Fields → Result AttachmentMetadata
  unfolding ◌or◌ get str_of
  attachment fields = do
    content_type ← optional_str (
        get fields (codes "content_type")
        or get fields (codes "file_type")
        or get fields (codes "extension"))
    file_name ← optional_str (get fields (codes "file_name") or get fields (codes "filename"))
    url ← optional_str (
        get fields (codes "data_url")
        or get fields (codes "download_url")
        or get fields (codes "url"))
    ok (record {
      provider_attachment_id = str_or_none py.repr (get fields (codes "id"));
      content_type = content_type;
      file_name = file_name;
      url = url;
    })

  abbrev pub push :
      Result AttachmentMetadata
      → Result (List AttachmentMetadata)
      → Result (List AttachmentMetadata)
  push first rest = first >>= λ a. rest >>= λ others. ok (a ∷ others)

  -- _attachments, on the items of the list: an item that is no dict is passed over.
  unfoldable pub attachments : List Json → Result (List AttachmentMetadata)
  unfolding ◌or◌ get str_of
  attachments [] = ok []
  attachments (obj fields ∷ values) = push (attachment fields) (attachments values)
  attachments (_ ∷ values) = attachments values

  -- What _apply_channel_metadata raises when it reads the labels, then the custom attributes.
  abbrev pub unreadable_of : (labels custom_attributes : Json) → Option Failure
  unreadable_of labels custom_attributes = elim (iterate labels) [
    | none ↦ some type_error
    | some _ ↦
        if is_dict custom_attributes
        then none
        else some (Failure.unexpected (codes "AttributeError"))
  ]

  unfoldable pub label_texts : Json → List Text
  unfolding str_of
  label_texts labels = elim (iterate labels) [ none ↦ [] | some values ↦ map text_of values ]

  -- metadata["chatwoot"]
  unfoldable pub metadata_of :
      (labels custom_attributes : Json) (conversation : Fields) (agent team : Option Text)
      → ChannelMetadata
  unfolding get is_truthy str_of
  metadata_of labels custom_attributes conversation agent team =
      let can_reply = get conversation (codes "can_reply") in
      record {
        paused = false;
        labels = label_texts labels;
        wootpilot_paused = is_truthy (get (as_dict custom_attributes) (codes "wootpilot_paused"));
        status = str_or_none py.repr (get conversation (codes "status"));
        can_reply = if is_null can_reply then none else some (is_truthy can_reply);
        assigned_agent_id = some agent;
        assigned_team_id = some team;
        unreadable = unreadable_of labels custom_attributes;
      }

  -- The message, from the parts of the payload whose reading may fail.
  unfoldable pub message_record :
      (payload message : Fields) (raw_event_id : Text) (created_at : ℕ)
      (assigned_agent_id assigned_team_id : Option Text) (attachments : List AttachmentMetadata)
      → NormalizedMessage
  message_record payload message raw_event_id created_at assigned_agent_id assigned_team_id
        attachments =
      let conversation = conversation_of payload message in
      let sender = sender_of payload message in
      let account_id = text_of (
        get (account_of payload message) (codes "id")
        or get payload (codes "account_id")
        or str (codes "default")) in
      let inbox_id = text_of (
        get (inbox_of payload message) (codes "id")
        or get conversation (codes "inbox_id")
        or str (codes "chatwoot")) in
      let conversation_id = text_of (get conversation (codes "id")) in
      let message_id = text_of (get message (codes "id")) in
      let contact_id = str_or_none py.repr (get sender (codes "id")) in
      let labels = get conversation (codes "labels") or get payload (codes "labels") or arr nil in
      let custom_attributes = get conversation (codes "custom_attributes") or obj end in
      record {
        id = py.new_id;
        raw_event_id = raw_event_id;
        tenant_id = account_id;
        provider_account_id = account_id;
        provider_inbox_id = inbox_id;
        provider_conversation_id = conversation_id;
        provider_message_id = message_id;
        provider_contact_id = contact_id;
        channel_id = inbox_id;
        conversation_id = conversation_id;
        message_id = message_id;
        contact_id = contact_id;
        direction = direction_of (text_of (get message (codes "message_type") or str []));
        visibility = visibility_of (is_truthy (get message (codes "private")));
        author_type = author_type py message sender;
        content = strip (text_of (get message (codes "content") or str []));
        attachments = attachments;
        created_at = created_at;
        metadata =
            metadata_of labels custom_attributes conversation assigned_agent_id assigned_team_id;
      }

  -- The message of a payload that has a message id and a conversation id.
  unfoldable pub built_message :
      (payload message : Fields) (raw_event_id : Text) → Result NormalizedMessage
  built_message payload message raw_event_id = do
    moment ← created_at py (get message (codes "created_at") or get payload (codes "created_at"))
    agent ← assigned_agent_id py (conversation_of payload message)
    team ← assigned_team_id py (conversation_of payload message)
    files ←
        attachments
          (as_list (get message (codes "attachments") or get payload (codes "attachments")))
    ok (message_record payload message raw_event_id moment agent team files)

  -- Not a message event, or no message id, or no conversation id.
  unfoldable pub is_no_message : (payload : Fields) → Bool
  unfolding event_type get is_truthy ◌or◌ str_eq
  is_no_message payload =
      let event = event_type py payload in
      let message = message_of payload in
      truthy event && not (str_eq event (codes "message_created"))
      || is_null (get message (codes "id"))
      || not (is_truthy (get (conversation_of payload message) (codes "id")))

  unfoldable pub translate_message :
      (payload : Fields) (raw_event_id : Text) → Result (Option NormalizedMessage)
  unfolding is_no_message built_message
  translate_message payload raw_event_id =
      if is_no_message payload
      then ok none
      else built_message payload (message_of payload) raw_event_id >>= λ m. ok (some m)
