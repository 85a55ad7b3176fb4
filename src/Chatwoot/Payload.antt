-- ===== src/Chatwoot/Payload.antt =====
-- src/wootpilot/integrations/chatwoot.py: the parts of a webhook payload that both translators read.
use Prim.Native.Nat.{ℕ}
use mathlib.Core.Bool.{◌||◌}
use mathlib.Core.Option.{Option, none, some}
use mathlib.Core.List.{[], ◌∷◌, ◌++◌}
use wootpilot.Prelude.Tests.{◌==◌, if◌then◌else◌}
use wootpilot.Prelude.Text.{Text, codes, truthy, str_eq, contains}
use wootpilot.Prelude.Json.{
  Json, null, bool, int, float, str, obj, Fields, get, is_truthy, ◌or◌, as_dict, is_hashable,
  is_blank, str_of,
}
use wootpilot.Domain.Messages.{ConversationStatus, MessageAuthorType}
use wootpilot.Domain.Outbound.{Result, ok, err, Failure}

-- What the standard library and the surroundings answer: str() of a list or a dict, str.lower, the
-- digest of the canonical JSON text of a payload, the readings of a timestamp and of an ISO text
-- (in UTC where it names no zone; `none` is ValueError), the clock, and the next id.
pub record Python : Type 0 where
  pub repr : Json → Text
  pub lower : Text → Text
  pub canonical_hash : Fields → Text
  pub from_timestamp : Json → Result ℕ
  pub from_iso : Text → Option ℕ
  pub now : ℕ
  pub new_id : Text

-- TypeError
abbrev pub type_error : Failure
type_error = Failure.unexpected (codes "TypeError")

-- A field of a strict model with the type `str | None`.
abbrev pub optional_str : Json → Result (Option Text)
optional_str null = ok none
optional_str (str t) = ok (some t)
optional_str _ = err Failure.value_error

-- text.replace("Z", "+00:00")
unfoldable pub replace_z : Text → Text
replace_z [] = []
replace_z (c ∷ text) =
    let rest = replace_z text in if c == b'Z' then codes "+00:00" ++ rest else c ∷ rest

abbrev pub assignee_of : Fields → Json
assignee_of conversation =
    get (as_dict (get (as_dict (get conversation (codes "meta"))) (codes "assignee"))) (codes "id")

abbrev pub agent_value : Fields → Json
agent_value conversation =
    get conversation (codes "assignee_id")
    or get conversation (codes "assigneeId")
    or get (as_dict (get conversation (codes "assignee"))) (codes "id")
    or assignee_of conversation

abbrev pub team_value : Fields → Json
team_value conversation =
    get conversation (codes "team_id")
    or get conversation (codes "teamId")
    or get (as_dict (get conversation (codes "team"))) (codes "id")
    or get (as_dict (get (as_dict (get conversation (codes "meta"))) (codes "team"))) (codes "id")

unfoldable pub status_named : Text → Option ConversationStatus
unfolding str_eq
status_named name =
    if str_eq name (codes "open")
    then some ConversationStatus.open_status
    else if str_eq name (codes "pending")
    then some ConversationStatus.pending
    else if str_eq name (codes "resolved")
    then some ConversationStatus.resolved
    else none

-- str(value) if value not in {None, ""} else None
abbrev pub id_text : (repr : Json → Text) → Json → Result (Option Text)
id_text repr value =
    if is_hashable value
    then (if is_blank value then ok none else ok (some (str_of repr value)))
    else err type_error

abbrev pub message_or_payload : Fields → Json → Fields
message_or_payload payload (obj message) = message
message_or_payload payload _ = payload

-- `payload.get("message")` where it is a dict, or the payload itself
abbrev pub message_of : Fields → Fields
message_of payload = message_or_payload payload (get payload (codes "message"))

module _ (py : Python) where
  unfoldable pub event_type : Fields → Text
  unfolding ◌or◌ get str_of
  event_type payload = str_of py.repr (
      get payload (codes "event")
      or get payload (codes "event_type")
      or get payload (codes "name")
      or str [])

  -- f"{event_type(payload) or 'event'}:"
  abbrev pub event_prefix : Fields → Text
  event_prefix payload =
      let name = event_type payload in (if truthy name then name else codes "event") ++ b':' ∷ []

  abbrev pub header_text : Option Text → Text
  header_text none = []
  header_text (some text) = text

  unfoldable pub provider_event_id : (payload : Fields) (delivery_id : Option Text) → Text
  unfolding is_truthy event_type
  provider_event_id payload delivery_id =
      let given = header_text delivery_id in
      let message_id = get (message_of payload) (codes "id") or get payload (codes "id") in
      if truthy given
      then given
      else if is_truthy message_id
      then event_prefix payload ++ str_of py.repr message_id
      else event_prefix payload ++ py.canonical_hash payload

  unfoldable pub assigned_agent_id : Fields → Result (Option Text)
  unfolding ◌or◌ get str_of
  assigned_agent_id conversation = id_text py.repr (agent_value conversation)

  unfoldable pub assigned_team_id : Fields → Result (Option Text)
  unfolding ◌or◌ get str_of
  assigned_team_id conversation = id_text py.repr (team_value conversation)

  unfoldable pub author_type : (message sender : Fields) → MessageAuthorType
  unfolding ◌or◌ get str_of contains str_eq
  author_type message sender =
      let sender_type = py.lower (
        str_of py.repr
          (get sender (codes "type") or get message (codes "sender_type") or str [])) in
      if contains sender_type (codes "contact")
      then MessageAuthorType.customer
      else if contains sender_type (codes "user")
      then MessageAuthorType.human_agent
      else if contains sender_type (codes "agentbot") || contains sender_type (codes "bot")
      then MessageAuthorType.bot
      else if str_eq (str_of py.repr (get message (codes "message_type"))) (codes "incoming")
      then MessageAuthorType.customer
      else MessageAuthorType.human_agent

  abbrev pub iso_or_now : Text → ℕ
  iso_or_now text = elim (py.from_iso (replace_z text)) [ none ↦ py.now | some moment ↦ moment ]

  unfoldable pub created_at : Json → Result ℕ
  unfolding replace_z
  created_at (bool b) = py.from_timestamp (bool b)
  created_at (int negative n) = py.from_timestamp (int negative n)
  created_at (float is_zero printed) = py.from_timestamp (float is_zero printed)
  created_at (str text) = if truthy text then ok (iso_or_now text) else ok py.now
  created_at _ = ok py.now

  unfoldable pub conversation_status : Json → Result (Option ConversationStatus)
  unfolding str_of
  conversation_status value =
      if is_hashable value
      then (if is_blank value then ok none else ok (status_named (str_of py.repr value)))
      else err type_error
