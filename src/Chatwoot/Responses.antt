-- ===== src/Chatwoot/Responses.antt =====
-- src/wootpilot/integrations/chatwoot.py: what the client reads from Chatwoot's answers, and how it
-- classifies what goes wrong.
use Prim.Native.Nat.{ℕ}
use mathlib.Core.Bool.{Bool, true, false, ◌||◌}
use mathlib.Core.Option.{Option, some}
use mathlib.Core.List.{[], ◌∷◌, ◌++◌}
use wootpilot.Prelude.Tests.{◌==◌, if◌then◌else◌}
use wootpilot.Prelude.Lists.{any}
use wootpilot.Prelude.Text.{Text, codes, mem_text}
use wootpilot.Prelude.Json.{
  Json, null, str, arr, nil, obj, Fields, end, get, is_truthy, ◌or◌, as_dict, is_hashable, is_blank,
  int_text, str_of,
}
use wootpilot.Domain.Outbound.{Result, ok, err, ◌>>=◌, ChatwootApiError, Failure}
use wootpilot.Outbound.Checks.{ChannelSafetyState}
use wootpilot.Chatwoot.Payload.{Python, assigned_agent_id, assigned_team_id, conversation_status}
use wootpilot.Chatwoot.Events.{label_set, optional_bool}

-- The exceptions that the client tells apart: HTTPStatusError with its status, another HTTPError and
-- a ValueError with the names of their classes, ChatwootApiError, and any other.
pub data Raised : Type 0 where
  http_status : ℕ → Raised
  http_error value_error : (class_name : Text) → Raised
  api_error : ChatwootApiError → Raised
  other : (class_name : Text) → Raised

pub data Attempt (A : Type 0) : Type 0 where
  done : A → Attempt A
  raised : Raised → Attempt A

infixl 5 ◌>=>◌
abbrev pub ◌>=>◌ : {A B : Type 0} → Attempt A → (A → Attempt B) → Attempt B
done a >=> f = f a
raised e >=> f = raised e

unfoldable pub retryable_status : ℕ → Bool
retryable_status status =
    any (λ retryable. status == retryable) (408 ∷ 409 ∷ 425 ∷ 429 ∷ 500 ∷ 502 ∷ 503 ∷ 504 ∷ [])

-- _chatwoot_error, for the exceptions of its `except` clause
unfoldable pub chatwoot_error : (operation : Text) → Raised → (status_code : Option ℕ) → Failure
unfolding retryable_status int_text
chatwoot_error operation (api_error e) status_code = Failure.chatwoot_api_error e
chatwoot_error operation (http_status status) status_code = Failure.chatwoot_api_error (record {
  code = codes "chatwoot_http_" ++ int_text false status;
  operation = operation;
  retryable = retryable_status status;
  status_code = some status;
})
chatwoot_error operation (http_error class_name) status_code = Failure.chatwoot_api_error (record {
  code = class_name;
  operation = operation;
  retryable = true;
  status_code = status_code;
})
chatwoot_error operation (value_error class_name) status_code = Failure.chatwoot_api_error (record {
  code = class_name;
  operation = operation;
  retryable = false;
  status_code = status_code;
})
chatwoot_error operation (other class_name) status_code = Failure.unexpected class_name

-- ChatwootResponseError(code, operation=operation, retryable=False, status_code=status_code)
abbrev pub response_error : (code operation : Text) (status_code : Option ℕ) → Raised
response_error code operation status_code =
    api_error
      (record { code = code; operation = operation; retryable = false; status_code = status_code })

-- `data["payload"]`, where it is neither None nor a dict
abbrev pub is_bad_payload : Json → Bool
is_bad_payload null = false
is_bad_payload (obj fields) = false
is_bad_payload _ = true

-- payload["conversation"] where it is a dict, or the payload itself
abbrev pub conversation_or : (payload : Fields) → Json → Fields
conversation_or payload (obj conversation) = conversation
conversation_or payload _ = payload

unfoldable pub unwrapped : Fields → Fields
unfolding get
unwrapped payload = conversation_or payload (get payload (codes "conversation"))

-- The dict in the answer that describes the conversation.
unfoldable pub safety_payload : Fields → Fields
unfolding get ◌or◌
safety_payload answer =
    unwrapped (as_dict (get answer (codes "payload") or get answer (codes "data") or obj answer))

module _ (py : Python) where
  unfoldable pub message_id_of : (operation : Text) (status_code : Option ℕ) → Json → Attempt Text
  unfolding str_of
  message_id_of operation status_code message =
      if is_hashable message
      then (if is_blank message
          then raised
              (response_error (codes "chatwoot_response_missing_message_id") operation status_code)
          else done (str_of py.repr message))
      else raised (other (codes "TypeError"))

  unfoldable pub message_id_from_dict :
      (operation : Text) (status_code : Option ℕ) → Fields → Attempt Text
  unfolding get ◌or◌
  message_id_from_dict operation status_code answer =
      let payload = get answer (codes "payload") in
      if is_bad_payload payload
      then raised
          (response_error (codes "chatwoot_response_invalid_message_payload") operation status_code)
      else message_id_of operation status_code
          (get answer (codes "id") or get (as_dict payload) (codes "id"))

  unfoldable pub message_id_from_create_response :
      (operation : Text) (status_code : Option ℕ) → Json → Attempt Text
  message_id_from_create_response operation status_code (obj answer) =
      message_id_from_dict operation status_code answer
  message_id_from_create_response operation status_code _ =
      raised
        (response_error (codes "chatwoot_response_invalid_message_payload") operation status_code)

  unfoldable pub safety_of : (conversation_id : Text) → Fields → Result ChannelSafetyState
  safety_of conversation_id payload = do
    let attributes = as_dict (get payload (codes "custom_attributes") or obj end)
    labels ← label_set py (get payload (codes "labels") or arr nil)
    agent ← assigned_agent_id py payload
    team ← assigned_team_id py payload
    status ← conversation_status py (get payload (codes "status"))
    replyable ← optional_bool (get payload (codes "can_reply"))
    ok (record {
      conversation_id = str_of py.repr (get payload (codes "id") or str conversation_id);
      replyable = replyable;
      paused =
          mem_text (codes "wootpilot-paused") labels
          || is_truthy (get attributes (codes "wootpilot_paused"));
      assigned_agent_id = agent;
      assigned_team_id = team;
      status = status;
      labels = labels;
    })

  -- A body that is no dict has no `get`: AttributeError.
  unfoldable pub conversation_safety_from_response :
      (conversation_id : Text) → Json → Result ChannelSafetyState
  conversation_safety_from_response conversation_id (obj answer) =
      safety_of conversation_id (safety_payload answer)
  conversation_safety_from_response conversation_id _ =
      err (Failure.unexpected (codes "AttributeError"))
