-- ===== src/Chatwoot/Client.antt =====
-- src/wootpilot/integrations/chatwoot.py: ChatwootClient. The transport answers each request; its
-- answer may depend on all requests so far. Logging is left out.
use Prim.Native.Nat.{ℕ}
use mathlib.Core.Bool.{Bool}
use mathlib.Core.Option.{Option, none, some}
use mathlib.Core.List.{List, [], ◌∷◌, ◌++◌, reverse}
use wootpilot.Prelude.Tests.{◌==◌, if◌then◌else◌}
use wootpilot.Prelude.Text.{Text, codes, sorted, dedup}
use wootpilot.Http.{Body, json, undecodable, Reply, response, failed, broken}
use wootpilot.Prelude.Json.{Json, bool, str, arr, texts, Fields, end, field}
use wootpilot.Domain.Outbound.{Result, ok, err}
use wootpilot.Outbound.Checks.{ChannelSafetyState}
use wootpilot.Chatwoot.Payload.{Python}
use wootpilot.Chatwoot.Responses.{
  http_status, http_error, value_error, other, Attempt, done, raised, ◌>=>◌, chatwoot_error,
  message_id_from_create_response, conversation_safety_from_response,
}

pub data Method : Type 0 where
  method_get method_post : Method

pub record Request : Type 0 where
  pub method : Method
  pub url : Text
  pub payload : Option Fields
  pub headers : List (Text × Text)

-- The settings of the client, the HTTP library and the standard library.
pub record Chatwoot : Type 0 where
  pub base_url : Text
  pub account_id : Text
  pub api_token : Text
  pub transport : List Request → Reply
  pub is_success : ℕ → Bool  -- raise_for_status returns
  pub python : Python

-- A method of the client: its result, and the requests sent so far, the latest first.
abbrev pub Session : Type 0 → Type 0
Session A = List Request → Result A × List Request

module _ {A B : Type 0} where
  abbrev pub and_then : Result A → (A → Session B) → Session B
  and_then (ok a) f sent = f a sent
  and_then (err e) f sent = (err e, sent)

  infixl 5 ◌>>=◌
  abbrev pub ◌>>=◌ : Session A → (A → Session B) → Session B
  ◌>>=◌ m f sent = and_then (m sent).0 f (m sent).1

abbrev pub drop_slashes : Text → Text
drop_slashes [] = []
drop_slashes (c ∷ text) = let rest = drop_slashes text in if c == b'/' then rest else c ∷ text

-- text.rstrip("/")
abbrev pub rstrip_slash : Text → Text
rstrip_slash text = reverse (drop_slashes (reverse text))

-- The keyword `status_code` of the error: the status of the response, once there is one.
abbrev pub status_of : Reply → Option ℕ
status_of (response status body) = some status
status_of _ = none

abbrev pub decoded : Body → Attempt Json
decoded (json answer) = done answer
decoded (undecodable class_name) = raised (value_error class_name)

-- try: ... except ...: raise _chatwoot_error(...)
abbrev pub controlled : {A : Type 0} → (operation : Text) → Option ℕ → Attempt A → Result A
controlled operation status_code (done a) = ok a
controlled operation status_code (raised e) = err (chatwoot_error operation e status_code)

module _ (client : Chatwoot) where
  unfoldable pub account_base_url : Text
  account_base_url =
      rstrip_slash client.base_url ++ (codes "/api/v1/accounts/" ++ client.account_id)

  abbrev pub headers : List (Text × Text)
  headers =
      (codes "api-access-token", client.api_token) ∷ (codes "Accept", codes "application/json") ∷ []

  unfoldable pub request : Method → (path : Text) → (payload : Option Fields) → Request
  unfolding account_base_url
  request method path payload = record {
    method = method;
    url = account_base_url ++ path;
    payload = payload;
    headers = headers;
  }

  -- response.raise_for_status(), then response.json()
  abbrev pub received : Reply → Attempt Json
  received (response status body) =
      if client.is_success status then decoded body else raised (http_status status)
  received (failed class_name) = raised (http_error class_name)
  received (broken class_name) = raised (other class_name)

  unfoldable pub request_json :
      (operation : Text) → Method → (path : Text) → (payload : Option Fields) → Session Json
  unfolding request
  request_json operation method path payload sent =
      let sent' = request method path payload ∷ sent in
      let reply = client.transport sent' in
      (controlled operation (status_of reply) (received reply), sent')

  abbrev pub conversation_path : (conversation_id : Text) → (rest : Text) → Text
  conversation_path conversation_id rest = codes "/conversations/" ++ (conversation_id ++ rest)

  unfoldable pub create_message : (conversation_id content : Text) (private : Bool) → Session Text
  unfolding request message_id_from_create_response
  create_message conversation_id content private sent =
      let path = conversation_path conversation_id (codes "/messages") in
      let payload =
        field (codes "content") (str content) (field (codes "private") (bool private) end) in
      let sent' = request method_post path (some payload) ∷ sent in
      let reply = client.transport sent' in
      let operation = codes "create_message" in
      let found = received reply >=> λ answer.
      message_id_from_create_response client.python operation (status_of reply) answer in
      (controlled operation (status_of reply) found, sent')

  unfoldable pub set_conversation_status : (conversation_id status : Text) → Session (Unit {0})
  set_conversation_status conversation_id status = do
    _ ←
        request_json (codes "set_conversation_status") method_post
          (conversation_path conversation_id (codes "/toggle_status"))
          (some (field (codes "status") (str status) end))
    λ sent. (ok tt, sent)

  unfoldable pub set_conversation_labels :
      (conversation_id : Text) (labels : List Text) → Session (Unit {0})
  set_conversation_labels conversation_id labels = do
    _ ←
        request_json (codes "set_conversation_labels") method_post
          (conversation_path conversation_id (codes "/labels"))
          (some (field (codes "labels") (arr (texts labels)) end))
    λ sent. (ok tt, sent)

  unfoldable pub get_conversation_safety : (conversation_id : Text) → Session ChannelSafetyState
  get_conversation_safety conversation_id = do
    answer ←
        request_json (codes "get_conversation_safety") method_get
          (conversation_path conversation_id []) none
    λ sent. (conversation_safety_from_response client.python conversation_id answer, sent)

  unfoldable pub add_conversation_labels :
      (conversation_id : Text) (labels : List Text) → Session (Unit {0})
  add_conversation_labels conversation_id labels = do
    existing ← get_conversation_safety conversation_id
    set_conversation_labels conversation_id (sorted (dedup (existing.labels ++ labels)))
