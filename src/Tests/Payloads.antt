-- ===== src/Tests/Payloads.antt =====
-- Payloads of Chatwoot's webhooks, its answers, and the services around the translators.
use Prim.Native.Nat.{ℕ}
use mathlib.Core.Bool.{true, false}
use mathlib.Core.Option.{none}
use mathlib.Core.List.{map}
use wootpilot.Http.{json, response}
use wootpilot.Prelude.Tests.{ltb}
use wootpilot.Prelude.Text.{codes}
use wootpilot.Prelude.Json.{Json, bool, int, str, arr, obj, nil, item, Fields, end, field}
use wootpilot.Domain.Outbound.{ok}
use wootpilot.Chatwoot.Payload.{Python}
use wootpilot.Chatwoot.Client.{Chatwoot}
use wootpilot.Catalog.Values.{Library}
use wootpilot.Catalog.StoreApi.{StoreApi}
use wootpilot.Tests.Fixtures.{ascii, decimal_of, lower_code}

abbrev pub python : Python
python = record {
  repr = λ _. codes "{}";
  lower = map lower_code;
  canonical_hash = λ _. codes "h";
  from_timestamp = λ _. ok 100;
  from_iso = λ _. none;
  now = 100;
  new_id = codes "n9";
}

-- The agent's own post, as Chatwoot reports it.
abbrev pub own_post : Fields
own_post = field (codes "event") (str (codes "message_created")) (
    field (codes "id") (int false 12) (
      field (codes "message_type") (str (codes "outgoing")) (
        field (codes "content") (str (codes "Hi"))
          (field (codes "conversation") (obj (field (codes "id") (int false 9) end)) end))))

abbrev pub resolved_conversation : Fields
resolved_conversation =
    field (codes "event") (str (codes "conversation_status_changed"))
      (field (codes "id") (int false 9) (field (codes "status") (str (codes "resolved")) end))

-- A client whose every request is answered by a status and a body.
abbrev pub answering : ℕ → Json → Chatwoot
answering status body = record {
  base_url = codes "https://chat/";
  account_id = codes "1";
  api_token = codes "k";
  transport = λ _. response status (json body);
  is_success = λ s. ltb s 300;
  python = python;
}

abbrev pub library : Library
library = record {
  repr = λ _. codes "{}";
  upper = λ t. t;
  unescape = λ t. t;
  int_of_float = λ _. ok (record { negative = false; magnitude = 0 });
  decimal = decimal_of;
  unicode = ascii;
}

-- A cap at 10 reais, in stock.
abbrev pub cap_payload : Fields
cap_payload = field (codes "id") (int false 7) (
    field (codes "name") (str (codes "Cap")) (
      field (codes "prices")
        (obj (
          field (codes "currency_code") (str (codes "BRL"))
            (field (codes "price") (str (codes "1000")) end)))
        (field (codes "price_html") (str (codes "R$ 10,00"))
          (field (codes "is_in_stock") (bool true) end))))

abbrev pub store : StoreApi
store = record {
  base_url = codes "https://shop";
  transport = λ _ _. response 200 (json (arr (item (obj cap_payload) nil)));
  is_success = λ s. ltb s 300;
  library = library;
}
