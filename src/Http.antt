-- ===== src/Http.antt =====
-- What the HTTP library gives the clients of integrations/chatwoot.py and catalog/store_api.py.
use Prim.Native.Nat.{ℕ}
use wootpilot.Prelude.Text.{Text}
use wootpilot.Prelude.Json.{Json}

-- response.json(): a value, or a ValueError of a class.
pub data Body : Type 0 where
  json : Json → Body
  undecodable : (class_name : Text) → Body

-- The answer to a request: a response, an HTTPError or a ValueError of a class, or another error.
pub data Reply : Type 0 where
  response : (status_code : ℕ) → Body → Reply
  failed : (class_name : Text) → Reply
  broken : (class_name : Text) → Reply
