-- ===== src/Chatwoot/Silence.antt =====
-- integrations/chatwoot.py and application/webhooks.py: which payloads start no turn of the agent,
-- among them the agent's own messages, which Chatwoot reports back.
use Prim.Native.Nat.{ℕ}
use mathlib.Core.Path.{◌≡◌, subst}
use mathlib.Core.Logic.{◌⊎◌, inl, inr}
use mathlib.Core.Bool.{Bool, true, false}
use mathlib.Core.Option.{Option, none, some}
use mathlib.Core.List.{List, [], ◌∷◌}
use native.Mathlib.Omega.{arith}
use wootpilot.Prelude.Tests.{if◌then◌else◌}
use wootpilot.Prelude.Lists.{any}
use wootpilot.Prelude.Text.{Text, codes, contains, mem_text}
use wootpilot.Prelude.Json.{str, obj, Fields, get, is_truthy, ◌or◌, as_list}
use wootpilot.Domain.Messages.{AttachmentMetadata, NormalizedMessage, is_customer_public_inbound}
use wootpilot.Domain.Outbound.{Result, ok, err, ◌>>=◌}
use wootpilot.Persistence.Rows.{Db}
use wootpilot.Ingress.Webhooks.{Webhooks}
use wootpilot.Ingress.Quiet.{Quiet, handle-Quiet}
use wootpilot.Chatwoot.Payload.{
  Python, author_type, message_of, assigned_agent_id, assigned_team_id, created_at,
}
use wootpilot.Chatwoot.Messages.{
  attachments, is_no_message, conversation_of, built_message, message_record, direction_of,
  sender_of, text_of, translate_message,
}
use wootpilot.Chatwoot.Deliveries.{delivery_of, handle_body}

-- The text that tells the type of a message, and of its sender.
abbrev pub type_text : Python → (payload : Fields) → Text
type_text py payload = text_of py (get (message_of payload) (codes "message_type") or str [])

abbrev pub sender_text : Python → (payload : Fields) → Text
sender_text py payload =
    let message = message_of payload in
    py.lower (
      text_of py (
        get (sender_of payload message) (codes "type")
        or get message (codes "sender_type")
        or str []))

-- The message is not incoming, or it is private, or a user of Chatwoot wrote it.
abbrev pub IsFromUs : Python → (payload : Fields) → Type 0
IsFromUs py payload =
    (mem_text (type_text py payload) (codes "incoming" ∷ codes "0" ∷ codes "inbound" ∷ []) ≡ false)
    ⊎ (is_truthy (get (message_of payload) (codes "private")) ≡ true)
    ⊎ ((contains (sender_text py payload) (codes "contact") ≡ false)
        × (contains (sender_text py payload) (codes "user") ≡ true))

module _ {A B C D E : Type 0} where
  -- What four steps that succeed gave to the last one.
  done_of_ok :
      (a : Result A) (b : Result B) (c : Result C) (d : Result D) (f : A → B → C → D → E) (e : E)
      → (a >>= λ x. b >>= λ y. c >>= λ z. d >>= λ w. ok (f x y z w)) ≡ ok e
      → (x : A) × (y : B) × (z : C) × (w : D) × (f x y z w ≡ e)
  done_of_ok (ok x) (ok y) (ok z) (ok w) f e h = (x, y, z, w, ground arith)
  done_of_ok (ok x) (ok y) (ok z) (err _) f e h = absurd (ground arith)
  done_of_ok (ok x) (ok y) (err _) d f e h = absurd (ground arith)
  done_of_ok (ok x) (err _) c d f e h = absurd (ground arith)
  done_of_ok (err _) b c d f e h = absurd (ground arith)

pub translated_of_ok :
    {A : Type 0} (nothing : Bool) (r : Result A) (a : A)
    → (if nothing then ok none else r >>= λ x. ok (some x)) ≡ ok (some a)
    → r ≡ ok a
translated_of_ok true r a h = absurd (ground arith)
translated_of_ok false (ok x) a h = ground arith
translated_of_ok false (err e) a h = absurd (ground arith)

-- A built message is the record of its payload.
built_message-record :
    (py : Python) (payload message : Fields) (raw_event_id : Text) (m : NormalizedMessage)
    → built_message py payload message raw_event_id ≡ ok m
    → (moment : ℕ) × (agent : Option Text) × (team : Option Text) × (files : List
        AttachmentMetadata)
      × (message_record py payload message raw_event_id moment agent team files ≡ m)
unfolding built_message
built_message-record py payload message raw_event_id m h =
    done_of_ok
      (created_at py (get message (codes "created_at") or get payload (codes "created_at")))
      (assigned_agent_id py (conversation_of payload message))
      (assigned_team_id py (conversation_of payload message))
      (attachments py
        (as_list (get message (codes "attachments") or get payload (codes "attachments"))))
      (message_record py payload message raw_event_id) m h

from_us-silent :
    (py : Python) (payload : Fields) (raw_event_id : Text) (moment : ℕ) (agent team : Option Text)
    (files : List AttachmentMetadata)
    → IsFromUs py payload
    → is_customer_public_inbound
        (message_record py payload (message_of payload) raw_event_id moment agent team files)
      ≡ false
unfolding is_customer_public_inbound message_record direction_of author_type mem_text any
from_us-silent py payload raw_event_id moment agent team files (inl outgoing) = ground arith
from_us-silent py payload raw_event_id moment agent team files (inr (inl private)) = ground arith
from_us-silent py payload raw_event_id moment agent team files (inr (inr user)) = ground arith

translated-silent :
    (py : Python) (payload : Fields) (raw_event_id : Text) (m : NormalizedMessage)
    → IsFromUs py payload
    → translate_message py payload raw_event_id ≡ ok (some m)
    → is_customer_public_inbound m ≡ false
unfolding translate_message
translated-silent py payload raw_event_id m from_us h =
    let (moment, agent, team, files, same) =
      built_message-record py payload (message_of payload) raw_event_id m (
        translated_of_ok (is_no_message py payload)
          (built_message py payload (message_of payload) raw_event_id) m h) in
    subst (λ (x : NormalizedMessage). is_customer_public_inbound x ≡ false) same
      (from_us-silent py payload raw_event_id moment agent team files from_us)

-- No reply loop: a webhook about a message that is not incoming, that is private, or that a user of
-- Chatwoot wrote (the agent's own posts among them) records no turn of the agent and queues nothing,
-- whatever else its payload says and whatever it answers.
pub handle_body-Quiet :
    (py : Python) (env : Webhooks) (payload : Fields) (delivery_id : Option Text)
    (payload_hash : Text) (db : Db)
    → IsFromUs py payload
    → Quiet db (handle_body py env (obj payload) delivery_id payload_hash db).1
unfolding handle_body delivery_of
handle_body-Quiet py env payload delivery_id payload_hash db from_us =
    handle-Quiet env (delivery_of py payload delivery_id payload_hash) db
      λ raw_id message h. translated-silent py payload raw_id message from_us h
