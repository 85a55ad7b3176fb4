-- ===== src/Chatwoot/Closed.antt =====
-- integrations/chatwoot.py and application/outbound.py: the answers of Chatwoot that keep a public
-- message back.
use Prim.Native.Nat.{ℕ, suc, ◌+◌, ◌/◌, ◌%◌}
use mathlib.Core.Path.{◌≡◌, refl, subst}
use mathlib.Core.Logic.{◌⊎◌, inl, inr}
use mathlib.Core.Bool.{true, false}
use mathlib.Core.Option.{Option, some}
use mathlib.Core.List.{[], ◌∷◌, ◌++◌}
use native.Mathlib.Omega.{arith}
use wootpilot.Prelude.Tests.{ltb, Bool-cases, Option-cases}
use wootpilot.Prelude.Text.{Text, codes, truthy, str_eq}
use wootpilot.Prelude.Json.{
  Json, bool, int, str, obj, end, Fields, get, is_truthy, as_dict, decimal_digits, int_text, ◌or◌,
  str_of,
}
use wootpilot.Domain.Messages.{ConversationStatus, truthy?}
use wootpilot.Domain.Outbound.{ok, QueuedOutboundAction}
use wootpilot.Domain.Rules.{PolicyRule}
use wootpilot.Outbound.Checks.{ChannelSafetyState, channel_state_blocked_reason}
use wootpilot.Chatwoot.Payload.{
  Python, agent_value, team_value, assigned_agent_id, assigned_team_id, conversation_status,
  id_text, status_named,
}
use wootpilot.Outbound.Conditions.{ChannelClear, channel→ChannelClear}
use wootpilot.Chatwoot.Events.{optional_bool}
use wootpilot.Chatwoot.Responses.{safety_of, safety_payload, conversation_safety_from_response}

-- What the client reads from the dict of a conversation.
record Read (py : Python) (payload : Fields) (s : ChannelSafetyState) : Type 0 where
  agent : assigned_agent_id py payload ≡ ok s.assigned_agent_id
  team : assigned_team_id py payload ≡ ok s.assigned_team_id
  status : conversation_status py (get payload (codes "status")) ≡ ok s.status
  replyable : optional_bool (get payload (codes "can_reply")) ≡ ok s.replyable
  paused :
      is_truthy (
          get
            (as_dict (get payload (codes "custom_attributes") or obj end))
            (codes "wootpilot_paused"))
        ≡ true
      → s.paused ≡ true

safety_of-Read :
    (py : Python) (conversation_id : Text) (payload : Fields) (s : ChannelSafetyState)
    → safety_of py conversation_id payload ≡ ok s
    → Read py payload s
unfolding safety_of
safety_of-Read py conversation_id payload s h = ground arith

truthy-append : (s : Text) (c : ℕ) → truthy (s ++ c ∷ []) ≡ true
truthy-append [] c = refl
truthy-append (d ∷ s) c = refl

pub int_text-truthy : (n : ℕ) → truthy (int_text false n) ≡ true
unfolding int_text decimal_digits
int_text-truthy n = elim (Bool-cases (ltb n 10)) [
  | inl digit ↦ rw digit refl
  | inr more ↦ rw more (truthy-append (decimal_digits n (n / 10)) (n % 10 + b'0'))
]

-- A positive number as the id of the assigned agent or team.
abbrev pub IsId : Json → Type 0
IsId value = (n : ℕ) × (value ≡ int false (suc n))

id_text-truthy :
    (repr : Json → Text) (value : Json) (found : Option Text)
    → IsId value
    → id_text repr value ≡ ok found
    → truthy? found ≡ true
unfolding str_of
id_text-truthy repr value found (n, number) h =
    let printed : some (int_text false (suc n)) ≡ found = ground arith in
    subst (λ (o : Option Text). truthy? o ≡ true) printed (int_text-truthy (suc n))

-- The conversation is resolved, cannot be replied to, is paused by its custom attribute, or is
-- assigned to an agent or a team.
abbrev pub IsClosed : (payload : Fields) → Type 0
IsClosed payload =
    (get payload (codes "status") ≡ str (codes "resolved"))
    ⊎ (get payload (codes "can_reply") ≡ bool false)
    ⊎ (is_truthy (
          get (as_dict (get payload (codes "custom_attributes") or obj end))
            (codes "wootpilot_paused"))
        ≡ true)
    ⊎ IsId (agent_value payload)
    ⊎ IsId (team_value payload)

pub resolved_status :
    (py : Python) (value : Json) (status : Option ConversationStatus)
    → value ≡ str (codes "resolved")
    → conversation_status py value ≡ ok status
    → status ≡ some ConversationStatus.resolved
unfolding conversation_status status_named str_of str_eq
resolved_status py value status same h = ground arith

-- The dict of a closed conversation never passes the check.
Read-blocked :
    (py : Python) (payload : Fields) (s : ChannelSafetyState) (action : QueuedOutboundAction)
    → Read py payload s
    → IsClosed payload
    → ChannelClear action s
    → ⊥
unfolding assigned_agent_id assigned_team_id
Read-blocked py payload s action seen (inl resolved) clear =
    let closed = resolved_status py (get payload (codes "status")) s.status resolved seen.status in
    ground (arith, clear.not_resolved)
Read-blocked py payload s action seen (inr (inl mute)) clear =
    ground (arith, clear.replyable, seen.replyable)
Read-blocked py payload s action seen (inr (inr (inl paused))) clear =
    ground (arith, clear.not_paused, seen.paused paused)
Read-blocked py payload s action seen (inr (inr (inr (inl agent)))) clear = ground (
  arith,
  clear.no_agent,
  id_text-truthy py.repr (agent_value payload) s.assigned_agent_id agent seen.agent,
)
Read-blocked py payload s action seen (inr (inr (inr (inr team)))) clear = ground (
  arith,
  clear.no_team,
  id_text-truthy py.repr (team_value payload) s.assigned_team_id team seen.team,
)

-- Where Chatwoot answers that a conversation is closed, no public message passes the worker's check
-- of that answer, whatever else the answer says.
pub conversation_safety-blocked :
    (py : Python) (conversation_id : Text) (answer : Fields) (s : ChannelSafetyState)
    (action : QueuedOutboundAction)
    → conversation_safety_from_response py conversation_id (obj answer) ≡ ok s
    → IsClosed (safety_payload answer)
    → (rule : PolicyRule) × (channel_state_blocked_reason action s ≡ some rule)
unfolding conversation_safety_from_response
conversation_safety-blocked py conversation_id answer s action h closed =
    elim (Option-cases (channel_state_blocked_reason action s)) [
      | inl passes ↦ absurd (
          Read-blocked py (safety_payload answer) s action
            (safety_of-Read py conversation_id (safety_payload answer) s h) closed
            (channel→ChannelClear action s passes))
      | inr blocked ↦ blocked
    ]
