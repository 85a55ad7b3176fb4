-- ===== src/Outbound/Conditions.antt =====
-- application/outbound.py: the conditions behind the checks of a public message, as records.
use Prim.Native.Nat.{ℕ}
use mathlib.Core.Path.{◌≡◌}
use mathlib.Core.Bool.{true, false}
use mathlib.Core.Option.{none, some}
use native.Mathlib.Omega.{arith}
use wootpilot.Prelude.Text.{truthy, str_eq, strip}
use wootpilot.Domain.Messages.{ConversationState, is_resolved, truthy?}
use wootpilot.Domain.Rules.{AutomationMode}
use wootpilot.Domain.Outbound.{QueuedOutboundAction, Settings}
use wootpilot.Policy.Searchable.{Unicode}
use wootpilot.Policy.Rules.{public_internal_reasoning_rule, public_price_policy_rule}
use wootpilot.Policy.Eligibility.{NoHuman}
use wootpilot.Outbound.Checks.{
  ChannelSafetyState, captured_catalog, public_price_rule_from_safety_context,
  public_message_static_blocked_reason, stored_state_blocked_reason, is_false,
  channel_state_blocked_reason,
}

-- The content passes the checks that need no further state.
pub record ContentClear (u : Unicode) (settings : Settings) (a : QueuedOutboundAction)
    : Type 0 where
  pub mode : settings.automation_mode ≡ AutomationMode.public_reply
  pub not_blank : truthy (strip a.content) ≡ true
  pub no_reasoning : public_internal_reasoning_rule u a.content ≡ none
  pub priced : public_price_policy_rule u a.content (captured_catalog a.safety_context) ≡ none

pub static→ContentClear :
    (u : Unicode) (settings : Settings) (a : QueuedOutboundAction)
    → public_message_static_blocked_reason u settings a ≡ none
    → ContentClear u settings a
unfolding public_message_static_blocked_reason public_price_rule_from_safety_context
static→ContentClear u settings a h = ground arith

pub record StateClear (now : ℕ) (state : ConversationState) : Type 0 where
  pub replyable : state.replyable ≡ true
  pub not_resolved : is_resolved state.status ≡ false
  pub not_paused : state.paused ≡ false
  pub no_human : NoHuman state now

pub reason→StateClear :
    (now : ℕ) (state : ConversationState)
    → stored_state_blocked_reason now (some state) ≡ none
    → StateClear now state
unfolding stored_state_blocked_reason
reason→StateClear now state h = ground arith

pub StateClear→reason :
    (now : ℕ) (state : ConversationState)
    → StateClear now state
    → stored_state_blocked_reason now (some state) ≡ none
unfolding stored_state_blocked_reason
StateClear→reason now state clear =
    ground (arith, clear.replyable, clear.not_resolved, clear.not_paused, clear.no_human)

pub record ChannelClear (a : QueuedOutboundAction) (channel : ChannelSafetyState) : Type 0 where
  pub same_conversation : str_eq channel.conversation_id a.conversation_id ≡ true
  pub replyable : is_false channel.replyable ≡ false
  pub not_resolved : is_resolved channel.status ≡ false
  pub not_paused : channel.paused ≡ false
  pub no_agent : truthy? channel.assigned_agent_id ≡ false
  pub no_team : truthy? channel.assigned_team_id ≡ false

pub channel→ChannelClear :
    (a : QueuedOutboundAction) (channel : ChannelSafetyState)
    → channel_state_blocked_reason a channel ≡ none
    → ChannelClear a channel
unfolding channel_state_blocked_reason
channel→ChannelClear a channel h = ground arith
