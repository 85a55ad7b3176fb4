-- ===== src/Outbound/Checks.antt =====
-- src/wootpilot/application/outbound.py: the deterministic checks before a send, and the marks that
-- record how an action ended. `now` is the reading of the clock.
use Prim.Native.Nat.{ℕ, ◌+◌}
use mathlib.Core.Bool.{Bool, true, false, ◌&&◌, ◌||◌, not}
use mathlib.Core.Option.{Option, none, some}
use mathlib.Core.List.{List, ◌++◌}
use wootpilot.Prelude.Tests.{ltb, if◌then◌else◌, is_some}
use wootpilot.Prelude.Lists.{any}
use wootpilot.Prelude.Text.{Text, codes, truthy, str_eq, strip, starts_with}
use wootpilot.Domain.Messages.{ConversationState, ConversationStatus, is_resolved, truthy?}
use wootpilot.Domain.Catalog.{CatalogContext, empty_catalog}
use wootpilot.Domain.Rules.{is_public_reply, PolicyRule, rule_value}
use wootpilot.Domain.Outbound.{
  OutboundActionStatus, SafetyContext, QueuedOutboundAction, ChatwootApiError, Settings, seconds,
}
use wootpilot.Policy.Searchable.{Unicode}
use wootpilot.Policy.Rules.{is_after, public_internal_reasoning_rule, public_price_policy_rule}
use wootpilot.Persistence.Queue.{Mark}

-- ChannelSafetyState of integrations/chatwoot.py, without the attributes that no check reads.
pub record ChannelSafetyState : Type 0 where
  pub conversation_id : Text
  pub replyable : Option Bool
  pub paused : Bool
  pub assigned_agent_id : Option Text
  pub assigned_team_id : Option Text
  pub status : Option ConversationStatus
  pub labels : List Text

-- The context captured at queue time, or CatalogContext(query="").
abbrev pub captured_catalog : SafetyContext → CatalogContext
captured_catalog context = elim context.catalog_context [ none ↦ empty_catalog | some c ↦ c ]

unfoldable pub public_price_rule_from_safety_context :
    Unicode → Text → SafetyContext → Option PolicyRule
public_price_rule_from_safety_context u content context =
    public_price_policy_rule u content (captured_catalog context)

unfoldable pub public_message_static_blocked_reason :
    Unicode → Settings → QueuedOutboundAction → Option PolicyRule
public_message_static_blocked_reason u settings action =
    if not (is_public_reply settings.automation_mode)
    then some PolicyRule.mode_public_reply_not_enabled
    else if not (truthy (strip action.content))
    then some PolicyRule.content_empty
    else elim (public_internal_reasoning_rule u action.content) [
      | some leakage ↦ some leakage
      | none ↦ public_price_rule_from_safety_context u action.content action.safety_context
    ]

unfoldable pub stored_state_blocked_reason :
    (now : ℕ) → Option ConversationState → Option PolicyRule
stored_state_blocked_reason now none = some PolicyRule.conversation_safety_state_missing
stored_state_blocked_reason now (some state) =
    if not state.replyable
    then some PolicyRule.conversation_not_replyable
    else if is_resolved state.status
    then some PolicyRule.conversation_resolved
    else if state.paused
    then some PolicyRule.conversation_wootpilot_paused
    else if is_after state.human_active_until now
    then some PolicyRule.conversation_human_active
    else if truthy? state.assigned_agent_id || truthy? state.assigned_team_id
    then some PolicyRule.conversation_assigned_to_human
    else none

-- The check asks the clock only where no earlier rule stops and a time of human activity is set.
abbrev pub reads_clock : Option ConversationState → Bool
reads_clock none = false
reads_clock (some state) =
    state.replyable
    && not (is_resolved state.status)
    && not state.paused
    && is_some state.human_active_until

-- `replyable is False`
abbrev pub is_false : Option Bool → Bool
is_false (some false) = true
is_false _ = false

unfoldable pub channel_state_blocked_reason :
    QueuedOutboundAction → ChannelSafetyState → Option PolicyRule
channel_state_blocked_reason action channel =
    if not (str_eq channel.conversation_id action.conversation_id)
    then some PolicyRule.conversation_id_mismatch
    else if is_false channel.replyable
    then some PolicyRule.channel_not_replyable
    else if is_resolved channel.status
    then some PolicyRule.channel_resolved
    else if channel.paused
    then some PolicyRule.channel_wootpilot_paused
    else if truthy? channel.assigned_agent_id || truthy? channel.assigned_team_id
    then some PolicyRule.channel_assigned_to_human
    else none

unfoldable pub is_human_review_private_note : SafetyContext → Bool
is_human_review_private_note context =
    any (λ marker. starts_with marker (codes "public.") || starts_with marker (codes "intent."))
      (context.workflow_rule_ids ++ context.workflow_risk_reasons)

unfoldable pub failure_status :
    Settings → ChatwootApiError → (attempt_count : ℕ) → OutboundActionStatus
failure_status settings exc attempt_count =
    if exc.retryable && ltb attempt_count settings.outbound_max_attempts
    then OutboundActionStatus.retryable_failure
    else OutboundActionStatus.permanent_failure

unfoldable pub next_attempt_at : Settings → (now : ℕ) → OutboundActionStatus → Option ℕ
next_attempt_at settings now OutboundActionStatus.retryable_failure =
    some (now + seconds settings.outbound_retry_delay_seconds)
next_attempt_at settings now _ = none

-- The keyword arguments that each _mark method gives to mark_outbound_action.
unfoldable pub blocked_mark : (now : ℕ) → PolicyRule → Mark
blocked_mark now rule = record {
  status = OutboundActionStatus.blocked_by_policy;
  updated_at = now;
  provider_message_id = none;
  failure_reason = some (rule_value rule);
  attempt_count = none;
  next_attempt_at = none;
  clear_next_attempt_at = true;
  error_code = none;
}

unfoldable pub superseded_mark : (now : ℕ) → Mark
superseded_mark now = record {
  status = OutboundActionStatus.superseded;
  updated_at = now;
  provider_message_id = none;
  failure_reason = some (rule_value PolicyRule.conversation_superseded_by_new_customer_message);
  attempt_count = none;
  next_attempt_at = none;
  clear_next_attempt_at = true;
  error_code = none;
}

-- `clear_next_attempt_at=next_attempt_at is None`
abbrev is_none : Option ℕ → Bool
is_none none = true
is_none (some _) = false

-- _next_attempt_at asks the clock only for a failure to retry.
abbrev pub is_retryable_failure : OutboundActionStatus → Bool
is_retryable_failure OutboundActionStatus.retryable_failure = true
is_retryable_failure _ = false

-- Two readings of the clock: for the next attempt, if there is one, then for the update.
unfoldable pub send_failure_mark :
    Settings → QueuedOutboundAction → ChatwootApiError → (now now' : ℕ) → Mark
send_failure_mark settings action exc now now' =
    let attempts = action.attempt_count + 1 in
    let status = failure_status settings exc attempts in
    let next = next_attempt_at settings now status in
    record {
      status = status;
      updated_at = now';
      provider_message_id = none;
      failure_reason = some exc.code;
      attempt_count = some attempts;
      next_attempt_at = next;
      clear_next_attempt_at = is_none next;
      error_code = some exc.code;
    }

unfoldable pub sent_mark :
    (provider_message_id : Text) (post_send_failure : Option Text) (now : ℕ) → Mark
sent_mark provider_message_id post_send_failure now = record {
  status = OutboundActionStatus.sent;
  updated_at = now;
  provider_message_id = some provider_message_id;
  failure_reason = post_send_failure;
  attempt_count = none;
  next_attempt_at = none;
  clear_next_attempt_at = true;
  error_code = none;
}
