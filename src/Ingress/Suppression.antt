-- ===== src/Ingress/Suppression.antt =====
-- application/webhooks.py against application/policy.py and outbound.py: the state that a webhook
-- leaves, and the two places that read it, the gate before the model and the worker's check.
use Prim.Native.Nat.{ℕ, ◌+◌, ◌<◌}
use mathlib.Core.Path.{◌≡◌, ◌∙◌}
use mathlib.Core.Logic.{◌≢◌, ◌⊎◌, inl, inr}
use mathlib.Core.Bool.{true, false}
use mathlib.Core.Option.{none, some}
use native.Mathlib.Omega.{arith}
use wootpilot.Prelude.Text.{Text, str_eq, mem_text}
use wootpilot.Prelude.Lists.{any}
use wootpilot.Domain.Messages.{
  ChannelEvent, ConversationState, ConversationStatus, NormalizedMessage, is_human_public_reply,
  is_resolved,
}
use wootpilot.Domain.Rules.{AutomationMode, PolicyOutcome, TriageResult}
use wootpilot.Domain.Outbound.{ok, Settings, seconds}
use wootpilot.Policy.Rules.{is_after, pre_model_rules, pre_model_policy}
use wootpilot.Persistence.Rows.{ConversationStateRow}
use wootpilot.Persistence.Repository.{status_of_text, row_status, row_to_state}
use wootpilot.Outbound.Checks.{stored_state_blocked_reason}
use wootpilot.Domain.Outbound.{QueuedOutboundAction}
use wootpilot.Domain.Rules.{AgentActionKind}
use wootpilot.Persistence.Repository.{get_conversation_state}
use wootpilot.Outbound.Action.{Surroundings, World}
use wootpilot.Outbound.Executor.{execute_action}
use wootpilot.Outbound.Posts.{posts}
use wootpilot.Outbound.Clearance.{execute_action-blocked}
use wootpilot.Ingress.State.{channel_state, message_state}

-- At time `now`, the gate lets no message through to the model, and the check of the stored state,
-- which the worker makes before a public message, finds a reason. A worker that reads this state posts
-- no public message; private notes it does not check against the state.
pub record Suppressed (mode : AutomationMode) (state : ConversationState) (now : ℕ) : Type 0 where
  pub gate_blocks :
      (message : NormalizedMessage) (triage : TriageResult) (id : Text)
      → (pre_model_policy message state triage mode now id).outcome ≡ PolicyOutcome.block
  pub worker_blocks : stored_state_blocked_reason now (some state) ≢ none
  pub posts_no_reply :
      (env : Surroundings) (a : QueuedOutboundAction) (w : World)
      → a.action_kind ≡ AgentActionKind.public_message
      → get_conversation_state w.db a.tenant_id a.channel_id a.conversation_id ≡ ok (some state)
      → env.now w.ticks ≡ now
      → posts (execute_action env a w).1.calls ≡ posts w.calls

-- A worker that reads a state with a reason to block posts nothing for a public message.
blocked_state-posts :
    (state : ConversationState) (now : ℕ)
    → stored_state_blocked_reason now (some state) ≢ none
    → (env : Surroundings) (a : QueuedOutboundAction) (w : World)
    → a.action_kind ≡ AgentActionKind.public_message
    → get_conversation_state w.db a.tenant_id a.channel_id a.conversation_id ≡ ok (some state)
    → env.now w.ticks ≡ now
    → posts (execute_action env a w).1.calls ≡ posts w.calls
blocked_state-posts state now blocked env a w kind stored moment =
    execute_action-blocked env a w state kind stored (rw moment blocked)

human_active-Suppressed :
    (state : ConversationState) (now : ℕ)
    → is_after state.human_active_until now ≡ true
    → Suppressed AutomationMode.public_reply state now
unfolding pre_model_policy pre_model_rules stored_state_blocked_reason
human_active-Suppressed state now active = record {
  gate_blocks = λ message triage id. ground arith;
  worker_blocks = λ e. ground arith;
  posts_no_reply = blocked_state-posts state now λ e. ground arith;
}

closed-Suppressed :
    (mode : AutomationMode) (state : ConversationState) (now : ℕ)
    → (is_resolved state.status ≡ true) ⊎ (state.paused ≡ true)
    → Suppressed mode state now
unfolding pre_model_policy pre_model_rules stored_state_blocked_reason
closed-Suppressed mode state now closed = record {
  gate_blocks = λ message triage id. ground arith;
  worker_blocks = λ e. ground arith;
  posts_no_reply = blocked_state-posts state now λ e. ground arith;
}

state_of_human-until :
    (settings : Settings) (updated_at : ℕ) (message : NormalizedMessage)
    (row : ConversationStateRow) (state : ConversationState)
    → is_human_public_reply message ≡ true
    → row_to_state (message_state settings updated_at message row) ≡ ok state
    → state.human_active_until
      ≡ some (message.created_at + seconds settings.human_operator_active_ttl_seconds)
unfolding row_to_state message_state
state_of_human-until settings updated_at message row state human h = ground arith

state_of_event-paused :
    (updated_at : ℕ) (event : ChannelEvent) (row : ConversationStateRow) (state : ConversationState)
    → row_to_state (channel_state updated_at event row) ≡ ok state
    → state.paused ≡ event.paused
unfolding row_to_state channel_state mem_text any
state_of_event-paused updated_at event row state h = ground arith

state_of_event-resolved :
    (updated_at : ℕ) (event : ChannelEvent) (row : ConversationStateRow) (state : ConversationState)
    → event.status ≡ some ConversationStatus.resolved
    → row_to_state (channel_state updated_at event row) ≡ ok state
    → (state.status ≡ some ConversationStatus.resolved) × (state.replyable ≡ false)
unfolding row_to_state channel_state row_status status_of_text str_eq
state_of_event-resolved updated_at event row state resolved h = ground arith

-- A public reply of a human agent keeps public automation away until its time to live ends: with the
-- state that its webhook leaves, whatever was stored before, the gate blocks each turn in
-- public_reply mode and the worker sends no public message, at every earlier time.
pub message_state-Suppressed :
    (settings : Settings) (updated_at now : ℕ) (message : NormalizedMessage)
    (row : ConversationStateRow) (state : ConversationState)
    → is_human_public_reply message ≡ true
    → now < message.created_at + seconds settings.human_operator_active_ttl_seconds
    → row_to_state (message_state settings updated_at message row) ≡ ok state
    → Suppressed AutomationMode.public_reply state now
message_state-Suppressed settings updated_at now message row state human early h =
    human_active-Suppressed state now
      (rw (state_of_human-until settings updated_at message row state human h) (ground arith))

-- A channel event that resolves or pauses a conversation stops new turns and public replies: with the
-- state that it leaves, whatever was stored before, at every time, the gate blocks each turn in every
-- mode, and a worker that reads this state posts nothing for a queued public message. Private notes
-- that are queued already are not meant.
pub channel_state-Suppressed :
    (mode : AutomationMode) (updated_at now : ℕ) (event : ChannelEvent) (row : ConversationStateRow)
    (state : ConversationState)
    → (event.status ≡ some ConversationStatus.resolved) ⊎ (event.paused ≡ true)
    → row_to_state (channel_state updated_at event row) ≡ ok state
    → Suppressed mode state now
channel_state-Suppressed mode updated_at now event row state (inl resolved) h =
    let (status, _) = state_of_event-resolved updated_at event row state resolved h in
    closed-Suppressed mode state now (inl (rw status))
channel_state-Suppressed mode updated_at now event row state (inr paused) h =
    closed-Suppressed mode state now
      (inr (state_of_event-paused updated_at event row state h ∙ paused))

-- A resolved conversation stays closed to replies: no channel event that resolves it leaves the
-- state replyable, even where the event itself says that one can reply.
channel_state_not_replyable :
    (updated_at : ℕ) (event : ChannelEvent) (row : ConversationStateRow)
    → event.status ≡ some ConversationStatus.resolved
    → (channel_state updated_at event row).replyable ≡ false
unfolding channel_state str_eq
channel_state_not_replyable updated_at event row resolved = ground arith
