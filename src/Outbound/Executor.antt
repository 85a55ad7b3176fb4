-- ===== src/Outbound/Executor.antt =====
-- src/wootpilot/application/outbound.py: ExecuteOutboundActions. The checks and marks are those of
-- Outbound.Checks; logging is left out.
use Prim.Native.Nat.{ℕ, zero, suc, ◌+◌}
use mathlib.Core.Bool.{Bool, true, false, ◌&&◌, not}
use mathlib.Core.Option.{Option, none, some}
use mathlib.Core.List.{List, [], ◌∷◌, ◌++◌}
use wootpilot.Prelude.Tests.{if◌then◌else◌}
use wootpilot.Prelude.Text.{Text, codes, truthy, strip}
use wootpilot.Domain.Rules.{AgentActionKind, is_public_message, is_private_note, PolicyRule}
use wootpilot.Domain.Outbound.{
  Result, ok, err, Failure, ChatwootApiError, QueuedOutboundAction, Settings,
}
use wootpilot.Persistence.Repository.{get_conversation_state}
use wootpilot.Persistence.Queue.{
  Mark, claim_queued_outbound_actions, has_newer_customer_public_message, mark_outbound_action,
}
use wootpilot.Outbound.Checks.{
  public_message_static_blocked_reason, stored_state_blocked_reason, channel_state_blocked_reason,
  is_human_review_private_note, blocked_mark, superseded_mark, send_failure_mark, sent_mark,
  failure_status, is_retryable_failure, reads_clock,
}
use wootpilot.Outbound.Action.{
  Call, Surroundings, Action, ◌>>=◌, ◌>>◌, pure, lift, read_db, write_db, try, clock, clock_if,
  commit, call,
}

-- The counter that an action adds to.
pub data Outcome : Type 0 where
  sent blocked failed superseded : Outcome

pub record Counts : Type 0 where
  pub sent : ℕ
  pub blocked : ℕ
  pub failed : ℕ
  pub superseded : ℕ

abbrev pub no_counts : Counts
no_counts = record { sent = 0; blocked = 0; failed = 0; superseded = 0 }

abbrev pub count : Outcome → Counts → Counts
count Outcome.sent c = record c { sent = c.sent + 1 }
count Outcome.blocked c = record c { blocked = c.blocked + 1 }
count Outcome.failed c = record c { failed = c.failed + 1 }
count Outcome.superseded c = record c { superseded = c.superseded + 1 }

-- ";".join of the failures of the two updates, or None
abbrev pub join_failures : Option Text → Option Text → Option Text
join_failures none none = none
join_failures (some a) none = some a
join_failures none (some b) = some b
join_failures (some a) (some b) = some (a ++ (codes ";" ++ b))

module _ (env : Surroundings) where
  abbrev settings : Settings
  settings = env.settings

  unfoldable pub is_superseded : QueuedOutboundAction → Action Bool
  is_superseded action =
      if is_public_message action.action_kind
      then read_db (λ db.
        has_newer_customer_public_message env.decimal db action.tenant_id action.channel_id
          action.conversation_id action.source_message_id)
      else pure false

  -- What _blocked_reason asks of a public message after the static checks pass.
  unfoldable pub live_blocked_reason :
      QueuedOutboundAction → Option PolicyRule → Action (Option PolicyRule)
  live_blocked_reason action (some stored_reason) = pure (some stored_reason)
  live_blocked_reason action none = do
    commit env
    channel ← call env (Call.get_conversation_safety action.conversation_id) env.safety_answer
    pure (channel_state_blocked_reason action channel)

  unfoldable pub public_blocked_reason :
      QueuedOutboundAction → Option PolicyRule → Action (Option PolicyRule)
  unfolding live_blocked_reason
  public_blocked_reason action (some static_reason) = pure (some static_reason)
  public_blocked_reason action none = do
    found ←
        read_db (λ db.
          get_conversation_state db action.tenant_id action.channel_id action.conversation_id)
    state ← lift found
    now ← clock_if env (reads_clock state)
    live_blocked_reason action (stored_state_blocked_reason now state)

  unfoldable pub blocked_reason : QueuedOutboundAction → Action (Option PolicyRule)
  unfolding public_blocked_reason
  blocked_reason action = elim action.action_kind [
    | AgentActionKind.private_note ↦
        pure (if not (truthy (strip action.content)) then some PolicyRule.content_empty else none)
    | AgentActionKind.public_message ↦
        public_blocked_reason action
          (public_message_static_blocked_reason env.unicode settings action)
    | AgentActionKind.no_action ↦ pure (some PolicyRule.unknown_action_kind)
  ]

  abbrev mark : QueuedOutboundAction → Mark → Action (Unit {0})
  mark action m = do write_db (λ db. mark_outbound_action db action.id m); commit env

  unfoldable pub mark_blocked : QueuedOutboundAction → PolicyRule → Action Outcome
  mark_blocked action reason = do
    now ← clock env
    mark action (blocked_mark now reason)
    pure Outcome.blocked

  unfoldable pub mark_superseded : QueuedOutboundAction → Action Outcome
  mark_superseded action = do
    now ← clock env
    mark action (superseded_mark now)
    pure Outcome.superseded

  unfoldable pub mark_send_failure : QueuedOutboundAction → ChatwootApiError → Action Outcome
  mark_send_failure action exc = do
    now ←
        clock_if env (is_retryable_failure (failure_status settings exc (action.attempt_count + 1)))
    now' ← clock env
    mark action (send_failure_mark settings action exc now now')
    pure Outcome.failed

  -- f"{what}:{exc.code}", where an update failed in a controlled way
  abbrev update_failure : (what : Text) → Result (Unit {0}) → Action (Option Text)
  update_failure what (ok _) = pure none
  update_failure what (err (Failure.chatwoot_api_error exc)) =
      pure (some (what ++ (codes ":" ++ exc.code)))
  update_failure what (err e) = lift (err e)

  unfoldable pub apply_success_status_transition : QueuedOutboundAction → Action (Option Text)
  apply_success_status_transition action =
      let target_status = strip settings.chatwoot_public_reply_status in
      if is_public_message action.action_kind
        && settings.chatwoot_update_status_after_public_reply
        && truthy target_status
      then (do
        done ← try (
            call env (Call.set_conversation_status action.conversation_id target_status)
              env.update_answer)
        update_failure (codes "status_update_failed") done)
      else pure none

  unfoldable pub apply_private_review_label : QueuedOutboundAction → Action (Option Text)
  apply_private_review_label action =
      let target_label = strip settings.chatwoot_needs_human_label in
      if is_private_note action.action_kind
        && settings.chatwoot_mark_needs_human_on_private_review
        && truthy target_label
        && is_human_review_private_note action.safety_context
      then (do
        done ← try (
            call env (Call.add_conversation_labels action.conversation_id (target_label ∷ []))
              env.update_answer)
        update_failure (codes "label_update_failed") done)
      else pure none

  unfoldable pub apply_post_send_updates : QueuedOutboundAction → Action (Option Text)
  unfolding apply_success_status_transition apply_private_review_label
  apply_post_send_updates action = do
    status_failure ← apply_success_status_transition action
    label_failure ← apply_private_review_label action
    pure (join_failures status_failure label_failure)

  unfoldable pub mark_sent : QueuedOutboundAction → (provider_message_id : Text) → Action Outcome
  mark_sent action provider_message_id = do
    post_send_failure ← apply_post_send_updates action
    now ← clock env
    mark action (sent_mark provider_message_id post_send_failure now)
    pure Outcome.sent

  -- The answer to create_message.
  unfoldable pub finish_send : QueuedOutboundAction → Result Text → Action Outcome
  unfolding mark_send_failure mark_sent
  finish_send action (ok provider_message_id) = mark_sent action provider_message_id
  finish_send action (err (Failure.chatwoot_api_error exc)) = mark_send_failure action exc
  finish_send action (err e) = lift (err e)

  unfoldable pub send : QueuedOutboundAction → Action Outcome
  unfolding finish_send
  send action = do
    answer ← try (
        call env
          (Call.create_message action.conversation_id action.content
            (is_private_note action.action_kind))
          env.message_answer)
    finish_send action answer

  -- The second look at newer messages, after the checks have waited for Chatwoot.
  unfoldable pub send_unless_superseded : QueuedOutboundAction → Bool → Action Outcome
  unfolding send mark_superseded
  send_unless_superseded action true = mark_superseded action
  send_unless_superseded action false = send action

  unfoldable pub send_unless_blocked : QueuedOutboundAction → Option PolicyRule → Action Outcome
  unfolding send_unless_superseded mark_blocked
  send_unless_blocked action (some reason) = mark_blocked action reason
  send_unless_blocked action none = do
    newer ← is_superseded action
    send_unless_superseded action newer

  unfoldable pub check_unless_superseded : QueuedOutboundAction → Bool → Action Outcome
  unfolding send_unless_blocked mark_superseded
  check_unless_superseded action true = mark_superseded action
  check_unless_superseded action false = do
    reason ← blocked_reason action
    send_unless_blocked action reason

  -- The body of the loop of run_once for one claimed action.
  unfoldable pub execute_action : QueuedOutboundAction → Action Outcome
  unfolding check_unless_superseded
  execute_action action = do newer ← is_superseded action; check_unless_superseded action newer

  unfoldable pub claim_one : Action (List QueuedOutboundAction)
  claim_one = do
    now ← clock env
    claimed_at ← clock env
    actions ← read_db (λ db.
        (claim_queued_outbound_actions db 1 now claimed_at settings.outbound_public_reply_delay).0)
    write_db (λ db.
        (claim_queued_outbound_actions db 1 now claimed_at settings.outbound_public_reply_delay).1)
    commit env
    pure actions

  -- `for _ in range(limit)`, with a break where nothing is due.
  unfoldable pub run_loop : (rounds : ℕ) → Counts → Action Counts
  run_loop zero counts = pure counts
  run_loop (suc rounds) counts = claim_one >>= λ actions. elim actions [
    | [] ↦ pure counts
    | action ∷ _ ↦ execute_action action >>= λ outcome. run_loop rounds (count outcome counts)
  ]

  unfoldable pub run_once : (limit : ℕ) → Action Counts
  unfolding run_loop
  run_once limit = run_loop limit no_counts
