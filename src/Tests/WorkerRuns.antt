-- ===== src/Tests/WorkerRuns.antt =====
-- Runs of the worker on the queued reply.
use Prim.Native.Nat.{ℕ, ◌+◌, ◌≤◌, ◌<◌}
use mathlib.Core.Path.{◌≡◌, refl}
use mathlib.Core.Logic.{◌≢◌}
use mathlib.Core.List.{[]}
use native.Mathlib.Omega.{arith}
use wootpilot.Prelude.Lists.{any, filter, find?}
use mathlib.Core.Bool.{true}
use mathlib.Core.Option.{some}
use wootpilot.Prelude.Text.{codes, contains, collapse, str_eq, strip, mem_text}
use wootpilot.Policy.Searchable.{searchable_text, mentions_exact_price, normalize_price_text}
use wootpilot.Policy.Rules.{
  price_is_mentionable, public_internal_reasoning_rule, mentionable_prices,
  public_price_policy_rule,
}
use wootpilot.Persistence.Repository.{
  status_of_text, row_status, row_to_state, is_state_of, get_conversation_state,
}
use wootpilot.Persistence.Queue.{
  row_to_outbound_action, queued_action_due, retryable_action_due, action_due, order_by_created,
  due_actions, claim_queued_outbound_actions, in_conversation, is_customer_turn,
  is_after_at_same_time, has_newer_customer_public_message, mark_row, mark_outbound_action,
}
use wootpilot.Outbound.Checks.{
  public_price_rule_from_safety_context, public_message_static_blocked_reason, sent_mark,
  stored_state_blocked_reason, channel_state_blocked_reason,
}
use wootpilot.Outbound.Executor.{
  Counts, is_superseded, blocked_reason, apply_post_send_updates, execute_action, claim_one,
  run_once,
}
use wootpilot.Domain.Outbound.{ChatwootApiError}
use wootpilot.Persistence.Rows.{OutboundActionRow}
use wootpilot.Persistence.Queue.{claim_row}
use wootpilot.Outbound.Checks.{send_failure_mark}
use wootpilot.Outbound.Retries.{Step, Steps, Steps-attempts, is_live}
use wootpilot.Outbound.Posts.{posts, run_once-posts}
use wootpilot.Outbound.Clearance.{Cleared, execute_action-Cleared}
use wootpilot.Tests.Services.{around, claimed_reply, live_settings, reply_row, start_world}

abbrev one_sent : Counts
one_sent = record { sent = 1; blocked = 0; failed = 0; superseded = 0 }

run_once-posts_example : (posts (run_once around 2 start_world).1.calls ≡ posts [] + 1) × (1 ≤ 2)
unfolding run_once claim_one execute_action is_superseded blocked_reason
    has_newer_customer_public_message find? in_conversation str_eq any is_customer_turn
    is_after_at_same_time public_message_static_blocked_reason strip public_internal_reasoning_rule
    searchable_text contains collapse public_price_rule_from_safety_context public_price_policy_rule
    mentions_exact_price mentionable_prices normalize_price_text price_is_mentionable filter
    get_conversation_state is_state_of row_to_state row_status status_of_text
    stored_state_blocked_reason channel_state_blocked_reason due_actions order_by_created action_due
    queued_action_due row_to_outbound_action mem_text retryable_action_due
    claim_queued_outbound_actions apply_post_send_updates mark_outbound_action mark_row sent_mark
run_once-posts_example = run_once-posts around 2 start_world one_sent refl

one_not_zero : ◌≢◌ {A = ℕ} 1 0
one_not_zero e = omega arith

execute_action-Cleared_example : Cleared around claimed_reply start_world
unfolding execute_action is_superseded blocked_reason has_newer_customer_public_message find?
    in_conversation str_eq any is_customer_turn is_after_at_same_time
    public_message_static_blocked_reason strip public_internal_reasoning_rule searchable_text
    contains collapse public_price_rule_from_safety_context public_price_policy_rule
    mentions_exact_price mentionable_prices normalize_price_text price_is_mentionable filter
    get_conversation_state is_state_of row_to_state row_status status_of_text
    stored_state_blocked_reason channel_state_blocked_reason apply_post_send_updates
execute_action-Cleared_example =
    execute_action-Cleared around claimed_reply start_world refl one_not_zero

-- A claim of the reply, and a send that fails for now.
abbrev busy : ChatwootApiError
busy = record {
  code = codes "http_503";
  operation = codes "create_message";
  retryable = true;
  status_code = some 503;
}

abbrev running : OutboundActionRow
running = claim_row 115 reply_row

abbrev waiting : OutboundActionRow
waiting =
    mark_row (send_failure_mark live_settings (row_to_outbound_action running) busy 116 117) running

claim_step : Step live_settings reply_row 0 running
unfolding action_due queued_action_due
claim_step = Step.claimed reply_row 115 5 115 refl

life : Steps live_settings reply_row 1 waiting
life =
    Steps.then reply_row running waiting 0 1
      (Steps.then reply_row reply_row running 0 0 (Steps.done reply_row) claim_step)
      (Step.failed running busy 116 117 refl)

Steps-attempts_example :
    (waiting.attempt_count ≡ 1)
    × (1 ≤ live_settings.outbound_max_attempts)
    × (is_live waiting.status ≡ true → 1 < live_settings.outbound_max_attempts)
Steps-attempts_example =
    Steps-attempts live_settings reply_row waiting 1 refl refl (omega arith) life
