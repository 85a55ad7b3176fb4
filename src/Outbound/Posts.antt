-- ===== src/Outbound/Posts.antt =====
-- application/outbound.py, run_once: the create_message calls of the worker, and the outcomes that it counts.
use Prim.Native.Nat.{ℕ, zero, suc, ◌+◌, ◌≤◌}
use mathlib.Core.Path.{◌≡◌, refl, ◌∙◌, ap}
use mathlib.Core.Bool.{Bool, true, false}
use mathlib.Core.Option.{Option, none, some}
use mathlib.Core.List.{List, [], ◌∷◌}
use native.Mathlib.Omega.{arith}
use wootpilot.Prelude.Text.{Text}
use wootpilot.Domain.Rules.{is_private_note, PolicyRule}
use wootpilot.Domain.Outbound.{Result, ok, err, QueuedOutboundAction}
use wootpilot.Outbound.Action.{Call, World, Surroundings, and_then, caught, after_wait, pure, ◌>>=◌}
use wootpilot.Outbound.Executor.{
  Outcome, Counts, no_counts, count, is_superseded, blocked_reason, mark_blocked, mark_superseded,
  mark_send_failure, apply_post_send_updates, apply_success_status_transition,
  apply_private_review_label, mark_sent, finish_send, send, send_unless_superseded,
  send_unless_blocked, check_unless_superseded, execute_action, claim_one, run_loop, run_once,
}

-- The create_message calls of a history.
abbrev pub posts : List Call → ℕ
posts [] = 0
posts (Call.create_message _ _ _ ∷ calls) = suc (posts calls)
posts (Call.get_conversation_safety _ ∷ calls) = posts calls
posts (Call.set_conversation_status _ _ ∷ calls) = posts calls
posts (Call.add_conversation_labels _ _ ∷ calls) = posts calls

-- The posts that an outcome stands for.
abbrev pub posts_of : Outcome → ℕ
posts_of Outcome.sent = 1
posts_of Outcome.failed = 1
posts_of Outcome.blocked = 0
posts_of Outcome.superseded = 0

module _ (env : Surroundings) where
  pub is_superseded-calls : (a : QueuedOutboundAction) (w : World) → (is_superseded env a w).1 ≡ w
  unfolding is_superseded
  is_superseded-calls a w = ground arith

  pub blocked_reason-posts :
      (a : QueuedOutboundAction) (w : World)
      → posts (blocked_reason env a w).1.calls ≡ posts w.calls
  unfolding blocked_reason
  blocked_reason-posts a w = ground arith

  status-posts :
      (a : QueuedOutboundAction) (w : World)
      → posts (apply_success_status_transition env a w).1.calls ≡ posts w.calls
  unfolding apply_success_status_transition
  status-posts a w = ground arith

  label-posts :
      (a : QueuedOutboundAction) (w : World)
      → posts (apply_private_review_label env a w).1.calls ≡ posts w.calls
  unfolding apply_private_review_label
  label-posts a w = ground arith

  updates-posts :
      (a : QueuedOutboundAction) (w : World)
      → posts (apply_post_send_updates env a w).1.calls ≡ posts w.calls
  unfolding apply_post_send_updates
  updates-posts a w =
      ground (arith, status-posts a w, label-posts a (apply_success_status_transition env a w).1)

  mark_sent-posts :
      (a : QueuedOutboundAction) (id : Text) (w : World)
      → posts (mark_sent env a id w).1.calls ≡ posts w.calls
  unfolding mark_sent
  mark_sent-posts a id w = ground (arith, updates-posts a w)

  mark_sent-outcome :
      (a : QueuedOutboundAction) (id : Text) (w : World) (o : Outcome)
      → (mark_sent env a id w).0 ≡ ok o
      → o ≡ Outcome.sent
  unfolding mark_sent
  mark_sent-outcome a id w o h = ground arith

  finish_send-posts :
      (a : QueuedOutboundAction) (r : Result Text) (w : World)
      → posts (finish_send env a r w).1.calls ≡ posts w.calls
  unfolding finish_send mark_send_failure
  finish_send-posts a (ok id) w = mark_sent-posts a id w
  finish_send-posts a (err e) w = ground arith

  finish_send-outcome :
      (a : QueuedOutboundAction) (r : Result Text) (w : World) (o : Outcome)
      → (finish_send env a r w).0 ≡ ok o
      → posts_of o ≡ 1
  unfolding finish_send mark_send_failure
  finish_send-outcome a (ok id) w o h = ground (arith, mark_sent-outcome a id w o h)
  finish_send-outcome a (err e) w o h = ground arith

  -- The world after the create_message call of an action.
  abbrev posted : QueuedOutboundAction → World → World
  posted a w = after_wait env (record w {
    calls =
        Call.create_message a.conversation_id a.content (is_private_note a.action_kind) ∷ w.calls;
  })

  answered-posts :
      (a : QueuedOutboundAction) (c : Result (Result Text)) (w : World) (o : Outcome)
      → (and_then c (finish_send env a) w).0 ≡ ok o
      → (posts (and_then c (finish_send env a) w).1.calls ≡ posts w.calls) × (posts_of o ≡ 1)
  answered-posts a (ok r) w o h = (finish_send-posts a r w, finish_send-outcome a r w o h)
  answered-posts a (err e) w o h = absurd (ground arith)

  send-posts :
      (a : QueuedOutboundAction) (w : World) (o : Outcome)
      → (send env a w).0 ≡ ok o
      → posts (send env a w).1.calls ≡ posts w.calls + posts_of o
  unfolding send
  send-posts a w o h =
      let answer = env.message_answer w.ticks (posted a w).calls in
      let (calls, one) = answered-posts a (caught answer) (posted a w) o h in omega arith

  unless_superseded-posts :
      (a : QueuedOutboundAction) (newer : Bool) (w : World) (o : Outcome)
      → (send_unless_superseded env a newer w).0 ≡ ok o
      → posts (send_unless_superseded env a newer w).1.calls ≡ posts w.calls + posts_of o
  unfolding send_unless_superseded mark_superseded
  unless_superseded-posts a true w o h = ground arith
  unless_superseded-posts a false w o h = send-posts a w o h

  -- A step whose result is a flag, such as is_superseded, followed by what depends on it.
  flag-posts :
      (a : QueuedOutboundAction) (r : Result Bool) (w : World) (o : Outcome)
      → (and_then r (send_unless_superseded env a) w).0 ≡ ok o
      → posts (and_then r (send_unless_superseded env a) w).1.calls ≡ posts w.calls + posts_of o
  flag-posts a (ok newer) w o h = unless_superseded-posts a newer w o h
  flag-posts a (err e) w o h = absurd (ground arith)

  unless_blocked-posts :
      (a : QueuedOutboundAction) (reason : Option PolicyRule) (w : World) (o : Outcome)
      → (send_unless_blocked env a reason w).0 ≡ ok o
      → posts (send_unless_blocked env a reason w).1.calls ≡ posts w.calls + posts_of o
  unfolding send_unless_blocked mark_blocked
  unless_blocked-posts a (some rule) w o h = ground arith
  unless_blocked-posts a none w o h =
      let (r, w') = is_superseded env a w in
      flag-posts a r w' o h
      ∙ ap (λ (v : World). posts v.calls + posts_of o) (is_superseded-calls a w)

  reason-posts :
      (a : QueuedOutboundAction) (r : Result (Option PolicyRule)) (w : World) (o : Outcome)
      → (and_then r (send_unless_blocked env a) w).0 ≡ ok o
      → posts (and_then r (send_unless_blocked env a) w).1.calls ≡ posts w.calls + posts_of o
  reason-posts a (ok reason) w o h = unless_blocked-posts a reason w o h
  reason-posts a (err e) w o h = absurd (ground arith)

  checked-posts :
      (a : QueuedOutboundAction) (newer : Bool) (w : World) (o : Outcome)
      → (check_unless_superseded env a newer w).0 ≡ ok o
      → posts (check_unless_superseded env a newer w).1.calls ≡ posts w.calls + posts_of o
  unfolding check_unless_superseded mark_superseded
  checked-posts a true w o h = ground arith
  checked-posts a false w o h =
      let (r, w') = blocked_reason env a w in
      omega (arith, reason-posts a r w' o h, blocked_reason-posts a w)

  newer-posts :
      (a : QueuedOutboundAction) (r : Result Bool) (w : World) (o : Outcome)
      → (and_then r (check_unless_superseded env a) w).0 ≡ ok o
      → posts (and_then r (check_unless_superseded env a) w).1.calls ≡ posts w.calls + posts_of o
  newer-posts a (ok newer) w o h = checked-posts a newer w o h
  newer-posts a (err e) w o h = absurd (ground arith)

  pub execute_action-posts :
      (a : QueuedOutboundAction) (w : World) (o : Outcome)
      → (execute_action env a w).0 ≡ ok o
      → posts (execute_action env a w).1.calls ≡ posts w.calls + posts_of o
  unfolding execute_action
  execute_action-posts a w o h =
      let (r, w') = is_superseded env a w in
      newer-posts a r w' o h
      ∙ ap (λ (v : World). posts v.calls + posts_of o) (is_superseded-calls a w)

  claim_one-posts : (w : World) → posts (claim_one env w).1.calls ≡ posts w.calls
  unfolding claim_one
  claim_one-posts w = ground arith

  abbrev attempted : Counts → ℕ
  attempted c = c.sent + c.failed

  abbrev total : Counts → ℕ
  total c = c.sent + c.blocked + c.failed + c.superseded

  -- What the rest of the loop does after one action is executed.
  Loop : (c : Counts) (w : World) (n : ℕ) (r : Result Counts × World) → Type 0
  Loop c w n r =
      (c' : Counts)
      → r.0 ≡ ok c'
      → (posts r.1.calls + attempted c ≡ posts w.calls + attempted c') × (total c' ≤ total c + n)

  count_posts : (o : Outcome) (c : Counts) → attempted (count o c) ≡ attempted c + posts_of o
  count_posts Outcome.sent c = omega arith
  count_posts Outcome.blocked c = omega arith
  count_posts Outcome.failed c = omega arith
  count_posts Outcome.superseded c = omega arith

  total-count : (o : Outcome) (c : Counts) → total (count o c) ≡ total c + 1
  total-count Outcome.sent c = omega arith
  total-count Outcome.blocked c = omega arith
  total-count Outcome.failed c = omega arith
  total-count Outcome.superseded c = omega arith

  -- The loop goes on from the outcome of one action.
  outcome-Loop :
      (rounds : ℕ)
      → ((c : Counts) (w : World) → Loop c w rounds (run_loop env rounds c w))
      → (c : Counts) (w w' : World) (r : Result Outcome)
      → ((o : Outcome) → r ≡ ok o → posts w'.calls ≡ posts w.calls + posts_of o)
      → Loop c w (suc rounds) (and_then r (λ o. run_loop env rounds (count o c)) w')
  unfolding Loop
  outcome-Loop rounds ih c w w' (err e) h c' k = absurd (ground arith)
  outcome-Loop rounds ih c w w' (ok o) h c' k =
      let (balance, bound) = ih (count o c) w' c' k in
      (omega (arith, h o refl, count_posts o c, balance), omega (arith, total-count o c, bound))

  claimed-Loop :
      (rounds : ℕ)
      → ((c : Counts) (w : World) → Loop c w rounds (run_loop env rounds c w))
      → (c : Counts) (w w' : World) (r : Result (List QueuedOutboundAction))
      → posts w'.calls ≡ posts w.calls
      → Loop c w (suc rounds) (
          and_then r
            (λ actions. elim actions [
              | [] ↦ pure c
              | action ∷ _ ↦
                  execute_action env action >>= λ outcome. run_loop env rounds (count outcome c)
            ])
            w')
  unfolding Loop
  claimed-Loop rounds ih c w w' (err e) h c' k = absurd (ground arith)
  claimed-Loop rounds ih c w w' (ok []) h c' k = ground arith
  claimed-Loop rounds ih c w w' (ok (a ∷ rest)) h c' k =
      outcome-Loop rounds ih c w (execute_action env a w').1 (execute_action env a w').0
        (λ o e. execute_action-posts a w' o e ∙ ap (λ (n : ℕ). n + posts_of o) h) c' k

  run_loop-Loop : (rounds : ℕ) (c : Counts) (w : World) → Loop c w rounds (run_loop env rounds c w)
  unfolding run_loop Loop
  run_loop-Loop zero c w c' k = ground arith
  run_loop-Loop (suc rounds) c w c' k =
      claimed-Loop rounds (run_loop-Loop rounds) c w (claim_one env w).1 (claim_one env w).0
        (claim_one-posts w) c' k

-- When a run ends with counts, it has called create_message exactly once for each action that it
-- counts as sent or failed and never for the blocked and superseded ones, and it has handled at most
-- `limit` actions. The client's answers and what the rest of the system does meanwhile are arbitrary.
pub run_once-posts :
    (env : Surroundings) (limit : ℕ) (w : World) (c : Counts)
    → (run_once env limit w).0 ≡ ok c
    → (posts (run_once env limit w).1.calls ≡ posts w.calls + (c.sent + c.failed))
      × (c.sent + c.blocked + c.failed + c.superseded ≤ limit)
unfolding run_once Loop
run_once-posts env limit w c h =
    let (balance, bound) = run_loop-Loop env limit no_counts w c h in
    (omega (arith, balance), omega (arith, bound))
