-- ===== src/Outbound/Clearance.antt =====
-- application/outbound.py: the checks of run_once around a public message, followed through the code
-- up to create_message.
use Prim.Native.Nat.{suc}
use mathlib.Core.Path.{◌≡◌, refl, sym, subst, ◌∙◌, ap}
use mathlib.Core.Logic.{◌≢◌, ◌⊎◌, inl, inr}
use mathlib.Core.Bool.{Bool, true, false}
use mathlib.Core.Option.{Option, none, some}
use mathlib.Core.List.{List, ◌∷◌}
use native.Mathlib.Omega.{arith}
use wootpilot.Prelude.Tests.{if◌then◌else◌}
use wootpilot.Domain.Messages.{ConversationState}
use wootpilot.Domain.Rules.{AgentActionKind, PolicyRule}
use wootpilot.Domain.Outbound.{Result, ok, err, ok_injective, QueuedOutboundAction}
use wootpilot.Persistence.Repository.{get_conversation_state}
use wootpilot.Persistence.Queue.{has_newer_customer_public_message}
use wootpilot.Outbound.Checks.{
  ChannelSafetyState, public_message_static_blocked_reason, stored_state_blocked_reason,
  channel_state_blocked_reason, reads_clock,
}
use wootpilot.Outbound.Action.{
  Call, World, Surroundings, and_then, after_wait, pure, ◌>>=◌, clock_if,
}
use wootpilot.Outbound.Executor.{
  Outcome, is_superseded, live_blocked_reason, public_blocked_reason, blocked_reason, mark_blocked,
  mark_superseded, send_unless_superseded, send_unless_blocked, check_unless_superseded,
  execute_action,
}
use wootpilot.Outbound.Posts.{posts, blocked_reason-posts}
use wootpilot.Outbound.Conditions.{
  ChannelClear, ContentClear, StateClear, channel→ChannelClear, static→ContentClear,
  reason→StateClear, StateClear→reason,
}

module _ (env : Surroundings) (a : QueuedOutboundAction) where
  -- No newer customer message in the tables of a world.
  abbrev pub newer_in : World → Bool
  newer_in w =
      has_newer_customer_public_message env.decimal w.db a.tenant_id a.channel_id a.conversation_id
        a.source_message_id

  -- The world of `w` after the clock is read for the stored state that was found.
  abbrev pub after_clock : Option ConversationState → World → World
  after_clock found w = record w { ticks = if reads_clock found then suc w.ticks else w.ticks }

  -- Then the transaction ends.
  abbrev pub at_safety_read : ConversationState → World → World
  at_safety_read state w = after_wait env (after_clock (some state) w)

  abbrev pub safety_history : World → List Call
  safety_history w = Call.get_conversation_safety a.conversation_id ∷ w.calls

  -- Then the channel is read.
  abbrev pub at_send : ConversationState → World → World
  at_send state w = after_wait env (record (at_safety_read state w) { calls = safety_history w })

  -- Everything that was found clear before the post.
  pub record Cleared (w : World) : Type 0 where
    pub content : ContentClear env.unicode env.settings a
    pub state : ConversationState
    pub stored :
        get_conversation_state w.db a.tenant_id a.channel_id a.conversation_id ≡ ok (some state)
    pub state_clear : StateClear (env.now w.ticks) state
    pub channel : ChannelSafetyState
    pub answered : env.safety_answer (at_safety_read state w).ticks (safety_history w) ≡ ok channel
    pub channel_clear : ChannelClear a channel
    pub current : newer_in w ≡ false
    pub still_current : newer_in (at_send state w) ≡ false

  -- The checks find no reason, and the world that they leave.
  record Passed (w w' : World) : Type 0 where
    passed_content : ContentClear env.unicode env.settings a
    passed_state : ConversationState
    passed_stored :
        get_conversation_state w.db a.tenant_id a.channel_id a.conversation_id
        ≡ ok (some passed_state)
    passed_state_clear : StateClear (env.now w.ticks) passed_state
    passed_channel : ChannelSafetyState
    passed_answer :
        env.safety_answer (at_safety_read passed_state w).ticks (safety_history w)
        ≡ ok passed_channel
    passed_channel_clear : ChannelClear a passed_channel
    left : w' ≡ at_send passed_state w

  channel-Passed :
      (w : World) (state : ConversationState) (answer : Result ChannelSafetyState)
      → (and_then answer
          (λ channel. pure (channel_state_blocked_reason a channel))
          (at_send state w)).0
        ≡ ok none
      → (channel : ChannelSafetyState) × (answer ≡ ok channel) × ChannelClear a channel
  channel-Passed w state (ok channel) h =
      (channel, refl, channel→ChannelClear a channel (ground arith))
  channel-Passed w state (err e) h = absurd (ground arith)

  live-Passed :
      (w : World) (static : ContentClear env.unicode env.settings a) (state : ConversationState)
      → get_conversation_state w.db a.tenant_id a.channel_id a.conversation_id ≡ ok (some state)
      → StateClear (env.now w.ticks) state
      → (live_blocked_reason env a none (after_clock (some state) w)).0 ≡ ok none
      → Passed w (live_blocked_reason env a none (after_clock (some state) w)).1
  unfolding live_blocked_reason
  live-Passed w static state stored clear h =
      let answer = env.safety_answer (at_safety_read state w).ticks (safety_history w) in
      let (channel, answered, channel_clear) = channel-Passed w state answer h in
      record {
        passed_content = static;
        passed_state = state;
        passed_stored = stored;
        passed_state_clear = clear;
        passed_channel = channel;
        passed_answer = answered;
        passed_channel_clear = channel_clear;
        left = ground arith;
      }

  stored-Passed :
      (w : World) (static : ContentClear env.unicode env.settings a)
      (found : Option ConversationState)
      → get_conversation_state w.db a.tenant_id a.channel_id a.conversation_id ≡ ok found
      → (reason : Option PolicyRule) → stored_state_blocked_reason (env.now w.ticks) found ≡ reason
      → (live_blocked_reason env a reason (after_clock found w)).0 ≡ ok none
      → Passed w (live_blocked_reason env a reason (after_clock found w)).1
  unfolding live_blocked_reason stored_state_blocked_reason
  stored-Passed w static found stored (some rule) e h = absurd (ground arith)
  stored-Passed w static none stored none e h = absurd (ground arith)
  stored-Passed w static (some state) stored none e h =
      live-Passed w static state stored (reason→StateClear (env.now w.ticks) state e) h

  -- The rest of the checks, from the state that was read.
  abbrev after_state :
      Result (Option ConversationState) → World → Result (Option PolicyRule) × World
  after_state found = and_then found (λ state. clock_if env (reads_clock state) >>= λ now.
      live_blocked_reason env a (stored_state_blocked_reason now state))

  found-Passed :
      (w : World) (static : ContentClear env.unicode env.settings a)
      (found : Result (Option ConversationState))
      → get_conversation_state w.db a.tenant_id a.channel_id a.conversation_id ≡ found
      → (after_state found w).0 ≡ ok none
      → Passed w (after_state found w).1
  found-Passed w static (ok found) e h =
      stored-Passed w static found e (stored_state_blocked_reason (env.now w.ticks) found) refl h
  found-Passed w static (err f) e h = absurd (ground arith)

  public-Passed :
      (w : World) (reason : Option PolicyRule)
      → public_message_static_blocked_reason env.unicode env.settings a ≡ reason
      → (public_blocked_reason env a reason w).0 ≡ ok none
      → Passed w (public_blocked_reason env a reason w).1
  unfolding public_blocked_reason
  public-Passed w (some rule) e h = absurd (ground arith)
  public-Passed w none e h =
      found-Passed w (static→ContentClear env.unicode env.settings a e)
        (get_conversation_state w.db a.tenant_id a.channel_id a.conversation_id) refl h

  blocked_reason_public :
      (w : World)
      → a.action_kind ≡ AgentActionKind.public_message
      → blocked_reason env a w
        ≡ public_blocked_reason env a
            (public_message_static_blocked_reason env.unicode env.settings a)
            w
  unfolding blocked_reason
  blocked_reason_public w kind = ground arith

  checks-Passed :
      (w : World)
      → a.action_kind ≡ AgentActionKind.public_message
      → (blocked_reason env a w).0 ≡ ok none
      → Passed w (blocked_reason env a w).1
  checks-Passed w kind =
      rw (blocked_reason_public w kind)
        (public-Passed w (public_message_static_blocked_reason env.unicode env.settings a) refl)

  -- The posts of what follows a step whose world is `w'` stay those of `w`.
  Silent : (w : World) (r : Result Outcome × World) → Type 0
  Silent w r = posts r.1.calls ≡ posts w.calls

  Ends : (w : World) (r : Result Outcome × World) → Type 0
  Ends w r = Silent w r ⊎ Cleared w

  is_superseded_public :
      (w : World)
      → a.action_kind ≡ AgentActionKind.public_message
      → is_superseded env a w ≡ (ok (newer_in w), w)
  unfolding is_superseded
  is_superseded_public w kind = ground arith

  flag-Ends :
      (w w' : World)
      → Passed w w'
      → posts w'.calls ≡ posts w.calls
      → newer_in w ≡ false
      → (newer : Bool) → newer_in w' ≡ newer
      → Ends w (send_unless_superseded env a newer w')
  unfolding Ends Silent send_unless_superseded mark_superseded
  flag-Ends w w' p same current true e = inl same
  flag-Ends w w' p same current false e = inr (record {
    content = p.passed_content;
    state = p.passed_state;
    stored = p.passed_stored;
    state_clear = p.passed_state_clear;
    channel = p.passed_channel;
    answered = p.passed_answer;
    channel_clear = p.passed_channel_clear;
    current = current;
    still_current = sym (ap newer_in p.left) ∙ e;
  })

  reason-Ends :
      (w : World)
      → a.action_kind ≡ AgentActionKind.public_message
      → newer_in w ≡ false
      → (r : Result (Option PolicyRule)) → (blocked_reason env a w).0 ≡ r
      → Ends w (and_then r (send_unless_blocked env a) (blocked_reason env a w).1)
  unfolding Ends Silent send_unless_blocked mark_blocked
  reason-Ends w kind current (err e) h = inl (blocked_reason-posts env a w)
  reason-Ends w kind current (ok (some rule)) h = inl (blocked_reason-posts env a w)
  reason-Ends w kind current (ok none) h =
      let w' = (blocked_reason env a w).1 in
      rw (is_superseded_public w' kind) (
        flag-Ends w w' (checks-Passed w kind h) (blocked_reason-posts env a w) current (newer_in w')
          refl)

  newer-Ends :
      (w : World)
      → a.action_kind ≡ AgentActionKind.public_message
      → (newer : Bool) → newer_in w ≡ newer
      → Ends w (check_unless_superseded env a newer w)
  unfolding Ends Silent check_unless_superseded mark_superseded
  newer-Ends w kind true e = inl refl
  newer-Ends w kind false e = reason-Ends w kind e (blocked_reason env a w).0 refl

  execute_action-Ends :
      (w : World) → a.action_kind ≡ AgentActionKind.public_message → Ends w (execute_action env a w)
  unfolding execute_action
  execute_action-Ends w kind =
      rw (is_superseded_public w kind) (newer-Ends w kind (newer_in w) refl)

-- When executing a claimed public message has called create_message, then the settings allow public
-- replies, the content passed the static checks, a stored state of the conversation and an answer of
-- the channel were both clear, and no newer customer message was in the tables, neither before the
-- checks nor after the waits, right before the post.
pub execute_action-Cleared :
    (env : Surroundings) (a : QueuedOutboundAction) (w : World)
    → a.action_kind ≡ AgentActionKind.public_message
    → posts (execute_action env a w).1.calls ≢ posts w.calls
    → Cleared env a w
unfolding Ends Silent
execute_action-Cleared env a w kind posted = elim (execute_action-Ends env a w kind) [
  | inl silent ↦ absurd (posted silent)
  | inr cleared ↦ cleared
]

-- A worker that reads a stored state with a reason to block posts nothing for a public message.
pub execute_action-blocked :
    (env : Surroundings) (a : QueuedOutboundAction) (w : World) (state : ConversationState)
    → a.action_kind ≡ AgentActionKind.public_message
    → get_conversation_state w.db a.tenant_id a.channel_id a.conversation_id ≡ ok (some state)
    → stored_state_blocked_reason (env.now w.ticks) (some state) ≢ none
    → posts (execute_action env a w).1.calls ≡ posts w.calls
unfolding Ends Silent
execute_action-blocked env a w state kind stored blocked = elim (execute_action-Ends env a w kind) [
  | inl silent ↦ silent
  | inr cleared ↦
      let same : cleared.state ≡ state =
        cc (ok_injective (some cleared.state) (some state) (sym cleared.stored ∙ stored)) in
      absurd (
        blocked (
          StateClear→reason (env.now w.ticks) state (
            subst (λ (s : ConversationState). StateClear (env.now w.ticks) s) same
              cleared.state_clear)))
]
