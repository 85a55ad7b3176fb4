-- ===== src/Tests/Services.antt =====
-- The tables behind a queued public reply, and the services around them.
use Prim.Native.Nat.{◌+◌}
use mathlib.Core.Bool.{true, false}
use mathlib.Core.Option.{none, some}
use mathlib.Core.List.{[], ◌∷◌}
use wootpilot.Prelude.Text.{Text, codes}
use wootpilot.Domain.Messages.{
  MessageDirection, MessageAuthorType, ConversationStatus, NormalizedMessage,
}
use wootpilot.Domain.Rules.{AutomationMode, AgentActionKind}
use wootpilot.Domain.Outbound.{
  OutboundActionStatus, SafetyContext, QueuedOutboundAction, ok, Settings,
}
use wootpilot.Persistence.Rows.{OutboundActionRow, Db, empty_db}
use wootpilot.Support.Recording.{Made, SearchAnswer, SupportWorkflow}
use wootpilot.Ingress.Webhooks.{Delivery, Webhooks}
use wootpilot.Outbound.Checks.{ChannelSafetyState}
use wootpilot.Outbound.Action.{World, Surroundings}
use wootpilot.Tests.Fixtures.{ascii, decimal_of, question, calm_row, caps, quoted_reply, model}

abbrev pub captured : SafetyContext
captured = record {
  catalog_context = some caps;
  workflow_rule_ids = [];
  workflow_risk_reasons = [];
}

abbrev pub reply_row : OutboundActionRow
reply_row = record {
  id = codes "a1";
  agent_run_id = codes "g1";
  tenant_id = codes "t";
  channel_id = codes "2";
  conversation_id = codes "9";
  source_message_id = codes "10";
  action_kind = AgentActionKind.public_message;
  content = quoted_reply;
  safety_context = captured;
  status = OutboundActionStatus.queued;
  idempotency_key = codes "t:2:9:10:public_message";
  provider_message_id = none;
  failure_reason = none;
  attempt_count = 0;
  next_attempt_at = none;
  error_code = none;
  created_at = 110;
  updated_at = 110;
}

abbrev pub queue : Db
queue = record empty_db {
  conversation_messages = question ∷ [];
  conversation_states = calm_row ∷ [];
  outbound_actions = reply_row ∷ [];
}

abbrev pub claimed_reply : QueuedOutboundAction
claimed_reply = record {
  id = codes "a1";
  tenant_id = codes "t";
  channel_id = codes "2";
  conversation_id = codes "9";
  source_message_id = codes "10";
  action_kind = AgentActionKind.public_message;
  content = quoted_reply;
  safety_context = captured;
  status = OutboundActionStatus.executing;
  attempt_count = 0;
}

abbrev pub open_channel : ChannelSafetyState
open_channel = record {
  conversation_id = codes "9";
  replyable = some true;
  paused = false;
  assigned_agent_id = none;
  assigned_team_id = none;
  status = some ConversationStatus.open_status;
  labels = [];
}

abbrev pub live_settings : Settings
live_settings = record {
  automation_mode = AutomationMode.public_reply;
  human_operator_active_ttl_seconds = 900;
  webhook_replay_window_seconds = 300;
  outbound_retry_delay_seconds = 60;
  outbound_max_attempts = 3;
  outbound_public_reply_delay = 5;
  chatwoot_webhook_secret = codes "secret";
  chatwoot_update_status_after_public_reply = true;
  chatwoot_public_reply_status = codes "pending";
  chatwoot_mark_needs_human_on_private_review = true;
  chatwoot_needs_human_label = codes "needs-human";
}

-- Chatwoot answers every call, and nothing else writes to the tables.
abbrev pub around : Surroundings
around = record {
  settings = live_settings;
  unicode = ascii;
  decimal = decimal_of;
  now = λ ticks. 200 + ticks;
  others = λ _ db. db;
  message_answer = λ _ _. ok (codes "77");
  safety_answer = λ _ _. ok open_channel;
  update_answer = λ _ _. ok tt;
}

abbrev pub start_world : World
start_world = record { db = queue; calls = []; ticks = 0 }

-- Another id for each row that a run makes.
abbrev pub made_id : Made → Text
made_id Made.snapshot = codes "c1"
made_id Made.agent_run = codes "g1"
made_id Made.action = codes "a1"
made_id Made.audit_record = codes "u1"

abbrev pub support : SupportWorkflow
support = record {
  settings = live_settings;
  nodes = model;
  search = λ _. SearchAnswer.found caps;
  new_id = made_id;
  now = λ _. 110;
}

abbrev pub webhooks : Webhooks
webhooks = record { workflow = support; new_id = λ _. codes "w1"; now = λ _. 120 }

abbrev pub agent_reply : NormalizedMessage
agent_reply = record question {
  id = codes "n3";
  message_id = codes "12";
  direction = MessageDirection.outbound;
  author_type = MessageAuthorType.human_agent;
  content = codes "Hello";
}

-- The delivery of an agent's reply, and of a payload that no translator accepts.
abbrev pub reply_delivery : Delivery
reply_delivery = record {
  provider_event_id = codes "e1";
  event_type = codes "message_created";
  payload_hash = codes "h";
  translate_message = λ _. ok (some agent_reply);
  translate_channel_event = λ _. ok none;
}
