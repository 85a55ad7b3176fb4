-- ===== src/Domain/Outbound.antt =====
-- src/wootpilot/domain/models/outbound.py, application/errors.py and settings.py: the outbound
-- action, the controlled failures, and the settings that the modelled code reads.
use Prim.Native.Nat.{ℕ, ◌*◌}
use mathlib.Core.Path.{◌≡◌, refl}
use mathlib.Core.Bool.{Bool, true, false}
use mathlib.Core.Option.{Option}
use mathlib.Core.List.{List}
use native.Mathlib.Omega.{arith}
use wootpilot.Prelude.Text.{Text}
use wootpilot.Domain.Rules.{AutomationMode, AgentActionKind}
use wootpilot.Domain.Catalog.{CatalogContext}

pub data OutboundActionStatus : Type 0 where
  queued executing sent retryable_failure permanent_failure : OutboundActionStatus
  blocked_by_policy superseded : OutboundActionStatus

abbrev pub is_queued : OutboundActionStatus → Bool
is_queued OutboundActionStatus.queued = true
is_queued _ = false

abbrev pub is_retryable_failure : OutboundActionStatus → Bool
is_retryable_failure OutboundActionStatus.retryable_failure = true
is_retryable_failure _ = false

-- The JSON column that _queue_action writes. `catalog_context` is `none` where the payload has no
-- object under that key, as in a row written without a context.
pub record SafetyContext : Type 0 where
  pub catalog_context : Option CatalogContext
  pub workflow_rule_ids : List Text
  pub workflow_risk_reasons : List Text

pub record QueuedOutboundAction : Type 0 where
  pub id : Text
  pub tenant_id : Text
  pub channel_id : Text
  pub conversation_id : Text
  pub source_message_id : Text
  pub action_kind : AgentActionKind
  pub content : Text
  pub safety_context : SafetyContext
  pub status : OutboundActionStatus
  pub attempt_count : ℕ

-- ChatwootTransportError and ChatwootResponseError differ only in their class.
pub record ChatwootApiError : Type 0 where
  pub code : Text
  pub operation : Text
  pub retryable : Bool
  pub status_code : Option ℕ

-- An exception that leaves a use case.
pub data Failure : Type 0 where
  chatwoot_api_error : ChatwootApiError → Failure
  value_error runtime_error integrity_error : Failure
  unexpected : Text → Failure

pub data Result (A : Type 0) : Type 0 where
  ok : A → Result A
  err : Failure → Result A

infixl 5 ◌>>=◌
abbrev pub ◌>>=◌ : {A B : Type 0} → Result A → (A → Result B) → Result B
ok a >>= f = f a
err e >>= f = err e

-- What a chain that succeeds did first, and then.
pub bind_ok :
    {A B : Type 0} (r : Result A) (f : A → Result B) (b : B)
    → (r >>= f) ≡ ok b
    → (a : A) × (r ≡ ok a) × (f a ≡ ok b)
bind_ok (ok a) f b h = (a, refl, h)
bind_ok (err e) f b h = absurd (ground arith)

pub ok_injective : {A : Type 0} (a b : A) → ok a ≡ ok b → a ≡ b
ok_injective a b h = cc

pub record Settings : Type 0 where
  pub automation_mode : AutomationMode
  pub human_operator_active_ttl_seconds : ℕ
  pub webhook_replay_window_seconds : ℕ
  pub outbound_retry_delay_seconds : ℕ
  pub outbound_max_attempts : ℕ
  pub outbound_public_reply_delay : ℕ  -- the float number of seconds, in microseconds
  pub chatwoot_webhook_secret : Text
  pub chatwoot_update_status_after_public_reply : Bool
  pub chatwoot_public_reply_status : Text
  pub chatwoot_mark_needs_human_on_private_review : Bool
  pub chatwoot_needs_human_label : Text

-- timedelta(seconds=n), in microseconds
abbrev pub seconds : ℕ → ℕ
seconds n = n * 1000000
