-- ===== src/Outbound/Retries.antt =====
-- The life of one row of the queue: src/wootpilot/persistence/repositories.py claims it, and
-- src/wootpilot/application/outbound.py marks how the claimed action ended.
use Prim.Native.Nat.{ℕ, ◌+◌, ◌≤◌, ◌<◌}
use mathlib.Core.Path.{◌≡◌}
use mathlib.Core.Bool.{Bool, true, false}
use mathlib.Core.Option.{Option}
use native.Mathlib.Omega.{arith}
use wootpilot.Prelude.Text.{Text}
use wootpilot.Domain.Rules.{PolicyRule}
use wootpilot.Domain.Outbound.{ChatwootApiError, OutboundActionStatus, Settings}
use wootpilot.Persistence.Rows.{OutboundActionRow}
use wootpilot.Persistence.Queue.{
  action_due, claim_row, mark_row, queued_action_due, retryable_action_due, row_to_outbound_action,
}
use wootpilot.Outbound.Checks.{
  blocked_mark, failure_status, next_attempt_at, send_failure_mark, sent_mark, superseded_mark,
}

-- One change of a row by the worker, with the failures of a send that it counts. It marks only rows
-- that it has claimed, which nothing else has marked since; the mark itself checks no status.
pub data Step (settings : Settings) : OutboundActionRow → ℕ → OutboundActionRow → Type 0 where
  claimed :
      (row : OutboundActionRow) (now delay claimed_at : ℕ)
      → action_due now delay row ≡ true
      → Step settings row 0 (claim_row claimed_at row)
  failed :
      (row : OutboundActionRow) (exc : ChatwootApiError) (now now' : ℕ)
      → row.status ≡ OutboundActionStatus.executing
      → Step settings row 1
          (mark_row (send_failure_mark settings (row_to_outbound_action row) exc now now') row)
  blocked :
      (row : OutboundActionRow) (rule : PolicyRule) (now : ℕ)
      → row.status ≡ OutboundActionStatus.executing
      → Step settings row 0 (mark_row (blocked_mark now rule) row)
  superseded :
      (row : OutboundActionRow) (now : ℕ)
      → row.status ≡ OutboundActionStatus.executing
      → Step settings row 0 (mark_row (superseded_mark now) row)
  sent :
      (row : OutboundActionRow) (provider_message_id : Text) (post_send_failure : Option Text)
      (now : ℕ)
      → row.status ≡ OutboundActionStatus.executing
      → Step settings row 0 (mark_row (sent_mark provider_message_id post_send_failure now) row)

-- Any number of steps, with the failures in all of them.
pub data Steps (settings : Settings) : OutboundActionRow → ℕ → OutboundActionRow → Type 0 where
  done : (row : OutboundActionRow) → Steps settings row 0 row
  then :
      (row row' row'' : OutboundActionRow) (m n : ℕ)
      → Steps settings row m row'
      → Step settings row' n row''
      → Steps settings row (m + n) row''

-- The statuses that the worker may still change.
abbrev pub is_live : OutboundActionStatus → Bool
is_live OutboundActionStatus.queued = true
is_live OutboundActionStatus.executing = true
is_live OutboundActionStatus.retryable_failure = true
is_live _ = false

-- The attempts of a row stay within the limit, and below it while the row is live.
record Bounded (settings : Settings) (row : OutboundActionRow) : Type 0 where
  within : row.attempt_count ≤ settings.outbound_max_attempts
  below : is_live row.status ≡ true → row.attempt_count < settings.outbound_max_attempts

due_live :
    (now delay : ℕ) (row : OutboundActionRow)
    → action_due now delay row ≡ true
    → is_live row.status ≡ true
unfolding action_due queued_action_due retryable_action_due
due_live now delay row h = ground arith

module _ (settings : Settings) where
  Step-Bounded :
      (row row' : OutboundActionRow) (n : ℕ)
      → Step settings row n row'
      → Bounded settings row
      → Bounded settings row' × (row'.attempt_count ≡ row.attempt_count + n)
  unfolding mark_row send_failure_mark failure_status row_to_outbound_action blocked_mark
      superseded_mark sent_mark next_attempt_at
  Step-Bounded _ _ _ (Step.claimed row now delay claimed_at due) b = (
    record { within = b.within; below = λ _. b.below (due_live now delay row due) },
    ground arith,
  )
  Step-Bounded _ _ _ (Step.failed row exc now now' running) b = (
    record { within = ground (arith, b.below); below = λ live. ground (arith, b.below) },
    ground arith,
  )
  Step-Bounded _ _ _ (Step.blocked row rule now running) b =
      (record { within = b.within; below = λ live. ground arith }, ground arith)
  Step-Bounded _ _ _ (Step.superseded row now running) b =
      (record { within = b.within; below = λ live. ground arith }, ground arith)
  Step-Bounded _ _ _ (Step.sent row id failure now running) b =
      (record { within = b.within; below = λ live. ground arith }, ground arith)

  Steps-Bounded :
      (row row' : OutboundActionRow) (n : ℕ)
      → Steps settings row n row'
      → Bounded settings row
      → Bounded settings row' × (row'.attempt_count ≡ row.attempt_count + n)
  Steps-Bounded _ _ _ (Steps.done row) b = (b, ground arith)
  Steps-Bounded _ _ _ (Steps.then row row' row'' m k steps step) b =
      let (b', e) = Steps-Bounded row row' m steps b in
      let (b'', e') = Step-Bounded row' row'' k step b' in (b'', omega (arith, e, e'))

-- A row that was queued with no attempt counts its failed sends exactly, and these are never more
-- than the configured maximum, which must allow one. While a row may still be claimed or is being
-- executed, an attempt is left.
pub Steps-attempts :
    (settings : Settings) (row row' : OutboundActionRow) (failures : ℕ)
    → row.status ≡ OutboundActionStatus.queued
    → row.attempt_count ≡ 0
    → 1 ≤ settings.outbound_max_attempts
    → Steps settings row failures row'
    → (row'.attempt_count ≡ failures)
      × (failures ≤ settings.outbound_max_attempts)
      × (is_live row'.status ≡ true → failures < settings.outbound_max_attempts)
Steps-attempts settings row row' failures new none_yet allowed steps =
    let (b, e) =
      Steps-Bounded settings row row' failures steps
        (record { within = omega (arith, none_yet); below = λ _. omega (arith, none_yet) }) in
    let count : row'.attempt_count ≡ failures = omega (arith, e, none_yet) in
    (count, omega (arith, count, b.within), λ live. omega (arith, count, b.below live))
