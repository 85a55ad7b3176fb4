-- ===== src/Persistence/Claims.antt =====
-- persistence/repositories.py, claim_queued_outbound_actions: what claims hand out.
use Prim.Native.Nat.{ℕ}
use mathlib.Core.Path.{◌≡◌, sym, ◌∙◌, ap}
use mathlib.Core.Logic.{◌≢◌, ◌⊎◌, inl, inr}
use mathlib.Core.Bool.{true, false}
use mathlib.Core.List.{List, [], ◌∷◌, map}
use native.Mathlib.Omega.{arith}
use wootpilot.Prelude.Tests.{if◌then◌else◌, Bool-cases}
use wootpilot.Prelude.Lists.{
  filter, ◌∈◌, mem_of_mem-filter, mem_of_mem-take, mem-map, mem-map_cases,
}
use wootpilot.Prelude.Text.{Text, mem_text, mem_text_iff}
use wootpilot.Domain.Outbound.{OutboundActionStatus, QueuedOutboundAction}
use wootpilot.Persistence.Rows.{OutboundActionRow, Db}
use wootpilot.Persistence.Queue.{
  row_to_outbound_action, action_due, queued_action_due, retryable_action_due, insert_by_created,
  order_by_created, due_actions, claim_row, id_of, claim_queued_outbound_actions,
}

pub mem-insert_by_created :
    (x r : OutboundActionRow) (rows : List OutboundActionRow)
    → x ∈ insert_by_created r rows
    → (x ≡ r) ⊎ (x ∈ rows)
unfolding insert_by_created
mem-insert_by_created x r [] m = m
mem-insert_by_created x r (q ∷ rows) m = ground (arith, mem-insert_by_created x r rows)

mem-order_by_created :
    (x : OutboundActionRow) (rows : List OutboundActionRow) → x ∈ order_by_created rows → x ∈ rows
unfolding order_by_created
mem-order_by_created x [] m = m
mem-order_by_created x (r ∷ rows) m = elim (mem-insert_by_created x r (order_by_created rows) m) [
  | inl e ↦ inl e
  | inr k ↦ inr (mem-order_by_created x rows k)
]

-- A selected row is a row of the table and is due.
pub mem-due_actions :
    (limit now delay : ℕ) (x : OutboundActionRow) (rows : List OutboundActionRow)
    → x ∈ due_actions limit now delay rows
    → (x ∈ rows) × (action_due now delay x ≡ true)
unfolding due_actions
mem-due_actions limit now delay x rows m = mem_of_mem-filter (action_due now delay) x rows (
    mem-order_by_created x (filter (action_due now delay) rows)
      (mem_of_mem-take limit x (order_by_created (filter (action_due now delay) rows)) m))

-- A row that is executing is not due, whatever the time.
executing_not_due :
    (now delay : ℕ) (r : OutboundActionRow)
    → r.status ≡ OutboundActionStatus.executing
    → action_due now delay r ≡ false
unfolding action_due queued_action_due retryable_action_due
executing_not_due now delay r h = ground arith

-- What a claim says of the row behind an action that it hands out.
pub record ClaimedRow (now delay : ℕ) (db : Db) (a : QueuedOutboundAction) : Type 0 where
  pub row : OutboundActionRow
  pub listed : row ∈ db.outbound_actions
  pub due : action_due now delay row ≡ true
  pub identified : a.id ≡ row.id
  pub executing : a.status ≡ OutboundActionStatus.executing

-- Every action that a claim hands out is executing, and stands for a row of the table that was due.
pub claim-ClaimedRow :
    (db : Db) (limit now claimed_at delay : ℕ) (a : QueuedOutboundAction)
    → a ∈ (claim_queued_outbound_actions db limit now claimed_at delay).0
    → ClaimedRow now delay db a
unfolding claim_queued_outbound_actions row_to_outbound_action
claim-ClaimedRow db limit now claimed_at delay a m =
    let (row, among, e) =
      mem-map_cases (λ r. row_to_outbound_action (claim_row claimed_at r)) a
        (due_actions limit now delay db.outbound_actions) m in
    let (listed, due) = mem-due_actions limit now delay row db.outbound_actions among in
    record {
      row = row;
      listed = listed;
      due = due;
      identified = ap (λ (q : QueuedOutboundAction). q.id) e;
      executing = ap (λ (q : QueuedOutboundAction). q.status) e;
    }

marked_executing :
    (ids : List Text) (claimed_at : ℕ) (r old : OutboundActionRow) (id : Text)
    → r ≡ (if mem_text old.id ids then claim_row claimed_at old else old)
    → id ∈ ids
    → id ≡ r.id
    → r.status ≡ OutboundActionStatus.executing
marked_executing ids claimed_at r old id e m same = elim (Bool-cases (mem_text old.id ids)) [
  | inl chosen ↦ ground arith
  | inr left ↦
      let known : old.id ≡ id = ground arith in cc (left, (mem_text_iff old.id ids).1 (rw known m))
]

-- After a claim, a row whose action was handed out is executing.
claimed_executing :
    (db : Db) (limit now claimed_at delay : ℕ) (a : QueuedOutboundAction) (r : OutboundActionRow)
    → a ∈ (claim_queued_outbound_actions db limit now claimed_at delay).0
    → r ∈ (claim_queued_outbound_actions db limit now claimed_at delay).1.outbound_actions
    → a.id ≡ r.id
    → r.status ≡ OutboundActionStatus.executing
unfolding claim_queued_outbound_actions row_to_outbound_action
claimed_executing db limit now claimed_at delay a r m k e =
    let rows = due_actions limit now delay db.outbound_actions in
    let ids = map id_of rows in
    let (row, among, made) =
      mem-map_cases (λ r. row_to_outbound_action (claim_row claimed_at r)) a rows m in
    let (old, listed, kept) =
      mem-map_cases (λ r. if mem_text r.id ids then claim_row claimed_at r else r) r
        db.outbound_actions k in
    marked_executing ids claimed_at r old row.id kept (mem-map id_of row rows among)
      (sym (ap (λ (q : QueuedOutboundAction). q.id) made) ∙ e)

-- An action that one claim hands out is in no later claim, at whatever time, as long as nothing
-- else has written to the queue.
pub claims_disjoint :
    (db : Db) (limit now claimed_at delay limit' now' claimed_at' delay' : ℕ)
    (a b : QueuedOutboundAction)
    → a ∈ (claim_queued_outbound_actions db limit now claimed_at delay).0
    → b
      ∈ (claim_queued_outbound_actions
          (claim_queued_outbound_actions db limit now claimed_at delay).1
          limit'
          now'
          claimed_at'
          delay').0
    → a.id ≢ b.id
claims_disjoint db limit now claimed_at delay limit' now' claimed_at' delay' a b m k e =
    let later = (claim_queued_outbound_actions db limit now claimed_at delay).1 in
    let second = claim-ClaimedRow later limit' now' claimed_at' delay' b k in
    let running =
      claimed_executing db limit now claimed_at delay a second.row m second.listed
        (e ∙ second.identified) in
    cc (second.due, executing_not_due now' delay' second.row running)
