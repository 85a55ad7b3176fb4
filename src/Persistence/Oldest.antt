-- ===== src/Persistence/Oldest.antt =====
-- persistence/repositories.py, claim_queued_outbound_actions: which of the due actions a claim hands
-- out.
use Prim.Native.Nat.{ℕ, zero, suc, ◌+◌, ◌≤◌}
use mathlib.Core.Path.{◌≡◌, refl, sym, subst, ◌∙◌, ap}
use mathlib.Core.Logic.{◌⊎◌, inl, inr}
use mathlib.Core.Bool.{true}
use mathlib.Core.Option.{some}
use mathlib.Core.List.{List, [], ◌∷◌, map}
use native.Mathlib.Omega.{arith}
use wootpilot.Prelude.Tests.{ltb, Bool-cases, Option-cases}
use wootpilot.Prelude.Lists.{
  ◌∈◌, filter, take, length, length-take, mem-filter_of_mem, mem-map, mem-map_cases,
}
use wootpilot.Domain.Rules.{AgentActionKind}
use wootpilot.Domain.Outbound.{OutboundActionStatus, QueuedOutboundAction}
use wootpilot.Persistence.Rows.{Db, OutboundActionRow}
use wootpilot.Persistence.Queue.{
  action_due, claim_queued_outbound_actions, claim_row, due_actions, insert_by_created,
  order_by_created, queued_action_due, retryable_action_due, row_to_outbound_action,
}
use wootpilot.Persistence.Claims.{mem-due_actions, mem-insert_by_created}

-- A row is due when it is queued, a public message for at least the delay, or when it waits for a
-- retry whose time has come.
pub data Due (now delay : ℕ) (row : OutboundActionRow) : Type 0 where
  waited :
      row.status ≡ OutboundActionStatus.queued
      → (row.action_kind ≡ AgentActionKind.public_message → row.created_at + delay ≤ now)
      → Due now delay row
  retried :
      row.status ≡ OutboundActionStatus.retryable_failure
      → (t : ℕ) → row.next_attempt_at ≡ some t
      → t ≤ now
      → Due now delay row

Due-passes :
    (now delay : ℕ) (row : OutboundActionRow) → Due now delay row → action_due now delay row ≡ true
unfolding action_due queued_action_due retryable_action_due
Due-passes now delay row (Due.waited queued old) = ground (arith, old)
Due-passes now delay row (Due.retried failed t next come) = ground arith

queued→Due :
    (now delay : ℕ) (row : OutboundActionRow)
    → queued_action_due now delay row ≡ true
    → Due now delay row
unfolding queued_action_due
queued→Due now delay row h = Due.waited (ground arith) (λ public. ground arith)

retryable→Due :
    (now delay : ℕ) (row : OutboundActionRow)
    → retryable_action_due now row ≡ true
    → Due now delay row
unfolding retryable_action_due
retryable→Due now delay row h = elim (Option-cases row.next_attempt_at) [
  | inl missing ↦ absurd (ground arith)
  | inr (t, next) ↦ Due.retried (ground arith) t next (ground arith)
]

action_due→Due :
    (now delay : ℕ) (row : OutboundActionRow) → action_due now delay row ≡ true → Due now delay row
unfolding action_due
action_due→Due now delay row h = elim (Bool-cases (queued_action_due now delay row)) [
  | inl queued ↦ queued→Due now delay row queued
  | inr other ↦ retryable→Due now delay row (ground arith)
]

Below : OutboundActionRow → List OutboundActionRow → Type 0
Below row rows = (x : OutboundActionRow) → x ∈ rows → row.created_at ≤ x.created_at

IsSorted : List OutboundActionRow → Type 0
IsSorted [] = Unit
IsSorted (row ∷ rows) = Below row rows × IsSorted rows

insert_by_created-IsSorted :
    (row : OutboundActionRow) (rows : List OutboundActionRow)
    → IsSorted rows
    → IsSorted (insert_by_created row rows)
unfolding insert_by_created IsSorted Below
insert_by_created-IsSorted row [] s = (λ x m. absurd m, tt)
insert_by_created-IsSorted row (r ∷ rows) (below, s) =
    elim (Bool-cases (ltb r.created_at row.created_at)) [
      | inl before ↦ rw before (
        λ x m. elim (mem-insert_by_created x row rows m) [
          | inl same ↦ ground (arith, ap (λ (q : OutboundActionRow). q.created_at) same)
          | inr among ↦ below x among
        ],
        insert_by_created-IsSorted row rows s,
      )
      | inr after ↦ rw after (
        λ x m. elim m [
          | inl same ↦ ground (arith, ap (λ (q : OutboundActionRow). q.created_at) same)
          | inr among ↦ ground (arith, below x among)
        ],
        (below, s),
      )
    ]

order_by_created-IsSorted : (rows : List OutboundActionRow) → IsSorted (order_by_created rows)
unfolding order_by_created IsSorted
order_by_created-IsSorted [] = tt
order_by_created-IsSorted (r ∷ rows) =
    insert_by_created-IsSorted r (order_by_created rows) (order_by_created-IsSorted rows)

mem-insert_by_created_of :
    (x r : OutboundActionRow) (rows : List OutboundActionRow)
    → x ∈ (r ∷ rows)
    → x ∈ insert_by_created r rows
unfolding insert_by_created
mem-insert_by_created_of x r [] m = m
mem-insert_by_created_of x r (q ∷ rows) m = ground (arith, mem-insert_by_created_of x r rows)

mem-order_by_created_of :
    (x : OutboundActionRow) (rows : List OutboundActionRow) → x ∈ rows → x ∈ order_by_created rows
unfolding order_by_created
mem-order_by_created_of x [] m = m
mem-order_by_created_of x (r ∷ rows) (inl same) =
    mem-insert_by_created_of x r (order_by_created rows) (inl same)
mem-order_by_created_of x (r ∷ rows) (inr m) =
    mem-insert_by_created_of x r (order_by_created rows) (inr (mem-order_by_created_of x rows m))

-- The first rows of a sorted list: another row of it is left out only for as many older ones.
take-oldest :
    (n : ℕ) (rows : List OutboundActionRow) (x : OutboundActionRow)
    → IsSorted rows
    → x ∈ rows
    → (x ∈ take n rows)
      ⊎ ((length (take n rows) ≡ n)
          × ((y : OutboundActionRow) → y ∈ take n rows → y.created_at ≤ x.created_at))
unfolding IsSorted Below
take-oldest zero rows x s m = inr (refl, λ y k. absurd k)
take-oldest (suc n) [] x s m = absurd m
take-oldest (suc n) (r ∷ rows) x s (inl same) = inl (inl same)
take-oldest (suc n) (r ∷ rows) x (below, s) (inr m) = elim (take-oldest n rows x s m) [
  | inl taken ↦ inl (inr taken)
  | inr (full, older) ↦ inr (
    ap suc full,
    λ y k. elim k [
      | inl same ↦
          subst (λ (q : OutboundActionRow). q.created_at ≤ x.created_at) (sym same) (below x m)
      | inr among ↦ older y among
    ],
  )
]

-- The claimed action of a row.
abbrev pub handed : OutboundActionRow → QueuedOutboundAction
handed row = record {
  id = row.id;
  tenant_id = row.tenant_id;
  channel_id = row.channel_id;
  conversation_id = row.conversation_id;
  source_message_id = row.source_message_id;
  action_kind = row.action_kind;
  content = row.content;
  safety_context = row.safety_context;
  status = OutboundActionStatus.executing;
  attempt_count = row.attempt_count;
}

length-map : {A B : Type 0} (f : A → B) (xs : List A) → length (map f xs) ≡ length xs
length-map f [] = refl
length-map f (x ∷ xs) = ap suc (length-map f xs)

-- What a claim of at most `limit` actions may hand out.
pub record TakesOldest (db : Db) (limit now delay : ℕ) (actions : List QueuedOutboundAction)
    : Type 0 where
  pub bounded : length actions ≤ limit
  pub sound :
      (a : QueuedOutboundAction)
      → a ∈ actions
      → (row : OutboundActionRow) × (row ∈ db.outbound_actions)
        × Due now delay row
        × (a ≡ handed row)
  pub oldest :
      (left : OutboundActionRow)
      → left ∈ db.outbound_actions
      → Due now delay left
      → (handed left ∈ actions)
        ⊎ ((length actions ≡ limit)
            × ((a : QueuedOutboundAction)
                → a ∈ actions
                → (row : OutboundActionRow) × (a ≡ handed row)
                  × (row.created_at ≤ left.created_at)))

-- A claim hands out at most `limit` actions. Each is executing and has the other fields of a row of
-- the table that is due: queued, a public message for at least the delay, or waiting for a retry
-- whose time has come. A due row is left out only where the claim is full, and then every action
-- handed out is that of a row created no later.
pub claim-TakesOldest :
    (db : Db) (limit now claimed_at delay : ℕ)
    → TakesOldest db limit now delay (claim_queued_outbound_actions db limit now claimed_at delay).0
unfolding claim_queued_outbound_actions row_to_outbound_action due_actions
claim-TakesOldest db limit now claimed_at delay =
    let make = λ (r : OutboundActionRow). row_to_outbound_action (claim_row claimed_at r) in
    let due = filter (action_due now delay) db.outbound_actions in
    let rows = due_actions limit now delay db.outbound_actions in
    record {
      bounded =
          subst (λ (n : ℕ). n ≤ limit) (sym (length-map make rows))
            (length-take limit (order_by_created due));
      sound = λ a m.
          let (row, among, made) = mem-map_cases make a rows m in
          let (listed, is_due) = mem-due_actions limit now delay row db.outbound_actions among in
          (row, listed, action_due→Due now delay row is_due, made);
      oldest = λ left listed is_due.
          let waiting = mem-order_by_created_of left due (
            mem-filter_of_mem (action_due now delay) left db.outbound_actions listed
              (Due-passes now delay left is_due)) in
          elim (take-oldest limit (order_by_created due) left (order_by_created-IsSorted due)
            waiting) [
              | inl taken ↦ inl (mem-map make left rows taken)
              | inr (full, older) ↦ inr (
                length-map make rows ∙ full,
                λ a m.
                    let (row, among, made) = mem-map_cases make a rows m in
                    (row, made, older row among),
              )
            ];
    }
