-- ===== src/Persistence/DueTime.antt =====
-- persistence/repositories.py, next_outbound_action_due_at: the due time that the worker sleeps for, against what a claim finds.
use Prim.Native.Nat.{ℕ, suc, ◌+◌, ◌≤◌}
use mathlib.Core.Path.{◌≡◌, refl}
use mathlib.Core.Logic.{◌≢◌, ◌↔◌, inl, inr}
use mathlib.Core.Bool.{Bool, true, false, ◌&&◌, ◌||◌, not}
use mathlib.Core.Option.{Option, none, some}
use mathlib.Core.List.{List, [], ◌∷◌, map}
use native.Mathlib.Omega.{arith}
use wootpilot.Prelude.Tests.{leb, Bool-cases}
use wootpilot.Prelude.Lists.{any, filter, take}
use wootpilot.Domain.Rules.{is_public_message}
use wootpilot.Domain.Outbound.{is_queued}
use wootpilot.Persistence.Rows.{OutboundActionRow, Db}
use wootpilot.Persistence.Queue.{
  row_to_outbound_action, claim_row, queued_action_due, retryable_action_due, action_due,
  due_actions, order_by_created, min_over, min_option, insert_by_created,
  claim_queued_outbound_actions, private_queued_at, public_queued_at, retryable_due_at,
  next_outbound_action_due_at,
}

-- The time in an optional due time has come.
abbrev pub has_come : Option ℕ → ℕ → Bool
has_come none now = false
has_come (some t) now = leb t now

has_come-min :
    (a b : Option ℕ) (now : ℕ) → has_come (min_option a b) now ≡ (has_come a now || has_come b now)
has_come-min none b now = refl
has_come-min (some a) none now = ground arith
has_come-min (some a) (some b) now = ground arith

-- The three queries of next_outbound_action_due_at as functions of the table.
module _ (now later delay : ℕ) (passed : now ≤ later) where
  abbrev private_part : List OutboundActionRow → Option ℕ
  private_part rows = elim (min_over private_queued_at rows) [ none ↦ none | some _ ↦ some now ]

  abbrev public_part : List OutboundActionRow → Option ℕ
  public_part rows = elim (min_over public_queued_at rows) [
    | none ↦ none
    | some t ↦ some (t + delay)
  ]

  abbrev is_private_due : OutboundActionRow → Bool
  is_private_due r = is_queued r.status && not (is_public_message r.action_kind)

  abbrev is_public_due : OutboundActionRow → Bool
  is_public_due r =
      is_queued r.status && is_public_message r.action_kind && leb (r.created_at + delay) later

  private_come :
      (rows : List OutboundActionRow) → has_come (private_part rows) later ≡ any is_private_due rows
  unfolding any min_over
  private_come [] = refl
  private_come (r ∷ rows) = ground (arith, private_come rows)

  public_come :
      (rows : List OutboundActionRow) → has_come (public_part rows) later ≡ any is_public_due rows
  unfolding any min_over
  public_come [] = refl
  public_come (r ∷ rows) = ground (arith, public_come rows)

  retryable_come :
      (rows : List OutboundActionRow)
      → has_come (min_over retryable_due_at rows) later ≡ any (retryable_action_due later) rows
  unfolding any min_over retryable_action_due
  retryable_come [] = refl
  retryable_come (r ∷ rows) = ground (arith, retryable_come rows)

  split_due :
      (rows : List OutboundActionRow)
      → any (action_due later delay) rows ≡ (
          any is_private_due rows
          || (any is_public_due rows || any (retryable_action_due later) rows))
  unfolding any action_due queued_action_due
  split_due [] = refl
  split_due (r ∷ rows) = ground (arith, split_due rows)

  due_come :
      (db : Db)
      → has_come (next_outbound_action_due_at db now delay) later
        ≡ any (action_due later delay) db.outbound_actions
  unfolding next_outbound_action_due_at
  due_come db =
      let rows = db.outbound_actions in
      rw (
        has_come-min (private_part rows)
            (min_option (public_part rows) (min_over retryable_due_at rows)) later,
        has_come-min (public_part rows) (min_over retryable_due_at rows) later,
        private_come rows,
        public_come rows,
        retryable_come rows,
        split_due rows,
      )

filter_none :
    (p : OutboundActionRow → Bool) (rows : List OutboundActionRow)
    → any p rows ≡ false
    → filter p rows ≡ []
unfolding any filter
filter_none p [] h = refl
filter_none p (r ∷ rows) h = ground (arith, filter_none p rows)

filter_some :
    (p : OutboundActionRow → Bool) (rows : List OutboundActionRow)
    → any p rows ≡ true
    → filter p rows ≢ []
unfolding any filter
filter_some p [] h = absurd (ground arith)
filter_some p (r ∷ rows) h = ground (arith, filter_some p rows)

insert_by_created-ne :
    (r : OutboundActionRow) (rows : List OutboundActionRow) → insert_by_created r rows ≢ []
unfolding insert_by_created
insert_by_created-ne r [] h = cc
insert_by_created-ne r (q ∷ rows) h = ground arith

take_order_ne :
    (limit : ℕ) (rows : List OutboundActionRow)
    → rows ≢ []
    → take (suc limit) (order_by_created rows) ≢ []
unfolding order_by_created
take_order_ne limit [] h e = absurd (h refl)
take_order_ne limit (r ∷ rows) h e = ground (arith, insert_by_created-ne r (order_by_created rows))

map_nil : {A B : Type 0} (f : A → B) (xs : List A) → map f xs ≡ [] → xs ≡ []
map_nil f [] h = refl
map_nil f (x ∷ xs) h = cc

-- A claim returns nothing exactly when no row is due.
claim_nil :
    (db : Db) (limit now claimed_at delay : ℕ)
    → ((claim_queued_outbound_actions db (suc limit) now claimed_at delay).0 ≡ [])
      ↔ (any (action_due now delay) db.outbound_actions ≡ false)
unfolding claim_queued_outbound_actions due_actions order_by_created
claim_nil db limit now claimed_at delay = (forth, back)
  where
    due : List OutboundActionRow
    due = filter (action_due now delay) db.outbound_actions

    forth :
        (claim_queued_outbound_actions db (suc limit) now claimed_at delay).0 ≡ []
        → any (action_due now delay) db.outbound_actions ≡ false
    forth e = elim (Bool-cases (any (action_due now delay) db.outbound_actions)) [
      | inr idle ↦ idle
      | inl busy ↦ absurd (
          take_order_ne limit due (filter_some (action_due now delay) db.outbound_actions busy) (
            map_nil (λ r. row_to_outbound_action (claim_row claimed_at r))
              (take (suc limit) (order_by_created due)) e))
    ]

    back :
        any (action_due now delay) db.outbound_actions ≡ false
        → (claim_queued_outbound_actions db (suc limit) now claimed_at delay).0 ≡ []
    back h = rw (filter_none (action_due now delay) db.outbound_actions h, order_by_created)

-- The due time that the worker reads at `now` and sleeps for is exact: at any later time, with the
-- queue unchanged, a claim returns nothing exactly when that time is absent or has not come.
pub next_outbound_action_due_at-claim :
    (db : Db) (limit now later claimed_at delay : ℕ)
    → now ≤ later
    → ((claim_queued_outbound_actions db (suc limit) later claimed_at delay).0 ≡ [])
      ↔ (has_come (next_outbound_action_due_at db now delay) later ≡ false)
next_outbound_action_due_at-claim db limit now later claimed_at delay passed =
    rw (due_come now later delay passed db) (claim_nil db limit later claimed_at delay)
