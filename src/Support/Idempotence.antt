-- ===== src/Support/Idempotence.antt =====
-- application/workflow.py, _queue_action: queueing twice.
use mathlib.Core.Path.{◌≡◌, refl}
use mathlib.Core.Logic.{inl, inr}
use mathlib.Core.Bool.{true, false}
use mathlib.Core.List.{[], ◌∷◌, ◌++◌}
use native.Mathlib.Omega.{arith}
use wootpilot.Prelude.Tests.{Bool-cases}
use wootpilot.Prelude.Lists.{any, any-of_mem, any-or, mem-append_right}
use wootpilot.Prelude.Text.{Text, str_eq, str_eq_refl}
use wootpilot.Domain.Messages.{NormalizedMessage}
use wootpilot.Domain.Catalog.{CatalogContext}
use wootpilot.Domain.Rules.{WorkflowDecision}
use wootpilot.Persistence.Rows.{OutboundActionRow, Db}
use wootpilot.Persistence.Queue.{insert_outbound_action}
use wootpilot.Support.Recording.{SupportWorkflow, Made, action_row, queue_action}

-- A row of the key is in the table after the insertion, unless the new row's id was taken.
key_taken :
    (db : Db) (row : OutboundActionRow)
    → any (λ r. str_eq row.id r.id) db.outbound_actions ≡ false
    → any
        (λ r. str_eq row.idempotency_key r.idempotency_key)
        (insert_outbound_action db row).1.outbound_actions
      ≡ true
unfolding insert_outbound_action
key_taken db row fresh =
    let same = λ (r : OutboundActionRow). str_eq row.idempotency_key r.idempotency_key in
    elim (Bool-cases (any same db.outbound_actions)) [
      | inl old ↦ rw (any-or same (λ r. str_eq row.id r.id) db.outbound_actions, old, old)
      | inr new ↦
          rw (any-or same (λ r. str_eq row.id r.id) db.outbound_actions, new, fresh)
            (any-of_mem same row (db.outbound_actions ++ row ∷ [])
              (mem-append_right row db.outbound_actions (row ∷ []) (inl refl))
              (str_eq_refl row.idempotency_key))
    ]

insert_again :
    (db : Db) (row : OutboundActionRow)
    → any (λ r. str_eq row.idempotency_key r.idempotency_key) db.outbound_actions ≡ true
    → (insert_outbound_action db row).1 ≡ db
unfolding insert_outbound_action
insert_again db row taken = rw (
  any-or (λ r. str_eq row.idempotency_key r.idempotency_key) (λ r. str_eq row.id r.id)
      db.outbound_actions,
  taken,
)

-- Queueing an action of a message again, with any other decision of the same kind, changes nothing,
-- whether or not the first time found a row of its key. The id made for the first row must be new.
pub queue_action-idempotent :
    (env env' : SupportWorkflow) (run_id run_id' : Text) (message : NormalizedMessage)
    (d d' : WorkflowDecision) (context context' : CatalogContext) (db : Db)
    → any (λ r. str_eq (env.new_id Made.action) r.id) db.outbound_actions ≡ false
    → env'.settings.automation_mode ≡ env.settings.automation_mode
    → d'.action_kind ≡ d.action_kind
    → queue_action env' run_id' message d' context' (queue_action env run_id message d context db)
      ≡ queue_action env run_id message d context db
unfolding queue_action action_row
queue_action-idempotent env env' run_id run_id' message d d' context context' db fresh mode kind =
    let row = action_row env run_id message d context in
    let row' = action_row env' run_id' message d' context' in
    let added = (insert_outbound_action db row).1 in
    let again : (insert_outbound_action added row').1 ≡ added =
      insert_again added row' (rw kind (key_taken db row fresh)) in
    ground arith
