-- ===== src/Tests/SupportRuns.antt =====
-- Runs of the service on the customer's question.
use mathlib.Core.Path.{◌≡◌, refl, ◌∙◌, ap}
use mathlib.Core.Logic.{◌⊎◌, inl}
use mathlib.Core.Option.{Option, some}
use wootpilot.Prelude.Lists.{◌∈◌, any}
use wootpilot.Prelude.Text.{codes, str_eq}
use wootpilot.Policy.Rules.{pre_model_policy, validate_proposal}
use wootpilot.Domain.Catalog.{CatalogContext}
use wootpilot.Domain.Rules.{AutomationMode, WorkflowDecision}
use wootpilot.Domain.Outbound.{Result, ok, err, ◌>>=◌}
use wootpilot.Persistence.Rows.{Db, OutboundActionRow, empty_db}
use wootpilot.Persistence.Repository.{
  add_row, insert_agent_run, insert_audit_record, insert_context_snapshot, insert_policy_decision,
}
use wootpilot.Persistence.Queue.{insert_outbound_action}
use wootpilot.Workflow.Decisions.{public_message_decision}
use wootpilot.Workflow.Graph.{WorkflowState, final_workflow_decision, graph_input, run_graph}
use wootpilot.Support.Recording.{
  action_row, catalog_snapshot_id, insert_policy, load_catalog_context, queue_action,
  queue_decision, record_decision, record_result, run,
}
use wootpilot.Support.Queueing.{ApprovedRow, run-ApprovedRow}
use wootpilot.Support.Idempotence.{queue_action-idempotent}
use wootpilot.Tests.Fixtures.{calm, caps, question, reply, model}
use wootpilot.Tests.Services.{support}
use wootpilot.Tests.WorkflowRuns.{finished, finishes, decides}

abbrev again : Db
again = queue_action support (codes "g1") question (public_message_decision reply) caps empty_db

queue_action-idempotent_example :
    queue_action support (codes "g2") question (public_message_decision reply) caps again ≡ again
unfolding any
queue_action-idempotent_example =
    queue_action-idempotent support support (codes "g1") (codes "g2") question
      (public_message_decision reply) (public_message_decision reply) caps caps empty_db refl refl
      refl

-- The tables after the context is loaded, and the rest of the run.
abbrev loaded : Result (CatalogContext × Db) → Db
loaded (ok (context, db)) = db
loaded (err e) = empty_db

abbrev finish : Result WorkflowState → Result (WorkflowDecision × Db)
finish r = r >>= λ s.
    record_result support question caps s (loaded (load_catalog_context support question empty_db))

abbrev decided : WorkflowState
decided = record (finished AutomationMode.public_reply) {
  workflow_decision = some (public_message_decision reply);
}

abbrev tables : Result (WorkflowDecision × Db) → Db
tables (ok (d, db)) = db
tables (err e) = empty_db

abbrev after : Db
after = tables (finish (ok decided))

abbrev queued_reply : OutboundActionRow
queued_reply = action_row support (codes "g1") question (public_message_decision reply) caps

reaches_graph :
    run support question calm empty_db
    ≡ finish (run_graph model (graph_input question calm caps AutomationMode.public_reply))
unfolding run load_catalog_context insert_context_snapshot add_row any
reaches_graph = refl

reaches_decision :
    run_graph model (graph_input question calm caps AutomationMode.public_reply) ≡ ok decided
unfolding final_workflow_decision
reaches_decision =
    finishes AutomationMode.public_reply
    ∙ ap
        (λ (o : Option WorkflowDecision).
          ok (record (finished AutomationMode.public_reply) { workflow_decision = o }))
        (decides AutomationMode.public_reply)

records : finish (ok decided) ≡ ok (public_message_decision reply, after)
unfolding record_result record_decision load_catalog_context insert_context_snapshot
    insert_agent_run insert_policy insert_policy_decision insert_audit_record add_row any
    catalog_snapshot_id str_eq validate_proposal pre_model_policy public_message_decision
    queue_decision queue_action insert_outbound_action
records = refl

queued : queued_reply ∈ after.outbound_actions
unfolding record_result record_decision load_catalog_context insert_context_snapshot
    insert_agent_run insert_policy insert_policy_decision insert_audit_record add_row any
    catalog_snapshot_id queue_decision queue_action insert_outbound_action public_message_decision
    str_eq validate_proposal pre_model_policy
queued = inl refl

run-ApprovedRow_example :
    (queued_reply ∈ empty_db.outbound_actions)
    ⊎ ApprovedRow support question calm (public_message_decision reply) queued_reply
unfolding action_row public_message_decision
run-ApprovedRow_example =
    run-ApprovedRow support question calm empty_db after (public_message_decision reply)
      queued_reply (reaches_graph ∙ (ap finish reaches_decision ∙ records)) queued refl
