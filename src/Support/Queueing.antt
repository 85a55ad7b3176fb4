-- ===== src/Support/Queueing.antt =====
-- application/workflow.py: what a run of the service adds to the queue.
use mathlib.Core.Path.{◌≡◌, refl, sym, ◌∙◌, ap, subst}
use mathlib.Core.Logic.{◌⊎◌, inl, inr}
use mathlib.Core.Bool.{◌||◌}
use mathlib.Core.Option.{Option, none, some}
use mathlib.Core.List.{[], ◌∷◌}
use native.Mathlib.Omega.{arith}
use wootpilot.Prelude.Tests.{Bool-cases}
use wootpilot.Prelude.Lists.{any, ◌∈◌, mem-append_cases}
use wootpilot.Prelude.Text.{Text, codes, str_eq}
use wootpilot.Domain.Messages.{NormalizedMessage, ConversationState}
use wootpilot.Domain.Catalog.{CatalogContext}
use wootpilot.Domain.Rules.{AgentActionKind, AgentRunStatus, WorkflowDecision}
use wootpilot.Domain.Outbound.{OutboundActionStatus, Failure, Result, ok, err, ◌>>=◌}
use wootpilot.Policy.Rules.{or_empty}
use wootpilot.Workflow.Graph.{WorkflowState, graph_input, run_graph}
use wootpilot.Workflow.Safety.{Approved, run_graph-Approved}
use wootpilot.Persistence.Rows.{OutboundActionRow, Db}
use wootpilot.Persistence.Repository.{
  insert_context_snapshot, insert_agent_run, insert_policy_decision, insert_audit_record, add_row,
}
use wootpilot.Persistence.Queue.{insert_outbound_action}
use wootpilot.Support.Recording.{
  SupportWorkflow, Made, insert_policy, load_catalog_context, action_row, queue_action,
  queue_decision, record_decision, record_result, run, catalog_snapshot_id, context_of,
}

-- A row after an insertion was there before or is the new row.
insert-row :
    (db : Db) (new row : OutboundActionRow)
    → row ∈ (insert_outbound_action db new).1.outbound_actions
    → (row ∈ db.outbound_actions) ⊎ (row ≡ new)
unfolding insert_outbound_action
insert-row db new row m =
    elim (Bool-cases (
      any (λ r. str_eq new.idempotency_key r.idempotency_key || str_eq new.id r.id)
        db.outbound_actions)) [
          | inl clash ↦ inl (rw clash at m)
          | inr free ↦ elim (mem-append_cases row db.outbound_actions (new ∷ []) (rw free at m)) [
            | inl old ↦ inl old
            | inr (inl e) ↦ inr e
            | inr (inr nowhere) ↦ absurd nowhere
          ]
        ]

module _ (env : SupportWorkflow) (message : NormalizedMessage) (state : ConversationState) where
  -- The context that the graph sees.
  unfoldable pub seen : CatalogContext → CatalogContext
  seen context = record context { snapshot_id = some (env.new_id Made.snapshot) }

  -- A public row that a run adds is queued with the text of an approved reply.
  pub record ApprovedRow (d : WorkflowDecision) (row : OutboundActionRow) : Type 0 where
    pub context : CatalogContext
    pub loaded : context_of message.content (env.search message.content) ≡ ok context
    pub approved : Approved env.nodes message state (seen context) env.settings.automation_mode d
    pub content : row.content ≡ or_empty d.content
    pub status : row.status ≡ OutboundActionStatus.queued

  -- A public row of the queue after a decision is recorded.
  queued-row :
      (run_id : Text) (d : WorkflowDecision) (context : CatalogContext) (db : Db)
      (row : OutboundActionRow)
      → row ∈ (queue_decision env run_id message d context db).outbound_actions
      → (row ∈ db.outbound_actions)
        ⊎ ((d.status ≡ AgentRunStatus.queued_action)
            × (row ≡ action_row env run_id message d context))
  unfolding queue_decision queue_action
  queued-row run_id d context db row m =
      let new = action_row env run_id message d context in ground (arith, insert-row db new row)

  recorded-queue :
      (context : CatalogContext) (s : WorkflowState) (d d' : WorkflowDecision) (db db' : Db)
      → record_decision env message context s d db ≡ ok (d', db')
      → (d' ≡ d)
        × (db'.outbound_actions
            ≡ (queue_decision env
                (env.new_id Made.agent_run)
                message
                d
                context
                db).outbound_actions)
  unfolding record_decision insert_agent_run insert_policy insert_policy_decision
      insert_audit_record add_row queue_decision queue_action insert_outbound_action
      catalog_snapshot_id
  recorded-queue context s d d' db db' h = ground arith

  loaded-queue :
      (db db' : Db) (context : CatalogContext)
      → load_catalog_context env message db ≡ ok (context, db')
      → (db'.outbound_actions ≡ db.outbound_actions)
        × ((answer : CatalogContext) × (context_of message.content (env.search message.content)
              ≡ ok answer)
            × (context ≡ seen answer))
  unfolding load_catalog_context insert_context_snapshot add_row seen
  loaded-queue db db' context h = ground arith

  -- A public row after a run that saw `context` and started its records from `db`.
  abbrev AddsApproved : CatalogContext → Db → WorkflowDecision → OutboundActionRow → Type 0
  AddsApproved context db d row =
      (row ∈ db.outbound_actions)
      ⊎ (Approved env.nodes message state context env.settings.automation_mode d
          × (row.content ≡ or_empty d.content)
          × (row.status ≡ OutboundActionStatus.queued))

  recorded-AddsApproved :
      (context : CatalogContext) (s : WorkflowState) (found : Option WorkflowDecision)
      (d : WorkflowDecision) (db db' : Db) (row : OutboundActionRow)
      → run_graph env.nodes (graph_input message state context env.settings.automation_mode) ≡ ok s
      → s.workflow_decision ≡ found
      → (elim found [
        | none ↦ err (Failure.unexpected (codes "KeyError"))
        | some decision ↦ record_decision env message context s decision db
      ])
        ≡ ok (d, db')
      → row ∈ db'.outbound_actions
      → row.action_kind ≡ AgentActionKind.public_message
      → AddsApproved context db d row
  unfolding record_result action_row
  recorded-AddsApproved context s none d db db' row ran decided h m public = absurd (ground arith)
  recorded-AddsApproved context s (some decision) d db db' row ran decided h m public =
      let (e, queue) = recorded-queue context s decision d db db' h in
      let run_id = env.new_id Made.agent_run in
      elim (queued-row run_id decision context db row (subst (λ q. row ∈ q) queue m)) [
        | inl old ↦ inl old
        | inr (queued, made) ↦ inr (
          run_graph-Approved env.nodes message state context env.settings.automation_mode s d ran
              (decided ∙ ap some (sym e)) (ap (λ (x : WorkflowDecision). x.status) e ∙ queued)
              (ap (λ (x : WorkflowDecision). x.action_kind) e
                ∙ (sym (ap (λ (x : OutboundActionRow). x.action_kind) made) ∙ public)),
          ap (λ (x : OutboundActionRow). x.content) made
              ∙ ap (λ (x : WorkflowDecision). or_empty x.content) (sym e),
          ap (λ (x : OutboundActionRow). x.status) made,
        )
      ]

  ran-AddsApproved :
      (context : CatalogContext) (r : Result WorkflowState) (d : WorkflowDecision) (db db' : Db)
      (row : OutboundActionRow)
      → run_graph env.nodes (graph_input message state context env.settings.automation_mode) ≡ r
      → (r >>= λ s. record_result env message context s db) ≡ ok (d, db')
      → row ∈ db'.outbound_actions
      → row.action_kind ≡ AgentActionKind.public_message
      → AddsApproved context db d row
  unfolding record_result
  ran-AddsApproved context (ok s) d db db' row ran h m public =
      recorded-AddsApproved context s s.workflow_decision d db db' row ran refl h m public
  ran-AddsApproved context (err e) d db db' row ran h m public = absurd (ground arith)

  loaded-ApprovedRow :
      (r : Result (CatalogContext × Db)) (d : WorkflowDecision) (db db' : Db)
      (row : OutboundActionRow)
      → load_catalog_context env message db ≡ r
      → (r >>= λ loaded.
          run_graph env.nodes (graph_input message state loaded.0 env.settings.automation_mode)
          >>= λ s. record_result env message loaded.0 s loaded.1)
        ≡ ok (d, db')
      → row ∈ db'.outbound_actions
      → row.action_kind ≡ AgentActionKind.public_message
      → (row ∈ db.outbound_actions) ⊎ ApprovedRow d row
  loaded-ApprovedRow (err e) d db db' row loaded h m public = absurd (ground arith)
  loaded-ApprovedRow (ok (context, db1)) d db db' row loaded h m public =
      let (queue, (answer, found, is_seen)) = loaded-queue db db1 context loaded in
      elim (ran-AddsApproved context
        (run_graph env.nodes (graph_input message state context env.settings.automation_mode)) d db1
        db' row refl h m public) [
          | inl old ↦ inl (subst (λ q. row ∈ q) queue old)
          | inr (approved, content, status) ↦ inr (record {
            context = answer;
            loaded = found;
            approved =
                subst (λ c. Approved env.nodes message state c env.settings.automation_mode d)
                  is_seen approved;
            content = content;
            status = status;
          })
        ]

-- When a run of the service returns, each public message in the queue was there before the run or is
-- queued with the text of a reply that was approved: public_reply mode, the gate, and a proposal that
-- may be published against the product facts that the connector gave for this message.
pub run-ApprovedRow :
    (env : SupportWorkflow) (message : NormalizedMessage) (state : ConversationState) (db db' : Db)
    (d : WorkflowDecision) (row : OutboundActionRow)
    → run env message state db ≡ ok (d, db')
    → row ∈ db'.outbound_actions
    → row.action_kind ≡ AgentActionKind.public_message
    → (row ∈ db.outbound_actions) ⊎ ApprovedRow env message state d row
unfolding run
run-ApprovedRow env message state db db' d row h m public =
    loaded-ApprovedRow env message state (load_catalog_context env message db) d db db' row refl h m
      public
